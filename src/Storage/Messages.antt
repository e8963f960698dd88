-- ===== src/Storage/Messages.antt =====
-- The messages of an account in the storage (src/storage/mod.rs). JSON, the hash of a payload and
-- the text of a message id are parameters.
pub mod Index
pub mod Records
pub mod Reading
pub mod Paging
use text.Mathlib.Text.{◌==◌ as str_eq}
use wallet_rs.Prelude.{
  ℕ, Bool, true, false, not, Option, none, some, String, List, [], ◌∷◌, find, filter, take, drop,
  ltb, ◌==◌, if◌then◌else◌,
}
use wallet_rs.Error.{Result, ok, err, ◌>>=◌, ok_or, record_not_found}
use wallet_rs.Address.Types.{Address}
use wallet_rs.Message.Types.{
  MessagePayload, MessageTransactionPayload, TransactionRegularEssence, Message,
}
use wallet_rs.Message.Essence.{is_incoming}
use wallet_rs.Storage.Types.{
  MessageIndexation, MessageType, AccountIndexation, EventIndexation, received, sent, failed,
  unconfirmed, value, confirmed,
}
use wallet_rs.Storage.Store.{StorageAdapter, Cipher, Store, store_get, store_set, store_batch_set}
use wallet_rs.Account.Types.{Account}

-- The first entry with a key.
abbrev pub index_at : ℕ → List MessageIndexation → Option MessageIndexation
index_at key = find (λ i. i.key == key)

-- An entry replaces the first one with its key, or is appended.
unfoldable pub upsert_index : MessageIndexation → List MessageIndexation → List MessageIndexation
upsert_index e [] = e ∷ []
upsert_index e (i ∷ rest) =
    let later = upsert_index e rest in if i.key == e.key then e ∷ rest else i ∷ later

-- The value, the internal and the incoming flag of a message.
unfoldable pub message_flags : List Address → Option MessagePayload → ℕ × Option Bool × Option Bool
message_flags addresses (some (MessagePayload.transaction tx)) =
    (tx.essence.value, some tx.essence.internal, some (is_incoming addresses tx.essence.inputs))
message_flags addresses (some _) = (0, none, none)
message_flags addresses none = (0, none, none)

-- `HashMap::insert`, on a list of entries.
unfoldable pub insert_record : String → String → List (String × String) → List (String × String)
insert_record key v [] = (key, v) ∷ []
insert_record key v ((k, w) ∷ rest) =
    let later = insert_record key v rest in if str_eq k key then (k, v) ∷ rest else (k, w) ∷ later

-- The type that a query asks for.
unfoldable pub type_matches : Option MessageType → MessageIndexation → Bool
type_matches none m = true
type_matches (some received) m = elim m.incoming [ none ↦ false | some b ↦ b ]
type_matches (some sent) m = elim m.incoming [ none ↦ false | some b ↦ not b ]
type_matches (some failed) m = not m.broadcasted
type_matches (some unconfirmed) m = elim m.confirmed [ none ↦ true | some b ↦ false ]
type_matches (some value) m = ltb 0 m.value
type_matches (some confirmed) m = elim m.confirmed [ none ↦ false | some b ↦ true ]

-- Entries that were reattached are passed over.
unfoldable pub query_matches : Option MessageType → MessageIndexation → Bool
unfolding type_matches
query_matches message_type m = elim m.reattachment_message_id [
  | some id ↦ false
  | none ↦ type_matches message_type m
]

-- The indexes of all accounts; the first entry of an account counts.
abbrev pub Indexes : Type 0
Indexes = List (String × List MessageIndexation)

unfoldable pub account_index : String → Indexes → Option (List MessageIndexation)
account_index id [] = none
account_index id ((k, index) ∷ rest) = if str_eq k id then some index else account_index id rest

unfoldable pub set_account_index : String → List MessageIndexation → Indexes → Indexes
set_account_index id index [] = (id, index) ∷ []
set_account_index id index ((k, i) ∷ rest) =
    let later = set_account_index id index rest in
    if str_eq k id then (k, index) ∷ rest else (k, i) ∷ later

-- The state of `StorageManager` that messages and accounts use.
pub record StorageManager (S K : Type 0) : Type 0 where
  pub storage : Store S K
  pub account_indexation : List AccountIndexation
  pub message_indexation : Indexes

-- `serde_json` on a type.
pub record Json (A : Type 0) : Type 0 where
  pub to_string : A → Result String
  pub from_str : String → Result A

abbrev pub or_empty : Option (List MessageIndexation) → List MessageIndexation
or_empty none = []
or_empty (some index) = index

-- `skip(skip)` and then `take(count)`, where a count of zero takes all.
abbrev pub page : ℕ → ℕ → List MessageIndexation → List MessageIndexation
page count skip index = if count == 0 then drop skip index else take count (drop skip index)

-- The `incoming` flag of a message that is read is that of its entry: `unwrap_or_default`.
unfoldable pub with_incoming : Option Bool → Message → Message
with_incoming incoming m = elim m.payload [
  | some (MessagePayload.transaction tx) ↦ record m {
    payload = some (
        MessagePayload.transaction (record tx {
          essence = record tx.essence { incoming = elim incoming [ none ↦ false | some b ↦ b ] };
        }));
  }
  | other ↦ m
]

module _ (storage_hash : MessagePayload → ℕ) where
  -- The entry of a message.
  unfoldable pub index_of : List Address → Message → MessageIndexation
  unfolding message_flags
  index_of addresses m =
      let flags = message_flags addresses m.payload in
      record {
        key = m.id;
        payload_hash = elim m.payload [ none ↦ none | some p ↦ some (storage_hash p) ];
        internal = flags.1;
        incoming = flags.2;
        broadcasted = m.broadcasted;
        confirmed = m.confirmed;
        value = flags.0;
        reattachment_message_id = none;
      }

  module _ (message_key : ℕ → String) (message_json : Json Message) where
    -- The loop of `save_messages`: the records to write, or the error of the first message that is
    -- not serialised, and the index, which keeps what the loop did before the error.
    unfoldable pub index_messages :
        List Address
        → List Message
        → List (String × String)
        → List MessageIndexation
        → Result (List (String × String)) × List MessageIndexation
    unfolding index_of insert_record upsert_index
    index_messages addresses [] records index = (ok records, index)
    index_messages addresses (m ∷ rest) records index = elim (message_json.to_string m) [
      | err e ↦ (err e, index)
      | ok json ↦
          index_messages addresses rest (insert_record (message_key m.id) json records)
            (upsert_index (index_of addresses m) index)
    ]

    module _ {S K : Type 0} (adapter : StorageAdapter S) (cipher : Cipher K)
        (index_json : Json (List MessageIndexation)) (message_index_key : String → String) where
      -- What follows the loop: the index is written, then the records. If the second fails, the
      -- first stays written.
      unfoldable pub write_messages :
          String
          → List MessageIndexation
          → List (String × String)
          → Store S K
          → Result (Unit {0}) × Store S K
      write_messages id index records s =
          elim (index_json.to_string index >>= λ json.
          store_set adapter cipher (message_index_key id) json s) [
            | err e ↦ (err e, s)
            | ok s' ↦ elim (store_batch_set adapter cipher records s') [
              | err e ↦ (err e, s')
              | ok s'' ↦ (ok tt, s'')
            ]
          ]

      -- The result, and the manager as the call leaves it.
      unfoldable pub save_messages :
          Account → List Message → StorageManager S K → Result (Unit {0}) × StorageManager S K
      unfolding index_messages write_messages
      save_messages account messages s =
          let index = or_empty (account_index account.id s.message_indexation) in
          let indexed = index_messages account.addresses messages [] index in
          let indexes = set_account_index account.id indexed.1 s.message_indexation in
          elim indexed.0 [
            | err e ↦ (err e, record s { message_indexation = indexes })
            | ok records ↦
                let written = write_messages account.id indexed.1 records s.storage in
                (written.0, record s { message_indexation = indexes; storage = written.1 })
          ]

      unfoldable pub message_indexation :
          Account → StorageManager S K → Result (List MessageIndexation)
      message_indexation account s =
          ok_or (account_index account.id s.message_indexation) record_not_found

      unfoldable pub query_message_indexation :
          Account → Option MessageType → StorageManager S K → Result (List MessageIndexation)
      unfolding message_indexation
      query_message_indexation account message_type s = do
        index ← message_indexation account s
        ok (filter (query_matches message_type) index)

      unfoldable pub get_message : Account → ℕ → StorageManager S K → Result Message
      unfolding message_indexation
      get_message account id s = do
        index ← message_indexation account s
        entry ← ok_or (index_at id index) record_not_found
        json ← store_get adapter cipher (message_key entry.key) s.storage
        message_json.from_str json

      -- A record that is no message is passed over.
      unfoldable pub read_messages : List MessageIndexation → Store S K → Result (List Message)
      unfolding with_incoming
      read_messages [] s = ok []
      read_messages (i ∷ rest) s = do
        json ← store_get adapter cipher (message_key i.key) s
        later ← read_messages rest s
        ok (elim (message_json.from_str json) [
          | err e ↦ later
          | ok m ↦ with_incoming i.incoming m ∷ later
        ])

      unfoldable pub get_messages :
          Account → ℕ → ℕ → Option MessageType → StorageManager S K → Result (List Message)
      unfolding query_message_indexation read_messages
      get_messages account count skip message_type s = do
        index ← query_message_indexation account message_type s
        read_messages (page count skip index) s.storage
