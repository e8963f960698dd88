-- ===== src/Storage/Messages/Index.antt =====
-- The message index as a map from keys to entries.
use text.Mathlib.Text.{◌==◌ as str_eq}
use text.Mathlib.TextEquality.{eq_iff}
use wallet_rs.Prelude.{
  ℕ, ◌≡◌, ◌≢◌, refl, sym, ◌∙◌, ap, inl, inr, Option, some, String, List, [], ◌∷◌, arith, ◌==◌,
  if◌then◌else◌,
}
use wallet_rs.Error.{ok, err, Result-cases}
use wallet_rs.Address.Types.{Address}
use wallet_rs.Message.Types.{MessagePayload, Message}
use wallet_rs.Account.Types.{Account}
use wallet_rs.Storage.Types.{MessageIndexation}
use wallet_rs.Storage.Store.{StorageAdapter, Cipher}
use wallet_rs.Storage.Messages.{
  Indexes, StorageManager, Json, or_empty, index_at, upsert_index, account_index, set_account_index,
  index_of, insert_record, index_messages, write_messages, save_messages,
}

-- The index as its readers see it.
abbrev pub IndexMap : Type 0
IndexMap = ℕ → Option MessageIndexation

-- One entry more, in the place of the one with its key.
abbrev pub put : MessageIndexation → IndexMap → IndexMap
put e f = λ k. if e.key == k then some e else f k

index_at-upsert_index :
    (k : ℕ) (e : MessageIndexation) (l : List MessageIndexation)
    → index_at k (upsert_index e l) ≡ put e (λ j. index_at j l) k
unfolding upsert_index
index_at-upsert_index k e [] = refl
index_at-upsert_index k e (i ∷ l) = ground (arith, index_at-upsert_index k e l)

account_index-set_account_index :
    (id other : String) (index : List MessageIndexation) (m : Indexes)
    → account_index other (set_account_index id index m)
      ≡ (if str_eq id other then some index else account_index other m)
unfolding account_index set_account_index
account_index-set_account_index id other index [] = refl
account_index-set_account_index id other index ((k, i) ∷ m) = ground (
  arith,
  account_index-set_account_index id other index m,
  eq_iff k id,
  eq_iff k other,
  eq_iff id other,
)

account_index-set_same :
    (id : String) (index : List MessageIndexation) (m : Indexes)
    → account_index id (set_account_index id index m) ≡ some index
account_index-set_same id index m =
    ground (arith, account_index-set_account_index id id index m, eq_iff id id)

account_index-set_other :
    (id other : String) (index : List MessageIndexation) (m : Indexes)
    → other ≢ id
    → account_index other (set_account_index id index m) ≡ account_index other m
account_index-set_other id other index m h =
    ground (arith, account_index-set_account_index id other index m, eq_iff id other)

module _ (storage_hash : MessagePayload → ℕ) where
  -- What saving messages does to such a map: the entries go in one after the other.
  abbrev pub put_all : List Address → List Message → IndexMap → IndexMap
  put_all addresses [] f = f
  put_all addresses (m ∷ rest) f =
      put_all addresses rest (put (index_of storage_hash addresses m) f)

  module _ (message_key : ℕ → String) (message_json : Json Message) where
    put_all-ext :
        (addresses : List Address) (ms : List Message) (f g : IndexMap)
        → ((k : ℕ) → f k ≡ g k)
        → (k : ℕ) → put_all addresses ms f k ≡ put_all addresses ms g k
    put_all-ext addresses [] f g h k = h k
    put_all-ext addresses (m ∷ ms) f g h k =
        put_all-ext addresses ms (put (index_of storage_hash addresses m) f)
          (put (index_of storage_hash addresses m) g) (λ j. ground (arith, h j)) k

    index_messages-put_all :
        (addresses : List Address) (ms : List Message) (records : List (String × String))
        (index : List MessageIndexation) {rs : List (String × String)}
        → (index_messages storage_hash message_key message_json addresses ms records index).0
          ≡ ok rs
        → (k : ℕ)
        → index_at k
            (index_messages storage_hash message_key message_json addresses ms records index).1
          ≡ put_all addresses ms (λ j. index_at j index) k
    unfolding index_messages
    index_messages-put_all addresses [] records index h k = refl
    index_messages-put_all addresses (m ∷ ms) records index {rs} h k =
        elim (Result-cases (message_json.to_string m)) [
          | inl (json, e) ↦
              let entry = index_of storage_hash addresses m in
              let next = insert_record (message_key m.id) json records in
              let step : index_messages storage_hash message_key message_json addresses (m ∷ ms)
                    records index
                  ≡ index_messages storage_hash message_key message_json addresses ms next
                      (upsert_index entry index) =
                rw (index_messages, e) in
              ap (λ r. index_at k r.1) step
              ∙ index_messages-put_all addresses ms next (upsert_index entry index)
                  (ap (λ r. r.0) (sym step) ∙ h) k
              ∙ put_all-ext addresses ms (λ j. index_at j (upsert_index entry index))
                  (put entry (λ j. index_at j index)) (λ j. index_at-upsert_index j entry index) k
          | inr (er, e) ↦
              let step : index_messages storage_hash message_key message_json addresses (m ∷ ms)
                    records index
                  ≡ (err er, index) =
                rw (index_messages, e) in
              let failed : err er ≡ ok rs = ap (λ r. r.0) (sym step) ∙ h in absurd (cc)
        ]

    module _ {S K : Type 0} (adapter : StorageAdapter S) (cipher : Cipher K)
        (index_json : Json (List MessageIndexation)) (message_index_key : String → String) where
      -- What the readers of an account's index see.
      abbrev pub view : String → StorageManager S K → IndexMap
      view id s k = index_at k (or_empty (account_index id s.message_indexation))

      -- Saving messages, if it succeeds, puts their entries into the map that the readers of the
      -- account's index see, the later ones over the earlier ones, and changes no other account's
      -- index.
      pub view-save_messages :
          (account : Account) (messages : List Message) (s s' : StorageManager S K)
          → save_messages storage_hash message_key message_json adapter cipher index_json
              message_index_key account messages s
            ≡ (ok tt, s')
          → ((k : ℕ)
              → view account.id s' k ≡ put_all account.addresses messages (view account.id s) k)
            × ((id : String) → id ≢ account.id → (k : ℕ) → view id s' k ≡ view id s k)
      unfolding save_messages
      view-save_messages account messages s s' h =
          let index = or_empty (account_index account.id s.message_indexation) in
          let indexed =
            index_messages storage_hash message_key message_json account.addresses messages []
              index in
          let indexes = set_account_index account.id indexed.1 s.message_indexation in
          elim (Result-cases indexed.0) [
            | inr (er, e) ↦
                let step : save_messages storage_hash message_key message_json adapter cipher
                      index_json message_index_key account messages s
                    ≡ (err er, record s { message_indexation = indexes }) =
                  rw (save_messages, e) in
                absurd (cc)
            | inl (records, e) ↦
                let written =
                  write_messages storage_hash message_key message_json adapter cipher index_json
                    message_index_key account.id indexed.1 records s.storage in
                let step : save_messages storage_hash message_key message_json adapter cipher
                      index_json message_index_key account messages s
                    ≡ (written.0, record s { message_indexation = indexes; storage = written.1 }) =
                  rw (save_messages, e) in
                let same : s'.message_indexation ≡ indexes =
                  ap (λ r. r.1.message_indexation) (sym h ∙ step) in
                (
                  λ k.
                      ap (λ m. index_at k (or_empty (account_index account.id m))) same
                      ∙ ap (λ i. index_at k (or_empty i))
                          (account_index-set_same account.id indexed.1 s.message_indexation)
                      ∙ index_messages-put_all account.addresses messages [] index e k,
                  λ id other k.
                      ap (λ m. index_at k (or_empty (account_index id m))) same
                      ∙ ap (λ i. index_at k (or_empty i))
                          (account_index-set_other account.id id indexed.1 s.message_indexation
                            other),
                )
          ]
