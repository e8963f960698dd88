-- ===== src/Storage/Messages/Reading.antt =====
-- Reading a message back after `save_messages` (src/storage/mod.rs).
use wallet_rs.Prelude.{
  ℕ, ◌≡◌, refl, sym, ◌∙◌, ap, inl, inr, none, some, String, List, [], Option-cases, Elem,
}
use wallet_rs.Error.{ok, err, Result-cases, ◌>>=◌}
use wallet_rs.Message.Types.{MessagePayload, Message}
use wallet_rs.Account.Types.{Account}
use wallet_rs.Storage.Types.{MessageIndexation}
use wallet_rs.Storage.Store.{
  StorageAdapter, Cipher, IsAdapter, IsCipher, Store, store_get, store_set, store_batch_set,
}
use wallet_rs.Storage.Store.Laws.{store_get-store_batch_set}
use wallet_rs.Storage.Messages.{
  StorageManager, Json, or_empty, index_at, account_index, set_account_index, index_messages,
  write_messages, save_messages, message_indexation, get_message,
}
use wallet_rs.Storage.Messages.Records.{Has-Elem, Recorded-Elem}
use wallet_rs.Storage.Messages.Index.{view, view-save_messages}

module _ (storage_hash : MessagePayload → ℕ) where
  module _ (message_key : ℕ → String) (message_json : Json Message) where
    -- Messages whose records share a key are the same message.
    abbrev pub Distinct : List Message → Type 0
    Distinct ms =
        (a b : Message) → Elem a ms → Elem b ms → message_key a.id ≡ message_key b.id → a ≡ b

    module _ {S K : Type 0} (adapter : StorageAdapter S) (cipher : Cipher K)
        (index_json : Json (List MessageIndexation)) (message_index_key : String → String) where
      write_messages-ok :
          (id : String) (index : List MessageIndexation) (records : List (String × String))
          (s s' : Store S K)
          → write_messages storage_hash message_key message_json adapter cipher index_json
              message_index_key id index records s
            ≡ (ok tt, s')
          → (before : Store S K) × (store_batch_set adapter cipher records before ≡ ok s')
      unfolding write_messages
      write_messages-ok id index records s s' h =
          elim (Result-cases (
            index_json.to_string index >>= λ json.
            store_set adapter cipher (message_index_key id) json s)) [
              | inr (er, e) ↦
                  let step : write_messages storage_hash message_key message_json adapter cipher
                        index_json message_index_key id index records s
                      ≡ (err er, s) =
                    rw (write_messages, e) in
                  absurd (cc)
              | inl (s1, e) ↦ elim (Result-cases (store_batch_set adapter cipher records s1)) [
                | inr (er, e') ↦
                    let step : write_messages storage_hash message_key message_json adapter cipher
                          index_json message_index_key id index records s
                        ≡ (err er, s1) =
                      rw (write_messages, e, e') in
                    absurd (cc)
                | inl (s2, e') ↦
                    let h' : (ok tt, s2) ≡ (ok tt, s') = sym (rw (write_messages, e, e')) ∙ h in
                    let same : s2 ≡ s' = ap (λ r. r.1) h' in (s1, e' ∙ ap ok same)
              ]
            ]

      -- What a successful save wrote.
      written-save_messages :
          (account : Account) (messages : List Message) (s s' : StorageManager S K)
          → save_messages storage_hash message_key message_json adapter cipher index_json
              message_index_key account messages s
            ≡ (ok tt, s')
          → (records : List (String × String)) × (before : Store S K) × ((index_messages
                storage_hash message_key message_json account.addresses messages []
                (or_empty (account_index account.id s.message_indexation))).0
              ≡ ok records)
            × (store_batch_set adapter cipher records before ≡ ok s'.storage)
      unfolding save_messages write_messages
      written-save_messages account messages s s' h =
          let index = or_empty (account_index account.id s.message_indexation) in
          let indexed =
            index_messages storage_hash message_key message_json account.addresses messages []
              index in
          let indexes = set_account_index account.id indexed.1 s.message_indexation in
          elim (Result-cases indexed.0) [
            | inr (er, e) ↦
                let step : save_messages storage_hash message_key message_json adapter cipher
                      index_json message_index_key account messages s
                    ≡ (err er, record s { message_indexation = indexes }) =
                  rw (save_messages, e) in
                absurd (cc)
            | inl (records, e) ↦
                let written =
                  write_messages storage_hash message_key message_json adapter cipher index_json
                    message_index_key account.id indexed.1 records s.storage in
                let step : save_messages storage_hash message_key message_json adapter cipher
                      index_json message_index_key account messages s
                    ≡ (written.0, record s { message_indexation = indexes; storage = written.1 }) =
                  rw (save_messages, e) in
                let done : written ≡ (ok tt, s'.storage) =
                  ap (λ r. (r.0, r.1.storage)) (sym step ∙ h) in
                let (before, saved) =
                  write_messages-ok account.id indexed.1 records s.storage s'.storage done in
                (records, before, e, saved)
          ]

      get_message-at :
          (account : Account) (id : ℕ) (s : StorageManager S K) {entry : MessageIndexation}
          {json : String}
          → index_at id (or_empty (account_index account.id s.message_indexation)) ≡ some entry
          → entry.key ≡ id
          → store_get adapter cipher (message_key id) s.storage ≡ ok json
          → get_message storage_hash message_key message_json adapter cipher index_json
              message_index_key account id s
            ≡ message_json.from_str json
      unfolding get_message message_indexation
      get_message-at account id s {entry} {json} found key read =
          elim (Option-cases (account_index account.id s.message_indexation)) [
            | inl e ↦
                let nothing : none ≡ some entry =
                  ap (λ i. index_at id (or_empty i)) (sym e) ∙ found in
                absurd (cc)
            | inr (index, e) ↦
                let here_at : index_at id index ≡ some entry =
                  ap (λ i. index_at id (or_empty i)) (sym e) ∙ found in
                let read' : store_get adapter cipher (message_key entry.key) s.storage ≡ ok json =
                  ap (λ k. store_get adapter cipher (message_key k) s.storage) key ∙ read in
                rw e (rw here_at (rw read' refl))
          ]

      -- A message that was saved is read back, encrypted or not: if the save succeeds, the storage
      -- returns what was written, the cipher inverts itself, and the messages of the list whose
      -- records share a key are the same, then `get_message` returns each message of the list that
      -- its JSON form returns.
      pub get_message-save_messages :
          IsAdapter adapter
          → IsCipher cipher
          → (account : Account) (messages : List Message) (s s' : StorageManager S K)
          → Distinct messages
          → save_messages storage_hash message_key message_json adapter cipher index_json
              message_index_key account messages s
            ≡ (ok tt, s')
          → (m : Message) → Elem m messages
          → ((text : String)
              → message_json.to_string m ≡ ok text
              → message_json.from_str text ≡ ok m)
          → get_message storage_hash message_key message_json adapter cipher index_json
              message_index_key account m.id s'
            ≡ ok m
      get_message-save_messages store claw account messages s s' distinct h m at parses =
          let seen =
            view-save_messages storage_hash message_key message_json adapter cipher index_json
              message_index_key account messages s s' h in
          let (entry, own, key) =
            Has-Elem storage_hash account.addresses
              (view storage_hash message_key message_json adapter cipher index_json
                message_index_key account.id s)
              at in
          let (records, before, looped, saved) = written-save_messages account messages s s' h in
          let (j, rec, text) =
            Recorded-Elem storage_hash message_key message_json account.addresses []
              (or_empty (account_index account.id s.message_indexation))
              (λ n a e. distinct n m a at e) looped at in
          let read =
            store_get-store_batch_set adapter cipher store claw records before s'.storage
              (message_key m.id) j saved rec in
          let back = parses j text in
          let entry_at : view storage_hash message_key message_json adapter cipher index_json
                message_index_key account.id s' m.id
              ≡ some entry =
            seen.0 m.id ∙ own in
          get_message-at account m.id s' entry_at key read ∙ back
