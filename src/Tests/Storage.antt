-- ===== src/Tests/Storage.antt =====
-- The messages of an account in a storage that is a list of records.
use text.Mathlib.Text.{◌==◌ as str_eq}
use text.Mathlib.TextEquality.{eq_iff}
use wallet_rs.Prelude.{
  subst, ℕ, ◌≡◌, ◌≢◌, refl, sym, ap, ◌∙◌, inl, inr, true, false, not, none, some, String, List, [],
  ◌∷◌, ◌++◌, filter, Bool-cases, if◌then◌else◌, here, there, ◌==◌,
}
use wallet_rs.Error.{ok, ok_or, record_not_found, ok_injective}
use wallet_rs.Message.Types.{MessagePayload, Message}
use wallet_rs.Account.Types.{Account}
use wallet_rs.Storage.Types.{MessageIndexation}
use wallet_rs.Storage.Store.{
  StorageAdapter, Cipher, IsAdapter, IsCipher, record_at, store_set, store_batch_set, encode_all,
  encode,
}
use wallet_rs.Storage.Messages.{
  StorageManager, Json, save_messages, index_messages, write_messages, get_message, index_of,
  message_flags, insert_record, upsert_index, account_index, set_account_index, message_indexation,
}
use wallet_rs.Storage.Messages.Index.{view, put_all, view-save_messages}
use wallet_rs.Storage.Messages.Reading.{Distinct, get_message-save_messages}
use wallet_rs.Tests.Wallet.{address_of, output, pending, account_of}

abbrev Records : Type 0
Records = List (String × String)

abbrev records_adapter : StorageAdapter Records
records_adapter = record {
  get = λ key s. ok_or (record_at key s) record_not_found;
  set = λ key v s. ok ((key, v) ∷ s);
  batch_set = λ records s. ok (records ++ s);
  remove = λ key s. ok (filter (λ r. not (str_eq r.0 key)) s);
}

record_at-append :
    (key : String) (records s : Records)
    → ok_or (record_at key (records ++ s)) record_not_found ≡ (elim (record_at key records) [
      | none ↦ ok_or (record_at key s) record_not_found
      | some v ↦ ok v
    ])
record_at-append key [] s = refl
record_at-append key ((k, v) ∷ rest) s = elim (Bool-cases (str_eq k key)) [
  | inl e ↦ rw e refl
  | inr e ↦ rw e (record_at-append key rest s)
]

records_adapter-IsAdapter : IsAdapter records_adapter
records_adapter-IsAdapter = record {
  get-set = λ key other v s s' h.
      ap (λ t. ok_or (record_at other t) record_not_found) (sym (ok_injective h))
      ∙ elim (Bool-cases (str_eq key other)) [ inl e ↦ rw e refl | inr e ↦ rw e refl ];
  get-batch_set = λ records other s s' h.
      ap (λ t. ok_or (record_at other t) record_not_found) (sym (ok_injective h))
      ∙ record_at-append other records s;
}

-- Records are stored as they are.
abbrev plain_cipher : Cipher ℕ
plain_cipher = record { encrypt = λ k v. ok v; decrypt = λ k v. ok v; is_bytes = λ v. true }

plain_cipher-IsCipher : IsCipher plain_cipher
plain_cipher-IsCipher = record { decrypt-encrypt = λ k v e h. (sym h, refl) }

abbrev message_7 : Message
message_7 = record (pending 0) { id = 7 }

abbrev message_8 : Message
message_8 = record (pending 1) { id = 8; confirmed = some true }

abbrev message_json : Json Message
message_json = record {
  to_string = λ m. ok (if m.id == 7 then "seven" else "eight");
  from_str = λ t. ok (if str_eq t "seven" then message_7 else message_8);
}

abbrev index_json : Json (List MessageIndexation)
index_json = record { to_string = λ i. ok "index"; from_str = λ t. ok [] }

abbrev message_key : ℕ → String
message_key id = if id == 7 then "message 7" else "message 8"

abbrev message_index_key : String → String
message_index_key id = "messages"

abbrev storage_hash : MessagePayload → ℕ
storage_hash p = 3

abbrev owner : Account
owner = account_of (address_of 1 (output 1 0 2_000_000 ∷ []) ∷ [])

abbrev empty_manager : StorageManager Records ℕ
empty_manager = record {
  storage = record { inner = []; encryption_key = some 5 };
  account_indexation = [];
  message_indexation = [];
}

abbrev both : List Message
both = message_7 ∷ message_8 ∷ []

abbrev saved_manager : StorageManager Records ℕ
saved_manager =
    (save_messages storage_hash message_key message_json records_adapter plain_cipher index_json
      message_index_key owner both empty_manager).1

both_saved :
    save_messages storage_hash message_key message_json records_adapter plain_cipher index_json
      message_index_key owner both empty_manager
    ≡ (ok tt, saved_manager)
unfolding save_messages index_messages write_messages store_set store_batch_set encode_all encode
    index_of message_flags insert_record upsert_index account_index set_account_index
both_saved = refl

view-save_messages_example :
    ((k : ℕ)
      → view storage_hash message_key message_json records_adapter plain_cipher index_json
          message_index_key owner.id saved_manager k
        ≡ put_all storage_hash owner.addresses both
            (view storage_hash message_key message_json records_adapter plain_cipher index_json
              message_index_key owner.id empty_manager)
            k)
    × ((id : String)
        → id ≢ owner.id
        → (k : ℕ)
        → view storage_hash message_key message_json records_adapter plain_cipher index_json
            message_index_key id saved_manager k
          ≡ view storage_hash message_key message_json records_adapter plain_cipher index_json
              message_index_key id empty_manager k)
view-save_messages_example =
    view-save_messages storage_hash message_key message_json records_adapter plain_cipher index_json
      message_index_key owner both empty_manager saved_manager both_saved

distinct : Distinct storage_hash message_key message_json both
distinct a b here here e = refl
distinct a b here (there here) e =
    let bad : false ≡ true = (eq_iff "message 7" "message 8").1 e in absurd (cc)
distinct a b (there here) here e =
    let bad : false ≡ true = (eq_iff "message 8" "message 7").1 e in absurd (cc)
distinct a b (there here) (there here) e = refl
distinct a b here (there (there x)) e = elim x [ ]
distinct a b (there here) (there (there x)) e = elim x [ ]
distinct a b (there (there x)) y e = elim x [ ]

get_message-save_messages_example :
    get_message storage_hash message_key message_json records_adapter plain_cipher index_json
      message_index_key owner 8 saved_manager
    ≡ ok message_8
get_message-save_messages_example =
    get_message-save_messages storage_hash message_key message_json records_adapter plain_cipher
      index_json message_index_key records_adapter-IsAdapter plain_cipher-IsCipher owner both
      empty_manager saved_manager distinct both_saved message_8 (there here)
      (λ text h.
        let t : "eight" ≡ text = ok_injective h in
        subst (λ x. message_json.from_str x ≡ ok message_8) t refl)

abbrev entry_7 : List MessageIndexation
entry_7 = index_of storage_hash owner.addresses message_7 ∷ []

abbrev entry_8 : List MessageIndexation
entry_8 = index_of storage_hash owner.addresses message_8 ∷ []
