-- ===== src/Storage/Accounts.antt =====
-- The accounts and the participations in the storage (src/storage/mod.rs). JSON, the keys of the
-- records and the test whether a text is a JSON object are parameters.
use text.Mathlib.Text.{◌==◌ as str_eq}
use wallet_rs.Prelude.{Bool, none, some, String, List, [], ◌∷◌, ◌++◌, any, if◌then◌else◌}
use wallet_rs.Error.{Result, ok, err, ◌>>=◌, record_not_found, storage_is_encrypted}
use wallet_rs.Account.Types.{Account}
use wallet_rs.Storage.Types.{MessageIndexation, AccountIndexation}
use wallet_rs.Storage.Store.{StorageAdapter, Cipher, store_get, store_set, store_remove}
use wallet_rs.Storage.Messages.{Indexes, StorageManager, Json, account_index, set_account_index}

-- `init_account_dependency_index`
unfoldable pub init_index : String → Indexes → Indexes
unfolding set_account_index account_index
init_index id indexes = elim (account_index id indexes) [
  | none ↦ set_account_index id [] indexes
  | some index ↦ indexes
]

abbrev pub is_indexed : String → List AccountIndexation → Bool
is_indexed key indexes = any (λ i. str_eq i.key key) indexes

-- `Vec::remove` at the position of the key.
unfoldable pub remove_index : String → List AccountIndexation → List AccountIndexation
remove_index key [] = []
remove_index key (i ∷ rest) =
    let later = remove_index key rest in if str_eq i.key key then rest else i ∷ later

-- A record that is not found is an empty index.
unfoldable pub index_or_empty :
    Json (List MessageIndexation) → Result String → Result (List MessageIndexation)
index_or_empty json (ok text) = json.from_str text
index_or_empty json (err record_not_found) = ok []
index_or_empty json (err e) = err e

module _ {S K : Type 0} (adapter : StorageAdapter S) (cipher : Cipher K) where
  -- A value under a key, and back: what the participations, their address and their outputs use.
  unfoldable pub save_value :
      {A : Type 0} → Json A → String → A → StorageManager S K → Result (StorageManager S K)
  unfolding store_set
  save_value json key a s = do
    text ← json.to_string a
    storage ← store_set adapter cipher key text s.storage
    ok (record s { storage = storage })

  unfoldable pub get_value : {A : Type 0} → Json A → String → StorageManager S K → Result A
  unfolding store_get
  get_value json key s = do text ← store_get adapter cipher key s.storage; json.from_str text

  module _ (account_json : Json Account) (index_json : Json (List AccountIndexation))
      (message_index_json : Json (List MessageIndexation)) (message_index_key : String → String)
      (account_indexation_key : String) (is_object : String → Bool) where
    -- The result, and the manager as the call leaves it.
    unfoldable pub save_account :
        String → Account → StorageManager S K → Result (Unit {0}) × StorageManager S K
    unfolding save_value init_index
    save_account key account s = elim (save_value account_json key account s) [
      | err e ↦ (err e, s)
      | ok written ↦
          let indexed : StorageManager S K =
            if is_indexed key written.account_indexation then written else record written {
              message_indexation = init_index key written.message_indexation;
              account_indexation = written.account_indexation ++ (record { key = key } ∷ []);
            } in
          elim (save_value index_json account_indexation_key indexed.account_indexation indexed) [
            | err e ↦ (err e, indexed)
            | ok saved ↦ (ok tt, saved)
          ]
    ]

    unfoldable pub remove_account :
        String → StorageManager S K → Result (Unit {0}) × StorageManager S K
    unfolding save_value store_remove remove_index
    remove_account key s =
        let removed : StorageManager S K = record s {
          account_indexation = remove_index key s.account_indexation;
        } in
        let result : Result (Unit {0}) × StorageManager S K =
          elim (save_value index_json account_indexation_key removed.account_indexation removed) [
            | err e ↦ (err e, removed)
            | ok saved ↦ elim (store_remove adapter cipher key saved.storage) [
              | err e ↦ (err e, saved)
              | ok storage ↦ (ok tt, record saved { storage = storage })
            ]
          ] in
        if is_indexed key s.account_indexation then result else (err record_not_found, s)

    -- `parse_accounts`: a text that is no object was not decrypted.
    unfoldable pub parse_accounts : String → List String → Result (List Account)
    parse_accounts storage_path [] = ok []
    parse_accounts storage_path (text ∷ rest) =
        (if is_object text then account_json.from_str text else err storage_is_encrypted)
        >>= λ account. parse_accounts storage_path rest >>= λ later.
            ok (record account { storage_path = storage_path } ∷ later)

    -- The records of the accounts, with their message indexes loaded.
    unfoldable pub load_accounts :
        List AccountIndexation → StorageManager S K → Result (List String) × StorageManager S K
    unfolding index_or_empty store_get set_account_index
    load_accounts [] s = (ok [], s)
    load_accounts (i ∷ rest) s = elim (store_get adapter cipher i.key s.storage) [
      | err e ↦ (err e, s)
      | ok text ↦
          elim (index_or_empty message_index_json
            (store_get adapter cipher (message_index_key i.key) s.storage)) [
              | err e ↦ (err e, s)
              | ok index ↦
                  let later = load_accounts rest (record s {
                    message_indexation = set_account_index i.key index s.message_indexation;
                  }) in
                  (later.0 >>= λ texts. ok (text ∷ texts), later.1)
            ]
    ]

    -- The account index is read from the storage if it is empty; that it cannot be read is no
    -- error.
    unfoldable pub load_index : StorageManager S K → Result (StorageManager S K)
    unfolding store_get
    load_index s = elim s.account_indexation [
      | i ∷ rest ↦ ok s
      | [] ↦ elim (store_get adapter cipher account_indexation_key s.storage) [
        | err e ↦ ok s
        | ok text ↦
            index_json.from_str text >>= λ index. ok (record s { account_indexation = index })
      ]
    ]

    unfoldable pub get_accounts :
        String → StorageManager S K → Result (List Account) × StorageManager S K
    unfolding load_index load_accounts parse_accounts
    get_accounts storage_path s = elim (load_index s) [
      | err e ↦ (err e, s)
      | ok indexed ↦
          let loaded = load_accounts indexed.account_indexation indexed in
          (loaded.0 >>= parse_accounts storage_path, loaded.1)
    ]
