-- ===== src/Storage/Messages/Paging.antt =====
-- The pages of `get_messages` (src/storage/mod.rs).
use wallet_rs.Prelude.{ℕ, ◌≤◌, ◌≡◌, ◌⊎◌, length, String, List, [], ◌++◌}
use wallet_rs.Error.{Result, ok, ◌>>=◌}
use wallet_rs.Message.Types.{MessagePayload, Message}
use wallet_rs.Account.Types.{Account}
use wallet_rs.Storage.Types.{MessageIndexation}
use wallet_rs.Storage.Store.{StorageAdapter, Cipher, Store}
use wallet_rs.Storage.Messages.{Json, read_messages}

-- A page of `count` entries, or of fewer at the end of the index.
abbrev pub IsPage : ℕ → List MessageIndexation → List MessageIndexation → Type 0
IsPage count middle after = (length middle ≡ count) ⊎ ((length middle ≤ count) × (after ≡ []))

module _ (storage_hash : MessagePayload → ℕ) (message_key : ℕ → String)
    (message_json : Json Message) {S K : Type 0} (adapter : StorageAdapter S) (cipher : Cipher K)
    (index_json : Json (List MessageIndexation)) (message_index_key : String → String) where
  abbrev Read : List MessageIndexation → Store S K → Result (List Message)
  Read =
      read_messages storage_hash message_key message_json adapter cipher index_json
        message_index_key

  -- One page after the other.
  abbrev pub joined : Result (List Message) → Result (List Message) → Result (List Message)
  joined a b = a >>= λ xs. b >>= λ ys. ok (xs ++ ys)
