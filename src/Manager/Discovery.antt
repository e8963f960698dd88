-- ===== src/Manager/Discovery.antt =====
-- The discovery of accounts: `discover_accounts` (src/account_manager.rs). The synchronisation of
-- an account that is discovered is `perform_sync`, with the parameters that it has; what it
-- returns is an argument here, `none` where its fuel does not suffice.
pub mod Gaps
pub mod Termination
use wallet_rs.Prelude.{
  ℕ, zero, suc, ◌+◌, Bool, true, false, ◌&&◌, String, Option, none, some, List, [], ◌∷◌, ◌++◌, any,
  all, length, leb, ◌==◌, sub64, if◌then◌else◌,
}
use wallet_rs.Error.{Result, ok, err}
use wallet_rs.Address.Types.{Address}
use wallet_rs.Address.Outputs.{balance}
use wallet_rs.Message.Types.{Bytes}
use wallet_rs.Account.Types.{Account, SignerType, stronghold}
use wallet_rs.Sync.Remainder.{has_no_outputs}
use wallet_rs.Sync.Perform.{SyncedAccountData}
use wallet_rs.Manager.Accounts.{Entries, AccountManager}
use wallet_rs.Manager.Initialise.{AccountInitialiser, initialise}

-- The indexes of the accounts, as a set.
unfoldable pub index_set : Entries → List ℕ
index_set [] = []
index_set ((k, a) ∷ rest) =
    let later = index_set rest in if any (λ i. i == a.index) later then later else a.index ∷ later

-- Nothing was found for the account.
unfoldable pub is_empty_data : {M : Type 0} → SyncedAccountData M → Bool
unfolding balance
is_empty_data d = all (λ a. balance a == 0 && has_no_outputs a) d.addresses

abbrev pub Discovered : Type 0 → Type 0
Discovered M = List (Account × SyncedAccountData M)

-- An empty account ends the discovery; the subtractions wrap around.
abbrev pub is_last : List ℕ → ℕ → ℕ → Bool
is_last indexes threshold index = leb threshold (sub64 index (sub64 (length indexes) 1))

module _ {M : Type 0} where
  module _ (indexes : List ℕ) (threshold : ℕ) (initialise_at : ℕ → Result Account)
      (get_new_history : Account → Option (Result (SyncedAccountData M))) where
    -- The loop, one index at a time, with the empty accounts since the last used one, and the
    -- accounts that are returned.
    unfoldable pub discover : ℕ → ℕ → Discovered M → Discovered M → Option (Result (Discovered M))
    unfolding is_empty_data
    discover zero index empty_accounts synced_accounts = none
    discover (suc fuel) index empty_accounts synced_accounts =
        let skipped = discover fuel (index + 1) empty_accounts synced_accounts in
        if any (λ i. i == index) indexes then skipped else elim (initialise_at index) [
          | err e ↦ some (err e)
          | ok account ↦ elim (get_new_history account) [
            | none ↦ none
            | some (err e) ↦ some (ok synced_accounts)
            | some (ok data_) ↦
                let after_empty =
                  discover fuel (index + 1) (empty_accounts ++ ((account, data_) ∷ []))
                    synced_accounts in
                let after_used =
                  discover fuel (index + 1) []
                    (synced_accounts ++ (empty_accounts ++ ((account, data_) ∷ []))) in
                if is_empty_data data_
                then (if is_last indexes threshold index
                    then some (ok synced_accounts)
                    else after_empty)
                else after_used
          ]
        ]

-- The initialiser of an account that is discovered.
abbrev pub discovery_initialiser : Bytes → Option SignerType → ℕ → AccountInitialiser
discovery_initialiser client_options signer_type index = record {
  alias = none;
  created_at = none;
  addresses = [];
  client_options = client_options;
  signer_type = elim signer_type [ none ↦ some stronghold | some s ↦ some s ];
  skip_persistence = true;
  index = some index;
  allow_create_multiple_empty_accounts = false;
}

abbrev pub account_of_result : {A : Type 0} → Result (Account × A) → Result Account
account_of_result (err e) = err e
account_of_result (ok r) = ok r.0

module _ (derive : SignerType → ℕ → ℕ → Bool → Bool → Result ℕ) (network_hrp : Result String)
    (network_name : Bytes → Option String) (account_id : ℕ → String) (default_alias : ℕ → String)
    (storage_path : String) (address_le : Address → Address → Bool) (has_messages : Account → Bool)
    (now : ℕ) (allow_create_multiple_empty_accounts : Bool) {M : Type 0}
    (get_new_history : Account → Option (Result (SyncedAccountData M))) where
  unfoldable pub discover_accounts :
      ℕ
      → AccountManager
      → ℕ
      → Bytes
      → Option SignerType
      → Option (Result (List (Account × SyncedAccountData M)))
  unfolding discover index_set initialise
  discover_accounts fuel manager threshold client_options signer_type =
      discover (index_set manager.accounts) threshold
        (λ index. account_of_result (
          initialise derive network_hrp network_name account_id default_alias storage_path
            address_le has_messages now allow_create_multiple_empty_accounts
            (discovery_initialiser client_options signer_type index) manager))
        get_new_history fuel 0 [] []
