-- ===== src/Tests/Manager.antt =====
-- A manager with one account: a second one is created, the first one is removed, and others are
-- discovered.
use wallet_rs.Prelude.{
  ℕ, ◌+◌, ◌*◌, ◌≡◌, refl, if◌then◌else◌, Bool, true, false, String, Option, none, some, [], ◌∷◌,
  ◌==◌, length, sub64, fold64, add64,
}
use wallet_rs.Error.{Result, ok, err}
use wallet_rs.Address.Types.{Address}
use wallet_rs.Address.Builder.{set_bech32_hrp}
use wallet_rs.Address.Generate.{get_iota_address}
use wallet_rs.Address.Outputs.{balance}
use wallet_rs.Message.Types.{Bytes}
use wallet_rs.Account.Types.{Account, SignerType, stronghold}
use wallet_rs.Sync.Perform.{SyncedAccountData}
use wallet_rs.Manager.Accounts.{AccountManager, AccountIdentifier, insert_account}
use wallet_rs.Manager.Initialise.{
  AccountInitialiser, initialise, new_account, with_account, count_signer, signer_eq,
  latest_account, check_latest, hrp_for, first_addresses, check_ledger, sort_addresses,
  insert_address,
}
use wallet_rs.Manager.Initialise.Invariant.{WellFormed, initialise-WellFormed}
use wallet_rs.Manager.Removal.{Removes, outcome, remove_account-WellFormed}
use wallet_rs.Manager.Discovery.{Discovered, discover_accounts, discover, index_set, is_empty_data}
use wallet_rs.Manager.Discovery.Gaps.{HasNoGaps, discover_accounts-HasNoGaps}
use wallet_rs.Tests.Wallet.{address_of, output, account_of}

abbrev derive : SignerType → ℕ → ℕ → Bool → Bool → Result ℕ
derive signer account key_index internal syncing = ok (100 * account + key_index + 1)

abbrev account_id : ℕ → String
account_id inner = if inner == 101 then "second" else if inner == 1 then "first" else "third"

abbrev account_name : ℕ → String
account_name n = if n == 1 then "Account 1" else if n == 2 then "Account 2" else "Account 3"

abbrev network_name : Bytes → Option String
network_name options = some "testnet"

abbrev any_order : Address → Address → Bool
any_order a b = true

abbrev no_history : Account → Bool
no_history a = false

abbrev one : Account
one = record (account_of (address_of 0 (output 0 0 2_000_000 ∷ []) ∷ [])) {
  id = "first";
  alias = "Account 1";
}

abbrev manager : AccountManager
manager = record {
  accounts = ("first", one) ∷ [];
  stored = ("first", one) ∷ [];
  first_ledger_address = none;
}

abbrev init : AccountInitialiser
init = record {
  alias = some "savings";
  created_at = none;
  addresses = [];
  client_options = [];
  signer_type = some stronghold;
  skip_persistence = false;
  index = none;
  allow_create_multiple_empty_accounts = false;
}

well : WellFormed manager.accounts
well = (((refl, λ e. absurd (cc)), tt), (tt, tt))

abbrev created_by : AccountManager → AccountManager
created_by m =
    elim (initialise derive (ok "atoi") network_name account_id account_name "db" any_order
      no_history 0 false init m) [ ok r ↦ r.1 | err e ↦ m ]

abbrev created : Account × AccountManager
created =
    elim (initialise derive (ok "atoi") network_name account_id account_name "db" any_order
      no_history 0 false init manager) [ ok r ↦ r | err e ↦ (one, manager) ]

is_created :
    initialise derive
      (ok "atoi")
      network_name
      account_id
      account_name
      "db"
      any_order
      no_history
      0
      false
      init
      manager
    ≡ ok created
unfolding initialise new_account with_account insert_account count_signer signer_eq latest_account
    check_latest hrp_for first_addresses check_ledger sort_addresses insert_address get_iota_address
    set_bech32_hrp
is_created = refl

initialise-WellFormed_example : WellFormed created.1.accounts
initialise-WellFormed_example =
    initialise-WellFormed derive (ok "atoi") network_name account_id account_name "db" any_order
      no_history 0 false init manager well is_created

two_accounts : length created.1.accounts ≡ 2
unfolding initialise new_account with_account insert_account count_signer signer_eq latest_account
    check_latest hrp_for first_addresses check_ledger sort_addresses insert_address get_iota_address
    set_bech32_hrp
two_accounts = refl

-- After the first of two accounts was removed, the number of accounts is the index of the one that
-- is left, which a new account with an alias of its own then replaces.
abbrev left : Account
left = record (account_of (address_of 0 (output 0 0 2_000_000 ∷ []) ∷ [])) {
  id = "second";
  alias = "Account 2";
  index = 1;
}

abbrev after_removal : AccountManager
after_removal = record {
  accounts = ("second", left) ∷ [];
  stored = ("second", left) ∷ [];
  first_ledger_address = none;
}

replaced : length (created_by after_removal).accounts ≡ 1
unfolding initialise new_account with_account insert_account count_signer signer_eq latest_account
    check_latest hrp_for first_addresses check_ledger sort_addresses insert_address get_iota_address
    set_bech32_hrp
replaced = refl

remove_account-WellFormed_example :
    let ended =
      outcome
        (λ n. true)
        (λ a. [])
        (λ a. ok [])
        (ok tt)
        (AccountIdentifier.alias "Account 1")
        manager in
    Removes
      (λ n. true)
      (λ a. [])
      (λ a. ok [])
      (ok tt)
      (AccountIdentifier.alias "Account 1")
      manager
      ended.0
      ended.1
    × WellFormed ended.1.accounts
remove_account-WellFormed_example =
    remove_account-WellFormed (λ n. true) (λ a. []) (λ a. ok []) (ok tt)
      (AccountIdentifier.alias "Account 1") manager (tt, tt) well

-- The second account is used, the third is empty.
abbrev history : Account → Option (Result (SyncedAccountData ℕ))
history a = some (
    ok (record {
      messages = [];
      addresses = (if a.index == 2 then address_of 5 (output 5 1 1_000_000 ∷ []) ∷ [] else []);
    }))

abbrev discovered : Discovered ℕ
discovered =
    elim (discover_accounts derive (ok "atoi") network_name account_id account_name "db" any_order
      no_history 0 false history 5 manager 2 [] none) [ some (ok r) ↦ r | _ ↦ [] ]

is_discovered :
    discover_accounts derive
      (ok "atoi")
      network_name
      account_id
      account_name
      "db"
      any_order
      no_history
      0
      false
      history
      5
      manager
      2
      []
      none
    ≡ some (ok discovered)
unfolding sub64 fold64 add64 discover_accounts discover index_set is_empty_data balance initialise
    new_account with_account insert_account count_signer signer_eq latest_account check_latest
    hrp_for first_addresses check_ledger sort_addresses insert_address get_iota_address
    set_bech32_hrp
is_discovered = refl

two_discovered : length discovered ≡ 2
unfolding sub64 fold64 add64 discover_accounts discover index_set is_empty_data balance initialise
    new_account with_account insert_account count_signer signer_eq latest_account check_latest
    hrp_for first_addresses check_ledger sort_addresses insert_address get_iota_address
    set_bech32_hrp
two_discovered = refl

discover_accounts-HasNoGaps_example : HasNoGaps (index_set manager.accounts) discovered
discover_accounts-HasNoGaps_example =
    discover_accounts-HasNoGaps derive (ok "atoi") network_name account_id account_name "db"
      any_order no_history 0 false history 5 manager 2 [] none is_discovered
