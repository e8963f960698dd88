-- ===== src/Manager/Initialise.antt =====
-- `AccountInitialiser::initialise` (src/account/mod.rs), for an account without local messages.
-- The signer, the node's network information, the network that the client options name, the hash
-- of an address, the default alias and the order of the texts of addresses are parameters. Saving
-- is taken to succeed.
pub mod Invariant
use text.Mathlib.Text.{◌==◌ as str_eq}
use wallet_rs.Prelude.{
  ℕ, ◌+◌, Bool, true, false, not, ◌&&◌, ◌||◌, String, Option, none, some, List, [], ◌∷◌, all, map,
  leb, ◌==◌, if◌then◌else◌,
}
use wallet_rs.Error.{
  Result, ok, err, ◌>>=◌, ◌>>◌, raise_if, ok_or, AccountInitialiseRequiredField,
  account_initialise_required_field, account_alias_already_exists, latest_account_is_empty,
  ledger_mnemonic_mismatch,
}
use wallet_rs.Address.Types.{AddressWrapper, Address}
use wallet_rs.Address.Builder.{set_bech32_hrp}
use wallet_rs.Address.Generate.{get_iota_address, unused_address, network}
use wallet_rs.Message.Types.{Bytes}
use wallet_rs.Account.Types.{
  Account, SignerType, stronghold, ledger_nano, ledger_nano_simulator, custom,
}
use wallet_rs.Sync.Remainder.{has_no_outputs, is_ledger, bech32_hrp}
use wallet_rs.Manager.Accounts.{Entries, AccountManager, insert_account}

pub record AccountInitialiser : Type 0 where
  pub alias : Option String
  pub created_at : Option ℕ
  pub addresses : List Address
  pub client_options : Bytes
  pub signer_type : Option SignerType
  pub skip_persistence : Bool
  pub index : Option ℕ
  pub allow_create_multiple_empty_accounts : Bool

-- The derived equalities.
unfoldable pub signer_eq : SignerType → SignerType → Bool
signer_eq stronghold stronghold = true
signer_eq ledger_nano ledger_nano = true
signer_eq ledger_nano_simulator ledger_nano_simulator = true
signer_eq (custom a) (custom b) = str_eq a b
signer_eq _ _ = false

abbrev pub bytes_eq : Bytes → Bytes → Bool
bytes_eq [] [] = true
bytes_eq (a ∷ as_) (b ∷ bs) = a == b && bytes_eq as_ bs
bytes_eq _ _ = false

-- The number of accounts with the signer type.
unfoldable pub count_signer : SignerType → Entries → ℕ
unfolding signer_eq
count_signer signer [] = 0
count_signer signer ((k, a) ∷ rest) =
    let later = count_signer signer rest in
    if signer_eq a.signer_type signer then later + 1 else later

-- The loop over the accounts, with the latest one and its index so far.
unfoldable pub latest_account : String → Option Account → ℕ → Entries → Result (Option Account)
latest_account alias latest latest_index [] = ok latest
latest_account alias latest latest_index ((k, a) ∷ rest) =
    let with_this = latest_account alias (some a) a.index rest in
    let without = latest_account alias latest latest_index rest in
    if str_eq a.alias alias
    then err account_alias_already_exists
    else if leb latest_index a.index
    then with_this
    else without

-- `Vec::sort` on the text forms.
unfoldable pub insert_address : (Address → Address → Bool) → Address → List Address → List Address
insert_address le a [] = a ∷ []
insert_address le a (b ∷ rest) =
    let later = insert_address le a rest in if le a b then a ∷ b ∷ rest else b ∷ later

unfoldable pub sort_addresses : (Address → Address → Bool) → List Address → List Address
unfolding insert_address
sort_addresses le [] = []
sort_addresses le (a ∷ rest) = insert_address le a (sort_addresses le rest)

-- An account without messages and outputs is only created once.
unfoldable pub check_latest : (Account → Bool) → Bool → Option Account → Result (Unit {0})
check_latest has_messages allowed none = ok tt
check_latest has_messages allowed (some latest) =
    raise_if (not allowed && not (has_messages latest) && all has_no_outputs latest.addresses)
      latest_account_is_empty

unfoldable pub hrp_for :
    Result String → (Bytes → Option String) → Bytes → Option Account → Result String
unfolding bech32_hrp
hrp_for network_hrp network_name options latest =
    let asked : Result String = elim latest [
      | none ↦ network_hrp
      | some a ↦ if bytes_eq a.client_options options then bech32_hrp a else network_hrp
    ] in
    elim (network_name options) [
      | none ↦ asked
      | some name ↦
          if str_eq name "testnet"
          then ok "atoi"
          else if str_eq name "mainnet" || str_eq name "chrysalis-mainnet"
          then ok "iota"
          else asked
    ]

-- The addresses of the account: the first one is generated if there is none.
unfoldable pub first_addresses :
    (ℕ → Bool → Bool → Result ℕ) → String → List Address → Result (Address × List Address)
unfolding get_iota_address set_bech32_hrp
first_addresses derive hrp [] = do
  address ← get_iota_address derive 0 false hrp true
  let first : Address = unused_address address 0 false
  ok (first, first ∷ [])
first_addresses derive hrp (a ∷ rest) =
    ok (set_bech32_hrp hrp a, set_bech32_hrp hrp a ∷ map (set_bech32_hrp hrp) rest)

-- On a ledger, the first address of the first account is kept, and those of the others are checked
-- against it.
unfoldable pub check_ledger :
    (ℕ → Bool → Bool → Result ℕ) → Account → Address → Option ℕ → Result (Option ℕ)
unfolding network
check_ledger derive account address first_ledger_address =
    if not (is_ledger account.signer_type)
    then ok first_ledger_address
    else if account.index == 0
    then ok (some address.address.inner)
    else (network account >>= λ n. derive 0 false true >>= λ generated. elim first_ledger_address [
      | none ↦ ok none
      | some kept ↦ raise_if (not (kept == generated)) ledger_mnemonic_mismatch >> ok (some kept)
    ])

-- An account that is not persisted is not put into the manager.
unfoldable pub with_account : Bool → Account → Option ℕ → AccountManager → AccountManager
unfolding insert_account
with_account true account kept manager = record manager { first_ledger_address = kept }
with_account false account kept manager = record manager {
  accounts = insert_account account.id account manager.accounts;
  stored = insert_account account.id account manager.stored;
  first_ledger_address = kept;
}

abbrev pub or_else : {A : Type 0} → Option A → A → A
or_else none a = a
or_else (some b) a = b

-- The index and the alias of the account.
abbrev pub index_for : AccountInitialiser → SignerType → Entries → ℕ
index_for init signer accounts = or_else init.index (count_signer signer accounts)

abbrev pub alias_for : (ℕ → String) → AccountInitialiser → ℕ → String
alias_for default_alias init index = or_else init.alias (default_alias (index + 1))

module _ (derive : SignerType → ℕ → ℕ → Bool → Bool → Result ℕ) (network_hrp : Result String)
    (network_name : Bytes → Option String) (account_id : ℕ → String) (default_alias : ℕ → String)
    (storage_path : String) (address_le : Address → Address → Bool) (has_messages : Account → Bool)
    (now : ℕ) (allow_create_multiple_empty_accounts : Bool) where
  -- The account that is made, and the first ledger address after it.
  unfoldable pub new_account : AccountInitialiser → AccountManager → Result (Account × Option ℕ)
  unfolding count_signer latest_account check_latest hrp_for first_addresses check_ledger
      sort_addresses
  new_account init manager = do
    signer ←
        ok_or init.signer_type
          (account_initialise_required_field AccountInitialiseRequiredField.signer_type)
    let index = index_for init signer manager.accounts
    latest ← latest_account (alias_for default_alias init index) none 0 manager.accounts
    checked ←
        check_latest has_messages
          (allow_create_multiple_empty_accounts || init.allow_create_multiple_empty_accounts) latest
    hrp ← hrp_for network_hrp network_name init.client_options latest
    made ← first_addresses (derive signer index) hrp (sort_addresses address_le init.addresses)
    let account : Account = record {
      id = account_id made.0.address.inner;
      signer_type = signer;
      index = index;
      alias = alias_for default_alias init index;
      created_at = or_else init.created_at now;
      last_synced_at = none;
      addresses = made.1;
      client_options = init.client_options;
      storage_path = storage_path;
      skip_persistence = init.skip_persistence;
      cached_messages = [];
    }
    kept ← check_ledger (derive signer 0) account made.0 manager.first_ledger_address
    ok (account, kept)

  -- The account, and the manager with it.
  unfoldable pub initialise :
      AccountInitialiser → AccountManager → Result (Account × AccountManager)
  unfolding new_account with_account
  initialise init manager = do
    (account, kept) ← new_account init manager
    ok (account, with_account init.skip_persistence account kept manager)
