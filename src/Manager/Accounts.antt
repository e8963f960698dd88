-- ===== src/Manager/Accounts.antt =====
-- The accounts of a manager: `get_account`, `get_accounts` and `remove_account`
-- (src/account_manager.rs). A `HashMap` is the list of its entries; `stored` is what the storage
-- has of the accounts, where writing is taken to succeed. What the storage has of messages is a
-- parameter.
use text.Mathlib.Text.{◌==◌ as str_eq}
use wallet_rs.Prelude.{
  ℕ, Bool, String, Option, none, some, List, [], ◌∷◌, any, ltb, leb, ◌==◌, if◌then◌else◌,
}
use wallet_rs.Error.{
  Result, ok, err, ◌>>=◌, ◌>>◌, raise_if, ok_or, account_not_empty, record_not_found,
  cannot_use_index_identifier,
}
use wallet_rs.Address.Types.{AddressWrapper, address_eq}
use wallet_rs.Message.Types.{Message}
use wallet_rs.Account.Types.{Account}
use wallet_rs.Account.Balance.{balance_internal}
use wallet_rs.Storage.Types.{MessageIndexation}

abbrev pub Entries : Type 0
Entries = List (String × Account)

pub record AccountManager : Type 0 where
  pub accounts : Entries
  pub stored : Entries
  pub first_ledger_address : Option ℕ

pub data AccountIdentifier : Type 0 where
  id alias : String → AccountIdentifier
  index : ℕ → AccountIdentifier
  address : AddressWrapper → AccountIdentifier

-- `HashMap::insert`
unfoldable pub insert_account : String → Account → Entries → Entries
insert_account key account [] = (key, account) ∷ []
insert_account key account ((k, a) ∷ rest) =
    let later = insert_account key account rest in
    if str_eq k key then (k, account) ∷ rest else (k, a) ∷ later

-- `HashMap::remove`
unfoldable pub remove_entry : String → Entries → Entries
remove_entry key [] = []
remove_entry key ((k, a) ∷ rest) =
    let later = remove_entry key rest in if str_eq k key then rest else (k, a) ∷ later

abbrev pub entry_at : String → Entries → Option Account
entry_at key [] = none
entry_at key ((k, a) ∷ rest) = if str_eq k key then some a else entry_at key rest

-- The first account that passes a test.
abbrev pub find_account : (Account → Bool) → Entries → Option Account
find_account p [] = none
find_account p ((k, a) ∷ rest) = if p a then some a else find_account p rest

-- The loop over the indexes, with the account found so far.
unfoldable pub find_index : ℕ → Option Account → Entries → Result (Option Account)
find_index i found [] = ok found
find_index i none ((k, a) ∷ rest) =
    let with_this = find_index i (some a) rest in
    let without = find_index i none rest in if a.index == i then with_this else without
find_index i (some b) ((k, a) ∷ rest) =
    let without = find_index i (some b) rest in
    if a.index == i then err cannot_use_index_identifier else without

unfoldable pub associated_account : AccountIdentifier → Entries → Result (Option Account)
unfolding find_index
associated_account (AccountIdentifier.id key) accounts = ok (entry_at key accounts)
associated_account (AccountIdentifier.index i) accounts = find_index i none accounts
associated_account (AccountIdentifier.alias name) accounts =
    ok (find_account (λ a. str_eq a.alias name) accounts)
associated_account (AccountIdentifier.address place) accounts =
    ok (find_account (λ a. any (λ b. address_eq b.address place) a.addresses) accounts)

-- `encrypted` says that the storage is locked.
unfoldable pub get_account : Result (Unit {0}) → AccountIdentifier → Entries → Result Account
unfolding associated_account
get_account unlocked identifier accounts =
    unlocked >> (associated_account identifier accounts >>= λ found. ok_or found record_not_found)

-- `sort_by` on the index, which keeps the order of equal ones.
unfoldable pub insert_by_index : Account → List Account → List Account
insert_by_index a [] = a ∷ []
insert_by_index a (b ∷ rest) =
    let later = insert_by_index a rest in if leb a.index b.index then a ∷ b ∷ rest else b ∷ later

unfoldable pub sort_by_index : Entries → List Account
unfolding insert_by_index
sort_by_index [] = []
sort_by_index ((k, a) ∷ rest) = insert_by_index a (sort_by_index rest)

unfoldable pub get_accounts : Result (Unit {0}) → Entries → Result (List Account)
unfolding sort_by_index
get_accounts unlocked accounts = unlocked >> ok (sort_by_index accounts)

module _ (index_valid : ℕ → Bool) (messages : Account → List MessageIndexation)
    (sent_messages : Account → Result (List Message)) where
  -- The result, and the manager as the call leaves it: the account is gone from memory although the
  -- storage may not have it.
  unfoldable pub remove_account :
      Result (Unit {0}) → AccountIdentifier → AccountManager → Result (Unit {0}) × AccountManager
  unfolding get_account remove_entry balance_internal
  remove_account unlocked identifier manager =
      elim (unlocked
        >> (get_account unlocked identifier manager.accounts >>= λ account.
            sent_messages account >>= λ sent.
            balance_internal index_valid account (messages account) sent >>= λ balance.
            raise_if (ltb 0 balance.total) account_not_empty >> ok account.id)) [
              | err e ↦ (err e, manager)
              | ok key ↦
                  let kept = remove_entry key manager.accounts in
                  elim (entry_at key manager.stored) [
                    | none ↦ (err record_not_found, record manager { accounts = kept })
                    | some a ↦ (
                      ok tt,
                      record manager { accounts = kept; stored = remove_entry key manager.stored },
                    )
                  ]
            ]
