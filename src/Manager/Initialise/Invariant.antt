-- ===== src/Manager/Initialise/Invariant.antt =====
-- What holds of the accounts of a manager at all times (src/account/mod.rs,
-- src/account_manager.rs).
use text.Mathlib.Text.{◌==◌ as str_eq}
use text.Mathlib.TextEquality.{eq_iff}
use wallet_rs.Prelude.{
  ℕ, ◌≡◌, ◌≢◌, refl, sym, ◌∙◌, ap, subst, inl, inr, Bool, true, false, ◌||◌, String, Option, none,
  some, List, [], ◌∷◌, arith, leb, Bool-cases, All,
}
use wallet_rs.Error.{
  Result, ok, >>=-eq-ok, ok_injective, ok_or, AccountInitialiseRequiredField,
  account_initialise_required_field,
}
use wallet_rs.Address.Types.{Address}
use wallet_rs.Address.Generate.{get_iota_address}
use wallet_rs.Message.Types.{Bytes}
use wallet_rs.Account.Types.{Account, SignerType}
use wallet_rs.Manager.Accounts.{Entries, AccountManager, insert_account, remove_entry}
use wallet_rs.Manager.Initialise.{
  AccountInitialiser, latest_account, check_latest, hrp_for, first_addresses, check_ledger,
  sort_addresses, count_signer, index_for, alias_for, or_else, with_account, new_account,
  initialise,
}

-- The account is under its id and has an address.
abbrev pub IsStored : String × Account → Type 0
IsStored e = (e.0 ≡ e.1.id) × (e.1.addresses ≢ [])

-- No account has the alias.
abbrev pub IsFree : String → Entries → Type 0
IsFree alias = All (λ e. str_eq e.1.alias alias ≡ false)

abbrev pub HasDistinctAliases : Entries → Type 0
HasDistinctAliases [] = Unit
HasDistinctAliases (e ∷ rest) = IsFree e.1.alias rest × HasDistinctAliases rest

abbrev pub WellFormed : Entries → Type 0
WellFormed accounts = All IsStored accounts × HasDistinctAliases accounts

All-insert_account :
    (P : String × Account → Type 0) (key : String) (a : Account) (l : Entries)
    → ((k : String) → k ≡ key → P (k, a))
    → All P l
    → All P (insert_account key a l)
unfolding insert_account
All-insert_account P key a [] own h = (own key refl, tt)
All-insert_account P key a ((k, b) ∷ rest) own h = elim (Bool-cases (str_eq k key)) [
  | inl same ↦ rw same (own k ((eq_iff k key).0 same), h.1)
  | inr differ ↦ rw differ (h.0, All-insert_account P key a rest own h.1)
]

pub All-remove_entry :
    (P : String × Account → Type 0) (key : String) (l : Entries)
    → All P l
    → All P (remove_entry key l)
unfolding remove_entry
All-remove_entry P key [] h = tt
All-remove_entry P key ((k, b) ∷ rest) h = elim (Bool-cases (str_eq k key)) [
  | inl same ↦ rw same h.1
  | inr differ ↦ rw differ (h.0, All-remove_entry P key rest h.1)
]

pub alias_symmetric : (a b : String) → str_eq a b ≡ false → str_eq b a ≡ false
alias_symmetric a b h = ground (arith, eq_iff a b, eq_iff b a)

insert_account-HasDistinctAliases :
    (key : String) (a : Account) (l : Entries)
    → IsFree a.alias l
    → HasDistinctAliases l
    → HasDistinctAliases (insert_account key a l)
unfolding insert_account
insert_account-HasDistinctAliases key a [] free h = (tt, tt)
insert_account-HasDistinctAliases key a ((k, b) ∷ rest) free h = elim (Bool-cases (str_eq k key)) [
  | inl same ↦ rw same (free.1, h.1)
  | inr differ ↦ rw differ (
    All-insert_account (λ e. str_eq e.1.alias b.alias ≡ false) key a rest
        (λ j own. alias_symmetric b.alias a.alias free.0) h.0,
    insert_account-HasDistinctAliases key a rest free.1 h.1,
  )
]

pub remove_entry-HasDistinctAliases :
    (key : String) (l : Entries) → HasDistinctAliases l → HasDistinctAliases (remove_entry key l)
unfolding remove_entry
remove_entry-HasDistinctAliases key [] h = tt
remove_entry-HasDistinctAliases key ((k, b) ∷ rest) h = elim (Bool-cases (str_eq k key)) [
  | inl same ↦ rw same h.1
  | inr differ ↦ rw differ (
    All-remove_entry (λ e. str_eq e.1.alias b.alias ≡ false) key rest h.0,
    remove_entry-HasDistinctAliases key rest h.1,
  )
]

latest_account-IsFree :
    (alias : String) (latest : Option Account) (i : ℕ) (l : Entries) {r : Option Account}
    → latest_account alias latest i l ≡ ok r
    → IsFree alias l
unfolding latest_account
latest_account-IsFree alias latest i [] h = tt
latest_account-IsFree alias latest i ((k, a) ∷ rest) {r} h =
    elim (Bool-cases (str_eq a.alias alias)) [
      | inl taken ↦ absurd (ground arith)
      | inr free ↦ elim (Bool-cases (leb i a.index)) [
        | inl later ↦
            let more : latest_account alias (some a) a.index rest ≡ ok r = ground arith in
            (free, latest_account-IsFree alias (some a) a.index rest more)
        | inr earlier ↦
            let more : latest_account alias latest i rest ≡ ok r = ground arith in
            (free, latest_account-IsFree alias latest i rest more)
      ]
    ]

first_addresses-nonempty :
    (derive : ℕ → Bool → Bool → Result ℕ) (hrp : String) (l : List Address)
    {r : Address × List Address}
    → first_addresses derive hrp l ≡ ok r
    → r.1 ≢ []
unfolding first_addresses
first_addresses-nonempty derive hrp [] {r} h empty =
    let (a, made, last) = >>=-eq-ok (get_iota_address derive 0 false hrp true) _ h in
    let same = ap (λ x. x.1) (ok_injective last) in absurd (cc)
first_addresses-nonempty derive hrp (a ∷ rest) {r} h empty =
    let same = ap (λ x. x.1) (ok_injective h) in absurd (cc)

with_account-WellFormed :
    (skip : Bool) (account : Account) (kept : Option ℕ) (manager : AccountManager)
    → IsFree account.alias manager.accounts × (account.addresses ≢ [])
    → WellFormed manager.accounts
    → WellFormed (with_account skip account kept manager).accounts
unfolding with_account
with_account-WellFormed true account kept manager facts well = well
with_account-WellFormed false account kept manager facts well = (
  All-insert_account IsStored account.id account manager.accounts (λ k own. (own, facts.1)) well.0,
  insert_account-HasDistinctAliases account.id account manager.accounts facts.0 well.1,
)

module _ (derive : SignerType → ℕ → ℕ → Bool → Bool → Result ℕ) (network_hrp : Result String)
    (network_name : Bytes → Option String) (account_id : ℕ → String) (default_alias : ℕ → String)
    (storage_path : String) (address_le : Address → Address → Bool) (has_messages : Account → Bool)
    (now : ℕ) (allow_create_multiple_empty_accounts : Bool) where
  pub new_account-facts :
      (init : AccountInitialiser) (manager : AccountManager) {r : Account × Option ℕ}
      → new_account derive network_hrp network_name account_id default_alias storage_path address_le
          has_messages now allow_create_multiple_empty_accounts init manager
        ≡ ok r
      → IsFree r.0.alias manager.accounts
        × (r.0.addresses ≢ [])
        × ((i : ℕ) → init.index ≡ some i → r.0.index ≡ i)
  unfolding new_account
  new_account-facts init manager {r} h =
      let (signer, e1, h1) =
        >>=-eq-ok
          (ok_or init.signer_type
            (account_initialise_required_field AccountInitialiseRequiredField.signer_type))
          _ h in
      let index = index_for init signer manager.accounts in
      let (latest, e2, h2) =
        >>=-eq-ok (latest_account (alias_for default_alias init index) none 0 manager.accounts) _
          h1 in
      let (checked, e3, h3) =
        >>=-eq-ok
          (check_latest has_messages
            (allow_create_multiple_empty_accounts || init.allow_create_multiple_empty_accounts)
            latest)
          _ h2 in
      let (hrp, e4, h4) =
        >>=-eq-ok (hrp_for network_hrp network_name init.client_options latest) _ h3 in
      let (made, e5, h5) =
        >>=-eq-ok
          (first_addresses (derive signer index) hrp (sort_addresses address_le init.addresses)) _
          h4 in
      let account : Account = record {
        id = account_id made.0.address.inner;
        signer_type = signer;
        index = index;
        alias = alias_for default_alias init index;
        created_at = or_else init.created_at now;
        last_synced_at = none;
        addresses = made.1;
        client_options = init.client_options;
        storage_path = storage_path;
        skip_persistence = init.skip_persistence;
        cached_messages = [];
      } in
      let (kept, e6, h6) =
        >>=-eq-ok (check_ledger (derive signer 0) account made.0 manager.first_ledger_address) _
          h5 in
      let same : account ≡ r.0 = ap (λ x. x.0) (ok_injective h6) in
      (
        subst (λ alias. IsFree alias manager.accounts) (ap (λ a. a.alias) same)
            (latest_account-IsFree (alias_for default_alias init index) none 0 manager.accounts e2),
        subst (λ l. l ≢ []) (ap (λ a. a.addresses) same)
            (first_addresses-nonempty (derive signer index) hrp
              (sort_addresses address_le init.addresses) e5),
        λ i given.
            sym (ap (λ a. a.index) same)
            ∙ ap (λ o. or_else o (count_signer signer manager.accounts)) given,
      )

  -- Creating an account keeps the accounts of a manager well formed: if each is under its id and
  -- has an address, and no two share an alias, this holds after a creation that succeeds too.
  pub initialise-WellFormed :
      (init : AccountInitialiser) (manager : AccountManager) {r : Account × AccountManager}
      → WellFormed manager.accounts
      → initialise derive network_hrp network_name account_id default_alias storage_path address_le
          has_messages now allow_create_multiple_empty_accounts init manager
        ≡ ok r
      → WellFormed r.1.accounts
  unfolding initialise
  initialise-WellFormed init manager {r} well h =
      let (made, e, last) =
        >>=-eq-ok
          (new_account derive network_hrp network_name account_id default_alias storage_path
            address_le has_messages now allow_create_multiple_empty_accounts init manager)
          _ h in
      let facts = new_account-facts init manager e in
      let same = ap (λ x. x.1.accounts) (ok_injective last) in
      subst WellFormed same (
        with_account-WellFormed init.skip_persistence made.0 made.1 manager (facts.0, facts.1) well)
