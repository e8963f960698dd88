-- ===== src/Manager/Removal.antt =====
-- What `AccountManager::remove_account` removes (src/account_manager.rs).
pub mod Lookup
use text.Mathlib.Text.{◌==◌ as str_eq}
use text.Mathlib.TextEquality.{eq_iff}
use mathlib.Core.Option.{some-injective}
use wallet_rs.Prelude.{
  ℕ, ◌<◌, ◌≡◌, ◌≢◌, refl, sym, ap, subst, ◌∙◌, ◌⊎◌, inl, inr, Bool, false, String, none, some, List,
  [], ◌∷◌, ◌++◌, arith, any, ltb, ◌==◌, Bool-cases, Option-cases, All, All-Elem, Elem, here, there,
}
use wallet_rs.Error.{
  Result, ok, err, ◌>>=◌, ◌>>◌, >>=-eq-ok, Result-cases, ok_injective, raise_if, account_not_empty,
  record_not_found, Error,
}
use wallet_rs.Address.Types.{address_eq}
use wallet_rs.Message.Types.{Message}
use wallet_rs.Account.Types.{Account, AccountBalance}
use wallet_rs.Account.Balance.{balance_internal}
use wallet_rs.Storage.Types.{MessageIndexation}
use wallet_rs.Manager.Accounts.{
  Entries, AccountManager, AccountIdentifier, remove_entry, entry_at, find_account, find_index,
  associated_account, get_account, remove_account,
}
use wallet_rs.Manager.Initialise.Invariant.{
  IsStored, WellFormed, alias_symmetric, All-remove_entry, remove_entry-HasDistinctAliases,
}
use wallet_rs.Manager.Removal.Lookup.{
  HasDistinctIds, get_account-IsEntry, IsWithout, remove_entry-IsWithout,
}

module _ (index_valid : ℕ → Bool) (messages : Account → List MessageIndexation)
    (sent_messages : Account → Result (List Message)) (unlocked : Result (Unit {0}))
    (identifier : AccountIdentifier) (manager : AccountManager) where
  -- How a removal ends: with an error, and the manager as it was, because no account is identified,
  -- its balance cannot be read, or it is not empty; or with exactly the entry of the account gone,
  -- and an error only if the storage did not have it.
  pub data Removes (r : Result (Unit {0})) (manager' : AccountManager) : Type 0 where
    not_found :
        (e : Error)
        → get_account unlocked identifier manager.accounts ≡ err e
        → r ≡ err e
        → manager' ≡ manager
        → Removes r manager'
    not_read :
        (account : Account)
        → get_account unlocked identifier manager.accounts ≡ ok account
        → (e : Error)
        → (sent_messages account >>= λ sent.
            balance_internal index_valid account (messages account) sent)
          ≡ err e
        → r ≡ err e
        → manager' ≡ manager
        → Removes r manager'
    not_empty :
        (account : Account)
        → get_account unlocked identifier manager.accounts ≡ ok account
        → (sent : List Message) → sent_messages account ≡ ok sent
        → (b : AccountBalance) → balance_internal index_valid account (messages account) sent ≡ ok b
        → 0 < b.total
        → r ≡ err account_not_empty
        → manager' ≡ manager
        → Removes r manager'
    removed :
        (account : Account)
        → get_account unlocked identifier manager.accounts ≡ ok account
        → (sent : List Message) → sent_messages account ≡ ok sent
        → (b : AccountBalance) → balance_internal index_valid account (messages account) sent ≡ ok b
        → b.total ≡ 0
        → IsWithout (account.id, account) manager.accounts manager'.accounts
        → ((r ≡ ok tt) × (entry_at account.id manager.stored ≢ none))
          ⊎ ((r ≡ err record_not_found) × (entry_at account.id manager.stored ≡ none))
        → Removes r manager'

  -- What is checked before the removal, and the id of the account.
  abbrev checked : Result String
  checked =
      unlocked
      >> (get_account unlocked identifier manager.accounts >>= λ account.
          sent_messages account >>= λ sent.
          balance_internal index_valid account (messages account) sent >>= λ balance.
          raise_if (ltb 0 balance.total) account_not_empty >> ok account.id)

  abbrev pub outcome : Result (Unit {0}) × AccountManager
  outcome = remove_account index_valid messages sent_messages unlocked identifier manager

  outcome-refused : (e : Error) → checked ≡ err e → outcome ≡ (err e, manager)
  unfolding remove_account
  outcome-refused e h = rw (remove_account, h) refl

  outcome-checked :
      (key : String)
      → checked ≡ ok key
      → (outcome.1.accounts ≡ remove_entry key manager.accounts)
        × (((outcome.0 ≡ ok tt) × (entry_at key manager.stored ≢ none))
            ⊎ ((outcome.0 ≡ err record_not_found) × (entry_at key manager.stored ≡ none)))
  unfolding remove_account
  outcome-checked key h = elim (Option-cases (entry_at key manager.stored)) [
    | inl e ↦ rw (remove_account, h, e) (refl, inr (refl, refl))
    | inr (a, e) ↦ rw (remove_account, h, e) (refl, inl (refl, λ n. absurd (cc)))
  ]

  get_account-locked :
      (e : Error) → unlocked ≡ err e → get_account unlocked identifier manager.accounts ≡ err e
  unfolding get_account
  get_account-locked e h = rw h refl

  -- The checks, once the account is identified.
  checked-found :
      (account : Account)
      → get_account unlocked identifier manager.accounts ≡ ok account
      → checked ≡ (
          sent_messages account >>= λ sent.
          balance_internal index_valid account (messages account) sent >>= λ balance.
          raise_if (ltb 0 balance.total) account_not_empty >> ok account.id)
  checked-found account got = elim (Result-cases unlocked) [
    | inl (u, e) ↦ rw (e, ← e, got) refl
    | inr (er, e) ↦ absurd (let same = get_account-locked er e in cc)
  ]

  checked-missing :
      (e : Error) → get_account unlocked identifier manager.accounts ≡ err e → checked ≡ err e
  checked-missing e missing = elim (Result-cases unlocked) [
    | inl (u, h) ↦ rw (h, ← h, missing) refl
    | inr (er, h) ↦ let same = get_account-locked er h in let is : er ≡ e = cc in rw (h, is) refl
  ]

  outcome-IsWithout :
      (account : Account)
      → get_account unlocked identifier manager.accounts ≡ ok account
      → HasDistinctIds manager.accounts
      → WellFormed manager.accounts
      → IsWithout (account.id, account) manager.accounts (remove_entry account.id manager.accounts)
  outcome-IsWithout account got distinct well =
      let (k, is_entry) = get_account-IsEntry unlocked identifier manager.accounts got in
      let own = All-Elem IsStored well.0 is_entry in
      remove_entry-IsWithout account.id account manager.accounts distinct
        (subst (λ k. Elem (k, account) manager.accounts) own.0 is_entry)

  -- When the manager's accounts are well formed and their ids are distinct, the call ends in one
  -- of four ways, and the accounts are well formed afterwards. No account is identified, or its
  -- balance cannot be read, or its balance is above zero: each is reported, and the manager is as
  -- it was. Or the account is identified and has a balance of zero: then its entry is removed from
  -- the accounts, all others stay in their places, and the result is an error exactly if the
  -- storage does not have the account.
  pub remove_account-WellFormed :
      HasDistinctIds manager.accounts
      → WellFormed manager.accounts
      → Removes outcome.0 outcome.1 × WellFormed outcome.1.accounts
  remove_account-WellFormed distinct well =
      elim (Result-cases (get_account unlocked identifier manager.accounts)) [
        | inr (e, missing) ↦
            let stopped = outcome-refused e (checked-missing e missing) in
            rw stopped (Removes.not_found e missing refl refl, well)
        | inl (account, got) ↦
            let steps = checked-found account got in
            elim (Result-cases (sent_messages account)) [
              | inr (e, unsent) ↦
                  let stopped = outcome-refused e (steps ∙ rw unsent refl) in
                  rw stopped (Removes.not_read account got e (rw unsent refl) refl refl, well)
              | inl (sent, is_sent) ↦
                  elim (Result-cases
                    (balance_internal index_valid account (messages account) sent)) [
                      | inr (e, unread) ↦
                          let stopped = outcome-refused e (steps ∙ rw (is_sent, unread) refl) in
                          rw stopped (
                            Removes.not_read account got e (rw (is_sent, unread) refl) refl refl,
                            well,
                          )
                      | inl (b, is_read) ↦ elim (Bool-cases (ltb 0 b.total)) [
                        | inl funds ↦
                            let stopped =
                              outcome-refused account_not_empty
                                (steps ∙ rw (is_sent, is_read, funds) refl) in
                            rw stopped (
                              Removes.not_empty account got sent is_sent b is_read (ground arith)
                                  refl refl,
                              well,
                            )
                        | inr empty ↦
                            let (gone, how) =
                              outcome-checked account.id
                                (steps ∙ rw (is_sent, is_read, empty) refl) in
                            let without = outcome-IsWithout account got distinct well in
                            (
                              Removes.removed account got sent is_sent b is_read (ground arith)
                                  (subst (IsWithout (account.id, account) manager.accounts)
                                    (sym gone) without)
                                  how,
                              subst WellFormed (sym gone) (
                                All-remove_entry IsStored account.id manager.accounts well.0,
                                remove_entry-HasDistinctAliases account.id manager.accounts well.1,
                              ),
                            )
                      ]
                    ]
            ]
      ]
