-- ===== src/Manager/Removal/Lookup.antt =====
-- The entry that an identifier stands for, and what is left without it (src/account_manager.rs).
use text.Mathlib.Text.{◌==◌ as str_eq}
use text.Mathlib.TextEquality.{eq_iff}
use mathlib.Core.Option.{some-injective}
use wallet_rs.Prelude.{
  ℕ, ◌≡◌, refl, ap, subst, ◌∙◌, inl, inr, Bool, false, String, none, some, [], ◌∷◌, ◌++◌, arith,
  any, ◌==◌, Bool-cases, Option-cases, All, All-Elem, Elem, here, there,
}
use wallet_rs.Error.{Result, ok, err, >>=-eq-ok, ok_injective}
use wallet_rs.Address.Types.{address_eq}
use wallet_rs.Account.Types.{Account}
use wallet_rs.Manager.Accounts.{
  Entries, AccountIdentifier, remove_entry, entry_at, find_account, find_index, associated_account,
  get_account,
}
use wallet_rs.Manager.Initialise.Invariant.{alias_symmetric}

-- The keys of a map are distinct.
abbrev pub HasDistinctIds : Entries → Type 0
HasDistinctIds [] = Unit
HasDistinctIds (e ∷ rest) = All (λ f. str_eq f.0 e.0 ≡ false) rest × HasDistinctIds rest

-- An account under some key.
abbrev pub IsEntry : Account → Entries → Type 0
IsEntry a l = (k : String) × Elem (k, a) l

later_IsEntry : {a : Account} {e : String × Account} (l : Entries) → IsEntry a l → IsEntry a (e ∷ l)
later_IsEntry l (k, h) = (k, there h)

first_IsEntry :
    {a : Account} (k : String) (b : Account) (l : Entries) → b ≡ a → IsEntry a ((k, b) ∷ l)
first_IsEntry k b l e = (k, subst (λ x. Elem (k, x) ((k, b) ∷ l)) e here)

entry_at-IsEntry :
    (key : String) (l : Entries) {a : Account} → entry_at key l ≡ some a → IsEntry a l
entry_at-IsEntry key [] h = absurd (cc)
entry_at-IsEntry key ((k, b) ∷ rest) h = elim (Bool-cases (str_eq k key)) [
  | inl same ↦ first_IsEntry k b rest (some-injective _ _ (rw same at h))
  | inr differ ↦ later_IsEntry rest (entry_at-IsEntry key rest (rw differ at h))
]

find_account-IsEntry :
    (p : Account → Bool) (l : Entries) {a : Account} → find_account p l ≡ some a → IsEntry a l
find_account-IsEntry p [] h = absurd (cc)
find_account-IsEntry p ((k, b) ∷ rest) h = elim (Bool-cases (p b)) [
  | inl hit ↦ first_IsEntry k b rest (some-injective _ _ (rw hit at h))
  | inr miss ↦ later_IsEntry rest (find_account-IsEntry p rest (rw miss at h))
]

-- Once an account is found it is the result.
find_index-found :
    (i : ℕ) (b : Account) (l : Entries) {a : Account}
    → find_index i (some b) l ≡ ok (some a)
    → b ≡ a
unfolding find_index
find_index-found i b [] h = some-injective _ _ (ok_injective h)
find_index-found i b ((k, c) ∷ rest) h = elim (Bool-cases (c.index == i)) [
  | inl hit ↦ absurd (ground arith)
  | inr miss ↦ find_index-found i b rest (rw miss at h)
]

find_index-IsEntry :
    (i : ℕ) (l : Entries) {a : Account} → find_index i none l ≡ ok (some a) → IsEntry a l
unfolding find_index
find_index-IsEntry i [] h = absurd (ground arith)
find_index-IsEntry i ((k, b) ∷ rest) h = elim (Bool-cases (b.index == i)) [
  | inl hit ↦ first_IsEntry k b rest (find_index-found i b rest (rw hit at h))
  | inr miss ↦ later_IsEntry rest (find_index-IsEntry i rest (rw miss at h))
]

associated_account-IsEntry :
    (identifier : AccountIdentifier) (l : Entries) {a : Account}
    → associated_account identifier l ≡ ok (some a)
    → IsEntry a l
unfolding associated_account
associated_account-IsEntry (AccountIdentifier.id key) l h = entry_at-IsEntry key l (ok_injective h)
associated_account-IsEntry (AccountIdentifier.index i) l h = find_index-IsEntry i l h
associated_account-IsEntry (AccountIdentifier.alias name) l h =
    find_account-IsEntry (λ a. str_eq a.alias name) l (ok_injective h)
associated_account-IsEntry (AccountIdentifier.address place) l h =
    find_account-IsEntry (λ a. any (λ b. address_eq b.address place) a.addresses) l (ok_injective h)

pub get_account-IsEntry :
    (unlocked : Result (Unit {0})) (identifier : AccountIdentifier) (l : Entries) {a : Account}
    → get_account unlocked identifier l ≡ ok a
    → IsEntry a l
unfolding get_account
get_account-IsEntry (err e) identifier l h = absurd (cc)
get_account-IsEntry (ok u) identifier l {a} h =
    let (found, e, last) = >>=-eq-ok (associated_account identifier l) _ h in
    elim (Option-cases found) [
      | inl missing ↦ absurd (ground arith)
      | inr (b, is_found) ↦
          let same : b ≡ a = ok_injective (rw is_found at last) in
          associated_account-IsEntry identifier l
            (e ∙ ap (λ x. ok x) (is_found ∙ ap (λ x. some x) same))
    ]

-- The entry goes, and the others stay in their places.
abbrev pub IsWithout : String × Account → Entries → Entries → Type 0
IsWithout e l l' =
    (before : Entries) × (after : Entries) × (l ≡ before ++ (e ∷ after)) × (l' ≡ before ++ after)

pub remove_entry-IsWithout :
    (key : String) (a : Account) (l : Entries)
    → HasDistinctIds l
    → Elem (key, a) l
    → IsWithout (key, a) l (remove_entry key l)
unfolding remove_entry
remove_entry-IsWithout key a [] distinct e = elim e [ ]
remove_entry-IsWithout key a ((k, b) ∷ rest) distinct here =
    let own = (eq_iff k k).1 refl in ([], rest, refl, rw own refl)
remove_entry-IsWithout key a ((k, b) ∷ rest) distinct (there e) =
    let other : str_eq k key ≡ false =
      alias_symmetric key k (All-Elem (λ f. str_eq f.0 k ≡ false) distinct.0 e) in
    let (before, after, p, q) = remove_entry-IsWithout key a rest distinct.1 e in
    ((k, b) ∷ before, after, ap (λ l. (k, b) ∷ l) p, rw other (ap (λ l. (k, b) ∷ l) q))
