-- ===== src/Account/Addresses/Latest.antt =====
-- The latest address, and the next key index.
use wallet_rs.Prelude.{
  ℕ, ◌≤◌, ◌<◌, ◌≡◌, refl, inl, inr, true, false, not, Option, none, some, List, [], ◌∷◌, arith,
  filter, All, All-filter, All-mono, All-Elem, Elem, Elem-filter, Elem-of_filter, here, there,
  Option-cases, ltb, Bool-cases, subst, sym,
}
use wallet_rs.Error.{Error, ok, ok_or, panic}
use wallet_rs.Address.Types.{Address}
use wallet_rs.Account.Types.{Account}
use wallet_rs.Account.Addresses.{max_by_key_index, latest_address, new_address_key_index}

-- The key index of every address is at most `n`.
abbrev pub AllAtMost : ℕ → List Address → Type 0
AllAtMost n = All (λ b. b.key_index ≤ n)

pub max_by_key_index-none : (l : List Address) → max_by_key_index l ≡ none → l ≡ []
unfolding max_by_key_index
max_by_key_index-none [] h = refl
max_by_key_index-none (x ∷ rest) h = elim (Option-cases (max_by_key_index rest)) [
  | inl e ↦ absurd (ground arith)
  | inr (b, e) ↦ absurd (ground arith)
]

AllAtMost-mono : (n m : ℕ) (l : List Address) → n ≤ m → AllAtMost n l → AllAtMost m l
AllAtMost-mono n m l le = All-mono _ _ l (λ z hz. omega arith)

-- The maximum is one of the addresses, and no key index is above its own.
unfoldable pub IsLast : List Address → Address → Type 0
IsLast l a = Elem a l × AllAtMost a.key_index l

pub max_by_key_index-IsLast :
    (l : List Address) (a : Address) → max_by_key_index l ≡ some a → IsLast l a
unfolding max_by_key_index IsLast
max_by_key_index-IsLast [] a h = absurd (cc)
max_by_key_index-IsLast (x ∷ rest) a h = elim (Option-cases (max_by_key_index rest)) [
  | inl e ↦
      let step : max_by_key_index (x ∷ rest) ≡ some x = rw e in
      let same : x ≡ a = cc in
      subst (λ z. IsLast (x ∷ rest) z) same
        (subst (λ l. IsLast (x ∷ l) x) (sym (max_by_key_index-none rest e))
          (here, (omega arith, tt)))
  | inr (b, e) ↦ elim (Bool-cases (ltb b.key_index x.key_index)) [
    | inl above ↦
        let step : max_by_key_index (x ∷ rest) ≡ some x = rw (e, above) in
        let same : x ≡ a = cc in
        let earlier = max_by_key_index-IsLast rest b e in
        subst (λ z. IsLast (x ∷ rest) z) same
          (
            here,
            (omega arith, AllAtMost-mono b.key_index x.key_index rest (ground arith) earlier.1),
          )
    | inr below ↦
        let step : max_by_key_index (x ∷ rest) ≡ some b = rw (e, below) in
        let same : b ≡ a = cc in
        let earlier = max_by_key_index-IsLast rest b e in
        subst (λ z. IsLast (x ∷ rest) z) same (there earlier.0, (ground arith, earlier.1))
  ]
]

ok_or-eq-ok : (m : Option Address) (e : Error) {a : Address} → ok_or m e ≡ ok a → m ≡ some a
ok_or-eq-ok none e h = absurd (cc)
ok_or-eq-ok (some b) e h = cc

not_Elem-nil : {a : Address} → ¬ Elem a []
not_Elem-nil e = elim e [ ]

-- The latest address is a public address of the account, and no public address has a higher key
-- index.
pub latest_address-facts :
    (account : Account) {a : Address}
    → latest_address account ≡ ok a
    → Elem a account.addresses
      × (a.internal ≡ false)
      × ((b : Address) → Elem b account.addresses → b.internal ≡ false → b.key_index ≤ a.key_index)
unfolding latest_address IsLast
latest_address-facts account {a} h =
    let public = filter (λ x. not x.internal) account.addresses in
    let is_max : max_by_key_index public ≡ some a = ok_or-eq-ok (max_by_key_index public) panic h in
    let last = max_by_key_index-IsLast public a is_max in
    let is_public : not a.internal ≡ true = All-Elem _ (All-filter _ account.addresses) last.0 in
    (
      Elem-of_filter _ account.addresses last.0,
      ground arith,
      λ b e public_b. All-Elem _ last.1 (Elem-filter (λ x. not x.internal) e (rw public_b)),
    )

-- The key index for a new address is above that of every public address.
pub new_address_key_index-above :
    (account : Account) (a : Address)
    → Elem a account.addresses
    → a.internal ≡ false
    → a.key_index < new_address_key_index account
unfolding new_address_key_index IsLast
new_address_key_index-above account a e public =
    let among = Elem-filter (λ x. not x.internal) e (rw public) in
    let addresses = filter (λ x. not x.internal) account.addresses in
    elim (Option-cases (max_by_key_index addresses)) [
      | inl none_e ↦
          absurd (not_Elem-nil (subst (Elem a) (max_by_key_index-none addresses none_e) among))
      | inr (b, some_e) ↦
          let last = max_by_key_index-IsLast addresses b some_e in
          let le : a.key_index ≤ b.key_index = All-Elem _ last.1 among in
          rw (new_address_key_index, some_e) (omega arith)
    ]
