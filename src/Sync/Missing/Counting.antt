-- ===== src/Sync/Missing/Counting.antt =====
-- Counting the addresses of a kind by their key indexes.
use wallet_rs.Prelude.{
  ℕ, zero, suc, ◌+◌, ◌≤◌, ◌<◌, ◌≡◌, refl, sym, ◌∙◌, ap, subst, inl, inr, Bool, true, false, ◌&&◌,
  none, List, [], ◌∷◌, arith, filter, length, ltb, ◌==◌, bool_eq, Bool-cases, All,
}
use wallet_rs.Address.Types.{Address}
use wallet_rs.Account.Addresses.Keys.{address_at, HasDistinctKeys}
use wallet_rs.Sync.Missing.{of_kind, has_key}

abbrev is_below : Bool → ℕ → Address → Bool
is_below internal m a = ltb a.key_index m && bool_eq a.internal internal

abbrev is_at : Bool → ℕ → Address → Bool
is_at internal m a = a.key_index == m && bool_eq a.internal internal

abbrev count_below : Bool → ℕ → List Address → ℕ
count_below internal m l = length (filter (is_below internal m) l)

abbrev count_at : Bool → ℕ → List Address → ℕ
count_at internal m l = length (filter (is_at internal m) l)

count_step :
    (internal : Bool) (m : ℕ) (l : List Address)
    → count_below internal (m + 1) l ≡ count_below internal m l + count_at internal m l
count_step internal m [] = omega arith
count_step internal m (a ∷ rest) = ground (arith, count_step internal m rest)

count_zero : (internal : Bool) (l : List Address) → count_below internal 0 l ≡ 0
count_zero internal [] = refl
count_zero internal (a ∷ rest) = ground (arith, count_zero internal rest)

count_at-none :
    (internal : Bool) (m : ℕ) (l : List Address)
    → has_key internal m l ≡ false
    → count_at internal m l ≡ 0
count_at-none internal m [] h = refl
count_at-none internal m (a ∷ rest) h = ground (arith, count_at-none internal m rest)

address_at-none :
    (internal : Bool) (m : ℕ) (l : List Address)
    → address_at m internal l ≡ none
    → has_key internal m l ≡ false
address_at-none internal m [] h = refl
address_at-none internal m (a ∷ rest) h = ground (arith, address_at-none internal m rest)

count_at-le-one :
    (internal : Bool) (m : ℕ) (l : List Address) → HasDistinctKeys l → count_at internal m l ≤ 1
count_at-le-one internal m [] h = omega arith
count_at-le-one internal m (a ∷ rest) h = elim (Bool-cases (is_at internal m a)) [
  | inl own ↦
      let free : count_at a.internal a.key_index rest ≡ 0 =
        count_at-none a.internal a.key_index rest
          (address_at-none a.internal a.key_index rest h.0) in
      let key : a.key_index ≡ m = ground arith in
      let kind : a.internal ≡ internal = ground arith in
      let free' : count_at internal m rest ≡ 0 =
        ap (λ k. count_at internal k rest) (sym key)
        ∙ ap (λ i. count_at i a.key_index rest) (sym kind)
        ∙ free in
      rw own (omega arith)
  | inr other ↦ rw other (count_at-le-one internal m rest h.1)
]

count_below-le :
    (internal : Bool) (m : ℕ) (l : List Address) → HasDistinctKeys l → count_below internal m l ≤ m
count_below-le internal zero l h = omega (arith, count_zero internal l)
count_below-le internal (suc m) l h =
    let step = count_step internal m l in
    let same : suc m ≡ m + 1 = omega arith in
    rw same (omega (arith, step, count_below-le internal m l h, count_at-le-one internal m l h))

-- A key index that is not taken leaves fewer addresses than there are key indexes below `m`.
count_below-lt :
    (internal : Bool) (m k : ℕ) (l : List Address)
    → HasDistinctKeys l
    → has_key internal k l ≡ false
    → k < m
    → count_below internal m l < m
count_below-lt internal zero k l h free lt = absurd (omega arith)
count_below-lt internal (suc m) k l h free lt =
    let step = count_step internal m l in
    let same : suc m ≡ m + 1 = omega arith in
    elim (Bool-cases (k == m)) [
      | inl last ↦
          let at : k ≡ m = ground arith in
          let free' : count_at internal m l ≡ 0 =
            ap (λ j. count_at internal j l) (sym at) ∙ count_at-none internal k l free in
          rw same (omega (arith, step, count_below-le internal m l h, free'))
      | inr other ↦ rw same (
          omega (
            arith,
            step,
            count_below-lt internal m k l h free (ground arith),
            count_at-le-one internal m l h,
          ))
    ]

count_whole :
    (internal : Bool) (m : ℕ) (l : List Address)
    → All (λ a. a.key_index < m) (of_kind internal l)
    → count_below internal m l ≡ length (of_kind internal l)
count_whole internal m [] h = refl
count_whole internal m (a ∷ rest) h = elim (Bool-cases (bool_eq a.internal internal)) [
  | inl own ↦
      let kept : of_kind internal (a ∷ rest) ≡ a ∷ of_kind internal rest = rw own in
      let h' : All (λ x. x.key_index < m) (a ∷ of_kind internal rest) =
        subst (All (λ x. x.key_index < m)) kept h in
      let later = count_whole internal m rest h'.1 in
      let first : a.key_index < m = h'.0 in ground (arith, later, first)
  | inr other ↦
      let kept : of_kind internal (a ∷ rest) ≡ of_kind internal rest = rw other in
      let later = count_whole internal m rest (subst (All (λ x. x.key_index < m)) kept h) in
      ground (arith, later)
]

-- Distinct key indexes below `m` that are as many as `m` leave none out.
pub full-has_key :
    (internal : Bool) (m k : ℕ) (l : List Address)
    → HasDistinctKeys l
    → All (λ a. a.key_index < m) (of_kind internal l)
    → m ≤ length (of_kind internal l)
    → k < m
    → has_key internal k l ≡ true
full-has_key internal m k l distinct bounded full lt = elim (Bool-cases (has_key internal k l)) [
  | inl h ↦ h
  | inr h ↦
      absurd (
        omega
          (arith, count_below-lt internal m k l distinct h lt, count_whole internal m l bounded))
]
