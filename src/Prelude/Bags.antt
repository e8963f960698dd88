-- ===== src/Prelude/Bags.antt =====
-- Permutations of a list and parts of a list without regard to order: sums, lengths and predicates
-- over them.
use mathlib.Core.Path.{◌≡◌, refl, ap, ◌∙◌, subst}
use mathlib.Core.List.{List, [], ◌∷◌, ◌++◌, append_assoc, Permᴰ}
use mathlib.Core.List.Permᴰ
use Prim.Native.Nat.{ℕ, suc, ◌≤◌}
use native.Mathlib.Omega.{arith}
use wallet_rs.Prelude.Lists.{length, All, length-append}
use wallet_rs.Prelude.Words.{sum_by, sum_by-append}

module _ {ℓ} {A : Type ℓ} where
  pub sum_by-perm : (f : A → ℕ) {xs ys : List A} → Permᴰ xs ys → sum_by f xs ≡ sum_by f ys
  sum_by-perm f Permᴰ.nil = refl
  sum_by-perm f (Permᴰ.cons e p) = omega (arith, sum_by-perm f p, ap f e)
  sum_by-perm f (Permᴰ.swap e e') = omega (arith, ap f e, ap f e')
  sum_by-perm f (Permᴰ.trans p q) = sum_by-perm f p ∙ sum_by-perm f q

  pub All-perm {κ} : (P : A → Type κ) {xs ys : List A} → Permᴰ xs ys → All P xs → All P ys
  All-perm P Permᴰ.nil h = h
  All-perm P (Permᴰ.cons e p) h = (subst P e h.0, All-perm P p h.1)
  All-perm P (Permᴰ.swap e e') h = (subst P e' h.1.0, (subst P e h.0, h.1.1))
  All-perm P (Permᴰ.trans p q) h = All-perm P q (All-perm P p h)

  pub All-append_left {κ} : (P : A → Type κ) (xs ys : List A) → All P (xs ++ ys) → All P xs
  All-append_left P [] ys h = tt
  All-append_left P (x ∷ xs) ys h = (h.0, All-append_left P xs ys h.1)

  pub All-append_right {κ} : (P : A → Type κ) (xs ys : List A) → All P (xs ++ ys) → All P ys
  All-append_right P [] ys h = h
  All-append_right P (x ∷ xs) ys h = All-append_right P xs ys h.1

  -- `xs` is a part of `ys`: `ys` without `xs` is some list `rest`.
  abbrev pub SubBag : List A → List A → Type ℓ
  SubBag xs ys = (rest : List A) × Permᴰ (xs ++ rest) ys

  pub SubBag-refl : (xs : List A) → SubBag xs xs
  SubBag-refl xs = ([], Permᴰ.append-nil xs)

  pub SubBag-nil : (xs : List A) → SubBag [] xs
  SubBag-nil xs = (xs, Permᴰ.refl xs)

  pub SubBag-cons : (x : A) (xs : List A) {ys : List A} → SubBag xs ys → SubBag (x ∷ xs) (x ∷ ys)
  SubBag-cons x xs (rest, p) = (rest, Permᴰ.cons refl p)

  pub SubBag-skip : (x : A) (xs : List A) {ys : List A} → SubBag xs ys → SubBag xs (x ∷ ys)
  SubBag-skip x xs (rest, p) = (x ∷ rest, Permᴰ.trans (Permᴰ.middle x xs rest) (Permᴰ.cons refl p))

  pub SubBag-perm : (xs : List A) {ys zs : List A} → SubBag xs ys → Permᴰ ys zs → SubBag xs zs
  SubBag-perm xs (rest, p) q = (rest, Permᴰ.trans p q)

  pub SubBag-append :
      (xs : List A) {ys : List A} (zs : List A) → SubBag xs ys → SubBag xs (ys ++ zs)
  SubBag-append xs {ys} zs (rest, p) = (
    rest ++ zs,
    subst (λ l. Permᴰ l (ys ++ zs)) (append_assoc xs rest zs) (Permᴰ.append_right zs p),
  )

  pub SubBag-trans : (xs : List A) {ys zs : List A} → SubBag xs ys → SubBag ys zs → SubBag xs zs
  SubBag-trans xs p (rest, q) = SubBag-perm xs (SubBag-append xs rest p) q

  pub sum_by-SubBag-le :
      (f : A → ℕ) (xs : List A) {ys : List A} → SubBag xs ys → sum_by f xs ≤ sum_by f ys
  sum_by-SubBag-le f xs (rest, p) = omega (arith, sum_by-perm f p, sum_by-append f xs rest)

  pub All-SubBag {κ} :
      (P : A → Type κ) (xs : List A) {ys : List A} → SubBag xs ys → All P ys → All P xs
  All-SubBag P xs (rest, p) h = All-append_left P xs rest (All-perm P (Permᴰ.symm p) h)

  pub length-perm : {xs ys : List A} → Permᴰ xs ys → length xs ≡ length ys
  length-perm Permᴰ.nil = refl
  length-perm (Permᴰ.cons e p) = ap suc (length-perm p)
  length-perm (Permᴰ.swap e e') = refl
  length-perm (Permᴰ.trans p q) = length-perm p ∙ length-perm q

  pub length-SubBag-le : (xs : List A) {ys : List A} → SubBag xs ys → length xs ≤ length ys
  length-SubBag-le xs (rest, p) = omega (arith, length-perm p, length-append xs rest)
