-- ===== src/Prelude/Lists.antt =====
-- Lists with native lengths, Boolean searches over them, and a predicate on all their elements.
use Prim.Native.Nat.{ℕ, zero, suc, ◌+◌}
use mathlib.Core.Path.{◌≡◌, subst}
use mathlib.Core.Logic.{inl, inr}
use mathlib.Core.Bool.{Bool, true, false, ◌&&◌, ◌||◌}
use mathlib.Core.List.{List, [], ◌∷◌, ◌++◌}
use mathlib.Core.Option.{Option, none, some}
use native.Mathlib.Omega.{arith}
use wallet_rs.Prelude.Tests.{Bool-cases, if◌then◌else◌}

module _ {ℓ} {A : Type ℓ} where
  abbrev pub length : List A → ℕ
  length [] = 0
  length (x ∷ xs) = suc (length xs)

  -- `iter().any(p)`
  abbrev pub any : (A → Bool) → List A → Bool
  any p [] = false
  any p (x ∷ xs) = p x || any p xs

  -- `iter().all(p)`
  abbrev pub all : (A → Bool) → List A → Bool
  all p [] = true
  all p (x ∷ xs) = p x && all p xs

  -- `iter().filter(p)`
  abbrev pub filter : (A → Bool) → List A → List A
  filter p [] = []
  filter p (x ∷ xs) = if p x then x ∷ filter p xs else filter p xs

  -- `iter().find(p)`
  abbrev pub find : (A → Bool) → List A → Option A
  find p [] = none
  find p (x ∷ xs) = if p x then some x else find p xs

  -- `iter().last()`
  abbrev pub last : List A → Option A
  last [] = none
  last (x ∷ []) = some x
  last (x ∷ y ∷ xs) = last (y ∷ xs)

  -- `iter().skip(n)` and `iter().take(n)`
  abbrev pub drop : ℕ → List A → List A
  drop zero xs = xs
  drop (suc n) [] = []
  drop (suc n) (x ∷ xs) = drop n xs

  abbrev pub take : ℕ → List A → List A
  take zero xs = []
  take (suc n) [] = []
  take (suc n) (x ∷ xs) = x ∷ take n xs

  abbrev pub All {κ} : (A → Type κ) → List A → Type κ
  All P [] = Unit
  All P (x ∷ xs) = P x × All P xs

  pub length-append : (xs ys : List A) → length (xs ++ ys) ≡ length xs + length ys
  length-append [] ys = omega arith
  length-append (x ∷ xs) ys = omega (arith, length-append xs ys)

  pub All-append {κ} : (P : A → Type κ) (xs ys : List A) → All P xs → All P ys → All P (xs ++ ys)
  All-append P [] ys hx hy = hy
  All-append P (x ∷ xs) ys hx hy = (hx.0, All-append P xs ys hx.1 hy)

  pub All-filter : (p : A → Bool) (xs : List A) → All (λ x. p x ≡ true) (filter p xs)
  All-filter p [] = tt
  All-filter p (x ∷ xs) = ground (arith, All-filter p xs)

  -- An element at some place of a list.
  pub data Elem (x : A) : List A → Type ℓ where
    here : {xs : List A} → Elem x (x ∷ xs)
    there : {y : A} {xs : List A} → Elem x xs → Elem x (y ∷ xs)

  pub any-Elem : (p : A → Bool) {x : A} {xs : List A} → Elem x xs → p x ≡ true → any p xs ≡ true
  any-Elem p here h = rw h
  any-Elem p (there {y = y} e) h = ground (arith, any-Elem p e h)

  pub All-Elem {κ} : (P : A → Type κ) {x : A} {xs : List A} → All P xs → Elem x xs → P x
  All-Elem P h here = h.0
  All-Elem P h (there e) = All-Elem P h.1 e

  pub Elem-append_right : {x : A} (xs : List A) {ys : List A} → Elem x ys → Elem x (xs ++ ys)
  Elem-append_right [] e = e
  Elem-append_right (y ∷ xs) e = there (Elem-append_right xs e)

  pub All-mono {κ κ'} :
      (P : A → Type κ) (Q : A → Type κ') (xs : List A) → ((x : A) → P x → Q x) → All P xs → All Q xs
  All-mono P Q [] f h = tt
  All-mono P Q (x ∷ xs) f h = (f x h.0, All-mono P Q xs f h.1)

  pub All-last {κ} : (P : A → Type κ) (xs : List A) {x : A} → All P xs → last xs ≡ some x → P x
  All-last P [] h e = absurd (cc)
  All-last P (y ∷ []) {x} h e = let same : y ≡ x = cc in subst P same h.0
  All-last P (y ∷ z ∷ xs) h e = All-last P (z ∷ xs) h.1 e

  pub Elem-filter :
      (p : A → Bool) {x : A} {xs : List A} → Elem x xs → p x ≡ true → Elem x (filter p xs)
  Elem-filter p here h = rw h here
  Elem-filter p {x} (there {y = y} {xs = xs} e) h = elim (Bool-cases (p y)) [
    | inl kept_e ↦ rw kept_e (there (Elem-filter p e h))
    | inr dropped_e ↦ rw dropped_e (Elem-filter p e h)
  ]

  here_or_there :
      {x y : A} {xs ys : List A} → (Elem x xs → Elem x ys) → Elem x (y ∷ xs) → Elem x (y ∷ ys)
  here_or_there f here = here
  here_or_there f (there e) = there (f e)

  pub Elem-of_filter : (p : A → Bool) {x : A} (xs : List A) → Elem x (filter p xs) → Elem x xs
  Elem-of_filter p [] e = elim e [ ]
  Elem-of_filter p {x} (y ∷ xs) e = elim (Bool-cases (p y)) [
    | inl kept_e ↦
        let kept : filter p (y ∷ xs) ≡ y ∷ filter p xs = rw kept_e in
        here_or_there (Elem-of_filter p xs) (subst (Elem x) kept e)
    | inr dropped_e ↦
        let dropped : filter p (y ∷ xs) ≡ filter p xs = rw dropped_e in
        there (Elem-of_filter p xs (subst (Elem x) dropped e))
  ]
