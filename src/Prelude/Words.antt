-- ===== src/Prelude/Words.antt =====
-- `u64` arithmetic: sums wrap around at 2^64, as they do in a release build.
use Prim.Native.Nat.{ℕ, ◌+◌, ◌-◌, ◌%◌, ◌^◌, ◌≤◌, ◌<◌}
use mathlib.Core.Path.{◌≡◌, ◌∙◌}
use mathlib.Core.List.{List, [], ◌∷◌, ◌++◌}
use native.Mathlib.Omega.{arith}

abbrev pub u64_mod : ℕ
u64_mod = 2 ^ 64

unfoldable pub add64 : ℕ → ℕ → ℕ
add64 a b = (a + b) % u64_mod

pub add64_exact : (a b : ℕ) → a + b < u64_mod → add64 a b ≡ a + b
unfolding add64
add64_exact a b h = omega arith

pub add64-lt : (a b : ℕ) → add64 a b < u64_mod
unfolding add64
add64-lt a b = omega arith

unfoldable pub sub64 : ℕ → ℕ → ℕ
sub64 a b = (a + u64_mod - b) % u64_mod

pub sub64_exact : (a b : ℕ) → b ≤ a → a < u64_mod → sub64 a b ≡ a - b
unfolding sub64
sub64_exact a b h bound = omega arith

module _ {ℓ} {A : Type ℓ} (f : A → ℕ) where
  -- the sum over a list, without wrap-around
  abbrev pub sum_by : List A → ℕ
  sum_by [] = 0
  sum_by (x ∷ xs) = f x + sum_by xs

  -- `iter().fold(acc, |acc, x| acc + f(x))` over `u64`
  unfoldable pub fold64 : ℕ → List A → ℕ
  fold64 acc [] = acc
  fold64 acc (x ∷ xs) = fold64 (add64 acc (f x)) xs

  pub fold64_exact :
      (acc : ℕ) (xs : List A) → acc + sum_by xs < u64_mod → fold64 acc xs ≡ acc + sum_by xs
  unfolding fold64
  fold64_exact acc [] h = omega arith
  fold64_exact acc (x ∷ xs) h =
      let e : add64 acc (f x) ≡ acc + f x = add64_exact acc (f x) (omega arith) in
      fold64_exact (add64 acc (f x)) xs (omega arith) ∙ omega arith

  pub sum_by-append : (xs ys : List A) → sum_by (xs ++ ys) ≡ sum_by xs + sum_by ys
  sum_by-append [] ys = omega arith
  sum_by-append (x ∷ xs) ys = omega (arith, sum_by-append xs ys)
