-- ===== src/Prelude/Int.antt =====
-- Signed integers over the native numbers, under the library's names (its ℤ stands on the unary ℕ).
-- Sums and orders go through the two parts of an integer, which are numbers that `omega` reads.
use Prim.Native.Nat.{ℕ, suc, ◌+◌, ◌-◌, ◌%◌, ◌^◌, ◌≤◌, ◌<◌}
use mathlib.Core.Path.{◌≡◌}
use mathlib.Core.Bool.{Bool}
use native.Mathlib.Omega.{arith}
use wallet_rs.Prelude.Tests.{ltb, leb, if◌then◌else◌}
use wallet_rs.Prelude.Words.{u64_mod}

-- `negsuc n` is -(n + 1).
pub data ℤ : Type 0 where
  pos : ℕ → ℤ
  negsuc : ℕ → ℤ

abbrev pub pos_part : ℤ → ℕ
pos_part (pos n) = n
pos_part (negsuc n) = 0

abbrev pub neg_part : ℤ → ℕ
neg_part (pos n) = 0
neg_part (negsuc n) = suc n

-- a - b, as an integer.
abbrev pub sub_ℕ : ℕ → ℕ → ℤ
sub_ℕ a b = if leb b a then pos (a - b) else negsuc (b - a - 1)

infixl 65 ◌+ℤ◌ ◌-ℤ◌
infix 50 ◌≤ℤ◌
unfoldable pub ◌+ℤ◌ : ℤ → ℤ → ℤ
a +ℤ b = sub_ℕ (pos_part a + pos_part b) (neg_part a + neg_part b)

unfoldable pub ◌-ℤ◌ : ℤ → ℤ → ℤ
a -ℤ b = sub_ℕ (pos_part a + neg_part b) (neg_part a + pos_part b)

abbrev pub ◌≤ℤ◌ : ℤ → ℤ → Type 0
a ≤ℤ b = pos_part a + neg_part b ≤ pos_part b + neg_part a

abbrev pub ltb_ℤ : ℤ → ℤ → Bool
ltb_ℤ a b = ltb (pos_part a + neg_part b) (pos_part b + neg_part a)

-- One lemma for each operation lets `omega` work with the operations shut, at any depth.
pub +ℤ_parts :
    (a b : ℤ)
    → pos_part (a +ℤ b) + neg_part a + neg_part b ≡ neg_part (a +ℤ b) + pos_part a + pos_part b
unfolding ◌+ℤ◌
+ℤ_parts a b = ground arith

pub -ℤ_parts :
    (a b : ℤ)
    → pos_part (a -ℤ b) + neg_part a + pos_part b ≡ neg_part (a -ℤ b) + pos_part a + neg_part b
unfolding ◌-ℤ◌
-ℤ_parts a b = ground arith

-ℤ_bounds :
    (a b : ℤ)
    → (pos_part (a -ℤ b) ≤ pos_part a + neg_part b) × (neg_part (a -ℤ b) ≤ neg_part a + pos_part b)
unfolding ◌-ℤ◌
-ℤ_bounds a b = ground arith

pub eq_of_parts : (a b : ℤ) → pos_part a + neg_part b ≡ pos_part b + neg_part a → a ≡ b
eq_of_parts a b h = ground arith

pub ruleset int_laws = (arith, +ℤ_parts, -ℤ_parts, eq_of_parts)

-- The first number beyond an `i64`.
abbrev pub i64_limit : ℕ
i64_limit = 2 ^ 63

-- The `i64` with the low 64 bits of an integer.
unfoldable pub wrap_i64 : ℤ → ℤ
wrap_i64 (pos n) =
    let m = n % u64_mod in if ltb m i64_limit then pos m else negsuc (u64_mod - 1 - m)
wrap_i64 (negsuc n) =
    let m = n % u64_mod in if ltb m i64_limit then negsuc m else pos (u64_mod - 1 - m)

-- `n as i64` of a `u64`
unfoldable pub as_i64 : ℕ → ℤ
unfolding wrap_i64
as_i64 n = wrap_i64 (pos n)

unfoldable pub add_i64 : ℤ → ℤ → ℤ
unfolding wrap_i64 ◌+ℤ◌
add_i64 a b = wrap_i64 (a +ℤ b)

unfoldable pub sub_i64 : ℤ → ℤ → ℤ
unfolding wrap_i64 ◌-ℤ◌
sub_i64 a b = wrap_i64 (a -ℤ b)

pub wrap_i64_exact : (x : ℤ) → pos_part x < i64_limit → neg_part x ≤ i64_limit → wrap_i64 x ≡ x
unfolding wrap_i64
wrap_i64_exact (pos n) p q = ground arith
wrap_i64_exact (negsuc n) p q = ground arith

pub as_i64_exact : (n : ℕ) → n < i64_limit → as_i64 n ≡ pos n
unfolding as_i64
as_i64_exact n h = wrap_i64_exact (pos n) h (omega arith)

-- `x` is y + a - b, and between y - b and y + a.
pub record Shifted (x y : ℤ) (a b : ℕ) : Type 0 where
  pub difference : pos_part x + neg_part y + b ≡ neg_part x + pos_part y + a
  pub above : pos_part x ≤ pos_part y + a
  pub below : neg_part x ≤ neg_part y + b

+ℤ-Shifted : (y : ℤ) (n : ℕ) → Shifted (y +ℤ pos n) y n 0
unfolding ◌+ℤ◌
+ℤ-Shifted y n = ground arith

-ℤ-Shifted : (y : ℤ) (n : ℕ) → Shifted (y -ℤ pos n) y 0 n
unfolding ◌-ℤ◌
-ℤ-Shifted y n = ground arith

-- Within the bounds an `i64` operation does not wrap around.
pub add_i64-Shifted :
    (y : ℤ) (n : ℕ)
    → pos_part y + n < i64_limit
    → neg_part y ≤ i64_limit
    → Shifted (add_i64 y (pos n)) y n 0
unfolding add_i64
add_i64-Shifted y n p q =
    let s = +ℤ-Shifted y n in rw (wrap_i64_exact (y +ℤ pos n) (omega arith) (omega arith)) s

pub sub_i64-Shifted :
    (y : ℤ) (n : ℕ)
    → pos_part y < i64_limit
    → neg_part y + n ≤ i64_limit
    → Shifted (sub_i64 y (pos n)) y 0 n
unfolding sub_i64
sub_i64-Shifted y n p q =
    let s = -ℤ-Shifted y n in rw (wrap_i64_exact (y -ℤ pos n) (omega arith) (omega arith)) s

-- The same for a difference of two of them.
pub sub_i64_parts :
    (a b : ℤ)
    → pos_part a + neg_part b < i64_limit
    → neg_part a + pos_part b ≤ i64_limit
    → pos_part (sub_i64 a b) + neg_part a + pos_part b
      ≡ neg_part (sub_i64 a b) + pos_part a + neg_part b
unfolding sub_i64
sub_i64_parts a b p q =
    let small : (pos_part (a -ℤ b) ≤ pos_part a + neg_part b)
        × (neg_part (a -ℤ b) ≤ neg_part a + pos_part b) =
      -ℤ_bounds a b in
    let e = -ℤ_parts a b in rw (wrap_i64_exact (a -ℤ b) (omega arith) (omega arith)) e
