-- ===== src/InputSelection/Draw.antt =====
-- `single_draw`: inputs in the given order until the target is reached without leaving dust.
pub mod Bounds
use wallet_rs.Prelude.{
  ℕ, ◌-◌, Bool, not, ◌&&◌, ◌||◌, List, [], ◌∷◌, ◌++◌, add64, ltb, ◌==◌, if◌then◌else◌,
}
use wallet_rs.InputSelection.Types.{Input, amount_of, dust_allowance_value}

-- Whether the draw goes on at a sum: short of the target, or above it by less than the dust
-- allowance.
unfoldable pub needs_more : ℕ → ℕ → Bool
needs_more target old_sum =
    ltb old_sum target || (ltb (old_sum - target) dust_allowance_value && not (old_sum == target))

-- The `take_while` of `single_draw`, on the sum that its closure keeps.
unfoldable pub draw_from : ℕ → ℕ → List Input → List Input
draw_from target sum [] = []
draw_from target sum (input ∷ rest) =
    let taken = input ∷ draw_from target (add64 sum (amount_of input)) rest in
    if needs_more target sum then taken else []

unfoldable pub single_draw : ℕ → List Input → List Input → List Input
single_draw target signature_locked dust_allowance =
    draw_from target 0 (signature_locked ++ dust_allowance)
