-- ===== src/InputSelection/Select/Exact.antt =====
-- `select_input` and exact matches.
use mathlib.Core.List.{Sublistᴰ}
use native.Mathlib.Nat.{le_trans, pow-le-pow_right}
use wallet_rs.Prelude.{
  ℕ, ◌+◌, ◌-◌, ◌^◌, ◌≤◌, ◌<◌, ◌≡◌, ◌∙◌, true, false, not, ◌&&◌, List, [], ◌++◌, reverse, arith,
  u64_mod, fold64, fold64_exact, sum_by, sum_by-append, sum_by-SubBag-le, length, length-SubBag-le,
  ltb, ◌==◌,
}
use wallet_rs.Error.{ok}
use wallet_rs.InputSelection.Types.{
  Input, amount_of, dust_allowance_value, max_input_selection_tries,
}
use wallet_rs.InputSelection.Search.{branch_and_bound}
use wallet_rs.InputSelection.Search.Soundness.{branch_and_bound-Outcome}
use wallet_rs.InputSelection.Search.Completeness.{branch_and_bound-finds}
use wallet_rs.InputSelection.Draw.Bounds.{LeavesNoDust}
use wallet_rs.InputSelection.Select.{split_outputs, search_usable, choose_inputs, select_input}
use wallet_rs.InputSelection.Select.Sorting.{split_outputs-SubBag}
use wallet_rs.InputSelection.Select.Laws.{search_coins, search_usable-exact}

-- The tries suffice for 23 outputs.
enough_tries : (n : ℕ) → n ≤ 23 → 2 ^ n ≤ max_input_selection_tries + 1
enough_tries n h = le_trans (pow-le-pow_right {n = 2} (omega arith) h) (omega arith)

-- With a balance that leaves no dust `select_input` goes on to choose.
select_input-eq-choose_inputs :
    (shuffle_single shuffle_dust : List Input → List Input) (target : ℕ) (available : List Input)
    (max_inputs : ℕ)
    → sum_by amount_of available < u64_mod
    → LeavesNoDust target (sum_by amount_of available)
    → select_input shuffle_single shuffle_dust target available max_inputs
      ≡ choose_inputs shuffle_single shuffle_dust target available max_inputs
unfolding select_input
select_input-eq-choose_inputs s d target available max_inputs h total =
    let e : fold64 amount_of 0 available ≡ sum_by amount_of available =
      fold64_exact amount_of 0 available (omega arith) ∙ omega arith in
    let covered : ltb (sum_by amount_of available) target ≡ false = ground arith in
    let clean : (not (target == sum_by amount_of available)
          && ltb (sum_by amount_of available - target) dust_allowance_value)
        ≡ false =
      ground arith in
    rw (e, covered, clean)

-- A usable result of the search is returned.
choose_inputs-found :
    (shuffle_single shuffle_dust : List Input → List Input) (target : ℕ) (available : List Input)
    (max_inputs : ℕ)
    → let r = branch_and_bound target (split_outputs available).0 [] 0 max_input_selection_tries in
      r.found ≡ true
      → search_usable target true (reverse r.current_selection) max_inputs ≡ true
      → choose_inputs shuffle_single shuffle_dust target available max_inputs
        ≡ ok (reverse r.current_selection)
unfolding choose_inputs
choose_inputs-found s d target available max_inputs found usable = simp (found, usable)

-- When some of the inputs that are not dust allowances add up to exactly the target, there are at
-- most 23 such inputs and no more than the limit, and all inputs together fit in 64 bits and reach
-- the target without leaving dust, then the selection succeeds with a sum of exactly the target,
-- whatever the random orders are.
pub select_input-exact :
    (shuffle_single shuffle_dust : List Input → List Input) (target : ℕ) (available : List Input)
    (max_inputs : ℕ) (picks : List Input)
    → sum_by amount_of available < u64_mod
    → LeavesNoDust target (sum_by amount_of available)
    → Sublistᴰ picks (split_outputs available).0
    → sum_by amount_of picks ≡ target
    → length (split_outputs available).0 ≤ 23
    → length (split_outputs available).0 ≤ max_inputs
    → (coins : List Input) × (select_input shuffle_single shuffle_dust target available max_inputs
        ≡ ok coins)
      × (sum_by amount_of coins ≡ target)
select_input-exact shuffle_single shuffle_dust target available max_inputs picks h total p e few
      fits =
    let (single, dust) = split_outputs available in
    let r = branch_and_bound target single [] 0 max_input_selection_tries in
    let coins = reverse r.current_selection in
    let below : sum_by amount_of single < u64_mod = omega (
      arith,
      sum_by-append amount_of single dust,
      sum_by-SubBag-le amount_of (single ++ dust) (split_outputs-SubBag available),
    ) in
    let found : r.found ≡ true =
      branch_and_bound-finds target single [] 0 max_input_selection_tries picks p (omega arith)
        (enough_tries (length single) few) (omega arith) in
    let (part, sum) =
      search_coins target single r
        (branch_and_bound-Outcome target single [] 0 max_input_selection_tries (omega arith))
        found in
    (
      coins,
      select_input-eq-choose_inputs shuffle_single shuffle_dust target available max_inputs h total
          ∙ choose_inputs-found shuffle_single shuffle_dust target available max_inputs found (
              search_usable-exact target coins max_inputs sum (omega arith)
                (le_trans (length-SubBag-le coins part) fits)),
      sum,
    )
