-- ===== src/Tests/Selection.antt =====
-- Input selection.
use mathlib.Core.List.{Sublistᴰ}
use mathlib.Core.List.Permᴰ
use wallet_rs.Prelude.{◌≡◌, refl, inr, true, List, [], ◌∷◌, arith, sum_by, fold64, add64}
use wallet_rs.Error.{ok, err, insufficient_funds, leaving_dust_error, consolidation_required}
use wallet_rs.InputSelection.Types.{Input, amount_of}
use wallet_rs.InputSelection.Search.{branch_and_bound}
use wallet_rs.InputSelection.Search.Soundness.{Outcome, branch_and_bound-Outcome}
use wallet_rs.InputSelection.Search.Completeness.{branch_and_bound-finds}
use wallet_rs.InputSelection.Draw.{needs_more, draw_from, single_draw}
use wallet_rs.InputSelection.Draw.Bounds.{LeavesNoDust, single_draw_sum}
use wallet_rs.InputSelection.Select.{
  push_by_kind, split_outputs, goes_first, insert_sorted, sort_inputs, search_usable, draw_inputs,
  choose_inputs, select_input,
}
use wallet_rs.InputSelection.Select.Laws.{Selects, select_input-Selects}
use wallet_rs.InputSelection.Select.Exact.{select_input-exact}
use wallet_rs.Tests.Wallet.{input}

-- Every definition that a run of `select_input` goes through.
unfoldable pub program : Unit {0}
unfolding add64 fold64 branch_and_bound needs_more draw_from single_draw push_by_kind split_outputs
    goes_first insert_sorted sort_inputs search_usable draw_inputs choose_inputs select_input
program = tt

abbrev coins : List Input
coins = input 1 0 2_000_000 ∷ input 1 1 5_000_000 ∷ input 2 2 3_000_000 ∷ []

-- 2 and 3 million are exactly 5, but the first exact match in the order of the search includes
-- the first coin.
select_exact :
    select_input (λ l. l) (λ l. l) 8_000_000 coins 127
    ≡ ok (input 1 1 5_000_000 ∷ input 2 2 3_000_000 ∷ [])
unfolding program
select_exact = refl

select_draw :
    select_input (λ l. l) (λ l. l) 4_000_000 coins 127
    ≡ ok (input 1 0 2_000_000 ∷ input 1 1 5_000_000 ∷ [])
unfolding program
select_draw = refl

-- One input at most: the largest first.
select_largest : select_input (λ l. l) (λ l. l) 4_000_000 coins 1 ≡ ok (input 1 1 5_000_000 ∷ [])
unfolding program
select_largest = refl

select_too_many :
    select_input (λ l. l) (λ l. l) 9_000_000 coins 2 ≡ err (consolidation_required 3 2)
unfolding program
select_too_many = refl

select_short :
    select_input (λ l. l) (λ l. l) 11_000_000 coins 127
    ≡ err (insufficient_funds 10_000_000 11_000_000)
unfolding program
select_short = refl

select_dust : select_input (λ l. l) (λ l. l) 9_500_000 coins 127 ≡ err (leaving_dust_error 500_000)
unfolding program
select_dust = refl

branch_and_bound-Outcome_example :
    Outcome 7_000_000 coins [] 0 (branch_and_bound 7_000_000 coins [] 0 10)
branch_and_bound-Outcome_example = branch_and_bound-Outcome 7_000_000 coins [] 0 10 (omega arith)

branch_and_bound-finds_example : (branch_and_bound 8_000_000 coins [] 0 10).found ≡ true
branch_and_bound-finds_example =
    branch_and_bound-finds 8_000_000 coins [] 0 10 (input 1 1 5_000_000 ∷ input 2 2 3_000_000 ∷ [])
      (Sublistᴰ.cons (Sublistᴰ.cons-cons refl (Sublistᴰ.cons-cons refl Sublistᴰ.slnil)))
      (omega arith) (omega arith) (omega arith)

single_draw_sum_example : LeavesNoDust 4_000_000 (sum_by amount_of (single_draw 4_000_000 coins []))
single_draw_sum_example = single_draw_sum 4_000_000 coins [] (omega arith) (inr (omega arith))

-- Three inputs would be needed, and two are allowed.
select_input-Selects_example :
    Selects 9_000_000 coins 2 (select_input (λ l. l) (λ l. l) 9_000_000 coins 2)
select_input-Selects_example =
    select_input-Selects (λ l. l) (λ l. l) Permᴰ.refl Permᴰ.refl 9_000_000 coins 2
      (tt, (tt, (tt, tt))) (omega arith)

select_input-exact_example :
    (cs : List Input) × (select_input (λ l. l) (λ l. l) 8_000_000 coins 127 ≡ ok cs)
    × (sum_by amount_of cs ≡ 8_000_000)
unfolding split_outputs push_by_kind
select_input-exact_example =
    select_input-exact (λ l. l) (λ l. l) 8_000_000 coins 127
      (input 1 1 5_000_000 ∷ input 2 2 3_000_000 ∷ []) (omega arith) (inr (omega arith))
      (Sublistᴰ.cons (Sublistᴰ.cons-cons refl (Sublistᴰ.cons-cons refl Sublistᴰ.slnil)))
      (omega arith) (omega arith) (omega arith)
