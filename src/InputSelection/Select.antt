-- ===== src/InputSelection/Select.antt =====
-- `select_input`: an exact match by `branch_and_bound`, or else a random draw, or else the largest
-- inputs first.
pub mod Sorting
pub mod Order
pub mod Laws
pub mod Exact
use wallet_rs.Prelude.{
  ℕ, ◌-◌, Bool, true, false, not, ◌&&◌, ◌||◌, List, [], ◌∷◌, reverse, fold64, ltb, leb, ◌==◌,
  length, if◌then◌else◌,
}
use wallet_rs.Error.{
  Error, Result, ok, err, ◌>>=◌, ◌>>◌, raise_if, insufficient_funds, leaving_dust_error,
  consolidation_required,
}
use wallet_rs.Address.Types.{OutputKind}
use wallet_rs.InputSelection.Types.{
  Input, amount_of, dust_allowance_value, max_input_selection_tries,
}
use wallet_rs.InputSelection.Search.{Found, branch_and_bound}
use wallet_rs.InputSelection.Draw.{single_draw}

-- The `match` of the loop that splits the inputs: a treasury output goes to neither list.
unfoldable pub push_by_kind : OutputKind → Input → List Input × List Input → List Input × List Input
push_by_kind OutputKind.signature_locked_single input (single, dust) = (input ∷ single, dust)
push_by_kind OutputKind.signature_locked_dust_allowance input (single, dust) =
    (single, input ∷ dust)
push_by_kind OutputKind.treasury input (single, dust) = (single, dust)

-- The two lists, in the order of the inputs.
unfoldable pub split_outputs : List Input → List Input × List Input
split_outputs [] = ([], [])
split_outputs (input ∷ rest) = push_by_kind input.output.kind input (split_outputs rest)

-- The comparison of the two `sort_by` calls does not order `a` after `b`: amounts fall, and on
-- equal amounts a change address comes first.
unfoldable pub goes_first : Input → Input → Bool
goes_first a b =
    if amount_of a == amount_of b
    then a.internal || not b.internal
    else ltb (amount_of b) (amount_of a)

-- `sort_by` is stable.
unfoldable pub insert_sorted : Input → List Input → List Input
insert_sorted a [] = a ∷ []
insert_sorted a (b ∷ rest) = if goes_first a b then a ∷ b ∷ rest else b ∷ insert_sorted a rest

unfoldable pub sort_inputs : List Input → List Input
sort_inputs [] = []
sort_inputs (a ∷ rest) = insert_sorted a (sort_inputs rest)

-- Whether the coins of a search are taken.
unfoldable pub search_usable : ℕ → Bool → List Input → ℕ → Bool
search_usable target found selected_coins max_inputs =
    let selected_balance = fold64 amount_of 0 selected_coins in
    let remaining_value = if leb target selected_balance then selected_balance - target else 0 in
    found
    && leb target selected_balance
    && leb (length selected_coins) max_inputs
    && (remaining_value == 0 || ltb dust_allowance_value remaining_value)

-- The random order of `shuffle` is a parameter, one for each list.
module _ (shuffle_single shuffle_dust : List Input → List Input) where
  -- The part from `single_draw` on, when `branch_and_bound` gave nothing to use.
  unfoldable pub draw_inputs : ℕ → List Input → List Input → ℕ → Result (List Input)
  draw_inputs target signature_locked dust_allowance max_inputs =
      let single = shuffle_single signature_locked in
      let dust = shuffle_dust dust_allowance in
      let inputs = single_draw target single dust in
      let largest = single_draw target (sort_inputs single) (sort_inputs dust) in
      if ltb max_inputs (length inputs)
      then if ltb max_inputs (length largest)
        then err (consolidation_required (length largest) max_inputs)
        else ok largest
      else ok inputs

  -- The selection once the balance is known to suffice.
  unfoldable pub choose_inputs : ℕ → List Input → ℕ → Result (List Input)
  choose_inputs target available_utxos max_inputs =
      let (signature_locked, dust_allowance) = split_outputs available_utxos in
      let result = branch_and_bound target signature_locked [] 0 max_input_selection_tries in
      let selected_coins = reverse result.current_selection in
      if search_usable target result.found selected_coins max_inputs
      then ok selected_coins
      else draw_inputs target signature_locked dust_allowance max_inputs

  unfoldable pub select_input : ℕ → List Input → ℕ → Result (List Input)
  select_input target available_utxos max_inputs = do
    let total_available_balance = fold64 amount_of 0 available_utxos
    raise_if (ltb total_available_balance target)
        (insufficient_funds total_available_balance target)
    raise_if
        (not (target == total_available_balance)
          && ltb (total_available_balance - target) dust_allowance_value)
        (leaving_dust_error (total_available_balance - target))
    choose_inputs target available_utxos max_inputs
