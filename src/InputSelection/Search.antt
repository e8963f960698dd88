-- ===== src/InputSelection/Search.antt =====
-- `branch_and_bound`: the search for inputs that hold exactly the target.
pub mod Cases
pub mod Soundness
pub mod Completeness
use wallet_rs.Prelude.{
  ℕ, zero, suc, ◌-◌, Bool, true, false, List, [], ◌∷◌, ◌++◌, add64, ltb, ◌==◌, if◌then◌else◌,
}
use wallet_rs.InputSelection.Types.{Input, amount_of}

-- What a call returns, with the two things that it changes: the selection, last pick first, and
-- the tries that are left.
pub record Found : Type 0 where
  pub found : Bool
  pub current_selection : List Input
  pub tries : ℕ

-- `Vec::pop`, on a stack whose top stands first.
abbrev pub pop : List Input → List Input
pop [] = []
pop (x ∷ xs) = xs

-- `available_utxos[depth..]` is the list; so `depth >= available_utxos.len()` is the empty list.
-- The counter of tries starts above zero and is tested before it falls.
unfoldable pub branch_and_bound : ℕ → List Input → List Input → ℕ → ℕ → Found
branch_and_bound target [] current_selection effective_value tries =
    if ltb target effective_value
    then record { found = false; current_selection = current_selection; tries = tries }
    else record {
      found = effective_value == target;
      current_selection = current_selection;
      tries = tries;
    }
branch_and_bound target (utxo ∷ rest) current_selection effective_value tries =
    let included =
      branch_and_bound target rest (utxo ∷ current_selection)
        (add64 effective_value (amount_of utxo)) (tries - 1) in
    let omitted =
      branch_and_bound target rest (pop included.current_selection) effective_value
        included.tries in
    if ltb target effective_value
    then record { found = false; current_selection = current_selection; tries = tries }
    else if effective_value == target
    then record { found = true; current_selection = current_selection; tries = tries }
    else if tries == 0
    then record { found = false; current_selection = current_selection; tries = tries }
    else if included.found
    then included
    else omitted
