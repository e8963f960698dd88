-- ===== src/Sync/SelectInputs/Grouping.antt =====
-- The grouping of the selected outputs by address.
use mathlib.Core.List.{Permᴰ, append_assoc}
use mathlib.Core.List.Permᴰ
use wallet_rs.Prelude.{inl, inr, List, [], ◌∷◌, ◌++◌, map, Bool-cases}
use wallet_rs.Address.Types.{AddressOutput, address_eq}
use wallet_rs.InputSelection.Types.{AddressInputs, Input}
use wallet_rs.Sync.SelectInputs.{add_selected, group_selected}

-- The outputs of all entries.
abbrev pub all_outputs : List AddressInputs → List AddressOutput
all_outputs [] = []
all_outputs (entry ∷ rest) = entry.outputs ++ all_outputs rest

add_selected-perm :
    (input : Input) (m : List AddressInputs)
    → Permᴰ (all_outputs (add_selected input m)) (input.output ∷ all_outputs m)
unfolding add_selected
add_selected-perm input [] = Permᴰ.refl (input.output ∷ [])
add_selected-perm input (entry ∷ rest) =
    elim (Bool-cases (address_eq entry.address input.output.address)) [
      | inl same ↦
          rw (same, append_assoc) (Permᴰ.middle input.output entry.outputs (all_outputs rest))
      | inr other ↦ rw other (
          Permᴰ.trans (Permᴰ.append_left entry.outputs (add_selected-perm input rest))
            (Permᴰ.middle input.output entry.outputs (all_outputs rest)))
    ]

pub group_selected-perm :
    (m : List AddressInputs) (inputs : List Input)
    → Permᴰ (all_outputs (group_selected m inputs)) (map (λ i. i.output) inputs ++ all_outputs m)
unfolding group_selected
group_selected-perm m [] = Permᴰ.refl (all_outputs m)
group_selected-perm m (input ∷ rest) =
    Permᴰ.trans (group_selected-perm (add_selected input m) rest) (
      Permᴰ.trans (Permᴰ.append_left (map (λ i. i.output) rest) (add_selected-perm input m))
        (Permᴰ.middle input.output (map (λ i. i.output) rest) (all_outputs m)))
