-- ===== src/Tests/Locks.antt =====
-- The inputs of transfers, and the locks on them.
use mathlib.Core.List.{Permᴰ}
use mathlib.Core.List.Permᴰ
use wallet_rs.Prelude.{
  ℕ, ◌≡◌, ◌≢◌, refl, true, false, none, some, List, [], ◌∷◌, ◌++◌, map, arith, sum_by, All, here,
}
use wallet_rs.Error.{ok, err, failed_to_get_remainder}
use wallet_rs.Address.Types.{AddressOutput, id_of, address_eq, output_id_eq}
use wallet_rs.Message.Transfer.{Transfer, new_builder, amount as transfer_amount}
use wallet_rs.InputSelection.Types.{AddressInputs, Input, Remainder}
use wallet_rs.InputSelection.Draw.Bounds.{LeavesNoDust}
use wallet_rs.Sync.Locks.{is_locked, remove_first, unlock_inputs}
use wallet_rs.Account.Types.{SignerType}
use wallet_rs.Sync.SelectInputs.{
  ledger_max_inputs, usable_output, available_inputs, remainder_of, add_selected, group_selected,
  max_inputs_for, grouped_inputs, selected_inputs, select_inputs,
}
use wallet_rs.Sync.SelectInputs.Grouping.{all_outputs}
use wallet_rs.Sync.SelectInputs.Laws.{Remains, select_inputs-locks, select_inputs-covers}
use wallet_rs.Sync.SelectInputs.Exclusion.{select_inputs-disjoint, failed_remainder_keeps_locks}
use wallet_rs.Sync.SelectInputs.Release.{IsOnePerAddress, unlock_inputs-select_inputs}
use wallet_rs.Tests.Wallet.{wrapper, output, inputs_of}
use wallet_rs.Tests.Selection.{program}

-- Every definition that a run of `select_inputs` goes through.
locking : Unit {0}
unfolding program new_builder transfer_amount address_eq output_id_eq usable_output available_inputs
    remainder_of add_selected group_selected max_inputs_for ledger_max_inputs grouped_inputs
    selected_inputs select_inputs remove_first unlock_inputs
locking = tt

abbrev id_order : List Input → List Input
id_order l = l

abbrev send : ℕ → ℕ → Transfer
unfolding new_builder
send address amount = new_builder (wrapper address) amount none

abbrev stock : List AddressInputs
stock =
    inputs_of 1 (output 1 0 2_000_000 ∷ output 1 1 3_000_000 ∷ [])
    ∷ inputs_of 2 (output 2 2 5_000_000 ∷ [])
    ∷ []

abbrev picked : List AddressInputs
picked = inputs_of 1 (output 1 0 2_000_000 ∷ output 1 1 3_000_000 ∷ []) ∷ []

abbrev picked_locks : List AddressOutput
picked_locks = output 1 0 2_000_000 ∷ output 1 1 3_000_000 ∷ []

abbrev rest_picked : List AddressInputs
rest_picked = inputs_of 2 (output 2 2 5_000_000 ∷ []) ∷ []

abbrev four_rest : Remainder
four_rest = record { address = wrapper 2; internal = false; amount = 5_000_000 }

first_call :
    select_inputs id_order id_order 127 [] (send 9 5_000_000) stock SignerType.stronghold
    ≡ (ok (picked, none), picked_locks)
unfolding locking
first_call = refl

-- The same outputs are offered again; the locked ones are passed over.
second_call :
    select_inputs id_order id_order 127 picked_locks (send 9 4_000_000) stock SignerType.ledger_nano
    ≡ (ok (rest_picked, some four_rest), picked_locks ++ (output 2 2 5_000_000 ∷ []))
unfolding locking
second_call = refl

-- A transfer of 10 million to the address that holds 6 and 7 million.
abbrev own : List AddressInputs
own = inputs_of 1 (output 1 0 6_000_000 ∷ output 1 1 7_000_000 ∷ []) ∷ []

failed_call :
    select_inputs id_order id_order 127 [] (send 1 10_000_000) own SignerType.stronghold
    ≡ (err failed_to_get_remainder, output 1 0 6_000_000 ∷ output 1 1 7_000_000 ∷ [])
unfolding locking
failed_call = refl

release : unlock_inputs picked picked_locks ≡ ok (output 1 1 3_000_000 ∷ [])
unfolding locking
release = refl

select_inputs-locks_example :
    All (λ o. is_locked [] o ≡ false) (all_outputs picked)
    × All (λ o. is_locked picked_locks o ≡ true) (all_outputs picked)
unfolding locking
select_inputs-locks_example =
    select_inputs-locks id_order id_order Permᴰ.refl Permᴰ.refl 127 [] (send 9 5_000_000) stock
      SignerType.stronghold (tt, (tt, (tt, tt))) (omega arith) first_call

select_inputs-covers_example :
    LeavesNoDust
      (transfer_amount (send 9 4_000_000))
      (sum_by (λ o. o.amount) (all_outputs rest_picked))
    × Remains (send 9 4_000_000) (sum_by (λ o. o.amount) (all_outputs rest_picked)) (some four_rest)
unfolding locking
select_inputs-covers_example =
    select_inputs-covers id_order id_order Permᴰ.refl Permᴰ.refl 127 picked_locks (send 9 4_000_000)
      stock SignerType.ledger_nano (tt, tt) (omega arith) second_call

select_inputs-disjoint_example : id_of (output 1 0 2_000_000) ≢ id_of (output 2 2 5_000_000)
unfolding locking
select_inputs-disjoint_example =
    select_inputs-disjoint id_order id_order 127 Permᴰ.refl Permᴰ.refl [] (send 9 5_000_000)
      (send 9 4_000_000) stock stock SignerType.stronghold SignerType.ledger_nano
      ((tt, (tt, (tt, tt))), omega arith) ((tt, tt), omega arith) first_call second_call
      (output 1 0 2_000_000) (output 2 2 5_000_000) here here

failed_remainder_keeps_locks_example :
    (selected : List Input) × (selected ≢ [])
    × (selected_inputs id_order id_order 127 [] (send 1 10_000_000) own SignerType.stronghold
        ≡ ok selected)
    × ((output 1 0 6_000_000 ∷ output 1 1 7_000_000 ∷ []) ≡ [] ++ map (λ i. i.output) selected)
failed_remainder_keeps_locks_example =
    failed_remainder_keeps_locks id_order id_order 127 [] (send 1 10_000_000) own
      SignerType.stronghold failed_call

unlock_inputs-select_inputs_example :
    (released : List AddressOutput) × (kept : List AddressOutput) × ((output 1 1 3_000_000 ∷ [])
      ≡ [] ++ kept)
    × IsOnePerAddress picked released
    × Permᴰ (released ++ kept) (all_outputs picked)
unfolding locking
unlock_inputs-select_inputs_example =
    unlock_inputs-select_inputs id_order id_order Permᴰ.refl Permᴰ.refl 127 [] (send 9 5_000_000)
      stock SignerType.stronghold ((tt, (tt, (tt, tt))), omega arith) first_call release
