-- ===== src/Sync/SelectInputs/Laws.antt =====
-- What `select_inputs` returns, and what it locks.
use mathlib.Core.List.{Permᴰ, append-nil, append_assoc}
use mathlib.Core.List.Permᴰ
use wallet_rs.Prelude.{
  ℕ, ◌≤◌, ◌<◌, ◌≡◌, refl, subst, sym, ◌∙◌, inl, inr, ◌⊎◌, ap, Bool, true, false, not, Option, none,
  some, List, [], ◌∷◌, ◌++◌, map, arith, u64_mod, fold64, fold64_exact, sum_by, filter, length, All,
  All-append, All-filter, All-perm, All-mono, All-last, any-Elem, Elem-append_right, here,
  All-SubBag, sum_by-SubBag-le, sum_by-perm, Option-cases, last,
}
use wallet_rs.Error.{Result, ok, err, Error, Result-cases}
use wallet_rs.Address.Types.{AddressOutput, id_of, output_id_eq_iff}
use wallet_rs.Message.Transfer.{Transfer, amount as transfer_amount}
use wallet_rs.InputSelection.Types.{AddressInputs, Input, Remainder, amount_of}
use wallet_rs.InputSelection.Draw.Bounds.{LeavesNoDust}
use wallet_rs.InputSelection.Select.Sorting.{IsSpendable}
use wallet_rs.InputSelection.Select.Laws.{IsSelection, Selects-ok, select_input-Selects}
use wallet_rs.Sync.Locks.{same_output, is_locked}
use wallet_rs.Account.Types.{SignerType}
use wallet_rs.Sync.SelectInputs.{
  is_deposit, usable_output, to_input, available_inputs, remainder_of, group_selected,
  max_inputs_for, selected_inputs, grouped_inputs, select_inputs,
}
use wallet_rs.Sync.SelectInputs.Grouping.{all_outputs, group_selected-perm}

-- The input passes the filter.
abbrev IsUsable : List AddressOutput → Transfer → Input → Type 0
IsUsable locked transfer i = usable_output locked transfer i.output ≡ true

All-to_input :
    (locked : List AddressOutput) (transfer : Transfer) (internal : Bool) (os : List AddressOutput)
    → All (λ o. usable_output locked transfer o ≡ true) os
    → All (IsUsable locked transfer) (map (to_input internal) os)
All-to_input locked transfer internal [] h = tt
All-to_input locked transfer internal (o ∷ os) h =
    (h.0, All-to_input locked transfer internal os h.1)

available_inputs-IsUsable :
    (locked : List AddressOutput) (transfer : Transfer) (available : List AddressInputs)
    → All (IsUsable locked transfer) (available_inputs locked transfer available)
unfolding available_inputs
available_inputs-IsUsable locked transfer [] = tt
available_inputs-IsUsable locked transfer (a ∷ rest) =
    All-append (IsUsable locked transfer) _ _
      (All-to_input locked transfer a.internal _
        (All-filter (usable_output locked transfer) a.outputs))
      (available_inputs-IsUsable locked transfer rest)

-- Whether the inputs hold more than the amount, and where the rest goes: to an address that the
-- transfer does not send to.
abbrev pub Remains : Transfer → ℕ → Option Remainder → Type 0
Remains transfer sum none = sum ≤ transfer_amount transfer
Remains transfer sum (some r) =
    (transfer_amount transfer < sum) × (r.amount ≡ sum) × (is_deposit transfer r.address ≡ false)

-- What the filter lets through is not locked and is not empty; on a deposit address it is at most
-- the transfer's amount.
usable_output-facts :
    (locked : List AddressOutput) (transfer : Transfer) (o : AddressOutput)
    → usable_output locked transfer o ≡ true
    → (0 < o.amount)
      × (is_locked locked o ≡ false)
      × (is_deposit transfer o.address ≡ true → o.amount ≤ transfer_amount transfer)
unfolding usable_output
usable_output-facts locked transfer o h = ground arith

-- The remainder goes to an address of the inputs that no output of the transfer goes to.
remainder_of-facts :
    (transfer : Transfer) (selected : List Input) (remainder : Option Remainder)
    → fold64 amount_of 0 selected ≡ sum_by amount_of selected
    → remainder_of transfer selected ≡ ok remainder
    → Remains transfer (sum_by amount_of selected) remainder
unfolding remainder_of
remainder_of-facts transfer selected none sum e =
    let others = filter (λ i. not (is_deposit transfer i.output.address)) selected in
    elim (Option-cases (last others)) [ inl nobody ↦ ground arith | inr (i, found) ↦ ground arith ]
remainder_of-facts transfer selected (some r) sum e =
    let others = filter (λ i. not (is_deposit transfer i.output.address)) selected in
    elim (Option-cases (last others)) [
      | inl nobody ↦ absurd (ground arith)
      | inr (i, found) ↦
          let free : not (is_deposit transfer i.output.address) ≡ true =
            All-last (λ i. not (is_deposit transfer i.output.address) ≡ true) others
              (All-filter (λ i. not (is_deposit transfer i.output.address)) selected) found in
          (ground arith, ground arith, ground arith)
    ]

-- The parts of a call that succeeds.
pub grouped_inputs-ok :
    (transfer : Transfer) (selected : List Input) {inputs : List AddressInputs}
    {remainder : Option Remainder}
    → grouped_inputs transfer selected ≡ ok (inputs, remainder)
    → (inputs ≡ group_selected [] selected) × (remainder_of transfer selected ≡ ok remainder)
unfolding grouped_inputs
grouped_inputs-ok transfer selected h = elim (Result-cases (remainder_of transfer selected)) [
  | inl (r, e) ↦ ground arith
  | inr (_, e) ↦ absurd (cc)
]

-- The selected outputs are those of the entries.
pub grouped-perm :
    (selected : List Input)
    → Permᴰ (all_outputs (group_selected [] selected)) (map (λ i. i.output) selected)
grouped-perm selected =
    subst (Permᴰ (all_outputs (group_selected [] selected))) (append-nil _)
      (group_selected-perm [] selected)

All-outputs {κ} :
    (P : AddressOutput → Type κ) (selected : List Input)
    → All (λ i. P i.output) selected
    → All P (map (λ i. i.output) selected)
All-outputs P [] h = tt
All-outputs P (i ∷ rest) h = (h.0, All-outputs P rest h.1)

sum_by-outputs :
    (selected : List Input)
    → sum_by (λ o. o.amount) (map (λ i. i.output) selected) ≡ sum_by amount_of selected
sum_by-outputs [] = refl
sum_by-outputs (i ∷ rest) = omega (arith, sum_by-outputs rest)

-- What is appended to the locks is locked.
All-is_locked : (before os : List AddressOutput) → All (λ o. is_locked (before ++ os) o ≡ true) os
All-is_locked before [] = tt
All-is_locked before (o ∷ os) = (
  any-Elem (λ l. same_output l o) (Elem-append_right before here)
      ((output_id_eq_iff (id_of o) (id_of o)).1 refl),
  subst (λ ls. All (λ x. is_locked ls x ≡ true) os) (append_assoc before (o ∷ []) os)
      (All-is_locked (before ++ o ∷ []) os),
)

-- Either the selection fails and locks nothing, or its outputs are locked, whatever follows.
pub select_inputs-cases :
    (shuffle_single shuffle_dust : List Input → List Input) (input_output_count_max : ℕ)
    (locked : List AddressOutput) (transfer : Transfer) (available : List AddressInputs)
    (signer_type : SignerType) {r : Result (List AddressInputs × Option Remainder)}
    {locked' : List AddressOutput}
    → select_inputs shuffle_single shuffle_dust input_output_count_max locked transfer available
        signer_type
      ≡ (r, locked')
    → let selection =
        selected_inputs shuffle_single shuffle_dust input_output_count_max locked transfer available
          signer_type in
      ((e : Error) × (selection ≡ err e) × (r ≡ err e) × (locked' ≡ locked))
      ⊎ ((selected : List Input) × (selection ≡ ok selected)
          × (r ≡ grouped_inputs transfer selected)
          × (locked' ≡ locked ++ map (λ i. i.output) selected))
unfolding select_inputs
select_inputs-cases s d n locked transfer available signer_type {r} {locked'} h =
    elim (Result-cases (selected_inputs s d n locked transfer available signer_type)) [
      | inl (selected, e) ↦
          let h' = rw (e, select_inputs) at h in
          inr (selected, e, ap (λ p. p.0) (sym h'), ap (λ p. p.1) (sym h'))
      | inr (er, e) ↦
          let h' = rw (e, select_inputs) at h in
          inl (er, e, ap (λ p. p.0) (sym h'), ap (λ p. p.1) (sym h'))
    ]

module _ (shuffle_single shuffle_dust : List Input → List Input)
    (single_perm : (l : List Input) → Permᴰ (shuffle_single l) l)
    (dust_perm : (l : List Input) → Permᴰ (shuffle_dust l) l) (input_output_count_max : ℕ)
    (locked : List AddressOutput) (transfer : Transfer) (available : List AddressInputs)
    (signer_type : SignerType)
    (spendable : All IsSpendable (available_inputs locked transfer available))
    (bounded : sum_by amount_of (available_inputs locked transfer available) < u64_mod) where
  -- The outputs selected pass the filter, and reach the amount without dust.
  pub selected_inputs-IsUsable :
      (selected : List Input)
      → selected_inputs shuffle_single shuffle_dust input_output_count_max locked transfer available
          signer_type
        ≡ ok selected
      → (max_inputs : ℕ) × IsSelection
          (transfer_amount transfer)
          (available_inputs locked transfer available)
          max_inputs
          selected
        × All (IsUsable locked transfer) selected
  unfolding selected_inputs
  selected_inputs-IsUsable selected h =
      elim (Result-cases
        (max_inputs_for input_output_count_max signer_type (length transfer.outputs))) [
          | inl (max_inputs, e) ↦
              let s =
                Selects-ok selected
                  (select_input-Selects shuffle_single shuffle_dust single_perm dust_perm
                    (transfer_amount transfer) (available_inputs locked transfer available)
                    max_inputs spendable bounded)
                  (rw e at h) in
              (
                max_inputs,
                s,
                All-SubBag (IsUsable locked transfer) selected s.part
                    (available_inputs-IsUsable locked transfer available),
              )
          | inr (_, e) ↦ absurd (cc)
        ]

  -- When the random orders only reorder and the outputs that the call may use are spendable and fit
  -- in 64 bits together, a call that succeeds locks what it returns: nothing of it was locked
  -- before, and all of it is locked afterwards.
  pub select_inputs-locks :
      {inputs : List AddressInputs} {remainder : Option Remainder} {locked' : List AddressOutput}
      → select_inputs shuffle_single shuffle_dust input_output_count_max locked transfer available
          signer_type
        ≡ (ok (inputs, remainder), locked')
      → All (λ o. is_locked locked o ≡ false) (all_outputs inputs)
        × All (λ o. is_locked locked' o ≡ true) (all_outputs inputs)
  select_inputs-locks {inputs} {remainder} {locked'} h =
      elim (select_inputs-cases shuffle_single shuffle_dust input_output_count_max locked transfer
        available signer_type h) [
          | inl (_, _, failed, _) ↦ absurd (cc)
          | inr (selected, e, result, locks) ↦
              let (grouped, _) = grouped_inputs-ok transfer selected (sym result) in
              let (_, _, usable) = selected_inputs-IsUsable selected e in
              let all_selected = Permᴰ.symm (grouped-perm selected) in
              rw (grouped, locks)
                (
                  All-perm (λ o. is_locked locked o ≡ false) all_selected
                      (All-outputs (λ o. is_locked locked o ≡ false) selected
                        (All-mono (IsUsable locked transfer)
                          (λ i. is_locked locked i.output ≡ false) selected
                          (λ i u. (usable_output-facts locked transfer i.output u).1) usable)),
                  All-perm (λ o. is_locked (locked ++ map (λ i. i.output) selected) o ≡ true)
                      all_selected (All-is_locked locked (map (λ i. i.output) selected)),
                )
        ]

  -- When the random orders only reorder and the outputs that the call may use are spendable and fit
  -- in 64 bits together, what a call that succeeds selects reaches the amount without leaving dust;
  -- there is a remainder exactly when the inputs hold more than the amount, and it goes to an
  -- address that the transfer does not send to.
  pub select_inputs-covers :
      {inputs : List AddressInputs} {remainder : Option Remainder} {locked' : List AddressOutput}
      → select_inputs shuffle_single shuffle_dust input_output_count_max locked transfer available
          signer_type
        ≡ (ok (inputs, remainder), locked')
      → LeavesNoDust (transfer_amount transfer) (sum_by (λ o. o.amount) (all_outputs inputs))
        × Remains transfer (sum_by (λ o. o.amount) (all_outputs inputs)) remainder
  select_inputs-covers {inputs} {remainder} {locked'} h =
      elim (select_inputs-cases shuffle_single shuffle_dust input_output_count_max locked transfer
        available signer_type h) [
          | inl (_, _, failed, _) ↦ absurd (cc)
          | inr (selected, e, result, locks) ↦
              let (grouped, rest) = grouped_inputs-ok transfer selected (sym result) in
              let (_, s, _) = selected_inputs-IsUsable selected e in
              let sums : sum_by (λ o. o.amount) (all_outputs inputs) ≡ sum_by amount_of selected =
                rw grouped
                  (sum_by-perm (λ o. o.amount) (grouped-perm selected) ∙ sum_by-outputs selected) in
              let within = sum_by-SubBag-le amount_of selected s.part in
              rw sums (
                s.enough,
                remainder_of-facts transfer selected remainder
                    (fold64_exact amount_of 0 selected (omega arith) ∙ omega arith) rest,
              )
        ]
