-- ===== src/Sync/SelectInputs/Exclusion.antt =====
-- The locks between two transfers, and the locks that stay.
use mathlib.Core.List.{Permᴰ}
use wallet_rs.Prelude.{
  ℕ, ◌<◌, ◌≡◌, ◌≢◌, sym, subst, ◌++◌, inl, inr, false, true, Option, List, [], map, arith, u64_mod,
  sum_by, fold64, length, All, Elem, All-Elem,
}
use wallet_rs.Error.{ok, err, Result-cases, failed_to_get_remainder}
use wallet_rs.Address.Types.{AddressOutput, id_of}
use wallet_rs.Message.Transfer.{Transfer, amount as transfer_amount}
use wallet_rs.InputSelection.Types.{AddressInputs, Input, Remainder, amount_of}
use wallet_rs.InputSelection.Select.{split_outputs, draw_inputs, choose_inputs, select_input}
use wallet_rs.InputSelection.Select.Sorting.{IsSpendable}
use wallet_rs.Sync.Locks.{is_locked, is_locked-same_id}
use wallet_rs.Account.Types.{SignerType}
use wallet_rs.Sync.SelectInputs.{
  ledger_max_inputs, max_inputs_for, selected_inputs, available_inputs, grouped_inputs,
  remainder_of, select_inputs,
}
use wallet_rs.Sync.SelectInputs.Grouping.{all_outputs}
use wallet_rs.Sync.SelectInputs.Laws.{select_inputs-cases, select_inputs-locks}

-- Without an order the outputs can have no treasury outputs, nor amounts beyond `u64`.
abbrev pub IsSound : List AddressOutput → Transfer → List AddressInputs → Type 0
IsSound locked transfer available =
    All IsSpendable (available_inputs locked transfer available)
    × (sum_by amount_of (available_inputs locked transfer available) < u64_mod)

-- A remainder is looked for only when something was selected.
grouped_inputs-nil :
    (transfer : Transfer) → grouped_inputs transfer [] ≢ err failed_to_get_remainder
unfolding grouped_inputs remainder_of fold64
grouped_inputs-nil transfer h = ground arith

grouped_inputs-failed :
    (transfer : Transfer) (selected : List Input)
    → grouped_inputs transfer selected ≡ err failed_to_get_remainder
    → selected ≢ []
grouped_inputs-failed transfer selected h empty =
    grouped_inputs-nil transfer
      (subst (λ s. grouped_inputs transfer s ≡ err failed_to_get_remainder) empty h)

max_inputs_for-ne-failed :
    (n : ℕ) (signer_type : SignerType) (outputs : ℕ)
    → max_inputs_for n signer_type outputs ≢ err failed_to_get_remainder
unfolding max_inputs_for ledger_max_inputs
max_inputs_for-ne-failed n SignerType.ledger_nano outputs h = ground arith
max_inputs_for-ne-failed n _ outputs h = ground arith

-- The selection itself has other errors.
module _ (shuffle_single shuffle_dust : List Input → List Input) where
  draw_inputs-ne-failed :
      (target : ℕ) (single dust : List Input) (n : ℕ)
      → draw_inputs shuffle_single shuffle_dust target single dust n ≢ err failed_to_get_remainder
  unfolding draw_inputs
  draw_inputs-ne-failed target single dust n h = ground arith

  choose_inputs-ne-failed :
      (target : ℕ) (available : List Input) (n : ℕ)
      → choose_inputs shuffle_single shuffle_dust target available n ≢ err failed_to_get_remainder
  unfolding choose_inputs
  choose_inputs-ne-failed target available n h =
      let (single, dust) = split_outputs available in
      ground (arith, draw_inputs-ne-failed target single dust n)

  select_input-ne-failed :
      (target : ℕ) (available : List Input) (n : ℕ)
      → select_input shuffle_single shuffle_dust target available n ≢ err failed_to_get_remainder
  unfolding select_input
  select_input-ne-failed target available n h =
      ground (arith, choose_inputs-ne-failed target available n)

module _ (shuffle_single shuffle_dust : List Input → List Input) (input_output_count_max : ℕ) where
  -- Two transfers that select one after the other, with the locks of the first in place for the
  -- second, never use the same output, when the random orders only reorder and the outputs that
  -- each call may use are spendable and fit in 64 bits together.
  pub select_inputs-disjoint :
      ((l : List Input) → Permᴰ (shuffle_single l) l)
      → ((l : List Input) → Permᴰ (shuffle_dust l) l)
      → (locked : List AddressOutput) (first second : Transfer)
        (available available' : List AddressInputs) (signer_type signer_type' : SignerType)
        {inputs inputs' : List AddressInputs} {remainder remainder' : Option Remainder}
        {locked' locked'' : List AddressOutput}
      → IsSound locked first available
      → IsSound locked' second available'
      → select_inputs shuffle_single shuffle_dust input_output_count_max locked first available
          signer_type
        ≡ (ok (inputs, remainder), locked')
      → select_inputs shuffle_single shuffle_dust input_output_count_max locked' second available'
          signer_type'
        ≡ (ok (inputs', remainder'), locked'')
      → (o o' : AddressOutput) → Elem o (all_outputs inputs)
      → Elem o' (all_outputs inputs')
      → id_of o ≢ id_of o'
  select_inputs-disjoint p q locked first second available available' st st' {locked' = locked'} s
        s' h h' o o' e e' same =
      let (_, taken) =
        select_inputs-locks shuffle_single shuffle_dust p q input_output_count_max locked first
          available st s.0 s.1 h in
      let (free, _) =
        select_inputs-locks shuffle_single shuffle_dust p q input_output_count_max locked' second
          available' st' s'.0 s'.1 h' in
      let yes_ : is_locked locked' o ≡ true = All-Elem (λ x. is_locked locked' x ≡ true) taken e in
      let no_ : is_locked locked' o' ≡ false =
        All-Elem (λ x. is_locked locked' x ≡ false) free e' in
      let both : is_locked locked' o ≡ is_locked locked' o' = is_locked-same_id locked' o o' same in
      cc

  selected_inputs-ne-failed :
      (locked : List AddressOutput) (transfer : Transfer) (available : List AddressInputs)
      (signer_type : SignerType)
      → selected_inputs shuffle_single shuffle_dust input_output_count_max locked transfer available
          signer_type
        ≢ err failed_to_get_remainder
  unfolding selected_inputs
  selected_inputs-ne-failed locked transfer available signer_type h =
      elim (Result-cases
        (max_inputs_for input_output_count_max signer_type (length transfer.outputs))) [
          | inl (n, e) ↦
              select_input-ne-failed shuffle_single shuffle_dust (transfer_amount transfer)
                (available_inputs locked transfer available) n (rw e at h)
          | inr (_, e) ↦
              max_inputs_for-ne-failed input_output_count_max signer_type (length transfer.outputs)
                (cc)
        ]

  module _ (locked : List AddressOutput) (transfer : Transfer) (available : List AddressInputs)
      (signer_type : SignerType) {locked' : List AddressOutput} where
    -- When a call finds no address for the remainder, it has selected outputs, and exactly these
    -- are added to the locks, and stay there.
    pub failed_remainder_keeps_locks :
        select_inputs shuffle_single shuffle_dust input_output_count_max locked transfer available
            signer_type
          ≡ (err failed_to_get_remainder, locked')
        → (selected : List Input) × (selected ≢ [])
          × (selected_inputs shuffle_single shuffle_dust input_output_count_max locked transfer
                available signer_type
              ≡ ok selected)
          × (locked' ≡ locked ++ map (λ i. i.output) selected)
    failed_remainder_keeps_locks h =
        elim (select_inputs-cases shuffle_single shuffle_dust input_output_count_max locked transfer
          available signer_type h) [
            | inl (er, selection, failed, _) ↦
                let same : er ≡ failed_to_get_remainder = cc in
                absurd (
                  selected_inputs-ne-failed locked transfer available signer_type
                    (rw same at selection))
            | inr (selected, e, result, locks) ↦
                (selected, grouped_inputs-failed transfer selected (sym result), e, locks)
          ]
