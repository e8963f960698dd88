-- ===== src/Sync/SelectInputs.antt =====
-- `SyncedAccount::select_inputs`: the inputs of a transfer among the outputs that no other transfer
-- holds.
pub mod Grouping
pub mod Laws
pub mod Exclusion
pub mod Release
use wallet_rs.Prelude.{
  ℕ, ◌-◌, Bool, true, false, not, ◌&&◌, ◌||◌, String, Option, none, some, List, [], ◌∷◌, ◌++◌, map,
  fold64, any, filter, last, ltb, leb, length, if◌then◌else◌,
}
use wallet_rs.Error.{
  Result, ok, err, ◌>>=◌, ◌>>◌, raise_if, too_many_outputs, failed_to_get_remainder,
}
use wallet_rs.Address.Types.{AddressWrapper, AddressOutput, address_eq}
use wallet_rs.Message.Transfer.{Transfer, amount as transfer_amount}
use wallet_rs.InputSelection.Types.{AddressInputs, Input, Remainder, amount_of}
use wallet_rs.InputSelection.Select.{select_input}
use wallet_rs.Account.Types.{SignerType}
use wallet_rs.Sync.Locks.{is_locked}

abbrev pub ledger_max_in_outputs : ℕ
ledger_max_in_outputs = 17

-- The limit of a ledger covers inputs and outputs together.
unfoldable pub ledger_max_inputs : ℕ → Result ℕ
ledger_max_inputs output_amount =
    if leb (ledger_max_in_outputs - 1) output_amount
    then err (too_many_outputs output_amount (ledger_max_in_outputs - 1))
    else ok (ledger_max_in_outputs - output_amount)

-- Whether one of the transfer's outputs goes to the address.
abbrev pub is_deposit : Transfer → AddressWrapper → Bool
is_deposit transfer address = any (λ o. address_eq o.address address) transfer.outputs

-- The filter on the outputs of an address. An output of a deposit address counts only up to the
-- transfer's amount.
unfoldable pub usable_output : List AddressOutput → Transfer → AddressOutput → Bool
usable_output locked transfer o =
    (not (is_deposit transfer o.address) && ltb 0 o.amount && not (is_locked locked o)
      || is_deposit transfer o.address && leb o.amount (transfer_amount transfer))
    && ltb 0 o.amount
    && not (is_locked locked o)

abbrev pub to_input : Bool → AddressOutput → Input
to_input internal o = record { internal = internal; output = o }

unfoldable pub available_inputs : List AddressOutput → Transfer → List AddressInputs → List Input
available_inputs locked transfer [] = []
available_inputs locked transfer (a ∷ rest) =
    map (to_input a.internal) (filter (usable_output locked transfer) a.outputs)
    ++ available_inputs locked transfer rest

-- The address that receives what the inputs hold beyond the amount: that of the last input which is
-- not on a deposit address.
unfoldable pub remainder_of : Transfer → List Input → Result (Option Remainder)
remainder_of transfer selected_outputs =
    let inputs_amount = fold64 amount_of 0 selected_outputs in
    let candidates = filter (λ i. not (is_deposit transfer i.output.address)) selected_outputs in
    if ltb (transfer_amount transfer) inputs_amount
    then elim (last candidates) [
      | none ↦ err failed_to_get_remainder
      | some r ↦ ok (
          some
            (record { address = r.output.address; internal = r.internal; amount = inputs_amount }))
    ]
    else ok none

-- The `HashMap` of inputs by address: an output joins the entry of its address, or starts one.
unfoldable pub add_selected : Input → List AddressInputs → List AddressInputs
add_selected input [] =
    record {
      address = input.output.address;
      internal = input.internal;
      outputs = input.output ∷ [];
    }
    ∷ []
add_selected input (entry ∷ rest) =
    if address_eq entry.address input.output.address
    then record entry { outputs = entry.outputs ++ (input.output ∷ []) } ∷ rest
    else entry ∷ add_selected input rest

unfoldable pub group_selected : List AddressInputs → List Input → List AddressInputs
group_selected m [] = m
group_selected m (input ∷ rest) = group_selected (add_selected input m) rest

-- `max_inputs`, with the limit `INPUT_OUTPUT_COUNT_MAX` of the message library as a parameter.
unfoldable pub max_inputs_for : ℕ → SignerType → ℕ → Result ℕ
max_inputs_for input_output_count_max SignerType.ledger_nano output_amount =
    ledger_max_inputs output_amount
max_inputs_for input_output_count_max SignerType.ledger_nano_simulator output_amount =
    ledger_max_inputs output_amount
max_inputs_for input_output_count_max _ output_amount =
    if leb input_output_count_max output_amount
    then err (too_many_outputs output_amount input_output_count_max)
    else ok input_output_count_max

-- What follows the extension of `locked_outputs`.
unfoldable pub grouped_inputs :
    Transfer → List Input → Result (List AddressInputs × Option Remainder)
grouped_inputs transfer selected_outputs = do
  remainder ← remainder_of transfer selected_outputs
  ok (group_selected [] selected_outputs, remainder)

-- The random orders of `select_input`, and the limit of the message library.
module _ (shuffle_single shuffle_dust : List Input → List Input) (input_output_count_max : ℕ) where
  -- The selected outputs, before anything is locked.
  unfoldable pub selected_inputs :
      List AddressOutput → Transfer → List AddressInputs → SignerType → Result (List Input)
  selected_inputs locked transfer available signer_type = do
    max_inputs ← max_inputs_for input_output_count_max signer_type (length transfer.outputs)
    select_input shuffle_single shuffle_dust (transfer_amount transfer)
        (available_inputs locked transfer available) max_inputs

  -- The result, and `locked_outputs` as the call leaves it.
  unfoldable pub select_inputs :
      List AddressOutput
      → Transfer
      → List AddressInputs
      → SignerType
      → Result (List AddressInputs × Option Remainder) × List AddressOutput
  select_inputs locked transfer available signer_type =
      elim (selected_inputs locked transfer available signer_type) [
        | err e ↦ (err e, locked)
        | ok selected ↦ (grouped_inputs transfer selected, locked ++ map (λ i. i.output) selected)
      ]
