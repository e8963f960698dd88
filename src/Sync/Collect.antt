-- ===== src/Sync/Collect.antt =====
-- The first part of `perform_transfer` (src/account/sync/mod.rs): the outputs and the inputs of the
-- transaction, what the inputs pay and what remains of them, and the record of dust and dust
-- allowance outputs. The bech32 form of an address, and which amounts and indexes the message
-- library accepts, are parameters.
pub mod Sums
pub mod Inputs
use wallet_rs.Prelude.{
  ℕ, Bool, true, false, not, ◌&&◌, Option, none, some, List, [], ◌∷◌, ◌++◌, String, map, find,
  add64, sub64, ltb, ◌==◌, if◌then◌else◌,
}
use wallet_rs.Error.{Result, ok, err, ◌>>=◌, ok_or, bee_message, invalid_output_kind, panic}
use wallet_rs.Address.Types.{
  OutputKind, signature_locked_single, signature_locked_dust_allowance, treasury, AddressWrapper,
  AddressOutput, OutputId, Address, address_eq,
}
use wallet_rs.Address.Outputs.{id}
use wallet_rs.Message.Transfer.{Transfer, TransferOutput, amount as transfer_amount}
use wallet_rs.InputSelection.Types.{AddressInputs, dust_allowance_value}

-- `TransactionIO` of src/event.rs.
pub record TransactionIo : Type 0 where
  pub address : String
  pub amount : ℕ
  pub remainder : Option Bool

-- `TransactionInput` of src/signing/mod.rs.
pub record SigningInput : Type 0 where
  pub input : OutputId
  pub address_index : ℕ
  pub address_internal : Bool

-- An output of the essence; the message library has no other kind that a transfer creates.
pub record EssenceOutput : Type 0 where
  pub kind : OutputKind
  pub address : ℕ
  pub amount : ℕ

-- An entry of `dust_and_allowance_recorders`: amount, address, and whether the output is created.
pub record DustRecord : Type 0 where
  pub amount : ℕ
  pub address : String
  pub created : Bool

-- An entry of `utxos`: the output, and the key and the address that it is locked to.
pub record Utxo : Type 0 where
  pub output : AddressOutput
  pub address_index : ℕ
  pub address_internal : Bool
  pub bee_address : ℕ

-- The variables of the loop over `utxos`.
pub record Collected : Type 0 where
  pub inputs_for_event : List TransactionIo
  pub inputs_for_essence : List OutputId
  pub address_inputs_for_validation : List (OutputId × ℕ)
  pub transaction_inputs : List SigningInput
  pub dust_and_allowance_recorders : List DustRecord
  pub current_output_sum : ℕ
  pub remainder_value : ℕ

-- The outputs of one address, with the key of the account's address that holds them.
unfoldable pub address_utxos : Address → List AddressOutput → List Utxo
address_utxos a [] = []
address_utxos a (o ∷ rest) =
    record {
      output = o;
      address_index = a.key_index;
      address_internal = a.internal;
      bee_address = a.address.inner;
    }
    ∷ address_utxos a rest

-- The `unwrap` panics on an address that the account does not have.
unfoldable pub collect_utxos : List Address → List AddressInputs → Result (List Utxo)
unfolding address_utxos
collect_utxos addresses [] = ok []
collect_utxos addresses (input ∷ rest) = do
  a ← ok_or (find (λ a. address_eq a.address input.address) addresses) panic
  utxos ← collect_utxos addresses rest
  ok (address_utxos a input.outputs ++ utxos)

-- The dust entry for what the current sum has above the amount.
unfoldable pub record_source : ℕ → ℕ → String → List DustRecord → List DustRecord
record_source amount current address recorders =
    let remaining_balance_on_source = sub64 current amount in
    if ltb remaining_balance_on_source dust_allowance_value
      && not (remaining_balance_on_source == 0)
    then recorders
      ++ (record { amount = remaining_balance_on_source; address = address; created = true } ∷ [])
    else recorders

-- The three branches on the current sum.
unfoldable pub add_input : ℕ → ℕ → String → Collected → Collected
unfolding record_source
add_input transfer value address s =
    if s.current_output_sum == transfer
    then record s { remainder_value = add64 s.remainder_value value }
    else if ltb transfer (add64 s.current_output_sum value)
    then (let missing_value = sub64 transfer s.current_output_sum in
        let current = add64 s.current_output_sum missing_value in
        record s {
          remainder_value = add64 s.remainder_value (sub64 value missing_value);
          current_output_sum = current;
          dust_and_allowance_recorders =
              record_source transfer current address s.dust_and_allowance_recorders;
        })
    else (let current = add64 s.current_output_sum value in
        record s {
          current_output_sum = current;
          dust_and_allowance_recorders =
              if ltb transfer current
              then record_source transfer current address s.dust_and_allowance_recorders
              else s.dust_and_allowance_recorders;
        })

module _ (to_bech32 : AddressWrapper → String) (index_valid amount_valid : ℕ → Bool) where
  -- The record of the dust that the outputs of the transfer create.
  unfoldable pub record_outputs : ℕ → List TransferOutput → List DustRecord
  record_outputs amount [] = []
  record_outputs amount (o ∷ rest) =
      let later = record_outputs amount rest in
      if ltb amount dust_allowance_value
      then record { amount = o.amount; address = to_bech32 o.address; created = true } ∷ later
      else later

  unfoldable pub essence_output : OutputKind → AddressWrapper → ℕ → Result EssenceOutput
  essence_output treasury address amount = err (invalid_output_kind "Treasury")
  essence_output kind address amount =
      if amount_valid amount
      then ok (record { kind = kind; address = address.inner; amount = amount })
      else err bee_message

  unfoldable pub outputs_for_essence : List TransferOutput → Result (List EssenceOutput)
  unfolding essence_output
  outputs_for_essence [] = ok []
  outputs_for_essence (o ∷ rest) = do
    output ← essence_output o.output_kind o.address o.amount
    outputs ← outputs_for_essence rest
    ok (output ∷ outputs)

  -- The entry that an input makes; every dust allowance input makes one.
  unfoldable pub record_input : AddressOutput → List DustRecord → Result (List DustRecord)
  record_input o recorders =
      let entry : DustRecord = record {
        amount = o.amount;
        address = to_bech32 o.address;
        created = false;
      } in
      elim o.kind [
        | signature_locked_single ↦
            if ltb o.amount dust_allowance_value
            then ok (recorders ++ (entry ∷ []))
            else ok recorders
        | signature_locked_dust_allowance ↦ ok (recorders ++ (entry ∷ []))
        | treasury ↦ err (invalid_output_kind "Treasury")
      ]

  -- What an input adds to the lists.
  unfoldable pub push_input : Utxo → OutputId → List DustRecord → Collected → Collected
  push_input u input recorders s = record s {
    inputs_for_event =
        s.inputs_for_event
        ++ (record {
          address = to_bech32 u.output.address;
          amount = u.output.amount;
          remainder = none;
        }
            ∷ []);
    inputs_for_essence = s.inputs_for_essence ++ (input ∷ []);
    address_inputs_for_validation =
        s.address_inputs_for_validation ++ ((input, u.bee_address) ∷ []);
    transaction_inputs =
        s.transaction_inputs
        ++ (record {
          input = input;
          address_index = u.address_index;
          address_internal = u.address_internal;
        }
            ∷ []);
    dust_and_allowance_recorders = recorders;
  }

  unfoldable pub collect_inputs : ℕ → List Utxo → Collected → Result Collected
  unfolding record_input push_input add_input
  collect_inputs transfer [] s = ok s
  collect_inputs transfer (u ∷ rest) s =
      record_input u.output s.dust_and_allowance_recorders >>= λ recorders.
      id index_valid u.output >>= λ input. collect_inputs transfer rest (
        add_input transfer u.output.amount (to_bech32 u.output.address)
          (push_input u input recorders s))

  -- The lists and the sums before the loop.
  unfoldable pub collect_start : Transfer → Collected
  unfolding record_outputs
  collect_start transfer = record {
    inputs_for_event = [];
    inputs_for_essence = [];
    address_inputs_for_validation = [];
    transaction_inputs = [];
    dust_and_allowance_recorders = record_outputs (transfer_amount transfer) transfer.outputs;
    current_output_sum = 0;
    remainder_value = 0;
  }

  -- Up to the choice of the remainder's address.
  unfoldable pub collect :
      List Address → Transfer → List AddressInputs → Result (List EssenceOutput × Collected)
  unfolding collect_utxos outputs_for_essence collect_inputs collect_start
  collect addresses transfer input_addresses = do
    utxos ← collect_utxos addresses input_addresses
    outputs ← outputs_for_essence transfer.outputs
    collected ← collect_inputs (transfer_amount transfer) utxos (collect_start transfer)
    ok (outputs, collected)
