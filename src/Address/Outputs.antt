-- ===== src/Address/Outputs.antt =====
-- The outputs of an address: which of them are used, which are available, and the balances. Whether
-- the message library accepts an output index is a parameter.
pub mod Available
use wallet_rs.Prelude.{
  ℕ, Bool, true, false, not, ◌||◌, Option, none, some, List, [], ◌∷◌, map, fold64, any, filter,
  if◌then◌else◌,
}
use wallet_rs.Error.{Result, ok, err, ◌>>=◌, bee_message, panic}
use wallet_rs.Address.Types.{AddressOutput, OutputId, id_of, output_id_eq, Address}
use wallet_rs.Message.Types.{
  TransactionInput, TransactionUtxoInput, TransactionRegularEssence, MessagePayload,
  MessageTransactionPayload, Message,
}

-- `HashMap::values`
abbrev pub values : List (OutputId × AddressOutput) → List AddressOutput
values m = map (λ e. e.1) m

-- The message is pending or confirmed: `confirmed().unwrap_or(true)`.
abbrev pub pending_or_confirmed : Message → Bool
pending_or_confirmed m = elim m.confirmed [ none ↦ true | some c ↦ c ]

abbrev pub input_is : OutputId → TransactionInput → Bool
input_is id (TransactionInput.utxo x) = output_id_eq x.input id
input_is id (TransactionInput.treasury _) = false

abbrev pub payload_spends : OutputId → Option MessagePayload → Bool
payload_spends id (some (MessagePayload.transaction tx)) = any (input_is id) tx.essence.inputs
payload_spends id (some _) = false
payload_spends id none = false

-- The closure of `is_used`.
unfoldable pub references : OutputId → Message → Bool
references id m = if pending_or_confirmed m then payload_spends id m.payload else false

-- `Address::balance`
unfoldable pub balance : Address → ℕ
balance address = fold64 (λ o. if o.is_spent then 0 else o.amount) 0 (values address.outputs)

module _ (index_valid : ℕ → Bool) where
  -- `AddressOutput::id`
  unfoldable pub id : AddressOutput → Result OutputId
  id o = if index_valid o.index then ok (id_of o) else err bee_message

  -- `UtxoInput::new(..).unwrap()`
  unfoldable pub utxo_input : AddressOutput → Result OutputId
  utxo_input o = if index_valid o.index then ok (id_of o) else err panic

  unfoldable pub is_used : AddressOutput → List Message → Result Bool
  unfolding utxo_input
  is_used o messages = do output_id ← utxo_input o; ok (any (references output_id) messages)

  -- The filter of `available_outputs`; a spent output is not looked up.
  unfoldable pub keep_available : List Message → List AddressOutput → Result (List AddressOutput)
  unfolding is_used
  keep_available messages [] = ok []
  keep_available messages (o ∷ rest) =
      (if o.is_spent then ok true else is_used o messages) >>= λ used.
      keep_available messages rest >>= λ kept. ok (if used then kept else o ∷ kept)

  unfoldable pub available_outputs : Address → List Message → Result (List AddressOutput)
  unfolding keep_available
  available_outputs address sent_messages = keep_available sent_messages (values address.outputs)

  unfoldable pub available_balance : Address → List Message → Result ℕ
  unfolding available_outputs
  available_balance address sent_messages = do
    outputs ← available_outputs address sent_messages
    ok (fold64 (λ o. o.amount) 0 outputs)
