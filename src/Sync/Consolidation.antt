-- ===== src/Sync/Consolidation.antt =====
-- The transfers that consolidate the outputs of an account's addresses:
-- `get_output_consolidation_transfers` (src/account/sync/mod.rs). The limit of the message library
-- and the indexes that it accepts are parameters.
pub mod Inputs
use wallet_rs.Prelude.{
  ℕ, ◌-◌, Bool, true, false, not, ◌&&◌, Option, none, some, List, [], ◌∷◌, ◌++◌, filter, any,
  length, leb, ◌==◌, fold64, if◌then◌else◌,
}
use wallet_rs.Error.{Result, ok, err, ◌>>=◌, panic}
use wallet_rs.Address.Types.{AddressOutput, AddressWrapper, Address, OutputKind, is_dust_allowance}
use wallet_rs.Address.Outputs.{available_outputs}
use wallet_rs.Message.Types.{Message}
use wallet_rs.Message.Transfer.{Transfer, new_builder, with_input, with_events as builder_events}
use wallet_rs.Account.Types.{Account, SignerType}
use wallet_rs.Sync.SelectInputs.{ledger_max_in_outputs}
use wallet_rs.Sync.Remainder.{is_ledger}

-- `chunks(n)` of a list that is not empty, for a positive `n`, with the chunk that is being filled.
unfoldable pub chunks_from : ℕ → List AddressOutput → List AddressOutput → List (List AddressOutput)
chunks_from n current [] = current ∷ []
chunks_from n current (o ∷ rest) =
    let full = chunks_from n (o ∷ []) rest in
    let more = chunks_from n (current ++ (o ∷ [])) rest in
    if leb n (length current) then current ∷ full else more

-- `chunks` panics on zero.
unfoldable pub chunks : ℕ → List AddressOutput → Result (List (List AddressOutput))
unfolding chunks_from
chunks n [] = if n == 0 then err panic else ok []
chunks n (o ∷ rest) = if n == 0 then err panic else ok (chunks_from n (o ∷ []) rest)

abbrev pub output_kind_for : Bool → List AddressOutput → Option OutputKind
output_kind_for include_dust_allowance_outputs outputs =
    if include_dust_allowance_outputs && any (λ o. is_dust_allowance o.kind) outputs
    then some OutputKind.signature_locked_dust_allowance
    else none

-- The transfer of a chunk to its own address; `NonZeroU64::new(..).unwrap()` panics on zero.
unfoldable pub chunk_transfer : Bool → AddressWrapper → List AddressOutput → Result Transfer
chunk_transfer include_dust_allowance_outputs address outputs =
    let amount = fold64 (λ o. o.amount) 0 outputs in
    if amount == 0
    then err panic
    else ok (
        builder_events
          (with_input
            (new_builder address amount (output_kind_for include_dust_allowance_outputs outputs))
            address outputs)
          false)

unfoldable pub chunk_transfers :
    Bool → AddressWrapper → List (List AddressOutput) → Result (List Transfer)
unfolding chunk_transfer
chunk_transfers include_dust_allowance_outputs address [] = ok []
chunk_transfers include_dust_allowance_outputs address (c ∷ rest) = do
  t ← chunk_transfer include_dust_allowance_outputs address c
  ts ← chunk_transfers include_dust_allowance_outputs address rest
  ok (t ∷ ts)

-- `retain`
abbrev pub consolidated : Bool → List AddressOutput → List AddressOutput
consolidated include_dust_allowance_outputs outputs =
    if include_dust_allowance_outputs
    then outputs
    else filter (λ o. not (is_dust_allowance o.kind)) outputs

-- The inputs of one consolidation transfer.
abbrev pub consolidation_inputs : ℕ → SignerType → ℕ
consolidation_inputs input_output_count_max signer_type =
    if is_ledger signer_type then ledger_max_in_outputs - 1 else input_output_count_max - 1

module _ (index_valid : ℕ → Bool) (input_output_count_max : ℕ) where
  -- The body of the loop over the addresses.
  unfoldable pub address_transfers :
      ℕ → Bool → SignerType → List Message → Address → Result (List Transfer)
  unfolding chunks chunk_transfers
  address_transfers threshold include_dust_allowance_outputs signer_type sent_messages a =
      if not (leb threshold (length a.outputs))
      then ok []
      else (available_outputs index_valid a sent_messages >>= λ available.
          let outputs = consolidated include_dust_allowance_outputs available in
          if not (leb threshold (length outputs))
          then ok []
          else (chunks (consolidation_inputs input_output_count_max signer_type) outputs
              >>= λ parts. chunk_transfers include_dust_allowance_outputs a.address parts))

  unfoldable pub get_output_consolidation_transfers :
      ℕ → Bool → SignerType → List Message → List Address → Result (List Transfer)
  unfolding address_transfers
  get_output_consolidation_transfers threshold include_dust_allowance_outputs signer_type
        sent_messages [] =
      ok []
  get_output_consolidation_transfers threshold include_dust_allowance_outputs signer_type
        sent_messages (a ∷ rest) =
      do
        transfers ←
            address_transfers threshold include_dust_allowance_outputs signer_type sent_messages a
        later ←
            get_output_consolidation_transfers threshold include_dust_allowance_outputs signer_type
              sent_messages rest
        ok (transfers ++ later)
