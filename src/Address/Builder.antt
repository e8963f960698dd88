-- ===== src/Address/Builder.antt =====
-- `AddressBuilder`, `AddressOutput::from_output_response` and `set_bech32_hrp` (src/address.rs).
-- The hex codec and the acceptance of an output index are parameters.
use wallet_rs.Prelude.{
  ℕ, ◌+◌, ◌*◌, Bool, false, String, Option, none, some, List, [], ◌∷◌, map, length, ◌==◌,
  if◌then◌else◌,
}
use wallet_rs.Error.{
  Error, Result, ok, err, ◌>>=◌, ok_or, AddressBuildRequiredField, address_build_required_field,
  invalid_address, invalid_address_length, invalid_transaction_id, invalid_message_id,
}
use wallet_rs.Address.Types.{
  OutputKind, AddressWrapper, OutputId, output_id_eq, AddressOutput, Address,
}
use wallet_rs.Address.Outputs.{id}

-- `HashMap::insert`
unfoldable pub insert_output :
    OutputId → AddressOutput → List (OutputId × AddressOutput) → List (OutputId × AddressOutput)
insert_output k o [] = (k, o) ∷ []
insert_output k o (e ∷ rest) =
    let later = insert_output k o rest in if output_id_eq e.0 k then (e.0, o) ∷ rest else e ∷ later

pub record AddressBuilder : Type 0 where
  pub address : Option AddressWrapper
  pub key_index : Option ℕ
  pub internal : Bool
  pub outputs : Option (List AddressOutput)

abbrev pub new_address_builder : AddressBuilder
new_address_builder = record { address = none; key_index = none; internal = false; outputs = none }

-- `set_bech32_hrp`
unfoldable pub set_bech32_hrp : String → Address → Address
set_bech32_hrp hrp a = record a {
  address = record a.address { bech32_hrp = hrp };
  outputs =
      map (λ e. (e.0, record e.1 { address = record e.1.address { bech32_hrp = hrp } })) a.outputs;
}

module _ (index_valid : ℕ → Bool) where
  unfoldable pub insert_all :
      List AddressOutput
      → List (OutputId × AddressOutput)
      → Result (List (OutputId × AddressOutput))
  unfolding insert_output
  insert_all [] outputs = ok outputs
  insert_all (o ∷ rest) outputs = do
    k ← id index_valid o
    insert_all rest (insert_output k o outputs)

  -- The outputs are checked before the key index.
  unfoldable pub build : AddressBuilder → Result Address
  unfolding insert_all
  build b = do
    address ← ok_or b.address (address_build_required_field AddressBuildRequiredField.address)
    address_outputs ←
        ok_or b.outputs (address_build_required_field AddressBuildRequiredField.outputs)
    outputs ← insert_all address_outputs []
    key_index ← ok_or b.key_index (address_build_required_field AddressBuildRequiredField.key_index)
    ok (record {
      address = address;
      key_index = key_index;
      internal = b.internal;
      outputs = outputs;
    })

-- The node's answer for an output: `OutputResponse` and its `OutputDto`. An address is hex text.
pub data OutputDto : Type 0 where
  signature_locked_single : String → ℕ → OutputDto
  signature_locked_dust_allowance : String → ℕ → OutputDto
  treasury : ℕ → OutputDto

pub record OutputResponse : Type 0 where
  pub message_id : String
  pub transaction_id : String
  pub output_index : ℕ
  pub is_spent : Bool
  pub output : OutputDto

-- The number that bytes spell.
abbrev pub spelled : ℕ → List ℕ → ℕ
spelled n [] = n
spelled n (b ∷ rest) = spelled (n * 256 + b) rest

module _ (hex_decode : String → Option (List ℕ)) where
  -- 32 bytes in hex.
  unfoldable pub decode_32 : String → Error → Error → Result ℕ
  decode_32 text bad_hex bad_length = elim (hex_decode text) [
    | none ↦ err bad_hex
    | some bytes ↦ if length bytes == 32 then ok (spelled 0 bytes) else err bad_length
  ]

  -- The address of a treasury output is a dummy.
  unfoldable pub response_parts : OutputDto → Result (ℕ × ℕ × OutputKind)
  unfolding decode_32
  response_parts (OutputDto.signature_locked_single address amount) = do
    inner ← decode_32 address invalid_address invalid_address_length
    ok (inner, amount, OutputKind.signature_locked_single)
  response_parts (OutputDto.signature_locked_dust_allowance address amount) = do
    inner ← decode_32 address invalid_address invalid_address_length
    ok (inner, amount, OutputKind.signature_locked_dust_allowance)
  response_parts (OutputDto.treasury amount) = ok (0, amount, OutputKind.treasury)

  unfoldable pub from_output_response : OutputResponse → String → Result AddressOutput
  unfolding response_parts decode_32
  from_output_response r bech32_hrp = do
    (inner, amount, kind) ← response_parts r.output
    transaction_id ← decode_32 r.transaction_id invalid_transaction_id invalid_transaction_id
    message_id ← decode_32 r.message_id invalid_message_id invalid_message_id
    ok (record {
      transaction_id = transaction_id;
      message_id = message_id;
      index = r.output_index;
      amount = amount;
      is_spent = r.is_spent;
      address = record { inner = inner; bech32_hrp = bech32_hrp };
      kind = kind;
    })
