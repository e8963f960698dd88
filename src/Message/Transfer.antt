-- ===== src/Message/Transfer.antt =====
-- `TransferBuilder` and `Transfer`.
use wallet_rs.Prelude.{
  ℕ, Bool, true, false, not, ◌&&◌, Option, none, some, List, [], ◌∷◌, ◌++◌, fold64, ltb, leb,
  length, if◌then◌else◌,
}
use wallet_rs.Error.{Result, ok, err, invalid_input_output_count}
use wallet_rs.Address.Types.{OutputKind, AddressWrapper, AddressOutput, address_eq}
use wallet_rs.Message.Types.{Bytes}

pub data RemainderValueStrategy : Type 0 where
  reuse_address : RemainderValueStrategy
  change_address : RemainderValueStrategy
  account_address : AddressWrapper → RemainderValueStrategy

-- The amount is a `NonZeroU64`.
pub record TransferOutput : Type 0 where
  pub amount : ℕ
  pub address : AddressWrapper
  pub output_kind : OutputKind

-- `output_kind.unwrap_or(SignatureLockedSingle)`
abbrev pub kind_or_default : Option OutputKind → OutputKind
kind_or_default none = OutputKind.signature_locked_single
kind_or_default (some k) = k

unfoldable pub new_transfer_output : AddressWrapper → ℕ → Option OutputKind → TransferOutput
new_transfer_output address amount output_kind = record {
  amount = amount;
  address = address;
  output_kind = kind_or_default output_kind;
}

pub record IndexationPayload : Type 0 where
  pub index : Bytes
  pub payload_data : Bytes

pub record Transfer : Type 0 where
  pub outputs : List TransferOutput
  pub indexation : Option IndexationPayload
  pub remainder_value_strategy : RemainderValueStrategy
  pub input : Option (List (AddressWrapper × List AddressOutput))
  pub with_events : Bool
  pub skip_sync : Bool

-- `TransferBuilder` has the fields of `Transfer`, and `finish` copies them.
abbrev pub TransferBuilder : Type 0
TransferBuilder = Transfer

-- `Default for TransferBuilder`, with the outputs that each caller gives.
unfoldable pub default_builder : List TransferOutput → TransferBuilder
default_builder outputs = record {
  outputs = outputs;
  indexation = none;
  remainder_value_strategy = RemainderValueStrategy.change_address;
  input = none;
  with_events = true;
  skip_sync = false;
}

unfoldable pub new_builder : AddressWrapper → ℕ → Option OutputKind → TransferBuilder
unfolding default_builder new_transfer_output
new_builder address amount output_kind =
    default_builder (new_transfer_output address amount output_kind ∷ [])

unfoldable pub with_outputs : List TransferOutput → Result TransferBuilder
unfolding default_builder
with_outputs outputs =
    if not (leb 1 (length outputs) && ltb (length outputs) 125)
    then err (invalid_input_output_count (length outputs))
    else ok (default_builder outputs)

unfoldable pub with_remainder_value_strategy :
    TransferBuilder → RemainderValueStrategy → TransferBuilder
with_remainder_value_strategy b strategy = record b { remainder_value_strategy = strategy }

unfoldable pub with_indexation : TransferBuilder → IndexationPayload → TransferBuilder
with_indexation b indexation = record b { indexation = some indexation }

unfoldable pub with_input : TransferBuilder → AddressWrapper → List AddressOutput → TransferBuilder
with_input b address inputs = record b { input = some ((address, inputs) ∷ []) }

-- The `HashMap` of `with_inputs`: an input joins the list of its address, or starts it.
unfoldable pub add_address_input :
    AddressOutput
    → List (AddressWrapper × List AddressOutput)
    → List (AddressWrapper × List AddressOutput)
add_address_input input [] = (input.address, input ∷ []) ∷ []
add_address_input input ((a, os) ∷ rest) =
    if address_eq a input.address
    then (a, os ++ (input ∷ [])) ∷ rest
    else (a, os) ∷ add_address_input input rest

unfoldable pub group_inputs :
    List (AddressWrapper × List AddressOutput)
    → List AddressOutput
    → List (AddressWrapper × List AddressOutput)
group_inputs m [] = m
group_inputs m (input ∷ rest) = group_inputs (add_address_input input m) rest

unfoldable pub with_inputs : TransferBuilder → List AddressOutput → TransferBuilder
with_inputs b inputs = record b { input = some (group_inputs [] inputs) }

unfoldable pub with_events : TransferBuilder → Bool → TransferBuilder
with_events b flag = record b { with_events = flag }

unfoldable pub with_skip_sync : TransferBuilder → TransferBuilder
with_skip_sync b = record b { skip_sync = true }

-- `iter().sum()` over `u64`.
unfoldable pub amount : Transfer → ℕ
amount t = fold64 (λ o. o.amount) 0 t.outputs
