-- ===== src/Message/Types.antt =====
-- The data of src/message.rs. What the code only stores of a third-party value (a milestone, a
-- payload, an unlock block) is its packed bytes. `UtxoInput` is the id of an output.
use wallet_rs.Prelude.{ℕ, Bool, Option, List}
use wallet_rs.Address.Types.{AddressWrapper, AddressOutput, OutputId}

abbrev pub Bytes : Type 0
Bytes = List ℕ

pub record TransactionSignatureLockedSingleOutput : Type 0 where
  pub address : AddressWrapper
  pub amount : ℕ
  pub remainder : Bool

pub record TransactionSignatureLockedDustAllowanceOutput : Type 0 where
  pub address : AddressWrapper
  pub amount : ℕ

-- A treasury output has an amount and no address.
pub data TransactionOutput : Type 0 where
  signature_locked_single : TransactionSignatureLockedSingleOutput → TransactionOutput
  signature_locked_dust_allowance :
      TransactionSignatureLockedDustAllowanceOutput → TransactionOutput
  treasury : ℕ → TransactionOutput

pub record TransactionUtxoInput : Type 0 where
  pub input : OutputId
  pub metadata : Option AddressOutput

-- A treasury input is the id of the milestone that it names.
pub data TransactionInput : Type 0 where
  utxo : TransactionUtxoInput → TransactionInput
  treasury : ℕ → TransactionInput

pub record TransactionRegularEssence : Type 0 where
  pub inputs : List TransactionInput
  pub outputs : List TransactionOutput
  pub payload : Option Bytes
  pub internal : Bool
  pub incoming : Bool
  pub value : ℕ
  pub remainder_value : ℕ

-- `TransactionEssence` has one variant.
pub record MessageTransactionPayload : Type 0 where
  pub essence : TransactionRegularEssence
  pub unlock_blocks : List Bytes

pub data MessagePayload : Type 0 where
  transaction : MessageTransactionPayload → MessagePayload
  milestone : Bytes → MessagePayload
  indexation : Bytes → MessagePayload
  receipt : Bytes → MessagePayload
  treasury_transaction : Bytes → MessagePayload

-- A time is in seconds.
pub record Message : Type 0 where
  pub id : ℕ
  pub version : ℕ
  pub parents : List ℕ
  pub payload_length : ℕ
  pub payload : Option MessagePayload
  pub timestamp : ℕ
  pub nonce : ℕ
  pub confirmed : Option Bool
  pub broadcasted : Bool
  pub reattachment_message_id : Option ℕ
