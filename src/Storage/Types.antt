-- ===== src/Storage/Types.antt =====
-- The entries of the indexes (src/storage/mod.rs), and the types of messages.
use wallet_rs.Prelude.{ℕ, Bool, Option, String}

pub record MessageIndexation : Type 0 where
  pub key : ℕ
  pub payload_hash : Option ℕ
  pub internal : Option Bool
  pub incoming : Option Bool
  pub broadcasted : Bool
  pub confirmed : Option Bool
  pub value : ℕ
  pub reattachment_message_id : Option ℕ

-- `MessageType` of src/message.rs.
pub data MessageType : Type 0 where
  received sent failed unconfirmed value confirmed : MessageType

pub record AccountIndexation : Type 0 where
  pub key : String

pub record EventIndexation : Type 0 where
  pub key : String
  pub timestamp : ℕ
