-- ===== src/Account/Types.antt =====
-- The data of src/account/mod.rs, and the signer types of src/signing/mod.rs. A time is in seconds;
-- the client options are their serialised form.
use wallet_rs.Prelude.{ℕ, Bool, String, Option, List}
use wallet_rs.Address.Types.{Address}
use wallet_rs.Message.Types.{Bytes, Message}

pub data SignerType : Type 0 where
  stronghold ledger_nano ledger_nano_simulator : SignerType
  custom : String → SignerType

pub record Account : Type 0 where
  pub id : String
  pub signer_type : SignerType
  pub index : ℕ
  pub alias : String
  pub created_at : ℕ
  pub last_synced_at : Option ℕ
  pub addresses : List Address
  pub client_options : Bytes
  pub storage_path : String
  pub skip_persistence : Bool
  pub cached_messages : List (ℕ × Message)

pub record AccountBalance : Type 0 where
  pub total : ℕ
  pub available : ℕ
  pub incoming : ℕ
  pub outgoing : ℕ
