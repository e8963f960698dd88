-- ===== src/Address/Types.antt =====
-- The data of src/address.rs. A transaction id, a message id and the inner Ed25519 address are
-- arrays of bytes that the code only compares: each is the number that its bytes spell. A
-- `HashMap` is the list of its entries.
use text.Mathlib.Text.{◌==◌ as str_eq}
use text.Mathlib.TextEquality.{eq_iff}
use wallet_rs.Prelude.{ℕ, ◌≡◌, ◌↔◌, Bool, true, false, ◌&&◌, List, String, ◌==◌, arith}

pub data OutputKind : Type 0 where
  signature_locked_single signature_locked_dust_allowance treasury : OutputKind

abbrev pub is_dust_allowance : OutputKind → Bool
is_dust_allowance OutputKind.signature_locked_dust_allowance = true
is_dust_allowance _ = false

pub record AddressWrapper : Type 0 where
  pub inner : ℕ
  pub bech32_hrp : String

-- The derived equality.
unfoldable pub address_eq : AddressWrapper → AddressWrapper → Bool
address_eq a b = a.inner == b.inner && str_eq a.bech32_hrp b.bech32_hrp

pub address_eq_iff : (a b : AddressWrapper) → (address_eq a b ≡ true) ↔ (a ≡ b)
unfolding address_eq
address_eq_iff a b = ground (arith, eq_iff a.bech32_hrp b.bech32_hrp)

pub record OutputId : Type 0 where
  pub transaction_id : ℕ
  pub index : ℕ

unfoldable pub output_id_eq : OutputId → OutputId → Bool
output_id_eq a b = a.transaction_id == b.transaction_id && a.index == b.index

pub output_id_eq_iff : (a b : OutputId) → (output_id_eq a b ≡ true) ↔ (a ≡ b)
unfolding output_id_eq
output_id_eq_iff a b = ground arith

pub record AddressOutput : Type 0 where
  pub transaction_id : ℕ
  pub message_id : ℕ
  pub index : ℕ
  pub amount : ℕ
  pub is_spent : Bool
  pub address : AddressWrapper
  pub kind : OutputKind

-- The transaction and the index that identify an output.
abbrev pub id_of : AddressOutput → OutputId
id_of o = record { transaction_id = o.transaction_id; index = o.index }

pub record Address : Type 0 where
  pub address : AddressWrapper
  pub key_index : ℕ
  pub internal : Bool
  pub outputs : List (OutputId × AddressOutput)
