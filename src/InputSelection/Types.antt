-- ===== src/InputSelection/Types.antt =====
-- The constants and the data of src/account/sync/input_selection.rs.
use wallet_rs.Prelude.{ℕ, Bool, List}
use wallet_rs.Address.Types.{AddressWrapper, AddressOutput}

abbrev pub dust_allowance_value : ℕ
dust_allowance_value = 1_000_000

abbrev pub max_input_selection_tries : ℕ
max_input_selection_tries = 10_000_000

pub record AddressInputs : Type 0 where
  pub address : AddressWrapper
  pub internal : Bool
  pub outputs : List AddressOutput

pub record Input : Type 0 where
  pub internal : Bool
  pub output : AddressOutput

pub record Remainder : Type 0 where
  pub address : AddressWrapper
  pub internal : Bool
  pub amount : ℕ

abbrev pub amount_of : Input → ℕ
amount_of input = input.output.amount
