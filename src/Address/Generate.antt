-- ===== src/Address/Generate.antt =====
-- The generation of addresses (src/address.rs), and the network of an account (src/account/mod.rs).
-- What the signer derives is a parameter: from a key index, the change flag and the `syncing` flag,
-- the inner address.
use text.Mathlib.Text.{◌==◌ as str_eq}
use wallet_rs.Prelude.{ℕ, Bool, false, String, [], ◌∷◌, if◌then◌else◌}
use wallet_rs.Error.{Result, ok, err, ◌>>=◌, panic}
use wallet_rs.Address.Types.{AddressWrapper, Address}
use wallet_rs.Account.Types.{Account}
use wallet_rs.Account.Addresses.{new_address_key_index}

-- `Network` of src/signing/mod.rs.
pub data Network : Type 0 where
  mainnet testnet : Network

-- The addresses of an account that was initialised are not empty; `unwrap` panics otherwise.
unfoldable pub network : Account → Result Network
network account = elim account.addresses [
  | [] ↦ err panic
  | a ∷ rest ↦ ok (if str_eq a.address.bech32_hrp "iota" then mainnet else testnet)
]

-- An address without outputs.
abbrev pub unused_address : AddressWrapper → ℕ → Bool → Address
unused_address address key_index internal = record {
  address = address;
  key_index = key_index;
  internal = internal;
  outputs = [];
}

module _ (derive : ℕ → Bool → Bool → Result ℕ) where
  unfoldable pub get_iota_address : ℕ → Bool → String → Bool → Result AddressWrapper
  get_iota_address address_index internal bech32_hrp syncing = do
    inner ← derive address_index internal syncing
    ok (record { inner = inner; bech32_hrp = bech32_hrp })

  unfoldable pub get_address_with_index : ℕ → String → Bool → Result Address
  unfolding get_iota_address
  get_address_with_index key_index bech32_hrp syncing = do
    address ← get_iota_address key_index false bech32_hrp syncing
    ok (unused_address address key_index false)

  -- For an account without addresses the node names the network.
  unfoldable pub get_new_address : Result String → Account → Bool → Result Address
  unfolding get_iota_address
  get_new_address network_hrp account syncing = do
    bech32_hrp ← elim account.addresses [ [] ↦ network_hrp | a ∷ rest ↦ ok a.address.bech32_hrp ]
    address ← get_iota_address (new_address_key_index account) false bech32_hrp syncing
    ok (unused_address address (new_address_key_index account) false)
