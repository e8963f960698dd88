-- ===== src/Tests/Wallet.antt =====
-- A small wallet: three addresses with their outputs.
use wallet_rs.Prelude.{ℕ, true, false, none, some, List, [], ◌∷◌, map}
use wallet_rs.Address.Types.{OutputKind, AddressWrapper, AddressOutput, Address, id_of}
use wallet_rs.InputSelection.Types.{AddressInputs, Input}
use wallet_rs.Account.Types.{Account, SignerType}
use wallet_rs.Message.Types.{TransactionInput, MessagePayload, Message}

abbrev pub wrapper : ℕ → AddressWrapper
wrapper n = record { inner = n; bech32_hrp = "atoi" }

abbrev pub output : ℕ → ℕ → ℕ → AddressOutput
output address index amount = record {
  transaction_id = 7;
  message_id = 9;
  index = index;
  amount = amount;
  is_spent = false;
  address = wrapper address;
  kind = OutputKind.signature_locked_single;
}

abbrev pub input : ℕ → ℕ → ℕ → Input
input address index amount = record { internal = false; output = output address index amount }

abbrev pub inputs_of : ℕ → List AddressOutput → AddressInputs
inputs_of address outputs = record {
  address = wrapper address;
  internal = false;
  outputs = outputs;
}

abbrev pub address_of : ℕ → List AddressOutput → Address
address_of n outputs = record {
  address = wrapper n;
  key_index = n;
  internal = false;
  outputs = map (λ o. (id_of o, o)) outputs;
}

-- A pending message that spends the output with an index.
abbrev pub pending : ℕ → Message
pending index = record {
  id = 11;
  version = 1;
  parents = [];
  payload_length = 0;
  payload = some (
      MessagePayload.transaction (record {
        essence = record {
          inputs =
              TransactionInput.utxo
                (record { input = record { transaction_id = 7; index = index }; metadata = none })
              ∷ [];
          outputs = [];
          payload = none;
          internal = false;
          incoming = false;
          value = 0;
          remainder_value = 0;
        };
        unlock_blocks = [];
      }));
  timestamp = 0;
  nonce = 0;
  confirmed = none;
  broadcasted = true;
  reattachment_message_id = none;
}

-- An account with these addresses.
abbrev pub account_of : List Address → Account
account_of addresses = record {
  id = "wallet-account://1";
  signer_type = SignerType.stronghold;
  index = 0;
  alias = "one";
  created_at = 0;
  last_synced_at = none;
  addresses = addresses;
  client_options = [];
  storage_path = "db";
  skip_persistence = true;
  cached_messages = [];
}
