-- ===== src/Message/Essence.antt =====
-- The essence of a transaction as it is stored (src/message.rs): which outputs are remainders, the
-- value and the remainder value, and whether it is incoming. The message library's outputs are the
-- data that it hands over.
pub mod Values
use wallet_rs.Prelude.{
  ℕ, Bool, true, false, not, ◌&&◌, ◌||◌, Option, none, some, List, [], ◌∷◌, String, any, all, find,
  add64, ltb, ◌==◌, if◌then◌else◌,
}
use wallet_rs.Error.{Result, ok, err, ◌>>=◌, ok_or, panic}
use wallet_rs.Address.Types.{
  Address, AddressWrapper, AddressOutput, OutputId, output_id_eq, address_eq,
}
use wallet_rs.Message.Types.{TransactionInput, TransactionOutput, TransactionRegularEssence, Bytes}

-- An output of the message library.
pub data ChainOutput : Type 0 where
  signature_locked_single signature_locked_dust_allowance : ℕ → ℕ → ChainOutput
  treasury : ℕ → ChainOutput

-- `TransactionOutput::new`: only a single output can be marked.
unfoldable pub new_output : String → ChainOutput → Bool → TransactionOutput
new_output hrp (ChainOutput.signature_locked_single address amount) remainder =
    TransactionOutput.signature_locked_single (record {
      address = record { inner = address; bech32_hrp = hrp };
      amount = amount;
      remainder = remainder;
    })
new_output hrp (ChainOutput.signature_locked_dust_allowance address amount) remainder =
    TransactionOutput.signature_locked_dust_allowance
      (record { address = record { inner = address; bech32_hrp = hrp }; amount = amount })
new_output hrp (ChainOutput.treasury amount) remainder = TransactionOutput.treasury amount

-- The address of an output; a treasury output is `unimplemented!`.
unfoldable pub chain_address : ChainOutput → Result ℕ
chain_address (ChainOutput.signature_locked_single address amount) = ok address
chain_address (ChainOutput.signature_locked_dust_allowance address amount) = ok address
chain_address (ChainOutput.treasury amount) = err panic

unfoldable pub with_addresses : List ChainOutput → Result (List (ℕ × ChainOutput))
unfolding chain_address
with_addresses [] = ok []
with_addresses (o ∷ rest) = do
  address ← chain_address o
  later ← with_addresses rest
  ok ((address, o) ∷ later)

abbrev pub belongs : List Address → ℕ → Bool
belongs addresses inner = any (λ a. a.address.inner == inner) addresses

-- An input's metadata has the address.
abbrev pub input_has : ℕ → TransactionInput → Bool
input_has inner (TransactionInput.utxo x) = elim x.metadata [
  | none ↦ false
  | some o ↦ o.address.inner == inner
]
input_has inner (TransactionInput.treasury milestone) = false

-- An input's metadata has one of the account's addresses.
abbrev pub is_own_input : List Address → TransactionInput → Bool
is_own_input addresses (TransactionInput.utxo x) = elim x.metadata [
  | none ↦ false
  | some o ↦ any (λ a. address_eq o.address a.address) addresses
]
is_own_input addresses (TransactionInput.treasury milestone) = false

-- The later candidate for the remainder: a higher index, or the same one on a change address.
abbrev pub replaces : Address → Address → Bool
replaces candidate remainder =
    ltb remainder.key_index candidate.key_index
    || candidate.key_index == remainder.key_index && candidate.internal

abbrev pub better : Option Address → Address → Address
better none candidate = candidate
better (some r) candidate = if replaces candidate r then candidate else r

-- The loop that picks the remainder's address if all outputs belong to the account; it ends at the
-- first output whose address is one of the inputs'.
unfoldable pub pick_remainder :
    List Address
    → List TransactionInput
    → Option Address
    → List (ℕ × ChainOutput)
    → Result (Option Address)
pick_remainder addresses inputs remainder [] = ok remainder
pick_remainder addresses inputs remainder ((inner, o) ∷ rest) =
    ok_or (find (λ a. a.address.inner == inner) addresses) panic >>= λ a.
    (let later = pick_remainder addresses inputs (some (better remainder a)) rest in
      if any (input_has inner) inputs then ok (some a) else later)

-- The outputs with their flags, from a test on the address.
unfoldable pub mark_outputs : String → (ℕ → Bool) → List (ℕ × ChainOutput) → List TransactionOutput
unfolding new_output
mark_outputs hrp is_remainder [] = []
mark_outputs hrp is_remainder ((inner, o) ∷ rest) =
    new_output hrp o (is_remainder inner) ∷ mark_outputs hrp is_remainder rest

abbrev pub is_picked : Option Address → ℕ → Bool
is_picked none inner = false
is_picked (some a) inner = a.address.inner == inner

-- More than one output. If all belong to the account, those on the picked address are the
-- remainder; else, if an input is the account's, those that belong to it; else those that do not.
unfoldable pub flag_outputs :
    String
    → List Address
    → List TransactionInput
    → List (ℕ × ChainOutput)
    → Result (List TransactionOutput)
unfolding mark_outputs pick_remainder
flag_outputs hrp addresses inputs outputs =
    let picked = pick_remainder addresses inputs none outputs in
    let sent = any (is_own_input addresses) inputs in
    if all (λ e. belongs addresses e.0) outputs
    then (picked >>= λ remainder. ok (mark_outputs hrp (is_picked remainder) outputs))
    else if sent
    then ok (mark_outputs hrp (belongs addresses) outputs)
    else ok (mark_outputs hrp (λ inner. not (belongs addresses inner)) outputs)

-- The three cases of the number of outputs.
unfoldable pub new_outputs :
    String
    → List Address
    → List TransactionInput
    → List ChainOutput
    → Result (List TransactionOutput)
unfolding new_output flag_outputs with_addresses
new_outputs hrp addresses inputs [] = ok []
new_outputs hrp addresses inputs (o ∷ []) = ok (new_output hrp o false ∷ [])
new_outputs hrp addresses inputs (o ∷ o' ∷ rest) =
    with_addresses (o ∷ o' ∷ rest) >>= λ outputs. flag_outputs hrp addresses inputs outputs

-- `value` and `remainder_value`: the sums of the outputs that are not remainders, and that are.
unfoldable pub split_values : (ℕ × ℕ) → List TransactionOutput → ℕ × ℕ
split_values sums [] = sums
split_values sums (TransactionOutput.signature_locked_single o ∷ rest) =
    split_values
      (if o.remainder then (sums.0, add64 sums.1 o.amount) else (add64 sums.0 o.amount, sums.1))
      rest
split_values sums (TransactionOutput.signature_locked_dust_allowance o ∷ rest) =
    split_values (add64 sums.0 o.amount, sums.1) rest
split_values sums (TransactionOutput.treasury amount ∷ rest) =
    split_values (add64 sums.0 amount, sums.1) rest

-- `is_incoming`: no input is the account's.
unfoldable pub is_incoming : List Address → List TransactionInput → Bool
is_incoming addresses inputs = not (any (is_own_input addresses) inputs)
