-- ===== src/Account/Addresses.antt =====
-- The addresses of an account: the latest ones, the next key index, and how synced addresses are
-- merged in.
pub mod Keys
pub mod Latest
use wallet_rs.Prelude.{
  ℕ, ◌+◌, Bool, true, false, not, ◌&&◌, Option, none, some, List, [], ◌∷◌, ltb, leb, ◌==◌, bool_eq,
  filter, any, map, if◌then◌else◌,
}
use wallet_rs.Error.{Result, ok, err, ◌>>=◌, ok_or, panic}
use wallet_rs.Address.Types.{Address, AddressWrapper, address_eq}
use wallet_rs.Message.Types.{
  TransactionOutput, TransactionRegularEssence, MessagePayload, MessageTransactionPayload, Message,
}
use wallet_rs.Account.Types.{Account}

-- `max_by_key(|a| a.key_index())`: of equal keys the last.
unfoldable pub max_by_key_index : List Address → Option Address
max_by_key_index [] = none
max_by_key_index (a ∷ rest) = elim (max_by_key_index rest) [
  | none ↦ some a
  | some b ↦ if ltb b.key_index a.key_index then some a else some b
]

unfoldable pub latest_address : Account → Result Address
latest_address account =
    ok_or (max_by_key_index (filter (λ a. not a.internal) account.addresses)) panic

unfoldable pub latest_change_address : Account → Option Address
latest_change_address account = max_by_key_index (filter (λ a. a.internal) account.addresses)

-- The key index that `get_new_address` takes: one above the highest of the public addresses.
unfoldable pub new_address_key_index : Account → ℕ
new_address_key_index account =
    elim (max_by_key_index (filter (λ a. not a.internal) account.addresses)) [
      | none ↦ 0 + 1
      | some a ↦ a.key_index + 1
    ]

-- The test of `position` in `append_addresses`.
abbrev pub same_key : Address → Address → Bool
same_key a b = a.key_index == b.key_index && bool_eq a.internal b.internal

-- One step of `append_addresses`: the first address with the key is replaced, or the new one is
-- appended.
unfoldable pub append_address : List Address → Address → List Address
append_address [] address = address ∷ []
append_address (a ∷ rest) address =
    if same_key a address then address ∷ rest else a ∷ append_address rest address

unfoldable pub append_addresses : List Address → List Address → List Address
append_addresses addresses [] = addresses
append_addresses addresses (address ∷ rest) =
    append_addresses (append_address addresses address) rest

-- `TransactionOutput`'s address in `Message::addresses`; a treasury output is `unimplemented!`.
unfoldable pub output_address : TransactionOutput → Result AddressWrapper
output_address (TransactionOutput.signature_locked_single o) = ok o.address
output_address (TransactionOutput.signature_locked_dust_allowance o) = ok o.address
output_address (TransactionOutput.treasury _) = err panic

unfoldable pub output_addresses : List TransactionOutput → Result (List AddressWrapper)
unfolding output_address
output_addresses [] = ok []
output_addresses (o ∷ rest) = do
  address ← output_address o
  addresses ← output_addresses rest
  ok (address ∷ addresses)

-- `Message::addresses`
unfoldable pub payload_addresses : Option MessagePayload → Result (List AddressWrapper)
unfolding output_addresses
payload_addresses (some (MessagePayload.transaction tx)) = output_addresses tx.essence.outputs
payload_addresses (some _) = ok []
payload_addresses none = ok []

unfoldable pub message_addresses : Message → Result (List AddressWrapper)
unfolding payload_addresses
message_addresses m = payload_addresses m.payload

-- `any` stops at the first message that has the address.
unfoldable pub some_message_has : List Message → AddressWrapper → Result Bool
some_message_has [] address = ok false
some_message_has (m ∷ rest) address = message_addresses m >>= λ addresses.
    (let later = some_message_has rest address in
      if any (λ a. address_eq a address) addresses then ok true else later)

-- `is_unspent` of src/address.rs.
unfoldable pub is_unspent : List Message → AddressWrapper → Result Bool
unfolding some_message_has
is_unspent sent_messages address = do found ← some_message_has sent_messages address; ok (not found)

-- The filter of `list_unspent_addresses`, and with the other flag that of `list_spent_addresses`.
unfoldable pub filter_addresses : Bool → List Message → List Address → Result (List Address)
unfolding is_unspent
filter_addresses unspent sent_messages [] = ok []
filter_addresses unspent sent_messages (a ∷ rest) = do
  free ← is_unspent sent_messages a.address
  kept ← filter_addresses unspent sent_messages rest
  ok (if bool_eq free unspent then a ∷ kept else kept)

unfoldable pub list_spent_addresses : Account → List Message → Result (List Address)
unfolding filter_addresses
list_spent_addresses account sent_messages = filter_addresses false sent_messages account.addresses

unfoldable pub list_unspent_addresses : Account → List Message → Result (List Address)
unfolding filter_addresses
list_unspent_addresses account sent_messages = filter_addresses true sent_messages account.addresses
