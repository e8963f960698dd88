-- ===== src/Sync/Start.antt =====
-- The start of `transfer` (src/account/sync/mod.rs), up to the inputs: the checks on the balance
-- and on the remainder's address, and the locks. The outcome of the ledger's seed check is an
-- argument.
pub mod Own
use wallet_rs.Prelude.{
  ℕ, Bool, true, false, not, Option, none, some, List, [], ◌∷◌, ◌++◌, any, find, ltb, if◌then◌else◌,
}
use wallet_rs.Error.{
  Result, ok, err, ◌>>=◌, ◌>>◌, raise_if, insufficient_funds, invalid_remainder_value_address,
  input_address_not_found,
}
use wallet_rs.Address.Types.{AddressWrapper, AddressOutput, Address, address_eq}
use wallet_rs.Address.Outputs.{available_outputs}
use wallet_rs.Message.Types.{Message}
use wallet_rs.Message.Transfer.{Transfer, RemainderValueStrategy, amount as transfer_amount}
use wallet_rs.Storage.Types.{MessageIndexation}
use wallet_rs.InputSelection.Types.{AddressInputs, Input, Remainder}
use wallet_rs.Account.Types.{Account}
use wallet_rs.Account.Balance.{balance_internal}
use wallet_rs.Sync.SelectInputs.{select_inputs}
use wallet_rs.Sync.Remainder.{is_ledger}

abbrev pub owns : List Address → AddressWrapper → Bool
owns addresses w = any (λ a. address_eq a.address w) addresses

-- A transfer to one of the account's own addresses keeps the remainder on the input address.
unfoldable pub with_reuse : Account → Transfer → Transfer
with_reuse account transfer =
    if any (λ a. any (λ o. address_eq o.address a.address) transfer.outputs) account.addresses
    then record transfer { remainder_value_strategy = RemainderValueStrategy.reuse_address }
    else transfer

unfoldable pub check_strategy : List Address → RemainderValueStrategy → Result (Unit {0})
check_strategy addresses (RemainderValueStrategy.account_address target) =
    raise_if (not (owns addresses target)) invalid_remainder_value_address
check_strategy addresses RemainderValueStrategy.reuse_address = ok tt
check_strategy addresses RemainderValueStrategy.change_address = ok tt

-- The inputs that the transfer names itself; what is locked before an error stays locked.
unfoldable pub lock_named :
    List Address
    → List (AddressWrapper × List AddressOutput)
    → List AddressOutput
    → Result (List AddressInputs) × List AddressOutput
lock_named addresses [] locked = (ok [], locked)
lock_named addresses ((w, outputs) ∷ rest) locked =
    let later = lock_named addresses rest (locked ++ outputs) in
    elim (find (λ a. address_eq a.address w) addresses) [
      | none ↦ (err input_address_not_found, locked)
      | some a ↦ (
        later.0 >>= λ inputs.
            ok (record { address = a.address; internal = a.internal; outputs = outputs } ∷ inputs),
        later.1,
      )
    ]

abbrev pub with_no_remainder :
    Result (List AddressInputs) → Result (List AddressInputs × Option Remainder)
with_no_remainder r = r >>= λ inputs. ok (inputs, none)

module _ (index_valid : ℕ → Bool) (shuffle_single shuffle_dust : List Input → List Input)
    (input_output_count_max : ℕ) where
  -- The available outputs of every address.
  unfoldable pub all_available : List Message → List Address → Result (List AddressInputs)
  all_available sent_messages [] = ok []
  all_available sent_messages (a ∷ rest) = do
    outputs ← available_outputs index_valid a sent_messages
    later ← all_available sent_messages rest
    ok (record { address = a.address; internal = a.internal; outputs = outputs } ∷ later)

  -- The checks, which lock nothing.
  unfoldable pub check_transfer :
      Account
      → Result (Unit {0})
      → List MessageIndexation
      → List Message
      → Transfer
      → Result (Unit {0})
  unfolding check_strategy
  check_transfer account ledger_seed messages sent_messages transfer =
      (if is_ledger account.signer_type then ledger_seed else ok tt)
      >> (balance_internal index_valid account messages sent_messages >>= λ balance.
          raise_if (ltb balance.total (transfer_amount transfer))
            (insufficient_funds balance.total (transfer_amount transfer))
          >> check_strategy account.addresses transfer.remainder_value_strategy)

  -- The inputs and the remainder's address, and the locked outputs as the match leaves them.
  unfoldable pub take_inputs :
      Account
      → List Message
      → Transfer
      → List AddressOutput
      → Result (List AddressInputs × Option Remainder) × List AddressOutput
  unfolding lock_named all_available
  take_inputs account sent_messages transfer locked = elim transfer.input [
    | some named ↦ let r = lock_named account.addresses named locked in (with_no_remainder r.0, r.1)
    | none ↦ elim (all_available sent_messages account.addresses) [
      | err e ↦ (err e, locked)
      | ok available ↦
          select_inputs shuffle_single shuffle_dust input_output_count_max locked transfer available
            account.signer_type
    ]
  ]

  -- The transfer as it goes on, with its inputs.
  unfoldable pub start_transfer :
      Account
      → Result (Unit {0})
      → List MessageIndexation
      → List Message
      → Transfer
      → List AddressOutput
      → Result (Transfer × List AddressInputs × Option Remainder) × List AddressOutput
  unfolding with_reuse check_transfer take_inputs
  start_transfer account ledger_seed messages sent_messages transfer locked =
      let reused = with_reuse account transfer in
      let taken = take_inputs account sent_messages reused locked in
      elim (check_transfer account ledger_seed messages sent_messages reused) [
        | err e ↦ (err e, locked)
        | ok _ ↦
            (taken.0 >>= λ inputs. ok (record reused { input = none }, inputs.0, inputs.1), taken.1)
      ]
