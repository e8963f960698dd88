-- ===== src/Tests/Transfers.antt =====
-- The transaction of a transfer: its inputs, its outputs and the remainder.
use wallet_rs.Prelude.{
  ℕ, ◌+◌, ◌-◌, ◌≡◌, refl, Bool, true, false, none, some, String, List, [], ◌∷◌, arith, sum_by,
  add64, sub64, fold64,
}
use wallet_rs.Error.{Result, ok, err}
use wallet_rs.Address.Types.{AddressWrapper, OutputKind, address_eq, output_id_eq}
use wallet_rs.Address.Outputs.{id, balance, available_outputs, keep_available, available_balance}
use wallet_rs.Message.Transfer.{
  Transfer, RemainderValueStrategy, new_builder, new_transfer_output, default_builder,
  with_remainder_value_strategy, with_input, amount as transfer_amount,
}
use wallet_rs.InputSelection.Types.{AddressInputs, Remainder}
use wallet_rs.Account.Types.{Account}
use wallet_rs.Account.Addresses.{
  max_by_key_index, latest_change_address, append_address, append_addresses,
}
use wallet_rs.Sync.Collect.{
  EssenceOutput, Collected, Utxo, address_utxos, collect_utxos, record_source, add_input,
  record_outputs, essence_output, outputs_for_essence, record_input, push_input, collect_inputs,
  collect_start, collect,
}
use wallet_rs.Sync.Collect.Sums.{held, collect-balanced}
use wallet_rs.Sync.Collect.Inputs.{IsListed, collect_inputs-IsListed}
use wallet_rs.Sync.Remainder.{
  Deposit, bech32_hrp, get_new_change_address, confirm_on_ledger, change_address_for, deposit_for,
  choose_deposit, add_remainder, prepare,
}
use wallet_rs.Sync.Remainder.Balance.{has_address, prepare-balanced, choose_deposit-own}
use wallet_rs.Account.Balance.{add_messages, add_message, add_available, balance_internal}
use wallet_rs.Sync.Start.{
  owns, with_reuse, check_strategy, lock_named, all_available, check_transfer, take_inputs,
  start_transfer,
}
use wallet_rs.Sync.Start.Own.{start_transfer-owns}
use wallet_rs.Tests.Wallet.{wrapper, output, inputs_of, address_of, account_of}

-- Every definition that a run of `prepare` goes through.
preparing : Unit {0}
unfolding add64 sub64 fold64 id address_eq output_id_eq new_builder new_transfer_output
    default_builder with_remainder_value_strategy transfer_amount max_by_key_index
    latest_change_address append_address append_addresses address_utxos collect_utxos record_source
    add_input record_outputs essence_output outputs_for_essence record_input push_input
    collect_inputs collect_start collect bech32_hrp get_new_change_address confirm_on_ledger
    change_address_for deposit_for choose_deposit add_remainder prepare
preparing = tt

abbrev to_text : AddressWrapper → String
to_text w = "atoi1"

abbrev accept : ℕ → Bool
accept n = true

-- The signer's address at a key.
abbrev derive : ℕ → Bool → Bool → Result ℕ
derive key_index internal syncing = ok 40

abbrev sender : Account
sender = account_of (address_of 1 [] ∷ address_of 2 [] ∷ [])

abbrev inputs : List AddressInputs
inputs = inputs_of 1 (output 1 0 2_000_000 ∷ []) ∷ inputs_of 2 (output 2 1 5_000_000 ∷ []) ∷ []

abbrev payment : Transfer
unfolding preparing
payment = new_builder (wrapper 9) 4_000_000 none

abbrev source : Remainder
source = record { address = wrapper 2; internal = false; amount = 7_000_000 }

abbrev paid : EssenceOutput
paid = record { kind = OutputKind.signature_locked_single; address = 9; amount = 4_000_000 }

abbrev change : EssenceOutput
change = record { kind = OutputKind.signature_locked_single; address = 40; amount = 3_000_000 }

abbrev utxo : ℕ → ℕ → ℕ → Utxo
utxo address index amount = record {
  output = output address index amount;
  address_index = address;
  address_internal = false;
  bee_address = address;
}

abbrev start : Collected
start = collect_start to_text accept accept payment

abbrev collected : Collected
unfolding preparing
collected = elim (collect to_text accept accept sender.addresses payment inputs) [
  | ok r ↦ r.1
  | err e ↦ start
]

collects : collect to_text accept accept sender.addresses payment inputs ≡ ok (paid ∷ [], collected)
unfolding preparing
collects = refl

collect-balanced_example :
    (collected.current_output_sum + collected.remainder_value ≡ sum_by held inputs)
    × (collected.remainder_value ≡ sum_by held inputs - transfer_amount payment)
unfolding preparing
collect-balanced_example =
    collect-balanced to_text accept accept sender.addresses payment inputs (omega arith)
      (omega arith) collects

collect_inputs-IsListed_example :
    IsListed to_text accept accept (utxo 1 0 2_000_000 ∷ utxo 2 1 5_000_000 ∷ []) start collected
unfolding preparing
collect_inputs-IsListed_example =
    collect_inputs-IsListed to_text accept accept 4_000_000 0
      (utxo 1 0 2_000_000 ∷ utxo 2 1 5_000_000 ∷ []) start (omega arith) (omega arith) (refl, refl)
      refl

abbrev deposit : Deposit
unfolding preparing
deposit =
    elim (choose_deposit derive sender RemainderValueStrategy.change_address (some source)
      3_000_000) [
        | ok (some d) ↦ d
        | ok none ↦ record { account = sender; address_to_watch = none; address = wrapper 0 }
        | err e ↦ record { account = sender; address_to_watch = none; address = wrapper 0 }
      ]

chosen :
    choose_deposit derive sender RemainderValueStrategy.change_address (some source) 3_000_000
    ≡ ok (some deposit)
unfolding preparing
chosen = refl

choose_deposit-own_example : has_address deposit.account.addresses deposit.address ≡ true
unfolding preparing
choose_deposit-own_example =
    choose_deposit-own to_text accept accept derive sender RemainderValueStrategy.change_address
      (some source) 3_000_000 (λ target e. cc) chosen

prepared :
    prepare derive to_text accept accept sender payment inputs (some source)
    ≡ ok (paid ∷ change ∷ [], [], collected, some deposit)
unfolding preparing
prepared = refl

prepare-balanced_example : sum_by (λ o. o.amount) (paid ∷ change ∷ []) ≡ sum_by held inputs
unfolding preparing
prepare-balanced_example =
    prepare-balanced to_text accept accept derive sender payment inputs (some source) (omega arith)
      (omega arith) (omega arith) prepared

-- The account holds 7 million; the transfer names its input, and an own address for the remainder.
abbrev holder : Account
holder =
    account_of
      (address_of 1 (output 1 0 2_000_000 ∷ []) ∷ address_of 2 (output 2 1 5_000_000 ∷ []) ∷ [])

abbrev named : Transfer
unfolding preparing
named =
    with_remainder_value_strategy
      (with_input (new_builder (wrapper 9) 4_000_000 none) (wrapper 2) (output 2 1 5_000_000 ∷ []))
      (RemainderValueStrategy.account_address (wrapper 1))

-- Every definition that the start of a transfer goes through.
starting : Unit {0}
unfolding preparing with_input balance available_outputs keep_available available_balance
    add_messages add_message add_available balance_internal with_reuse check_strategy lock_named
    all_available check_transfer take_inputs start_transfer
starting = tt

starts : start_transfer accept (λ l. l) (λ l. l) 127 holder (ok tt) [] [] named [] ≡ (
  ok (record named { input = none }, inputs_of 2 (output 2 1 5_000_000 ∷ []) ∷ [], none),
  output 2 1 5_000_000 ∷ [],
)
unfolding starting
starts = refl

start_transfer-owns_example : owns holder.addresses (wrapper 1) ≡ true
unfolding starting
start_transfer-owns_example =
    start_transfer-owns accept (λ l. l) (λ l. l) 127 holder (ok tt) [] [] named [] (wrapper 1)
      starts refl
