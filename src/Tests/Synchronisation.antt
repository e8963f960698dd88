-- ===== src/Tests/Synchronisation.antt =====
-- Synchronisation: dust, balance changes, found addresses and consolidation.
use wallet_rs.Prelude.{
  ℕ, ◌+◌, ◌-◌, ◌*◌, ◌≡◌, ◌≤◌, refl, ◌⊎◌, true, false, String, List, [], ◌∷◌, length, fold64, add64,
  All, Elem, here, there, arith,
}
use wallet_rs.Error.{Result, ok, err, dust_error}
use wallet_rs.Address.Types.{
  AddressWrapper, AddressOutput, Address, OutputKind, address_eq, output_id_eq,
}
use wallet_rs.Address.Outputs.{values, keep_available, available_outputs, is_used, utxo_input}
use wallet_rs.Message.Transfer.{
  Transfer, new_builder, new_transfer_output, default_builder, with_input,
  with_events as builder_events,
}
use wallet_rs.Account.Types.{SignerType}
use wallet_rs.Sync.Dust.{
  AddressData, max_allowed_dust_outputs, dust_divisor, count_transaction, count_address,
  allowed_dust_amount, within_limit, unspent_outputs, outputs_of, is_dust_allowed,
}
use wallet_rs.Sync.Dust.Limit.{
  dust_before_consumption, entries, entry_amount, allowance, is_dust_allowed-limit,
}
use wallet_rs.Sync.Events.{
  get_balance_change_events, output_events, output_change, add_output, remaining_change,
  with_remaining,
}
use wallet_rs.Sync.Events.Sum.{received, spent, get_balance_change_events-sum}
use wallet_rs.Sync.Discovery.{
  output_eq, outputs_eq, insert_by_key, sort_by_key, is_updated, save_addresses,
  find_addresses_to_save,
}
use wallet_rs.Sync.Discovery.Kept.{
  IsPrefix, find_addresses_to_save-used, find_addresses_to_save-IsPrefix,
}
use wallet_rs.Sync.Consolidation.{
  consolidated, consolidation_inputs, chunks_from, chunks, chunk_transfer, chunk_transfers,
  address_transfers,
}
use wallet_rs.Sync.Consolidation.Inputs.{
  concat, AreConsolidations, address_transfers-AreConsolidations,
}
use wallet_rs.Tests.Wallet.{wrapper, output, address_of}

-- Every definition that these runs go through.
synchronising : Unit {0}
unfolding add64 fold64 address_eq output_id_eq keep_available available_outputs is_used utxo_input
    new_builder new_transfer_output default_builder with_input builder_events count_transaction
    count_address allowed_dust_amount within_limit unspent_outputs outputs_of is_dust_allowed
    output_events output_change add_output remaining_change with_remaining get_balance_change_events
    output_eq outputs_eq insert_by_key sort_by_key is_updated save_addresses find_addresses_to_save
    chunks_from chunks chunk_transfer chunk_transfers address_transfers
synchronising = tt

abbrev to_text : AddressWrapper → String
to_text w = "atoi1"

-- An address with a dust allowance of 10 million and one dust output.
abbrev allowing : Address
allowing = address_of 1 (
    record (output 1 0 10_000_000) { kind = OutputKind.signature_locked_dust_allowance }
    ∷ output 1 1 500
    ∷ [])

abbrev no_answer : Result (List (ℕ × OutputKind))
no_answer = ok []

abbrev node_data : AddressData
node_data = record { balance = 10_000_500; dust_allowed = true }

-- Two more dust outputs are allowed, but none without an allowance.
two_more :
    is_dust_allowed to_text
      (allowing ∷ [])
      (ok node_data)
      no_answer
      "atoi1"
      ((1, true) ∷ (2, true) ∷ [])
    ≡ ok tt
unfolding synchronising
two_more = refl

consumed_allowance :
    is_dust_allowed to_text
      (allowing ∷ [])
      (ok node_data)
      no_answer
      "atoi1"
      ((10_000_000, false) ∷ [])
    ≡ err (dust_error "atoi1")
unfolding synchronising
consumed_allowance = refl

is_dust_allowed-limit_example :
    (dust_before_consumption (unspent_outputs allowing) ((1, true) ∷ (2, true) ∷ [])
      ≤ entries false ((1, true) ∷ (2, true) ∷ []) + max_allowed_dust_outputs)
    × ((dust_before_consumption (unspent_outputs allowing) ((1, true) ∷ (2, true) ∷ [])
          ≤ entries false ((1, true) ∷ (2, true) ∷ []))
        ⊎ ((dust_before_consumption (unspent_outputs allowing) ((1, true) ∷ (2, true) ∷ [])
                  - entries false ((1, true) ∷ (2, true) ∷ []))
                * dust_divisor
              + entry_amount false ((1, true) ∷ (2, true) ∷ [])
            ≤ allowance (unspent_outputs allowing)
              + entry_amount true ((1, true) ∷ (2, true) ∷ [])))
unfolding synchronising
is_dust_allowed-limit_example =
    is_dust_allowed-limit to_text (allowing ∷ []) node_data no_answer "atoi1"
      ((1, true) ∷ (2, true) ∷ []) refl refl (omega arith) (omega arith) (omega arith) (omega arith)
      two_more

get_balance_change_events-sum_example :
    let events =
      get_balance_change_events 3_000_000 4_500_000 (wrapper 1) true [] allowing.outputs in
    3_000_000 + received events ≡ 4_500_000 + spent events
get_balance_change_events-sum_example =
    get_balance_change_events-sum 3_000_000 4_500_000 (wrapper 1) true [] allowing.outputs
      (omega arith) (omega arith)

-- Found are a used address between unused ones, in no order.
abbrev found : List Address
found = address_of 3 [] ∷ address_of 2 (output 2 0 5_000_000 ∷ []) ∷ address_of 1 [] ∷ []

saved :
    find_addresses_to_save [] found
    ≡ address_of 1 [] ∷ address_of 2 (output 2 0 5_000_000 ∷ []) ∷ []
unfolding synchronising
saved = refl

find_addresses_to_save-used_example :
    Elem (address_of 2 (output 2 0 5_000_000 ∷ [])) (find_addresses_to_save [] found)
find_addresses_to_save-used_example = find_addresses_to_save-used [] found (there here) refl

find_addresses_to_save-IsPrefix_example :
    IsPrefix (find_addresses_to_save [] found) (sort_by_key found)
unfolding synchronising
find_addresses_to_save-IsPrefix_example =
    find_addresses_to_save-IsPrefix [] found (refl, (refl, (refl, tt)))

abbrev crowded : Address
crowded = address_of 1 (output 1 0 1_000_000 ∷ output 1 1 2_000_000 ∷ output 1 2 3_000_000 ∷ [])

abbrev transfers : List Transfer
unfolding synchronising
transfers = elim (address_transfers (λ _. true) 3 2 false SignerType.stronghold [] crowded) [
  | ok l ↦ l
  | err e ↦ []
]

consolidates :
    address_transfers (λ _. true) 3 2 false SignerType.stronghold [] crowded ≡ ok transfers
unfolding synchronising
consolidates = refl

two_transfers : length transfers ≡ 2
unfolding synchronising
two_transfers = refl

crowded_available : available_outputs (λ _. true) crowded [] ≡ ok (values crowded.outputs)
unfolding synchronising
crowded_available = refl

address_transfers-AreConsolidations_example :
    (transfers ≡ [])
    ⊎ ((cs : List (List AddressOutput)) × (concat cs ≡ consolidated false (values crowded.outputs))
        × All (λ c. length c ≤ consolidation_inputs 3 SignerType.stronghold) cs
        × AreConsolidations crowded.address cs transfers)
unfolding synchronising
address_transfers-AreConsolidations_example =
    address_transfers-AreConsolidations (λ _. true) 3 2 false SignerType.stronghold [] crowded
      crowded_available consolidates
