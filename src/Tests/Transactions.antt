-- ===== src/Tests/Transactions.antt =====
-- The essence of a received transaction.
use wallet_rs.Prelude.{◌+◌, ◌≡◌, refl, true, false, List, [], ◌∷◌, arith, sum_by, add64}
use wallet_rs.Error.{ok}
use wallet_rs.Address.Types.{Address}
use wallet_rs.Message.Types.{TransactionOutput}
use wallet_rs.Message.Essence.{
  ChainOutput, new_output, chain_address, with_addresses, pick_remainder, mark_outputs,
  flag_outputs, new_outputs, split_values,
}
use wallet_rs.Message.Essence.Values.{
  chain_amount, received_amount, split_values-new_outputs, split_values-received,
}
use wallet_rs.Tests.Wallet.{address_of}

-- One output for the account, and the sender's remainder.
abbrev to_account : ChainOutput
to_account = ChainOutput.signature_locked_single 1 4_000_000

abbrev to_sender : ChainOutput
to_sender = ChainOutput.signature_locked_single 9 3_000_000

abbrev own : List Address
own = address_of 1 [] ∷ []

abbrev stored : List TransactionOutput
unfolding new_output
stored = new_output "atoi" to_account false ∷ new_output "atoi" to_sender true ∷ []

storing : Unit {0}
unfolding add64 new_output chain_address with_addresses pick_remainder mark_outputs flag_outputs
    new_outputs split_values
storing = tt

stores : new_outputs "atoi" own [] (to_account ∷ to_sender ∷ []) ≡ ok stored
unfolding storing
stores = refl

addressed :
    with_addresses (to_account ∷ to_sender ∷ []) ≡ ok ((1, to_account) ∷ (9, to_sender) ∷ [])
unfolding storing
addressed = refl

splits : split_values (0, 0) stored ≡ (4_000_000, 3_000_000)
unfolding storing
splits = refl

split_values-new_outputs_example :
    (split_values (0, 0) stored).0 + (split_values (0, 0) stored).1
    ≡ sum_by chain_amount (to_account ∷ to_sender ∷ [])
split_values-new_outputs_example =
    split_values-new_outputs "atoi" own [] (to_account ∷ to_sender ∷ []) stores (omega arith)

split_values-received_example :
    (split_values (0, 0) stored).0
    ≡ sum_by (received_amount own) ((1, to_account) ∷ (9, to_sender) ∷ [])
split_values-received_example =
    split_values-received "atoi" own [] to_account to_sender [] addressed refl refl stores
      (omega arith)
