-- ===== src/Tests/Outputs.antt =====
-- The outputs of an address.
use wallet_rs.Prelude.{ℕ, ◌≡◌, ◌≤◌, refl, true, false, [], ◌∷◌, arith, Elem, here}
use wallet_rs.Error.{ok}
use wallet_rs.Address.Types.{Address, id_of, output_id_eq}
use wallet_rs.Address.Outputs.{
  references, balance, utxo_input, is_used, keep_available, available_outputs, available_balance,
}
use wallet_rs.Address.Outputs.Available.{
  Uses, available_outputs-unused, available_balance-le-balance,
}
use wallet_rs.Message.Types.{Message}
use wallet_rs.Tests.Wallet.{output, address_of, pending}

abbrev two_outputs : Address
two_outputs = address_of 1 (output 1 0 2_000_000 ∷ output 1 1 5_000_000 ∷ [])

available_two :
    available_outputs (λ _. true) two_outputs (pending 1 ∷ []) ≡ ok (output 1 0 2_000_000 ∷ [])
unfolding available_outputs keep_available is_used utxo_input references output_id_eq
available_two = refl

available_outputs-unused_example :
    ((output 1 0 2_000_000).is_spent ≡ false)
    × ((m : Message) → Elem m (pending 1 ∷ []) → ¬ Uses m (id_of (output 1 0 2_000_000)))
available_outputs-unused_example =
    available_outputs-unused (λ _. true) two_outputs (pending 1 ∷ []) available_two here

available_balance-le-balance_example :
    (b : ℕ) × (available_balance (λ _. true) two_outputs (pending 1 ∷ []) ≡ ok b)
    × (b ≤ balance two_outputs)
available_balance-le-balance_example =
    available_balance-le-balance (λ _. true) two_outputs (pending 1 ∷ []) (refl, (refl, tt))
      (omega arith)
