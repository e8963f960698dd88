-- ===== src/Tests/Accounts.antt =====
-- Accounts: their addresses, keys and balances, and the participations of an account.
use wallet_rs.Prelude.{
  ◌≡◌, ◌≤◌, ◌<◌, refl, true, false, some, [], ◌∷◌, ◌++◌, arith, sum_by, Elem, here, there,
}
use wallet_rs.Error.{ok}
use wallet_rs.Address.Types.{Address}
use wallet_rs.Message.Types.{Bytes}
use wallet_rs.Participation.Types.{
  Participation, to_u8, participation_bytes, participations_bytes, to_bytes, from_bytes,
}
use wallet_rs.Participation.Types.RoundTrip.{from_bytes-to_bytes}
use wallet_rs.Account.Types.{Account, AccountBalance}
use wallet_rs.Account.Addresses.{
  max_by_key_index, latest_address, new_address_key_index, append_address, append_addresses,
}
use wallet_rs.Account.Addresses.Keys.{
  HasDistinctKeys, address_at, newest_at, append_addresses-HasDistinctKeys,
  address_at-append_addresses,
}
use wallet_rs.Account.Addresses.Latest.{latest_address-facts, new_address_key_index-above}
use wallet_rs.Account.Balance.{balance_internal}
use wallet_rs.Account.Balance.Bound.{holdings, balance_internal-available-le-total}
use wallet_rs.Tests.Wallet.{output, address_of, pending, account_of}

abbrev first : Address
first = address_of 1 (output 1 0 2_000_000 ∷ [])

abbrev second : Address
second = address_of 2 (output 2 1 5_000_000 ∷ [])

abbrev two : Account
two = account_of (first ∷ second ∷ [])

latest_two : latest_address two ≡ ok second
unfolding latest_address max_by_key_index
latest_two = refl

latest_address-facts_example :
    Elem second two.addresses
    × (second.internal ≡ false)
    × ((b : Address) → Elem b two.addresses → b.internal ≡ false → b.key_index ≤ second.key_index)
latest_address-facts_example = latest_address-facts two latest_two

new_address_key_index-above_example : second.key_index < new_address_key_index two
new_address_key_index-above_example = new_address_key_index-above two second (there here) refl

append_addresses-HasDistinctKeys_example :
    HasDistinctKeys (append_addresses (first ∷ []) (second ∷ address_of 1 [] ∷ []))
append_addresses-HasDistinctKeys_example =
    append_addresses-HasDistinctKeys (first ∷ []) (second ∷ address_of 1 [] ∷ []) (refl, tt)

address_at-append_addresses_example :
    address_at 1 false (append_addresses (first ∷ []) (second ∷ address_of 1 [] ∷ []))
    ≡ newest_at 1 false (second ∷ address_of 1 [] ∷ []) (address_at 1 false (first ∷ []))
address_at-append_addresses_example =
    address_at-append_addresses 1 false (first ∷ []) (second ∷ address_of 1 [] ∷ [])

-- The merged address replaces the old one.
merged :
    append_addresses (first ∷ second ∷ []) (address_of 1 [] ∷ []) ≡ address_of 1 [] ∷ second ∷ []
unfolding append_addresses append_address
merged = refl

balance_internal-available-le-total_example :
    (r : AccountBalance) × (balance_internal (λ _. true) two [] (pending 1 ∷ []) ≡ ok r)
    × (r.total ≡ sum_by holdings two.addresses)
    × (r.available ≤ r.total)
balance_internal-available-le-total_example =
    balance_internal-available-le-total (λ _. true) two [] (pending 1 ∷ [])
      ((refl, tt), ((refl, tt), tt)) (omega arith)

-- Every event id stands for 32 bytes of 7, whose form is "seven".
abbrev sevens : Bytes
sevens =
    7 ∷ 7 ∷ 7 ∷ 7 ∷ 7 ∷ 7 ∷ 7 ∷ 7 ∷ 7 ∷ 7 ∷ 7 ∷ 7 ∷ 7 ∷ 7 ∷ 7 ∷ 7 ∷ 7 ∷ 7 ∷ 7 ∷ 7 ∷ 7 ∷ 7 ∷ 7 ∷ 7
    ∷ 7 ∷ 7 ∷ 7 ∷ 7 ∷ 7 ∷ 7 ∷ 7 ∷ 7 ∷ []

abbrev seven_event : Participation
seven_event = record { event_id = "seven"; answers = 1 ∷ 2 ∷ [] }

written :
    to_bytes (λ _. some sevens) (λ _. "seven") (seven_event ∷ [])
    ≡ ok (1 ∷ (sevens ++ (2 ∷ 1 ∷ 2 ∷ [])))
unfolding to_bytes participations_bytes participation_bytes to_u8
written = refl

from_bytes-to_bytes_example :
    from_bytes (λ _. some sevens) (λ _. "seven") ((1 ∷ (sevens ++ (2 ∷ 1 ∷ 2 ∷ []))) ++ (5 ∷ []))
    ≡ ok (seven_event ∷ [], 5 ∷ [])
from_bytes-to_bytes_example =
    from_bytes-to_bytes (λ _. some sevens) (λ _. "seven") (seven_event ∷ [])
      (1 ∷ (sevens ++ (2 ∷ 1 ∷ 2 ∷ []))) (5 ∷ []) ((sevens, refl, refl, refl), tt) written
