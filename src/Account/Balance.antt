-- ===== src/Account/Balance.antt =====
-- The balance of an account. The storage's index of its messages is an argument.
pub mod Bound
use wallet_rs.Prelude.{
  ℕ, ◌+◌, Bool, true, false, Option, none, some, List, [], ◌∷◌, add64, filter, fold64,
  if◌then◌else◌,
}
use wallet_rs.Error.{Result, ok, ◌>>=◌}
use wallet_rs.Address.Types.{Address}
use wallet_rs.Address.Outputs.{balance, available_balance}
use wallet_rs.Message.Types.{Message}
use wallet_rs.Storage.Types.{MessageIndexation}
use wallet_rs.Account.Types.{Account, AccountBalance}

-- `confirmed == Some(true)`, and the same on the other flags.
abbrev pub is_some_true : Option Bool → Bool
is_some_true (some true) = true
is_some_true _ = false

abbrev pub is_some_false : Option Bool → Bool
is_some_false (some false) = true
is_some_false _ = false

-- The step of the fold over the confirmed messages.
unfoldable pub add_message : (ℕ × ℕ) → MessageIndexation → ℕ × ℕ
add_message (incoming, outgoing) m =
    if is_some_false m.internal
    then (if is_some_true m.incoming
        then (add64 incoming m.value, outgoing)
        else (incoming, add64 outgoing m.value))
    else (incoming, outgoing)

unfoldable pub add_messages : (ℕ × ℕ) → List MessageIndexation → ℕ × ℕ
add_messages sums [] = sums
add_messages sums (m ∷ rest) = add_messages (add_message sums m) rest

module _ (index_valid : ℕ → Bool) where
  unfoldable pub add_available : List Message → ℕ → List Address → Result ℕ
  add_available sent_messages sum [] = ok sum
  add_available sent_messages sum (a ∷ rest) =
      available_balance index_valid a sent_messages >>= λ available.
      add_available sent_messages (add64 sum available) rest

  unfoldable pub balance_internal :
      Account → List MessageIndexation → List Message → Result AccountBalance
  unfolding add_messages add_available
  balance_internal account messages sent_messages = do
    available ← add_available sent_messages 0 account.addresses
    let sums = add_messages (0, 0) (filter (λ m. is_some_true m.confirmed) messages)
    ok (record {
      total = fold64 balance 0 account.addresses;
      available = available;
      incoming = sums.0;
      outgoing = sums.1;
    })
