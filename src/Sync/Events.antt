-- ===== src/Sync/Events.antt =====
-- The balance change events of an address (src/account/sync/mod.rs), and their data (src/event.rs).
-- Their sums are `i64`, which wrap around as in a release build.
pub mod Sum
use wallet_rs.Prelude.{
  ℕ, ◌+◌, Bool, true, false, not, ◌&&◌, ◌||◌, Option, none, some, List, [], ◌∷◌, ◌++◌, ◌==◌, ltb,
  any, if◌then◌else◌,
}
use wallet_rs.Prelude.Int.{ℤ, pos, negsuc, ltb_ℤ, pos_part, neg_part, as_i64, add_i64, sub_i64}
use wallet_rs.Address.Types.{AddressWrapper, AddressOutput, OutputId, output_id_eq}

pub record BalanceChange : Type 0 where
  pub spent : ℕ
  pub received : ℕ

abbrev pub spent_change : ℕ → BalanceChange
spent_change value = record { spent = value; received = 0 }

abbrev pub received_change : ℕ → BalanceChange
received_change value = record { spent = 0; received = value }

pub record BalanceChangeEventData : Type 0 where
  pub address : AddressWrapper
  pub balance_change : BalanceChange
  pub message_id : Option ℕ

-- `HashMap::contains_key`
abbrev pub has_output : List (OutputId × AddressOutput) → OutputId → Bool
has_output outputs id = any (λ e. output_id_eq e.0 id) outputs

-- The change that an output is, and what it adds to the sum.
unfoldable pub output_change : AddressOutput → BalanceChange
output_change o = if o.is_spent then spent_change o.amount else received_change o.amount

unfoldable pub add_output : ℤ → AddressOutput → ℤ
unfolding as_i64 add_i64 sub_i64
add_output sum o =
    if o.is_spent then sub_i64 sum (as_i64 o.amount) else add_i64 sum (as_i64 o.amount)

-- The loop over the outputs: the events, and the sum of the changes.
unfoldable pub output_events :
    AddressWrapper
    → List (OutputId × AddressOutput)
    → ℤ
    → List (OutputId × AddressOutput)
    → List BalanceChangeEventData × ℤ
unfolding output_change add_output
output_events address before sum [] = ([], sum)
output_events address before sum ((id, o) ∷ rest) =
    let skipped = output_events address before sum rest in
    let later = output_events address before (add_output sum o) rest in
    if has_output before id then skipped else (
      record { address = address; balance_change = output_change o; message_id = some o.message_id }
          ∷ later.0,
      later.1,
    )

abbrev pub eq_ℤ : ℤ → ℤ → Bool
eq_ℤ a b = not (ltb_ℤ a b) && not (ltb_ℤ b a)

-- The change that the outputs do not account for; `unsigned_abs` of one that is not positive.
unfoldable pub remaining_change : ℤ → BalanceChange
remaining_change change =
    if ltb_ℤ (pos 0) change
    then received_change (pos_part change)
    else spent_change (neg_part change)

abbrev pub no_events : List BalanceChangeEventData → Bool
no_events [] = true
no_events (e ∷ l) = false

-- What follows the loop: an event for the change that is not accounted for, also if it is zero and
-- no other event was emitted.
unfoldable pub with_remaining :
    ℕ → ℕ → AddressWrapper → List BalanceChangeEventData → ℤ → List BalanceChangeEventData
unfolding remaining_change as_i64 sub_i64
with_remaining old_balance new_balance address found output_change_balance =
    let balance_change = sub_i64 (as_i64 new_balance) (as_i64 old_balance) in
    if no_events found || not (eq_ℤ output_change_balance balance_change)
    then found
      ++ (record {
        address = address;
        balance_change = remaining_change (sub_i64 balance_change output_change_balance);
        message_id = none;
      }
          ∷ [])
    else found

unfoldable pub get_balance_change_events :
    ℕ
    → ℕ
    → AddressWrapper
    → Bool
    → List (OutputId × AddressOutput)
    → List (OutputId × AddressOutput)
    → List BalanceChangeEventData
unfolding output_events with_remaining
get_balance_change_events old_balance new_balance address sync_spent_outputs before outputs =
    let found =
      if sync_spent_outputs then output_events address before (pos 0) outputs else ([], pos 0) in
    with_remaining old_balance new_balance address found.0 found.1
