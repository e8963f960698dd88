-- ===== src/Sync/Events/Sum.antt =====
-- The sums of the events of `get_balance_change_events`.
use wallet_rs.Prelude.{
  ℕ, ◌+◌, ◌≤◌, ◌<◌, ◌≡◌, inl, inr, Bool, true, false, not, ◌||◌, none, List, [], ◌∷◌, arith, sum_by,
  sum_by-append, Bool-cases,
}
use wallet_rs.Prelude.Int.{
  ℤ, pos, negsuc, pos_part, neg_part, i64_limit, as_i64, as_i64_exact, sub_i64, Shifted,
  add_i64-Shifted, sub_i64-Shifted, sub_i64_parts,
}
use wallet_rs.Address.Types.{AddressWrapper, AddressOutput, OutputId}
use wallet_rs.Sync.Events.{
  BalanceChangeEventData, has_output, output_change, add_output, output_events, eq_ℤ,
  remaining_change, with_remaining, no_events, get_balance_change_events,
}

-- What the events say that the address received and spent.
abbrev pub received : List BalanceChangeEventData → ℕ
received l = sum_by (λ e. e.balance_change.received) l

abbrev pub spent : List BalanceChangeEventData → ℕ
spent l = sum_by (λ e. e.balance_change.spent) l

-- What an output adds, while it fits in an `i64`.
add_output-Shifted :
    (sum : ℤ) (o : AddressOutput)
    → pos_part sum + o.amount < i64_limit
    → neg_part sum + o.amount < i64_limit
    → Shifted (add_output sum o) sum (output_change o).received (output_change o).spent
unfolding add_output output_change
add_output-Shifted sum o p q =
    let exact = as_i64_exact o.amount (omega arith) in
    elim (Bool-cases o.is_spent) [
      | inl e ↦
          let s = sub_i64-Shifted sum o.amount (omega arith) (omega arith) in simp (e, exact) s
      | inr e ↦
          let s = add_i64-Shifted sum o.amount (omega arith) (omega arith) in simp (e, exact) s
    ]

change-le-amount :
    (o : AddressOutput)
    → ((output_change o).spent ≤ o.amount) × ((output_change o).received ≤ o.amount)
unfolding output_change
change-le-amount o = ground arith

-- The amounts of all outputs together.
abbrev pub total : List (OutputId × AddressOutput) → ℕ
total outputs = sum_by (λ e. e.1.amount) outputs

-- The sum that the loop keeps is what its events say, and they say no more than the outputs hold.
output_events-sum :
    (address : AddressWrapper) (before : List (OutputId × AddressOutput)) (sum : ℤ)
    (outputs : List (OutputId × AddressOutput))
    → pos_part sum + total outputs < i64_limit
    → neg_part sum + total outputs < i64_limit
    → let found = output_events address before sum outputs in
      Shifted found.1 sum (received found.0) (spent found.0)
      × (received found.0 ≤ total outputs)
      × (spent found.0 ≤ total outputs)
unfolding output_events
output_events-sum address before sum [] p q = (ground arith, omega arith, omega arith)
output_events-sum address before sum ((id, o) ∷ rest) p q =
    elim (Bool-cases (has_output before id)) [
      | inl known ↦
          let (s, r, t) = output_events-sum address before sum rest (omega arith) (omega arith) in
          simp known (s, omega arith, omega arith)
      | inr new ↦
          let change = add_output-Shifted sum o (omega arith) (omega arith) in
          let (spent_le, received_le) = change-le-amount o in
          let (s, r, t) =
            output_events-sum address before (add_output sum o) rest (omega arith) (omega arith) in
          simp new (ground arith, omega arith, omega arith)
    ]

remaining_change-parts :
    (x : ℤ) → pos_part x + (remaining_change x).spent ≡ neg_part x + (remaining_change x).received
unfolding remaining_change
remaining_change-parts (pos n) = ground arith
remaining_change-parts (negsuc n) = ground arith

with_remaining-sum :
    (old_balance new_balance : ℕ) (address : AddressWrapper) (found : List BalanceChangeEventData)
    (sum : ℤ)
    → Shifted sum (pos 0) (received found) (spent found)
    → old_balance + received found < i64_limit
    → new_balance + spent found < i64_limit
    → old_balance + received (with_remaining old_balance new_balance address found sum)
      ≡ new_balance + spent (with_remaining old_balance new_balance address found sum)
unfolding with_remaining
with_remaining-sum old_balance new_balance address found sum h p q =
    let change = sub_i64 (as_i64 new_balance) (as_i64 old_balance) in
    let outer : Shifted change (pos new_balance) 0 old_balance =
      rw (as_i64_exact new_balance (omega arith), as_i64_exact old_balance (omega arith))
        (sub_i64-Shifted (pos new_balance) old_balance (omega arith) (omega arith)) in
    let inner = sub_i64_parts change sum (omega arith) (omega arith) in
    let rest = remaining_change-parts (sub_i64 change sum) in
    let event : BalanceChangeEventData = record {
      address = address;
      balance_change = remaining_change (sub_i64 change sum);
      message_id = none;
    } in
    let in_received = sum_by-append (λ e. e.balance_change.received) found (event ∷ []) in
    let in_spent = sum_by-append (λ e. e.balance_change.spent) found (event ∷ []) in
    elim (Bool-cases (no_events found || not (eq_ℤ sum change))) [
      | inl more ↦ simp more (omega arith)
      | inr done ↦
          let same : eq_ℤ sum change ≡ true = ground arith in
          let parts : pos_part sum + neg_part change ≡ pos_part change + neg_part sum =
            ground arith in
          simp done (omega arith)
    ]

-- The events add up to the change of the balance, whichever outputs are known and whether or not
-- spent outputs are synchronised, when the amounts of the outputs together with either balance are
-- below 2^63.
pub get_balance_change_events-sum :
    (old_balance new_balance : ℕ) (address : AddressWrapper) (sync_spent_outputs : Bool)
    (before outputs : List (OutputId × AddressOutput))
    → old_balance + total outputs < i64_limit
    → new_balance + total outputs < i64_limit
    → let events =
        get_balance_change_events old_balance new_balance address sync_spent_outputs before
          outputs in
      old_balance + received events ≡ new_balance + spent events
unfolding get_balance_change_events
get_balance_change_events-sum old_balance new_balance address true before outputs p q =
    let (s, r, t) = output_events-sum address before (pos 0) outputs (omega arith) (omega arith) in
    with_remaining-sum old_balance new_balance address
      (output_events address before (pos 0) outputs).0
      (output_events address before (pos 0) outputs).1 s (omega arith) (omega arith)
get_balance_change_events-sum old_balance new_balance address false before outputs p q =
    with_remaining-sum old_balance new_balance address [] (pos 0) (ground arith) (omega arith)
      (omega arith)
