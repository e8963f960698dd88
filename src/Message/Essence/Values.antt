-- ===== src/Message/Essence/Values.antt =====
-- The value and the remainder value of a transaction, together and for a transfer that was
-- received.
use wallet_rs.Prelude.{
  ℕ, ◌+◌, ◌<◌, ◌≡◌, refl, subst, ap, inl, inr, Bool, false, not, none, List, [], ◌∷◌, String, arith,
  u64_mod, any, all, add64, add64_exact, sum_by, Bool-cases, if◌then◌else◌,
}
use wallet_rs.Error.{ok, >>=-eq-ok}
use wallet_rs.Address.Types.{Address}
use wallet_rs.Message.Types.{TransactionInput, TransactionOutput}
use wallet_rs.Message.Essence.{
  ChainOutput, new_output, chain_address, with_addresses, belongs, is_own_input, mark_outputs,
  pick_remainder, is_picked, flag_outputs, new_outputs, split_values,
}

abbrev pub chain_amount : ChainOutput → ℕ
chain_amount (ChainOutput.signature_locked_single address amount) = amount
chain_amount (ChainOutput.signature_locked_dust_allowance address amount) = amount
chain_amount (ChainOutput.treasury amount) = amount

abbrev pub stored_amount : TransactionOutput → ℕ
stored_amount (TransactionOutput.signature_locked_single o) = o.amount
stored_amount (TransactionOutput.signature_locked_dust_allowance o) = o.amount
stored_amount (TransactionOutput.treasury amount) = amount

split_values-sum :
    (sums : ℕ × ℕ) (os : List TransactionOutput)
    → sums.0 + sums.1 + sum_by stored_amount os < u64_mod
    → (split_values sums os).0 + (split_values sums os).1
      ≡ sums.0 + sums.1 + sum_by stored_amount os
unfolding split_values
split_values-sum sums [] h = omega arith
split_values-sum (v, r) (TransactionOutput.signature_locked_single o ∷ os) h =
    elim (Bool-cases o.remainder) [
      | inl e ↦
          let exact = add64_exact r o.amount (omega arith) in
          let rest = split_values-sum (v, add64 r o.amount) os (omega arith) in simp e (omega arith)
      | inr e ↦
          let exact = add64_exact v o.amount (omega arith) in
          let rest = split_values-sum (add64 v o.amount, r) os (omega arith) in simp e (omega arith)
    ]
split_values-sum (v, r) (TransactionOutput.signature_locked_dust_allowance o ∷ os) h =
    let exact = add64_exact v o.amount (omega arith) in
    let rest = split_values-sum (add64 v o.amount, r) os (omega arith) in omega arith
split_values-sum (v, r) (TransactionOutput.treasury amount ∷ os) h =
    let exact = add64_exact v amount (omega arith) in
    let rest = split_values-sum (add64 v amount, r) os (omega arith) in omega arith

new_output-amount :
    (hrp : String) (o : ChainOutput) (flag : Bool)
    → stored_amount (new_output hrp o flag) ≡ chain_amount o
unfolding new_output
new_output-amount hrp (ChainOutput.signature_locked_single address amount) flag = refl
new_output-amount hrp (ChainOutput.signature_locked_dust_allowance address amount) flag = refl
new_output-amount hrp (ChainOutput.treasury amount) flag = refl

mark_outputs-sum :
    (hrp : String) (is_remainder : ℕ → Bool) (os : List (ℕ × ChainOutput))
    → sum_by stored_amount (mark_outputs hrp is_remainder os) ≡ sum_by (λ e. chain_amount e.1) os
unfolding mark_outputs
mark_outputs-sum hrp is_remainder [] = refl
mark_outputs-sum hrp is_remainder ((inner, o) ∷ os) =
    omega
      (arith, new_output-amount hrp o (is_remainder inner), mark_outputs-sum hrp is_remainder os)

with_addresses-sum :
    (os : List ChainOutput) {es : List (ℕ × ChainOutput)}
    → with_addresses os ≡ ok es
    → sum_by (λ e. chain_amount e.1) es ≡ sum_by chain_amount os
unfolding with_addresses
with_addresses-sum [] {es} h = let same : es ≡ [] = cc in rw same
with_addresses-sum (o ∷ os) {es} h =
    let (a, a_e, h1) = >>=-eq-ok (chain_address o) _ h in
    let (l, l_e, h2) = >>=-eq-ok (with_addresses os) _ h1 in
    let same : es ≡ (a, o) ∷ l = cc in let rest = with_addresses-sum os l_e in rw same (omega arith)

flag_outputs-sum :
    (hrp : String) (addresses : List Address) (inputs : List TransactionInput)
    (es : List (ℕ × ChainOutput)) {os : List TransactionOutput}
    → flag_outputs hrp addresses inputs es ≡ ok os
    → sum_by stored_amount os ≡ sum_by (λ e. chain_amount e.1) es
unfolding flag_outputs
flag_outputs-sum hrp addresses inputs es {os} h =
    elim (Bool-cases (all (λ e. belongs addresses e.0) es)) [
      | inl own ↦
          let (r, r_e, h1) =
            >>=-eq-ok (pick_remainder addresses inputs none es) _ (rw (flag_outputs, own) at h) in
          let same : mark_outputs hrp (is_picked r) es ≡ os = cc in
          subst (λ l. sum_by stored_amount l ≡ sum_by (λ e. chain_amount e.1) es) same
            (mark_outputs-sum hrp (is_picked r) es)
      | inr foreign ↦ elim (Bool-cases (any (is_own_input addresses) inputs)) [
        | inl sent ↦
            let step : flag_outputs hrp addresses inputs es
                ≡ ok (mark_outputs hrp (belongs addresses) es) =
              rw (foreign, sent) in
            let same : mark_outputs hrp (belongs addresses) es ≡ os = cc in
            subst (λ l. sum_by stored_amount l ≡ sum_by (λ e. chain_amount e.1) es) same
              (mark_outputs-sum hrp (belongs addresses) es)
        | inr received ↦
            let step : flag_outputs hrp addresses inputs es
                ≡ ok (mark_outputs hrp (λ inner. not (belongs addresses inner)) es) =
              rw (foreign, received) in
            let same : mark_outputs hrp (λ inner. not (belongs addresses inner)) es ≡ os = cc in
            subst (λ l. sum_by stored_amount l ≡ sum_by (λ e. chain_amount e.1) es) same
              (mark_outputs-sum hrp (λ inner. not (belongs addresses inner)) es)
      ]
    ]

new_outputs-sum :
    (hrp : String) (addresses : List Address) (inputs : List TransactionInput)
    (chain : List ChainOutput) {os : List TransactionOutput}
    → new_outputs hrp addresses inputs chain ≡ ok os
    → sum_by stored_amount os ≡ sum_by chain_amount chain
unfolding new_outputs
new_outputs-sum hrp addresses inputs [] {os} h = let same : os ≡ [] = cc in rw same
new_outputs-sum hrp addresses inputs (o ∷ []) {os} h =
    let same : os ≡ new_output hrp o false ∷ [] = cc in
    rw same (omega (arith, new_output-amount hrp o false))
new_outputs-sum hrp addresses inputs (o ∷ o' ∷ rest) {os} h =
    let (es, es_e, h1) = >>=-eq-ok (with_addresses (o ∷ o' ∷ rest)) _ h in
    let flagged = flag_outputs-sum hrp addresses inputs es h1 in
    let all_of = with_addresses-sum (o ∷ o' ∷ rest) es_e in omega arith

-- The value and the remainder value of a transaction, whose outputs fit in 64 bits together, are
-- together what its outputs hold, however its outputs are told apart.
pub split_values-new_outputs :
    (hrp : String) (addresses : List Address) (inputs : List TransactionInput)
    (chain : List ChainOutput) {os : List TransactionOutput}
    → new_outputs hrp addresses inputs chain ≡ ok os
    → sum_by chain_amount chain < u64_mod
    → (split_values (0, 0) os).0 + (split_values (0, 0) os).1 ≡ sum_by chain_amount chain
split_values-new_outputs hrp addresses inputs chain {os} h bound =
    let same = new_outputs-sum hrp addresses inputs chain h in
    let split = split_values-sum (0, 0) os (omega arith) in omega arith

-- What an output counts for in the value: nothing if it is marked as a remainder.
abbrev pub value_of : TransactionOutput → ℕ
value_of (TransactionOutput.signature_locked_single o) = if o.remainder then 0 else o.amount
value_of (TransactionOutput.signature_locked_dust_allowance o) = o.amount
value_of (TransactionOutput.treasury amount) = amount

split_values-value :
    (sums : ℕ × ℕ) (os : List TransactionOutput)
    → sums.0 + sum_by stored_amount os < u64_mod
    → (split_values sums os).0 ≡ sums.0 + sum_by value_of os
unfolding split_values
split_values-value sums [] h = omega arith
split_values-value (v, r) (TransactionOutput.signature_locked_single o ∷ os) h =
    elim (Bool-cases o.remainder) [
      | inl e ↦
          let rest = split_values-value (v, add64 r o.amount) os (omega arith) in
          simp e (omega arith)
      | inr e ↦
          let exact = add64_exact v o.amount (omega arith) in
          let rest = split_values-value (add64 v o.amount, r) os (omega arith) in
          simp e (omega arith)
    ]
split_values-value (v, r) (TransactionOutput.signature_locked_dust_allowance o ∷ os) h =
    let exact = add64_exact v o.amount (omega arith) in
    let rest = split_values-value (add64 v o.amount, r) os (omega arith) in omega arith
split_values-value (v, r) (TransactionOutput.treasury amount ∷ os) h =
    let exact = add64_exact v amount (omega arith) in
    let rest = split_values-value (add64 v amount, r) os (omega arith) in omega arith

-- What the account receives by an output; a dust allowance counts wherever it goes.
abbrev pub received_amount : List Address → (ℕ × ChainOutput) → ℕ
received_amount addresses (inner, ChainOutput.signature_locked_single address amount) =
    if belongs addresses inner then amount else 0
received_amount addresses (inner, ChainOutput.signature_locked_dust_allowance address amount) =
    amount
received_amount addresses (inner, ChainOutput.treasury amount) = amount

mark_outputs-value :
    (hrp : String) (addresses : List Address) (es : List (ℕ × ChainOutput))
    → sum_by value_of (mark_outputs hrp (λ inner. not (belongs addresses inner)) es)
      ≡ sum_by (received_amount addresses) es
unfolding mark_outputs new_output
mark_outputs-value hrp addresses [] = refl
mark_outputs-value hrp addresses
      ((inner, ChainOutput.signature_locked_single address amount) ∷ es) =
    ground (arith, mark_outputs-value hrp addresses es)
mark_outputs-value hrp addresses
      ((inner, ChainOutput.signature_locked_dust_allowance address amount) ∷ es) =
    omega (arith, mark_outputs-value hrp addresses es)
mark_outputs-value hrp addresses ((inner, ChainOutput.treasury amount) ∷ es) =
    omega (arith, mark_outputs-value hrp addresses es)

-- When some of at least two outputs goes to another account, no input is known to be the
-- account's, and the outputs fit in 64 bits together, the value of the transaction is what its
-- single outputs pay to the account, and all its dust allowances.
pub split_values-received :
    (hrp : String) (addresses : List Address) (inputs : List TransactionInput) (o o' : ChainOutput)
    (rest : List ChainOutput) {es : List (ℕ × ChainOutput)} {os : List TransactionOutput}
    → with_addresses (o ∷ o' ∷ rest) ≡ ok es
    → all (λ e. belongs addresses e.0) es ≡ false
    → any (is_own_input addresses) inputs ≡ false
    → new_outputs hrp addresses inputs (o ∷ o' ∷ rest) ≡ ok os
    → sum_by chain_amount (o ∷ o' ∷ rest) < u64_mod
    → (split_values (0, 0) os).0 ≡ sum_by (received_amount addresses) es
unfolding new_outputs flag_outputs
split_values-received hrp addresses inputs o o' rest {es} {os} es_e foreign received h bound =
    let step : new_outputs hrp addresses inputs (o ∷ o' ∷ rest)
        ≡ ok (mark_outputs hrp (λ inner. not (belongs addresses inner)) es) =
      rw (es_e, foreign, received) in
    let same : mark_outputs hrp (λ inner. not (belongs addresses inner)) es ≡ os = cc in
    let total = new_outputs-sum hrp addresses inputs (o ∷ o' ∷ rest) h in
    let value = split_values-value (0, 0) os (omega arith) in
    let marked = mark_outputs-value hrp addresses es in
    omega (arith, value, ap (sum_by value_of) same, marked)
