-- ===== src/Sync/Collect/Sums.antt =====
-- The sums of `collect_inputs`: what is paid, and what remains.
use wallet_rs.Prelude.{
  ℕ, ◌+◌, ◌-◌, ◌≤◌, ◌<◌, ◌≡◌, refl, subst, ◌∙◌, inl, inr, Bool, List, [], ◌∷◌, arith, u64_mod,
  String, add64, add64_exact, sub64, sub64_exact, sum_by, sum_by-append, ◌++◌, find, Bool-cases,
  ltb, ◌==◌,
}
use wallet_rs.Error.{ok, ok_or, panic, >>=-eq-ok}
use wallet_rs.Address.Types.{AddressWrapper, AddressOutput, Address, address_eq}
use wallet_rs.Address.Outputs.{id}
use wallet_rs.Message.Transfer.{Transfer, amount as transfer_amount}
use wallet_rs.InputSelection.Types.{AddressInputs}
use wallet_rs.Sync.Collect.{
  EssenceOutput, Collected, Utxo, DustRecord, record_source, add_input, record_input, push_input,
  collect_inputs, collect_start, address_utxos, collect_utxos, outputs_for_essence, collect,
}

-- What the outputs of an address hold.
abbrev pub held : AddressInputs → ℕ
held a = sum_by (λ o. o.amount) a.outputs

abbrev pub utxo_amount : Utxo → ℕ
utxo_amount u = u.output.amount

address_utxos-amounts :
    (a : Address) (os : List AddressOutput)
    → sum_by utxo_amount (address_utxos a os) ≡ sum_by (λ o. o.amount) os
unfolding address_utxos
address_utxos-amounts a [] = refl
address_utxos-amounts a (o ∷ os) = omega (arith, address_utxos-amounts a os)

collect_utxos-amounts :
    (addresses : List Address) (inputs : List AddressInputs) (us : List Utxo)
    → collect_utxos addresses inputs ≡ ok us
    → sum_by utxo_amount us ≡ sum_by held inputs
unfolding collect_utxos
collect_utxos-amounts addresses [] us e = let same : us ≡ [] = cc in rw same
collect_utxos-amounts addresses (i ∷ inputs) us e =
    let (a, a_e, e1) =
      >>=-eq-ok (ok_or (find (λ a. address_eq a.address i.address) addresses) panic) _ e in
    let (vs, vs_e, e2) = >>=-eq-ok (collect_utxos addresses inputs) _ e1 in
    let same : us ≡ address_utxos a i.outputs ++ vs = cc in
    let rest = collect_utxos-amounts addresses inputs vs vs_e in
    let here_sum = address_utxos-amounts a i.outputs in
    let both = sum_by-append utxo_amount (address_utxos a i.outputs) vs in rw same (omega arith)

-- Of inputs that hold `total`, as much as fits is paid and the rest remains.
abbrev pub IsFilled : ℕ → ℕ → Collected → Type 0
IsFilled transfer total s =
    (s.current_output_sum + s.remainder_value ≡ total) × (s.remainder_value ≡ total - transfer)

-- Nothing is left on a source address, so no dust is recorded for it.
record_source-none :
    (transfer current : ℕ) (address : String) (recorders : List DustRecord)
    → current ≡ transfer
    → transfer < u64_mod
    → record_source transfer current address recorders ≡ recorders
unfolding record_source
record_source-none transfer current address recorders e h =
    let zero_left : sub64 current transfer ≡ 0 =
      sub64_exact current transfer (omega arith) (omega arith) ∙ omega arith in
    rw zero_left

-- An input is paid or remains.
pub add_input-IsFilled :
    (transfer value total : ℕ) (address : String) (s : Collected)
    → transfer < u64_mod
    → total + value < u64_mod
    → IsFilled transfer total s
    → IsFilled transfer (total + value) (add_input transfer value address s)
unfolding add_input
add_input-IsFilled transfer value total address s h bound filled =
    let e1 = add64_exact s.current_output_sum value (omega arith) in
    let e2 = add64_exact s.remainder_value value (omega arith) in
    elim (Bool-cases (s.current_output_sum == transfer)) [
      | inl e ↦ rw e (ground arith, ground arith)
      | inr e ↦ elim (Bool-cases (ltb transfer (add64 s.current_output_sum value))) [
        | inl above ↦
            let missing = sub64_exact transfer s.current_output_sum (omega arith) h in
            let rest =
              sub64_exact value (sub64 transfer s.current_output_sum) (ground arith)
                (omega arith) in
            let paid =
              add64_exact s.current_output_sum (sub64 transfer s.current_output_sum)
                (omega arith) in
            let left =
              add64_exact s.remainder_value (sub64 value (sub64 transfer s.current_output_sum))
                (ground arith) in
            rw (e, above) (ground arith, ground arith)
        | inr below ↦ rw (e, below) (ground arith, ground arith)
      ]
    ]

-- The loop never records that dust is created: its entries are for inputs, or nothing is left.
pub add_input-recorders :
    (transfer value : ℕ) (address : String) (s : Collected)
    → transfer < u64_mod
    → s.current_output_sum ≤ transfer
    → s.current_output_sum + value < u64_mod
    → (add_input transfer value address s).dust_and_allowance_recorders
      ≡ s.dust_and_allowance_recorders
unfolding add_input
add_input-recorders transfer value address s h le bound =
    let e1 = add64_exact s.current_output_sum value bound in
    elim (Bool-cases (s.current_output_sum == transfer)) [
      | inl e ↦ rw e
      | inr e ↦ elim (Bool-cases (ltb transfer (add64 s.current_output_sum value))) [
        | inl above ↦
            let missing = sub64_exact transfer s.current_output_sum le h in
            let paid =
              add64_exact s.current_output_sum (sub64 transfer s.current_output_sum)
                (omega arith) in
            rw (e, above)
              (record_source-none transfer
                (add64 s.current_output_sum (sub64 transfer s.current_output_sum)) address
                s.dust_and_allowance_recorders (omega arith) h)
        | inr below ↦ rw (e, below)
      ]
    ]

module _ (to_bech32 : AddressWrapper → String) (index_valid amount_valid : ℕ → Bool) where
  pub collect_inputs-IsFilled :
      (transfer total : ℕ) (us : List Utxo) (s : Collected) {r : Collected}
      → transfer < u64_mod
      → total + sum_by utxo_amount us < u64_mod
      → IsFilled transfer total s
      → collect_inputs to_bech32 index_valid amount_valid transfer us s ≡ ok r
      → IsFilled transfer (total + sum_by utxo_amount us) r
  unfolding collect_inputs
  collect_inputs-IsFilled transfer total [] s {r} h bound filled e =
      let same : s ≡ r = cc in
      subst (λ r'. IsFilled transfer (total + 0) r') same (omega arith, omega arith)
  collect_inputs-IsFilled transfer total (u ∷ us) s {r} h bound filled e =
      let (recorders, recorders_e, e') =
        >>=-eq-ok
          (record_input to_bech32 index_valid amount_valid u.output s.dust_and_allowance_recorders)
          _ e in
      let (input, input_e, e'') = >>=-eq-ok (id index_valid u.output) _ e' in
      let step =
        add_input-IsFilled transfer u.output.amount total (to_bech32 u.output.address)
          (push_input to_bech32 index_valid amount_valid u input recorders s) h (omega arith)
          filled in
      let later =
        collect_inputs-IsFilled transfer (total + u.output.amount) us
          (add_input transfer u.output.amount (to_bech32 u.output.address)
            (push_input to_bech32 index_valid amount_valid u input recorders s))
          h (omega arith) step e'' in
      (omega arith, omega arith)

  -- When the transfer's amount and what the selected outputs hold fit in 64 bits, collecting the
  -- inputs, if it succeeds, pays the transfer before anything remains and loses nothing: the sum
  -- that is paid and the remainder are together what the selected outputs hold, and the remainder
  -- is what they hold above the transfer's amount.
  pub collect-balanced :
      (addresses : List Address) (transfer : Transfer) (input_addresses : List AddressInputs)
      {outputs : List EssenceOutput} {r : Collected}
      → transfer_amount transfer < u64_mod
      → sum_by held input_addresses < u64_mod
      → collect to_bech32 index_valid amount_valid addresses transfer input_addresses
        ≡ ok (outputs, r)
      → (r.current_output_sum + r.remainder_value ≡ sum_by held input_addresses)
        × (r.remainder_value ≡ sum_by held input_addresses - transfer_amount transfer)
  unfolding collect collect_start
  collect-balanced addresses transfer input_addresses {outputs} {r} h bound e =
      let (us, us_e, e1) = >>=-eq-ok (collect_utxos addresses input_addresses) _ e in
      let (os, os_e, e2) =
        >>=-eq-ok (outputs_for_essence to_bech32 index_valid amount_valid transfer.outputs) _ e1 in
      let (c, c_e, e3) =
        >>=-eq-ok
          (collect_inputs to_bech32 index_valid amount_valid (transfer_amount transfer) us
            (collect_start to_bech32 index_valid amount_valid transfer))
          _ e2 in
      let same : c ≡ r = cc in
      let amounts = collect_utxos-amounts addresses input_addresses us us_e in
      let filled =
        collect_inputs-IsFilled (transfer_amount transfer) 0 us
          (collect_start to_bech32 index_valid amount_valid transfer) h (omega arith)
          (refl, omega arith) c_e in
      subst
        (λ r'.
          (r'.current_output_sum + r'.remainder_value ≡ sum_by held input_addresses)
          × (r'.remainder_value ≡ sum_by held input_addresses - transfer_amount transfer))
        same (omega arith, omega arith)
