-- ===== src/Sync/Remainder/Balance.antt =====
-- The sums of a prepared transaction, and the address of its remainder.
use wallet_rs.Prelude.{
  ℕ, ◌+◌, ◌≤◌, ◌<◌, ◌≡◌, ◌≢◌, refl, subst, ap, inl, inr, Bool, true, Option, none, some, List, [],
  ◌∷◌, ◌++◌, arith, u64_mod, String, sum_by, sum_by-append, fold64_exact, Bool-cases, ltb, any,
  find,
}
use wallet_rs.Error.{Error, Result, ok, >>=-eq-ok, ok_or, panic}
use wallet_rs.Address.Types.{
  AddressWrapper, OutputKind, Address, address_eq, address_eq_iff, signature_locked_single,
  signature_locked_dust_allowance, treasury,
}
use wallet_rs.Message.Transfer.{
  Transfer, TransferOutput, RemainderValueStrategy, amount as transfer_amount,
}
use wallet_rs.InputSelection.Types.{AddressInputs, Remainder}
use wallet_rs.Account.Types.{Account}
use wallet_rs.Account.Addresses.{append_address, append_addresses}
use wallet_rs.Sync.Collect.{
  EssenceOutput, Collected, DustRecord, essence_output, outputs_for_essence, collect_utxos,
  collect_inputs, collect_start, collect,
}
use wallet_rs.Sync.Collect.Sums.{held, collect-balanced}
use wallet_rs.Sync.Remainder.{
  Deposit, change_address_for, deposit_for, choose_deposit, add_remainder, prepare,
}

-- One of the addresses is this one.
abbrev pub has_address : List Address → AddressWrapper → Bool
has_address addresses w = any (λ a. address_eq a.address w) addresses

has_address-append_address :
    (l : List Address) (a : Address) → has_address (append_address l a) a.address ≡ true
unfolding append_address
has_address-append_address [] a =
    let same = (address_eq_iff a.address a.address).1 refl in ground arith
has_address-append_address (x ∷ l) a =
    let same = (address_eq_iff a.address a.address).1 refl in
    ground (arith, has_address-append_address l a)

has_address-find :
    (l : List Address) (w : AddressWrapper) {a : Address}
    → find (λ x. address_eq x.address w) l ≡ some a
    → has_address l a.address ≡ true
has_address-find [] w e = absurd (cc)
has_address-find (x ∷ l) w {a} e = elim (Bool-cases (address_eq x.address w)) [
  | inl found ↦
      let same : x ≡ a = ground arith in
      let is_a = (address_eq_iff x.address a.address).1 (ap (λ z. z.address) same) in ground arith
  | inr other ↦ let later = has_address-find l w {a = a} (ground arith) in ground arith
]

ok_or-some : {A : Type 0} (m : Option A) (e : Error) {a : A} → ok_or m e ≡ ok a → m ≡ some a
ok_or-some none e h = absurd (cc)
ok_or-some (some b) e h = cc

module _ (to_bech32 : AddressWrapper → String) (index_valid amount_valid : ℕ → Bool) where
  essence_output-amount :
      (kind : OutputKind) (address : AddressWrapper) (n : ℕ) {o : EssenceOutput}
      → essence_output to_bech32 index_valid amount_valid kind address n ≡ ok o
      → o.amount ≡ n
  unfolding essence_output
  essence_output-amount signature_locked_single address n e = ground arith
  essence_output-amount signature_locked_dust_allowance address n e = ground arith
  essence_output-amount treasury address n e = absurd (cc)

  outputs_for_essence-sum :
      (l : List TransferOutput) {os : List EssenceOutput}
      → outputs_for_essence to_bech32 index_valid amount_valid l ≡ ok os
      → sum_by (λ o. o.amount) os ≡ sum_by (λ o. o.amount) l
  unfolding outputs_for_essence
  outputs_for_essence-sum [] {os} e = let same : os ≡ [] = cc in rw same
  outputs_for_essence-sum (o ∷ l) {os} e =
      let (x, x_e, e1) =
        >>=-eq-ok
          (essence_output to_bech32 index_valid amount_valid o.output_kind o.address o.amount) _
          e in
      let (xs, xs_e, e2) =
        >>=-eq-ok (outputs_for_essence to_bech32 index_valid amount_valid l) _ e1 in
      let same : os ≡ x ∷ xs = cc in
      let first = essence_output-amount o.output_kind o.address o.amount x_e in
      let rest = outputs_for_essence-sum l xs_e in rw same (omega arith)

  collect-sum :
      (addresses : List Address) (transfer : Transfer) (input_addresses : List AddressInputs)
      {os : List EssenceOutput} {c : Collected}
      → collect to_bech32 index_valid amount_valid addresses transfer input_addresses ≡ ok (os, c)
      → sum_by (λ o. o.amount) os ≡ sum_by (λ o. o.amount) transfer.outputs
  unfolding collect
  collect-sum addresses transfer input_addresses {os} {c} e =
      let (us, us_e, e1) = >>=-eq-ok (collect_utxos addresses input_addresses) _ e in
      let (xs, xs_e, e2) =
        >>=-eq-ok (outputs_for_essence to_bech32 index_valid amount_valid transfer.outputs) _ e1 in
      let (r, r_e, e3) =
        >>=-eq-ok
          (collect_inputs to_bech32 index_valid amount_valid (transfer_amount transfer) us
            (collect_start to_bech32 index_valid amount_valid transfer))
          _ e2 in
      let same : xs ≡ os = cc in
      subst (λ l. sum_by (λ o. o.amount) l ≡ sum_by (λ o. o.amount) transfer.outputs) same
        (outputs_for_essence-sum transfer.outputs xs_e)

  module _ (derive : ℕ → Bool → Bool → Result ℕ) where
    choose_deposit-none :
        (account : Account) (strategy : RemainderValueStrategy) (r : Option Remainder) (v : ℕ)
        → choose_deposit derive account strategy r v ≡ ok none
        → v ≡ 0
    unfolding choose_deposit
    choose_deposit-none account strategy r v e = elim (Bool-cases (ltb 0 v)) [
      | inr zero_left ↦ ground arith
      | inl above ↦
          let (remainder, remainder_e, e1) = >>=-eq-ok (ok_or r panic) _ (rw above at e) in
          let (source, source_e, e2) =
            >>=-eq-ok
              (ok_or (find (λ a. address_eq a.address remainder.address) account.addresses) panic) _
              e1 in
          let (deposit, deposit_e, e3) =
            >>=-eq-ok (deposit_for derive account strategy source.address) _ e2 in
          absurd (cc)
    ]

    add_remainder-sum :
        (account : Account) (strategy : RemainderValueStrategy) (r : Option Remainder)
        (deposit : Option Deposit) (os : List EssenceOutput) (c : Collected)
        {x : List EssenceOutput × List DustRecord}
        → choose_deposit derive account strategy r c.remainder_value ≡ ok deposit
        → add_remainder derive to_bech32 index_valid amount_valid deposit os c ≡ ok x
        → sum_by (λ o. o.amount) x.0 ≡ sum_by (λ o. o.amount) os + c.remainder_value
    unfolding add_remainder
    add_remainder-sum account strategy r none os c {x} d e =
        let zero_left = choose_deposit-none account strategy r c.remainder_value d in
        let same : x.0 ≡ os = cc in rw same (omega arith)
    add_remainder-sum account strategy r (some deposit) os c {x} d e =
        let (o, o_e, e1) =
          >>=-eq-ok
            (essence_output to_bech32 index_valid amount_valid signature_locked_single
              deposit.address c.remainder_value)
            _ e in
        let same : x.0 ≡ os ++ (o ∷ []) = cc in
        let value =
          essence_output-amount signature_locked_single deposit.address c.remainder_value o_e in
        let both = sum_by-append (λ o. o.amount) os (o ∷ []) in rw same (omega arith)

    deposit_for-own :
        (account : Account) (strategy : RemainderValueStrategy) (source : AddressWrapper)
        {d : Deposit}
        → ((target : AddressWrapper) → strategy ≢ RemainderValueStrategy.account_address target)
        → has_address account.addresses source ≡ true
        → deposit_for derive account strategy source ≡ ok d
        → has_address d.account.addresses d.address ≡ true
    unfolding deposit_for append_addresses
    deposit_for-own account (RemainderValueStrategy.account_address target) source own has e =
        absurd (own target refl)
    deposit_for-own account RemainderValueStrategy.change_address source {d} own has e =
        let (change, change_e, e1) = >>=-eq-ok (change_address_for derive account) _ e in
        let found = has_address-append_address account.addresses change in
        let addresses : d.account.addresses ≡ append_address account.addresses change = cc in
        let target : d.address ≡ change.address = cc in rw (addresses, target) found
    deposit_for-own account RemainderValueStrategy.reuse_address source {d} own has e =
        let addresses : d.account.addresses ≡ account.addresses = cc in
        let target : d.address ≡ source = cc in rw (addresses, target) has

    -- When the transfer's amounts fit in 64 bits together, what the selected outputs hold does too,
    -- and this is enough for the transfer, a transaction that is prepared pays out exactly what its
    -- inputs hold: the transfer's outputs and the remainder together.
    pub prepare-balanced :
        (account : Account) (transfer : Transfer) (input_addresses : List AddressInputs)
        (remainder_address : Option Remainder) {outputs : List EssenceOutput}
        {recorders : List DustRecord} {c : Collected} {deposit : Option Deposit}
        → sum_by (λ o. o.amount) transfer.outputs < u64_mod
        → sum_by held input_addresses < u64_mod
        → sum_by (λ o. o.amount) transfer.outputs ≤ sum_by held input_addresses
        → prepare derive to_bech32 index_valid amount_valid account transfer input_addresses
            remainder_address
          ≡ ok (outputs, recorders, c, deposit)
        → sum_by (λ o. o.amount) outputs ≡ sum_by held input_addresses
    unfolding prepare collect transfer_amount
    prepare-balanced account transfer input_addresses remainder_address {outputs} {recorders} {c}
          {deposit} h1 h2 enough e =
        let ((os, c'), collect_e, e1) =
          >>=-eq-ok
            (collect to_bech32 index_valid amount_valid account.addresses transfer input_addresses)
            _ e in
        let (d, d_e, e2) =
          >>=-eq-ok
            (choose_deposit derive account transfer.remainder_value_strategy remainder_address
              c'.remainder_value)
            _ e1 in
        let (x, x_e, e3) =
          >>=-eq-ok (add_remainder derive to_bech32 index_valid amount_valid d os c') _ e2 in
        let same : x.0 ≡ outputs = cc in
        let amount = fold64_exact (λ o. o.amount) 0 transfer.outputs (omega arith) in
        let sums =
          collect-balanced to_bech32 index_valid amount_valid account.addresses transfer
            input_addresses (omega arith) h2 collect_e in
        let paid = collect-sum account.addresses transfer input_addresses collect_e in
        let all =
          add_remainder-sum account transfer.remainder_value_strategy remainder_address d os c' d_e
            x_e in
        subst (λ l. sum_by (λ o. o.amount) l ≡ sum_by held input_addresses) same (omega arith)

    -- Unless the transfer names an address for it, the remainder goes to an address that the
    -- account then has.
    pub choose_deposit-own :
        (account : Account) (strategy : RemainderValueStrategy)
        (remainder_address : Option Remainder) (remainder_value : ℕ) {deposit : Deposit}
        → ((target : AddressWrapper) → strategy ≢ RemainderValueStrategy.account_address target)
        → choose_deposit derive account strategy remainder_address remainder_value
          ≡ ok (some deposit)
        → has_address deposit.account.addresses deposit.address ≡ true
    unfolding choose_deposit
    choose_deposit-own account strategy r v {deposit} own e = elim (Bool-cases (ltb 0 v)) [
      | inr zero_left ↦ absurd (ground arith)
      | inl above ↦
          let (remainder, remainder_e, e1) = >>=-eq-ok (ok_or r panic) _ (rw above at e) in
          let (source, source_e, e2) =
            >>=-eq-ok
              (ok_or (find (λ a. address_eq a.address remainder.address) account.addresses) panic) _
              e1 in
          let (d, d_e, e3) = >>=-eq-ok (deposit_for derive account strategy source.address) _ e2 in
          let same : d ≡ deposit = cc in
          let has =
            has_address-find account.addresses remainder.address (ok_or-some _ _ source_e) in
          subst (λ x. has_address x.account.addresses x.address ≡ true) same
            (deposit_for-own account strategy source.address own has d_e)
    ]
