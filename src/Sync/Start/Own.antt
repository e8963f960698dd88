-- ===== src/Sync/Start/Own.antt =====
-- The remainder's address after the checks of `transfer`.
use wallet_rs.Prelude.{
  ℕ, ◌≡◌, ap, inl, inr, Bool, true, Option, none, List, arith, ltb, Bool-cases, ◌∙◌, if◌then◌else◌,
}
use wallet_rs.Error.{Result, ok, >>=-eq-ok, Result-cases, raise_if, insufficient_funds}
use wallet_rs.Address.Types.{AddressWrapper, AddressOutput, Address}
use wallet_rs.Message.Types.{Message}
use wallet_rs.Message.Transfer.{Transfer, RemainderValueStrategy, amount as transfer_amount}
use wallet_rs.Storage.Types.{MessageIndexation}
use wallet_rs.InputSelection.Types.{AddressInputs, Input, Remainder}
use wallet_rs.Account.Types.{Account}
use wallet_rs.Account.Balance.{balance_internal}
use wallet_rs.Sync.Remainder.{is_ledger}
use wallet_rs.Sync.Start.{
  owns, with_reuse, check_strategy, check_transfer, take_inputs, start_transfer,
}

check_strategy-owns :
    (addresses : List Address) (target : AddressWrapper)
    → check_strategy addresses (RemainderValueStrategy.account_address target) ≡ ok tt
    → owns addresses target ≡ true
unfolding check_strategy
check_strategy-owns addresses target h = elim (Bool-cases (owns addresses target)) [
  | inl own ↦ own
  | inr foreign ↦ absurd (ground arith)
]

module _ (index_valid : ℕ → Bool) (shuffle_single shuffle_dust : List Input → List Input)
    (input_output_count_max : ℕ) where
  check_transfer-strategy :
      (account : Account) (ledger_seed : Result (Unit {0})) (messages : List MessageIndexation)
      (sent_messages : List Message) (transfer : Transfer) {u : Unit {0}}
      → check_transfer index_valid shuffle_single shuffle_dust input_output_count_max account
          ledger_seed messages sent_messages transfer
        ≡ ok u
      → check_strategy account.addresses transfer.remainder_value_strategy ≡ ok tt
  unfolding check_transfer
  check_transfer-strategy account ledger_seed messages sent_messages transfer h =
      let (w, w_e, e1) =
        >>=-eq-ok (if is_ledger account.signer_type then ledger_seed else ok tt) _ h in
      let (b, b_e, e2) =
        >>=-eq-ok (balance_internal index_valid account messages sent_messages) _ e1 in
      let (v, v_e, e3) =
        >>=-eq-ok
          (raise_if (ltb b.total (transfer_amount transfer))
            (insufficient_funds b.total (transfer_amount transfer)))
          _ e2 in
      e3

  -- A transfer that was started with an address for its remainder names one of the account's
  -- addresses.
  pub start_transfer-owns :
      (account : Account) (ledger_seed : Result (Unit {0})) (messages : List MessageIndexation)
      (sent_messages : List Message) (transfer : Transfer) (locked : List AddressOutput)
      {started : Transfer} {inputs : List AddressInputs} {remainder : Option Remainder}
      {locked' : List AddressOutput} (target : AddressWrapper)
      → start_transfer index_valid shuffle_single shuffle_dust input_output_count_max account
          ledger_seed messages sent_messages transfer locked
        ≡ (ok (started, inputs, remainder), locked')
      → started.remainder_value_strategy ≡ RemainderValueStrategy.account_address target
      → owns account.addresses target ≡ true
  unfolding start_transfer
  start_transfer-owns account ledger_seed messages sent_messages transfer locked {started} {inputs}
        {remainder} target h is_target =
      let reused = with_reuse account transfer in
      elim (Result-cases (
        check_transfer index_valid shuffle_single shuffle_dust input_output_count_max account
          ledger_seed messages sent_messages reused)) [
            | inr (er, e) ↦ let h' = rw (start_transfer, e) at h in absurd (cc)
            | inl (u, e) ↦
                let taken =
                  take_inputs index_valid shuffle_single shuffle_dust input_output_count_max account
                    sent_messages reused locked in
                let (r, r_e, e1) =
                  >>=-eq-ok taken.0 _ (ap (λ x. x.0) (rw (start_transfer, e) at h)) in
                let same : record reused { input = none } ≡ started = cc in
                let strategy : reused.remainder_value_strategy
                    ≡ RemainderValueStrategy.account_address target =
                  ap (λ t. t.remainder_value_strategy) same ∙ is_target in
                let checked =
                  check_transfer-strategy account ledger_seed messages sent_messages reused e in
                check_strategy-owns account.addresses target (rw strategy at checked)
          ]
