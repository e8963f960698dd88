-- ===== src/Account/Balance/Bound.antt =====
-- The total and the available balance of `balance_internal` (src/account/mod.rs).
use wallet_rs.Prelude.{
  filter, ◌∙◌, ℕ, ◌+◌, ◌≤◌, ◌<◌, ◌≡◌, refl, Bool, List, [], ◌∷◌, arith, u64_mod, add64, add64_exact,
  sum_by, fold64, fold64_exact, All,
}
use wallet_rs.Error.{ok}
use wallet_rs.Address.Types.{Address}
use wallet_rs.Address.Outputs.{values, balance}
use wallet_rs.Address.Outputs.Available.{
  HasValidIndex, unspent_amount, available_balance-le-balance,
}
use wallet_rs.Message.Types.{Message}
use wallet_rs.Storage.Types.{MessageIndexation}
use wallet_rs.Account.Types.{Account, AccountBalance}
use wallet_rs.Account.Balance.{is_some_true, add_messages, add_available, balance_internal}

-- What the unspent outputs of an address hold.
abbrev pub holdings : Address → ℕ
holdings a = sum_by unspent_amount (values a.outputs)

balance-eq : (a : Address) → holdings a < u64_mod → balance a ≡ holdings a
unfolding balance
balance-eq a h = fold64_exact unspent_amount 0 (values a.outputs) (omega arith) ∙ omega arith

sum_by_le_holdings :
    (l : List Address) → sum_by holdings l < u64_mod → sum_by balance l ≡ sum_by holdings l
sum_by_le_holdings [] h = refl
sum_by_le_holdings (a ∷ rest) h =
    let e = balance-eq a (omega arith) in
    let r = sum_by_le_holdings rest (omega arith) in omega arith

module _ (index_valid : ℕ → Bool) where
  abbrev pub HasValidOutputs : Address → Type 0
  HasValidOutputs a = All (HasValidIndex index_valid) (values a.outputs)

  add_available-le :
      (messages : List Message) (sum : ℕ) (l : List Address)
      → All HasValidOutputs l
      → sum + sum_by holdings l < u64_mod
      → (b : ℕ) × (add_available index_valid messages sum l ≡ ok b) × (b ≤ sum + sum_by holdings l)
  unfolding add_available
  add_available-le messages sum [] valid h = (sum, refl, omega arith)
  add_available-le messages sum (a ∷ rest) valid h =
      let (v, v_e, v_le) =
        available_balance-le-balance index_valid a messages valid.0 (omega arith) in
      let e = balance-eq a (omega arith) in
      let exact = add64_exact sum v (omega arith) in
      let (b, b_e, b_le) = add_available-le messages (add64 sum v) rest valid.1 (omega arith) in
      (b, rw v_e b_e, omega arith)

  -- When the outputs have valid indexes and their unspent amounts fit in 64 bits together, the
  -- balance is computed, its total is the sum of the unspent amounts, and the available balance is
  -- at most the total.
  pub balance_internal-available-le-total :
      (account : Account) (messages : List MessageIndexation) (sent_messages : List Message)
      → All HasValidOutputs account.addresses
      → sum_by holdings account.addresses < u64_mod
      → (r : AccountBalance) × (balance_internal index_valid account messages sent_messages ≡ ok r)
        × (r.total ≡ sum_by holdings account.addresses)
        × (r.available ≤ r.total)
  unfolding balance_internal
  balance_internal-available-le-total account messages sent_messages valid h =
      let (b, b_e, b_le) = add_available-le sent_messages 0 account.addresses valid (omega arith) in
      let sums = sum_by_le_holdings account.addresses h in
      let total = fold64_exact balance 0 account.addresses (omega arith) in
      let confirmed = add_messages (0, 0) (filter (λ m. is_some_true m.confirmed) messages) in
      let r : AccountBalance = record {
        total = fold64 balance 0 account.addresses;
        available = b;
        incoming = confirmed.0;
        outgoing = confirmed.1;
      } in
      (r, simp b_e, omega arith, omega arith)
