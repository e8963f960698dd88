-- ===== src/Sync/Dust.antt =====
-- `is_dust_allowed` (src/account/sync/mod.rs). What the node answers about the address is an
-- argument: whether it allows dust and its balance, and the outputs that it reports, which are
-- asked for only if the account does not have the address. The bech32 form of an address is a
-- parameter. The sums of the code are `i64`, which wrap around as in a release build.
pub mod Limit
use text.Mathlib.Text.{◌==◌ as str_eq}
use wallet_rs.Prelude.{
  ℕ, ◌+◌, ◌/◌, Bool, true, false, not, ◌&&◌, Option, none, some, List, [], ◌∷◌, String, map, filter,
  find, ltb, leb, ◌==◌, min, if◌then◌else◌,
}
use wallet_rs.Prelude.Int.{
  ℤ, pos, negsuc, ◌-ℤ◌, ltb_ℤ, pos_part, neg_part, as_i64, add_i64, sub_i64,
}
use wallet_rs.Error.{Result, ok, err, ◌>>=◌, dust_error}
use wallet_rs.Address.Types.{
  AddressWrapper, AddressOutput, Address, OutputKind, signature_locked_single,
  signature_locked_dust_allowance, treasury,
}
use wallet_rs.Address.Outputs.{values}
use wallet_rs.InputSelection.Types.{dust_allowance_value}

abbrev pub dust_divisor : ℕ
dust_divisor = 100000

abbrev pub max_allowed_dust_outputs : ℕ
max_allowed_dust_outputs = 100

-- The node's answer on an address.
pub record AddressData : Type 0 where
  pub balance : ℕ
  pub dust_allowed : Bool

-- `dust_allowance_balance` and `dust_outputs_amount`.
pub record DustCount : Type 0 where
  pub dust_allowance_balance : ℤ
  pub dust_outputs_amount : ℤ

abbrev pub no_dust : DustCount
no_dust = record { dust_allowance_balance = pos 0; dust_outputs_amount = pos 0 }

-- `x += sign * n`, where `sign` is 1 or -1
abbrev pub signed : Bool → ℤ → ℤ → ℤ
signed true x n = add_i64 x n
signed false x n = sub_i64 x n

-- The outputs that the transaction creates or consumes.
unfoldable pub count_transaction : DustCount → List (ℕ × Bool) → DustCount
unfolding as_i64 add_i64 sub_i64
count_transaction c [] = c
count_transaction c ((dust, add_outputs) ∷ rest) =
    count_transaction
      (if leb dust_allowance_value dust
        then record c {
          dust_allowance_balance = signed add_outputs c.dust_allowance_balance (as_i64 dust);
        }
        else record c { dust_outputs_amount = signed add_outputs c.dust_outputs_amount (pos 1) })
      rest

-- The outputs that the address has.
unfoldable pub count_address : DustCount → List (ℕ × OutputKind) → DustCount
unfolding as_i64 add_i64
count_address c [] = c
count_address c ((amount, signature_locked_dust_allowance) ∷ rest) =
    count_address
      (record c { dust_allowance_balance = add_i64 c.dust_allowance_balance (as_i64 amount) }) rest
count_address c ((amount, signature_locked_single) ∷ rest) =
    count_address
      (if ltb amount dust_allowance_value
        then record c { dust_outputs_amount = add_i64 c.dust_outputs_amount (pos 1) }
        else c)
      rest
count_address c ((amount, treasury) ∷ rest) = count_address c rest

-- `balance / DUST_DIVISOR`; the division of an `i64` truncates towards zero.
unfoldable pub dust_quotient : ℤ → ℤ
unfolding ◌-ℤ◌
dust_quotient (pos n) = pos (n / dust_divisor)
dust_quotient (negsuc n) = pos 0 -ℤ pos ((n + 1) / dust_divisor)

-- `min(balance / DUST_DIVISOR, MAX)`
unfoldable pub allowed_dust_amount : ℤ → ℤ
unfolding dust_quotient
allowed_dust_amount balance =
    if ltb_ℤ (pos max_allowed_dust_outputs) (dust_quotient balance)
    then pos max_allowed_dust_outputs
    else dust_quotient balance

abbrev pub eq_one : ℤ → Bool
eq_one (pos n) = n == 1
eq_one (negsuc n) = false

abbrev pub is_nonneg : ℤ → Bool
is_nonneg (pos n) = true
is_nonneg (negsuc n) = false

abbrev pub is_nonpos : ℤ → Bool
is_nonpos (pos n) = n == 0
is_nonpos (negsuc n) = true

-- The node allows dust on the address, and one output of it is created there.
abbrev pub node_allows : AddressData → DustCount → Bool
node_allows d count =
    d.dust_allowed
    && eq_one count.dust_outputs_amount
    && is_nonneg count.dust_allowance_balance
    && ltb_ℤ (dust_quotient (as_i64 d.balance)) (pos max_allowed_dust_outputs)

-- The amount and the kind of the unspent outputs.
unfoldable pub unspent_outputs : Address → List (ℕ × OutputKind)
unspent_outputs a = map (λ o. (o.amount, o.kind)) (filter (λ o. not o.is_spent) (values a.outputs))

-- The final comparison.
unfoldable pub within_limit : DustCount → Bool
unfolding allowed_dust_amount
within_limit c = not (ltb_ℤ (allowed_dust_amount c.dust_allowance_balance) c.dust_outputs_amount)

module _ (to_bech32 : AddressWrapper → String) where
  -- The account's own view of the address, or else the node's outputs.
  unfoldable pub outputs_of :
      List Address → Result (List (ℕ × OutputKind)) → String → Result (List (ℕ × OutputKind))
  unfolding unspent_outputs
  outputs_of addresses found_outputs address =
      elim (find (λ a. str_eq (to_bech32 a.address) address) addresses) [
        | some a ↦ ok (unspent_outputs a)
        | none ↦ found_outputs
      ]

  unfoldable pub is_dust_allowed :
      List Address
      → Result AddressData
      → Result (List (ℕ × OutputKind))
      → String
      → List (ℕ × Bool)
      → Result (Unit {0})
  unfolding count_transaction count_address within_limit outputs_of dust_quotient as_i64
  is_dust_allowed addresses address_data found_outputs address outputs =
      let count = count_transaction no_dust outputs in
      let all_outputs = outputs_of addresses found_outputs address in
      address_data >>= λ d.
      if node_allows d count
      then ok tt
      else if not d.dust_allowed
          && eq_one count.dust_outputs_amount
          && is_nonpos count.dust_allowance_balance
      then err (dust_error address)
      else (all_outputs >>= λ held.
          if within_limit (count_address count held) then ok tt else err (dust_error address))
