-- ===== src/Sync/Dust/Limit.antt =====
-- The counts behind `is_dust_allowed`, and its limit.
use text.Mathlib.Text.{◌==◌ as str_eq}
use wallet_rs.Prelude.{
  ℕ, ◌+◌, ◌-◌, ◌*◌, ◌≤◌, ◌<◌, ◌≡◌, refl, ◌⊎◌, inl, inr, Bool, true, false, not, ◌&&◌, some, List,
  [], ◌∷◌, String, arith, find, ltb, leb, bool_eq, Bool-cases, if◌then◌else◌,
}
use wallet_rs.Prelude.Int.{
  ℤ, pos, negsuc, ◌-ℤ◌, ltb_ℤ, pos_part, neg_part, i64_limit, add_i64, sub_i64, as_i64_exact,
  Shifted, add_i64-Shifted, sub_i64-Shifted,
}
use wallet_rs.Error.{Result, ok}
use wallet_rs.Address.Types.{
  AddressWrapper, Address, OutputKind, signature_locked_single, signature_locked_dust_allowance,
  treasury,
}
use wallet_rs.InputSelection.Types.{dust_allowance_value}
use wallet_rs.Sync.Dust.{
  AddressData, DustCount, no_dust, count_transaction, count_address, allowed_dust_amount,
  within_limit, dust_quotient, node_allows, unspent_outputs, outputs_of, is_dust_allowed,
  max_allowed_dust_outputs, dust_divisor,
}

-- The dust outputs, and the amount of the dust allowance outputs, of an address.
abbrev pub dust_outputs : List (ℕ × OutputKind) → ℕ
dust_outputs [] = 0
dust_outputs ((amount, signature_locked_single) ∷ l) =
    if ltb amount dust_allowance_value then 1 + dust_outputs l else dust_outputs l
dust_outputs ((amount, signature_locked_dust_allowance) ∷ l) = dust_outputs l
dust_outputs ((amount, treasury) ∷ l) = dust_outputs l

abbrev pub allowance : List (ℕ × OutputKind) → ℕ
allowance [] = 0
allowance ((amount, signature_locked_single) ∷ l) = allowance l
allowance ((amount, signature_locked_dust_allowance) ∷ l) = amount + allowance l
allowance ((amount, treasury) ∷ l) = allowance l

-- The dust entries, and the amount of the others, with a flag.
abbrev pub entries : Bool → List (ℕ × Bool) → ℕ
entries flag [] = 0
entries flag ((n, created) ∷ l) =
    let later = entries flag l in
    if not (leb dust_allowance_value n) && bool_eq created flag then 1 + later else later

abbrev pub entry_amount : Bool → List (ℕ × Bool) → ℕ
entry_amount flag [] = 0
entry_amount flag ((n, created) ∷ l) =
    let later = entry_amount flag l in
    if leb dust_allowance_value n && bool_eq created flag then n + later else later

-- The entries, and their amounts, keep the two sums of `count_transaction` within an `i64`.
abbrev pub FitsTransaction : DustCount → List (ℕ × Bool) → Type 0
FitsTransaction c l =
    (pos_part c.dust_outputs_amount + entries true l < i64_limit)
    × (neg_part c.dust_outputs_amount + entries false l < i64_limit)
    × (pos_part c.dust_allowance_balance + entry_amount true l < i64_limit)
    × (neg_part c.dust_allowance_balance + entry_amount false l < i64_limit)

count_transaction-counts :
    (c : DustCount) (l : List (ℕ × Bool))
    → FitsTransaction c l
    → Shifted
        (count_transaction c l).dust_outputs_amount
        c.dust_outputs_amount
        (entries true l)
        (entries false l)
      × Shifted
          (count_transaction c l).dust_allowance_balance
          c.dust_allowance_balance
          (entry_amount true l)
          (entry_amount false l)
unfolding count_transaction
count_transaction-counts c [] fits = (ground arith, ground arith)
count_transaction-counts c ((n, true) ∷ l) (p, q, r, t) =
    elim (Bool-cases (leb dust_allowance_value n)) [
      | inl large ↦
          let later : entry_amount true ((n, true) ∷ l) ≡ n + entry_amount true l = simp large in
          let count : entries true ((n, true) ∷ l) ≡ entries true l = simp large in
          let other : entries false ((n, true) ∷ l) ≡ entries false l = simp large in
          let other_amount : entry_amount false ((n, true) ∷ l) ≡ entry_amount false l =
            simp large in
          let moved = add_i64-Shifted c.dust_allowance_balance n (omega arith) (omega arith) in
          let next : DustCount = record c {
            dust_allowance_balance = add_i64 c.dust_allowance_balance (pos n);
          } in
          let (d, b) =
            count_transaction-counts next l (omega arith, omega arith, omega arith, omega arith) in
          simp (large, as_i64_exact n (omega arith)) (ground arith, ground arith)
      | inr small ↦
          let later : entry_amount true ((n, true) ∷ l) ≡ entry_amount true l = simp small in
          let count : entries true ((n, true) ∷ l) ≡ 1 + entries true l = simp small in
          let other : entries false ((n, true) ∷ l) ≡ entries false l = simp small in
          let other_amount : entry_amount false ((n, true) ∷ l) ≡ entry_amount false l =
            simp small in
          let moved = add_i64-Shifted c.dust_outputs_amount 1 (omega arith) (omega arith) in
          let next : DustCount = record c {
            dust_outputs_amount = add_i64 c.dust_outputs_amount (pos 1);
          } in
          let (d, b) =
            count_transaction-counts next l (omega arith, omega arith, omega arith, omega arith) in
          simp small (ground arith, ground arith)
    ]
count_transaction-counts c ((n, false) ∷ l) (p, q, r, t) =
    elim (Bool-cases (leb dust_allowance_value n)) [
      | inl large ↦
          let later : entry_amount false ((n, false) ∷ l) ≡ n + entry_amount false l = simp large in
          let count : entries false ((n, false) ∷ l) ≡ entries false l = simp large in
          let other : entries true ((n, false) ∷ l) ≡ entries true l = simp large in
          let other_amount : entry_amount true ((n, false) ∷ l) ≡ entry_amount true l =
            simp large in
          let moved = sub_i64-Shifted c.dust_allowance_balance n (omega arith) (omega arith) in
          let next : DustCount = record c {
            dust_allowance_balance = sub_i64 c.dust_allowance_balance (pos n);
          } in
          let (d, b) =
            count_transaction-counts next l (omega arith, omega arith, omega arith, omega arith) in
          simp (large, as_i64_exact n (omega arith)) (ground arith, ground arith)
      | inr small ↦
          let later : entry_amount false ((n, false) ∷ l) ≡ entry_amount false l = simp small in
          let count : entries false ((n, false) ∷ l) ≡ 1 + entries false l = simp small in
          let other : entries true ((n, false) ∷ l) ≡ entries true l = simp small in
          let other_amount : entry_amount true ((n, false) ∷ l) ≡ entry_amount true l =
            simp small in
          let moved = sub_i64-Shifted c.dust_outputs_amount 1 (omega arith) (omega arith) in
          let next : DustCount = record c {
            dust_outputs_amount = sub_i64 c.dust_outputs_amount (pos 1);
          } in
          let (d, b) =
            count_transaction-counts next l (omega arith, omega arith, omega arith, omega arith) in
          simp small (ground arith, ground arith)
    ]

-- The same of `count_address`.
abbrev FitsAddress : DustCount → List (ℕ × OutputKind) → Type 0
FitsAddress c l =
    (pos_part c.dust_outputs_amount + dust_outputs l < i64_limit)
    × (neg_part c.dust_outputs_amount < i64_limit)
    × (pos_part c.dust_allowance_balance + allowance l < i64_limit)
    × (neg_part c.dust_allowance_balance < i64_limit)

count_address-counts :
    (c : DustCount) (l : List (ℕ × OutputKind))
    → FitsAddress c l
    → Shifted (count_address c l).dust_outputs_amount c.dust_outputs_amount (dust_outputs l) 0
      × Shifted (count_address c l).dust_allowance_balance c.dust_allowance_balance (allowance l) 0
unfolding count_address
count_address-counts c [] fits = (ground arith, ground arith)
count_address-counts c ((n, signature_locked_single) ∷ l) (p, q, r, t) =
    elim (Bool-cases (ltb n dust_allowance_value)) [
      | inl small ↦
          let more : dust_outputs ((n, signature_locked_single) ∷ l) ≡ 1 + dust_outputs l =
            simp small in
          let moved = add_i64-Shifted c.dust_outputs_amount 1 (omega arith) (omega arith) in
          let next : DustCount = record c {
            dust_outputs_amount = add_i64 c.dust_outputs_amount (pos 1);
          } in
          let (d, b) =
            count_address-counts next l (omega arith, omega arith, omega arith, omega arith) in
          simp small (ground arith, ground arith)
      | inr large ↦
          let same : dust_outputs ((n, signature_locked_single) ∷ l) ≡ dust_outputs l =
            simp large in
          let (d, b) =
            count_address-counts c l (omega arith, omega arith, omega arith, omega arith) in
          simp large (d, b)
    ]
count_address-counts c ((n, signature_locked_dust_allowance) ∷ l) (p, q, r, t) =
    let moved = add_i64-Shifted c.dust_allowance_balance n (omega arith) (omega arith) in
    let next : DustCount = record c {
      dust_allowance_balance = add_i64 c.dust_allowance_balance (pos n);
    } in
    let (d, b) = count_address-counts next l (omega arith, omega arith, omega arith, omega arith) in
    simp (as_i64_exact n (omega arith)) (ground arith, ground arith)
count_address-counts c ((n, treasury) ∷ l) fits = count_address-counts c l fits

-- The final comparison, on the two sums: at most 100 dust outputs, and 100000 of allowance for
-- each.
Allowed : ℤ → ℤ → Type 0
Allowed b d =
    (pos_part d ≤ max_allowed_dust_outputs)
    × ((pos_part d ≡ 0) ⊎ ((pos_part d * dust_divisor ≤ pos_part b) × (neg_part b ≡ 0)))

not_above-Allowed : (b d : ℤ) → ltb_ℤ (allowed_dust_amount b) d ≡ false → Allowed b d
unfolding Allowed allowed_dust_amount dust_quotient ◌-ℤ◌
not_above-Allowed b (negsuc m) h = (omega arith, inl refl)
not_above-Allowed (pos n) (pos m) h = (ground arith, inr (ground arith, refl))
not_above-Allowed (negsuc n) (pos m) h = (ground arith, inl (ground arith))

-- What the outputs count for together: those of the address, and those that the transaction creates
-- and consumes.
abbrev pub dust_before_consumption : List (ℕ × OutputKind) → List (ℕ × Bool) → ℕ
dust_before_consumption held outputs = dust_outputs held + entries true outputs

module _ (to_bech32 : AddressWrapper → String) where
  -- When the address is one of the account's, the node's answer alone does not settle it, and what
  -- is counted, created and consumed apart, is below 2^63, a transaction that is allowed leaves at
  -- most 100 dust outputs on the address, and unless it leaves none, 100000 of dust allowance for
  -- each of them.
  pub is_dust_allowed-limit :
      (addresses : List Address) (d : AddressData) (found : Result (List (ℕ × OutputKind)))
      (address : String) (outputs : List (ℕ × Bool)) {a : Address}
      → find (λ a. str_eq (to_bech32 a.address) address) addresses ≡ some a
      → node_allows d (count_transaction no_dust outputs) ≡ false
      → dust_outputs (unspent_outputs a) + entries true outputs < i64_limit
      → entries false outputs < i64_limit
      → allowance (unspent_outputs a) + entry_amount true outputs < i64_limit
      → entry_amount false outputs < i64_limit
      → is_dust_allowed to_bech32 addresses (ok d) found address outputs ≡ ok tt
      → (dust_before_consumption (unspent_outputs a) outputs
          ≤ entries false outputs + max_allowed_dust_outputs)
        × ((dust_before_consumption (unspent_outputs a) outputs ≤ entries false outputs)
            ⊎ ((dust_before_consumption (unspent_outputs a) outputs - entries false outputs)
                    * dust_divisor
                  + entry_amount false outputs
                ≤ allowance (unspent_outputs a) + entry_amount true outputs))
  unfolding is_dust_allowed outputs_of within_limit Allowed
  is_dust_allowed-limit addresses d found address outputs {a} known not_settled p q r t h =
      let count = count_address (count_transaction no_dust outputs) (unspent_outputs a) in
      let (t_dust, t_balance) =
        count_transaction-counts no_dust outputs
          (omega arith, omega arith, omega arith, omega arith) in
      let (a_dust, a_balance) =
        count_address-counts (count_transaction no_dust outputs) (unspent_outputs a)
          (omega arith, omega arith, omega arith, omega arith) in
      let below : ltb_ℤ (allowed_dust_amount count.dust_allowance_balance) count.dust_outputs_amount
          ≡ false =
        ground (arith, known, not_settled, h) in
      let (few, enough) =
        not_above-Allowed count.dust_allowance_balance count.dust_outputs_amount below in
      (
        omega arith,
        elim enough [
          | inl none_left ↦ inl (omega arith)
          | inr (each, nonneg) ↦
              elim (Bool-cases (
                leb (dust_before_consumption (unspent_outputs a) outputs)
                  (entries false outputs))) [
                    | inl consumed ↦ inl (ground arith)
                    | inr more ↦ inr (ground arith)
                  ]
        ],
      )
