-- ===== src/Sync/Missing/Complete.antt =====
-- Which key indexes have an address after the generation (src/account/sync/mod.rs).
use wallet_rs.Prelude.{
  ℕ, zero, suc, ◌+◌, ◌-◌, ◌≤◌, ◌<◌, ◌≡◌, ◌⊎◌, refl, ap, subst, inl, inr, Bool, true, false, ◌||◌,
  String, List, arith, ltb, ltb→lt, ◌==◌, Bool-cases, Option-cases, if◌then◌else◌, All, All-mono,
}
use wallet_rs.Error.{Result, ok, >>=-eq-ok, ok_injective}
use wallet_rs.Address.Types.{Address}
use wallet_rs.Account.Types.{Account}
use wallet_rs.Account.Addresses.{max_by_key_index}
use wallet_rs.Account.Addresses.Keys.{HasDistinctKeys}
use wallet_rs.Account.Addresses.Latest.{max_by_key_index-none, max_by_key_index-IsLast, IsLast}
use wallet_rs.Sync.Missing.{
  of_kind, key_or_zero, highest_key, has_gap, first_checked, end_checked, has_key, is_latest_empty,
  push_generated, generate_missing, generate_unused, generate_addresses,
}
use wallet_rs.Sync.Missing.Keeps.{
  push_generated-has_key, generate_missing-cons, generate_missing-keeps, generate_unused-keeps,
}
use wallet_rs.Sync.Missing.Counting.{full-has_key}

-- Without a gap, every key index up to the highest one has an address.
no_gap-has_key :
    (internal : Bool) (l : List Address) (k : ℕ)
    → HasDistinctKeys l
    → has_gap internal l ≡ false
    → k ≤ highest_key internal l
    → has_key internal k l ≡ true
unfolding has_gap IsLast
no_gap-has_key internal l k distinct no_gap le =
    let most : All (λ a. a.key_index < highest_key internal l + 1) (of_kind internal l) =
      elim (Option-cases (max_by_key_index (of_kind internal l))) [
        | inl e ↦ rw (max_by_key_index-none (of_kind internal l) e) tt
        | inr (b, e) ↦
            let last = max_by_key_index-IsLast (of_kind internal l) b e in
            let top : highest_key internal l ≡ b.key_index = ap key_or_zero e in
            All-mono (λ a. a.key_index ≤ b.key_index)
              (λ a. a.key_index < highest_key internal l + 1) (of_kind internal l)
              (λ a h. omega (arith, top, h)) last.1
      ] in
    full-has_key internal (highest_key internal l + 1) k l distinct most (ground arith)
      (omega arith)

module _ (derive : ℕ → Bool → Bool → Result ℕ) (account : Account) (hrp : String) where
  -- The account or the saved addresses have one with the key index.
  abbrev pub Covered : Bool → ℕ → List Address → Type 0
  Covered internal k saved =
      (has_key internal k account.addresses || has_key internal k saved) ≡ true

  Covered-mono :
      (internal : Bool) (k : ℕ) (saved next : List Address)
      → (has_key internal k saved ≡ true → has_key internal k next ≡ true)
      → Covered internal k saved
      → Covered internal k next
  Covered-mono internal k saved next keep h = ground arith

  step-Covered :
      (taken : Bool) (kind : Bool) (key_index : ℕ) (saved : List Address) {next : List Address}
      → ((i : ℕ) → (inner : ℕ) × (derive i kind true ≡ ok inner))
      → (has_key kind key_index account.addresses || has_key kind key_index saved) ≡ taken
      → (if taken then ok saved else push_generated derive account hrp key_index kind saved)
        ≡ ok next
      → Covered kind key_index next
  step-Covered true kind key_index saved works t e =
      subst (Covered kind key_index) (ok_injective e) t
  step-Covered false kind key_index saved {next} works t e =
      let own : has_key kind key_index next ≡ true =
        push_generated-has_key derive account hrp kind key_index saved works e in
      ground arith

  generate_missing-Covered :
      (kind : Bool) (k count key_index : ℕ) (saved : List Address) {result : List Address}
      → ((i : ℕ) → (inner : ℕ) × (derive i kind true ≡ ok inner))
      → generate_missing derive account hrp kind count key_index saved ≡ ok result
      → key_index ≤ k
      → k < key_index + count
      → Covered kind k result
  generate_missing-Covered kind k zero key_index saved works e low high = absurd (omega arith)
  generate_missing-Covered kind k (suc count) key_index saved {result} works e low high =
      let (next, first, more) =
        generate_missing-cons derive account hrp kind count key_index saved e in
      elim (Bool-cases (key_index == k)) [
        | inr later ↦
            generate_missing-Covered kind k count (key_index + 1) next works more (ground arith)
              (ground arith)
        | inl now ↦
            let same : key_index ≡ k = ground arith in
            let covered : Covered kind key_index next =
              step-Covered
                (has_key kind key_index account.addresses || has_key kind key_index saved) kind
                key_index saved works refl first in
            Covered-mono kind k next result
              (generate_missing-keeps derive account hrp kind kind k count (key_index + 1) next
                more)
              (subst (λ j. Covered kind j next) same covered)
      ]

  checked-Covered :
      (kind : Bool) (k : ℕ) (new_addresses saved : List Address) {result : List Address}
      → ((i : ℕ) → (inner : ℕ) × (derive i kind true ≡ ok inner))
      → HasDistinctKeys account.addresses
      → generate_missing derive account hrp kind
          (end_checked kind account.addresses new_addresses - first_checked kind account.addresses)
          (first_checked kind account.addresses)
          saved
        ≡ ok result
      → (k ≤ highest_key kind account.addresses) ⊎ (k < highest_key kind new_addresses)
      → Covered kind k result
  unfolding first_checked end_checked
  checked-Covered kind k new_addresses saved {result} works distinct e bound =
      let from = first_checked kind account.addresses in
      let to = end_checked kind account.addresses new_addresses in
      elim (Bool-cases (has_gap kind account.addresses)) [
        | inl gap ↦
            let start : from ≡ 0 = rw (first_checked, gap) in
            let above : k < to =
              elim (Bool-cases
                (ltb (highest_key kind new_addresses) (highest_key kind account.addresses + 1))) [
                  | inl small ↦
                      let top : to ≡ highest_key kind account.addresses + 1 =
                        rw (end_checked, gap, small) in
                      elim bound [
                        | inl le ↦ omega (arith, top, le)
                        | inr lt ↦ omega (arith, top, lt, ltb→lt _ _ small)
                      ]
                  | inr large ↦
                      let top : to ≡ highest_key kind new_addresses =
                        rw (end_checked, gap, large) in
                      let more : highest_key kind account.addresses + 1
                          ≤ highest_key kind new_addresses =
                        ground arith in
                      elim bound [
                        | inl le ↦ omega (arith, top, le, more)
                        | inr lt ↦ omega (arith, top, lt)
                      ]
                ] in
            generate_missing-Covered kind k (to - from) from saved works e (omega (arith, start))
              (omega (arith, start, above))
        | inr no_gap ↦
            let start : from ≡ highest_key kind account.addresses = rw (first_checked, no_gap) in
            let end : to ≡ highest_key kind new_addresses = rw (end_checked, no_gap) in
            elim (Bool-cases (ltb (highest_key kind account.addresses) k)) [
              | inl beyond ↦
                  let inside : k < highest_key kind new_addresses = elim bound [
                    | inl le ↦ absurd (omega (arith, le, ltb→lt _ _ beyond))
                    | inr lt ↦ lt
                  ] in
                  generate_missing-Covered kind k (to - from) from saved works e
                    (omega (arith, start, ltb→lt _ _ beyond))
                    (omega (arith, start, end, inside, ltb→lt _ _ beyond))
              | inr within ↦
                  let present =
                    no_gap-has_key kind account.addresses k distinct no_gap (ground arith) in
                  rw present refl
            ]
      ]

  -- The generation of addresses leaves no key index without an address: if the key indexes of the
  -- account's addresses are distinct, the signer derives every address and the generation
  -- succeeds, then for each kind of address, every key index up to the highest one of the account,
  -- and every one below the highest of the addresses that were found, has an address in the
  -- account or among the addresses that the generation leaves to be saved.
  pub generate_addresses-Covered :
      (new_addresses : List Address) {result : List Address}
      → ((i : ℕ) (kind : Bool) → (inner : ℕ) × (derive i kind true ≡ ok inner))
      → HasDistinctKeys account.addresses
      → generate_addresses derive account hrp new_addresses ≡ ok result
      → (kind : Bool) (k : ℕ)
      → (k ≤ highest_key kind account.addresses) ⊎ (k < highest_key kind new_addresses)
      → Covered kind k result
  unfolding generate_addresses
  generate_addresses-Covered new_addresses {result} works distinct e kind k bound =
      let latest_public = first_checked false account.addresses in
      let latest_internal = first_checked true account.addresses in
      let max_public = end_checked false account.addresses new_addresses in
      let max_internal = end_checked true account.addresses new_addresses in
      let (with_public, first, e2) =
        >>=-eq-ok
          (generate_missing derive account hrp false (max_public - latest_public) latest_public
            new_addresses)
          _ e in
      let (with_internal, second, e3) =
        >>=-eq-ok
          (generate_missing derive account hrp true (max_internal - latest_internal) latest_internal
            with_public)
          _ e2 in
      let public_empty =
        is_latest_empty false account.addresses latest_public max_public with_internal in
      let internal_empty =
        is_latest_empty true account.addresses latest_internal max_internal with_internal in
      let (with_unused, third, fourth) =
        >>=-eq-ok
          (generate_unused derive account hrp false public_empty latest_public max_public
            with_internal)
          _ e3 in
      let end_keeps : has_key kind k with_internal ≡ true → has_key kind k result ≡ true = λ h.
        generate_unused-keeps derive account hrp kind true internal_empty k latest_internal
          max_internal with_unused fourth
          (generate_unused-keeps derive account hrp kind false public_empty k latest_public
            max_public with_internal third h) in
      let by_kind : (t : Bool)
          → (k ≤ highest_key t account.addresses) ⊎ (k < highest_key t new_addresses)
          → Covered t k with_internal =
        λ t.
          elim t
            as (λ t.
              (k ≤ highest_key t account.addresses) ⊎ (k < highest_key t new_addresses)
              → Covered t k with_internal) [
                | true ↦ λ b.
                    checked-Covered true k new_addresses with_public (λ i. works i true) distinct
                      second b
                | false ↦ λ b.
                    Covered-mono false k with_public with_internal
                      (generate_missing-keeps derive account hrp false true k
                        (max_internal - latest_internal) latest_internal with_public second)
                      (checked-Covered false k new_addresses new_addresses (λ i. works i false)
                        distinct first b)
              ] in
      Covered-mono kind k with_internal result end_keeps (by_kind kind bound)
