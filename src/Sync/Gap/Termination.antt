-- ===== src/Sync/Gap/Termination.antt =====
-- When the loop of `check_for_new_used_addresses` ends (src/account/sync/mod.rs).
use wallet_rs.Prelude.{
  ℕ, zero, suc, ◌+◌, ◌≤◌, ◌<◌, ◌≡◌, sym, ◌∙◌, ap, subst, inl, inr, Bool, true, String, Option, none,
  some, List, [], ◌∷◌, ◌++◌, arith, ltb, ltb→lt, Bool-cases, Option-cases, All,
}
use mathlib.Core.Option.{some-injective}
use wallet_rs.Error.{Result, ok, err, ◌>>=◌, >>=-eq-ok, Result-cases, ok_injective}
use wallet_rs.Address.Types.{AddressWrapper, Address}
use wallet_rs.Account.Types.{Account}
use wallet_rs.Sync.Remainder.{bech32_hrp}
use wallet_rs.Sync.Node.{Node, SyncedMessage, Known}
use wallet_rs.Sync.Gap.Fresh.{Untouched, addresses_to_sync-Fresh, sync_address_list-Fresh}
use wallet_rs.Sync.Gap.{
  first_new_index, is_empty_round, get_address_for_sync, gap_addresses, addresses_to_sync,
  sync_address_list, gap_round, gap_search, check_for_new_used_addresses,
}

module _ (index_valid : ℕ → Bool) {M : Type 0} (node : Node M)
    (hex_decode : String → Option (List ℕ)) (to_bech32 : AddressWrapper → String) (known : Known)
    (sync_spent_outputs return_all_addresses : Bool) where
  module _ (derive : ℕ → Bool → Bool → Result ℕ) (locked : Result Bool) (account : Account)
      (internal : Bool) where
    abbrev with_first :
        ℕ
        → AddressWrapper
        → Option (List (ℕ × AddressWrapper))
        → Result (Option (List (ℕ × AddressWrapper)))
    with_first start address later =
        ok (elim later [ none ↦ none | some addresses ↦ some ((start, address) ∷ addresses) ])

    abbrev after_first :
        String → ℕ → ℕ → Option AddressWrapper → Result (Option (List (ℕ × AddressWrapper)))
    after_first hrp count start none = ok none
    after_first hrp count start (some address) =
        gap_addresses derive locked account hrp internal count (start + 1)
        >>= with_first start address

    gap_addresses-Untouched :
        (hrp : String) (n count start : ℕ) {indexed : List (ℕ × AddressWrapper)}
        → ((i : ℕ) (a : AddressWrapper)
            → n ≤ i
            → get_address_for_sync derive locked account hrp i internal ≡ ok (some a)
            → Untouched index_valid node hex_decode to_bech32 known sync_spent_outputs
                return_all_addresses account a)
        → n ≤ start
        → gap_addresses derive locked account hrp internal count start ≡ ok (some indexed)
        → All
            (λ p.
              Untouched index_valid node hex_decode to_bech32 known sync_spent_outputs
                return_all_addresses account p.1)
            indexed
    unfolding gap_addresses
    gap_addresses-Untouched hrp n zero start {indexed} quiet above e =
        let same : [] ≡ indexed = cc in
        subst
          (All (λ p.
            Untouched index_valid node hex_decode to_bech32 known sync_spent_outputs
              return_all_addresses account p.1))
          same tt
    gap_addresses-Untouched hrp n (suc count) start {indexed} quiet above e =
        let (found, own, more) =
          >>=-eq-ok (get_address_for_sync derive locked account hrp start internal) _ e in
        elim (Option-cases found) [
          | inl nothing ↦
              let bad : ok none ≡ ok (some indexed) =
                sym (ap (after_first hrp count start) nothing) ∙ more in
              absurd (cc)
          | inr (address, is_found) ↦
              let rest : after_first hrp count start (some address) ≡ ok (some indexed) =
                sym (ap (after_first hrp count start) is_found) ∙ more in
              let (later, others, last) =
                >>=-eq-ok (gap_addresses derive locked account hrp internal count (start + 1)) _
                  rest in
              let here_quiet : Untouched index_valid node hex_decode to_bech32 known
                  sync_spent_outputs return_all_addresses account address =
                quiet start address above (own ∙ ap ok is_found) in
              elim (Option-cases later) [
                | inl nothing ↦
                    let bad : ok none ≡ ok (some indexed) =
                      sym (ap (with_first start address) nothing) ∙ last in
                    absurd (cc)
                | inr (l, is_l) ↦
                    let whole : ok (some ((start, address) ∷ l)) ≡ ok (some indexed) =
                      sym (ap (with_first start address) is_l) ∙ last in
                    let same : (start, address) ∷ l ≡ indexed =
                      some-injective _ _ (ok_injective whole) in
                    subst
                      (All (λ p.
                        Untouched index_valid node hex_decode to_bech32 known sync_spent_outputs
                          return_all_addresses account p.1))
                      same
                      (
                        here_quiet,
                        gap_addresses-Untouched hrp n count (start + 1) quiet (omega arith)
                            (others ∙ ap ok is_l),
                      )
              ]
        ]

    module _ (gap_limit : ℕ) where
      abbrev Found : Type 0
      Found = List Address × List (SyncedMessage M)

      abbrev after_generated : Option (List (ℕ × AddressWrapper)) → Result (Option Found)
      after_generated none = ok none
      after_generated (some indexed) =
          addresses_to_sync index_valid account internal indexed >>= λ addresses.
          sync_address_list index_valid node hex_decode to_bech32 known sync_spent_outputs
            return_all_addresses addresses
          >>= λ found. ok (some found)

      gap_round-empty :
          (hrp : String) (n start : ℕ) {found : List Address × List (SyncedMessage M)}
          → ((i : ℕ) (a : AddressWrapper)
              → n ≤ i
              → get_address_for_sync derive locked account hrp i internal ≡ ok (some a)
              → Untouched index_valid node hex_decode to_bech32 known sync_spent_outputs
                  return_all_addresses account a)
          → n ≤ start
          → gap_round index_valid node hex_decode to_bech32 known sync_spent_outputs
              return_all_addresses derive locked account internal gap_limit hrp start
            ≡ ok (some found)
          → is_empty_round found.0 found.1 ≡ true
      unfolding gap_round
      gap_round-empty hrp n start {found} quiet above e =
          let (generated, first, more) =
            >>=-eq-ok (gap_addresses derive locked account hrp internal gap_limit start) _ e in
          elim (Option-cases generated) [
            | inl nothing ↦
                let bad : ok none ≡ ok (some found) = sym (ap after_generated nothing) ∙ more in
                absurd (cc)
            | inr (indexed, is_some) ↦
                let rest : after_generated (some indexed) ≡ ok (some found) =
                  sym (ap after_generated is_some) ∙ more in
                let (addresses, built, synced) =
                  >>=-eq-ok (addresses_to_sync index_valid account internal indexed) _ rest in
                let (r, listed, last) =
                  >>=-eq-ok
                    (sync_address_list index_valid node hex_decode to_bech32 known
                      sync_spent_outputs return_all_addresses addresses)
                    _ synced in
                let same : r ≡ found = some-injective _ _ (ok_injective last) in
                subst (λ x. is_empty_round x.0 x.1 ≡ true) same
                  (sync_address_list-Fresh index_valid node hex_decode to_bech32 known
                    sync_spent_outputs return_all_addresses addresses
                    (addresses_to_sync-Fresh index_valid node hex_decode to_bech32 known
                      sync_spent_outputs return_all_addresses account internal indexed
                      (gap_addresses-Untouched hrp n gap_limit start quiet above
                        (first ∙ ap ok is_some))
                      built)
                    listed)
          ]

      gap_search-terminates :
          (n fuel : ℕ) (hrp : String) (start : ℕ) (generated : List Address)
          (found : List (SyncedMessage M))
          → 0 < gap_limit
          → ((i : ℕ) (a : AddressWrapper)
              → n ≤ i
              → get_address_for_sync derive locked account hrp i internal ≡ ok (some a)
              → Untouched index_valid node hex_decode to_bech32 known sync_spent_outputs
                  return_all_addresses account a)
          → 0 < fuel
          → n < start + fuel
          → (r : Result (List Address × List (SyncedMessage M))) × (gap_search index_valid node
                hex_decode to_bech32 known sync_spent_outputs return_all_addresses derive locked
                account internal gap_limit fuel hrp start generated found
              ≡ some r)
      unfolding gap_search
      gap_search-terminates n zero hrp start generated found positive quiet some_fuel enough =
          absurd (omega arith)
      gap_search-terminates n (suc fuel) hrp start generated found positive quiet some_fuel enough =
          elim (Result-cases (
            gap_round index_valid node hex_decode to_bech32 known sync_spent_outputs
              return_all_addresses derive locked account internal gap_limit hrp start)) [
                | inr (er, e) ↦ (err er, rw (gap_search, e))
                | inl (answer, e) ↦ elim (Option-cases answer) [
                  | inl nothing ↦
                      (ok (generated, found), let shut = e ∙ ap ok nothing in rw (gap_search, shut))
                  | inr (r, is_some) ↦ elim (Bool-cases (is_empty_round r.0 r.1)) [
                    | inl stop ↦ (
                      ok (generated ++ r.0, found ++ r.1),
                      let opened = e ∙ ap ok is_some in rw (gap_search, opened, stop),
                    )
                    | inr go ↦
                        let below : start < n = elim (Bool-cases (ltb start n)) [
                          | inl lt ↦ ltb→lt start n lt
                          | inr ge ↦
                              let empty : is_empty_round r.0 r.1 ≡ true =
                                gap_round-empty hrp n start quiet (ground arith)
                                  (e ∙ ap ok is_some) in
                              absurd (cc)
                        ] in
                        let (x, rest) =
                          gap_search-terminates n fuel hrp (start + gap_limit) (generated ++ r.0)
                            (found ++ r.1) positive quiet (omega arith) (omega arith) in
                        (x, let opened = e ∙ ap ok is_some in rw (gap_search, opened, go) rest)
                  ]
                ]
              ]

      -- The search for used addresses ends: if from some index `n` on neither the node nor the
      -- account has outputs of the addresses, and the gap limit is positive, then the loop has a
      -- result after at most as many turns as there are indexes from the first new one to `n`, and
      -- one more.
      pub check_for_new_used_addresses-terminates :
          (n fuel : ℕ)
          → 0 < gap_limit
          → ((hrp : String) (i : ℕ) (a : AddressWrapper)
              → n ≤ i
              → get_address_for_sync derive locked account hrp i internal ≡ ok (some a)
              → Untouched index_valid node hex_decode to_bech32 known sync_spent_outputs
                  return_all_addresses account a)
          → 0 < fuel
          → n < first_new_index account internal + fuel
          → (r : Result (List Address × List (SyncedMessage M))) × (check_for_new_used_addresses
                index_valid node hex_decode to_bech32 known sync_spent_outputs return_all_addresses
                derive locked account internal gap_limit fuel
              ≡ some r)
      unfolding check_for_new_used_addresses
      check_for_new_used_addresses-terminates n fuel positive quiet some_fuel enough =
          elim (Result-cases (bech32_hrp account)) [
            | inr (er, e) ↦ (err er, rw (check_for_new_used_addresses, e))
            | inl (hrp, e) ↦
                let (r, found) =
                  gap_search-terminates n fuel hrp (first_new_index account internal) [] [] positive
                    (quiet hrp) some_fuel enough in
                (r, rw (check_for_new_used_addresses, e) found)
          ]
