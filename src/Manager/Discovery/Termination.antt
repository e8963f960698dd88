-- ===== src/Manager/Discovery/Termination.antt =====
-- When the loop of `discover_accounts` ends (src/account_manager.rs).
use wallet_rs.Prelude.{
  ℕ, zero, suc, ◌+◌, ◌≤◌, ◌<◌, ◌≡◌, sym, ◌∙◌, ap, subst, inl, inr, true, false, Option, some, List,
  [], ◌∷◌, ◌++◌, any, ◌==◌, arith, Bool-cases,
}
use wallet_rs.Error.{Result, ok, err, Result-cases}
use wallet_rs.Account.Types.{Account}
use wallet_rs.Sync.Perform.{SyncedAccountData}
use wallet_rs.Manager.Discovery.{Discovered, is_empty_data, is_last, discover}

module _ {M : Type 0} (indexes : List ℕ) (threshold : ℕ) (initialise_at : ℕ → Result Account)
    (get_new_history : Account → Option (Result (SyncedAccountData M)))
    (answers : (a : Account)
      → (h : Result (SyncedAccountData M)) × (get_new_history a ≡ some h)) where
  -- A free index that the threshold admits as the last one, and whose account is empty, ends the
  -- loop.
  pub discover-terminates :
      (n fuel index : ℕ) (empty_accounts synced_accounts : Discovered M)
      → any (λ i. i == n) indexes ≡ false
      → is_last indexes threshold n ≡ true
      → ((a : Account) (d : SyncedAccountData M)
          → initialise_at n ≡ ok a
          → get_new_history a ≡ some (ok d)
          → is_empty_data d ≡ true)
      → index ≤ n
      → n < index + fuel
      → (r : Result (Discovered M)) × (discover indexes threshold initialise_at get_new_history fuel
            index empty_accounts synced_accounts
          ≡ some r)
  unfolding discover
  discover-terminates n zero index empties found free last quiet le enough = absurd (omega arith)
  discover-terminates n (suc fuel) index empties found free last quiet le enough =
      elim (Bool-cases (any (λ i. i == index) indexes)) [
        | inl taken ↦
            let below : index < n = elim (Bool-cases (index == n)) [
              | inl e ↦
                  let same : index ≡ n = ground arith in
                  let bad : any (λ i. i == n) indexes ≡ true =
                    subst (λ j. any (λ i. i == j) indexes ≡ true) same taken in
                  absurd (cc)
              | inr e ↦ ground arith
            ] in
            let (r, rest) =
              discover-terminates n fuel (index + 1) empties found free last quiet (omega arith)
                (omega arith) in
            (r, rw (discover, taken) rest)
        | inr open_index ↦ elim (Result-cases (initialise_at index)) [
          | inr (er, e) ↦ (err er, rw (discover, open_index, e))
          | inl (a, e) ↦
              let (history, h) = answers a in
              elim (Result-cases history) [
                | inr (er, f) ↦
                    let answer : get_new_history a ≡ some (err er) = h ∙ ap some f in
                    (ok found, rw (discover, open_index, e, answer))
                | inl (d, f) ↦
                    let answer : get_new_history a ≡ some (ok d) = h ∙ ap some f in
                    elim (Bool-cases (index == n)) [
                      | inl at ↦
                          let same : index ≡ n = ground arith in
                          let empty : is_empty_data d ≡ true =
                            quiet a d (ap initialise_at (sym same) ∙ e) answer in
                          let stops : is_last indexes threshold index ≡ true =
                            ap (is_last indexes threshold) same ∙ last in
                          (ok found, rw (discover, open_index, e, answer, empty, stops))
                      | inr before ↦ elim (Bool-cases (is_empty_data d)) [
                        | inr used ↦
                            let (r, rest) =
                              discover-terminates n fuel (index + 1) []
                                (found ++ (empties ++ ((a, d) ∷ []))) free last quiet (ground arith)
                                (omega arith) in
                            (r, rw (discover, open_index, e, answer, used) rest)
                        | inl empty ↦ elim (Bool-cases (is_last indexes threshold index)) [
                          | inl stops ↦
                              (ok found, rw (discover, open_index, e, answer, empty, stops))
                          | inr goes ↦
                              let (r, rest) =
                                discover-terminates n fuel (index + 1) (empties ++ ((a, d) ∷ []))
                                  found free last quiet (ground arith) (omega arith) in
                              (r, rw (discover, open_index, e, answer, empty, goes) rest)
                        ]
                      ]
                    ]
              ]
        ]
      ]
