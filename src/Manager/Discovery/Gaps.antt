-- ===== src/Manager/Discovery/Gaps.antt =====
-- The indexes of the accounts that a discovery returns (src/account_manager.rs).
use wallet_rs.Prelude.{
  ℕ, zero, suc, ◌+◌, ◌≡◌, refl, sym, ◌∙◌, ap, subst, inl, inr, Bool, false, String, Option, none,
  some, List, [], ◌∷◌, ◌++◌, map, any, ◌==◌, if◌then◌else◌, arith, Bool-cases, Option-cases,
}
use mathlib.Core.List.{append_assoc, append-nil}
use mathlib.Core.Option.{some-injective}
use wallet_rs.Error.{Result, ok, err, Result-cases, ok_injective, >>=-eq-ok}
use wallet_rs.Address.Types.{Address}
use wallet_rs.Message.Types.{Bytes}
use wallet_rs.Account.Types.{Account, SignerType}
use wallet_rs.Sync.Perform.{SyncedAccountData}
use wallet_rs.Manager.Accounts.{AccountManager}
use wallet_rs.Manager.Initialise.Invariant.{new_account-facts}
use wallet_rs.Manager.Initialise.{initialise, new_account}
use wallet_rs.Manager.Discovery.{
  Discovered, index_set, is_empty_data, is_last, discover, discovery_initialiser, account_of_result,
  discover_accounts,
}

-- The numbers below `n` that are not in the list, in their order.
abbrev pub free_below : List ℕ → ℕ → List ℕ
free_below taken zero = []
free_below taken (suc n) =
    if any (λ i. i == n) taken then free_below taken n else free_below taken n ++ (n ∷ [])

free_below-step :
    (taken : List ℕ) (n : ℕ)
    → free_below taken (n + 1)
      ≡ (if any (λ i. i == n) taken then free_below taken n else free_below taken n ++ (n ∷ []))
free_below-step taken n = let e : n + 1 ≡ suc n = omega arith in ap (free_below taken) e

map-append {ℓ κ} :
    {A : Type ℓ} {B : Type κ} (f : A → B) (xs ys : List A) → map f (xs ++ ys) ≡ map f xs ++ map f ys
map-append f [] ys = refl
map-append f (x ∷ xs) ys = ap (◌∷◌ (f x)) (map-append f xs ys)

module _ {M : Type 0} where
  abbrev pub indexes_of : Discovered M → List ℕ
  indexes_of l = map (λ e. e.0.index) l

  -- The accounts are those of all the free indexes up to one.
  abbrev pub HasNoGaps : List ℕ → Discovered M → Type 0
  HasNoGaps taken l = (n : ℕ) × (indexes_of l ≡ free_below taken n)

  module _ (indexes : List ℕ) (threshold : ℕ) (initialise_at : ℕ → Result Account)
      (get_new_history : Account → Option (Result (SyncedAccountData M)))
      (own_index : (i : ℕ) (a : Account) → initialise_at i ≡ ok a → a.index ≡ i) where
    next_free :
        (index : ℕ) (a : Account) (d : SyncedAccountData M) (found : Discovered M)
        → any (λ i. i == index) indexes ≡ false
        → a.index ≡ index
        → indexes_of found ≡ free_below indexes index
        → indexes_of (found ++ ((a, d) ∷ [])) ≡ free_below indexes (index + 1)
    next_free index a d found free own h =
        map-append (λ e. e.0.index) found ((a, d) ∷ [])
        ∙ rw h (rw own (sym (free_below-step indexes index ∙ rw free refl)))

    discover-HasNoGaps :
        (fuel index : ℕ) (empty_accounts synced_accounts : Discovered M) {r : Discovered M}
        → indexes_of (synced_accounts ++ empty_accounts) ≡ free_below indexes index
        → HasNoGaps indexes synced_accounts
        → discover indexes threshold initialise_at get_new_history fuel index empty_accounts
            synced_accounts
          ≡ some (ok r)
        → HasNoGaps indexes r
    unfolding discover
    discover-HasNoGaps zero index empties found {r} all_free gaps h = absurd (cc)
    discover-HasNoGaps (suc fuel) index empties found {r} all_free gaps h =
        elim (Bool-cases (any (λ i. i == index) indexes)) [
          | inl taken ↦
              let step : discover indexes threshold initialise_at get_new_history (suc fuel) index
                    empties found
                  ≡ discover indexes threshold initialise_at get_new_history fuel (index + 1)
                      empties found =
                rw (discover, taken) in
              discover-HasNoGaps fuel (index + 1) empties found
                (all_free ∙ sym (free_below-step indexes index ∙ rw taken refl)) gaps (sym step ∙ h)
          | inr free ↦ elim (Result-cases (initialise_at index)) [
            | inr (er, e) ↦
                let step : discover indexes threshold initialise_at get_new_history (suc fuel) index
                      empties found
                    ≡ some (err er) =
                  rw (discover, free, e) in
                absurd (cc)
            | inl (a, e) ↦ elim (Option-cases (get_new_history a)) [
              | inl none_e ↦
                  let step : discover indexes threshold initialise_at get_new_history (suc fuel)
                        index empties found
                      ≡ none =
                    rw (discover, free, e, none_e) in
                  absurd (cc)
              | inr (err er, some_e) ↦
                  let step : discover indexes threshold initialise_at get_new_history (suc fuel)
                        index empties found
                      ≡ some (ok found) =
                    rw (discover, free, e, some_e) in
                  subst (HasNoGaps indexes) (ok_injective (some-injective _ _ (sym step ∙ h))) gaps
              | inr (ok d, some_e) ↦
                  let more =
                    next_free index a d (found ++ empties) free (own_index index a e) all_free in
                  let more' : indexes_of (found ++ (empties ++ ((a, d) ∷ [])))
                      ≡ free_below indexes (index + 1) =
                    ap indexes_of (sym (append_assoc found empties ((a, d) ∷ []))) ∙ more in
                  elim (Bool-cases (is_empty_data d)) [
                    | inr used ↦
                        let whole = found ++ (empties ++ ((a, d) ∷ [])) in
                        let step : discover indexes threshold initialise_at get_new_history
                              (suc fuel) index empties found
                            ≡ discover indexes threshold initialise_at get_new_history fuel
                                (index + 1) [] whole =
                          rw (discover, free, e, some_e, used) in
                        discover-HasNoGaps fuel (index + 1) [] whole
                          (ap indexes_of (append-nil whole) ∙ more') (index + 1, more')
                          (sym step ∙ h)
                    | inl empty ↦ elim (Bool-cases (is_last indexes threshold index)) [
                      | inl stops ↦
                          let step : discover indexes threshold initialise_at get_new_history
                                (suc fuel) index empties found
                              ≡ some (ok found) =
                            rw (discover, free, e, some_e, empty, stops) in
                          subst (HasNoGaps indexes)
                            (ok_injective (some-injective _ _ (sym step ∙ h))) gaps
                      | inr goes ↦
                          let step : discover indexes threshold initialise_at get_new_history
                                (suc fuel) index empties found
                              ≡ discover indexes threshold initialise_at get_new_history fuel
                                  (index + 1) (empties ++ ((a, d) ∷ [])) found =
                            rw (discover, free, e, some_e, empty, goes) in
                          discover-HasNoGaps fuel (index + 1) (empties ++ ((a, d) ∷ [])) found more'
                            gaps (sym step ∙ h)
                    ]
                  ]
            ]
          ]
        ]

module _ (derive : SignerType → ℕ → ℕ → Bool → Bool → Result ℕ) (network_hrp : Result String)
    (network_name : Bytes → Option String) (account_id : ℕ → String) (default_alias : ℕ → String)
    (storage_path : String) (address_le : Address → Address → Bool) (has_messages : Account → Bool)
    (now : ℕ) (allow_create_multiple_empty_accounts : Bool) where
  -- The initialiser makes the account with the index that it is given.
  initialise-index :
      (client_options : Bytes) (signer_type : Option SignerType) (manager : AccountManager) (i : ℕ)
      (a : Account)
      → account_of_result (
          initialise derive network_hrp network_name account_id default_alias storage_path
            address_le has_messages now allow_create_multiple_empty_accounts
            (discovery_initialiser client_options signer_type i)
            manager)
        ≡ ok a
      → a.index ≡ i
  unfolding initialise
  initialise-index client_options signer_type manager i a h =
      elim (Result-cases (
        initialise derive network_hrp network_name account_id default_alias storage_path address_le
          has_messages now allow_create_multiple_empty_accounts
          (discovery_initialiser client_options signer_type i) manager)) [
            | inr (er, e) ↦
                let bad : err er ≡ ok a = sym (ap account_of_result e) ∙ h in absurd (cc)
            | inl (r, e) ↦
                let (made, first, last) =
                  >>=-eq-ok
                    (new_account derive network_hrp network_name account_id default_alias
                      storage_path address_le has_messages now allow_create_multiple_empty_accounts
                      (discovery_initialiser client_options signer_type i) manager)
                    _ e in
                let facts =
                  new_account-facts derive network_hrp network_name account_id default_alias
                    storage_path address_le has_messages now allow_create_multiple_empty_accounts
                    (discovery_initialiser client_options signer_type i) manager first in
                let is_a : r.0 ≡ a = ok_injective (sym (ap account_of_result e) ∙ h) in
                let is_made : made.0 ≡ r.0 = ap (λ x. x.0) (ok_injective last) in
                ap (λ x. x.index) (sym (is_made ∙ is_a)) ∙ facts.2 i refl
          ]

  module _ {M : Type 0} (get_new_history : Account → Option (Result (SyncedAccountData M))) where
    -- A discovery leaves no gap in the account indexes: if it succeeds, then the accounts that it
    -- returns have, in their order, all the indexes below some bound that no account of the
    -- manager has.
    pub discover_accounts-HasNoGaps :
        (fuel : ℕ) (manager : AccountManager) (threshold : ℕ) (client_options : Bytes)
        (signer_type : Option SignerType) {r : Discovered M}
        → discover_accounts derive network_hrp network_name account_id default_alias storage_path
            address_le has_messages now allow_create_multiple_empty_accounts get_new_history fuel
            manager threshold client_options signer_type
          ≡ some (ok r)
        → HasNoGaps (index_set manager.accounts) r
    unfolding discover_accounts
    discover_accounts-HasNoGaps fuel manager threshold client_options signer_type h =
        discover-HasNoGaps (index_set manager.accounts) threshold
          (λ index. account_of_result (
            initialise derive network_hrp network_name account_id default_alias storage_path
              address_le has_messages now allow_create_multiple_empty_accounts
              (discovery_initialiser client_options signer_type index) manager))
          get_new_history (initialise-index client_options signer_type manager) fuel 0 [] [] refl
          (0, refl) h
