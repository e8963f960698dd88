-- ===== src/InputSelection/Search/Cases.antt =====
-- The four ways in which a call of `branch_and_bound` at an input goes on.
use wallet_rs.Prelude.{
  ℕ, ◌-◌, ◌<◌, ◌≡◌, inl, inr, true, false, List, ◌∷◌, arith, add64, ltb, ◌==◌, Bool-cases,
  if◌then◌else◌,
}
use wallet_rs.InputSelection.Types.{Input, amount_of}
use wallet_rs.InputSelection.Search.{Found, branch_and_bound, pop}

module _ (target : ℕ) (utxo : Input) (rest sel : List Input) (eff tries : ℕ) where
  -- the call that includes the input
  abbrev pub included : Found
  included = branch_and_bound target rest (utxo ∷ sel) (add64 eff (amount_of utxo)) (tries - 1)

  -- the call that leaves it out
  abbrev pub omitted : Found
  omitted = branch_and_bound target rest (pop included.current_selection) eff included.tries

  pub branch_and_bound-cases {ℓ} :
      (P : Found → Type ℓ)
      → (target < eff → P (record { found = false; current_selection = sel; tries = tries }))
      → (eff ≡ target → P (record { found = true; current_selection = sel; tries = tries }))
      → (tries ≡ 0 → P (record { found = false; current_selection = sel; tries = tries }))
      → (eff < target → 0 < tries → P (if included.found then included else omitted))
      → P (branch_and_bound target (utxo ∷ rest) sel eff tries)
  unfolding branch_and_bound
  branch_and_bound-cases P over exact spent search = elim (Bool-cases (ltb target eff)) [
    | inl o ↦ rw o (over (ground arith))
    | inr below ↦ elim (Bool-cases (eff == target)) [
      | inl e ↦ rw (below, e) (exact (ground arith))
      | inr missing ↦ elim (Bool-cases (tries == 0)) [
        | inl s ↦ rw (below, missing, s) (spent (ground arith))
        | inr left ↦ rw (below, missing, left) (search (ground arith) (ground arith))
      ]
    ]
  ]
