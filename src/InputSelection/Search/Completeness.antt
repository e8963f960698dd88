-- ===== src/InputSelection/Search/Completeness.antt =====
-- The tries of `branch_and_bound`, and exact matches.
use mathlib.Core.List.{Sublistᴰ}
use native.Mathlib.Nat.{pow-suc}
use wallet_rs.Prelude.{
  ℕ, suc, ◌+◌, ◌-◌, ◌*◌, ◌^◌, ◌≤◌, ◌<◌, ◌≡◌, refl, inl, inr, true, false, List, [], ◌∷◌, arith,
  add64, add64_exact, u64_mod, sum_by, length, ltb, Bool-cases, zero, ap, if◌then◌else◌,
}
use wallet_rs.InputSelection.Types.{Input, amount_of}
use wallet_rs.InputSelection.Search.Cases.{included, omitted, branch_and_bound-cases}
use wallet_rs.InputSelection.Search.{Found, branch_and_bound, pop}

-- A power of two is positive.
pow_pos : (n : ℕ) → 0 < 2 ^ n
pow_pos zero = omega arith
pow_pos (suc n) = omega (arith, pow-suc 2 n, pow_pos n)

-- The choice between the two calls has what both of them have.
choice {ℓ} :
    (P : Found → Type ℓ) (i o : Found)
    → (i.found ≡ true → P i)
    → (i.found ≡ false → P o)
    → P (if i.found then i else o)
choice P i o yes_ no_ = elim (Bool-cases i.found) [
  | inl f ↦ simp f (yes_ f)
  | inr f ↦ simp f (no_ f)
]

-- A call uses fewer than 2^n tries on n inputs.
pub tries-branch_and_bound :
    (target : ℕ) (rest sel : List Input) (eff tries : ℕ)
    → tries < (branch_and_bound target rest sel eff tries).tries + 2 ^ length rest
unfolding branch_and_bound
tries-branch_and_bound target [] sel eff tries = elim (Bool-cases (ltb target eff)) [
  | inl over ↦ rw over (omega arith)
  | inr below ↦ rw below (omega arith)
]
tries-branch_and_bound target (utxo ∷ rest) sel eff tries =
    let i = included target utxo rest sel eff tries in
    let used : tries - 1 < i.tries + 2 ^ length rest =
      tries-branch_and_bound target rest (utxo ∷ sel) (add64 eff (amount_of utxo)) (tries - 1) in
    let used_omitted : i.tries < (omitted target utxo rest sel eff tries).tries + 2 ^ length rest =
      tries-branch_and_bound target rest (pop i.current_selection) eff i.tries in
    let double : 2 ^ suc (length rest) ≡ 2 ^ length rest * 2 = pow-suc 2 (length rest) in
    let some_left : 0 < 2 ^ length rest = pow_pos (length rest) in
    branch_and_bound-cases target utxo rest sel eff tries
      (λ r. tries < r.tries + 2 ^ suc (length rest)) (λ _. omega arith) (λ _. omega arith)
      (λ _. omega arith)
      (λ _ _.
        choice (λ r. tries < r.tries + 2 ^ suc (length rest)) i
          (omitted target utxo rest sel eff tries) (λ _. omega arith) (λ _. omega arith))

-- When some of the inputs, in their order, add up to exactly the target with what is already
-- selected, the sums fit in 64 bits, and there are at least 2^n - 1 tries for n inputs, the search
-- succeeds.
pub branch_and_bound-finds :
    (target : ℕ) (rest sel : List Input) (eff tries : ℕ) (picks : List Input)
    → Sublistᴰ picks rest
    → eff + sum_by amount_of picks ≡ target
    → 2 ^ length rest ≤ tries + 1
    → eff + sum_by amount_of rest < u64_mod
    → (branch_and_bound target rest sel eff tries).found ≡ true
unfolding branch_and_bound
branch_and_bound-finds target [] sel eff tries _ Sublistᴰ.slnil e t h = ground arith
branch_and_bound-finds target (utxo ∷ rest) sel eff tries picks (Sublistᴰ.cons p) e t h =
    let i = included target utxo rest sel eff tries in
    let used : tries - 1 < i.tries + 2 ^ length rest =
      tries-branch_and_bound target rest (utxo ∷ sel) (add64 eff (amount_of utxo)) (tries - 1) in
    let double : 2 ^ suc (length rest) ≡ 2 ^ length rest * 2 = pow-suc 2 (length rest) in
    let some_left : 0 < 2 ^ length rest = pow_pos (length rest) in
    branch_and_bound-cases target utxo rest sel eff tries (λ r. r.found ≡ true)
      (λ over. absurd (omega arith)) (λ _. refl) (λ spent. absurd (omega arith))
      (λ _ _.
        choice (λ r. r.found ≡ true) i (omitted target utxo rest sel eff tries) (λ f. f)
          (λ _.
            branch_and_bound-finds target rest (pop i.current_selection) eff i.tries picks p e
              (omega arith) (omega arith)))
branch_and_bound-finds target (utxo ∷ rest) sel eff tries (x ∷ picks) (Sublistᴰ.cons-cons same p) e
      t h =
    let i = included target utxo rest sel eff tries in
    let double : 2 ^ suc (length rest) ≡ 2 ^ length rest * 2 = pow-suc 2 (length rest) in
    let some_left : 0 < 2 ^ length rest = pow_pos (length rest) in
    let added : add64 eff (amount_of utxo) ≡ eff + amount_of utxo =
      add64_exact eff (amount_of utxo) (omega arith) in
    let found : i.found ≡ true =
      branch_and_bound-finds target rest (utxo ∷ sel) (add64 eff (amount_of utxo)) (tries - 1) picks
        p (omega (arith, ap amount_of same)) (omega arith) (omega arith) in
    branch_and_bound-cases target utxo rest sel eff tries (λ r. r.found ≡ true)
      (λ over. absurd (omega arith)) (λ _. refl) (λ spent. absurd (omega arith))
      (λ _ _.
        choice (λ r. r.found ≡ true) i (omitted target utxo rest sel eff tries) (λ f. f)
          (λ f. absurd (cc)))
