-- ===== src/InputSelection/Search/Soundness.antt =====
-- What `branch_and_bound` selects.
use mathlib.Core.List.{append_assoc, reverse-cons}
use wallet_rs.Prelude.{
  ℕ, ◌+◌, ◌-◌, ◌<◌, ◌≡◌, refl, sym, ap, ◌∙◌, reverse, inl, inr, true, false, List, [], ◌∷◌, ◌++◌,
  arith, add64, add64_exact, u64_mod, sum_by, ltb, ◌==◌, Bool-cases, SubBag, SubBag-nil,
  SubBag-cons, SubBag-skip, if◌then◌else◌,
}
use wallet_rs.InputSelection.Types.{Input, amount_of}
use wallet_rs.InputSelection.Search.Cases.{branch_and_bound-cases}
use wallet_rs.InputSelection.Search.{Found, branch_and_bound, pop}

-- How a call ends: it pushes inputs of its list that reach the target exactly, or it fails and
-- leaves the selection as it was. The head of a selection is the input that was pushed last.
pub data Outcome (target : ℕ) (rest : List Input) (sel : List Input) (eff : ℕ) (r : Found)
    : Type 0 where
  hit :
      (picks : List Input)
      → r.found ≡ true
      → SubBag picks rest
      → r.current_selection ≡ reverse picks ++ sel
      → eff + sum_by amount_of picks ≡ target
      → Outcome target rest sel eff r
  miss : r.found ≡ false → r.current_selection ≡ sel → Outcome target rest sel eff r

Outcome-skip :
    (target : ℕ) (utxo : Input) (rest sel : List Input) (eff : ℕ) {r : Found}
    → Outcome target rest sel eff r
    → Outcome target (utxo ∷ rest) sel eff r
Outcome-skip target utxo rest sel eff (Outcome.hit picks f p q e) =
    Outcome.hit picks f (SubBag-skip utxo picks p) q e
Outcome-skip target utxo rest sel eff (Outcome.miss f q) = Outcome.miss f q

-- The omission branch follows a failed inclusion branch, which left its input on the stack.
after_inclusion :
    (target : ℕ) (utxo : Input) (rest sel : List Input) (eff eff' : ℕ) (i : Found) {r : Found}
    → eff' ≡ eff + amount_of utxo
    → Outcome target rest (utxo ∷ sel) eff' i
    → (pop i.current_selection ≡ sel → Outcome target rest sel eff r)
    → Outcome target (utxo ∷ rest) sel eff (if i.found then i else r)
after_inclusion target utxo rest sel eff eff' i added (Outcome.hit picks f p q e) o = simp f (
    Outcome.hit (utxo ∷ picks) f (SubBag-cons utxo picks p)
      (q
        ∙ sym (append_assoc (reverse picks) (utxo ∷ []) sel)
        ∙ ap (λ l. l ++ sel) (sym (reverse-cons utxo picks)))
      (omega arith))
after_inclusion target utxo rest sel eff eff' i added (Outcome.miss f q) o =
    simp f (Outcome-skip target utxo rest sel eff (o (simp q)))

-- The search, while its sums fit in 64 bits, ends in one of two ways: it found a part of the
-- inputs that together with the sum it was given is exactly the target, and the selection is this
-- part, the last pushed first, followed by the selection it was given; or it found nothing, and
-- leaves the selection as it was.
pub branch_and_bound-Outcome :
    (target : ℕ) (rest sel : List Input) (eff tries : ℕ)
    → eff + sum_by amount_of rest < u64_mod
    → Outcome target rest sel eff (branch_and_bound target rest sel eff tries)
unfolding branch_and_bound
branch_and_bound-Outcome target [] sel eff tries h = elim (Bool-cases (ltb target eff)) [
  | inl over ↦ rw over (Outcome.miss refl refl)
  | inr below ↦ elim (Bool-cases (eff == target)) [
    | inl done ↦ rw (below, done) (Outcome.hit [] refl (SubBag-nil []) refl (ground arith))
    | inr missing ↦ rw (below, missing) (Outcome.miss refl refl)
  ]
]
branch_and_bound-Outcome target (utxo ∷ rest) sel eff tries h =
    let added : add64 eff (amount_of utxo) ≡ eff + amount_of utxo =
      add64_exact eff (amount_of utxo) (omega arith) in
    branch_and_bound-cases target utxo rest sel eff tries (Outcome target (utxo ∷ rest) sel eff)
      (λ _. Outcome.miss refl refl)
      (λ e. Outcome.hit [] refl (SubBag-nil (utxo ∷ rest)) refl (omega arith))
      (λ _. Outcome.miss refl refl)
      (λ _ _.
        after_inclusion target utxo rest sel eff _ _ added
          (branch_and_bound-Outcome target rest (utxo ∷ sel) (add64 eff (amount_of utxo))
            (tries - 1) (omega arith))
          (λ q. rw q (branch_and_bound-Outcome target rest sel eff _ (omega arith))))
