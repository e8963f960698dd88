-- ===== src/InputSelection/Select/Laws.antt =====
-- What `select_input` returns on each of its paths.
use mathlib.Core.List.{Permᴰ, append-nil, reverse-reverse}
use mathlib.Core.List.Permᴰ
use mathlib.Core.Path.{subst}
use wallet_rs.Prelude.{
  ℕ, ◌+◌, ◌-◌, ◌≤◌, ◌<◌, ◌≡◌, refl, sym, ap, ◌∙◌, inl, inr, Bool, true, false, not, ◌&&◌, List, [],
  ◌++◌, reverse, arith, u64_mod, fold64, fold64_exact, sum_by, sum_by-append, sum_by-perm, length,
  length-SubBag-le, Bool-cases, SubBag, SubBag-append, SubBag-perm, All, ltb, ◌==◌,
}
use wallet_rs.Error.{
  Result, ok, err, insufficient_funds, leaving_dust_error, consolidation_required,
}
use wallet_rs.InputSelection.Types.{
  Input, amount_of, dust_allowance_value, max_input_selection_tries,
}
use wallet_rs.InputSelection.Search.{Found, branch_and_bound}
use wallet_rs.InputSelection.Search.Soundness.{Outcome, branch_and_bound-Outcome}
use wallet_rs.InputSelection.Draw.{single_draw}
use wallet_rs.Address.Types.{OutputKind}
use wallet_rs.InputSelection.Draw.Bounds.{
  LeavesNoDust, IsFirstStop, single_draw-SubBag, single_draw_sum, single_draw-IsFirstStop,
}
use wallet_rs.InputSelection.Select.Order.{
  IsLargestFirst, IsOfKind, sort_inputs-IsLargestFirst, split_outputs-kinds, sorted-kind,
}
use wallet_rs.InputSelection.Select.{
  split_outputs, sort_inputs, search_usable, draw_inputs, choose_inputs, select_input,
}
use wallet_rs.InputSelection.Select.Sorting.{IsSpendable, sort_inputs-perm, split_outputs-perm}

-- A selection that a transaction can use: it is a part of the available inputs, it reaches the
-- target and leaves no dust, and it keeps to the number of inputs.
pub record IsSelection (target : ℕ) (available : List Input) (max_inputs : ℕ) (coins : List Input)
    : Type 0 where
  pub part : SubBag coins available
  pub enough : LeavesNoDust target (sum_by amount_of coins)
  pub bounded : length coins ≤ max_inputs

-- The ways in which a selection ends.
pub data Selects (target : ℕ) (available : List Input) (max_inputs : ℕ) (r : Result (List Input))
    : Type 0 where
  insufficient :
      sum_by amount_of available < target
      → r ≡ err (insufficient_funds (sum_by amount_of available) target)
      → Selects target available max_inputs r
  leaves_dust :
      target < sum_by amount_of available
      → sum_by amount_of available < target + dust_allowance_value
      → r ≡ err (leaving_dust_error (sum_by amount_of available - target))
      → Selects target available max_inputs r
  selected :
      LeavesNoDust target (sum_by amount_of available)
      → (coins : List Input) → IsSelection target available max_inputs coins
      → r ≡ ok coins
      → Selects target available max_inputs r
  too_many :
      LeavesNoDust target (sum_by amount_of available)
      → (single dust : List Input) → Permᴰ (single ++ dust) available
      → All (IsOfKind OutputKind.signature_locked_single) single × IsLargestFirst single
      → All (IsOfKind OutputKind.signature_locked_dust_allowance) dust × IsLargestFirst dust
      → (n : ℕ) → IsFirstStop target (single ++ dust) n
      → max_inputs < n
      → n ≤ length available
      → r ≡ err (consolidation_required n max_inputs)
      → Selects target available max_inputs r

-- What is returned is a usable selection.
pub Selects-ok :
    {target : ℕ} {available : List Input} {max_inputs : ℕ} {r : Result (List Input)}
    (coins : List Input)
    → Selects target available max_inputs r
    → r ≡ ok coins
    → IsSelection target available max_inputs coins
Selects-ok coins (Selects.insufficient _ e) h = absurd (cc)
Selects-ok coins (Selects.leaves_dust _ _ e) h = absurd (cc)
Selects-ok {target} {available} {max_inputs} coins (Selects.selected _ coins' s e) h =
    let same : coins' ≡ coins = cc in subst (IsSelection target available max_inputs) same s
Selects-ok coins (Selects.too_many _ _ _ _ _ _ _ _ _ _ e) h = absurd (cc)

-- The coins of a search that succeeds.
pub search_coins :
    (target : ℕ) (single : List Input) (r : Found)
    → Outcome target single [] 0 r
    → r.found ≡ true
    → SubBag (reverse r.current_selection) single
      × (sum_by amount_of (reverse r.current_selection) ≡ target)
search_coins target single r (Outcome.hit picks f part q e) found =
    let same : reverse r.current_selection ≡ picks =
      ap reverse (q ∙ append-nil (reverse picks)) ∙ reverse-reverse picks in
    rw same (part, omega arith)
search_coins target single r (Outcome.miss f q) found = absurd (cc)

search_usable-facts :
    (target : ℕ) (found : Bool) (coins : List Input) (max_inputs : ℕ)
    → search_usable target found coins max_inputs ≡ true
    → (found ≡ true) × (length coins ≤ max_inputs)
unfolding search_usable
search_usable-facts target found coins max_inputs h = ground arith

-- An exact match within the number of inputs is taken.
pub search_usable-exact :
    (target : ℕ) (coins : List Input) (max_inputs : ℕ)
    → sum_by amount_of coins ≡ target
    → target < u64_mod
    → length coins ≤ max_inputs
    → search_usable target true coins max_inputs ≡ true
unfolding search_usable
search_usable-exact target coins max_inputs e t l =
    ground (arith, fold64_exact amount_of 0 coins (omega arith))

-- The two tests of the balance say that all inputs together would leave no dust.
LeavesNoDust-total :
    (target total : ℕ)
    → ltb total target ≡ false
    → (not (target == total) && ltb (total - target) dust_allowance_value) ≡ false
    → LeavesNoDust target total
LeavesNoDust-total target total covered clean = ground arith

module _ (shuffle_single shuffle_dust : List Input → List Input)
    (single_perm : (l : List Input) → Permᴰ (shuffle_single l) l)
    (dust_perm : (l : List Input) → Permᴰ (shuffle_dust l) l) where
  -- A draw from the two lists in any order.
  draw_of_perm :
      (target : ℕ) (single dust s d : List Input)
      → Permᴰ s single
      → Permᴰ d dust
      → sum_by amount_of (single ++ dust) < u64_mod
      → LeavesNoDust target (sum_by amount_of (single ++ dust))
      → SubBag (single_draw target s d) (single ++ dust)
        × LeavesNoDust target (sum_by amount_of (single_draw target s d))
        × IsFirstStop target (s ++ d) (length (single_draw target s d))
  draw_of_perm target single dust s d p q h total =
      let same : Permᴰ (s ++ d) (single ++ dust) =
        Permᴰ.trans (Permᴰ.append_right d p) (Permᴰ.append_left single q) in
      let sums : sum_by amount_of (s ++ d) ≡ sum_by amount_of (single ++ dust) =
        sum_by-perm amount_of same in
      (
        SubBag-perm _ (single_draw-SubBag target s d) same,
        single_draw_sum target s d (omega arith) (rw sums total),
        single_draw-IsFirstStop target s d (omega arith) (rw sums total),
      )

  draw_inputs-Selects :
      (target : ℕ) (single dust : List Input) (max_inputs : ℕ) {available : List Input}
      → Permᴰ (single ++ dust) available
      → All (IsOfKind OutputKind.signature_locked_single) single
      → All (IsOfKind OutputKind.signature_locked_dust_allowance) dust
      → sum_by amount_of available < u64_mod
      → LeavesNoDust target (sum_by amount_of available)
      → Selects target available max_inputs
          (draw_inputs shuffle_single shuffle_dust target single dust max_inputs)
  unfolding draw_inputs
  draw_inputs-Selects target single dust max_inputs {available} same of_single of_dust h total =
      let s = shuffle_single single in
      let d = shuffle_dust dust in
      let sums : sum_by amount_of (single ++ dust) ≡ sum_by amount_of available =
        sum_by-perm amount_of same in
      let (part, enough, _) =
        draw_of_perm target single dust s d (single_perm single) (dust_perm dust) (omega arith)
          (rw sums total) in
      let p = Permᴰ.trans (sort_inputs-perm s) (single_perm single) in
      let q = Permᴰ.trans (sort_inputs-perm d) (dust_perm dust) in
      let (part', enough', stop') =
        draw_of_perm target single dust (sort_inputs s) (sort_inputs d) p q (omega arith)
          (rw sums total) in
      let sorted : Permᴰ (sort_inputs s ++ sort_inputs d) (single ++ dust) =
        Permᴰ.trans (Permᴰ.append_right (sort_inputs d) p) (Permᴰ.append_left single q) in
      let largest = single_draw target (sort_inputs s) (sort_inputs d) in
      elim (Bool-cases (ltb max_inputs (length (single_draw target s d)))) [
        | inl over ↦ elim (Bool-cases (ltb max_inputs (length largest))) [
          | inl over' ↦
              rw (over, over')
                (Selects.too_many total (sort_inputs s) (sort_inputs d) (Permᴰ.trans sorted same)
                  (
                    sorted-kind OutputKind.signature_locked_single s single (single_perm single)
                        of_single,
                    sort_inputs-IsLargestFirst s,
                  )
                  (
                    sorted-kind OutputKind.signature_locked_dust_allowance d dust (dust_perm dust)
                        of_dust,
                    sort_inputs-IsLargestFirst d,
                  )
                  (length largest) stop' (ground arith)
                  (length-SubBag-le largest (SubBag-perm largest part' same)) refl)
          | inr fits ↦
              rw (over, fits)
                (Selects.selected total largest
                  (record {
                    part = SubBag-perm largest part' same;
                    enough = enough';
                    bounded = ground arith;
                  })
                  refl)
        ]
        | inr fits ↦ rw fits (
            Selects.selected total (single_draw target s d)
              (record {
                part = SubBag-perm (single_draw target s d) part same;
                enough = enough;
                bounded = ground arith;
              })
              refl)
      ]

  choose_inputs-Selects :
      (target : ℕ) (available : List Input) (max_inputs : ℕ)
      → All IsSpendable available
      → sum_by amount_of available < u64_mod
      → LeavesNoDust target (sum_by amount_of available)
      → Selects target available max_inputs
          (choose_inputs shuffle_single shuffle_dust target available max_inputs)
  unfolding choose_inputs
  choose_inputs-Selects target available max_inputs spendable h total =
      let (single, dust) = split_outputs available in
      let r = branch_and_bound target single [] 0 max_input_selection_tries in
      let coins = reverse r.current_selection in
      let same = split_outputs-perm available spendable in
      let (of_single, of_dust) = split_outputs-kinds available in
      let sums : sum_by amount_of single + sum_by amount_of dust ≡ sum_by amount_of available =
        sym (sum_by-append amount_of single dust) ∙ sum_by-perm amount_of same in
      elim (Bool-cases (search_usable target r.found coins max_inputs)) [
        | inl usable ↦
            let (found, fits) = search_usable-facts target r.found coins max_inputs usable in
            let (part, e) =
              search_coins target single r
                (branch_and_bound-Outcome target single [] 0 max_input_selection_tries
                  (omega arith))
                found in
            rw usable (
              Selects.selected total coins
                (record {
                  part = SubBag-perm coins (SubBag-append coins dust part) same;
                  enough = inl e;
                  bounded = fits;
                })
                refl)
        | inr unusable ↦
            rw unusable
              (draw_inputs-Selects target single dust max_inputs same of_single of_dust h total)
      ]

  -- When the random orders only reorder, and the outputs are spendable and fit in 64 bits
  -- together, the selection ends in one of four ways: the funds are insufficient, which is
  -- reported exactly when they are; or together they would leave dust, which is reported; or what
  -- is returned is a part of the available inputs that reaches the target, leaves no dust and
  -- keeps to the number of inputs; or more inputs than the limit are drawn when the single outputs
  -- come before the dust allowance outputs, each kind the largest first, up to the first number of
  -- inputs that reaches the target and leaves no dust, and this number is reported.
  pub select_input-Selects :
      (target : ℕ) (available : List Input) (max_inputs : ℕ)
      → All IsSpendable available
      → sum_by amount_of available < u64_mod
      → Selects target available max_inputs
          (select_input shuffle_single shuffle_dust target available max_inputs)
  unfolding select_input
  select_input-Selects target available max_inputs spendable h =
      let total = fold64 amount_of 0 available in
      let e : total ≡ sum_by amount_of available =
        fold64_exact amount_of 0 available (omega arith) ∙ omega arith in
      elim (Bool-cases (ltb total target)) [
        | inl short ↦ rw short (Selects.insufficient (ground arith) (rw e))
        | inr covered ↦
            elim (Bool-cases (not (target == total) && ltb (total - target) dust_allowance_value)) [
              | inl left ↦
                  rw (covered, left) (Selects.leaves_dust (ground arith) (ground arith) (rw e))
              | inr clean ↦
                  rw (covered, clean)
                    (choose_inputs-Selects target available max_inputs spendable h
                      (rw (← e) (LeavesNoDust-total target total covered clean)))
            ]
      ]
