-- ===== src/InputSelection/Draw/Bounds.antt =====
-- What `single_draw` takes, and the sum that it reaches.
use wallet_rs.Prelude.{
  ℕ, ◌+◌, ◌≤◌, ◌<◌, ◌≡◌, zero, suc, refl, ap, subst, take, length, inl, inr, ◌⊎◌, true, false, List,
  [], ◌∷◌, ◌++◌, arith, add64, add64_exact, u64_mod, sum_by, Bool-cases, SubBag, SubBag-nil,
  SubBag-cons,
}
use wallet_rs.InputSelection.Types.{Input, amount_of, dust_allowance_value}
use wallet_rs.InputSelection.Draw.{needs_more, draw_from, single_draw}

-- A sum that leaves no dust behind: the target itself, or at least the dust allowance above it.
abbrev pub LeavesNoDust : ℕ → ℕ → Type 0
LeavesNoDust target sum = (sum ≡ target) ⊎ (target + dust_allowance_value ≤ sum)

needs_more_stops : (target sum : ℕ) → needs_more target sum ≡ false → LeavesNoDust target sum
unfolding needs_more
needs_more_stops target sum h = ground arith

draw_from-SubBag :
    (target sum : ℕ) (inputs : List Input) → SubBag (draw_from target sum inputs) inputs
unfolding draw_from
draw_from-SubBag target sum [] = SubBag-nil []
draw_from-SubBag target sum (input ∷ rest) = elim (Bool-cases (needs_more target sum)) [
  | inl more ↦
      rw more (SubBag-cons input _ (draw_from-SubBag target (add64 sum (amount_of input)) rest))
  | inr stop ↦ rw stop (SubBag-nil (input ∷ rest))
]

-- The draw ends at a sum without dust, or has taken everything.
draw_from_sum :
    (target sum : ℕ) (inputs : List Input)
    → sum + sum_by amount_of inputs < u64_mod
    → LeavesNoDust target (sum + sum_by amount_of (draw_from target sum inputs))
      ⊎ (draw_from target sum inputs ≡ inputs)
unfolding draw_from
draw_from_sum target sum [] h = inr refl
draw_from_sum target sum (input ∷ rest) h = elim (Bool-cases (needs_more target sum)) [
  | inl more ↦
      let added : add64 sum (amount_of input) ≡ sum + amount_of input =
        add64_exact sum (amount_of input) (omega arith) in
      rw more (elim (draw_from_sum target (add64 sum (amount_of input)) rest (omega arith)) [
        | inl (inl exact) ↦ inl (inl (omega arith))
        | inl (inr above) ↦ inl (inr (omega arith))
        | inr all_taken ↦ inr (ap (◌∷◌ input) all_taken)
      ])
  | inr stop ↦ rw stop (
      inl (elim (needs_more_stops target sum stop) [
        | inl exact ↦ inl (omega arith)
        | inr above ↦ inr (omega arith)
      ]))
]

pub single_draw-SubBag :
    (target : ℕ) (signature_locked dust_allowance : List Input)
    → SubBag
        (single_draw target signature_locked dust_allowance)
        (signature_locked ++ dust_allowance)
unfolding single_draw
single_draw-SubBag target s d = draw_from-SubBag target 0 (s ++ d)

-- If all inputs together fit in 64 bits and reach the target without leaving dust, then so does the
-- draw.
pub single_draw_sum :
    (target : ℕ) (signature_locked dust_allowance : List Input)
    → sum_by amount_of (signature_locked ++ dust_allowance) < u64_mod
    → LeavesNoDust target (sum_by amount_of (signature_locked ++ dust_allowance))
    → LeavesNoDust target (sum_by amount_of (single_draw target signature_locked dust_allowance))
unfolding single_draw
single_draw_sum target s d h total = elim (draw_from_sum target 0 (s ++ d) (omega arith)) [
  | inl (inl exact) ↦ inl (omega arith)
  | inl (inr above) ↦ inr (omega arith)
  | inr all_taken ↦ rw all_taken total
]

-- `n` is the first number of inputs that leaves no dust, when they are taken in their order.
abbrev pub IsFirstStop : ℕ → List Input → ℕ → Type 0
IsFirstStop target inputs n =
    LeavesNoDust target (sum_by amount_of (take n inputs))
    × ((k : ℕ) → k < n → ¬ LeavesNoDust target (sum_by amount_of (take k inputs)))

needs_more_goes_on : (target sum : ℕ) → needs_more target sum ≡ true → ¬ LeavesNoDust target sum
unfolding needs_more
needs_more_goes_on target sum h (inl exact) = ground arith
needs_more_goes_on target sum h (inr above) = ground arith

-- The draw is as many of the inputs, in their order, as it has to be.
draw_from-eq-take :
    (target sum : ℕ) (inputs : List Input)
    → draw_from target sum inputs ≡ take (length (draw_from target sum inputs)) inputs
unfolding draw_from
draw_from-eq-take target sum [] = refl
draw_from-eq-take target sum (input ∷ rest) = elim (Bool-cases (needs_more target sum)) [
  | inl more ↦
      rw more (ap (◌∷◌ input) (draw_from-eq-take target (add64 sum (amount_of input)) rest))
  | inr stop ↦ rw stop refl
]

draw_from-goes_on :
    (target sum : ℕ) (inputs : List Input)
    → sum + sum_by amount_of inputs < u64_mod
    → (k : ℕ) → k < length (draw_from target sum inputs)
    → ¬ LeavesNoDust target (sum + sum_by amount_of (take k inputs))
unfolding draw_from
draw_from-goes_on target sum [] h k below stops = absurd (omega arith)
draw_from-goes_on target sum (input ∷ rest) h zero below stops =
    elim (Bool-cases (needs_more target sum)) [
      | inl more ↦
          let here : sum + 0 ≡ sum = omega arith in
          needs_more_goes_on target sum more (subst (LeavesNoDust target) here stops)
      | inr stop ↦ let none : 0 < length {A = Input} [] = rw stop at below in absurd (omega arith)
    ]
draw_from-goes_on target sum (input ∷ rest) h (suc k) below stops =
    elim (Bool-cases (needs_more target sum)) [
      | inl more ↦
          let added : add64 sum (amount_of input) ≡ sum + amount_of input =
            add64_exact sum (amount_of input) (omega arith) in
          let later : suc k < suc (length (draw_from target (add64 sum (amount_of input)) rest)) =
            rw more at below in
          let there : sum + (amount_of input + sum_by amount_of (take k rest))
              ≡ add64 sum (amount_of input) + sum_by amount_of (take k rest) =
            omega arith in
          draw_from-goes_on target (add64 sum (amount_of input)) rest (omega arith) k (omega arith)
            (subst (LeavesNoDust target) there stops)
      | inr stop ↦
          let none : suc k < length {A = Input} [] = rw stop at below in absurd (omega arith)
    ]

-- If all inputs together leave no dust, the draw is the first of them that do.
pub single_draw-IsFirstStop :
    (target : ℕ) (signature_locked dust_allowance : List Input)
    → sum_by amount_of (signature_locked ++ dust_allowance) < u64_mod
    → LeavesNoDust target (sum_by amount_of (signature_locked ++ dust_allowance))
    → IsFirstStop target
        (signature_locked ++ dust_allowance)
        (length (single_draw target signature_locked dust_allowance))
unfolding single_draw
single_draw-IsFirstStop target s d h total =
    let reached = single_draw_sum target s d h total in
    (
      subst (λ l. LeavesNoDust target (sum_by amount_of l)) (draw_from-eq-take target 0 (s ++ d))
          reached,
      λ k below stops.
          let here : sum_by amount_of (take k (s ++ d)) ≡ 0 + sum_by amount_of (take k (s ++ d)) =
            omega arith in
          draw_from-goes_on target 0 (s ++ d) (omega arith) k below
            (subst (LeavesNoDust target) here stops),
    )
