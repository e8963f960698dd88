-- ===== src/Sync/SelectInputs/Release.antt =====
-- The locks that stay when `transfer` releases its inputs (src/account/sync/mod.rs).
use mathlib.Core.List.{Permᴰ}
use mathlib.Core.List.Permᴰ
use wallet_rs.Prelude.{
  ℕ, ◌≡◌, refl, sym, ap, ◌∙◌, inl, inr, Bool, false, true, Option, some, List, [], ◌∷◌, ◌++◌, map,
  arith, any, All, All-mono, All-append_left, All-append_right, Bool-cases, Option-cases, subst,
}
use mathlib.Core.Option.{some-injective}
use wallet_rs.Error.{ok, ok_injective}
use wallet_rs.Address.Types.{AddressOutput, output_id_eq}
use wallet_rs.Message.Transfer.{Transfer}
use wallet_rs.InputSelection.Types.{AddressInputs, Input, Remainder}
use wallet_rs.Sync.Locks.{is_locked, same_output, remove_first, is_output_of, unlock_inputs}
use wallet_rs.Account.Types.{SignerType}
use wallet_rs.Sync.SelectInputs.{select_inputs}
use wallet_rs.Sync.SelectInputs.Grouping.{all_outputs}
use wallet_rs.Sync.SelectInputs.Laws.{
  select_inputs-cases, select_inputs-locks, grouped_inputs-ok, grouped-perm,
}
use wallet_rs.Sync.SelectInputs.Exclusion.{IsSound}

-- One of the outputs of each address, in the order of the addresses.
abbrev pub IsOnePerAddress : List AddressInputs → List AddressOutput → Type 0
IsOnePerAddress [] [] = Unit
IsOnePerAddress [] (o ∷ released) = ⊥
IsOnePerAddress (i ∷ inputs) [] = ⊥
IsOnePerAddress (i ∷ inputs) (o ∷ released) =
    (is_output_of i o ≡ true) × IsOnePerAddress inputs released

remove_first-perm :
    (p : AddressOutput → Bool) (l : List AddressOutput) {r : List AddressOutput}
    → remove_first p l ≡ some r
    → (o : AddressOutput) × (p o ≡ true) × Permᴰ (o ∷ r) l
unfolding remove_first
remove_first-perm p [] h = absurd (cc)
remove_first-perm p (a ∷ l) {r} h = elim (Bool-cases (p a)) [
  | inl hit ↦
      let same : l ≡ r = some-injective _ _ (rw hit at h) in
      (a, hit, subst (λ x. Permᴰ (a ∷ x) (a ∷ l)) same (Permᴰ.refl (a ∷ l)))
  | inr miss ↦ elim (Option-cases (remove_first p l)) [
    | inl e ↦ absurd (ground arith)
    | inr (r', e) ↦
        let same : a ∷ r' ≡ r = some-injective _ _ (rw (miss, e) at h) in
        let (o, found, q) = remove_first-perm p l e in
        (
          o,
          found,
          subst (λ x. Permᴰ (o ∷ x) (a ∷ l)) same
              (Permᴰ.trans (Permᴰ.swap refl refl) (Permᴰ.cons refl q)),
        )
  ]
]

-- What no entry of the first part passes is removed from the second.
remove_first-append :
    (p : AddressOutput → Bool) (locked l : List AddressOutput) {r : List AddressOutput}
    → All (λ a. p a ≡ false) locked
    → remove_first p (locked ++ l) ≡ some r
    → (r' : List AddressOutput) × (remove_first p l ≡ some r') × (r ≡ locked ++ r')
unfolding remove_first
remove_first-append p [] l {r} free h = (r, h, refl)
remove_first-append p (a ∷ locked) l {r} free h =
    elim (Option-cases (remove_first p (locked ++ l))) [
      | inl e ↦ absurd (ground (arith, free.0))
      | inr (r', e) ↦
          let same : a ∷ r' ≡ r = some-injective _ _ (rw (free.0, e) at h) in
          let (later, found, q) = remove_first-append p locked l free.1 e in
          (later, found, sym same ∙ ap (◌∷◌ a) q)
    ]

unlock_inputs-releases :
    (inputs : List AddressInputs) (locked l : List AddressOutput) {r : List AddressOutput}
    → All (λ i. All (λ a. is_output_of i a ≡ false) locked) inputs
    → unlock_inputs inputs (locked ++ l) ≡ ok r
    → (released : List AddressOutput) × (kept : List AddressOutput) × (r ≡ locked ++ kept)
      × IsOnePerAddress inputs released
      × Permᴰ (released ++ kept) l
unfolding unlock_inputs
unlock_inputs-releases [] locked l free h = ([], l, sym (ok_injective h), tt, Permᴰ.refl l)
unlock_inputs-releases (i ∷ inputs) locked l free h =
    elim (Option-cases (remove_first (is_output_of i) (locked ++ l))) [
      | inl e ↦ absurd (ground arith)
      | inr (r', e) ↦
          let (l', found, same) = remove_first-append (is_output_of i) locked l free.0 e in
          let (o, hit, p) = remove_first-perm (is_output_of i) l found in
          let rest = rw (e, same) at h in
          let (released, kept, at_end, each, q) =
            unlock_inputs-releases inputs locked l' free.1 rest in
          (o ∷ released, kept, at_end, (hit, each), Permᴰ.trans (Permᴰ.cons refl q) p)
    ]

same_output-symmetric : (a b : AddressOutput) → same_output a b ≡ same_output b a
unfolding output_id_eq
same_output-symmetric a b = ground arith

any-All {ℓ} :
    {A : Type ℓ} (p : A → Bool) (xs : List A) → All (λ x. p x ≡ false) xs → any p xs ≡ false
any-All p [] h = refl
any-All p (x ∷ xs) h = rw (h.0, any-All p xs h.1) refl

-- Outputs that are not locked are those of no lock.
not_locked-other :
    (locked outputs : List AddressOutput)
    → All (λ o. is_locked locked o ≡ false) outputs
    → All (λ a. any (λ o. same_output o a) outputs ≡ false) locked
not_locked-other [] outputs h = tt
not_locked-other (a ∷ locked) outputs h = (
  any-All (λ o. same_output o a) outputs
      (All-mono (λ o. is_locked (a ∷ locked) o ≡ false) (λ o. same_output o a ≡ false) outputs
        (λ o e. ground (arith, same_output-symmetric o a)) h),
  not_locked-other locked outputs (
      All-mono (λ o. is_locked (a ∷ locked) o ≡ false) (λ o. is_locked locked o ≡ false) outputs
        (λ o e. ground arith) h),
)

not_locked-inputs :
    (locked : List AddressOutput) (inputs : List AddressInputs)
    → All (λ o. is_locked locked o ≡ false) (all_outputs inputs)
    → All (λ i. All (λ a. is_output_of i a ≡ false) locked) inputs
not_locked-inputs locked [] h = tt
not_locked-inputs locked (i ∷ inputs) h =
    let Free : AddressOutput → Type 0 = λ o. is_locked locked o ≡ false in
    (
      not_locked-other locked i.outputs (All-append_left Free i.outputs (all_outputs inputs) h),
      not_locked-inputs locked inputs (All-append_right Free i.outputs (all_outputs inputs) h),
    )

-- The release at the end of a transfer keeps every lock that there was before the selection, in
-- its place, and of the outputs that were selected it gives back exactly one for each address of
-- the inputs: all the others stay locked. The random orders only reorder, and the outputs that the
-- call may use are spendable and fit in 64 bits together.
pub unlock_inputs-select_inputs :
    (shuffle_single shuffle_dust : List Input → List Input)
    → ((l : List Input) → Permᴰ (shuffle_single l) l)
    → ((l : List Input) → Permᴰ (shuffle_dust l) l)
    → (input_output_count_max : ℕ) (locked : List AddressOutput) (transfer : Transfer)
      (available : List AddressInputs) (signer_type : SignerType) {inputs : List AddressInputs}
      {remainder : Option Remainder} {locked' locked'' : List AddressOutput}
    → IsSound locked transfer available
    → select_inputs shuffle_single shuffle_dust input_output_count_max locked transfer available
        signer_type
      ≡ (ok (inputs, remainder), locked')
    → unlock_inputs inputs locked' ≡ ok locked''
    → (released : List AddressOutput) × (kept : List AddressOutput) × (locked'' ≡ locked ++ kept)
      × IsOnePerAddress inputs released
      × Permᴰ (released ++ kept) (all_outputs inputs)
unlock_inputs-select_inputs shuffle_single shuffle_dust sp dp n locked transfer available
      signer_type {inputs} sound h u =
    let (free, _) =
      select_inputs-locks shuffle_single shuffle_dust sp dp n locked transfer available signer_type
        sound.0 sound.1 h in
    elim (select_inputs-cases shuffle_single shuffle_dust n locked transfer available signer_type
      h) [
        | inl (_, _, failed, _) ↦ absurd (cc)
        | inr (selected, e, result, locks) ↦
            let (grouped, _) = grouped_inputs-ok transfer selected (sym result) in
            let (released, kept, at_end, each, p) =
              unlock_inputs-releases inputs locked (map (λ i. i.output) selected)
                (not_locked-inputs locked inputs free) (rw locks at u) in
            let all_selected : Permᴰ (map (λ (i : Input). i.output) selected) (all_outputs inputs) =
              rw grouped (Permᴰ.symm (grouped-perm selected)) in
            (released, kept, at_end, each, Permᴰ.trans p all_selected)
      ]
