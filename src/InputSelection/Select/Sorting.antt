-- ===== src/InputSelection/Select/Sorting.antt =====
-- The two `sort_by` calls and the split into two lists, as permutations.
use mathlib.Core.List.{Permᴰ}
use mathlib.Core.List.Permᴰ
use wallet_rs.Prelude.{
  refl, inl, inr, List, [], ◌∷◌, ◌++◌, Bool-cases, SubBag, SubBag-nil, SubBag-cons, SubBag-skip,
  All,
}
use wallet_rs.Address.Types.{OutputKind}
use wallet_rs.InputSelection.Types.{Input}
use wallet_rs.InputSelection.Select.{
  push_by_kind, split_outputs, goes_first, insert_sorted, sort_inputs,
}

pub insert_sorted-perm : (a : Input) (l : List Input) → Permᴰ (insert_sorted a l) (a ∷ l)
unfolding insert_sorted
insert_sorted-perm a [] = Permᴰ.refl (a ∷ [])
insert_sorted-perm a (b ∷ rest) = elim (Bool-cases (goes_first a b)) [
  | inl first ↦ rw first (Permᴰ.refl (a ∷ b ∷ rest))
  | inr later ↦
      rw later (Permᴰ.trans (Permᴰ.cons refl (insert_sorted-perm a rest)) (Permᴰ.swap refl refl))
]

pub sort_inputs-perm : (l : List Input) → Permᴰ (sort_inputs l) l
unfolding sort_inputs
sort_inputs-perm [] = Permᴰ.nil
sort_inputs-perm (a ∷ rest) =
    Permᴰ.trans (insert_sorted-perm a (sort_inputs rest)) (Permᴰ.cons refl (sort_inputs-perm rest))

-- Any output but a treasury output; no address of an account holds one of those.
abbrev pub IsSpendableKind : OutputKind → Type 0
IsSpendableKind OutputKind.treasury = ⊥
IsSpendableKind _ = Unit

abbrev pub IsSpendable : Input → Type 0
IsSpendable input = IsSpendableKind input.output.kind

-- Without treasury outputs the two lists hold all inputs.
push_by_kind-perm :
    (k : OutputKind) (input : Input) (s d : List Input) {rest : List Input}
    → IsSpendableKind k
    → Permᴰ (s ++ d) rest
    → let (s', d') = push_by_kind k input (s, d) in Permᴰ (s' ++ d') (input ∷ rest)
unfolding push_by_kind
push_by_kind-perm OutputKind.signature_locked_single input s d h p = Permᴰ.cons refl p
push_by_kind-perm OutputKind.signature_locked_dust_allowance input s d h p =
    Permᴰ.trans (Permᴰ.middle input s d) (Permᴰ.cons refl p)
push_by_kind-perm OutputKind.treasury input s d h p = absurd h

pub split_outputs-perm :
    (l : List Input) → All IsSpendable l → Permᴰ ((split_outputs l).0 ++ (split_outputs l).1) l
unfolding split_outputs
split_outputs-perm [] h = Permᴰ.nil
split_outputs-perm (input ∷ rest) h =
    push_by_kind-perm input.output.kind input _ _ h.0 (split_outputs-perm rest h.1)

-- In any case each list holds a part of the inputs.
push_by_kind-SubBag :
    (k : OutputKind) (input : Input) (s d : List Input) {rest : List Input}
    → SubBag (s ++ d) rest
    → let (s', d') = push_by_kind k input (s, d) in SubBag (s' ++ d') (input ∷ rest)
unfolding push_by_kind
push_by_kind-SubBag OutputKind.signature_locked_single input s d b = SubBag-cons input (s ++ d) b
push_by_kind-SubBag OutputKind.signature_locked_dust_allowance input s d (rest', p) =
    (rest', Permᴰ.trans (Permᴰ.append_right rest' (Permᴰ.middle input s d)) (Permᴰ.cons refl p))
push_by_kind-SubBag OutputKind.treasury input s d b = SubBag-skip input (s ++ d) b

pub split_outputs-SubBag : (l : List Input) → SubBag ((split_outputs l).0 ++ (split_outputs l).1) l
unfolding split_outputs
split_outputs-SubBag [] = SubBag-nil []
split_outputs-SubBag (input ∷ rest) =
    push_by_kind-SubBag input.output.kind input _ _ (split_outputs-SubBag rest)
