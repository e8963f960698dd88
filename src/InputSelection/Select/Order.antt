-- ===== src/InputSelection/Select/Order.antt =====
-- The order in which `select_input` retries its draw: by kind, and of each kind the largest first.
use mathlib.Core.List.{Permᴰ}
use mathlib.Core.List.Permᴰ
use wallet_rs.Prelude.{
  ◌≤◌, ◌≡◌, refl, inl, inr, true, false, List, [], ◌∷◌, arith, Bool-cases, All, All-mono, All-perm,
}
use wallet_rs.Address.Types.{OutputKind}
use wallet_rs.InputSelection.Types.{Input, amount_of}
use wallet_rs.InputSelection.Select.{
  push_by_kind, split_outputs, goes_first, insert_sorted, sort_inputs,
}
use wallet_rs.InputSelection.Select.Sorting.{insert_sorted-perm, sort_inputs-perm}

abbrev pub IsLargestFirst : List Input → Type 0
IsLargestFirst [] = Unit
IsLargestFirst (a ∷ rest) = All (λ b. amount_of b ≤ amount_of a) rest × IsLargestFirst rest

abbrev pub IsOfKind : OutputKind → Input → Type 0
IsOfKind k input = input.output.kind ≡ k

goes_first-largest : (a b : Input) → goes_first a b ≡ true → amount_of b ≤ amount_of a
unfolding goes_first
goes_first-largest a b h = ground arith

goes_first-not_largest : (a b : Input) → goes_first a b ≡ false → amount_of a ≤ amount_of b
unfolding goes_first
goes_first-not_largest a b h = ground arith

insert_sorted-IsLargestFirst :
    (a : Input) (l : List Input) → IsLargestFirst l → IsLargestFirst (insert_sorted a l)
unfolding insert_sorted
insert_sorted-IsLargestFirst a [] h = (tt, tt)
insert_sorted-IsLargestFirst a (b ∷ rest) h = elim (Bool-cases (goes_first a b)) [
  | inl first ↦
      let le = goes_first-largest a b first in
      rw first (
        (
          le,
          All-mono (λ x. amount_of x ≤ amount_of b) (λ x. amount_of x ≤ amount_of a) rest
              (λ x q. omega arith) h.0,
        ),
        h,
      )
  | inr later ↦ rw later (
    All-perm (λ x. amount_of x ≤ amount_of b) (Permᴰ.symm (insert_sorted-perm a rest))
        (goes_first-not_largest a b later, h.0),
    insert_sorted-IsLargestFirst a rest h.1,
  )
]

pub sort_inputs-IsLargestFirst : (l : List Input) → IsLargestFirst (sort_inputs l)
unfolding sort_inputs
sort_inputs-IsLargestFirst [] = tt
sort_inputs-IsLargestFirst (a ∷ rest) =
    insert_sorted-IsLargestFirst a (sort_inputs rest) (sort_inputs-IsLargestFirst rest)

-- The split puts each output into the list of its kind.
push_by_kind-kinds :
    (k : OutputKind) (input : Input) (single dust : List Input)
    → input.output.kind ≡ k
    → All (IsOfKind OutputKind.signature_locked_single) single
    → All (IsOfKind OutputKind.signature_locked_dust_allowance) dust
    → let (single', dust') = push_by_kind k input (single, dust) in
      All (IsOfKind OutputKind.signature_locked_single) single'
      × All (IsOfKind OutputKind.signature_locked_dust_allowance) dust'
unfolding push_by_kind
push_by_kind-kinds OutputKind.signature_locked_single input single dust e s d = ((e, s), d)
push_by_kind-kinds OutputKind.signature_locked_dust_allowance input single dust e s d = (s, (e, d))
push_by_kind-kinds OutputKind.treasury input single dust e s d = (s, d)

pub split_outputs-kinds :
    (l : List Input)
    → All (IsOfKind OutputKind.signature_locked_single) (split_outputs l).0
      × All (IsOfKind OutputKind.signature_locked_dust_allowance) (split_outputs l).1
unfolding split_outputs
split_outputs-kinds [] = (tt, tt)
split_outputs-kinds (input ∷ rest) =
    let (s, d) = split_outputs-kinds rest in push_by_kind-kinds input.output.kind input _ _ refl s d

-- A random order and then the sort keep the kind.
pub sorted-kind :
    (k : OutputKind) (shuffled l : List Input)
    → Permᴰ shuffled l
    → All (IsOfKind k) l
    → All (IsOfKind k) (sort_inputs shuffled)
sorted-kind k shuffled l p h =
    All-perm (IsOfKind k) (Permᴰ.symm (Permᴰ.trans (sort_inputs-perm shuffled) p)) h
