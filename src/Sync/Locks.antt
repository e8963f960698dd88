-- ===== src/Sync/Locks.antt =====
-- The outputs that pending transfers hold: `locked_outputs` of an account handle.
use wallet_rs.Prelude.{◌≡◌, refl, Bool, Option, none, some, List, [], ◌∷◌, any, if◌then◌else◌}
use wallet_rs.Error.{Result, ok, ◌>>=◌, ok_or, panic}
use wallet_rs.Address.Types.{AddressOutput, id_of, output_id_eq}
use wallet_rs.InputSelection.Types.{AddressInputs}

-- The comparison of two outputs by transaction id and index.
abbrev pub same_output : AddressOutput → AddressOutput → Bool
same_output a b = output_id_eq (id_of a) (id_of b)

abbrev pub is_locked : List AddressOutput → AddressOutput → Bool
is_locked locked o = any (λ l. same_output l o) locked

-- `position(p)` and `remove(index)`; `none` if no element passes.
unfoldable pub remove_first :
    (AddressOutput → Bool) → List AddressOutput → Option (List AddressOutput)
remove_first p [] = none
remove_first p (a ∷ rest) =
    if p a
    then some rest
    else elim (remove_first p rest) [ none ↦ none | some rest' ↦ some (a ∷ rest') ]

-- The output is one of those that the inputs of an address hold.
abbrev pub is_output_of : AddressInputs → AddressOutput → Bool
is_output_of input a = any (λ o. same_output o a) input.outputs

-- The loop at the end of `transfer` that releases the inputs; the `unwrap` panics if an address has
-- no locked output.
unfoldable pub unlock_inputs : List AddressInputs → List AddressOutput → Result (List AddressOutput)
unlock_inputs [] locked = ok locked
unlock_inputs (input ∷ rest) locked =
    ok_or (remove_first (is_output_of input) locked) panic >>= λ locked'. unlock_inputs rest locked'

-- A lock is on an id: outputs with one id are locked together.
pub is_locked-same_id :
    (locked : List AddressOutput) (a b : AddressOutput)
    → id_of a ≡ id_of b
    → is_locked locked a ≡ is_locked locked b
is_locked-same_id [] a b h = refl
is_locked-same_id (l ∷ locked) a b h = rw (h, is_locked-same_id locked a b h)
