-- ===== src/Sync/Discovery.antt =====
-- Which of the addresses that a synchronisation found are saved: `find_addresses_to_save`
-- (src/account/sync/mod.rs).
pub mod Kept
use text.Mathlib.Text.{◌==◌ as str_eq}
use wallet_rs.Prelude.{
  ℕ, Bool, true, false, not, ◌&&◌, Option, none, some, List, [], ◌∷◌, ◌++◌, find, all, length, leb,
  ◌==◌, bool_eq, if◌then◌else◌,
}
use wallet_rs.Address.Types.{
  Address, AddressOutput, AddressWrapper, OutputId, OutputKind, signature_locked_single,
  signature_locked_dust_allowance, treasury, address_eq, output_id_eq,
}
use wallet_rs.Sync.Remainder.{has_no_outputs}

abbrev pub kind_eq : OutputKind → OutputKind → Bool
kind_eq signature_locked_single signature_locked_single = true
kind_eq signature_locked_dust_allowance signature_locked_dust_allowance = true
kind_eq treasury treasury = true
kind_eq _ _ = false

-- The derived equality of `AddressOutput`.
unfoldable pub output_eq : AddressOutput → AddressOutput → Bool
output_eq a b =
    a.transaction_id == b.transaction_id
    && a.message_id == b.message_id
    && a.index == b.index
    && a.amount == b.amount
    && bool_eq a.is_spent b.is_spent
    && address_eq a.address b.address
    && kind_eq a.kind b.kind

-- Whether a map has an entry with an equal output.
abbrev pub has_entry : List (OutputId × AddressOutput) → (OutputId × AddressOutput) → Bool
has_entry m e = elim (find (λ f. output_id_eq f.0 e.0) m) [
  | none ↦ false
  | some f ↦ output_eq f.1 e.1
]

-- The equality of two `HashMap`s.
unfoldable pub outputs_eq : List (OutputId × AddressOutput) → List (OutputId × AddressOutput) → Bool
unfolding output_eq
outputs_eq a b = length a == length b && all (has_entry b) a

-- `sort_unstable_by_key` on the key index; the order of equal keys, which it leaves open, is that
-- of the argument.
unfoldable pub insert_by_key : Address → List Address → List Address
insert_by_key a [] = a ∷ []
insert_by_key a (b ∷ rest) =
    if leb a.key_index b.key_index then a ∷ b ∷ rest else b ∷ insert_by_key a rest

unfoldable pub sort_by_key : List Address → List Address
unfolding insert_by_key
sort_by_key [] = []
sort_by_key (a ∷ rest) = insert_by_key a (sort_by_key rest)

-- The account has the address with other outputs.
unfoldable pub is_updated : List Address → Address → Bool
unfolding outputs_eq
is_updated addresses found = elim (find (λ a. address_eq a.address found.address) addresses) [
  | none ↦ false
  | some existing ↦ not (outputs_eq existing.outputs found.outputs)
]

-- The loop, with the addresses ignored so far; what is ignored at the end is not saved.
unfoldable pub save_addresses : List Address → List Address → List Address → List Address
unfolding is_updated
save_addresses addresses ignored [] = []
save_addresses addresses ignored (a ∷ rest) =
    let after_update = save_addresses addresses ignored rest in
    let after_unused = save_addresses addresses (ignored ++ (a ∷ [])) rest in
    let after_used = save_addresses addresses [] rest in
    if is_updated addresses a
    then a ∷ after_update
    else if has_no_outputs a
    then after_unused
    else ignored ++ (a ∷ after_used)

unfoldable pub find_addresses_to_save : List Address → List Address → List Address
unfolding sort_by_key save_addresses
find_addresses_to_save addresses found = save_addresses addresses [] (sort_by_key found)
