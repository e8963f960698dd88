-- ===== src/Sync/Discovery/Kept.antt =====
-- Which addresses `find_addresses_to_save` keeps, and which it leaves out.
use mathlib.Core.List.{append_assoc, append-nil}
use wallet_rs.Prelude.{
  ◌≡◌, sym, ◌∙◌, ap, inl, inr, true, false, List, [], ◌∷◌, ◌++◌, leb, All, All-append, Elem, here,
  there, Elem-append_right, Bool-cases,
}
use wallet_rs.Address.Types.{Address}
use wallet_rs.Sync.Remainder.{has_no_outputs}
use wallet_rs.Sync.Discovery.{
  insert_by_key, sort_by_key, is_updated, save_addresses, find_addresses_to_save,
}

Elem-insert_by_key : (a : Address) (l : List Address) → Elem a (insert_by_key a l)
unfolding insert_by_key
Elem-insert_by_key a [] = here
Elem-insert_by_key a (b ∷ l) = elim (Bool-cases (leb a.key_index b.key_index)) [
  | inl below ↦ simp below here
  | inr above ↦ simp above (there (Elem-insert_by_key a l))
]

Elem-insert_other :
    (a : Address) (l : List Address) {x : Address} → Elem x l → Elem x (insert_by_key a l)
unfolding insert_by_key
Elem-insert_other a [] e = elim e [ ]
Elem-insert_other a (b ∷ l) here = elim (Bool-cases (leb a.key_index b.key_index)) [
  | inl below ↦ simp below (there here)
  | inr above ↦ simp above here
]
Elem-insert_other a (b ∷ l) (there e) = elim (Bool-cases (leb a.key_index b.key_index)) [
  | inl below ↦ simp below (there (there e))
  | inr above ↦ simp above (there (Elem-insert_other a l e))
]

Elem-sort_by_key : (l : List Address) {x : Address} → Elem x l → Elem x (sort_by_key l)
unfolding sort_by_key
Elem-sort_by_key [] e = elim e [ ]
Elem-sort_by_key (a ∷ l) here = Elem-insert_by_key a (sort_by_key l)
Elem-sort_by_key (a ∷ l) (there e) = Elem-insert_other a (sort_by_key l) (Elem-sort_by_key l e)

Elem-save_addresses :
    (addresses ignored l : List Address) {x : Address}
    → Elem x l
    → has_no_outputs x ≡ false
    → Elem x (save_addresses addresses ignored l)
unfolding save_addresses
Elem-save_addresses addresses ignored [] e used = elim e [ ]
Elem-save_addresses addresses ignored (a ∷ l) here used =
    elim (Bool-cases (is_updated addresses a)) [
      | inl updated ↦ simp updated here
      | inr same ↦ simp (same, used) (Elem-append_right ignored here)
    ]
Elem-save_addresses addresses ignored (a ∷ l) {x} (there e) used =
    elim (Bool-cases (is_updated addresses a)) [
      | inl updated ↦ simp updated (there (Elem-save_addresses addresses ignored l e used))
      | inr same ↦ elim (Bool-cases (has_no_outputs a)) [
        | inl unused ↦
            simp (same, unused) (Elem-save_addresses addresses (ignored ++ (a ∷ [])) l e used)
        | inr used_a ↦
            simp (same, used_a)
              (Elem-append_right ignored (there (Elem-save_addresses addresses [] l e used)))
      ]
    ]

-- Every address that was found and has outputs is saved.
pub find_addresses_to_save-used :
    (addresses found : List Address) {x : Address}
    → Elem x found
    → has_no_outputs x ≡ false
    → Elem x (find_addresses_to_save addresses found)
unfolding find_addresses_to_save
find_addresses_to_save-used addresses found e used =
    Elem-save_addresses addresses [] (sort_by_key found) (Elem-sort_by_key found e) used

-- What is saved and what is left out, which is unused, are the ignored addresses and the others.
abbrev pub IsPrefix : List Address → List Address → Type 0
IsPrefix saved l =
    (left_out : List Address) × (l ≡ saved ++ left_out)
    × All (λ a. has_no_outputs a ≡ true) left_out

save_addresses-IsPrefix :
    (addresses ignored l : List Address)
    → All (λ a. has_no_outputs a ≡ true) ignored
    → All (λ a. is_updated addresses a ≡ false) l
    → IsPrefix (save_addresses addresses ignored l) (ignored ++ l)
unfolding save_addresses
save_addresses-IsPrefix addresses ignored [] unused h = (ignored, append-nil ignored, unused)
save_addresses-IsPrefix addresses ignored (a ∷ l) unused h = elim (Bool-cases (has_no_outputs a)) [
  | inl unused_a ↦
      let (left_out, e, all_unused) =
        save_addresses-IsPrefix addresses (ignored ++ (a ∷ [])) l
          (All-append _ ignored (a ∷ []) unused (unused_a, tt)) h.1 in
      simp (h.0, unused_a) (left_out, sym (append_assoc ignored (a ∷ []) l) ∙ e, all_unused)
  | inr used_a ↦
      let (left_out, e, all_unused) = save_addresses-IsPrefix addresses [] l tt h.1 in
      simp (h.0, used_a)
        (
          left_out,
          ap (λ t. ignored ++ (a ∷ t)) e
              ∙ sym (append_assoc ignored (a ∷ save_addresses addresses [] l) left_out),
          all_unused,
        )
]

-- When no address of the account was found with other outputs, what is saved is a start of the
-- addresses in the order of their key indexes, and the addresses that follow have no outputs.
pub find_addresses_to_save-IsPrefix :
    (addresses found : List Address)
    → All (λ a. is_updated addresses a ≡ false) (sort_by_key found)
    → IsPrefix (find_addresses_to_save addresses found) (sort_by_key found)
unfolding find_addresses_to_save
find_addresses_to_save-IsPrefix addresses found h =
    save_addresses-IsPrefix addresses [] (sort_by_key found) tt h
