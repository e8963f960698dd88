-- ===== src/Account/Addresses/Keys.antt =====
-- The keys of an account's addresses under `append_addresses` (src/account/mod.rs).
use wallet_rs.Prelude.{
  ℕ, ◌≡◌, refl, subst, inl, inr, Bool, true, false, Option, none, some, List, [], ◌∷◌, arith, ◌==◌,
  ◌&&◌, bool_eq, find, Bool-cases, if◌then◌else◌,
}
use wallet_rs.Address.Types.{Address}
use wallet_rs.Account.Addresses.{same_key, append_address, append_addresses}

-- The address with a key.
abbrev pub address_at : ℕ → Bool → List Address → Option Address
address_at key_index internal = find (λ a. a.key_index == key_index && bool_eq a.internal internal)

abbrev pub has_key : Address → ℕ → Bool → Bool
has_key a key_index internal = a.key_index == key_index && bool_eq a.internal internal

-- No key stands twice.
abbrev pub HasDistinctKeys : List Address → Type 0
HasDistinctKeys [] = Unit
HasDistinctKeys (a ∷ rest) = (address_at a.key_index a.internal rest ≡ none) × HasDistinctKeys rest

-- An appended address is found under its key, and nothing changes under the others.
address_at-append_address :
    (k : ℕ) (internal : Bool) (l : List Address) (address : Address)
    → address_at k internal (append_address l address)
      ≡ (if has_key address k internal then some address else address_at k internal l)
unfolding append_address
address_at-append_address k internal [] address = refl
address_at-append_address k internal (a ∷ rest) address =
    ground (arith, address_at-append_address k internal rest address)

same_key-facts :
    (a b : Address) → same_key a b ≡ true → (a.key_index ≡ b.key_index) × (a.internal ≡ b.internal)
same_key-facts a b h = ground arith

-- An address with another key does not come under this one.
append_other :
    (a : Address) (rest : List Address) (address : Address)
    → same_key a address ≡ false
    → address_at a.key_index a.internal rest ≡ none
    → address_at a.key_index a.internal (append_address rest address) ≡ none
append_other a rest address other h =
    let different : has_key address a.key_index a.internal ≡ false = ground arith in
    rw (address_at-append_address a.key_index a.internal rest address, different) h

append_address-HasDistinctKeys :
    (l : List Address) (address : Address)
    → HasDistinctKeys l
    → HasDistinctKeys (append_address l address)
unfolding append_address
append_address-HasDistinctKeys [] address h = (refl, tt)
append_address-HasDistinctKeys (a ∷ rest) address h = elim (Bool-cases (same_key a address)) [
  | inl same ↦
      let (k, i) = same_key-facts a address same in
      rw same (
        subst (λ n. address_at n address.internal rest ≡ none) k
            (subst (λ b. address_at a.key_index b rest ≡ none) i h.0),
        h.1,
      )
  | inr other ↦
      rw other
        (append_other a rest address other h.0, append_address-HasDistinctKeys rest address h.1)
]

-- When no key stands twice in the addresses of an account, none does after addresses are merged in.
pub append_addresses-HasDistinctKeys :
    (l new : List Address) → HasDistinctKeys l → HasDistinctKeys (append_addresses l new)
unfolding append_addresses
append_addresses-HasDistinctKeys l [] h = h
append_addresses-HasDistinctKeys l (address ∷ rest) h =
    append_addresses-HasDistinctKeys (append_address l address) rest
      (append_address-HasDistinctKeys l address h)

-- The address that a merge leaves under a key: the last of the new ones with it, or else the old
-- one.
pub newest_at : ℕ → Bool → List Address → Option Address → Option Address
newest_at k internal [] old = old
newest_at k internal (a ∷ rest) old =
    newest_at k internal rest (if has_key a k internal then some a else old)

-- After a merge the address under a key is the last of the new ones with that key, or else the one
-- that was there.
pub address_at-append_addresses :
    (k : ℕ) (internal : Bool) (l new : List Address)
    → address_at k internal (append_addresses l new)
      ≡ newest_at k internal new (address_at k internal l)
unfolding append_addresses newest_at
address_at-append_addresses k internal l [] = refl
address_at-append_addresses k internal l (a ∷ rest) = rw (
  address_at-append_addresses k internal (append_address l a) rest,
  address_at-append_address k internal l a,
)
