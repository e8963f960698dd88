-- ===== src/Sync/Missing.antt =====
-- The addresses that `perform_sync` generates after it has asked the node
-- (src/account/sync/mod.rs): those that are missing between the known key indexes, and one without
-- outputs at the end. The signer is a parameter.
pub mod Counting
pub mod Keeps
pub mod Complete
use wallet_rs.Prelude.{
  ℕ, zero, suc, ◌+◌, ◌-◌, Bool, true, false, not, ◌&&◌, ◌||◌, String, Option, none, some, List, [],
  ◌∷◌, ◌++◌, filter, any, length, ltb, ◌==◌, bool_eq, if◌then◌else◌,
}
use wallet_rs.Error.{Result, ok, err, ◌>>=◌}
use wallet_rs.Address.Types.{AddressWrapper, Address}
use wallet_rs.Address.Generate.{network, get_iota_address, unused_address}
use wallet_rs.Account.Types.{Account}
use wallet_rs.Account.Addresses.{max_by_key_index}
use wallet_rs.Sync.Remainder.{has_no_outputs}

-- The addresses of a kind: internal or public.
abbrev pub of_kind : Bool → List Address → List Address
of_kind internal addresses = filter (λ a. bool_eq a.internal internal) addresses

-- `max_by_key(..).map(key_index).unwrap_or(0)`
abbrev pub key_or_zero : Option Address → ℕ
key_or_zero none = 0
key_or_zero (some a) = a.key_index

abbrev pub highest_key : Bool → List Address → ℕ
highest_key internal addresses = key_or_zero (max_by_key_index (of_kind internal addresses))

-- There are fewer addresses than key indexes up to the latest one.
unfoldable pub has_gap : Bool → List Address → Bool
has_gap internal addresses =
    ltb (length (of_kind internal addresses)) (highest_key internal addresses + 1)

-- Where the check for missing addresses starts, and where it ends.
unfoldable pub first_checked : Bool → List Address → ℕ
unfolding has_gap
first_checked internal addresses =
    if has_gap internal addresses then 0 else highest_key internal addresses

unfoldable pub end_checked : Bool → List Address → List Address → ℕ
unfolding has_gap
end_checked internal addresses saved =
    if has_gap internal addresses
      && ltb (highest_key internal saved) (highest_key internal addresses + 1)
    then highest_key internal addresses + 1
    else highest_key internal saved

-- Some address has the key index.
abbrev pub has_key : Bool → ℕ → List Address → Bool
has_key internal key_index addresses =
    any (λ a. a.key_index == key_index && bool_eq a.internal internal) addresses

abbrev pub outputs_or : Bool → Option Address → Bool
outputs_or default none = default
outputs_or default (some a) = has_no_outputs a

-- Whether the latest address is unused, so that no other is generated. Without an address of the
-- account the answer differs for the two kinds.
unfoldable pub is_latest_empty : Bool → List Address → ℕ → ℕ → List Address → Bool
is_latest_empty internal addresses latest_index max_new_index saved =
    if ltb max_new_index latest_index
    then outputs_or internal (max_by_key_index (of_kind internal addresses))
    else outputs_or true (max_by_key_index (of_kind internal saved))

module _ (derive : ℕ → Bool → Bool → Result ℕ) where
  -- An error of the signer is ignored.
  abbrev pub pushed : Result AddressWrapper → ℕ → Bool → List Address → List Address
  pushed (err e) key_index internal saved = saved
  pushed (ok address) key_index internal saved =
      saved ++ (unused_address address key_index internal ∷ [])

  unfoldable pub push_generated : Account → String → ℕ → Bool → List Address → Result (List Address)
  unfolding network get_iota_address
  push_generated account hrp key_index internal saved = do
    n ← network account
    ok (pushed (get_iota_address derive key_index internal hrp true) key_index internal saved)

  -- The loop over `count` key indexes.
  unfoldable pub generate_missing :
      Account → String → Bool → ℕ → ℕ → List Address → Result (List Address)
  unfolding push_generated
  generate_missing account hrp internal zero key_index saved = ok saved
  generate_missing account hrp internal (suc count) key_index saved =
      (if has_key internal key_index account.addresses || has_key internal key_index saved
        then ok saved
        else push_generated account hrp key_index internal saved)
      >>= λ next. generate_missing account hrp internal count (key_index + 1) next

  -- The unused address at the end, unless the latest one is unused.
  unfoldable pub generate_unused :
      Account → String → Bool → Bool → ℕ → ℕ → List Address → Result (List Address)
  unfolding push_generated
  generate_unused account hrp internal latest_is_empty latest_index max_new_index saved =
      if latest_is_empty
      then ok saved
      else push_generated account hrp
          ((if ltb max_new_index latest_index then latest_index else max_new_index) + 1) internal
          saved

  -- Both kinds, in the order of the code: the ends of the loops and the latest addresses are taken
  -- before anything is generated.
  unfoldable pub generate_addresses : Account → String → List Address → Result (List Address)
  unfolding generate_missing generate_unused first_checked end_checked is_latest_empty
  generate_addresses account hrp new_addresses =
      let latest_public = first_checked false account.addresses in
      let latest_internal = first_checked true account.addresses in
      let max_public = end_checked false account.addresses new_addresses in
      let max_internal = end_checked true account.addresses new_addresses in
      generate_missing account hrp false (max_public - latest_public) latest_public new_addresses
      >>= λ with_public.
          generate_missing account hrp true (max_internal - latest_internal) latest_internal
            with_public
          >>= λ with_internal.
              generate_unused account hrp false
                (is_latest_empty false account.addresses latest_public max_public with_internal)
                latest_public max_public with_internal
              >>= λ with_unused.
                  generate_unused account hrp true
                    (is_latest_empty true account.addresses latest_internal max_internal
                      with_internal)
                    latest_internal max_internal with_unused
