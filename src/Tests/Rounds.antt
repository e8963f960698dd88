-- ===== src/Tests/Rounds.antt =====
-- An account with a missing address: the search beyond its addresses, the refresh of the one it
-- has, and the generation of the missing ones.
use wallet_rs.Prelude.{
  ℕ, ◌+◌, ◌≤◌, ◌≡◌, refl, sym, ap, ◌∙◌, inl, Bool, true, false, none, some, String, List, [], ◌∷◌,
  arith, any, ◌==◌, subst,
}
use wallet_rs.Error.{Result, ok, err, ok_injective}
use wallet_rs.Address.Types.{
  AddressWrapper, AddressOutput, Address, address_eq, output_id_eq, id_of,
}
use wallet_rs.Address.Outputs.{id}
use wallet_rs.Address.Builder.{from_output_response, response_parts, decode_32, insert_output}
use wallet_rs.Address.Generate.{network, get_iota_address}
use wallet_rs.Account.Types.{Account}
use wallet_rs.Account.Addresses.{max_by_key_index}
use wallet_rs.Sync.Node.{SyncedMessage, get_message}
use wallet_rs.Sync.Gap.{
  known_outputs, first_new_index, get_address_for_sync, check_for_new_used_addresses,
}
use wallet_rs.Sync.Gap.Fresh.{Untouched}
use wallet_rs.Sync.Gap.Termination.{check_for_new_used_addresses-terminates}
use wallet_rs.Sync.Refresh.{
  output_at, refresh_address, prune, refresh_outputs, output_message, take_answer, take_pruned,
  reused_output, add_message,
}
use wallet_rs.Sync.Refresh.Outputs.{refresh_address-unlisted}
use wallet_rs.Sync.Missing.{
  generate_addresses, generate_missing, generate_unused, first_checked, end_checked, has_gap,
  is_latest_empty, push_generated,
}
use wallet_rs.Sync.Missing.Complete.{Covered, generate_addresses-Covered}
use wallet_rs.Tests.Wallet.{wrapper, address_of, output, account_of}
use wallet_rs.Tests.Node.{listed_id, text_of, decode_hex, node}

abbrev derive : ℕ → Bool → Bool → Result ℕ
derive key_index internal syncing = ok (key_index + 100)

-- The key index 0 is missing.
abbrev owner : Account
owner = account_of (address_of 1 (output 1 0 2_000_000 ∷ []) ∷ [])

untouched :
    (hrp : String) (i : ℕ) (a : AddressWrapper)
    → 2 ≤ i
    → get_address_for_sync derive (ok false) owner hrp i false ≡ ok (some a)
    → Untouched (λ n. true) node decode_hex text_of [] false false owner a
unfolding get_address_for_sync network get_iota_address known_outputs address_eq
untouched hrp i a le h =
    let other : (1 == i) ≡ false = ground arith in
    let far : (i + 100 == 1) ≡ false = ground arith in
    let near : (1 == i + 100) ≡ false = ground arith in
    let fresh : AddressWrapper = record { inner = i + 100; bech32_hrp = hrp } in
    let differ : address_eq (wrapper 1) fresh ≡ false = rw (address_eq, near) in
    let made : get_address_for_sync derive (ok false) owner hrp i false ≡ ok (some fresh) =
      rw (get_address_for_sync, other) in
    let same : ok (some fresh) ≡ ok (some a) = sym made ∙ h in
    let address : fresh ≡ a = ap (λ o. elim o [ none ↦ fresh | some x ↦ x ]) (ok_injective same) in
    subst (Untouched (λ n. true) node decode_hex text_of [] false false owner) address
      (rw far refl, rw (known_outputs, differ))

first_two : first_new_index owner false ≡ 2
unfolding first_new_index max_by_key_index
first_two = refl

check_for_new_used_addresses-terminates_example :
    (r : Result (List Address × List (SyncedMessage ℕ))) × (check_for_new_used_addresses
        (λ n. true)
        node
        decode_hex
        text_of
        []
        false
        false
        derive
        (ok false)
        owner
        false
        10
        1
      ≡ some r)
check_for_new_used_addresses-terminates_example =
    check_for_new_used_addresses-terminates (λ n. true) node decode_hex text_of [] false false
      derive (ok false) owner false 10 2 1 (omega arith) untouched (omega arith)
      (omega (arith, first_two))

abbrev refreshed : Address × List (SyncedMessage ℕ) × Bool
refreshed =
    elim (refresh_address node decode_hex (λ n. true) text_of [] false
      (address_of 1 (output 1 0 2_000_000 ∷ []))) [
        | ok r ↦ r
        | err e ↦ (address_of 1 [], [], false)
      ]

refreshed_ok :
    refresh_address node decode_hex
      (λ n. true)
      text_of
      []
      false
      (address_of 1 (output 1 0 2_000_000 ∷ []))
    ≡ ok refreshed
unfolding refresh_address prune refresh_outputs output_message take_answer take_pruned reused_output
    add_message get_message from_output_response response_parts decode_32 insert_output output_id_eq
    id
refreshed_ok = refl

abbrev spent_output : AddressOutput
spent_output = record (output 1 0 2_000_000) { is_spent = true }

pruned : output_at (id_of spent_output) refreshed.0.outputs ≡ some spent_output
unfolding refresh_address prune refresh_outputs output_message take_answer take_pruned reused_output
    add_message get_message from_output_response response_parts decode_32 insert_output output_id_eq
    id
pruned = refl

unlisted : any (λ j. output_id_eq j (id_of spent_output)) (listed_id ∷ []) ≡ false
unfolding output_id_eq
unlisted = refl

refresh_address-unlisted_example : spent_output.is_spent ≡ true
refresh_address-unlisted_example =
    refresh_address-unlisted node decode_hex (λ n. true) text_of [] false
      (address_of 1 (output 1 0 2_000_000 ∷ [])) (listed_id ∷ []) (id_of spent_output) spent_output
      refl refreshed_ok unlisted pruned

abbrev found : List Address
found = address_of 4 (output 4 2 3_000_000 ∷ []) ∷ []

abbrev generated : List Address
generated = elim (generate_addresses derive owner "atoi" found) [ ok r ↦ r | err e ↦ [] ]

is_generated : generate_addresses derive owner "atoi" found ≡ ok generated
unfolding generate_addresses generate_missing generate_unused first_checked end_checked has_gap
    is_latest_empty push_generated max_by_key_index network get_iota_address
is_generated = refl

generate_addresses-Covered_example : Covered derive owner "atoi" false 0 generated
generate_addresses-Covered_example =
    generate_addresses-Covered derive owner "atoi" found (λ i kind. (i + 100, refl)) (refl, tt)
      is_generated false 0 (inl omega arith)
