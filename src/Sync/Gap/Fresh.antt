-- ===== src/Sync/Gap/Fresh.antt =====
-- A round of the search over addresses that nobody used (src/account/sync/mod.rs).
use wallet_rs.Prelude.{
  ℕ, ◌≡◌, refl, sym, ◌∙◌, ap, subst, inl, inr, Bool, true, not, ◌||◌, String, Option, some, List,
  [], ◌∷◌, ◌++◌, if◌then◌else◌, Bool-cases, All,
}
use wallet_rs.Error.{ok, >>=-eq-ok, ok_injective}
use wallet_rs.Address.Types.{AddressWrapper, OutputId, AddressOutput, Address}
use wallet_rs.Address.Builder.{build, insert_all}
use wallet_rs.Account.Types.{Account}
use wallet_rs.Sync.Remainder.{has_no_outputs}
use wallet_rs.Sync.Node.{Node, SyncedMessage, Known, or_fail, sync_address, mark_missing, receive}
use wallet_rs.Sync.Gap.{known_outputs, is_empty_round, addresses_to_sync, sync_address_list}

module _ (index_valid : ℕ → Bool) {M : Type 0} (node : Node M)
    (hex_decode : String → Option (List ℕ)) (to_bech32 : AddressWrapper → String) (known : Known)
    (sync_spent_outputs return_all_addresses : Bool) where
  -- Neither the node nor the account has outputs of the address.
  abbrev pub Untouched : Account → AddressWrapper → Type 0
  Untouched account address =
      (or_fail (node.outputs (to_bech32 address) sync_spent_outputs) ≡ ok [])
      × (known_outputs account.addresses address ≡ [])

  -- The same of an address that is to be synchronised.
  abbrev pub Fresh : Address → Type 0
  Fresh a =
      (or_fail (node.outputs (to_bech32 a.address) sync_spent_outputs) ≡ ok []) × (a.outputs ≡ [])

  sync_address-Fresh :
      (a : Address)
      → Fresh a
      → sync_address node hex_decode index_valid to_bech32 known a.outputs a.address
          a.address.bech32_hrp sync_spent_outputs
        ≡ ok ([], [])
  unfolding sync_address mark_missing receive
  sync_address-Fresh a (listing, none_known) = rw listing (rw none_known refl)

  pub addresses_to_sync-Fresh :
      (account : Account) (internal : Bool) (indexed : List (ℕ × AddressWrapper))
      {found : List Address}
      → All (λ p. Untouched account p.1) indexed
      → addresses_to_sync index_valid account internal indexed ≡ ok found
      → All Fresh found
  unfolding addresses_to_sync build insert_all
  addresses_to_sync-Fresh account internal [] {found} h e =
      let same : [] ≡ found = cc in subst (All Fresh) same tt
  addresses_to_sync-Fresh account internal ((index, address) ∷ rest) {found} h e =
      let (a, built, more) =
        >>=-eq-ok
          (build index_valid (record {
            address = some address;
            key_index = some index;
            internal = internal;
            outputs = some (known_outputs account.addresses address);
          }))
          _ e in
      let (later, others, last) =
        >>=-eq-ok (addresses_to_sync index_valid account internal rest) _ more in
      let same : a ∷ later ≡ found = cc in
      let plain : Address = record {
        address = address;
        key_index = index;
        internal = internal;
        outputs = [];
      } in
      let made : ok plain ≡ ok a =
        sym (
          ap
            (λ outputs. build index_valid (record {
              address = some address;
              key_index = some index;
              internal = internal;
              outputs = some outputs;
            }))
            h.0.1)
        ∙ built in
      let own : plain ≡ a = cc in
      let fresh : Fresh a = subst Fresh own (h.0.0, refl) in
      subst (All Fresh) same (fresh, addresses_to_sync-Fresh account internal rest h.1 others)

  abbrev with_synced : Address → List (OutputId × AddressOutput) → List Address → List Address
  with_synced a outputs later =
      let synced : Address = record a { outputs = outputs } in
      if not (has_no_outputs synced) || return_all_addresses then synced ∷ later else later

  with_synced-empty :
      (a : Address) (outputs : List (OutputId × AddressOutput))
      (messages later_messages : List (SyncedMessage M)) (later : List Address)
      → outputs ≡ []
      → messages ≡ []
      → is_empty_round later later_messages ≡ true
      → is_empty_round (with_synced a outputs later) (messages ++ later_messages) ≡ true
  unfolding is_empty_round
  with_synced-empty a outputs messages later_messages later no_outputs none_found h =
      rw no_outputs
        (rw none_found (elim (Bool-cases return_all_addresses) [ inl e ↦ rw e h | inr e ↦ rw e h ]))

  pub sync_address_list-Fresh :
      (found : List Address) {r : List Address × List (SyncedMessage M)}
      → All Fresh found
      → sync_address_list index_valid node hex_decode to_bech32 known sync_spent_outputs
          return_all_addresses found
        ≡ ok r
      → is_empty_round r.0 r.1 ≡ true
  unfolding sync_address_list is_empty_round
  sync_address_list-Fresh [] {r} h e =
      let same : ([], []) ≡ r = cc in subst (λ x. is_empty_round x.0 x.1 ≡ true) same refl
  sync_address_list-Fresh (a ∷ rest) {r} h e =
      let ((outputs, messages), first, more) =
        >>=-eq-ok
          (sync_address node hex_decode index_valid to_bech32 known a.outputs a.address
            a.address.bech32_hrp sync_spent_outputs)
          _ e in
      let (later, others, last) =
        >>=-eq-ok
          (sync_address_list index_valid node hex_decode to_bech32 known sync_spent_outputs
            return_all_addresses rest)
          _ more in
      let empty = ok_injective (sym first ∙ sync_address-Fresh a h.0) in
      let no_outputs : outputs ≡ [] = ap (λ p. p.0) empty in
      let none_found : messages ≡ [] = ap (λ p. p.1) empty in
      let final : (with_synced a outputs later.0, messages ++ later.1) ≡ r = ok_injective last in
      subst (λ x. is_empty_round x.0 x.1 ≡ true) final
        (with_synced-empty a outputs messages later.1 later.0 no_outputs none_found
          (sync_address_list-Fresh rest h.1 others))
