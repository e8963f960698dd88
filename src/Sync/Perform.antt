-- ===== src/Sync/Perform.antt =====
-- `perform_sync` (src/account/sync/mod.rs). The signer, the node with its network information, the
-- hex codec, the text form of an address and the lock of stronghold are parameters; the account is
-- what the handle holds during the call, and `indexed` its message index.
use wallet_rs.Prelude.{
  ℕ, Bool, true, false, not, ◌&&◌, String, Option, none, some, List, [], ◌∷◌, ◌++◌, filter, find,
  any, map, ◌==◌, if◌then◌else◌,
}
use wallet_rs.Error.{Result, ok, err, ◌>>=◌, ok_or, panic}
use wallet_rs.Address.Types.{AddressWrapper, Address, address_eq}
use wallet_rs.Account.Types.{Account}
use wallet_rs.Storage.Types.{MessageIndexation}
use wallet_rs.Sync.Node.{Node, SyncedMessage, Known, is_true}
use wallet_rs.Sync.Gap.{check_for_new_used_addresses, sync_address_list}
use wallet_rs.Sync.Refresh.{same_bech32, sync_addresses_and_messages}
use wallet_rs.Sync.Missing.{of_kind, generate_addresses}
use wallet_rs.Sync.Discovery.{find_addresses_to_save, sort_by_key}

pub data AccountSynchronizeStep : Type 0 where
  sync_addresses : Option (List AddressWrapper) → AccountSynchronizeStep
  sync_messages : AccountSynchronizeStep

pub record SyncedAccountData (M : Type 0) : Type 0 where
  pub messages : List (SyncedMessage M)
  pub addresses : List Address

-- `none` is a search whose fuel did not suffice.
infixl 5 ◌>>>◌
abbrev pub ◌>>>◌ : {A B : Type 0} → Option (Result A) → (A → Option (Result B)) → Option (Result B)
none >>> next = none
some (err e) >>> next = some (err e)
some (ok a) >>> next = next a

-- The first step that synchronises addresses.
unfoldable pub address_step : List AccountSynchronizeStep → Option (Option (List AddressWrapper))
address_step [] = none
address_step (sync_addresses addresses ∷ rest) = some addresses
address_step (sync_messages ∷ rest) = address_step rest

unfoldable pub has_message_step : List AccountSynchronizeStep → Bool
has_message_step [] = false
has_message_step (sync_addresses addresses ∷ rest) = has_message_step rest
has_message_step (sync_messages ∷ rest) = true

-- The messages of the index with their confirmation, and the ids of the confirmed ones.
abbrev pub known_of : List MessageIndexation → Known
known_of indexed = map (λ m. (m.key, m.confirmed)) indexed

abbrev pub confirmed_of : List MessageIndexation → List ℕ
confirmed_of indexed = map (λ m. m.key) (filter (λ m. is_true m.confirmed) indexed)

-- The addresses of the account that a call names; their outputs are left out.
unfoldable pub named_addresses : List AddressWrapper → List Address → List Address
named_addresses names addresses =
    map {A = Address} {B = Address} (λ a. record a { outputs = [] })
      (filter (λ a. any (λ n. address_eq n a.address) names) addresses)

-- The found messages that the account does not have.
unfoldable pub new_messages :
    {M : Type 0} → List MessageIndexation → List (SyncedMessage M) → List (SyncedMessage M)
new_messages indexed found = filter (λ m. not (any (λ i. i.key == m.id) indexed)) found

-- `Vec::dedup`: of equal neighbours the first stays.
unfoldable pub dedup_after : (Address → Address → Bool) → Address → List Address → List Address
dedup_after same a [] = a ∷ []
dedup_after same a (b ∷ rest) =
    let dropped = dedup_after same a rest in
    let kept = dedup_after same b rest in if same b a then dropped else a ∷ kept

unfoldable pub dedup : (Address → Address → Bool) → List Address → List Address
unfolding dedup_after
dedup same [] = []
dedup same (a ∷ rest) = dedup_after same a rest

-- The two sorts, by the internal flag and by the key index; the orders that they leave open are
-- those of their arguments.
abbrev pub sort_addresses : List Address → List Address
sort_addresses addresses = sort_by_key (of_kind false addresses ++ of_kind true addresses)

-- The first address that is not internal.
abbrev pub first_public : List Address → Option Address
first_public addresses = find (λ a. not a.internal) addresses

abbrev pub to_list : Option Address → List Address
to_list none = []
to_list (some a) = a ∷ []

-- The first public address of a discovery, for an account without addresses of which none is saved.
abbrev pub first_found : Bool → List Address → List Address → List Address → List Address
first_found return_all_addresses found [] [] =
    if return_all_addresses then to_list (first_public found) else []
first_found return_all_addresses found addresses saved = []

-- The found addresses that are saved.
unfoldable pub found_to_save : Account → Bool → List Address → List Address
found_to_save account return_all_addresses found =
    let public_addresses = find_addresses_to_save account.addresses (of_kind false found) in
    let internal_addresses = find_addresses_to_save account.addresses (of_kind true found) in
    public_addresses
    ++ (first_found return_all_addresses found account.addresses public_addresses
        ++ internal_addresses)

-- In a discovery the first public address is always part of the result; `expect` panics without
-- one.
unfoldable pub with_first_address : Account → Bool → List Address → Result (List Address)
with_first_address account return_all_addresses saved =
    if return_all_addresses && not (any (λ a. a.key_index == 0 && not a.internal) saved)
    then (ok_or (first_public account.addresses) panic >>= λ a. ok (saved ++ (a ∷ [])))
    else ok saved

module _ (derive : ℕ → Bool → Bool → Result ℕ) (locked : Result Bool) (network_hrp : Result String)
    (to_bech32 : AddressWrapper → String) where
  -- From the found addresses to those that are saved.
  unfoldable pub addresses_to_save : Account → Bool → List Address → Result (List Address)
  unfolding found_to_save generate_addresses with_first_address dedup
  addresses_to_save account return_all_addresses found = do
    hrp ← elim account.addresses [ [] ↦ network_hrp | a ∷ rest ↦ ok a.address.bech32_hrp ]
    generated ←
        generate_addresses derive account hrp (found_to_save account return_all_addresses found)
    all ← with_first_address account return_all_addresses generated
    ok (dedup (same_bech32 to_bech32) (sort_addresses all))

  module _ {M : Type 0} (node : Node M) (hex_decode : String → Option (List ℕ))
      (index_valid : ℕ → Bool) (account : Account) (indexed : List MessageIndexation)
      (sync_spent_outputs return_all_addresses : Bool) (fuel gap_limit : ℕ) where
    -- The search of one kind of addresses.
    abbrev pub search : Bool → Option (Result (List Address × List (SyncedMessage M)))
    search internal =
        check_for_new_used_addresses index_valid node hex_decode to_bech32 (known_of indexed)
          sync_spent_outputs return_all_addresses derive locked account internal gap_limit fuel

    unfoldable pub found_by_addresses :
        Option (Option (List AddressWrapper))
        → Option (Result (List Address × List (SyncedMessage M)))
    unfolding check_for_new_used_addresses sync_address_list named_addresses
    found_by_addresses none = some (ok ([], []))
    found_by_addresses (some (some names)) = some (
        sync_address_list index_valid node hex_decode to_bech32 (known_of indexed)
          sync_spent_outputs return_all_addresses (named_addresses names account.addresses))
    found_by_addresses (some none) = search false >>> λ found_public.
        search true >>> λ found_change.
        some (ok (found_public.0 ++ found_change.0, found_public.1 ++ found_change.1))

    unfoldable pub perform_sync :
        ℕ
        → Bool
        → List AddressWrapper
        → List AccountSynchronizeStep
        → Option (Result (SyncedAccountData M))
    unfolding found_by_addresses address_step has_message_step new_messages
        sync_addresses_and_messages addresses_to_save
    perform_sync address_index skip_change_addresses change_addresses_to_sync steps =
        found_by_addresses (address_step steps) >>> λ found. some (
          (if has_message_step steps
            then sync_addresses_and_messages node hex_decode index_valid to_bech32
                (confirmed_of indexed) sync_spent_outputs account found.0 skip_change_addresses
                change_addresses_to_sync address_index
            else ok ([], []))
          >>= λ synced.
              addresses_to_save account return_all_addresses (found.0 ++ synced.0) >>= λ addresses.
              ok (record {
                messages = new_messages indexed found.1 ++ synced.1;
                addresses = addresses;
              }))
