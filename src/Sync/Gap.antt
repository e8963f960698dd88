-- ===== src/Sync/Gap.antt =====
-- The search for used addresses beyond those of an account: `get_address_for_sync`,
-- `sync_address_list` and `check_for_new_used_addresses` (src/account/sync/mod.rs). The signer, the
-- node and the lock of stronghold are parameters. The tasks of a list are independent, and their
-- results are taken in the order of the list, so that its chunks are not part of the model. The
-- account does not change during the search.
pub mod Fresh
pub mod Termination
use wallet_rs.Prelude.{
  ℕ, zero, suc, ◌+◌, Bool, true, false, not, ◌&&◌, ◌||◌, String, Option, none, some, List, [], ◌∷◌,
  ◌++◌, map, find, filter, all, ◌==◌, bool_eq, if◌then◌else◌,
}
use wallet_rs.Error.{Result, ok, err, ◌>>=◌}
use wallet_rs.Address.Types.{AddressWrapper, OutputId, AddressOutput, Address, address_eq}
use wallet_rs.Address.Outputs.{values}
use wallet_rs.Address.Builder.{AddressBuilder, build}
use wallet_rs.Address.Generate.{network, get_iota_address}
use wallet_rs.Account.Types.{Account, SignerType, stronghold}
use wallet_rs.Account.Addresses.{max_by_key_index}
use wallet_rs.Sync.Remainder.{bech32_hrp, has_no_outputs}
use wallet_rs.Sync.Node.{Node, SyncedMessage, Known, sync_address}

abbrev pub is_stronghold : SignerType → Bool
is_stronghold stronghold = true
is_stronghold _ = false

-- The outputs that the account knows for an address.
unfoldable pub known_outputs : List Address → AddressWrapper → List AddressOutput
known_outputs addresses address = elim (find (λ a. address_eq a.address address) addresses) [
  | none ↦ []
  | some a ↦ values a.outputs
]

-- One above the highest key index of the account's addresses of a kind.
unfoldable pub first_new_index : Account → Bool → ℕ
first_new_index account internal =
    elim (max_by_key_index (filter (λ a. bool_eq a.internal internal) account.addresses)) [
      | none ↦ 0
      | some a ↦ a.key_index + 1
    ]

abbrev pub no_messages : {M : Type 0} → List M → Bool
no_messages [] = true
no_messages (m ∷ rest) = false

-- The messages and the outputs of a round are empty.
unfoldable pub is_empty_round : {M : Type 0} → List Address → List M → Bool
is_empty_round addresses messages = no_messages messages && all has_no_outputs addresses

module _ (derive : ℕ → Bool → Bool → Result ℕ) (locked : Result Bool) where
  -- `none` if the stronghold is locked.
  unfoldable pub get_address_for_sync : Account → String → ℕ → Bool → Result (Option AddressWrapper)
  unfolding get_iota_address network
  get_address_for_sync account hrp index internal =
      elim (find (λ a. a.key_index == index && bool_eq a.internal internal) account.addresses) [
        | some a ↦ ok (some a.address)
        | none ↦ (if is_stronghold account.signer_type then locked else ok false) >>= λ is_locked.
            if is_locked
            then ok none
            else (network account >>= λ _.
                get_iota_address derive index internal hrp true >>= λ address. ok (some address))
      ]

  -- The addresses of `count` indexes.
  unfoldable pub gap_addresses :
      Account → String → Bool → ℕ → ℕ → Result (Option (List (ℕ × AddressWrapper)))
  unfolding get_address_for_sync
  gap_addresses account hrp internal zero start = ok (some [])
  gap_addresses account hrp internal (suc count) start =
      get_address_for_sync account hrp start internal >>= λ found. elim found [
        | none ↦ ok none
        | some address ↦ gap_addresses account hrp internal count (start + 1) >>= λ later.
            ok (elim later [ none ↦ none | some addresses ↦ some ((start, address) ∷ addresses) ])
      ]

module _ (index_valid : ℕ → Bool) where
  unfoldable pub addresses_to_sync :
      Account → Bool → List (ℕ × AddressWrapper) → Result (List Address)
  unfolding build known_outputs
  addresses_to_sync account internal [] = ok []
  addresses_to_sync account internal ((index, address) ∷ rest) = do
    a ← build index_valid (record {
      address = some address;
      key_index = some index;
      internal = internal;
      outputs = some (known_outputs account.addresses address);
    })
    later ← addresses_to_sync account internal rest
    ok (a ∷ later)

  module _ {M : Type 0} (node : Node M) (hex_decode : String → Option (List ℕ))
      (to_bech32 : AddressWrapper → String) (known : Known)
      (sync_spent_outputs return_all_addresses : Bool) where
    unfoldable pub sync_address_list : List Address → Result (List Address × List (SyncedMessage M))
    unfolding sync_address
    sync_address_list [] = ok ([], [])
    sync_address_list (a ∷ rest) = do
      (outputs, messages) ←
          sync_address node hex_decode index_valid to_bech32 known a.outputs a.address
            a.address.bech32_hrp sync_spent_outputs
      (addresses, later) ← sync_address_list rest
      let synced : Address = record a { outputs = outputs }
      ok (
        if not (has_no_outputs synced) || return_all_addresses
            then synced ∷ addresses
            else addresses,
        messages ++ later,
      )

    module _ (derive : ℕ → Bool → Bool → Result ℕ) (locked : Result Bool) (account : Account)
        (internal : Bool) (gap_limit : ℕ) where
      -- One turn of the loop; `none` if the stronghold is locked.
      unfoldable pub gap_round :
          String → ℕ → Result (Option (List Address × List (SyncedMessage M)))
      unfolding gap_addresses addresses_to_sync sync_address_list
      gap_round hrp start =
          gap_addresses derive locked account hrp internal gap_limit start >>= λ generated.
          elim generated [
            | none ↦ ok none
            | some indexed ↦ do
              addresses ← addresses_to_sync account internal indexed
              found ← sync_address_list addresses
              ok (some found)
          ]

      -- The loop, on fuel, with what was found so far; `none` if the fuel does not suffice.
      unfoldable pub gap_search :
          ℕ
          → String
          → ℕ
          → List Address
          → List (SyncedMessage M)
          → Option (Result (List Address × List (SyncedMessage M)))
      unfolding gap_round is_empty_round
      gap_search zero hrp start generated found = none
      gap_search (suc fuel) hrp start generated found = elim (gap_round hrp start) [
        | err e ↦ some (err e)
        | ok none ↦ some (ok (generated, found))
        | ok (some (addresses, messages)) ↦
            let more =
              gap_search fuel hrp (start + gap_limit) (generated ++ addresses)
                (found ++ messages) in
            if is_empty_round addresses messages
            then some (ok (generated ++ addresses, found ++ messages))
            else more
      ]

      unfoldable pub check_for_new_used_addresses :
          ℕ → Option (Result (List Address × List (SyncedMessage M)))
      unfolding gap_search first_new_index bech32_hrp
      check_for_new_used_addresses fuel = elim (bech32_hrp account) [
        | err e ↦ some (err e)
        | ok hrp ↦ gap_search fuel hrp (first_new_index account internal) [] []
      ]
