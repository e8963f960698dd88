-- ===== src/Sync/Refresh.antt =====
-- `sync_addresses_and_messages` (src/account/sync/mod.rs): the addresses that the account has are
-- brought up to date. The node, the hex codec and the acceptance of an output index are parameters.
-- The tasks are independent, and their results are taken in the order of the addresses, so that
-- the chunks are not part of the model.
pub mod Outputs
use text.Mathlib.Text.{◌==◌ as str_eq}
use wallet_rs.Prelude.{
  ℕ, Bool, true, false, not, ◌&&◌, ◌||◌, String, Option, none, some, List, [], ◌∷◌, ◌++◌, any,
  filter, leb, ◌==◌, if◌then◌else◌,
}
use wallet_rs.Error.{Result, ok, err, ◌>>=◌, client_error}
use wallet_rs.Address.Types.{
  AddressWrapper, OutputId, output_id_eq, AddressOutput, Address, address_eq,
}
use wallet_rs.Address.Outputs.{id}
use wallet_rs.Address.Builder.{OutputResponse, from_output_response, insert_output}
use wallet_rs.Account.Types.{Account}
use wallet_rs.Sync.Remainder.{has_no_outputs}
use wallet_rs.Sync.Node.{
  ClientError, Answer, response_error, other_error, answered, failed, or_fail, Node, SyncedMessage,
  get_message,
}

-- `HashMap::get`
abbrev pub output_at : OutputId → List (OutputId × AddressOutput) → Option AddressOutput
output_at i [] = none
output_at i (e ∷ rest) = if output_id_eq e.0 i then some e.1 else output_at i rest

abbrev pub as_spent : AddressOutput → AddressOutput
as_spent o = record o { is_spent = true }

-- The outputs so far, and whether anything changed.
abbrev pub Progress : Type 0
Progress = List (OutputId × AddressOutput) × Bool

-- What the node does not list any more is spent.
unfoldable pub prune : List OutputId → List (OutputId × AddressOutput) → Progress → Progress
unfolding insert_output
prune listed [] p = p
prune listed (e ∷ rest) p =
    let kept = prune listed rest p in
    let spent = prune listed rest (insert_output e.0 (as_spent e.1) p.0, true) in
    if any (λ i. output_id_eq i e.0) listed || e.1.is_spent then kept else spent

-- The output that is not requested again.
unfoldable pub reused_output : Bool → Option AddressOutput → Option AddressOutput
reused_output sync_spent_outputs none = none
reused_output sync_spent_outputs (some o) =
    if o.is_spent
    then (if sync_spent_outputs then some o else none)
    else (if not sync_spent_outputs then some o else none)

-- The equality of `Address`.
abbrev pub same_bech32 : (AddressWrapper → String) → Address → Address → Bool
same_bech32 to_bech32 a b = str_eq (to_bech32 a.address) (to_bech32 b.address)

module _ {M : Type 0} (node : Node M) (hex_decode : String → Option (List ℕ))
    (index_valid : ℕ → Bool) (to_bech32 : AddressWrapper → String) (known_confirmed : List ℕ)
    (sync_spent_outputs : Bool) where
  -- An output that the node has pruned.
  unfoldable pub take_pruned : Option AddressOutput → Progress → Result (Option (ℕ × Progress))
  unfolding insert_output
  take_pruned none p = ok none
  take_pruned (some o) p = do
    k ← id index_valid (as_spent o)
    ok (some (o.message_id, (insert_output k (as_spent o) p.0, true)))

  -- What the answer for an output leaves: the message id of the output and the progress, or `none`
  -- where the loop continues with the next output.
  unfoldable pub take_answer :
      Address → OutputId → Progress → Answer OutputResponse → Result (Option (ℕ × Progress))
  unfolding from_output_response insert_output take_pruned
  take_answer address i p (answered response) = do
    o ← from_output_response hex_decode response address.address.bech32_hrp
    ok (some (o.message_id, (insert_output i o p.0, true)))
  take_answer address i p (failed other_error) = err client_error
  take_answer address i p (failed (response_error status)) =
      if status == 404 then take_pruned (output_at i address.outputs) p else err client_error

  unfoldable pub output_message : Address → OutputId → Progress → Result (Option (ℕ × Progress))
  unfolding take_answer reused_output
  output_message address i p =
      elim (reused_output sync_spent_outputs (output_at i address.outputs)) [
        | some o ↦ ok (some (o.message_id, p))
        | none ↦ take_answer address i p (node.output i)
      ]

  -- The message of an output, if it is not known as confirmed; one that is found is a change.
  unfoldable pub add_message :
      ℕ → Progress × List (SyncedMessage M) → Result (Progress × List (SyncedMessage M))
  unfolding get_message
  add_message message_id (p, messages) =
      let requested : Result (Progress × List (SyncedMessage M)) =
        get_message node message_id >>= λ answer. ok (elim answer [
          | none ↦ (p, messages)
          | some m ↦ ((p.0, true), messages ++ (record { id = message_id; inner = m } ∷ []))
        ]) in
      if any (λ k. k == message_id) known_confirmed then ok (p, messages) else requested

  -- The loop over the listed outputs.
  unfoldable pub refresh_outputs :
      Address
      → List OutputId
      → Progress × List (SyncedMessage M)
      → Result (Progress × List (SyncedMessage M))
  unfolding output_message add_message
  refresh_outputs address [] s = ok s
  refresh_outputs address (i ∷ rest) s = output_message address i s.0 >>= λ found. elim found [
    | none ↦ refresh_outputs address rest s
    | some (message_id, p) ↦
        add_message message_id (p, s.1) >>= λ next. refresh_outputs address rest next
  ]

  -- The task of an address: the address with its outputs, the messages, and whether anything
  -- changed.
  unfoldable pub refresh_address : Address → Result (Address × List (SyncedMessage M) × Bool)
  unfolding prune refresh_outputs
  refresh_address address = do
    listed ← or_fail (node.outputs (to_bech32 address.address) sync_spent_outputs)
    (p, messages) ←
        refresh_outputs address listed (prune listed address.outputs (address.outputs, false), [])
    ok (record address { outputs = p.0 }, messages, p.1)

  -- Only what changed is returned, and of the addresses those that have outputs.
  unfoldable pub refresh_list : List Address → Result (List Address × List (SyncedMessage M))
  unfolding refresh_address
  refresh_list [] = ok ([], [])
  refresh_list (a ∷ rest) = do
    (address, found, changed) ← refresh_address a
    (addresses, messages) ← refresh_list rest
    ok (
        if changed
        then (
          (if has_no_outputs address then addresses else address ∷ addresses),
          found ++ messages,
        )
        else (addresses, messages))

  -- The addresses that are not left out.
  unfoldable pub is_refreshed : List Address → Bool → List AddressWrapper → ℕ → Address → Bool
  is_refreshed skip_addresses skip_change_addresses change_addresses_to_sync address_start_index a =
      leb address_start_index a.key_index
      && not (
          any (λ s. same_bech32 to_bech32 s a) skip_addresses
          || (a.internal
              && skip_change_addresses
              && not (any (λ c. address_eq c a.address) change_addresses_to_sync)))

  unfoldable pub sync_addresses_and_messages :
      Account
      → List Address
      → Bool
      → List AddressWrapper
      → ℕ
      → Result (List Address × List (SyncedMessage M))
  unfolding refresh_list is_refreshed
  sync_addresses_and_messages account skip_addresses skip_change_addresses change_addresses_to_sync
        address_start_index =
      refresh_list (
        filter
          (is_refreshed skip_addresses skip_change_addresses change_addresses_to_sync
            address_start_index)
          account.addresses)
