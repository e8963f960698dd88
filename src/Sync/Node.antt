-- ===== src/Sync/Node.antt =====
-- What a synchronisation asks a node for, and `sync_address`, which brings the outputs of one
-- address up to date (src/account/sync/mod.rs). The node, the hex codec and the acceptance of an
-- output index are parameters; `M` is the message type of the client library.
pub mod Outputs
use wallet_rs.Prelude.{
  ℕ, ◌≡◌, refl, ◌⊎◌, inl, inr, Bool, true, false, not, ◌&&◌, String, Option, none, some, List, [],
  ◌∷◌, ◌++◌, any, filter, map, find, ◌==◌, if◌then◌else◌,
}
use wallet_rs.Error.{Result, ok, err, ◌>>=◌, client_error}
use wallet_rs.Address.Types.{AddressWrapper, OutputId, output_id_eq, AddressOutput, Address}
use wallet_rs.Address.Outputs.{id}
use wallet_rs.Address.Builder.{OutputResponse, from_output_response, insert_output}

-- `iota_client::Error`: a status of the node, or anything else.
pub data ClientError : Type 0 where
  response_error : ℕ → ClientError
  other_error : ClientError

pub data Answer (A : Type 0) : Type 0 where
  failed : ClientError → Answer A
  answered : A → Answer A

pub Answer-cases :
    {A : Type 0} (m : Answer A)
    → ((a : A) × (m ≡ answered a)) ⊎ ((e : ClientError) × (m ≡ failed e))
Answer-cases (failed e) = inr (e, refl)
Answer-cases (answered a) = inl (a, refl)

-- `?` on an answer.
abbrev pub or_fail : {A : Type 0} → Answer A → Result A
or_fail (failed e) = err client_error
or_fail (answered a) = ok a

-- The endpoints of `iota_client::Client` that are used. The flag asks for spent outputs too.
pub record Node (M : Type 0) : Type 0 where
  pub outputs : String → Bool → Answer (List OutputId)
  pub output : OutputId → Answer OutputResponse
  pub message : ℕ → Answer M

pub record SyncedMessage (M : Type 0) : Type 0 where
  pub id : ℕ
  pub inner : M

-- What is known of the messages of the account: their ids and confirmation states.
abbrev pub Known : Type 0
Known = List (ℕ × Option Bool)

abbrev pub is_true : Option Bool → Bool
is_true none = false
is_true (some b) = b

-- The message is known and confirmed.
abbrev pub is_confirmed : Known → ℕ → Bool
is_confirmed known id = any (λ m. m.0 == id && is_true m.1) known

-- An output that the node does not list is spent.
unfoldable pub mark_missing :
    List OutputId → List (OutputId × AddressOutput) → List (OutputId × AddressOutput)
mark_missing listed outputs =
    map
      (λ e.
        if any (λ i. output_id_eq i e.0) listed then e else (e.0, record e.1 { is_spent = true }))
      outputs

-- Whether an output is requested: all but those that are known as spent.
unfoldable pub is_requested : List (OutputId × AddressOutput) → OutputId → Bool
is_requested outputs i = elim (find (λ e. output_id_eq e.0 i) outputs) [
  | none ↦ true
  | some e ↦ not e.1.is_spent
]

module _ {M : Type 0} (node : Node M) where
  -- A message that the node does not have is no error.
  unfoldable pub get_message : ℕ → Result (Option M)
  get_message message_id = elim (node.message message_id) [
    | answered m ↦ ok (some m)
    | failed (response_error status) ↦ if status == 404 then ok none else err client_error
    | failed other_error ↦ err client_error
  ]

  -- The message of an output, if it is not known as confirmed.
  unfoldable pub new_message : Known → ℕ → Result (Option (SyncedMessage M))
  unfolding get_message
  new_message known message_id =
      let requested : Result (Option (SyncedMessage M)) = get_message message_id >>= λ answer.
      ok (elim answer [ none ↦ none | some m ↦ some (record { id = message_id; inner = m }) ]) in
      if is_confirmed known message_id then ok none else requested

  module _ (hex_decode : String → Option (List ℕ)) where
    -- The task of one output.
    unfoldable pub fetch :
        Known → String → OutputId → Result (AddressOutput × Option (SyncedMessage M))
    unfolding new_message from_output_response
    fetch known bech32_hrp i = do
      response ← or_fail (node.output i)
      found ← from_output_response hex_decode response bech32_hrp
      m ← new_message known found.message_id
      ok (found, m)

    module _ (index_valid : ℕ → Bool) where
      -- The results of the tasks. An error ends the synchronisation if spent outputs are asked
      -- for, and is passed over otherwise.
      unfoldable pub receive :
          Bool
          → List (Result (AddressOutput × Option (SyncedMessage M)))
          → List (OutputId × AddressOutput)
          → List (SyncedMessage M)
          → Result (List (OutputId × AddressOutput) × List (SyncedMessage M))
      unfolding insert_output
      receive sync_spent_outputs [] outputs found = ok (outputs, found)
      receive sync_spent_outputs (ok (o, none) ∷ rest) outputs found = id index_valid o >>= λ i.
          receive sync_spent_outputs rest (insert_output i o outputs) found
      receive sync_spent_outputs (ok (o, some m) ∷ rest) outputs found = id index_valid o >>= λ i.
          receive sync_spent_outputs rest (insert_output i o outputs) (found ++ (m ∷ []))
      receive sync_spent_outputs (err e ∷ rest) outputs found =
          let passed = receive sync_spent_outputs rest outputs found in
          if not sync_spent_outputs then passed else err e

      -- The outputs that the call leaves, and the messages that it found.
      unfoldable pub sync_address :
          (AddressWrapper → String)
          → Known
          → List (OutputId × AddressOutput)
          → AddressWrapper
          → String
          → Bool
          → Result (List (OutputId × AddressOutput) × List (SyncedMessage M))
      unfolding fetch receive mark_missing is_requested
      sync_address to_bech32 known outputs address bech32_hrp sync_spent_outputs = do
        listed ← or_fail (node.outputs (to_bech32 address) sync_spent_outputs)
        let marked = mark_missing listed outputs
        receive sync_spent_outputs
            (map (fetch known bech32_hrp) (filter (is_requested marked) listed)) marked []
