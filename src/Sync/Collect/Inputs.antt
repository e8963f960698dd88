-- ===== src/Sync/Collect/Inputs.antt =====
-- What `collect_inputs` lists: the inputs in the order of the selected outputs, and the dust
-- entries.
use wallet_rs.Prelude.{
  ℕ, ◌+◌, ◌<◌, ◌≡◌, refl, sym, subst, ◌∙◌, ap, Bool, false, ◌||◌, List, [], ◌∷◌, ◌++◌, arith,
  u64_mod, String, map, sum_by, ltb, if◌then◌else◌,
}
use mathlib.Core.List.{append-nil, append_assoc}
use wallet_rs.Error.{ok, >>=-eq-ok}
use wallet_rs.Address.Types.{AddressWrapper, AddressOutput, OutputId, id_of, is_dust_allowance}
use wallet_rs.Address.Outputs.{id}
use wallet_rs.InputSelection.Types.{dust_allowance_value}
use wallet_rs.Sync.Collect.{
  Collected, Utxo, DustRecord, SigningInput, add_input, record_input, push_input, collect_inputs,
}
use wallet_rs.Sync.Collect.Sums.{utxo_amount, IsFilled, add_input-IsFilled, add_input-recorders}

-- The parts of an input that the ledger, the essence and the check of the unlock blocks get.
abbrev pub utxo_id : Utxo → OutputId
utxo_id u = id_of u.output

abbrev pub signing_input : Utxo → SigningInput
signing_input u = record {
  input = id_of u.output;
  address_index = u.address_index;
  address_internal = u.address_internal;
}

-- Dust, or a dust allowance.
abbrev pub is_recorded : Utxo → Bool
is_recorded u = ltb u.output.amount dust_allowance_value || is_dust_allowance u.output.kind

-- A list that grew by one element, and then by others.
extend_one {ℓ} :
    {A : Type ℓ} {r next : List A} {a b : A} (l m : List A)
    → r ≡ next ++ m
    → next ≡ l ++ (a ∷ [])
    → a ≡ b
    → r ≡ l ++ (b ∷ m)
extend_one l m e1 e2 e3 = e1 ∙ ap (λ n. n ++ m) e2 ∙ append_assoc l _ m ∙ ap (λ x. l ++ (x ∷ m)) e3

signing_input-eq :
    (u : Utxo) {input : OutputId}
    → input ≡ id_of u.output
    → record {
      input = input;
      address_index = u.address_index;
      address_internal = u.address_internal;
    }
      ≡ signing_input u
signing_input-eq u e =
    ap
      (λ i. record {
        input = i;
        address_index = u.address_index;
        address_internal = u.address_internal;
      })
      e

module _ (to_bech32 : AddressWrapper → String) (index_valid amount_valid : ℕ → Bool) where
  -- The dust entries of the inputs: those of the dust and of the dust allowance outputs, in order,
  -- none of which is created.
  abbrev pub input_records : List Utxo → List DustRecord
  input_records [] = []
  input_records (u ∷ us) =
      let later = input_records us in
      if is_recorded u
      then record {
        amount = u.output.amount;
        address = to_bech32 u.output.address;
        created = false;
      }
        ∷ later
      else later

  -- The three lists hold the same inputs in the same order, and the entries are those of the
  -- inputs.
  abbrev pub IsListed : List Utxo → Collected → Collected → Type 0
  IsListed us s r =
      (r.inputs_for_essence ≡ s.inputs_for_essence ++ map utxo_id us)
      × (r.transaction_inputs ≡ s.transaction_inputs ++ map signing_input us)
      × (r.dust_and_allowance_recorders ≡ s.dust_and_allowance_recorders ++ input_records us)

  record_input-eq :
      (u : Utxo) (recorders : List DustRecord) {r : List DustRecord}
      → record_input to_bech32 index_valid amount_valid u.output recorders ≡ ok r
      → r ≡ recorders ++ input_records (u ∷ [])
  unfolding record_input
  record_input-eq u recorders {r} e = ground (arith, append-nil recorders)

  input_records-append :
      (us vs : List Utxo) → input_records (us ++ vs) ≡ input_records us ++ input_records vs
  input_records-append [] vs = refl
  input_records-append (u ∷ us) vs = ground (arith, input_records-append us vs)

  id-eq : (o : AddressOutput) {i : OutputId} → id index_valid o ≡ ok i → i ≡ id_of o
  unfolding id
  id-eq o h = ground arith

  abbrev pub step : ℕ → Utxo → OutputId → List DustRecord → Collected → Collected
  step transfer u input recorders s =
      add_input transfer u.output.amount (to_bech32 u.output.address)
        (push_input to_bech32 index_valid amount_valid u input recorders s)

  step-ids :
      (transfer : ℕ) (u : Utxo) (input : OutputId) (recorders : List DustRecord) (s : Collected)
      → ((step transfer u input recorders s).inputs_for_essence
          ≡ s.inputs_for_essence ++ (input ∷ []))
        × ((step transfer u input recorders s).transaction_inputs
            ≡ s.transaction_inputs
              ++ (record {
                input = input;
                address_index = u.address_index;
                address_internal = u.address_internal;
              }
                  ∷ []))
  unfolding add_input push_input
  step-ids transfer u input recorders s = (ground arith, ground arith)

  -- When what is paid and what remains fill the transfer up to `total`, and the amounts fit in 64
  -- bits, collecting lists the inputs in their order, each with its key, and records the dust and
  -- the dust allowance outputs among them and nothing else.
  pub collect_inputs-IsListed :
      (transfer total : ℕ) (us : List Utxo) (s : Collected) {r : Collected}
      → transfer < u64_mod
      → total + sum_by utxo_amount us < u64_mod
      → IsFilled transfer total s
      → collect_inputs to_bech32 index_valid amount_valid transfer us s ≡ ok r
      → IsListed us s r
  unfolding collect_inputs
  collect_inputs-IsListed transfer total [] s {r} h bound filled e =
      let same : s ≡ r = cc in
      subst (λ r'. IsListed [] s r') same
        (sym (append-nil _), sym (append-nil _), sym (append-nil _))
  collect_inputs-IsListed transfer total (u ∷ us) s {r} h bound filled e =
      let (recorders, recorders_e, e1) =
        >>=-eq-ok
          (record_input to_bech32 index_valid amount_valid u.output s.dust_and_allowance_recorders)
          _ e in
      let (input, input_e, e2) = >>=-eq-ok (id index_valid u.output) _ e1 in
      let pushed = push_input to_bech32 index_valid amount_valid u input recorders s in
      let filled_next =
        add_input-IsFilled transfer u.output.amount total (to_bech32 u.output.address) pushed h
          (omega arith) filled in
      let (ids, inputs, records) =
        collect_inputs-IsListed transfer (total + u.output.amount) us
          (step transfer u input recorders s) h (omega arith) filled_next e2 in
      let (id_step, input_step) = step-ids transfer u input recorders s in
      let kept =
        add_input-recorders transfer u.output.amount (to_bech32 u.output.address) pushed h
          (omega arith) (omega arith) in
      let entry = record_input-eq u s.dust_and_allowance_recorders recorders_e in
      let is_id = id-eq u.output input_e in
      let split = input_records-append (u ∷ []) us in
      (
        extend_one s.inputs_for_essence (map utxo_id us) ids id_step is_id,
        extend_one s.transaction_inputs (map signing_input us) inputs input_step
            (signing_input-eq u is_id),
        records
            ∙ ap (λ l. l ++ input_records us) (kept ∙ entry)
            ∙ append_assoc s.dust_and_allowance_recorders (input_records (u ∷ []))
                (input_records us)
            ∙ ap (λ l. s.dust_and_allowance_recorders ++ l) (sym split),
      )
