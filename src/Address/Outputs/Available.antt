-- ===== src/Address/Outputs/Available.antt =====
-- `available_outputs` and `available_balance` (src/address.rs) against an independent filter.
use wallet_rs.Prelude.{
  ℕ, ◌≤◌, ◌<◌, ◌≡◌, refl, inl, inr, Bool, true, false, not, ◌||◌, List, [], ◌∷◌, arith, u64_mod,
  sum_by, fold64, fold64_exact, any, filter, All, Bool-cases, any-Elem, All-Elem, All-filter, Elem,
  ◌≢◌, some, if◌then◌else◌,
}
use wallet_rs.Error.{ok, Result-cases}
use wallet_rs.Address.Types.{AddressOutput, OutputId, id_of, output_id_eq_iff, Address}
use wallet_rs.Address.Outputs.{
  values, references, input_is, balance, keep_available, available_outputs, available_balance,
}
use wallet_rs.Message.Types.{
  Message, MessagePayload, MessageTransactionPayload, TransactionInput, TransactionUtxoInput,
}

-- Neither spent nor an input of a pending or confirmed message.
abbrev pub is_free : List Message → AddressOutput → Bool
is_free messages o = not (o.is_spent || any (references (id_of o)) messages)

-- What an output counts for in the balance.
abbrev pub unspent_amount : AddressOutput → ℕ
unspent_amount o = if o.is_spent then 0 else o.amount

-- The message is not known to have failed, and one of its inputs is the output.
pub data Uses (m : Message) (id : OutputId) : Type 0 where
  uses :
      (tx : MessageTransactionPayload) (x : TransactionUtxoInput)
      → m.confirmed ≢ some false
      → m.payload ≡ some (MessagePayload.transaction tx)
      → Elem (TransactionInput.utxo x) tx.essence.inputs
      → x.input ≡ id
      → Uses m id

references-Uses : (m : Message) (id : OutputId) → Uses m id → references id m ≡ true
unfolding references
references-Uses m id (Uses.uses tx x pending payload e same) =
    let found : any (input_is id) tx.essence.inputs ≡ true =
      any-Elem (input_is id) e ((output_id_eq_iff x.input id).1 same) in
    ground arith

free_sum :
    (messages : List Message) (os : List AddressOutput)
    → sum_by (λ o. o.amount) (filter (is_free messages) os) ≤ sum_by unspent_amount os
free_sum messages [] = omega arith
free_sum messages (o ∷ os) = ground (arith, free_sum messages os)

module _ (index_valid : ℕ → Bool) where
  -- The message library accepts the index; the others make `is_used` panic.
  abbrev pub HasValidIndex : AddressOutput → Type 0
  HasValidIndex o = index_valid o.index ≡ true

  keep_available-eq-filter :
      (messages : List Message) (os : List AddressOutput)
      → All HasValidIndex os
      → keep_available index_valid messages os ≡ ok (filter (is_free messages) os)
  unfolding keep_available
  keep_available-eq-filter messages [] h = refl
  keep_available-eq-filter messages (o ∷ os) h = elim (Bool-cases o.is_spent) [
    | inl spent ↦ simp (spent, keep_available-eq-filter messages os h.1)
    | inr unspent ↦ elim (Bool-cases (any (references (id_of o)) messages)) [
      | inl used ↦ simp (unspent, h.0, keep_available-eq-filter messages os h.1, used)
      | inr unused ↦ simp (unspent, h.0, keep_available-eq-filter messages os h.1, unused)
    ]
  ]

  keep_available-ok :
      (messages : List Message) (os : List AddressOutput) (kept : List AddressOutput)
      → keep_available index_valid messages os ≡ ok kept
      → kept ≡ filter (is_free messages) os
  unfolding keep_available
  keep_available-ok messages [] kept h = cc
  keep_available-ok messages (o ∷ os) kept h =
      elim (Result-cases (keep_available index_valid messages os)) [
        | inl (rest, e) ↦ ground (arith, keep_available-ok messages os rest e)
        | inr (_, e) ↦ ground arith
      ]

  -- An output that is returned is unspent, and no message that is pending or confirmed uses it.
  pub available_outputs-unused :
      (address : Address) (messages : List Message) {os : List AddressOutput} {o : AddressOutput}
      → available_outputs index_valid address messages ≡ ok os
      → Elem o os
      → (o.is_spent ≡ false) × ((m : Message) → Elem m messages → ¬ Uses m (id_of o))
  unfolding available_outputs
  available_outputs-unused address messages {os} {o} h e =
      let all_free : All (λ x. is_free messages x ≡ true) os =
        rw (keep_available-ok messages (values address.outputs) os h)
          (All-filter (is_free messages) (values address.outputs)) in
      let free : is_free messages o ≡ true = All-Elem _ all_free e in
      (
        ground arith,
        λ m em u.
            let used = any-Elem (references (id_of o)) em (references-Uses m (id_of o) u) in
            ground arith,
      )

  -- When the message library accepts the index of every output and the unspent amounts fit in 64
  -- bits together, the available balance is computed, and it is at most the balance.
  pub available_balance-le-balance :
      (address : Address) (messages : List Message)
      → All HasValidIndex (values address.outputs)
      → sum_by unspent_amount (values address.outputs) < u64_mod
      → (b : ℕ) × (available_balance index_valid address messages ≡ ok b) × (b ≤ balance address)
  unfolding available_balance available_outputs balance
  available_balance-le-balance address messages h bound =
      let free = filter (is_free messages) (values address.outputs) in
      let sums = free_sum messages (values address.outputs) in
      (
        fold64 (λ o. o.amount) 0 free,
        rw (keep_available-eq-filter messages (values address.outputs) h),
        omega (
          arith,
          fold64_exact (λ o. o.amount) 0 free (omega arith),
          fold64_exact unspent_amount 0 (values address.outputs) (omega arith),
        ),
      )
