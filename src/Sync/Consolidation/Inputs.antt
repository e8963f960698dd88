-- ===== src/Sync/Consolidation/Inputs.antt =====
-- The inputs of the consolidation transfers of an address.
use mathlib.Core.List.{append_assoc}
use wallet_rs.Prelude.{
  ℕ, ◌+◌, ◌≤◌, ◌<◌, ◌≡◌, refl, subst, ◌∙◌, ap, inl, inr, Bool, false, none, some, List, [], ◌∷◌,
  ◌++◌, arith, leb, ◌==◌, length, All, Bool-cases, fold64, u64_mod, add64, add64-lt, ◌⊎◌,
}
use wallet_rs.Error.{ok, err, >>=-eq-ok, panic}
use wallet_rs.Address.Types.{AddressOutput, AddressWrapper, Address}
use wallet_rs.Address.Outputs.{available_outputs}
use wallet_rs.Message.Types.{Message}
use wallet_rs.Message.Transfer.{
  Transfer, with_input, new_builder, new_transfer_output, default_builder,
  with_events as builder_events, amount as transfer_amount,
}
use wallet_rs.Account.Types.{SignerType}
use wallet_rs.Sync.Consolidation.{
  output_kind_for, chunks_from, chunks, chunk_transfer, chunk_transfers, consolidated,
  consolidation_inputs, address_transfers,
}

abbrev pub concat : List (List AddressOutput) → List AddressOutput
concat [] = []
concat (l ∷ ls) = l ++ concat ls

chunks_from-concat :
    (n : ℕ) (current l : List AddressOutput) → concat (chunks_from n current l) ≡ current ++ l
unfolding chunks_from
chunks_from-concat n current [] = refl
chunks_from-concat n current (o ∷ l) = elim (Bool-cases (leb n (length current))) [
  | inl full ↦ simp full (ap (λ t. current ++ t) (chunks_from-concat n (o ∷ []) l))
  | inr more ↦
      simp more (chunks_from-concat n (current ++ (o ∷ [])) l ∙ append_assoc current (o ∷ []) l)
]

length-snoc : (l : List AddressOutput) (o : AddressOutput) → length (l ++ (o ∷ [])) ≡ length l + 1
length-snoc [] o = refl
length-snoc (x ∷ l) o = omega (arith, length-snoc l o)

chunks_from-length :
    (n : ℕ) (current l : List AddressOutput)
    → 1 ≤ n
    → length current ≤ n
    → All (λ c. length c ≤ n) (chunks_from n current l)
unfolding chunks_from
chunks_from-length n current [] pos_n h = (h, tt)
chunks_from-length n current (o ∷ l) pos_n h = elim (Bool-cases (leb n (length current))) [
  | inl full ↦ simp full (h, chunks_from-length n (o ∷ []) l pos_n pos_n)
  | inr more ↦
      let grown = length-snoc current o in
      simp more (chunks_from-length n (current ++ (o ∷ [])) l pos_n (ground arith))
]

-- The inputs that a transfer names itself.
abbrev pub named_inputs : Transfer → List AddressOutput
named_inputs t = elim t.input [ none ↦ [] | some [] ↦ [] | some ((a, os) ∷ rest) ↦ os ]

-- A transfer of the chunk to the address itself, of all that the chunk holds.
abbrev pub IsConsolidation : AddressWrapper → List AddressOutput → Transfer → Type 0
IsConsolidation address c t =
    (t.input ≡ some ((address, c) ∷ []))
    × (transfer_amount t ≡ fold64 (λ o. o.amount) 0 c)
    × All (λ o. o.address ≡ address) t.outputs

fold64-lt :
    (acc : ℕ) (l : List AddressOutput) → acc < u64_mod → fold64 (λ o. o.amount) acc l < u64_mod
unfolding fold64
fold64-lt acc [] h = h
fold64-lt acc (o ∷ l) h = fold64-lt (add64 acc o.amount) l (add64-lt acc o.amount)

chunk_transfer-IsConsolidation :
    (include : Bool) (address : AddressWrapper) (c : List AddressOutput) {t : Transfer}
    → chunk_transfer include address c ≡ ok t
    → IsConsolidation address c t
unfolding chunk_transfer with_input new_builder new_transfer_output default_builder builder_events
    transfer_amount fold64 add64
chunk_transfer-IsConsolidation include address c {t} e =
    let value = fold64 (λ o. o.amount) 0 c in
    let bound = fold64-lt 0 c (omega arith) in
    let made =
      builder_events (with_input (new_builder address value (output_kind_for include c)) address c)
        false in
    elim (Bool-cases (value == 0)) [
      | inl zero_sum ↦
          let step : chunk_transfer include address c ≡ err panic = rw zero_sum in absurd (cc)
      | inr some_sum ↦
          let step : chunk_transfer include address c ≡ ok made = rw some_sum in
          let same : made ≡ t = cc in
          subst (IsConsolidation address c) same (refl, omega arith, (refl, tt))
    ]

-- One transfer for each chunk.
pub data AreConsolidations (address : AddressWrapper)
    : List (List AddressOutput) → List Transfer → Type 0 where
  no_chunks : AreConsolidations address [] []
  next_chunk :
      {c : List AddressOutput} {cs : List (List AddressOutput)} {t : Transfer} {ts : List Transfer}
      → IsConsolidation address c t
      → AreConsolidations address cs ts
      → AreConsolidations address (c ∷ cs) (t ∷ ts)

chunk_transfers-AreConsolidations :
    (include : Bool) (address : AddressWrapper) (cs : List (List AddressOutput))
    {ts : List Transfer}
    → chunk_transfers include address cs ≡ ok ts
    → AreConsolidations address cs ts
unfolding chunk_transfers
chunk_transfers-AreConsolidations include address [] {ts} e =
    let same : [] ≡ ts = cc in subst (AreConsolidations address []) same AreConsolidations.no_chunks
chunk_transfers-AreConsolidations include address (c ∷ cs) {ts} e =
    let (t, t_e, e1) = >>=-eq-ok (chunk_transfer include address c) _ e in
    let (us, us_e, e2) = >>=-eq-ok (chunk_transfers include address cs) _ e1 in
    let same : t ∷ us ≡ ts = cc in
    subst (AreConsolidations address (c ∷ cs)) same (
      AreConsolidations.next_chunk (chunk_transfer-IsConsolidation include address c t_e)
        (chunk_transfers-AreConsolidations include address cs us_e))

chunks-facts :
    (n : ℕ) (l : List AddressOutput) {cs : List (List AddressOutput)}
    → chunks n l ≡ ok cs
    → (concat cs ≡ l) × All (λ c. length c ≤ n) cs
unfolding chunks
chunks-facts n [] {cs} e = elim (Bool-cases (n == 0)) [
  | inl none_fit ↦ absurd (ground arith)
  | inr some_fit ↦
      let same : [] ≡ cs = ground arith in
      subst (λ x. (concat x ≡ []) × All (λ c. length c ≤ n) x) same (refl, tt)
]
chunks-facts n (o ∷ l) {cs} e = elim (Bool-cases (n == 0)) [
  | inl none_fit ↦ absurd (ground arith)
  | inr some_fit ↦
      let same : chunks_from n (o ∷ []) l ≡ cs = ground arith in
      let pos_n : 1 ≤ n = ground arith in
      subst (λ x. (concat x ≡ o ∷ l) × All (λ c. length c ≤ n) x) same
        (chunks_from-concat n (o ∷ []) l, chunks_from-length n (o ∷ []) l pos_n pos_n)
]

module _ (index_valid : ℕ → Bool) (input_output_count_max : ℕ) where
  -- The transfers that consolidate an address, if there are any, take all the available outputs
  -- that are to be consolidated, each once and in their order, as inputs, no transfer takes more
  -- than the limit, and each sends what its inputs hold back to the address.
  pub address_transfers-AreConsolidations :
      (threshold : ℕ) (include : Bool) (signer_type : SignerType) (sent_messages : List Message)
      (a : Address) {available : List AddressOutput} {ts : List Transfer}
      → available_outputs index_valid a sent_messages ≡ ok available
      → address_transfers index_valid input_output_count_max threshold include signer_type
          sent_messages a
        ≡ ok ts
      → (ts ≡ [])
        ⊎ ((cs : List (List AddressOutput)) × (concat cs ≡ consolidated include available)
            × All (λ c. length c ≤ consolidation_inputs input_output_count_max signer_type) cs
            × AreConsolidations a.address cs ts)
  unfolding address_transfers
  address_transfers-AreConsolidations threshold include signer_type sent_messages a {available} {ts}
        available_e e =
      elim (Bool-cases (leb threshold (length a.outputs))) [
        | inr few ↦ inl (ground arith)
        | inl enough ↦ elim (Bool-cases (leb threshold (length (consolidated include available)))) [
          | inr few ↦
              let step : address_transfers index_valid input_output_count_max threshold include
                    signer_type sent_messages a
                  ≡ ok [] =
                rw (enough, available_e, few) in
              inl (cc)
          | inl many ↦
              let limit = consolidation_inputs input_output_count_max signer_type in
              let (cs, cs_e, e1) =
                >>=-eq-ok (chunks limit (consolidated include available)) _
                  (rw (enough, available_e, many) at e) in
              let (joined, short) = chunks-facts limit (consolidated include available) cs_e in
              inr (cs, joined, short, chunk_transfers-AreConsolidations include a.address cs e1)
        ]
      ]
