-- ===== src/Sync/Node/Outputs.antt =====
-- The outputs that `sync_address` leaves (src/account/sync/mod.rs).
use wallet_rs.Prelude.{
  ℕ, ◌≡◌, refl, sym, ◌∙◌, ap, subst, inl, inr, Bool, true, false, String, Option, none, some, List,
  [], ◌∷◌, ◌++◌, any, filter, map, arith, Bool-cases, All, Elem, here, there, any-Elem,
}
use wallet_rs.Error.{Result, ok, err, >>=-eq-ok, Result-cases}
use wallet_rs.Address.Types.{
  AddressWrapper, OutputId, output_id_eq, output_id_eq_iff, AddressOutput, id_of,
}
use wallet_rs.Address.Outputs.{id}
use wallet_rs.Address.Builder.{OutputResponse, from_output_response, insert_output}
use wallet_rs.Sync.Node.{
  or_fail, Node, SyncedMessage, Known, mark_missing, is_requested, new_message, fetch, receive,
  sync_address,
}

-- The map has an entry for the output.
abbrev pub has : OutputId → List (OutputId × AddressOutput) → Bool
has i outputs = any (λ e. output_id_eq e.0 i) outputs

-- The output is in the list.
abbrev pub is_listed : List OutputId → OutputId → Bool
is_listed listed i = any (λ j. output_id_eq j i) listed

-- An entry that is not in the list is spent.
abbrev pub SpentUnless : List OutputId → (OutputId × AddressOutput) → Type 0
SpentUnless listed e = is_listed listed e.0 ≡ false → e.1.is_spent ≡ true

has-insert_output :
    (i k : OutputId) (o : AddressOutput) (outputs : List (OutputId × AddressOutput))
    → has i outputs ≡ true
    → has i (insert_output k o outputs) ≡ true
unfolding insert_output
has-insert_output i k o [] h = absurd (cc)
has-insert_output i k o (e ∷ rest) h = ground (arith, has-insert_output i k o rest)

has-insert_output_own :
    (k : OutputId) (o : AddressOutput) (outputs : List (OutputId × AddressOutput))
    → has k (insert_output k o outputs) ≡ true
unfolding insert_output
has-insert_output_own k o [] = let own = (output_id_eq_iff k k).1 refl in rw own refl
has-insert_output_own k o (e ∷ rest) = ground (arith, has-insert_output_own k o rest)

SpentUnless-insert_output :
    (listed : List OutputId) (k : OutputId) (o : AddressOutput)
    (outputs : List (OutputId × AddressOutput))
    → is_listed listed k ≡ true
    → All (SpentUnless listed) outputs
    → All (SpentUnless listed) (insert_output k o outputs)
unfolding insert_output
SpentUnless-insert_output listed k o [] own h = (λ unlisted. absurd (cc), tt)
SpentUnless-insert_output listed k o (e ∷ rest) own h = elim (Bool-cases (output_id_eq e.0 k)) [
  | inl here_e ↦
      let same : e.0 ≡ k = (output_id_eq_iff e.0 k).0 here_e in
      rw here_e (
        (λ unlisted.
            let l : is_listed listed e.0 ≡ true = ap (is_listed listed) same ∙ own in absurd (cc)),
        h.1,
      )
  | inr there_e ↦ rw there_e (h.0, SpentUnless-insert_output listed k o rest own h.1)
]

SpentUnless-mark_missing :
    (listed : List OutputId) (outputs : List (OutputId × AddressOutput))
    → All (SpentUnless listed) (mark_missing listed outputs)
unfolding mark_missing
SpentUnless-mark_missing listed [] = tt
SpentUnless-mark_missing listed (e ∷ rest) = (
  elim (Bool-cases (is_listed listed e.0)) [
    | inl l ↦ rw l (λ unlisted. absurd (cc))
    | inr l ↦ rw l (λ unlisted. refl)
  ],
  SpentUnless-mark_missing listed rest,
)

has-mark_missing :
    (i : OutputId) (listed : List OutputId) (outputs : List (OutputId × AddressOutput))
    → has i (mark_missing listed outputs) ≡ has i outputs
unfolding mark_missing
has-mark_missing i listed [] = refl
has-mark_missing i listed (e ∷ rest) = ground (arith, has-mark_missing i listed rest)

id-id_of :
    (index_valid : ℕ → Bool) (o : AddressOutput) {i : OutputId}
    → id index_valid o ≡ ok i
    → i ≡ id_of o
unfolding id
id-id_of index_valid o h = elim (Bool-cases (index_valid o.index)) [
  | inl valid ↦ ground arith
  | inr invalid ↦ absurd (ground arith)
]

module _ {M : Type 0} (node : Node M) (hex_decode : String → Option (List ℕ))
    (index_valid : ℕ → Bool) where
  abbrev Fetched : Type 0
  Fetched = Result (AddressOutput × Option (SyncedMessage M))

  -- A predicate on the output of a task that did not fail.
  abbrev Gives : (AddressOutput → Type 0) → Fetched → Type 0
  Gives G (ok (o, m)) = G o
  Gives G (err e) = Unit

  Gives-any : (results : List Fetched) → All (Gives (λ o. Unit {0})) results
  Gives-any [] = tt
  Gives-any (ok (o, m) ∷ rest) = (tt, Gives-any rest)
  Gives-any (err e ∷ rest) = (tt, Gives-any rest)

  -- What every insertion keeps, `receive` keeps.
  receive-keeps :
      (P : List (OutputId × AddressOutput) → Type 0) (G : AddressOutput → Type 0) (flag : Bool)
      → ((o : AddressOutput) (outputs : List (OutputId × AddressOutput))
          → G o
          → P outputs
          → P (insert_output (id_of o) o outputs))
      → (results : List Fetched) (outputs : List (OutputId × AddressOutput))
        (found : List (SyncedMessage M))
        {r : List (OutputId × AddressOutput) × List (SyncedMessage M)}
      → All (Gives G) results
      → P outputs
      → receive node hex_decode index_valid flag results outputs found ≡ ok r
      → P r.0
  unfolding receive id
  receive-keeps P G flag step [] outputs found {r} good p h =
      let same : outputs ≡ r.0 = cc in subst P same p
  receive-keeps P G flag step (ok (o, none) ∷ rest) outputs found good p h =
      let (i, named, more) = >>=-eq-ok (id index_valid o) _ h in
      let own : i ≡ id_of o = id-id_of index_valid o named in
      receive-keeps P G flag step rest (insert_output i o outputs) found good.1
        (subst (λ k. P (insert_output k o outputs)) (sym own) (step o outputs good.0 p)) more
  receive-keeps P G flag step (ok (o, some m) ∷ rest) outputs found good p h =
      let (i, named, more) = >>=-eq-ok (id index_valid o) _ h in
      let own : i ≡ id_of o = id-id_of index_valid o named in
      receive-keeps P G flag step rest (insert_output i o outputs) (found ++ (m ∷ [])) good.1
        (subst (λ k. P (insert_output k o outputs)) (sym own) (step o outputs good.0 p)) more
  receive-keeps P G flag step (err e ∷ rest) outputs found {r} good p h = elim (Bool-cases flag) [
    | inl e1 ↦ absurd (ground arith)
    | inr e1 ↦
        let passed : receive node hex_decode index_valid flag rest outputs found ≡ ok r =
          ground arith in
        receive-keeps P G flag step rest outputs found good.1 p passed
  ]

  -- A node answers with the output that it was asked for.
  abbrev pub AnswersAsked : Type 0
  AnswersAsked =
      (i : OutputId) (response : OutputResponse) (hrp : String) (o : AddressOutput)
      → or_fail (node.output i) ≡ ok response
      → from_output_response hex_decode response hrp ≡ ok o
      → id_of o ≡ i

  fetch-id :
      AnswersAsked
      → (known : Known) (hrp : String) (i : OutputId) {o : AddressOutput}
        {m : Option (SyncedMessage M)}
      → fetch node hex_decode known hrp i ≡ ok (o, m)
      → id_of o ≡ i
  unfolding fetch
  fetch-id law known hrp i {o} {m} h =
      let (r, first, more) = >>=-eq-ok (or_fail (node.output i)) _ h in
      let (o', made, last) = >>=-eq-ok (from_output_response hex_decode r hrp) _ more in
      let (m', got, end) = >>=-eq-ok (new_message node known o'.message_id) _ last in
      let same : o' ≡ o = cc in ap id_of (sym same) ∙ law i r hrp o' first made

  fetch-Gives :
      (known : Known) (hrp : String) (G : AddressOutput → Type 0) (i : OutputId)
      → ((o : AddressOutput) → id_of o ≡ i → G o)
      → AnswersAsked
      → Gives G (fetch node hex_decode known hrp i)
  fetch-Gives known hrp G i give law = elim (Result-cases (fetch node hex_decode known hrp i)) [
    | inl (pair, e) ↦ rw e (give pair.0 (fetch-id law known hrp i {o = pair.0} {m = pair.1} e))
    | inr (er, e) ↦ rw e tt
  ]

  -- The tasks of the requested outputs give outputs that are listed.
  fetch-Gives-listed :
      AnswersAsked
      → (known : Known) (hrp : String) (listed : List OutputId) (p : OutputId → Bool)
        (is : List OutputId)
      → ((i : OutputId) → Elem i is → is_listed listed i ≡ true)
      → All
          (Gives (λ o. is_listed listed (id_of o) ≡ true))
          (map (fetch node hex_decode known hrp) (filter p is))
  fetch-Gives-listed law known hrp listed p [] inside = tt
  fetch-Gives-listed law known hrp listed p (i ∷ is) inside =
      let later = fetch-Gives-listed law known hrp listed p is (λ j at. inside j (there at)) in
      elim (Bool-cases (p i)) [
        | inl e ↦ rw e (
          fetch-Gives known hrp (λ o. is_listed listed (id_of o) ≡ true) i
              (λ o own. ap (is_listed listed) own ∙ inside i here) law,
          later,
        )
        | inr e ↦ rw e later
      ]

  Elem-is_listed :
      (listed : List OutputId) (i : OutputId) → Elem i listed → is_listed listed i ≡ true
  Elem-is_listed listed i at = any-Elem (λ j. output_id_eq j i) at ((output_id_eq_iff i i).1 refl)

  -- After `sync_address`, an output that the node did not list is spent: if the node answers with
  -- the outputs that it is asked for and the call succeeds, every unspent output of the result is
  -- one that the node listed.
  pub sync_address-unlisted :
      (to_bech32 : AddressWrapper → String) (known : Known)
      (outputs : List (OutputId × AddressOutput)) (address : AddressWrapper) (hrp : String)
      (sync_spent_outputs : Bool) (listed : List OutputId)
      {r : List (OutputId × AddressOutput) × List (SyncedMessage M)}
      → AnswersAsked
      → or_fail (node.outputs (to_bech32 address) sync_spent_outputs) ≡ ok listed
      → sync_address node hex_decode index_valid to_bech32 known outputs address hrp
          sync_spent_outputs
        ≡ ok r
      → All (SpentUnless listed) r.0
  unfolding sync_address
  sync_address-unlisted to_bech32 known outputs address hrp flag listed {r} law listing h =
      let (l, first, more) = >>=-eq-ok (or_fail (node.outputs (to_bech32 address) flag)) _ h in
      let same : l ≡ listed = cc in
      let marked = mark_missing listed outputs in
      let more' : receive node hex_decode index_valid flag
            (map (fetch node hex_decode known hrp) (filter (is_requested marked) listed)) marked []
          ≡ ok r =
        subst
          (λ x.
            receive node hex_decode index_valid flag
              (map (fetch node hex_decode known hrp)
                (filter (is_requested (mark_missing x outputs)) x))
              (mark_missing x outputs) []
            ≡ ok r)
          same more in
      receive-keeps (All (SpentUnless listed)) (λ o. is_listed listed (id_of o) ≡ true) flag
        (λ o before own kept. SpentUnless-insert_output listed (id_of o) o before own kept)
        (map (fetch node hex_decode known hrp) (filter (is_requested marked) listed)) marked []
        (fetch-Gives-listed law known hrp listed (is_requested marked) listed
          (Elem-is_listed listed))
        (SpentUnless-mark_missing listed outputs) more'

  -- `sync_address` loses no output: if it succeeds, the result has an entry for each output that
  -- the address had.
  pub sync_address-keeps :
      (to_bech32 : AddressWrapper → String) (known : Known)
      (outputs : List (OutputId × AddressOutput)) (address : AddressWrapper) (hrp : String)
      (sync_spent_outputs : Bool) (i : OutputId)
      {r : List (OutputId × AddressOutput) × List (SyncedMessage M)}
      → sync_address node hex_decode index_valid to_bech32 known outputs address hrp
          sync_spent_outputs
        ≡ ok r
      → has i outputs ≡ true
      → has i r.0 ≡ true
  unfolding sync_address
  sync_address-keeps to_bech32 known outputs address hrp flag i {r} h before =
      let (listed, first, more) = >>=-eq-ok (or_fail (node.outputs (to_bech32 address) flag)) _ h in
      receive-keeps (λ outs. has i outs ≡ true) (λ o. Unit {0}) flag
        (λ o outs own kept. has-insert_output i (id_of o) o outs kept) _ _ [] (Gives-any _)
        (has-mark_missing i listed outputs ∙ before) more
