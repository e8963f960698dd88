-- ===== src/Sync/Refresh/Outputs.antt =====
-- What refreshing an address leaves of its outputs (src/account/sync/mod.rs).
use wallet_rs.Prelude.{
  ℕ, ◌≡◌, refl, sym, ◌∙◌, ap, subst, inl, inr, Bool, true, false, ◌||◌, String, Option, none, some,
  List, [], ◌∷◌, ◌++◌, any, arith, ◌==◌, if◌then◌else◌, Bool-cases, Option-cases,
}
use mathlib.Core.Option.{some-injective}
use wallet_rs.Error.{ok, err, ◌>>=◌, >>=-eq-ok, Result-cases, ok_injective}
use wallet_rs.Address.Types.{
  AddressWrapper, OutputId, output_id_eq, output_id_eq_iff, AddressOutput, Address,
}
use wallet_rs.Address.Outputs.{id}
use wallet_rs.Address.Builder.{OutputResponse, from_output_response, insert_output}
use wallet_rs.Sync.Node.{
  Answer, response_error, other_error, answered, failed, or_fail, Node, SyncedMessage, get_message,
}
use wallet_rs.Sync.Refresh.{
  output_at, as_spent, Progress, prune, reused_output, take_pruned, take_answer, output_message,
  add_message, refresh_outputs, refresh_address,
}

output_at-insert_output :
    (i k : OutputId) (o : AddressOutput) (outputs : List (OutputId × AddressOutput))
    → output_at i (insert_output k o outputs)
      ≡ (if output_id_eq k i then some o else output_at i outputs)
unfolding insert_output
output_at-insert_output i k o [] = refl
output_at-insert_output i k o (e ∷ rest) = ground (
  arith,
  output_at-insert_output i k o rest,
  output_id_eq_iff e.0 k,
  output_id_eq_iff e.0 i,
  output_id_eq_iff k i,
)

-- The output, if it is there, is spent.
abbrev pub SpentAt : OutputId → List (OutputId × AddressOutput) → Type 0
SpentAt i outputs = (o : AddressOutput) → output_at i outputs ≡ some o → o.is_spent ≡ true

SpentAt-insert_output :
    (i k : OutputId) (o : AddressOutput) (outputs : List (OutputId × AddressOutput))
    → (output_id_eq k i ≡ true → o.is_spent ≡ true)
    → (output_id_eq k i ≡ false → SpentAt i outputs)
    → SpentAt i (insert_output k o outputs)
SpentAt-insert_output i k o outputs own other found at =
    let e = sym (output_at-insert_output i k o outputs) ∙ at in
    elim (Bool-cases (output_id_eq k i)) [
      | inl same ↦ let f : o ≡ found = ground arith in subst (λ x. x.is_spent ≡ true) f (own same)
      | inr differ ↦ let g : output_at i outputs ≡ some found = ground arith in other differ found g
    ]

-- Keeping it is enough in the steps that follow.
prune-SpentAt :
    (i : OutputId) (listed : List OutputId) (entries : List (OutputId × AddressOutput))
    (p : Progress)
    → SpentAt i p.0
    → SpentAt i (prune listed entries p).0
unfolding prune
prune-SpentAt i listed [] p h = h
prune-SpentAt i listed (e ∷ rest) p h =
    elim (Bool-cases (any (λ j. output_id_eq j e.0) listed || e.1.is_spent)) [
      | inl stays ↦ rw stays (prune-SpentAt i listed rest p h)
      | inr goes ↦ rw goes (
          prune-SpentAt i listed rest (insert_output e.0 (as_spent e.1) p.0, true)
            (SpentAt-insert_output i e.0 (as_spent e.1) p.0 (λ same. refl) (λ differ. h)))
    ]

-- An unlisted output is spent after the entries were pruned, if it was spent before or is the
-- first of these entries with its id.
prune-unlisted :
    (i : OutputId) (listed : List OutputId) (entries : List (OutputId × AddressOutput))
    (p : Progress)
    → any (λ j. output_id_eq j i) listed ≡ false
    → (o : AddressOutput) → output_at i entries ≡ some o
    → o.is_spent ≡ false
    → SpentAt i (prune listed entries p).0
unfolding prune
prune-unlisted i listed [] p h o at unspent = absurd (cc)
prune-unlisted i listed (e ∷ rest) p h o at unspent = elim (Bool-cases (output_id_eq e.0 i)) [
  | inl own ↦
      let same_id : e.0 ≡ i = (output_id_eq_iff e.0 i).0 own in
      let same_o : e.1 ≡ o = ground arith in
      let goes : any (λ j. output_id_eq j e.0) listed || e.1.is_spent ≡ false =
        rw same_id (rw h (ap (λ x. x.is_spent) same_o ∙ unspent)) in
      rw goes (
        prune-SpentAt i listed rest (insert_output e.0 (as_spent e.1) p.0, true)
          (SpentAt-insert_output i e.0 (as_spent e.1) p.0 (λ s. refl) (λ differ. absurd (cc))))
  | inr other ↦
      let later : output_at i rest ≡ some o = ground arith in
      elim (Bool-cases (any (λ j. output_id_eq j e.0) listed || e.1.is_spent)) [
        | inl stays ↦ rw stays (prune-unlisted i listed rest p h o later unspent)
        | inr goes ↦ rw goes (
            prune-unlisted i listed rest (insert_output e.0 (as_spent e.1) p.0, true) h o later
              unspent)
      ]
]

prune-all :
    (i : OutputId) (listed : List OutputId) (outputs : List (OutputId × AddressOutput))
    → any (λ j. output_id_eq j i) listed ≡ false
    → SpentAt i (prune listed outputs (outputs, false)).0
prune-all i listed outputs h = elim (Option-cases (output_at i outputs)) [
  | inl nothing ↦ prune-SpentAt i listed outputs (outputs, false) (λ o at. absurd (cc))
  | inr (o, at) ↦ elim (Bool-cases o.is_spent) [
    | inl spent ↦
        prune-SpentAt i listed outputs (outputs, false)
          (λ o' at'. let same : o ≡ o' = ground arith in subst (λ x. x.is_spent ≡ true) same spent)
    | inr unspent ↦ prune-unlisted i listed outputs (outputs, false) h o at unspent
  ]
]

module _ {M : Type 0} (node : Node M) (hex_decode : String → Option (List ℕ))
    (index_valid : ℕ → Bool) (to_bech32 : AddressWrapper → String) (known_confirmed : List ℕ)
    (sync_spent_outputs : Bool) where
  take_pruned-SpentAt :
      (i : OutputId) (found : Option AddressOutput) (p : Progress) {r : ℕ × Progress}
      → take_pruned node hex_decode index_valid to_bech32 known_confirmed sync_spent_outputs found p
        ≡ ok (some r)
      → SpentAt i p.0
      → SpentAt i r.1.0
  unfolding take_pruned
  take_pruned-SpentAt i none p {r} e h = let bad : none ≡ some r = ok_injective e in absurd (cc)
  take_pruned-SpentAt i (some o) p {r} e h =
      let (k, named, last) = >>=-eq-ok (id index_valid (as_spent o)) _ e in
      let same : (o.message_id, (insert_output k (as_spent o) p.0, true)) ≡ r =
        some-injective _ _ (ok_injective last) in
      subst (λ x. SpentAt i x.1.0) same
        (SpentAt-insert_output i k (as_spent o) p.0 (λ own. refl) (λ d. h))

  take_answer-SpentAt :
      (i j : OutputId) (address : Address) (p : Progress) (answer : Answer OutputResponse)
      {r : ℕ × Progress}
      → output_id_eq j i ≡ false
      → take_answer node hex_decode index_valid to_bech32 known_confirmed sync_spent_outputs address
          j p answer
        ≡ ok (some r)
      → SpentAt i p.0
      → SpentAt i r.1.0
  unfolding take_answer
  take_answer-SpentAt i j address p (answered response) {r} differ e h =
      let (o, made, last) =
        >>=-eq-ok (from_output_response hex_decode response address.address.bech32_hrp) _ e in
      let same : (o.message_id, (insert_output j o p.0, true)) ≡ r =
        some-injective _ _ (ok_injective last) in
      subst (λ x. SpentAt i x.1.0) same
        (SpentAt-insert_output i j o p.0 (λ own. absurd (cc)) (λ d. h))
  take_answer-SpentAt i j address p (failed other_error) differ e h = absurd (cc)
  take_answer-SpentAt i j address p (failed (response_error status)) {r} differ e h =
      elim (Bool-cases (status == 404)) [
        | inl gone ↦ take_pruned-SpentAt i (output_at j address.outputs) p {r = r} (ground arith) h
        | inr other ↦ absurd (ground arith)
      ]

  output_message-SpentAt :
      (i j : OutputId) (address : Address) (p : Progress) {r : ℕ × Progress}
      → output_id_eq j i ≡ false
      → output_message node hex_decode index_valid to_bech32 known_confirmed sync_spent_outputs
          address j p
        ≡ ok (some r)
      → SpentAt i p.0
      → SpentAt i r.1.0
  unfolding output_message
  output_message-SpentAt i j address p {r} differ e h =
      elim (Option-cases (reused_output sync_spent_outputs (output_at j address.outputs))) [
        | inl asks ↦
            take_answer-SpentAt i j address p (node.output j) differ
              (sym (rw (output_message, asks)) ∙ e) h
        | inr (o, reused) ↦
            let opened : ok (some (o.message_id, p)) ≡ ok (some r) =
              sym (rw (output_message, reused)) ∙ e in
            let same : (o.message_id, p) ≡ r = some-injective _ _ (ok_injective opened) in
            subst (λ x. SpentAt i x.1.0) same h
      ]

  -- The message leaves the outputs alone.
  add_message-outputs :
      (message_id : ℕ) (p : Progress) (messages : List (SyncedMessage M))
      {r : Progress × List (SyncedMessage M)}
      → add_message node hex_decode index_valid to_bech32 known_confirmed sync_spent_outputs
          message_id
          (p, messages)
        ≡ ok r
      → r.0.0 ≡ p.0
  unfolding add_message
  add_message-outputs message_id p messages {r} e =
      elim (Bool-cases (any (λ k. k == message_id) known_confirmed)) [
        | inl known ↦
            let opened : ok (p, messages) ≡ ok r = sym (rw (add_message, known)) ∙ e in
            ap (λ x. x.0.0) (sym (ok_injective opened))
        | inr new ↦ elim (Result-cases (get_message node message_id)) [
          | inr (er, failed_e) ↦
              let opened : err er ≡ ok r = sym (rw (add_message, new, failed_e)) ∙ e in absurd (cc)
          | inl (none, found) ↦
              let opened : ok (p, messages) ≡ ok r = sym (rw (add_message, new, found)) ∙ e in
              ap (λ x. x.0.0) (sym (ok_injective opened))
          | inl (some m, found) ↦
              let opened : ok
                    ((p.0, true), messages ++ (record { id = message_id; inner = m } ∷ []))
                  ≡ ok r =
                sym (rw (add_message, new, found)) ∙ e in
              ap (λ x. x.0.0) (sym (ok_injective opened))
        ]
      ]

  refresh_outputs-SpentAt :
      (i : OutputId) (address : Address) (listed : List OutputId)
      (s : Progress × List (SyncedMessage M)) {r : Progress × List (SyncedMessage M)}
      → any (λ j. output_id_eq j i) listed ≡ false
      → refresh_outputs node hex_decode index_valid to_bech32 known_confirmed sync_spent_outputs
          address listed s
        ≡ ok r
      → SpentAt i s.0.0
      → SpentAt i r.0.0
  unfolding refresh_outputs
  refresh_outputs-SpentAt i address [] s {r} unlisted e h =
      subst (λ x. SpentAt i x.0.0) (ok_injective e) h
  refresh_outputs-SpentAt i address (j ∷ rest) s {r} unlisted e h =
      let differ : output_id_eq j i ≡ false = ground arith in
      let later : any (λ k. output_id_eq k i) rest ≡ false = ground arith in
      elim (Result-cases (
        output_message node hex_decode index_valid to_bech32 known_confirmed sync_spent_outputs
          address j s.0)) [
            | inr (er, f) ↦
                let opened : err er ≡ ok r = sym (rw (refresh_outputs, f)) ∙ e in absurd (cc)
            | inl (none, f) ↦
                refresh_outputs-SpentAt i address rest s later (sym (rw (refresh_outputs, f)) ∙ e) h
            | inl (some (message_id, p), f) ↦
                let opened : (add_message node hex_decode index_valid to_bech32 known_confirmed
                        sync_spent_outputs message_id (p, s.1)
                      >>= λ next.
                          refresh_outputs node hex_decode index_valid to_bech32 known_confirmed
                            sync_spent_outputs address rest next)
                    ≡ ok r =
                  sym (rw (refresh_outputs, f)) ∙ e in
                let (next, added, more) =
                  >>=-eq-ok
                    (add_message node hex_decode index_valid to_bech32 known_confirmed
                      sync_spent_outputs message_id (p, s.1))
                    _ opened in
                refresh_outputs-SpentAt i address rest next later more (
                  subst (SpentAt i) (sym (add_message-outputs message_id p s.1 added))
                    (output_message-SpentAt i j address s.0 differ f h))
          ]

  -- After an address was refreshed, an output that the node did not list is spent: if the node
  -- lists the outputs `listed` and the task succeeds, then an output of the address that it
  -- returns, under an id that is not in that list, is marked as spent.
  pub refresh_address-unlisted :
      (address : Address) (listed : List OutputId) {r : Address × List (SyncedMessage M) × Bool}
      (i : OutputId) (o : AddressOutput)
      → or_fail (node.outputs (to_bech32 address.address) sync_spent_outputs) ≡ ok listed
      → refresh_address node hex_decode index_valid to_bech32 known_confirmed sync_spent_outputs
          address
        ≡ ok r
      → any (λ j. output_id_eq j i) listed ≡ false
      → output_at i r.0.outputs ≡ some o
      → o.is_spent ≡ true
  unfolding refresh_address
  refresh_address-unlisted address listed {r} i o listing e unlisted at =
      let (l, first, more) =
        >>=-eq-ok (or_fail (node.outputs (to_bech32 address.address) sync_spent_outputs)) _ e in
      let same : l ≡ listed = ok_injective (sym first ∙ listing) in
      let (s, refreshed, last) =
        >>=-eq-ok
          (refresh_outputs node hex_decode index_valid to_bech32 known_confirmed sync_spent_outputs
            address l (prune l address.outputs (address.outputs, false), []))
          _ more in
      let final : (record address { outputs = s.0.0 }, s.1, s.0.1) ≡ r = ok_injective last in
      let unlisted' : any (λ j. output_id_eq j i) l ≡ false =
        ap (any (λ j. output_id_eq j i)) same ∙ unlisted in
      let spent : SpentAt i s.0.0 =
        refresh_outputs-SpentAt i address l _ unlisted' refreshed
          (prune-all i l address.outputs unlisted') in
      spent o (ap (λ x. output_at i x.0.outputs) final ∙ at)
