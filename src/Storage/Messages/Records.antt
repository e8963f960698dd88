-- ===== src/Storage/Messages/Records.antt =====
-- The records and the entries that the loop of `save_messages` makes (src/storage/mod.rs).
use text.Mathlib.Text.{◌==◌ as str_eq}
use text.Mathlib.TextEquality.{eq_iff}
use wallet_rs.Prelude.{
  ℕ, ◌≡◌, refl, sym, ◌∙◌, ap, subst, inl, inr, true, some, String, List, [], ◌∷◌, arith, ◌==◌,
  ==_iff, Bool-cases, if◌then◌else◌, Elem, here, there,
}
use wallet_rs.Error.{ok, err, Result-cases}
use wallet_rs.Address.Types.{Address}
use wallet_rs.Message.Types.{MessagePayload, Message}
use wallet_rs.Storage.Types.{MessageIndexation}
use wallet_rs.Storage.Store.{record_at}
use wallet_rs.Storage.Messages.{Json, index_of, insert_record, upsert_index, index_messages}
use wallet_rs.Storage.Messages.Index.{IndexMap, put, put_all}

record_at-insert_record :
    (key other v : String) (records : List (String × String))
    → record_at other (insert_record key v records)
      ≡ (if str_eq key other then some v else record_at other records)
unfolding insert_record
record_at-insert_record key other v [] = refl
record_at-insert_record key other v ((k, w) ∷ rest) = ground (
  arith,
  record_at-insert_record key other v rest,
  eq_iff k key,
  eq_iff k other,
  eq_iff key other,
)

module _ (storage_hash : MessagePayload → ℕ) where
  -- An entry with the key `k` is under that key.
  abbrev pub Has : ℕ → IndexMap → Type 0
  Has k f = (e : MessageIndexation) × (f k ≡ some e) × (e.key ≡ k)

  Has-put : (k : ℕ) (e : MessageIndexation) (f : IndexMap) → Has k f → Has k (put e f)
  Has-put k e f (e0, at, same) = elim (Bool-cases (e.key == k)) [
    | inl own ↦ (e, rw own refl, (==_iff e.key k).0 own)
    | inr other ↦ (e0, rw other at, same)
  ]

  Has-put_all :
      (addresses : List Address) (ms : List Message) (k : ℕ) (f : IndexMap)
      → Has k f
      → Has k (put_all storage_hash addresses ms f)
  Has-put_all addresses [] k f h = h
  Has-put_all addresses (m ∷ ms) k f h =
      Has-put_all addresses ms k (put (index_of storage_hash addresses m) f)
        (Has-put k (index_of storage_hash addresses m) f h)

  pub Has-Elem :
      (addresses : List Address) {m : Message} {ms : List Message} (f : IndexMap)
      → Elem m ms
      → Has m.id (put_all storage_hash addresses ms f)
  unfolding index_of
  Has-Elem addresses {m = m} f (here {xs = ms}) =
      let e : MessageIndexation = index_of storage_hash addresses m in
      let own : (e.key == m.id) ≡ true = (==_iff m.id m.id).1 refl in
      Has-put_all addresses ms m.id (put e f) (e, rw own refl, refl)
  Has-Elem addresses f (there {y = n} at) =
      Has-Elem addresses (put (index_of storage_hash addresses n) f) at

  module _ (message_key : ℕ → String) (message_json : Json Message) where
    -- A record under the key of a message that reads as the message.
    abbrev pub Recorded : Message → List (String × String) → Type 0
    Recorded m records =
        (j : String) × (record_at (message_key m.id) records ≡ some j)
        × (message_json.to_string m ≡ ok j)

    Recorded-insert :
        (m n : Message) (j : String) (records : List (String × String))
        → (message_key n.id ≡ message_key m.id → n ≡ m)
        → message_json.to_string n ≡ ok j
        → Recorded m records
        → Recorded m (insert_record (message_key n.id) j records)
    Recorded-insert m n j records distinct text (j0, at, old) =
        elim (Bool-cases (str_eq (message_key n.id) (message_key m.id))) [
          | inl own ↦
              let same : n ≡ m = distinct ((eq_iff (message_key n.id) (message_key m.id)).0 own) in
              (
                j,
                record_at-insert_record (message_key n.id) (message_key m.id) j records
                    ∙ rw own refl,
                ap message_json.to_string (sym same) ∙ text,
              )
          | inr other ↦ (
            j0,
            record_at-insert_record (message_key n.id) (message_key m.id) j records ∙ rw other at,
            old,
          )
        ]

    Recorded-insert_own :
        (m : Message) (j : String) (records : List (String × String))
        → message_json.to_string m ≡ ok j
        → Recorded m (insert_record (message_key m.id) j records)
    Recorded-insert_own m j records text =
        let own : str_eq (message_key m.id) (message_key m.id) ≡ true =
          (eq_iff (message_key m.id) (message_key m.id)).1 refl in
        (
          j,
          record_at-insert_record (message_key m.id) (message_key m.id) j records ∙ rw own refl,
          text,
        )

    -- One message of the loop.
    index_messages-cons :
        (addresses : List Address) (n : Message) (ms : List Message)
        (records : List (String × String)) (index : List MessageIndexation)
        {rs : List (String × String)}
        → (index_messages storage_hash message_key message_json addresses (n ∷ ms) records index).0
          ≡ ok rs
        → (j : String) × (next : List MessageIndexation) × (message_json.to_string n ≡ ok j)
          × ((index_messages storage_hash message_key message_json addresses ms
                (insert_record (message_key n.id) j records)
                next).0
              ≡ ok rs)
    unfolding index_messages
    index_messages-cons addresses n ms records index {rs} h =
        elim (Result-cases (message_json.to_string n)) [
          | inl (j, e) ↦
              let next = upsert_index (index_of storage_hash addresses n) index in
              let step : index_messages storage_hash message_key message_json addresses (n ∷ ms)
                    records index
                  ≡ index_messages storage_hash message_key message_json addresses ms
                      (insert_record (message_key n.id) j records) next =
                rw (index_messages, e) in
              (j, next, e, ap (λ r. r.0) (sym step) ∙ h)
          | inr (er, e) ↦
              let step : index_messages storage_hash message_key message_json addresses (n ∷ ms)
                    records index
                  ≡ (err er, index) =
                rw (index_messages, e) in
              let failed : err er ≡ ok rs = ap (λ r. r.0) (sym step) ∙ h in absurd (cc)
        ]

    Recorded-kept :
        (addresses : List Address) (ms : List Message) (m : Message)
        (records : List (String × String)) (index : List MessageIndexation)
        {rs : List (String × String)}
        → ((n : Message) → Elem n ms → message_key n.id ≡ message_key m.id → n ≡ m)
        → (index_messages storage_hash message_key message_json addresses ms records index).0
          ≡ ok rs
        → Recorded m records
        → Recorded m rs
    unfolding index_messages
    Recorded-kept addresses [] m records index {rs} distinct h old =
        let same : records ≡ rs = cc in subst (Recorded m) same old
    Recorded-kept addresses (n ∷ ms) m records index distinct h old =
        let (j, next, text, more) = index_messages-cons addresses n ms records index h in
        Recorded-kept addresses ms m (insert_record (message_key n.id) j records) next
          (λ x at. distinct x (there at)) more
          (Recorded-insert m n j records (distinct n here) text old)

    pub Recorded-Elem :
        (addresses : List Address) {m : Message} {ms : List Message}
        (records : List (String × String)) (index : List MessageIndexation)
        {rs : List (String × String)}
        → ((n : Message) → Elem n ms → message_key n.id ≡ message_key m.id → n ≡ m)
        → (index_messages storage_hash message_key message_json addresses ms records index).0
          ≡ ok rs
        → Elem m ms
        → Recorded m rs
    Recorded-Elem addresses {m = m} records index distinct h (here {xs = ms}) =
        let (j, next, text, more) = index_messages-cons addresses m ms records index h in
        Recorded-kept addresses ms m (insert_record (message_key m.id) j records) next
          (λ x at. distinct x (there at)) more (Recorded-insert_own m j records text)
    Recorded-Elem addresses {m = m} records index distinct h (there {y = n} {xs = ms} at) =
        let (j, next, text, more) = index_messages-cons addresses n ms records index h in
        Recorded-Elem addresses (insert_record (message_key n.id) j records) next
          (λ x a. distinct x (there a)) more at
