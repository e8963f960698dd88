-- ===== src/Storage/Events/Count.antt =====
-- The number of the events (src/storage/mod.rs).
use wallet_rs.Prelude.{
  ℕ, suc, ◌+◌, ◌≡◌, sym, ◌∙◌, ap, inl, inr, Option, String, List, [], ◌∷◌, arith, length, leb,
  Bool-cases,
}
use wallet_rs.Error.{ok, >>=-eq-ok, ok_injective}
use wallet_rs.Storage.Types.{EventIndexation}
use wallet_rs.Storage.Store.{StorageAdapter, Cipher, Store, store_get}
use wallet_rs.Storage.Messages.{Json}
use wallet_rs.Storage.Events.{
  EventStore, or_zero, events_since, loaded_index, read_events, get_events, count_since,
  get_event_count,
}

module _ {S K : Type 0} (adapter : StorageAdapter S) (cipher : Cipher K) {E : Type 0}
    (event_json : Json E) (event_index_json : Json (List EventIndexation)) (index_key : String)
    (indexation_id : E → String) where
  count_since-length :
      (from count : ℕ) (index : List EventIndexation)
      → count_since adapter cipher event_json event_index_json index_key indexation_id from count
          index
        ≡ count + length (events_since from index)
  unfolding count_since
  count_since-length from count [] = omega arith
  count_since-length from count (i ∷ rest) = elim (Bool-cases (leb from i.timestamp)) [
    | inl e ↦ rw e (omega (arith, count_since-length from (count + 1) rest))
    | inr e ↦ rw e (omega (arith, count_since-length from count rest))
  ]

  length-read_events :
      (index : List EventIndexation) (s : Store S K) {events : List E}
      → read_events adapter cipher event_json event_index_json index_key indexation_id index s
        ≡ ok events
      → length events ≡ length index
  unfolding read_events
  length-read_events [] s h = ap length (sym (ok_injective h))
  length-read_events (i ∷ rest) s h =
      let (text, e1, h1) = >>=-eq-ok (store_get adapter cipher i.key s) _ h in
      let (event, e2, h2) = >>=-eq-ok (event_json.from_str text) _ h1 in
      let (later, e3, h3) =
        >>=-eq-ok
          (read_events adapter cipher event_json event_index_json index_key indexation_id rest s) _
          h2 in
      ap length (sym (ok_injective h3)) ∙ ap (λ n. suc n) (length-read_events rest s e3)

  -- The count of the events is the number of the events that are returned when no page is asked
  -- for.
  pub get_event_count-length :
      (from_timestamp : Option ℕ) (s : EventStore S K) {events : List E} {n : ℕ}
      → get_events adapter cipher event_json event_index_json index_key indexation_id 0 0
          from_timestamp s
        ≡ ok events
      → get_event_count adapter cipher event_json event_index_json index_key indexation_id
          from_timestamp s
        ≡ ok n
      → n ≡ length events
  unfolding get_events get_event_count
  get_event_count-length from_timestamp s {events} {n} h counted =
      let (index, e, read) =
        >>=-eq-ok
          (loaded_index adapter cipher event_json event_index_json index_key indexation_id s) _ h in
      let (index', e', last) =
        >>=-eq-ok
          (loaded_index adapter cipher event_json event_index_json index_key indexation_id s) _
          counted in
      let same : index' ≡ index = ok_injective (sym e' ∙ e) in
      sym (ok_injective last)
      ∙ ap
          (count_since adapter cipher event_json event_index_json index_key indexation_id
            (or_zero from_timestamp) 0)
          same
      ∙ count_since-length (or_zero from_timestamp) 0 index
      ∙ omega
          (arith, length-read_events (events_since (or_zero from_timestamp) index) s.storage read)
