-- ===== src/Storage/Events.antt =====
-- The events of one type in the storage: `event_manager_impl` (src/storage/mod.rs). An event is of
-- any type that has a key; JSON, the key of the index and the time are parameters.
pub mod Count
use wallet_rs.Prelude.{
  ℕ, ◌+◌, Bool, true, false, Option, none, some, String, List, [], ◌∷◌, ◌++◌, filter, take, drop,
  leb, ◌==◌, if◌then◌else◌,
}
use wallet_rs.Error.{Error, Result, ok, err, ◌>>=◌, record_not_found}
use wallet_rs.Storage.Types.{EventIndexation}
use wallet_rs.Storage.Store.{StorageAdapter, Cipher, Store, store_get, store_set}
use wallet_rs.Storage.Messages.{Json}

-- `load_optional_data`: a record that is not found is empty.
unfoldable pub optional_data :
    Json (List EventIndexation) → Result String → Result (List EventIndexation)
optional_data json (ok text) = json.from_str text
optional_data json (err record_not_found) = ok []
optional_data json (err e) = err e

-- The store, and the index of the events if it was loaded.
pub record EventStore (S K : Type 0) : Type 0 where
  pub storage : Store S K
  pub index : Option (List EventIndexation)

abbrev pub or_zero : Option ℕ → ℕ
or_zero none = 0
or_zero (some t) = t

-- The events from a time on.
abbrev pub events_since : ℕ → List EventIndexation → List EventIndexation
events_since from index = filter (λ i. leb from i.timestamp) index

module _ {S K : Type 0} (adapter : StorageAdapter S) (cipher : Cipher K) {E : Type 0}
    (event_json : Json E) (event_index_json : Json (List EventIndexation)) (index_key : String)
    (indexation_id : E → String) where
  -- The index, loaded at its first use.
  unfoldable pub loaded_index : EventStore S K → Result (List EventIndexation)
  unfolding optional_data store_get
  loaded_index s = elim s.index [
    | some index ↦ ok index
    | none ↦ optional_data event_index_json (store_get adapter cipher index_key s.storage)
  ]

  -- The result, and the store as the call leaves it.
  unfoldable pub save_event : ℕ → E → EventStore S K → Result (Unit {0}) × EventStore S K
  unfolding loaded_index store_set
  save_event now event s =
      elim (event_json.to_string event >>= λ text.
      store_set adapter cipher (indexation_id event) text s.storage) [
        | err e ↦ (err e, s)
        | ok storage ↦
            let written : EventStore S K = record s { storage = storage } in
            elim (loaded_index written) [
              | err e ↦ (err e, written)
              | ok index ↦
                  let grown =
                    index ++ (record { key = indexation_id event; timestamp = now } ∷ []) in
                  let indexed : EventStore S K = record written { index = some grown } in
                  elim (event_index_json.to_string grown >>= λ text.
                  store_set adapter cipher index_key text indexed.storage) [
                    | err e ↦ (err e, indexed)
                    | ok stored ↦ (ok tt, record indexed { storage = stored })
                  ]
            ]
      ]

  unfoldable pub read_events : List EventIndexation → Store S K → Result (List E)
  unfolding store_get
  read_events [] s = ok []
  read_events (i ∷ rest) s = do
    text ← store_get adapter cipher i.key s
    event ← event_json.from_str text
    later ← read_events rest s
    ok (event ∷ later)

  unfoldable pub get_events : ℕ → ℕ → Option ℕ → EventStore S K → Result (List E)
  unfolding loaded_index read_events
  get_events count skip from_timestamp s = do
    index ← loaded_index s
    let since = drop skip (events_since (or_zero from_timestamp) index)
    read_events (if count == 0 then since else take count since) s.storage

  -- `fold`
  unfoldable pub count_since : ℕ → ℕ → List EventIndexation → ℕ
  count_since from count [] = count
  count_since from count (i ∷ rest) =
      count_since from (if leb from i.timestamp then count + 1 else count) rest

  unfoldable pub get_event_count : Option ℕ → EventStore S K → Result ℕ
  unfolding loaded_index count_since
  get_event_count from_timestamp s = do
    index ← loaded_index s
    ok (count_since (or_zero from_timestamp) 0 index)
