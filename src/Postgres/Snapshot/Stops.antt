-- ===== src/Postgres/Snapshot/Stops.antt =====
-- Where a snapshot of several tables stops.
use excalibase_watcher.Cdc.Event.{Event}
use excalibase_watcher.Postgres.Snapshot.{
  run_chunked_snapshot, validate_identifier, Arg, Answer, Taken, Status, finished, failed,
  after_events, goes_on, snapshot_table, snapshot_tables,
}
use excalibase_watcher.Base.{
  ◌⊎◌, inl, inr, some, Option, true, ℕ, ◌≡◌, refl, sym, ap, ◌∙◌, List, [], ◌∷◌, ◌++◌, append_assoc,
  All, Bytes,
}

module _ {V : Type 0} (printed : V → Bytes) (now : ℕ)
    (answer : Bytes × List (Arg printed now) → Answer printed now)
    (columns_of : Bytes → Option (List Bytes)) (key_of : Bytes → Option Bytes) (fuel : ℕ)
    (schema : Bytes) (chunk_size : ℕ) where
  abbrev table_taken : Bytes → Taken
  table_taken = snapshot_table printed now answer columns_of key_of fuel schema chunk_size

  abbrev tables_taken : List Bytes → Taken
  tables_taken = snapshot_tables printed now answer columns_of key_of fuel schema chunk_size

  abbrev Finishes : Bytes → Type 0
  Finishes t = (table_taken t).status ≡ finished

  -- The events of some tables, table after table.
  unfoldable pub events_of : List Bytes → List Event
  events_of [] = []
  events_of (t ∷ ts) = (table_taken t).events ++ events_of ts

  goes_on-finished :
      (t next : Taken) → t.status ≡ finished → goes_on t next ≡ after_events t.events next
  goes_on-finished t next h = rw h refl

  goes_on-failed : (t next : Taken) → t.status ≡ failed → goes_on t next ≡ t
  goes_on-failed t next h = rw h refl

  snapshot_tables-finished :
      (done : List Bytes)
      → All Finishes done
      → tables_taken done ≡ record { events = events_of done; status = finished }
  unfolding snapshot_tables events_of
  snapshot_tables-finished [] h = refl
  snapshot_tables-finished (t ∷ ts) h =
      goes_on-finished (table_taken t) (tables_taken ts) h.0
      ∙ ap (after_events (table_taken t).events) (snapshot_tables-finished ts h.1)

  snapshot_tables-failed :
      (done : List Bytes) (t : Bytes) (rest : List Bytes)
      → All Finishes done
      → (table_taken t).status ≡ failed
      → tables_taken (done ++ t ∷ rest)
        ≡ record { events = events_of done ++ (table_taken t).events; status = failed }
  unfolding snapshot_tables events_of
  snapshot_tables-failed [] t rest h e =
      goes_on-failed (table_taken t) (tables_taken rest) e
      ∙ ap (λ (status : Status). record { events = (table_taken t).events; status = status }) e
  snapshot_tables-failed (d ∷ done) t rest h e =
      goes_on-finished (table_taken d) (tables_taken (done ++ t ∷ rest)) h.0
      ∙ ap (after_events (table_taken d).events) (snapshot_tables-failed done t rest h.1 e)
      ∙ ap (λ (es : List Event). record { events = es; status = failed })
          (sym (append_assoc (table_taken d).events (events_of done) (table_taken t).events))

  -- When a table of a snapshot fails after the tables before it finished, the snapshot fails with it:
  -- the events handed over are those of the tables before, in full, then those that the failing
  -- table handed over, and no later table contributes any. The tables are the given ones, or those
  -- of the schema where none is given.
  pub run_chunked_snapshot-failed :
      (all_tables : Option (List Bytes)) (tables done : List Bytes) (t : Bytes) (rest : List Bytes)
      → validate_identifier schema ≡ true
      → (tables ≡ done ++ t ∷ rest) ⊎ ((tables ≡ []) × (all_tables ≡ some (done ++ t ∷ rest)))
      → All Finishes done
      → (table_taken t).status ≡ failed
      → run_chunked_snapshot printed now answer columns_of key_of fuel schema chunk_size all_tables
          tables
        ≡ record { events = events_of done ++ (table_taken t).events; status = failed }
  unfolding run_chunked_snapshot
  run_chunked_snapshot-failed all_tables tables [] t rest valid (inl e) h bad =
      rw (valid, e) (snapshot_tables-failed [] t rest h bad)
  run_chunked_snapshot-failed all_tables tables (d ∷ done) t rest valid (inl e) h bad =
      rw (valid, e) (snapshot_tables-failed (d ∷ done) t rest h bad)
  run_chunked_snapshot-failed all_tables tables done t rest valid (inr e) h bad =
      rw (valid, e.0, e.1) (snapshot_tables-failed done t rest h bad)
