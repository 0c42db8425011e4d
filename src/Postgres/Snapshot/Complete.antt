-- ===== src/Postgres/Snapshot/Complete.antt =====
-- That a snapshot hands over every row of a table once and in order. The rows are those of the table in
-- the order of the query.
use excalibase_watcher.Postgres.Snapshot.Sql.{
  Serves, Serves-query, ServesOffset, ServesOffset-query, AscendsFirst,
}
use excalibase_watcher.Cdc.Event.{Event}
use excalibase_watcher.Base.{
  drop-drop, ℕ, zero, suc, ◌+◌, ◌≤◌, ◌<◌, ◌≡◌, refl, sym, ap, subst, ◌∙◌, inl, inr, true, false,
  Option, none, List, [], ◌∷◌, ◌++◌, map, append_assoc, arith, ltb, if◌then◌else◌, ltb→lt,
  Bool-cases, length, take, drop, All, All-append_left, All-append_right, Bytes,
}
use excalibase_watcher.Postgres.Snapshot.{
  by_offset, offset_query, validate_identifier, snapshot_by_pk, after_events, Arg, Answer, rows,
  build_chunk_query, build_snapshot_event, by_pk, Taken, finished, ChunkSpec, Row, last_value,
}
use excalibase_watcher.Postgres.Snapshot.Chunks.{
  map-append_take, take_all, take-append-drop, drop_lt, full_chunk,
}
use excalibase_watcher.Postgres.Snapshot.Beyond.{IsKeyed, Ascends, beyond, beyond-chunk}

module _ {V : Type 0} (printed : V → Bytes) (now : ℕ) (s : ChunkSpec) where
  abbrev R : Type 0
  R = Row printed now

  module _ (key : R → V) (rank : V → ℕ) where
    module _ (answer : Bytes × List (Arg printed now) → Answer printed now) (table : List R)
        (chunked : 0 < s.chunk_size) where
      abbrev event : R → Event
      event = build_snapshot_event printed now s

      -- A round that got `chunk`, where `again` are the rounds after it.
      abbrev next : (List R → Taken) → List R → Taken
      next again chunk =
          if ltb (length chunk) s.chunk_size
          then record { events = map event chunk; status = finished }
          else after_events (map event chunk) (again chunk)

      by_pk-rows :
          (fuel : ℕ) (last : Option V) (chunk : List R)
          → answer (build_chunk_query printed now s last) ≡ rows chunk false
          → by_pk printed now answer (suc fuel) s last
            ≡ next (λ ch. by_pk printed now answer fuel s (last_value printed now s ch none)) chunk
      unfolding by_pk
      by_pk-rows fuel last chunk e = rw (by_pk, e) refl

      by_offset-rows :
          (fuel offset : ℕ) (chunk : List R)
          → answer (offset_query printed now s offset) ≡ rows chunk false
          → by_offset printed now answer (suc fuel) s offset
            ≡ next (λ ch. by_offset printed now answer fuel s (offset + length ch)) chunk
      unfolding by_offset
      by_offset-rows fuel offset chunk e = rw (by_offset, e) refl

      -- A chunk that is not full ends the loop with the last rows; a full one leaves the others.
      next-rest :
          (again : List R → Taken) (rest chunk : List R)
          → take s.chunk_size rest ≡ chunk
          → ((row : R) (more : List R)
              → chunk ≡ row ∷ more
              → s.chunk_size ≤ length chunk
              → again chunk
                ≡ record { events = map event (drop s.chunk_size rest); status = finished })
          → next again chunk ≡ record { events = map event rest; status = finished }
      next-rest again rest chunk c more = elim (Bool-cases (ltb (length chunk) s.chunk_size)) [
        | inl short ↦
            let all : chunk ≡ rest =
              sym c
              ∙ take_all s.chunk_size rest (rw c (ltb→lt (length chunk) s.chunk_size short)) in
            rw short (ap (λ (rs : List R). record { events = map event rs; status = finished }) all)
        | inr full ↦ rw full (filled chunk c (ground (arith, full)) more)
      ]
        where
          filled :
              (chunk : List R)
              → take s.chunk_size rest ≡ chunk
              → s.chunk_size ≤ length chunk
              → ((row : R) (others : List R)
                  → chunk ≡ row ∷ others
                  → s.chunk_size ≤ length chunk
                  → again chunk
                    ≡ record { events = map event (drop s.chunk_size rest); status = finished })
              → after_events (map event chunk) (again chunk)
                ≡ record { events = map event rest; status = finished }
          filled [] c full more = absurd (omega arith)
          filled (row ∷ others) c full more = rw (more row others refl full) (
              ap (λ (es : List Event). record { events = es; status = finished })
                (ap (λ rs. map event rs ++ map event (drop s.chunk_size rest)) (sym c)
                  ∙ map-append_take event s.chunk_size rest))

      -- What the next round meets, after the rows before and a full chunk.
      chunk-table :
          (before rest : List R) (row : R) (more : List R)
          → before ++ rest ≡ table
          → take s.chunk_size rest ≡ row ∷ more
          → before ++ (row ∷ more ++ drop s.chunk_size rest) ≡ table
      chunk-table before rest row more e c =
          ap (λ (ch : List R). before ++ (ch ++ drop s.chunk_size rest)) (sym c)
          ∙ (ap (◌++◌ before) (take-append-drop s.chunk_size rest) ∙ e)

      beyond-next :
          (before rest : List R) (row : R) (more : List R)
          → before ++ (row ∷ more ++ rest) ≡ table
          → Ascends printed now s key rank 0 table
          → All (IsKeyed printed now s key rank) table
          → beyond printed now s key rank (last_value printed now s (row ∷ more) none) table ≡ rest
      beyond-next before rest row more e a k =
          let ks = subst (All (IsKeyed printed now s key rank)) (sym e) k in
          subst
            (λ (t : List R).
              beyond printed now s key rank (last_value printed now s (row ∷ more) none) t ≡ rest)
            e
            (beyond-chunk printed now s key rank 0 before row more rest
              (subst (Ascends printed now s key rank 0) (sym e) a)
              (All-append_left (IsKeyed printed now s key rank) before (row ∷ more ++ rest) ks)
              (All-append_left (IsKeyed printed now s key rank) (row ∷ more) rest
                (All-append_right (IsKeyed printed now s key rank) before (row ∷ more ++ rest) ks)))

      by_pk-all :
          (fuel : ℕ) (before rest : List R) (last : Option V)
          → before ++ rest ≡ table
          → Ascends printed now s key rank 0 table
          → All (IsKeyed printed now s key rank) table
          → beyond printed now s key rank last table ≡ rest
          → length rest < fuel
          → Serves printed now s rank answer table key
          → by_pk printed now answer fuel s last
            ≡ record { events = map event rest; status = finished }
      by_pk-all zero before rest last e a k b l serves = absurd (omega arith)
      by_pk-all (suc fuel) before rest last e a k b l serves =
          by_pk-rows fuel last (take s.chunk_size rest) (
            Serves-query printed now s rank answer table key serves last
            ∙ ap (λ (rs : List R). rows (take s.chunk_size rs) false) b)
          ∙ next-rest (λ ch. by_pk printed now answer fuel s (last_value printed now s ch none))
              rest (take s.chunk_size rest) refl
              (λ row more c full.
                let t = chunk-table before rest row more e c in
                ap
                  (λ (ch : List R).
                    by_pk printed now answer fuel s (last_value printed now s ch none))
                  c
                ∙ by_pk-all fuel (before ++ row ∷ more) (drop s.chunk_size rest)
                    (last_value printed now s (row ∷ more) none)
                    (append_assoc before (row ∷ more) (drop s.chunk_size rest) ∙ t) a k
                    (beyond-next before (drop s.chunk_size rest) row more t a k)
                    (omega (arith, l, drop_lt s.chunk_size rest chunked full)) serves)

      -- The conditions: the table has a primary key of one column, whose name is an identifier and which
      -- is selected and never NULL, `table` are its rows in the order of the key, chunks have at least one row, the database
      -- answers every chunk query, as SQL says and without an error, and the table does not change
      -- between the chunks. Then the snapshot hands over one event for every row, each row once and in
      -- the order of the key, and finishes, within one more round than the table has rows.
      pub snapshot_by_pk-all :
          (fuel : ℕ)
          → validate_identifier s.pk ≡ true
          → Ascends printed now s key rank 0 table
          → All (IsKeyed printed now s key rank) table
          → length table < fuel
          → Serves printed now s rank answer table key
          → snapshot_by_pk printed now answer fuel s
            ≡ record { events = map event table; status = finished }
      unfolding snapshot_by_pk
      snapshot_by_pk-all fuel valid a k l serves =
          rw valid (by_pk-all fuel [] table none refl a k refl l serves)

      by_offset-rest :
          (fuel offset : ℕ)
          → length (drop offset table) < fuel
          → AscendsFirst printed now s rank answer table 0 table
          → ServesOffset printed now s rank answer table
          → by_offset printed now answer fuel s offset
            ≡ record { events = map event (drop offset table); status = finished }
      by_offset-rest zero offset l a serves = absurd (omega arith)
      by_offset-rest (suc fuel) offset l a serves =
          let rest = drop offset table in
          by_offset-rows fuel offset (take s.chunk_size rest)
            (ServesOffset-query printed now s rank answer table serves a offset)
          ∙ next-rest (λ ch. by_offset printed now answer fuel s (offset + length ch)) rest
              (take s.chunk_size rest) refl
              (λ row more c full.
                let e = full_chunk s.chunk_size rest full in
                let d = drop-drop offset s.chunk_size table in
                rw (e, ← d)
                  (by_offset-rest fuel (offset + s.chunk_size)
                    (rw d (omega (arith, l, drop_lt s.chunk_size rest chunked full))) a serves))

      -- The conditions: `table` are the rows of the table, no two of them alike in the first column
      -- selected, in the order of that column, which is never NULL; chunks have at least one row, the
      -- database answers every query, as SQL says and without an error, and the table does not change
      -- between the chunks. Then the snapshot by offset hands over one event for every row, each once
      -- and in that order, and finishes, within one more round than the table has rows.
      pub by_offset-all :
          (fuel : ℕ)
          → length table < fuel
          → AscendsFirst printed now s rank answer table 0 table
          → ServesOffset printed now s rank answer table
          → by_offset printed now answer fuel s 0
            ≡ record { events = map event table; status = finished }
      by_offset-all fuel l a serves = by_offset-rest fuel 0 l a serves
