-- ===== src/Postgres/Snapshot.antt =====
-- internal/postgres/snapshot_chunked.go: the snapshot of tables in chunks, and `validateIdentifier`
-- of internal/postgres/setup.go.
-- `V` is the type of the values that pgx returns; `printed` is `fmt.Sprintf("%v", …)` on it. The
-- database is the parameter `answer`, from the text and the arguments of a query to its rows; the
-- catalogue queries are the parameters `columns_of`, `key_of` and `all_tables`, `none` where they
-- fail. A function returns the events that it passed to the handler, in order. A chunk size is a natural
-- number: a negative one behaves as 0 does, except that the database refuses it.
pub mod Chunks
pub mod Beyond
pub mod Sql
pub mod Complete
pub mod Stops
use excalibase_watcher.Base.{
  ℕ, zero, suc, ◌+◌, Bool, true, false, not, ◌&&◌, ◌||◌, Option, none, some, List, [], ◌∷◌, ◌++◌,
  map, ltb, leb, ◌==◌, if◌then◌else◌, length, drop, Bytes, codes, bytes_eq, is_empty,
}
use excalibase_watcher.Jsonutil.{escape_string}
use excalibase_watcher.Cdc.Event.{Event, insert, new_event}

abbrev pub within : ℕ → ℕ → ℕ → Bool
within lo hi c = leb lo c && leb c hi

-- `[a-zA-Z_]` and `[a-zA-Z0-9_]`.
unfoldable pub starts_name : ℕ → Bool
starts_name c = within b'a' b'z' c || within b'A' b'Z' c || c == b'_'

unfoldable pub continues_name : ℕ → Bool
unfolding starts_name
continues_name c = starts_name c || within b'0' b'9' c

unfoldable pub all_continue : Bytes → Bool
unfolding continues_name
all_continue [] = true
all_continue (c ∷ cs) = continues_name c && all_continue cs

-- `validateIdentifier`; false is its error.
unfoldable pub validate_identifier : Bytes → Bool
unfolding starts_name all_continue
validate_identifier [] = false
validate_identifier (c ∷ cs) = starts_name c && all_continue cs

abbrev pub quoted_name : Bytes → Bytes
quoted_name s = b'"' ∷ (s ++ b'"' ∷ [])

-- `strings.Join(quotedCols, ", ")`.
pub column_list : List Bytes → Bytes
column_list [] = []
column_list (c ∷ []) = quoted_name c
column_list (c ∷ d ∷ cs) = quoted_name c ++ (codes ", " ++ column_list (d ∷ cs))

pub record ChunkSpec : Type 0 where
  pub schema : Bytes
  pub table : Bytes
  pub pk : Bytes
  pub columns : List Bytes
  pub chunk_size : ℕ

-- Whether a snapshot has come to its end, stopped at an error, or is still on its way when the
-- rounds given to it are used up.
pub data Status : Type 0 where
  finished failed unfinished : Status

pub record Taken : Type 0 where
  pub events : List Event
  pub status : Status

-- The events handed before come first.
abbrev pub after_events : List Event → Taken → Taken
after_events events t = record t { events = events ++ t.events }

-- The next tables, unless this one did not finish.
abbrev pub goes_on : Taken → Taken → Taken
goes_on t next = elim t.status [ finished ↦ after_events t.events next | _ ↦ t ]

module _ {V : Type 0} (printed : V → Bytes) (now : ℕ) where
  -- A value of a row; `none` is `nil`.
  abbrev pub Row : Type 0
  Row = List (Option V)

  -- An argument of a query.
  pub data Arg : Type 0 where
    value : V → Arg
    number : ℕ → Arg

  -- The rows of a query, and whether reading them ended in an error; or the query itself failed.
  pub data Answer : Type 0 where
    rows : List Row → Bool → Answer
    query_failed : Answer

  unfoldable pub cell_json : Row → Bytes
  cell_json [] = codes "null"
  cell_json (none ∷ _) = codes "null"
  cell_json (some v ∷ _) = b'"' ∷ (escape_string (printed v) ++ b'"' ∷ [])

  abbrev pub comma : List Bytes → Bytes
  comma [] = []
  comma (_ ∷ _) = codes ", "

  -- The loop of `buildSnapshotEvent`, with the row from the same place on.
  pub row_columns : List Bytes → Row → Bytes
  unfolding cell_json
  row_columns [] row = []
  row_columns (c ∷ cs) row =
      b'"'
      ∷ (escape_string c
          ++ (codes "\":" ++ (cell_json row ++ (comma cs ++ row_columns cs (drop 1 row)))))

  pub build_snapshot_event : ChunkSpec → Row → Event
  unfolding row_columns
  build_snapshot_event s row =
      new_event now insert s.schema s.table (b'{' ∷ (row_columns s.columns row ++ b'}' ∷ []))
        (codes "INSERT") []

  abbrev pub select_from : ChunkSpec → Bytes
  select_from s =
      codes "SELECT "
      ++ (column_list s.columns
          ++ (codes " FROM " ++ (quoted_name s.schema ++ (b'.' ∷ quoted_name s.table))))

  -- `buildChunkQuery`.
  unfoldable pub build_chunk_query : ChunkSpec → Option V → Bytes × List Arg
  unfolding column_list
  build_chunk_query s none = (
    select_from s ++ (codes " ORDER BY " ++ (quoted_name s.pk ++ codes " LIMIT $1")),
    number s.chunk_size ∷ [],
  )
  build_chunk_query s (some last) = (
    select_from s
        ++ (codes " WHERE "
            ++ (quoted_name s.pk
                ++ (codes " > $1 ORDER BY " ++ (quoted_name s.pk ++ codes " LIMIT $2")))),
    value last ∷ number s.chunk_size ∷ [],
  )

  -- The loop over the columns that looks for the primary key's value; a row has a value for each.
  unfoldable pub key_value : List Bytes → Bytes → Row → Option V → Option V
  unfolding bytes_eq
  key_value [] pk row last = last
  key_value (c ∷ cs) pk row last =
      let rest = key_value cs pk (drop 1 row) last in
      if bytes_eq c pk then elim row [ [] ↦ none | v ∷ _ ↦ v ] else rest

  -- `lastValue` after the rows.
  unfoldable pub last_value : ChunkSpec → List Row → Option V → Option V
  unfolding key_value
  last_value s [] last = last
  last_value s (row ∷ more) last = last_value s more (key_value s.columns s.pk row last)

  abbrev pub offset_query : ChunkSpec → ℕ → Bytes × List Arg
  offset_query s offset = (
    select_from s ++ codes " ORDER BY 1 LIMIT $1 OFFSET $2",
    number s.chunk_size ∷ number offset ∷ [],
  )

  module _ (answer : Bytes × List Arg → Answer) where
    -- The loop of `snapshotByPK`, with `fetchChunk` in each round.
    pub by_pk : ℕ → ChunkSpec → Option V → Taken
    unfolding build_chunk_query build_snapshot_event last_value
    by_pk zero s last = record { events = []; status = unfinished }
    by_pk (suc fuel) s last = elim (answer (build_chunk_query s last)) [
      | query_failed ↦ record { events = []; status = failed }
      | rows chunk true ↦ record { events = map (build_snapshot_event s) chunk; status = failed }
      | rows chunk false ↦
          if ltb (length chunk) s.chunk_size
          then record { events = map (build_snapshot_event s) chunk; status = finished }
          else after_events (map (build_snapshot_event s) chunk)
              (by_pk fuel s (last_value s chunk none))
    ]

    pub snapshot_by_pk : ℕ → ChunkSpec → Taken
    unfolding by_pk
    snapshot_by_pk fuel s =
        if validate_identifier s.pk
        then by_pk fuel s none
        else record { events = []; status = failed }

    -- The loop of `snapshotByOffset`, with `fetchOffsetChunk` in each round.
    pub by_offset : ℕ → ChunkSpec → ℕ → Taken
    unfolding build_snapshot_event
    by_offset zero s offset = record { events = []; status = unfinished }
    by_offset (suc fuel) s offset = elim (answer (offset_query s offset)) [
      | query_failed ↦ record { events = []; status = failed }
      | rows chunk true ↦ record { events = map (build_snapshot_event s) chunk; status = failed }
      | rows chunk false ↦
          if ltb (length chunk) s.chunk_size
          then record { events = map (build_snapshot_event s) chunk; status = finished }
          else after_events (map (build_snapshot_event s) chunk)
              (by_offset fuel s (offset + length chunk))
    ]

    module _ (columns_of : Bytes → Option (List Bytes)) (key_of : Bytes → Option Bytes) (fuel : ℕ)
        (schema : Bytes) (chunk_size : ℕ) where
      abbrev error : Taken
      error = record { events = []; status = failed }

      -- An empty name is a table without a primary key.
      unfoldable pub take_table : ChunkSpec → Taken
      unfolding snapshot_by_pk by_offset is_empty
      take_table s = if is_empty s.pk then by_offset fuel s 0 else snapshot_by_pk fuel s

      unfoldable pub snapshot_table : Bytes → Taken
      unfolding take_table validate_identifier
      snapshot_table table =
          if not (validate_identifier table) then error else elim (columns_of table) [
            | none ↦ error
            | some columns ↦ elim (key_of table) [
              | none ↦ error
              | some pk ↦ take_table (record {
                schema = schema;
                table = table;
                pk = pk;
                columns = columns;
                chunk_size = chunk_size;
              })
            ]
          ]

      pub snapshot_tables : List Bytes → Taken
      unfolding snapshot_table
      snapshot_tables [] = record { events = []; status = finished }
      snapshot_tables (t ∷ ts) = goes_on (snapshot_table t) (snapshot_tables ts)

      -- `RunChunkedSnapshot` on an open connection.
      pub run_chunked_snapshot : Option (List Bytes) → List Bytes → Taken
      unfolding snapshot_tables validate_identifier
      run_chunked_snapshot all_tables tables =
          if not (validate_identifier schema) then error else elim tables [
            | t ∷ ts ↦ snapshot_tables (t ∷ ts)
            | [] ↦ elim all_tables [ none ↦ error | some ts ↦ snapshot_tables ts ]
          ]
