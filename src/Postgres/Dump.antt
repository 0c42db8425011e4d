-- ===== src/Postgres/Dump.antt =====
-- internal/postgres/snapshot_dump.go: reading the COPY blocks of a pg_dump file.
-- The header's regular expression is the parameter `copy_header`, from a line to its three groups.
-- `strings.TrimSpace` is written for ASCII, which is what the column list of a header is made of.
-- A file is its lines, and whether the scanner comes to its end. The events are those passed to the
-- handler, in order; false is an error.
pub mod Columns
pub mod Rows
pub mod Blocks
use excalibase_watcher.Cdc.Event.{Event, insert, new_event}
use excalibase_watcher.Jsonutil.{escape_string}
use excalibase_watcher.Postgres.Snapshot.{validate_identifier}
use excalibase_watcher.Base.{
  ℕ, Bool, true, false, ◌&&◌, ◌||◌, Option, none, some, List, [], ◌∷◌, ◌++◌, map, leb, ◌==◌,
  if◌then◌else◌, drop, Bytes, codes, bytes_eq,
}

-- `strings.Split` with a separator of one byte.
unfoldable pub cons_first : ℕ → List Bytes → List Bytes
cons_first c [] = (c ∷ []) ∷ []
cons_first c (part ∷ parts) = (c ∷ part) ∷ parts

unfoldable pub split : ℕ → Bytes → List Bytes
unfolding cons_first
split sep [] = [] ∷ []
split sep (c ∷ s) = let rest = split sep s in if c == sep then [] ∷ rest else cons_first c rest

abbrev pub is_space : ℕ → Bool
is_space c = c == 32 || (leb 9 c && leb c 13)

unfoldable pub trim_left : Bytes → Bytes
trim_left [] = []
trim_left (c ∷ s) = let rest = trim_left s in if is_space c then rest else c ∷ s

-- A byte in front of trimmed text; a space in front of nothing is trimmed as well.
unfoldable pub cons_trimmed : ℕ → Bytes → Bytes
cons_trimmed c [] = if is_space c then [] else c ∷ []
cons_trimmed c (d ∷ s) = c ∷ d ∷ s

unfoldable pub trim_right : Bytes → Bytes
unfolding cons_trimmed
trim_right [] = []
trim_right (c ∷ s) = cons_trimmed c (trim_right s)

unfoldable pub split_columns : Bytes → List Bytes
unfolding split trim_left trim_right
split_columns s = map (λ part. trim_left (trim_right part)) (split b',' s)

-- A value of the row, or the null that stands for `\N` and for a missing value.
unfoldable pub cell_json : List Bytes → Bytes
unfolding bytes_eq
cell_json [] = codes "null"
cell_json (v ∷ _) =
    if bytes_eq v (codes "\\N") then codes "null" else b'"' ∷ (escape_string v ++ b'"' ∷ [])

abbrev pub comma : List Bytes → Bytes
comma [] = []
comma (_ ∷ _) = codes ", "

-- The loop of `parseCopyLine`, with the values from the same place on.
unfoldable pub copy_columns : List Bytes → List Bytes → Bytes
unfolding cell_json
copy_columns [] values = []
copy_columns (c ∷ cs) values =
    b'"'
    ∷ (c ++ (codes "\":" ++ (cell_json values ++ (comma cs ++ copy_columns cs (drop 1 values)))))

module _ (copy_header : Bytes → Option (Bytes × (Bytes × Bytes))) (now : ℕ)
    (start_lsn : Bytes) where
  unfoldable pub parse_copy_line : Bytes → Bytes → Bytes → List Bytes → Event
  unfolding copy_columns split
  parse_copy_line line schema table columns =
      new_event now insert schema table (b'{' ∷ (copy_columns columns (split 9 line) ++ b'}' ∷ []))
        (codes "INSERT") start_lsn

  -- The variables of the loop.
  pub record Copy : Type 0 where
    pub in_copy : Bool
    pub schema : Bytes
    pub table : Bytes
    pub columns : List Bytes

  abbrev pub no_copy : Copy
  no_copy = record { in_copy = false; schema = []; table = []; columns = [] }

  abbrev pub event_then : Event → List Event × Bool → List Event × Bool
  event_then event (events, ok) = (event ∷ events, ok)

  -- The loop of `ParseDumpFile` on the lines; `scanned` says whether the scanner ends without error.
  unfoldable pub parse_lines : Bool → Copy → List Bytes → List Event × Bool
  unfolding parse_copy_line split_columns validate_identifier bytes_eq
  parse_lines scanned st [] = ([], scanned)
  parse_lines scanned st (line ∷ lines) =
      if st.in_copy
      then if bytes_eq line (codes "\\.")
        then parse_lines scanned (record st { in_copy = false }) lines
        else event_then (parse_copy_line line st.schema st.table st.columns)
            (parse_lines scanned st lines)
      else elim (copy_header line) [
        | none ↦ parse_lines scanned st lines
        | some (schema, (table, columns)) ↦
            let rest =
              parse_lines scanned
                (record {
                  in_copy = true;
                  schema = schema;
                  table = table;
                  columns = split_columns columns;
                })
                lines in
            if validate_identifier schema && validate_identifier table then rest else ([], false)
      ]

  -- `ParseDumpFile`; none is a file that cannot be opened.
  unfoldable pub parse_dump_file : Option (List Bytes × Bool) → List Event × Bool
  unfolding parse_lines
  parse_dump_file none = ([], false)
  parse_dump_file (some (lines, scanned)) = parse_lines scanned no_copy lines
