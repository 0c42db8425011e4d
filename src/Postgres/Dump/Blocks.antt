-- ===== src/Postgres/Dump/Blocks.antt =====
-- That a dump of COPY blocks is read back row by row.
use excalibase_watcher.Postgres.Dump.Columns.{IsColumnName, column_text, split_columns-column_text}
use excalibase_watcher.Postgres.Dump.{
  copy_columns, parse_dump_file, insert, new_event, event_then, parse_lines, parse_copy_line, Event,
  Copy, validate_identifier,
}
use excalibase_watcher.Base.{
  ap, ◌∙◌, ℕ, ◌≡◌, refl, sym, Bool, true, false, Option, none, some, List, [], ◌∷◌, ◌++◌, map,
  append-nil, All, Bytes, codes, bytes_eq,
}
use excalibase_watcher.Postgres.Dump.Rows.{
  IsPlain, Cells, IsPlainRow, line_of, object_columns, split-line_of, copy_columns-printed, not_end,
}

-- A COPY block: the lines before it, its header and its rows.
pub record Block : Type 0 where
  pub noise : List Bytes
  pub header : Bytes
  pub schema : Bytes
  pub table : Bytes
  pub columns : Bytes × List Bytes
  pub table_rows : List Cells

abbrev pub column_names : Block → List Bytes
column_names b = b.columns.0 ∷ b.columns.1

abbrev pub block_lines : Block → List Bytes → List Bytes
block_lines b rest = b.noise ++ (b.header ∷ (map line_of b.table_rows ++ codes "\\." ∷ rest))

unfoldable pub dump_lines : List Block → List Bytes → List Bytes
dump_lines [] rest = rest
dump_lines (b ∷ blocks) rest = block_lines b (dump_lines blocks rest)

module _ (copy_header : Bytes → Option (Bytes × (Bytes × Bytes))) (now : ℕ)
    (start_lsn : Bytes) where
  abbrev IsNoise : Bytes → Type 0
  IsNoise line = copy_header line ≡ none

  -- The header is read as such, and the names are identifiers.
  pub record IsBlock (b : Block) : Type 0 where
    pub noise_read : All IsNoise b.noise
    pub header_read : copy_header b.header ≡ some (b.schema, (b.table, column_text b.columns))
    pub valid_schema : validate_identifier b.schema ≡ true
    pub valid_table : validate_identifier b.table ≡ true
    pub plain_names : All IsColumnName (column_names b)
    pub plain : All IsPlainRow b.table_rows

  abbrev pub with_columns : Block → Bytes → Event
  with_columns b text =
      new_event now insert b.schema b.table (b'{' ∷ (text ++ b'}' ∷ [])) (codes "INSERT") start_lsn

  abbrev pub row_event : Block → Cells → Event
  row_event b (cell, cells) = with_columns b (object_columns (column_names b) (cell ∷ cells))

  unfoldable pub dump_events : List Block → List Event
  dump_events [] = []
  dump_events (b ∷ blocks) = map (row_event b) b.table_rows ++ dump_events blocks

  abbrev after_events : List Event → List Event × Bool → List Event × Bool
  after_events events (more, ok) = (events ++ more, ok)

  abbrev in_block : Block → Copy copy_header now start_lsn
  in_block b = record {
    in_copy = true;
    schema = b.schema;
    table = b.table;
    columns = column_names b;
  }

  abbrev lines_read : Bool → Copy copy_header now start_lsn → List Bytes → List Event × Bool
  lines_read = parse_lines copy_header now start_lsn

  row-read :
      (b : Block) (cell : Option Bytes) (cells : List (Option Bytes))
      → All IsPlain (cell ∷ cells)
      → parse_copy_line copy_header now start_lsn
          (line_of (cell, cells))
          b.schema
          b.table
          (column_names b)
        ≡ row_event b (cell, cells)
  unfolding parse_copy_line
  row-read b cell cells h =
      ap (λ values. with_columns b (copy_columns (column_names b) values))
        (split-line_of cell cells h)
      ∙ ap (with_columns b) (copy_columns-printed (column_names b) (cell ∷ cells) h)

  rows-read :
      (scanned : Bool) (b : Block) (rows : List Cells) (rest : List Bytes)
      → All IsPlainRow rows
      → lines_read scanned (in_block b) (map line_of rows ++ codes "\\." ∷ rest)
        ≡ after_events
            (map (row_event b) rows)
            (lines_read scanned (record (in_block b) { in_copy = false }) rest)
  unfolding parse_lines bytes_eq
  rows-read scanned b [] rest h = refl
  rows-read scanned b ((cell, cells) ∷ rows) rest h =
      rw (not_end cell cells h.0.0, row-read b cell cells h.0)
        (ap (event_then copy_header now start_lsn (row_event b (cell, cells)))
          (rows-read scanned b rows rest h.1))

  abbrev outside : Bytes → Bytes → List Bytes → Copy copy_header now start_lsn
  outside schema table columns = record {
    in_copy = false;
    schema = schema;
    table = table;
    columns = columns;
  }

  noise-read :
      (scanned : Bool) (schema table : Bytes) (columns : List Bytes) (lines rest : List Bytes)
      → All IsNoise lines
      → lines_read scanned (outside schema table columns) (lines ++ rest)
        ≡ lines_read scanned (outside schema table columns) rest
  unfolding parse_lines
  noise-read scanned schema table columns [] rest h = refl
  noise-read scanned schema table columns (line ∷ lines) rest h =
      rw (parse_lines, h.0) (noise-read scanned schema table columns lines rest h.1)

  header-read :
      (scanned : Bool) (schema table : Bytes) (columns : List Bytes) (b : Block) (rest : List Bytes)
      → IsBlock b
      → lines_read scanned (outside schema table columns) (b.header ∷ rest)
        ≡ lines_read scanned (in_block b) rest
  unfolding parse_lines
  header-read scanned schema table columns b rest h =
      rw
        (
          parse_lines,
          h.header_read,
          h.valid_schema,
          h.valid_table,
          split_columns-column_text b.columns.0 b.columns.1 h.plain_names,
        )
        refl

  blocks-read :
      (scanned : Bool) (schema table : Bytes) (columns : List Bytes) (blocks : List Block)
      (rest : List Bytes)
      → All IsBlock blocks
      → All IsNoise rest
      → lines_read scanned (outside schema table columns) (dump_lines blocks rest)
        ≡ (dump_events blocks, scanned)
  unfolding dump_lines dump_events parse_lines
  blocks-read scanned schema table columns [] rest h n =
      ap (lines_read scanned (outside schema table columns)) (sym (append-nil rest))
      ∙ noise-read scanned schema table columns rest [] n
  blocks-read scanned schema table columns (b ∷ blocks) rest h n =
      noise-read scanned schema table columns b.noise _ h.0.noise_read
      ∙ (header-read scanned schema table columns b _ h.0
          ∙ (rows-read scanned b b.table_rows (dump_lines blocks rest) h.0.plain
              ∙ ap (after_events (map (row_event b) b.table_rows))
                  (blocks-read scanned b.schema b.table (column_names b) blocks rest h.1 n)))

  -- A dump file that consists of COPY blocks, with other lines between them, is read back as one
  -- insert event for each row, in order, with each column of the header and its value or null, and
  -- with the scanner's error if it has one. The conditions: each header matches the pattern, which
  -- yields a schema and a table that are identifiers and the column names, free of commas and white
  -- space, with a comma and a space between them; no other line matches it; and no value holds a
  -- backslash or one of the control characters that COPY escapes.
  pub parse_dump_file-blocks :
      (scanned : Bool) (blocks : List Block) (rest : List Bytes)
      → All IsBlock blocks
      → All IsNoise rest
      → parse_dump_file copy_header now start_lsn (some (dump_lines blocks rest, scanned))
        ≡ (dump_events blocks, scanned)
  unfolding parse_dump_file
  parse_dump_file-blocks scanned blocks rest h n = blocks-read scanned [] [] [] blocks rest h n
