-- ===== src/Mysql/Dump.antt =====
-- internal/mysql/snapshot_dump.go: reading the rows of a mysqldump file.
-- The lines are what `bufio.Scanner` yields; the two regular expressions are the parameters
-- `binlog_pos_match` (file and position, already cut to 32 bits) and `insert_match` (the table, and
-- the line behind the match).
pub mod Statement
use excalibase_watcher.Base.{
  ℕ, zero, suc, ◌+◌, Bool, true, false, not, ◌&&◌, Option, none, some, List, [], ◌∷◌, ◌++◌, map,
  ◌==◌, if◌then◌else◌, Bytes, codes, bytes_eq, decimal,
}
use excalibase_watcher.Jsonutil.{escape_string}
use excalibase_watcher.Cdc.Event.{Event, insert, new_event}
use excalibase_watcher.Mysql.CommitGate.{BinlogPosition, no_position}

-- The variables of `parseValuesList`.
pub record Scan : Type 0 where
  pub tuples : List (List Bytes)
  pub current : List Bytes
  pub value : Bytes
  pub in_string : Bool
  pub escaped : Bool

-- The switch at the end of the loop, outside a string.
unfoldable pub scan_mark : Scan → ℕ → Scan
scan_mark s c =
    if c == b'('
    then record s { current = []; value = [] }
    else if c == b','
    then record s { current = s.current ++ s.value ∷ []; value = [] }
    else if c == b')'
    then record s {
      current = s.current ++ s.value ∷ [];
      tuples = s.tuples ++ (s.current ++ s.value ∷ []) ∷ [];
      value = [];
    }
    else s

-- One round of the loop.
unfoldable pub scan_byte : Scan → ℕ → Scan
unfolding scan_mark
scan_byte s c =
    if s.escaped
    then record s { value = s.value ++ c ∷ []; escaped = false }
    else if c == b'\\' && s.in_string
    then record s { value = s.value ++ c ∷ []; escaped = true }
    else if c == b'\''
    then record s { in_string = not s.in_string }
    else if s.in_string
    then record s { value = s.value ++ c ∷ [] }
    else scan_mark s c

pub scan : Scan → Bytes → Scan
unfolding scan_byte
scan s [] = s
scan s (c ∷ cs) = scan (scan_byte s c) cs

abbrev pub new_scan : Scan
new_scan = record { tuples = []; current = []; value = []; in_string = false; escaped = false }

pub parse_values_list : Bytes → List (List Bytes)
unfolding scan
parse_values_list s = (scan new_scan s).tuples

-- One value of `tupleToJSON`.
pub value_json : Bytes → Bytes
unfolding bytes_eq
value_json v =
    if bytes_eq v (codes "NULL") then codes "null" else b'"' ∷ (escape_string v ++ b'"' ∷ [])

-- Its loop, from column `i` on.
pub json_values : ℕ → List Bytes → Bytes
unfolding decimal value_json
json_values i [] = []
json_values i (v ∷ vs) =
    separator i
    ++ (codes "\"col_" ++ (decimal i ++ (codes "\":" ++ (value_json v ++ json_values (i + 1) vs))))
  where
    separator : ℕ → Bytes
    separator zero = []
    separator (suc _) = codes ", "

pub tuple_to_json : List Bytes → Bytes
unfolding json_values
tuple_to_json values = b'{' ∷ (json_values 0 values ++ b'}' ∷ [])

module _ (binlog_pos_match : Bytes → Option (Bytes × ℕ))
    (insert_match : Bytes → Option (Bytes × Bytes)) (now : ℕ) (schema : Bytes) where
  abbrev insert_event : Bytes → List Bytes → Event
  insert_event table tuple =
      new_event now insert schema table (tuple_to_json tuple) (codes "INSERT") []

  -- The events of one line.
  pub line_events : Bytes → List Event
  unfolding tuple_to_json parse_values_list
  line_events line = elim (insert_match line) [
    | none ↦ []
    | some (table, values) ↦ map (insert_event table) (parse_values_list values)
  ]

  -- The events that the handler gets from the lines, in order, and the last position found.
  pub parse_lines : BinlogPosition → List Bytes → List Event × BinlogPosition
  unfolding line_events
  parse_lines pos [] = ([], pos)
  parse_lines pos (line ∷ lines) = elim (binlog_pos_match line) [
    | some (file, p) ↦ parse_lines (record { file = file; position = p }) lines
    | none ↦ let rest = parse_lines pos lines in (line_events line ++ rest.0, rest.1)
  ]

  pub parse_mysql_dump : List Bytes → List Event × BinlogPosition
  unfolding parse_lines
  parse_mysql_dump = parse_lines no_position
