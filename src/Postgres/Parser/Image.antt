-- ===== src/Postgres/Parser/Image.antt =====
-- Row images as the messages of PostgreSQL carry them, and the JSON object that a row image is.
use excalibase_watcher.Jsonutil.{escape_string}
use excalibase_watcher.Base.{
  false, ◌==◌, ◌||◌, bytes_eq, ℕ, ◌+◌, ◌*◌, ◌≡◌, Bool, not, ◌&&◌, List, [], ◌∷◌, ◌++◌,
  if◌then◌else◌, length, Bytes, codes, contains,
}
use excalibase_watcher.Postgres.Parser.{RelationInfo}
use excalibase_watcher.Postgres.Parser.Reader.{Reader, read_bytes}
use excalibase_watcher.Postgres.Parser.Tuple.{
  skip_tuple_value, write_tuple_value, left_out, column_name, column_oid,
}
use excalibase_watcher.Postgres.Parser.Fields.{Field, fields}
use excalibase_watcher.Postgres.Parser.Reads.{Reads}

-- A column of a row image: NULL, a TOASTed value that did not change, or a value as text, behind the
-- four bytes of its length.
pub data Cell : Type 0 where
  null unchanged : Cell
  text : ℕ → ℕ → ℕ → ℕ → Bytes → Cell

-- The four bytes say how long the value is.
abbrev pub IsCell : Cell → Type 0
IsCell null = Unit
IsCell unchanged = Unit
IsCell (text a b c d v) = ((a * 256 + b) * 256 + c) * 256 + d ≡ length v

abbrev pub cell_bytes : Cell → Bytes
cell_bytes null = b'n' ∷ []
cell_bytes unchanged = b'u' ∷ []
cell_bytes (text a b c d v) = b't' ∷ a ∷ b ∷ c ∷ d ∷ v

unfoldable pub cells_bytes : List Cell → Bytes → Bytes
cells_bytes [] rest = rest
cells_bytes (cell ∷ cells) rest = cell_bytes cell ++ cells_bytes cells rest

abbrev pub is_one_of : ℕ → List ℕ → Bool
is_one_of n [] = false
is_one_of n (m ∷ []) = n == m
is_one_of n (m ∷ k ∷ ks) = n == m || is_one_of n (k ∷ ks)

-- The types whose values are JSON numbers: int8, int2, int4, oid, float4, float8 and numeric; and
-- those whose values are JSON: json and jsonb.
abbrev pub number_oids : List ℕ
number_oids = 20 ∷ 21 ∷ 23 ∷ 26 ∷ 700 ∷ 701 ∷ 1700 ∷ []

abbrev pub json_oids : List ℕ
json_oids = 114 ∷ 3802 ∷ []

-- A value of a type as JSON: a number as it is, a bool (16) as `true` or `false`, valid JSON as it is,
-- and anything else as a string.
abbrev pub json_text : (Bytes → Bool) → ℕ → Bytes → Bytes
json_text valid_json oid v =
    if is_one_of oid number_oids
    then v
    else if oid == 16
    then (if bytes_eq v (codes "t") then codes "true" else codes "false")
    else if is_one_of oid json_oids && valid_json v
    then v
    else b'"' ∷ (escape_string v ++ b'"' ∷ [])

module _ (valid_json : Bytes → Bool) (rel : RelationInfo) (key_only : Bool) where
  -- Column `i` with this value, in front of the later ones; a key-only image has key columns only.
  abbrev pub with_column : ℕ → Bytes → List Field → List Field
  with_column i value rest =
      if key_only && not (contains rel.key_columns (column_name rel i))
      then rest
      else record { name = column_name rel i; value = value } ∷ rest

  -- The fields of a row image whose first column is column `i`.
  unfoldable pub image_fields : ℕ → List Cell → List Field
  image_fields i [] = []
  image_fields i (null ∷ cells) = with_column i (codes "null") (image_fields (i + 1) cells)
  image_fields i (unchanged ∷ cells) = image_fields (i + 1) cells
  image_fields i (text a b c d v ∷ cells) =
      with_column i (json_text valid_json (column_oid rel i) v) (image_fields (i + 1) cells)

  abbrev rest_fields : ℕ → ℕ → Reader → List Field
  rest_fields left i buf = fields valid_json rel key_only left (i + 1) buf

  -- The fields from a column on, whose kind was read.
  abbrev kind_fields : ℕ → ℕ → ℕ × Reader → List Field
  kind_fields left i (kind, buf) =
      let value = write_tuple_value valid_json kind (column_oid rel i) buf in
      if left_out rel key_only kind (column_name rel i)
      then rest_fields left i (skip_tuple_value kind buf)
      else record { name = column_name rel i; value = value.0 } ∷ rest_fields left i value.1

  abbrev value_fields : ℕ → ℕ → Bytes × Reader → List Field
  value_fields left i (v, buf) =
      with_column i (json_text valid_json (column_oid rel i) v) (rest_fields left i buf)

  abbrev sized_fields : ℕ → ℕ → ℕ × Reader → List Field
  sized_fields left i (size, buf) = value_fields left i (read_bytes size buf)
