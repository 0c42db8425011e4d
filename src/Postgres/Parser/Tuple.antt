-- ===== src/Postgres/Parser/Tuple.antt =====
-- Row images as JSON: `parseTupleData`, `skipTupleValue`, `writeTupleValue` and `writeTextValue` of
-- internal/postgres/parser.go. The builder is the text that a function appends. `json.Valid` is the
-- parameter `valid_json`.
use excalibase_watcher.Base.{
  ℕ, zero, suc, ◌+◌, Bool, not, ◌&&◌, ◌||◌, none, some, [], ◌∷◌, ◌++◌, ltb, ◌==◌, if◌then◌else◌,
  get_elem?, Bytes, codes, bytes_eq, contains, decimal,
}
use excalibase_watcher.Jsonutil.{escape_string}
use excalibase_watcher.Postgres.Parser.{RelationInfo}
use excalibase_watcher.Postgres.Parser.Reader.{
  Reader, remaining, read_byte, read_bytes, read_uint16, read_uint32,
}

unfoldable pub is_numeric_oid : ℕ → Bool
is_numeric_oid oid =
    oid == 20 || oid == 21 || oid == 23 || oid == 26 || oid == 700 || oid == 701 || oid == 1700

abbrev pub bool_oid : ℕ
bool_oid = 16

unfoldable pub is_json_oid : ℕ → Bool
is_json_oid oid = oid == 114 || oid == 3802

abbrev pub quoted : Bytes → Bytes
quoted s = b'"' ∷ (s ++ b'"' ∷ [])

-- The text of one value by the type of its column.
unfoldable pub text_value : (Bytes → Bool) → ℕ → Bytes → Bytes
unfolding is_numeric_oid is_json_oid bytes_eq
text_value valid_json oid value =
    if is_numeric_oid oid
    then value
    else if oid == bool_oid
    then (if bytes_eq value (codes "t") then codes "true" else codes "false")
    else if is_json_oid oid && valid_json value
    then value
    else quoted (escape_string value)

unfoldable pub write_text_value : (Bytes → Bool) → ℕ → Reader → Bytes × Reader
unfolding text_value
write_text_value valid_json oid buf =
    let (size, buf1) = read_uint32 buf in
    let (value, buf2) = read_bytes size buf1 in (text_value valid_json oid value, buf2)

unfoldable pub skip_tuple_value : ℕ → Reader → Reader
skip_tuple_value col_type buf =
    if col_type == b't'
    then (let (size, buf1) = read_uint32 buf in (read_bytes size buf1).1)
    else buf

unfoldable pub write_tuple_value : (Bytes → Bool) → ℕ → ℕ → Reader → Bytes × Reader
unfolding write_text_value
write_tuple_value valid_json col_type oid buf =
    if col_type == b'n'
    then (codes "null", buf)
    else if col_type == b't'
    then write_text_value valid_json oid buf
    else (quoted (codes "unknown"), buf)

-- The name of column `i`, `col_i` past the columns of the relation.
unfoldable pub column_name : RelationInfo → ℕ → Bytes
unfolding decimal
column_name rel i = elim (get_elem? rel.columns i) [
  | none ↦ codes "col_" ++ decimal i
  | some name ↦ name
]

unfoldable pub column_oid : RelationInfo → ℕ → ℕ
column_oid rel i = elim (get_elem? rel.type_oids i) [ none ↦ 0 | some oid ↦ oid ]

-- A column that the message does not carry: an unchanged TOAST value or, in a key-only image, a
-- column outside the replica identity.
unfoldable pub left_out : RelationInfo → Bool → ℕ → Bytes → Bool
unfolding contains
left_out rel key_only col_type name =
    col_type == b'u' || key_only && not (contains rel.key_columns name)

abbrev pub separator : ℕ → Bytes
separator zero = []
separator (suc _) = codes ", "

-- The loop over the columns: `left` rounds from column `i` on, with `written` columns so far.
unfoldable pub tuple_columns :
    (Bytes → Bool) → RelationInfo → Bool → ℕ → ℕ → ℕ → Reader → Bytes × Reader
unfolding left_out skip_tuple_value write_tuple_value column_name column_oid
tuple_columns valid_json rel key_only zero i written buf = ([], buf)
tuple_columns valid_json rel key_only (suc left) i written buf =
    let (col_type, buf1) = read_byte buf in
    let name = column_name rel i in
    let skipped =
      tuple_columns valid_json rel key_only left (i + 1) written (skip_tuple_value col_type buf1) in
    let value = write_tuple_value valid_json col_type (column_oid rel i) buf1 in
    let kept = tuple_columns valid_json rel key_only left (i + 1) (written + 1) value.1 in
    if left_out rel key_only col_type name then skipped else (
      separator written ++ (quoted (escape_string name) ++ (b':' ∷ (value.0 ++ kept.0))),
      kept.1,
    )

unfoldable pub parse_tuple_data : (Bytes → Bool) → RelationInfo → Bool → Reader → Bytes × Reader
unfolding tuple_columns remaining
parse_tuple_data valid_json rel key_only buf =
    if ltb (remaining buf) 2
    then (codes "{}", buf)
    else (let (num_cols, buf1) = read_uint16 buf in
        let (text, buf2) = tuple_columns valid_json rel key_only num_cols 0 0 buf1 in
        (b'{' ∷ (text ++ b'}' ∷ []), buf2))
