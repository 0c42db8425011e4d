-- ===== src/Postgres/Parser/Fields.antt =====
-- The text that `parseTupleData` writes is that of a list of fields.
use native.Mathlib.Numerals.{add-one}
use excalibase_watcher.Base.{
  ℕ, zero, suc, ◌+◌, ◌≤◌, ◌≡◌, refl, sym, ap, ◌∙◌, inl, inr, Bool, List, [], ◌∷◌, ◌++◌,
  append_assoc, arith, if◌then◌else◌, Bool-cases, Bytes, codes,
}
use excalibase_watcher.Jsonutil.{escape_string}
use excalibase_watcher.Postgres.Parser.{RelationInfo}
use excalibase_watcher.Postgres.Parser.Reader.{Reader, remaining, read_byte, read_uint16}
use excalibase_watcher.Postgres.Parser.Tuple.{
  separator, quoted, skip_tuple_value, write_tuple_value, left_out, column_name, column_oid,
  tuple_columns, parse_tuple_data,
}

pub record Field : Type 0 where
  pub name : Bytes
  pub value : Bytes

-- `"name":value`.
abbrev pub render : Field → Bytes
render f = quoted (escape_string f.name) ++ (b':' ∷ f.value)

abbrev pub render_rest : List Field → Bytes
render_rest [] = []
render_rest (f ∷ fs) = codes ", " ++ (render f ++ render_rest fs)

-- Fields with a comma and a space between two of them.
abbrev pub join : List Field → Bytes
join [] = []
join (f ∷ fs) = render f ++ render_rest fs

module _ (valid_json : Bytes → Bool) (rel : RelationInfo) (key_only : Bool) where
  -- The columns that are not left out, from column `i` on.
  unfoldable pub fields : ℕ → ℕ → Reader → List Field
  fields zero i buf = []
  fields (suc left) i buf =
      let (kind, buf1) = read_byte buf in
      let value = write_tuple_value valid_json kind (column_oid rel i) buf1 in
      let skipped = fields left (i + 1) (skip_tuple_value kind buf1) in
      let kept = fields left (i + 1) value.1 in
      if left_out rel key_only kind (column_name rel i)
      then skipped
      else record { name = column_name rel i; value = value.0 } ∷ kept

  abbrev joined : ℕ → List Field → Bytes
  joined zero fs = join fs
  joined (suc _) fs = render_rest fs

  tuple_columns-joined :
      (left i written : ℕ) (buf : Reader)
      → (tuple_columns valid_json rel key_only left i written buf).0
        ≡ joined written (fields left i buf)
  unfolding tuple_columns fields
  tuple_columns-joined zero i zero buf = refl
  tuple_columns-joined zero i (suc written) buf = refl
  tuple_columns-joined (suc left) i written buf =
      elim (Bool-cases (left_out rel key_only (read_byte buf).0 (column_name rel i))) [
        | inl out ↦ rw out (tuple_columns-joined left (i + 1) written _)
        | inr kept ↦ rw kept (
            step written _ _
              (tuple_columns-joined left (i + 1) (written + 1) _ ∙ joined-suc written _))
      ]
    where
      value : Bytes
      value =
          (write_tuple_value valid_json (read_byte buf).0 (column_oid rel i) (read_byte buf).1).0

      f : Field
      f = record { name = column_name rel i; value = value }

      joined-suc : (n : ℕ) (fs : List Field) → joined (n + 1) fs ≡ render_rest fs
      joined-suc n fs = rw add-one

      whole :
          (rest : Bytes) (fs : List Field)
          → rest ≡ render_rest fs
          → quoted (escape_string f.name) ++ (b':' ∷ (value ++ rest)) ≡ render f ++ render_rest fs
      whole rest fs e =
          rw e (sym (append_assoc (quoted (escape_string f.name)) (b':' ∷ value) (render_rest fs)))

      step :
          (n : ℕ) (rest : Bytes) (fs : List Field)
          → rest ≡ render_rest fs
          → separator n ++ (quoted (escape_string f.name) ++ (b':' ∷ (value ++ rest)))
            ≡ joined n (f ∷ fs)
      step zero rest fs e = whole rest fs e
      step (suc n) rest fs e = ap (◌++◌ (codes ", ")) (whole rest fs e)

-- Where at least two bytes are left, for the number of columns.
pub parse_tuple_data-join :
    (valid_json : Bytes → Bool) (rel : RelationInfo) (key_only : Bool) (buf : Reader)
    → 2 ≤ remaining buf
    → (parse_tuple_data valid_json rel key_only buf).0
      ≡ b'{'
        ∷ (join (fields valid_json rel key_only (read_uint16 buf).0 0 (read_uint16 buf).1)
            ++ b'}' ∷ [])
unfolding parse_tuple_data
parse_tuple_data-join valid_json rel key_only buf h = ground (
  arith,
  tuple_columns-joined valid_json rel key_only (read_uint16 buf).0 0 0 (read_uint16 buf).1,
)
