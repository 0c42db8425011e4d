-- ===== src/Postgres/Dump/Rows.antt =====
-- The line that COPY prints for a row, and how it is read back.
use excalibase_watcher.Postgres.Dump.Columns.{split-append, split_end}
use excalibase_watcher.Postgres.Dump.{escape_string, cell_json, copy_columns, comma, split}
use excalibase_watcher.Base.{
  ℕ, leb, ◌&&◌, arith, ◌≡◌, refl, ap, ◌∙◌, false, Option, none, some, List, [], ◌∷◌, ◌++◌, map,
  append-nil, ◌==◌, drop, All, Bytes, codes, bytes_eq,
}

-- A byte that COPY prints as it is: no backslash, and none of the control characters that it
-- escapes, which are backspace, tab, newline, vertical tab, form feed and carriage return.
abbrev pub IsPlainByte : ℕ → Type 0
IsPlainByte c = ((leb 8 c && leb c 13) ≡ false) × (c == b'\\' ≡ false)

-- A value of a row that COPY prints as it is; `none` is NULL.
abbrev pub IsPlain : Option Bytes → Type 0
IsPlain none = Unit
IsPlain (some v) = All IsPlainByte v

abbrev pub printed : Option Bytes → Bytes
printed none = codes "\\N"
printed (some v) = v

-- The cells of a row, of which there is at least one.
abbrev pub Cells : Type 0
Cells = Option Bytes × List (Option Bytes)

abbrev pub IsPlainRow : Cells → Type 0
IsPlainRow (cell, cells) = All IsPlain (cell ∷ cells)

-- The cells behind a cell, with their separators.
unfoldable pub tail_of : List (Option Bytes) → Bytes
tail_of [] = []
tail_of (cell ∷ cells) = 9 ∷ (printed cell ++ tail_of cells)

abbrev pub line_of : Cells → Bytes
line_of (cell, cells) = printed cell ++ tail_of cells

plain-no_tab : (c : ℕ) → IsPlainByte c → c == 9 ≡ false
plain-no_tab c h = ground (arith, h.0)

no_tab : (cell : Option Bytes) → IsPlain cell → All (λ c. c == 9 ≡ false) (printed cell)
no_tab none h = (refl, (refl, tt))
no_tab (some []) h = tt
no_tab (some (c ∷ v)) h = (plain-no_tab c h.0, no_tab (some v) h.1)

pub split-line_of :
    (cell : Option Bytes) (cells : List (Option Bytes))
    → All IsPlain (cell ∷ cells)
    → split 9 (line_of (cell, cells)) ≡ map printed (cell ∷ cells)
unfolding tail_of
split-line_of cell [] h =
    ap (split 9) (append-nil (printed cell)) ∙ split_end 9 (printed cell) (no_tab cell h.0)
split-line_of cell (next ∷ cells) h =
    split-append 9 (printed cell) (line_of (next, cells)) refl (no_tab cell h.0)
    ∙ ap (◌∷◌ (printed cell)) (split-line_of next cells h.1)

-- The JSON object of a row: each column with its cell, and null where there is none.
abbrev pub cell_of : List (Option Bytes) → Bytes
cell_of [] = codes "null"
cell_of (none ∷ _) = codes "null"
cell_of (some v ∷ _) = b'"' ∷ (escape_string v ++ b'"' ∷ [])

unfoldable pub object_columns : List Bytes → List (Option Bytes) → Bytes
object_columns [] cells = []
object_columns (c ∷ cs) cells =
    b'"' ∷ (c ++ (codes "\":" ++ (cell_of cells ++ (comma cs ++ object_columns cs (drop 1 cells)))))

plain-null : (v : Bytes) → IsPlain (some v) → bytes_eq v (codes "\\N") ≡ false
unfolding bytes_eq
plain-null [] h = refl
plain-null (c ∷ v) h = rw h.0.1 refl

cell_json-printed :
    (cells : List (Option Bytes))
    → All IsPlain cells
    → cell_json (map printed cells) ≡ cell_of cells
unfolding cell_json
cell_json-printed [] h = refl
cell_json-printed (none ∷ cells) h = refl
cell_json-printed (some v ∷ cells) h = rw (plain-null v h.0) refl

All-drop : (cells : List (Option Bytes)) → All IsPlain cells → All IsPlain (drop 1 cells)
All-drop [] h = tt
All-drop (cell ∷ cells) h = h.1

map-drop : (cells : List (Option Bytes)) → drop 1 (map printed cells) ≡ map printed (drop 1 cells)
map-drop [] = refl
map-drop (cell ∷ cells) = refl

pub copy_columns-printed :
    (cs : List Bytes) (cells : List (Option Bytes))
    → All IsPlain cells
    → copy_columns cs (map printed cells) ≡ object_columns cs cells
unfolding copy_columns object_columns
copy_columns-printed [] cells h = refl
copy_columns-printed (c ∷ cs) cells h =
    rw
      (
        cell_json-printed cells h,
        map-drop cells,
        copy_columns-printed cs (drop 1 cells) (All-drop cells h),
      )
      refl

-- The line of a row never ends its block.
pub not_end :
    (cell : Option Bytes) (cells : List (Option Bytes))
    → IsPlain cell
    → bytes_eq (line_of (cell, cells)) (codes "\\.") ≡ false
unfolding bytes_eq tail_of
not_end none cells h = refl
not_end (some []) [] h = refl
not_end (some []) (next ∷ cells) h = refl
not_end (some (c ∷ v)) cells h = rw h.0.1 refl
