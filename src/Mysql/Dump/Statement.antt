-- ===== src/Mysql/Dump/Statement.antt =====
-- What `parseValuesList` reads from the values of an INSERT statement as mysqldump writes them.
use excalibase_watcher.Base.{
  ap, ◌∙◌, ℕ, ◌≡◌, refl, sym, ◌≢◌, true, false, List, [], ◌∷◌, ◌++◌, map, append-nil, append_assoc,
  arith, All, Bytes, codes,
}
use excalibase_watcher.Mysql.Dump.{Scan, scan_mark, scan_byte, scan, parse_values_list}

-- A part of a string literal: a byte, or a byte behind a backslash.
pub data Item : Type 0 where
  plain : (c : ℕ) → c ≢ b'\'' → c ≢ b'\\' → Item
  escape : ℕ → Item

abbrev pub item_text : Item → Bytes
item_text (plain c _ _) = c ∷ []
item_text (escape c) = b'\\' ∷ c ∷ []

abbrev pub items_text : List Item → Bytes
items_text [] = []
items_text (x ∷ xs) = item_text x ++ items_text xs

-- A byte of an unquoted value.
abbrev pub IsBare : ℕ → Type 0
IsBare c = (c ≢ b'\'') × (c ≢ b'(') × (c ≢ b',') × (c ≢ b')')

-- A value: unquoted, as a number or `NULL` is, or a string literal.
pub data Cell : Type 0 where
  bare : (text : Bytes) → All IsBare text → Cell
  literal : List Item → Cell

abbrev pub cell_text : Cell → Bytes
cell_text (bare text _) = text
cell_text (literal items) = b'\'' ∷ (items_text items ++ b'\'' ∷ [])

-- What is read of a value: a literal's contents, its backslashes included, and nothing of an
-- unquoted value.
abbrev pub cell_read : Cell → Bytes
cell_read (bare _ _) = []
cell_read (literal items) = items_text items

-- A row, which has at least one value.
abbrev pub Row : Type 0
Row = Cell × List Cell

abbrev more_text : List Cell → Bytes
more_text [] = []
more_text (c ∷ cs) = b',' ∷ (cell_text c ++ more_text cs)

abbrev pub row_text : Row → Bytes
row_text (c, cs) = b'(' ∷ (cell_text c ++ (more_text cs ++ b')' ∷ []))

abbrev pub row_read : Row → List Bytes
row_read (c, cs) = cell_read c ∷ map cell_read cs

-- Rows with commas between them, and the semicolon that ends the statement.
abbrev pub rows_text : List Row → Bytes
rows_text [] = codes ";"
rows_text (r ∷ []) = row_text r ++ codes ";"
rows_text (r ∷ s ∷ rs) = row_text r ++ (b',' ∷ rows_text (s ∷ rs))

module _ (tuples : List (List Bytes)) (current : List Bytes) where
  -- Between two bytes, outside a string or inside one.
  abbrev outside : Bytes → Scan
  outside value = record {
    tuples = tuples;
    current = current;
    value = value;
    in_string = false;
    escaped = false;
  }

  abbrev inside : Bytes → Scan
  inside value = record (outside value) { in_string = true }

  scan-bare :
      (text : Bytes)
      → All IsBare text
      → (value rest : Bytes) → scan (outside value) (text ++ rest) ≡ scan (outside value) rest
  unfolding scan scan_byte scan_mark
  scan-bare [] b value rest = refl
  scan-bare (c ∷ text) b value rest =
      ap (λ s. scan s (text ++ rest)) (bare_byte c b.0) ∙ scan-bare text b.1 value rest
    where
      bare_byte : (c : ℕ) → IsBare c → scan_byte (outside value) c ≡ outside value
      bare_byte c h = ground (arith, h)

  scan-item :
      (x : Item) (value rest : Bytes)
      → scan (inside value) (item_text x ++ rest) ≡ scan (inside (value ++ item_text x)) rest
  unfolding scan scan_byte
  scan-item (plain c q b) value rest = ground (arith, q, b)
  scan-item (escape c) value rest =
      ap (λ v. scan (inside v) rest) (append_assoc value (b'\\' ∷ []) (c ∷ []))

  scan-items :
      (xs : List Item) (value rest : Bytes)
      → scan (inside value) (items_text xs ++ rest) ≡ scan (inside (value ++ items_text xs)) rest
  scan-items [] value rest = ap (λ v. scan (inside v) rest) (sym (append-nil value))
  scan-items (x ∷ xs) value rest =
      ap (scan (inside value)) (append_assoc (item_text x) (items_text xs) rest)
      ∙ scan-item x value (items_text xs ++ rest)
      ∙ scan-items xs (value ++ item_text x) rest
      ∙ ap (λ v. scan (inside v) rest) (append_assoc value (item_text x) (items_text xs))

  scan-cell :
      (c : Cell) (rest : Bytes)
      → scan (outside []) (cell_text c ++ rest) ≡ scan (outside (cell_read c)) rest
  unfolding scan scan_byte
  scan-cell (bare text b) rest = scan-bare text b [] rest
  scan-cell (literal items) rest =
      ap (scan (inside [])) (append_assoc (items_text items) (b'\'' ∷ []) rest)
      ∙ scan-items items [] (b'\'' ∷ rest)

-- The values behind the first one, up to the end of the row.
scan-more :
    (tuples : List (List Bytes)) (current : List Bytes) (value : Bytes) (cs : List Cell)
    (rest : Bytes)
    → let row = current ++ value ∷ map cell_read cs in
      scan (outside tuples current value) (more_text cs ++ (b')' ∷ rest))
      ≡ scan (outside (tuples ++ row ∷ []) row []) rest
unfolding scan scan_byte scan_mark
scan-more tuples current value [] rest = refl
scan-more tuples current value (c ∷ cs) rest =
    ap (scan (outside tuples (current ++ value ∷ []) []))
      (append_assoc (cell_text c) (more_text cs) (b')' ∷ rest))
    ∙ scan-cell tuples (current ++ value ∷ []) c (more_text cs ++ (b')' ∷ rest))
    ∙ scan-more tuples (current ++ value ∷ []) (cell_read c) cs rest
    ∙ ap (λ row. scan (outside (tuples ++ row ∷ []) row []) rest)
        (append_assoc current (value ∷ []) (map cell_read (c ∷ cs)))

scan-row :
    (tuples : List (List Bytes)) (current : List Bytes) (value : Bytes) (r : Row) (rest : Bytes)
    → scan (outside tuples current value) (row_text r ++ rest)
      ≡ scan (outside (tuples ++ row_read r ∷ []) (row_read r) []) rest
unfolding scan scan_byte scan_mark
scan-row tuples current value (c, cs) rest =
    ap (scan (outside tuples [] [])) (
      append_assoc (cell_text c) (more_text cs ++ b')' ∷ []) rest
      ∙ ap (◌++◌ (cell_text c)) (append_assoc (more_text cs) (b')' ∷ []) rest))
    ∙ scan-cell tuples [] c (more_text cs ++ (b')' ∷ rest))
    ∙ scan-more tuples [] (cell_read c) cs rest

scan-rows :
    (tuples : List (List Bytes)) (current : List Bytes) (value : Bytes) (rs : List Row)
    → (scan (outside tuples current value) (rows_text rs)).tuples ≡ tuples ++ map row_read rs
unfolding scan scan_byte scan_mark
scan-rows tuples current value [] = sym (append-nil tuples)
scan-rows tuples current value (r ∷ []) =
    ap (λ s. s.tuples) (scan-row tuples current value r (codes ";"))
scan-rows tuples current value (r ∷ s ∷ rs) =
    ap (λ s. s.tuples) (scan-row tuples current value r (b',' ∷ rows_text (s ∷ rs)))
    ∙ scan-rows (tuples ++ row_read r ∷ []) (row_read r ++ [] ∷ []) [] (s ∷ rs)
    ∙ append_assoc tuples (row_read r ∷ []) (map row_read (s ∷ rs))

-- From the values of an INSERT statement, `parseValuesList` reads the rows in order, each with all
-- of its values in order; of a string literal it reads the text between the quotes, with the
-- backslashes, and of an unquoted value, such as a number or `NULL`, the empty text.
pub parse_values_list_lem : (rs : List Row) → parse_values_list (rows_text rs) ≡ map row_read rs
unfolding parse_values_list
parse_values_list_lem rs = scan-rows [] [] [] rs
