-- ===== src/Postgres/Snapshot/Sql.antt =====
-- The SQL texts of a snapshot, written out, and what a database answers to them. `key` is the value
-- of a row's primary key column and `rank` the order of the values.
use excalibase_watcher.Base.{
  ℕ, suc, ◌≤◌, ◌≡◌, refl, sym, ap, none, some, Option, List, [], ◌∷◌, ◌++◌, append-nil, take, drop,
  Bytes, codes, false,
}
use excalibase_watcher.Postgres.Snapshot.{
  ChunkSpec, Row, Arg, value, number, Answer, rows, column_list, quoted_name, build_chunk_query,
  offset_query,
}
use excalibase_watcher.Postgres.Snapshot.Beyond.{above, beyond}

-- Names in double quotes, with a comma and a space between two of them.
abbrev pub more_names : List Bytes → Bytes
more_names [] = []
more_names (c ∷ cs) = codes ", " ++ (quoted_name c ++ more_names cs)

abbrev pub names : List Bytes → Bytes
names [] = []
names (c ∷ cs) = quoted_name c ++ more_names cs

column_list-names : (cs : List Bytes) → column_list cs ≡ names cs
unfolding column_list
column_list-names [] = refl
column_list-names (c ∷ []) = sym (append-nil (quoted_name c))
column_list-names (c ∷ d ∷ cs) =
    ap (λ (t : Bytes). quoted_name c ++ (codes ", " ++ t)) (column_list-names (d ∷ cs))

module _ {V : Type 0} (printed : V → Bytes) (now : ℕ) (s : ChunkSpec) where
  abbrev R : Type 0
  R = Row printed now

  abbrev pub selected : Bytes
  selected =
      codes "SELECT "
      ++ (names s.columns
          ++ (codes " FROM " ++ (quoted_name s.schema ++ (b'.' ∷ quoted_name s.table))))

  abbrev pub first_text : Bytes
  first_text = selected ++ (codes " ORDER BY " ++ (quoted_name s.pk ++ codes " LIMIT $1"))

  abbrev pub later_text : Bytes
  later_text =
      selected
      ++ (codes " WHERE "
          ++ (quoted_name s.pk
              ++ (codes " > $1 ORDER BY " ++ (quoted_name s.pk ++ codes " LIMIT $2"))))

  abbrev pub page_text : Bytes
  page_text = selected ++ codes " ORDER BY 1 LIMIT $1 OFFSET $2"

  module _ (rank : V → ℕ) (answer : Bytes × List (Arg printed now) → Answer printed now)
      (table : List R) where
    -- The rows of `table` have a value in the first column, and these grow from row to row, beginning
    -- at a rank.
    abbrev pub AscendsFirst : ℕ → List R → Type 0
    AscendsFirst low [] = Unit
    AscendsFirst low ([] ∷ more) = ⊥
    AscendsFirst low ((none ∷ _) ∷ more) = ⊥
    AscendsFirst low ((some v ∷ _) ∷ more) = (low ≤ rank v) × AscendsFirst (suc (rank v)) more

    -- What a database with the rows `table` answers to the pages of `ORDER BY 1`: with no two rows
    -- alike in the first column, the order of the rows is the order of that column.
    pub record ServesOffset : Type 0 where
      pub page :
          AscendsFirst 0 table
          → (n offset : ℕ)
          → answer (page_text, number n ∷ number offset ∷ [])
            ≡ rows (take n (drop offset table)) false

    pub ServesOffset-query :
        ServesOffset
        → AscendsFirst 0 table
        → (offset : ℕ)
        → answer (offset_query printed now s offset)
          ≡ rows (take s.chunk_size (drop offset table)) false
    ServesOffset-query serves a offset =
        rw (column_list-names s.columns) (serves.page a s.chunk_size offset)

    module _ (key : R → V) where
      -- What a database whose rows in the order of the key are `table` answers to the chunk queries:
      -- the first rows, and the first rows whose key is greater than the value given.
      pub record Serves : Type 0 where
        pub first : (n : ℕ) → answer (first_text, number n ∷ []) ≡ rows (take n table) false
        pub later :
            (v : V) (n : ℕ)
            → answer (later_text, value v ∷ number n ∷ [])
              ≡ rows (take n (above printed now s key rank (rank v) table)) false

      pub Serves-query :
          Serves
          → (last : Option V)
          → answer (build_chunk_query printed now s last)
            ≡ rows (take s.chunk_size (beyond printed now s key rank last table)) false
      unfolding build_chunk_query
      Serves-query serves none = rw (column_list-names s.columns) (serves.first s.chunk_size)
      Serves-query serves (some v) = rw (column_list-names s.columns) (serves.later v s.chunk_size)
