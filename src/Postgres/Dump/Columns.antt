-- ===== src/Postgres/Dump/Columns.antt =====
-- The column list of a COPY header, and how it is read back.
use excalibase_watcher.Base.{
  true, ◌≡◌, refl, ap, ◌∙◌, false, List, [], ◌∷◌, ◌++◌, map, append-nil, ◌==◌, All, Bytes, codes, ℕ,
}
use excalibase_watcher.Postgres.Dump.{
  split, cons_first, is_space, trim_left, trim_right, cons_trimmed, split_columns,
}

pub split-append :
    (sep : ℕ) (v rest : Bytes)
    → sep == sep ≡ true
    → All (λ c. c == sep ≡ false) v
    → split sep (v ++ sep ∷ rest) ≡ v ∷ split sep rest
unfolding split cons_first
split-append sep [] rest e h = rw e refl
split-append sep (c ∷ v) rest e h = rw (h.0, split-append sep v rest e h.1) refl

pub split_end : (sep : ℕ) (v : Bytes) → All (λ c. c == sep ≡ false) v → split sep v ≡ v ∷ []
unfolding split cons_first
split_end sep [] h = refl
split_end sep (c ∷ v) h = rw (h.0, split_end sep v h.1) refl

-- A name with no comma and no white space.
abbrev pub IsColumnName : Bytes → Type 0
IsColumnName = All (λ c. (c == b',' ≡ false) × (is_space c ≡ false))

abbrev pub more_columns : List Bytes → Bytes
more_columns [] = []
more_columns (c ∷ cs) = codes ", " ++ (c ++ more_columns cs)

-- The names, of which there is at least one, with a comma and a space between two of them.
abbrev pub column_text : Bytes × List Bytes → Bytes
column_text (c, cs) = c ++ more_columns cs

no_comma : (name : Bytes) → IsColumnName name → All (λ c. c == b',' ≡ false) name
no_comma [] h = tt
no_comma (c ∷ name) h = (h.0.0, no_comma name h.1)

split-column_text :
    (c : Bytes) (cs : List Bytes)
    → All IsColumnName (c ∷ cs)
    → split b',' (column_text (c, cs)) ≡ c ∷ map (◌∷◌ 32) cs
unfolding split cons_first
split-column_text c [] h = ap (split b',') (append-nil c) ∙ split_end b',' c (no_comma c h.0)
split-column_text c (d ∷ ds) h =
    split-append b',' c (32 ∷ (d ++ more_columns ds)) refl (no_comma c h.0)
    ∙ ap (λ (parts : List Bytes). c ∷ cons_first 32 parts) (split-column_text d ds h.1)

trim_right-name : (name : Bytes) → IsColumnName name → trim_right name ≡ name
unfolding trim_right cons_trimmed
trim_right-name [] h = refl
trim_right-name (c ∷ []) h = rw h.0.1 refl
trim_right-name (c ∷ d ∷ name) h = rw (trim_right-name (d ∷ name) h.1) refl

trim_left-name : (name : Bytes) → IsColumnName name → trim_left name ≡ name
unfolding trim_left
trim_left-name [] h = refl
trim_left-name (c ∷ name) h = rw h.0.1 refl

trim-name : (name : Bytes) → IsColumnName name → trim_left (trim_right name) ≡ name
trim-name name h = ap trim_left (trim_right-name name h) ∙ trim_left-name name h

-- The space behind a comma is trimmed.
trim-space : (name : Bytes) → IsColumnName name → trim_left (trim_right (32 ∷ name)) ≡ name
unfolding trim_right trim_left cons_trimmed
trim-space [] h = refl
trim-space (c ∷ name) h =
    ap (λ (t : Bytes). trim_left (cons_trimmed 32 t)) (trim_right-name (c ∷ name) h)
    ∙ trim_left-name (c ∷ name) h

trim-spaces :
    (names : List Bytes)
    → All IsColumnName names
    → map (λ part. trim_left (trim_right part)) (map (◌∷◌ 32) names) ≡ names
trim-spaces [] h = refl
trim-spaces (name ∷ names) h = rw (trim-space name h.0, trim-spaces names h.1) refl

-- The column list is read back.
pub split_columns-column_text :
    (c : Bytes) (cs : List Bytes)
    → All IsColumnName (c ∷ cs)
    → split_columns (column_text (c, cs)) ≡ c ∷ cs
unfolding split_columns
split_columns-column_text c cs h =
    rw (split-column_text c cs h, trim-name c h.0, trim-spaces cs h.1) refl
