-- ===== src/Postgres/Snapshot/Beyond.antt =====
-- What a chunk query asks for: the rows beyond the last key of a chunk. `key` is the value of a row's
-- primary key column and `rank` the order of those values.
use excalibase_watcher.Base.{
  ℕ, suc, ◌≤◌, ◌<◌, ◌≡◌, refl, sym, ap, ◌∙◌, Option, none, some, List, [], ◌∷◌, ◌++◌, append_assoc,
  arith, ltb, if◌then◌else◌, All, All-append, Bytes,
}
use excalibase_watcher.Postgres.Snapshot.{ChunkSpec, Row, key_value, last_value}

module _ {V : Type 0} (printed : V → Bytes) (now : ℕ) (s : ChunkSpec) where
  abbrev pub R : Type 0
  R = Row printed now

  module _ (key : R → V) (rank : V → ℕ) where
    -- The primary key's column is among the columns, and no key is NULL.
    abbrev pub IsKeyed : R → Type 0
    IsKeyed row = (last : Option V) → key_value printed now s.columns s.pk row last ≡ some (key row)

    -- The keys grow from row to row, beginning at a rank.
    abbrev pub Ascends : ℕ → List R → Type 0
    Ascends low [] = Unit
    Ascends low (row ∷ more) = (low ≤ rank (key row)) × Ascends (suc (rank (key row))) more

    -- The rows of greater rank.
    unfoldable pub above : ℕ → List R → List R
    above low [] = []
    above low (row ∷ more) =
        if ltb low (rank (key row)) then row ∷ above low more else above low more

    -- `WHERE pk > last`, or no condition.
    abbrev pub beyond : Option V → List R → List R
    beyond none table = table
    beyond (some v) table = above (rank v) table

    last_key : V → List R → V
    last_key v [] = v
    last_key v (row ∷ more) = last_key (key row) more

    last_value-last_key :
        (v : V) (first : List R)
        → All IsKeyed first
        → last_value printed now s first (some v) ≡ some (last_key v first)
    unfolding last_value last_key
    last_value-last_key v [] k = refl
    last_value-last_key v (row ∷ first) k =
        rw (k.0 (some v)) (last_value-last_key (key row) first k.1)

    above-all : (v low : ℕ) (table : List R) → v < low → Ascends low table → above v table ≡ table
    unfolding above
    above-all v low [] h a = refl
    above-all v low (row ∷ more) h a =
        ground (arith, a.0, above-all v (suc (rank (key row))) more (ground (arith, a.0)) a.1)

    -- Above the last key of the first rows are the other rows.
    above-rest :
        (v : V) (first rest : List R)
        → Ascends (suc (rank v)) (first ++ rest)
        → (rank v ≤ rank (last_key v first))
          × (above (rank (last_key v first)) (first ++ rest) ≡ rest)
    unfolding last_key above
    above-rest v [] rest a = (omega arith, above-all (rank v) (suc (rank v)) rest (omega arith) a)
    above-rest v (row ∷ first) rest a =
        let h = above-rest (key row) first rest a.1 in ground (arith, a.0, h.0, h.1)

    beyond-rest :
        (low : ℕ) (row : R) (first rest : List R)
        → Ascends low (row ∷ (first ++ rest))
        → All IsKeyed (row ∷ first)
        → beyond (last_value printed now s (row ∷ first) none) (row ∷ (first ++ rest)) ≡ rest
    unfolding last_value above
    beyond-rest low row first rest a k =
        let h = above-rest (key row) first rest a.1 in
        rw (k.0 none, last_value-last_key (key row) first k.1) (ground (arith, h.0, h.1))

    last_value-skip :
        (before : List R) (row : R) (more : List R) (last : Option V)
        → IsKeyed row
        → last_value printed now s (before ++ row ∷ more) last
          ≡ last_value printed now s (row ∷ more) none
    unfolding last_value
    last_value-skip [] row more last k = ap (last_value printed now s more) (k last ∙ sym (k none))
    last_value-skip (b ∷ before) row more last k =
        last_value-skip before row more (key_value printed now s.columns s.pk b last) k

    -- Beyond the last key of a chunk are the rows behind the chunk.
    pub beyond-chunk :
        (low : ℕ) (before : List R) (row : R) (more rest : List R)
        → Ascends low (before ++ (row ∷ more ++ rest))
        → All IsKeyed before
        → All IsKeyed (row ∷ more)
        → beyond (last_value printed now s (row ∷ more) none) (before ++ (row ∷ more ++ rest))
          ≡ rest
    beyond-chunk low [] row more rest a kb k = beyond-rest low row more rest a k
    beyond-chunk low (b ∷ before) row more rest a kb k =
        let e = append_assoc before (row ∷ more) rest in
        rw (← last_value-skip (b ∷ before) row more none k.0, ← e)
          (beyond-rest low b (before ++ row ∷ more) rest (rw e a)
            (kb.0, All-append IsKeyed before (row ∷ more) kb.1 k))
