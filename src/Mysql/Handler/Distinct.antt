-- ===== src/Mysql/Handler/Distinct.antt =====
-- The source ids of rows: the events of a transaction never share one, however its rows are split
-- over rows events, and a replay gives the same ones.
use excalibase_watcher.Base.{
  ◌>>=◌, is_empty_ne, is_empty, decimal, All-append, ◌≤◌, length, ℕ, zero, suc, ◌+◌, ◌<◌, ◌≡◌, refl,
  sym, ap, ◌∙◌, ◌≢◌, Bool, Option, some, List, [], ◌∷◌, ◌++◌, map, arith, All, Bytes, codes,
  prefix-injective, decimal-injective,
}
use excalibase_watcher.Cdc.Event.{Event, EventType}
use excalibase_watcher.Mysql.CommitGate.{source_prefix}
use excalibase_watcher.Mysql.Handler.{
  row_ids_at, position_string, RowsEvent, EventHandler, EventHeader, RowIds, no_ids, placed, in_txn,
  row_id, row_ids, row_count, half, each_row, each_pair, row_events, Action, insert_action,
  update_action, delete_action, other_action,
}
use excalibase_watcher.Mysql.Handler.Values.{Row}

-- No value stands in the list twice.
abbrev pub AllDistinct : List Bytes → Type 0
AllDistinct [] = Unit
AllDistinct (x ∷ xs) = All (λ y. x ≢ y) xs × AllDistinct xs

-- `count` ids, from row `row` on.
abbrev pub ids_from : RowIds → ℕ → ℕ → List Bytes
ids_from ids row zero = []
ids_from ids row (suc count) = row_id ids row ∷ ids_from ids (row + 1) count

-- The events have ids that tell rows apart.
abbrev pub IsPlaced : RowIds → Type 0
IsPlaced no_ids = ⊥
IsPlaced (placed _) = Unit
IsPlaced (in_txn _ _) = Unit

row_id-injective : (ids : RowIds) (a b : ℕ) → IsPlaced ids → row_id ids a ≡ row_id ids b → a ≡ b
unfolding row_id
row_id-injective no_ids a b p e = absurd p
row_id-injective (placed lsn) a b p e =
    let tail = prefix-injective lsn _ _ (prefix-injective source_prefix _ _ e) in
    decimal-injective a b (prefix-injective (b':' ∷ []) _ _ tail)
row_id-injective (in_txn lsn first) a b p e =
    let tail = prefix-injective lsn _ _ (prefix-injective source_prefix _ _ e) in
    ground
      (arith, decimal-injective (first + a) (first + b) (prefix-injective (codes ":txn:") _ _ tail))

ids_from-All :
    (ids : RowIds) (a row count : ℕ)
    → IsPlaced ids
    → a < row
    → All (λ y. row_id ids a ≢ y) (ids_from ids row count)
ids_from-All ids a row zero p lt = tt
ids_from-All ids a row (suc count) p lt = (
  λ e. ground (arith, row_id-injective ids a row p e),
  ids_from-All ids a (row + 1) count p (ground arith),
)

ids_from-Distinct :
    (ids : RowIds) (row count : ℕ) → IsPlaced ids → AllDistinct (ids_from ids row count)
ids_from-Distinct ids row zero p = tt
ids_from-Distinct ids row (suc count) p =
    (ids_from-All ids row (row + 1) count p (ground arith), ids_from-Distinct ids (row + 1) count p)

abbrev pub source_ids : List Event → List Bytes
source_ids = map (λ event. event.source_id)

module _ (valid_json : Bytes → Bool) (now : ℕ) where
  each_row-ids :
      (ids : RowIds) (e : RowsEvent) (type : EventType) (raw : Bytes) (i : ℕ) (rows : List Row)
      → source_ids (each_row valid_json now ids e type raw i rows) ≡ ids_from ids i (length rows)
  unfolding each_row
  each_row-ids ids e type raw i [] = refl
  each_row-ids ids e type raw i (row ∷ rows) =
      ap (◌∷◌ (row_id ids i)) (each_row-ids ids e type raw (i + 1) rows)

  half-suc : (n : ℕ) → half (suc (suc n)) ≡ suc (half n)
  unfolding half
  half-suc n = omega arith

  each_pair-ids :
      (ids : RowIds) (e : RowsEvent) (i : ℕ) (rows : List Row)
      → source_ids (each_pair valid_json now ids e i rows) ≡ ids_from ids i (half (length rows))
  unfolding each_pair half
  each_pair-ids ids e i [] = refl
  each_pair-ids ids e i (_ ∷ []) = refl
  each_pair-ids ids e i (old ∷ new ∷ rows) =
      ap (◌∷◌ (row_id ids i)) (each_pair-ids ids e (i + 1) rows)
      ∙ ap (ids_from ids i) (sym (half-suc (length rows)))

-- The events of a transaction's rows events, with the handler as each of them leaves it.
module _ (valid_json : Bytes → Bool) (now : ℕ) where
  pub txn_events : EventHandler → List RowsEvent → Option (List Event)
  txn_events h [] = some []
  txn_events h (e ∷ es) = do
    (h2, ids) ← row_ids h e
    rest ← txn_events h2 es
    some (row_events valid_json now ids e ++ rest)

-- The id of a row of the transaction, at place `lo` or later, and before `hi`.
record Between (lsn : Bytes) (lo hi : ℕ) (id : Bytes) : Type 0 where
  place : ℕ
  from : lo ≤ place
  below : place < hi
  is : id ≡ row_id (in_txn lsn 0) place

-- The id of a row of the transaction, at place `lo` or later.
record Above (lsn : Bytes) (lo : ℕ) (id : Bytes) : Type 0 where
  place : ℕ
  from : lo ≤ place
  is : id ≡ row_id (in_txn lsn 0) place

Between-Above : (lsn : Bytes) (lo hi : ℕ) (id : Bytes) → Between lsn lo hi id → Above lsn lo id
Between-Above lsn lo hi id b = record { place = b.place; from = b.from; is = b.is }

Between-ne : (lsn : Bytes) (lo hi : ℕ) (x y : Bytes) → Between lsn lo hi x → Above lsn hi y → x ≢ y
Between-ne lsn lo hi x y b a e = ground (
  arith,
  b.from,
  b.below,
  a.from,
  row_id-injective (in_txn lsn 0) b.place a.place tt (sym b.is ∙ e ∙ a.is),
)

Above-weaken :
    (lsn : Bytes) (lo lo2 : ℕ) (ids : List Bytes)
    → lo ≤ lo2
    → All (Above lsn lo2) ids
    → All (Above lsn lo) ids
Above-weaken lsn lo lo2 [] le a = tt
Above-weaken lsn lo lo2 (x ∷ xs) le a = (
  record { place = a.0.place; from = ground (arith, a.0.from); is = a.0.is },
  Above-weaken lsn lo lo2 xs le a.1,
)

Between-All-Above :
    (lsn : Bytes) (lo hi : ℕ) (ids : List Bytes)
    → All (Between lsn lo hi) ids
    → All (Above lsn lo) ids
Between-All-Above lsn lo hi [] b = tt
Between-All-Above lsn lo hi (x ∷ xs) b =
    (Between-Above lsn lo hi x b.0, Between-All-Above lsn lo hi xs b.1)

ne-All :
    (lsn : Bytes) (lo hi : ℕ) (x : Bytes) (ys : List Bytes)
    → Between lsn lo hi x
    → All (Above lsn hi) ys
    → All (λ y. x ≢ y) ys
ne-All lsn lo hi x [] b a = tt
ne-All lsn lo hi x (y ∷ ys) b a = (Between-ne lsn lo hi x y b a.0, ne-All lsn lo hi x ys b a.1)

append-Distinct :
    (lsn : Bytes) (lo hi : ℕ) (xs ys : List Bytes)
    → AllDistinct xs
    → AllDistinct ys
    → All (Between lsn lo hi) xs
    → All (Above lsn hi) ys
    → AllDistinct (xs ++ ys)
append-Distinct lsn lo hi [] ys dx dy b a = dy
append-Distinct lsn lo hi (x ∷ xs) ys dx dy b a = (
  All-append (λ y. x ≢ y) xs ys dx.0 (ne-All lsn lo hi x ys b.0 a),
  append-Distinct lsn lo hi xs ys dx.1 dy b.1 a,
)

row_id-first :
    (lsn : Bytes) (first row : ℕ)
    → row_id (in_txn lsn first) row ≡ row_id (in_txn lsn 0) (first + row)
unfolding row_id
row_id-first lsn first row =
    let e : first + row ≡ 0 + (first + row) = omega arith in
    ap (λ n. source_prefix ++ (lsn ++ (codes ":txn:" ++ decimal n))) e

ids_from-Between :
    (lsn : Bytes) (first row count hi : ℕ)
    → first + (row + count) ≤ hi
    → All (Between lsn first hi) (ids_from (in_txn lsn first) row count)
unfolding row_id
ids_from-Between lsn first row zero hi le = tt
ids_from-Between lsn first row (suc count) hi le = (
  record {
    place = first + row;
    from = omega arith;
    below = omega arith;
    is = row_id-first lsn first row;
  },
  ids_from-Between lsn first (row + 1) count hi (omega arith),
)

source_ids-append : (xs ys : List Event) → source_ids (xs ++ ys) ≡ source_ids xs ++ source_ids ys
source_ids-append [] ys = refl
source_ids-append (x ∷ xs) ys = ap (◌∷◌ x.source_id) (source_ids-append xs ys)

-- The rows of an event get consecutive ids, at most `rowCount` of them.
record Numbered (ids : RowIds) (e : RowsEvent) (events : List Event) : Type 0 where
  count : ℕ
  counted : count ≤ row_count e
  are : source_ids events ≡ ids_from ids 0 count

row_events-Numbered :
    (valid_json : Bytes → Bool) (now : ℕ) (ids : RowIds) (e : RowsEvent)
    → Numbered ids e (row_events valid_json now ids e)
unfolding row_events row_count
row_events-Numbered valid_json now ids e = go e.action refl
  where
    go : (a : Action) → e.action ≡ a → Numbered ids e (row_events valid_json now ids e)
    go insert_action h = rw h (record {
      count = length e.rows;
      counted = ground arith;
      are = each_row-ids valid_json now ids e _ _ 0 e.rows;
    })
    go update_action h = rw h (record {
      count = half (length e.rows);
      counted = ground arith;
      are = each_pair-ids valid_json now ids e 0 e.rows;
    })
    go delete_action h = rw h (record {
      count = length e.rows;
      counted = ground arith;
      are = each_row-ids valid_json now ids e _ _ 0 e.rows;
    })
    go other_action h = rw h (record { count = 0; counted = omega arith; are = refl })

-- No two rows of a rows event that is placed, by its position or by its transaction, share a
-- source id.
pub row_events-Distinct :
    (valid_json : Bytes → Bool) (now : ℕ) (ids : RowIds) (e : RowsEvent)
    → IsPlaced ids
    → AllDistinct (source_ids (row_events valid_json now ids e))
row_events-Distinct valid_json now ids e p =
    let n = row_events-Numbered valid_json now ids e in rw n.are (ids_from-Distinct ids 0 n.count p)

-- An event inside a compressed transaction.
abbrev pub IsInside : RowsEvent → Type 0
IsInside e = (header : EventHeader) × (e.header ≡ some header) × (header.log_pos ≡ 0)

-- What holds of a transaction's events: no id stands twice, and none is of a row before the first.
record Told (h : EventHandler) (events : Option (List Event)) : Type 0 where
  pub told : List Event
  pub is : events ≡ some told
  pub distinct : AllDistinct (source_ids told)
  above : All (Above (position_string h.txn) h.txn_rows) (source_ids told)

module _ (valid_json : Bytes → Bool) (now : ℕ) where
  inside-row_ids :
      (h : EventHandler) (e : RowsEvent)
      → IsInside e
      → h.current_file ≢ []
      → h.txn.file ≢ []
      → row_ids h e
        ≡ some (
          record h { txn_rows = h.txn_rows + row_count e },
          in_txn (position_string h.txn) h.txn_rows,
        )
  unfolding row_ids row_ids_at is_empty
  inside-row_ids h e (header, he, hp) f t =
      rw (he, is_empty_ne h.current_file f, hp, is_empty_ne h.txn.file t) refl

  txn_events-Told :
      (h : EventHandler) (es : List RowsEvent)
      → All IsInside es
      → h.current_file ≢ []
      → h.txn.file ≢ []
      → Told h (txn_events valid_json now h es)
  unfolding txn_events
  txn_events-Told h [] inside f t = record { told = []; is = refl; distinct = tt; above = tt }
  txn_events-Told h (e ∷ es) inside f t =
      let lsn = position_string h.txn in
      let next = record h { txn_rows = h.txn_rows + row_count e } in
      let ids = in_txn lsn h.txn_rows in
      let rest = txn_events-Told next es inside.1 f t in
      let n = row_events-Numbered valid_json now ids e in
      let between =
        ids_from-Between lsn h.txn_rows 0 n.count next.txn_rows (ground (arith, n.counted)) in
      record {
        told = row_events valid_json now ids e ++ rest.told;
        is = rw (inside-row_ids h e inside.0 f t, rest.is) refl;
        distinct =
            rw (source_ids-append (row_events valid_json now ids e) rest.told, n.are)
              (append-Distinct lsn h.txn_rows next.txn_rows _ _ (ids_from-Distinct ids 0 n.count tt)
                rest.distinct between rest.above);
        above =
            rw (source_ids-append (row_events valid_json now ids e) rest.told, n.are)
              (All-append (Above lsn h.txn_rows) _ _
                (Between-All-Above lsn h.txn_rows next.txn_rows _ between)
                (Above-weaken lsn h.txn_rows next.txn_rows _ (omega arith) rest.above));
      }

  -- Inside a compressed transaction, whose rows events carry no position of their own, where the
  -- handler knows the binlog file and the transaction, every rows event is placed, and no two
  -- rows of the whole transaction share a source id.
  pub txn_events-Distinct :
      (h : EventHandler) (es : List RowsEvent)
      → All IsInside es
      → h.current_file ≢ []
      → h.txn.file ≢ []
      → (events : List Event) × (txn_events valid_json now h es ≡ some events)
        × AllDistinct (source_ids events)
  txn_events-Distinct h es inside f t =
      let r = txn_events-Told h es inside f t in (r.told, r.is, r.distinct)
