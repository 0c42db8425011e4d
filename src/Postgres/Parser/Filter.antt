-- ===== src/Postgres/Parser/Filter.antt =====
-- The table filter: which rows a message may turn into events.
use excalibase_watcher.Base.{
  All-append, ℕ, Bool, true, false, ◌≡◌, Bytes, inl, inr, Bool-cases, Option-cases, ◌&&◌, ◌==◌,
  bytes_eq, ltb, leb, List, [], ◌∷◌, map, All,
}
use excalibase_watcher.Cdc.Event.{Event, is_table_event}
use excalibase_watcher.Postgres.Parser.{Parser}
use excalibase_watcher.Postgres.Parser.Reader.{Reader, remaining, read_uint32}
use excalibase_watcher.Postgres.Parser.Messages.{
  Parsed, relation, passes_filter, parse_begin, parse_commit, parse_relation, parse_insert,
  parse_update, parse_delete, parse_truncate, parse, ddl_log_table, truncate_event,
}
use excalibase_watcher.Postgres.Parser.Truncates.{
  first_last, outputs, somes, parse_truncate-first_last,
}

-- An event of a table is of one that passes the filter.
abbrev pub Passes : Parser → Event → Type 0
Passes p e = is_table_event e.type ≡ true → passes_filter p e.table ≡ true

All-first_last : (P : Event → Type 0) (es : List Event) → All P es → All P (first_last es)
All-first_last P [] h = tt
All-first_last P (e ∷ es) h = All-append P es (e ∷ []) h.1 (h.0, tt)

abbrev Allowed : Parser → Parsed → Type 0
Allowed p r = All (Passes p) (outputs r)

module _ (valid_json : Bytes → Bool) (now : ℕ) (p : Parser) (buf : Reader) (lsn : Bytes) where
  insert-Allowed : Allowed p (parse_insert valid_json now p buf lsn)
  unfolding parse_insert is_table_event
  insert-Allowed = elim (Option-cases (relation p.relation_map (read_uint32 buf).0)) [
    | inl unknown ↦ rw (parse_insert, unknown) tt
    | inr (rel, known) ↦ elim (Bool-cases (p.capture_ddl && bytes_eq rel.name ddl_log_table)) [
      | inl logged ↦ rw (parse_insert, known, logged) (λ e. cc, tt)
      | inr plain ↦ elim (Bool-cases (passes_filter p rel.name)) [
        | inl passes ↦ rw (parse_insert, known, plain, passes) (λ e. passes, tt)
        | inr held ↦ rw (parse_insert, known, plain, held) tt
      ]
    ]
  ]

  delete-Allowed : Allowed p (parse_delete valid_json now p buf lsn)
  unfolding parse_delete is_table_event
  delete-Allowed = elim (Option-cases (relation p.relation_map (read_uint32 buf).0)) [
    | inl unknown ↦ rw (parse_delete, unknown) tt
    | inr (rel, known) ↦ elim (Bool-cases (passes_filter p rel.name)) [
      | inr held ↦ rw (parse_delete, known, held) tt
      | inl passes ↦ elim (Bool-cases (ltb 0 (remaining (read_uint32 buf).1))) [
        | inl more ↦ rw (parse_delete, known, passes, more) (λ e. passes, tt)
        | inr done ↦ rw (parse_delete, known, passes, done) (λ e. passes, tt)
      ]
    ]
  ]

  update-Allowed : Allowed p (parse_update valid_json now p buf lsn)
  unfolding parse_update is_table_event
  update-Allowed = elim (Option-cases (relation p.relation_map (read_uint32 buf).0)) [
    | inl unknown ↦ rw (parse_update, unknown) tt
    | inr (rel, known) ↦ elim (Bool-cases (passes_filter p rel.name)) [
      | inr held ↦ rw (parse_update, known, held) tt
      | inl passes ↦ rw (parse_update, known, passes) (λ e. passes, tt)
    ]
  ]

  begin-Allowed : Allowed p (parse_begin now p buf lsn)
  unfolding parse_begin is_table_event
  begin-Allowed = elim (Bool-cases (leb 20 (remaining buf))) [
    | inl full ↦ rw (parse_begin, full) (λ e. cc, tt)
    | inr short ↦ rw (parse_begin, short) (λ e. cc, tt)
  ]

  commit-Allowed : Allowed p (parse_commit now p buf lsn)
  unfolding parse_commit is_table_event
  commit-Allowed = elim (Bool-cases (leb 25 (remaining buf))) [
    | inl full ↦ rw (parse_commit, full) (λ e. cc, tt)
    | inr short ↦ rw (parse_commit, short) (λ e. cc, tt)
  ]

  relation-Allowed : Allowed p (parse_relation p buf)
  unfolding parse_relation
  relation-Allowed = tt

  ids-Allowed :
      (options : ℕ) (ids : List ℕ)
      → All (Passes p) (somes (map (truncate_event now p options lsn) ids))
  unfolding truncate_event
  ids-Allowed options [] = tt
  ids-Allowed options (id ∷ ids) = elim (Option-cases (relation p.relation_map id)) [
    | inl unknown ↦ rw (truncate_event, unknown) (ids-Allowed options ids)
    | inr (rel, known) ↦ elim (Bool-cases (passes_filter p rel.name)) [
      | inl passes ↦ rw (truncate_event, known, passes) (λ e. passes, ids-Allowed options ids)
      | inr held ↦ rw (truncate_event, known, held) (ids-Allowed options ids)
    ]
  ]

  truncate-Allowed : Allowed p (parse_truncate now true p buf lsn)
  truncate-Allowed =
      rw (parse_truncate-first_last now p buf lsn).0 (All-first_last _ _ (ids-Allowed _ _))

-- Whatever the message, every event of a table that `Parse` returns, or passes to the event handler
-- while one is set, is of a table that passes the filter.
pub parse-Passes :
    (valid_json : Bytes → Bool) (now : ℕ) (p : Parser) (message lsn : Bytes)
    → All (Passes p) (outputs (parse valid_json now true p message lsn))
unfolding parse
parse-Passes valid_json now p [] lsn = tt
parse-Passes valid_json now p (kind ∷ rest) lsn = elim (Bool-cases (kind == b'B')) [
  | inl k ↦ rw k (begin-Allowed valid_json now p buf lsn)
  | inr b ↦ elim (Bool-cases (kind == b'C')) [
    | inl k ↦ rw (b, k) (commit-Allowed valid_json now p buf lsn)
    | inr c ↦ elim (Bool-cases (kind == b'R')) [
      | inl k ↦ rw (b, c, k) (relation-Allowed valid_json now p buf lsn)
      | inr r ↦ elim (Bool-cases (kind == b'I')) [
        | inl k ↦ rw (b, c, r, k) (insert-Allowed valid_json now p buf lsn)
        | inr i ↦ elim (Bool-cases (kind == b'U')) [
          | inl k ↦ rw (b, c, r, i, k) (update-Allowed valid_json now p buf lsn)
          | inr u ↦ elim (Bool-cases (kind == b'D')) [
            | inl k ↦ rw (b, c, r, i, u, k) (delete-Allowed valid_json now p buf lsn)
            | inr d ↦ elim (Bool-cases (kind == b'T')) [
              | inl k ↦ rw (b, c, r, i, u, d, k) (truncate-Allowed valid_json now p buf lsn)
              | inr t ↦ rw (b, c, r, i, u, d, t) tt
            ]
          ]
        ]
      ]
    ]
  ]
]
  where
    buf : Reader
    buf = record { bytes = kind ∷ rest; pos = 1; err = false }
