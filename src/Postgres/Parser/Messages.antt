-- ===== src/Postgres/Parser/Messages.antt =====
-- The messages of internal/postgres/parser.go: `Parse` and the parser of each kind.
-- A call returns the parser, its event if any, and the further events that it passed to the event
-- handler. The clock's reading is `now`. Saving to the schema store cannot fail here: its error is
-- only logged.
use excalibase_watcher.Base.{
  ℕ, zero, suc, ◌+◌, ◌/◌, ◌%◌, Bool, true, false, not, ◌&&◌, ◌||◌, Option, none, some, List, [],
  ◌∷◌, ◌++◌, map, ltb, leb, ◌==◌, if◌then◌else◌, Bytes, codes, bytes_eq, is_empty, contains,
  decimal,
}
use excalibase_watcher.Cdc.Event.{
  Event, begin, commit, insert, update, delete, ddl, truncate, new_event, new_event_with_source_ts,
}
use excalibase_watcher.Schema.{ColumnDef, HistoryEntry}
use excalibase_watcher.Postgres.Parser.{RelationInfo, Parser}
use excalibase_watcher.Postgres.Parser.Reader.{
  Reader, remaining, read_byte, read_uint16, read_uint32, read_uint64, read_c_string, put_back,
}
use excalibase_watcher.Postgres.Parser.Tuple.{parse_tuple_data}

abbrev pub pg_epoch_offset_millis : ℕ
pg_epoch_offset_millis = 946684800000

abbrev pub ddl_log_table : Bytes
ddl_log_table = codes "_cdc_ddl_log"

abbrev pub slot_owners_table : Bytes
slot_owners_table = codes "excalibase_cdc_slot_owners"

pub record Parsed : Type 0 where
  pub parser : Parser
  pub event : Option Event
  pub handled : List Event

abbrev pub nothing : Parser → Parsed
nothing p = record { parser = p; event = none; handled = [] }

abbrev pub one : Parser → Event → Parsed
one p event = record { parser = p; event = some event; handled = [] }

-- `p.relationMap[relID]`.
unfoldable pub relation : List (ℕ × RelationInfo) → ℕ → Option RelationInfo
relation [] id = none
relation ((k, rel) ∷ rest) id = if k == id then some rel else relation rest id

unfoldable pub passes_filter : Parser → Bytes → Bool
passes_filter p table =
    if bytes_eq table slot_owners_table
    then false
    else elim p.table_filter [ [] ↦ true | t ∷ ts ↦ contains (t ∷ ts) table ]

unfoldable pub parse_begin : ℕ → Parser → Reader → Bytes → Parsed
parse_begin now p buf lsn =
    if leb 20 (remaining buf)
    then (let (final, buf1) = read_uint64 buf in
        let (micros, buf2) = read_uint64 buf1 in
        one (record p { txn_final_lsn = final })
          (new_event_with_source_ts now begin [] [] [] (codes "BEGIN") lsn
            (pg_epoch_offset_millis + micros / 1000)))
    else one p (new_event now begin [] [] [] (codes "BEGIN") lsn)

unfoldable pub parse_commit : ℕ → Parser → Reader → Bytes → Parsed
parse_commit now p buf lsn =
    if leb 25 (remaining buf)
    then (let (flags, buf1) = read_byte buf in
        let (commit_lsn, buf2) = read_uint64 buf1 in
        let (end, buf3) = read_uint64 buf2 in
        let (micros, buf4) = read_uint64 buf3 in
        one (record p { txn_end_lsn = end })
          (new_event_with_source_ts now commit [] [] [] (codes "COMMIT") lsn
            (pg_epoch_offset_millis + micros / 1000)))
    else one (record p { txn_end_lsn = 0 }) (new_event now commit [] [] [] (codes "COMMIT") lsn)

-- The columns of a RELATION message.
pub record Columns : Type 0 where
  pub names : List Bytes
  pub oids : List ℕ
  pub keys : List Bytes
  pub reader : Reader

-- The loop over the columns, `left` of them to come.
unfoldable pub relation_columns : ℕ → Reader → Columns
relation_columns zero buf = record { names = []; oids = []; keys = []; reader = buf }
relation_columns (suc left) buf =
    let (flags, buf1) = read_byte buf in
    let (column, buf2) = read_c_string buf1 in
    let (oid, buf3) = read_uint32 buf2 in
    let (modifier, buf4) = read_uint32 buf3 in
    let rest = relation_columns left buf4 in
    record {
      names = column ∷ rest.names;
      oids = oid ∷ rest.oids;
      keys = if flags % 2 == 1 then column ∷ rest.keys else rest.keys;
      reader = rest.reader;
    }

unfoldable pub column_defs : List Bytes → List ℕ → List ColumnDef
column_defs (name ∷ names) (oid ∷ oids) =
    record { name = name; type_name = []; type_oid = oid } ∷ column_defs names oids
column_defs _ _ = []

abbrev position_text : Option Bytes → Bytes
position_text none = codes "unknown"
position_text (some lsn) = lsn

-- `schemaStore.Save`, where there is a store.
unfoldable pub save_history : Parser → RelationInfo → Option (List HistoryEntry)
unfolding column_defs
save_history p rel = elim p.schema_store [
  | none ↦ none
  | some entries ↦ some (
      entries
      ++ record {
        position = position_text p.lsn_provider;
        schema = rel.namespace;
        table = rel.name;
        columns = column_defs rel.columns rel.type_oids;
        timestamp = 0;
      }
        ∷ [])
]

unfoldable pub parse_relation : Parser → Reader → Parsed
unfolding relation_columns save_history
parse_relation p buf =
    let (id, buf1) = read_uint32 buf in
    let (namespace, buf2) = read_c_string buf1 in
    let (name, buf3) = read_c_string buf2 in
    let (identity, buf4) = read_byte buf3 in
    let (num_cols, buf5) = read_uint16 buf4 in
    let columns = relation_columns num_cols buf5 in
    let rel : RelationInfo = record {
      namespace = namespace;
      name = name;
      columns = columns.names;
      type_oids = columns.oids;
      key_columns = columns.keys;
    } in
    nothing
      (record p { relation_map = (id, rel) ∷ p.relation_map; schema_store = save_history p rel })

module _ (valid_json : Bytes → Bool) (now : ℕ) where
  unfoldable pub parse_insert : Parser → Reader → Bytes → Parsed
  unfolding relation passes_filter
  parse_insert p buf lsn =
      let (id, buf1) = read_uint32 buf in
      elim (relation p.relation_map id) [
        | none ↦ nothing p
        | some rel ↦
            let (kind, buf2) = read_byte buf1 in
            let row = (parse_tuple_data valid_json rel false buf2).0 in
            if p.capture_ddl && bytes_eq rel.name ddl_log_table
            then one p (new_event now ddl rel.namespace [] row (codes "DDL") lsn)
            else if not (passes_filter p rel.name)
            then nothing p
            else one p
                (record (new_event now insert rel.namespace rel.name row (codes "INSERT") lsn) {
                  key_columns = rel.key_columns;
                })
      ]

  -- The old row image, if the message carries one, with the reader behind it.
  unfoldable pub old_image : RelationInfo → Reader → Bytes × Reader
  old_image rel buf =
      if ltb 0 (remaining buf)
      then (let (kind, buf1) = read_byte buf in
          if kind == b'K' || kind == b'O'
          then (let (text, buf2) = parse_tuple_data valid_json rel (kind == b'K') buf1 in
              (codes "\"old\":" ++ text, buf2))
          else ([], put_back buf1))
      else ([], buf)

  unfoldable pub new_image : RelationInfo → Bytes → Reader → Bytes
  unfolding is_empty
  new_image rel old buf =
      if ltb 0 (remaining buf)
      then (let (kind, buf1) = read_byte buf in
          if kind == b'N'
          then (if is_empty old then [] else codes ", ")
            ++ (codes "\"new\":" ++ (parse_tuple_data valid_json rel false buf1).0)
          else [])
      else []

  unfoldable pub parse_update : Parser → Reader → Bytes → Parsed
  unfolding relation passes_filter old_image new_image
  parse_update p buf lsn =
      let (id, buf1) = read_uint32 buf in
      elim (relation p.relation_map id) [
        | none ↦ nothing p
        | some rel ↦
            if not (passes_filter p rel.name)
            then nothing p
            else (let (old, buf2) = old_image rel buf1 in
                let row = b'{' ∷ (old ++ (new_image rel old buf2 ++ b'}' ∷ [])) in
                one p
                  (record (new_event now update rel.namespace rel.name row (codes "UPDATE") lsn) {
                    key_columns = rel.key_columns;
                  }))
      ]

  unfoldable pub parse_delete : Parser → Reader → Bytes → Parsed
  unfolding relation passes_filter
  parse_delete p buf lsn =
      let (id, buf1) = read_uint32 buf in
      elim (relation p.relation_map id) [
        | none ↦ nothing p
        | some rel ↦
            if not (passes_filter p rel.name)
            then nothing p
            else if ltb 0 (remaining buf1)
            then (let (kind, buf2) = read_byte buf1 in
                let row = (parse_tuple_data valid_json rel (kind == b'K') buf2).0 in
                one p
                  (record (new_event now delete rel.namespace rel.name row (codes "DELETE") lsn) {
                    key_columns = rel.key_columns;
                  }))
            else one p
                (new_event now delete rel.namespace rel.name (codes "{}") (codes "DELETE") lsn)
      ]

-- The relations that a TRUNCATE message names, by its counter.
unfoldable pub truncate_ids : ℕ → Reader → List ℕ
truncate_ids zero buf = []
truncate_ids (suc left) buf = let (id, buf1) = read_uint32 buf in id ∷ truncate_ids left buf1

-- One round of the loop: the event of a relation that is known and passes the filter.
unfoldable pub truncate_event : ℕ → Parser → ℕ → Bytes → ℕ → Option Event
unfolding relation passes_filter
truncate_event now p options lsn id = elim (relation p.relation_map id) [
  | none ↦ none
  | some rel ↦
      if passes_filter p rel.name
      then some (
          new_event now truncate rel.namespace rel.name
            (codes "{\"options\":" ++ (decimal options ++ b'}' ∷ [])) (codes "TRUNCATE") lsn)
      else none
]

-- The first event is returned, and each later one handed over; `has_handler` says that a handler
-- is set.
unfoldable pub truncate_loop : Bool → Parsed → List (Option Event) → Parsed
truncate_loop has_handler r [] = r
truncate_loop has_handler r (none ∷ rest) = truncate_loop has_handler r rest
truncate_loop has_handler r (some event ∷ rest) =
    truncate_loop has_handler
      (elim r.event [
        | none ↦ record r { event = some event }
        | some first ↦ if has_handler then record r { handled = r.handled ++ event ∷ [] } else r
      ])
      rest

unfoldable pub parse_truncate : ℕ → Bool → Parser → Reader → Bytes → Parsed
unfolding truncate_ids truncate_event truncate_loop
parse_truncate now has_handler p buf lsn =
    let (count, buf1) = read_uint32 buf in
    let (options, buf2) = read_byte buf1 in
    truncate_loop has_handler (nothing p)
      (map (truncate_event now p options lsn) (truncate_ids count buf2))

-- `Parse`.
unfoldable pub parse : (Bytes → Bool) → ℕ → Bool → Parser → Bytes → Bytes → Parsed
unfolding parse_begin parse_commit parse_relation parse_insert parse_update parse_delete
    parse_truncate
parse valid_json now has_handler p [] lsn = nothing p
parse valid_json now has_handler p (kind ∷ rest) lsn =
    let buf : Reader = record { bytes = kind ∷ rest; pos = 1; err = false } in
    if kind == b'B'
    then parse_begin now p buf lsn
    else if kind == b'C'
    then parse_commit now p buf lsn
    else if kind == b'R'
    then parse_relation p buf
    else if kind == b'I'
    then parse_insert valid_json now p buf lsn
    else if kind == b'U'
    then parse_update valid_json now p buf lsn
    else if kind == b'D'
    then parse_delete valid_json now p buf lsn
    else if kind == b'T'
    then parse_truncate now has_handler p buf lsn
    else nothing p
