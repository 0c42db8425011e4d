-- ===== src/Mysql/Handler.antt =====
-- internal/mysql/listener.go: the binlog event handler, which turns the events of canal into events
-- on the bus and tells the commit gate of transaction boundaries.
-- The bus is the parameter `handle`, `Service.HandleEvent` with `none` while the caller is blocked;
-- the clock's reading is the argument `now`, `json.Valid` the argument `valid_json`.
pub mod Values
pub mod Distinct
use excalibase_watcher.Base.{
  ◌>>=◌, ℕ, ◌+◌, ◌-◌, ◌/◌, ◌%◌, Bool, not, ◌&&◌, ◌||◌, Option, none, some, List, [], ◌∷◌, ◌++◌, leb,
  ◌==◌, if◌then◌else◌, u32_mod, length, Bytes, codes, is_empty, decimal,
}
use excalibase_watcher.Cdc.Event.{Event, EventType, insert, update, delete, ddl, commit, new_event}
use excalibase_watcher.Mysql.CommitGate.{
  BinlogPosition, no_position, CommitGate, source_prefix, own_event,
}
use excalibase_watcher.Mysql.CommitGate as Gate
use excalibase_watcher.Mysql.Handler.Values.{Table, Row, row_to_json}

-- `canal.RowsEvent.Action`, a string of canal's: the three that the handler knows, or another one.
pub data Action : Type 0 where
  insert_action update_action delete_action other_action : Action

pub record EventHeader : Type 0 where
  pub log_pos : ℕ
  pub event_size : ℕ

pub record RowsEvent : Type 0 where
  pub action : Action
  pub table : Table
  pub rows : List Row
  pub header : Option EventHeader

pub record EventHandler : Type 0 where
  pub gate : CommitGate
  pub current_file : Bytes
  pub txn : BinlogPosition
  pub txn_rows : ℕ

-- `BinlogPosition.String`, `fmt.Sprintf("%s:%d", …)`.
pub position_string : BinlogPosition → Bytes
unfolding decimal
position_string p = p.file ++ (b':' ∷ decimal p.position)

-- What `rowIDs` returns without an error: no ids, the ids of a placed event, or those of an event
-- inside a compressed transaction, from row `first` on.
pub data RowIds : Type 0 where
  no_ids : RowIds
  placed : Bytes → RowIds
  in_txn : Bytes → ℕ → RowIds

pub row_id : RowIds → ℕ → Bytes
unfolding decimal
row_id no_ids row = []
row_id (placed lsn) row = source_prefix ++ (lsn ++ (b':' ∷ decimal row))
row_id (in_txn lsn first) row = source_prefix ++ (lsn ++ (codes ":txn:" ++ decimal (first + row)))

pub ids_lsn : RowIds → Bytes
ids_lsn no_ids = []
ids_lsn (placed lsn) = lsn
ids_lsn (in_txn lsn _) = lsn

pub half : ℕ → ℕ
half n = n / 2

pub row_count : RowsEvent → ℕ
unfolding half
row_count e = elim e.action [ update_action ↦ half (length e.rows) | _ ↦ length e.rows ]

-- `rowIDs` behind its first test; `none` is `errUnplacedRow`.
unfoldable pub row_ids_at : EventHandler → RowsEvent → ℕ → Option (EventHandler × RowIds)
unfolding row_count position_string is_empty
row_ids_at h e log_pos =
    if not (log_pos == 0)
    then some (h, placed (position_string (record { file = h.current_file; position = log_pos })))
    else if is_empty h.txn.file
    then none
    else some (
      record h { txn_rows = h.txn_rows + row_count e },
      in_txn (position_string h.txn) h.txn_rows,
    )

unfoldable pub row_ids : EventHandler → RowsEvent → Option (EventHandler × RowIds)
unfolding row_ids_at is_empty
row_ids h e = elim e.header [
  | none ↦ some (h, no_ids)
  | some header ↦
      if is_empty h.current_file then some (h, no_ids) else row_ids_at h e header.log_pos
]

module _ (valid_json : Bytes → Bool) (now : ℕ) where
  -- `publish` on row `row`: the event with its source id.
  abbrev row_event : RowIds → RowsEvent → EventType → Bytes → Bytes → ℕ → Event
  row_event ids e type raw payload row =
      record (new_event now type e.table.schema e.table.name payload raw (ids_lsn ids)) {
        source_id = row_id ids row;
      }

  -- The loops over the rows of an insert or a delete, and over the pairs of rows of an update.
  pub each_row : RowIds → RowsEvent → EventType → Bytes → ℕ → List Row → List Event
  unfolding row_to_json row_id
  each_row ids e type raw i [] = []
  each_row ids e type raw i (row ∷ rows) =
      row_event ids e type raw (row_to_json valid_json e.table row) i
      ∷ each_row ids e type raw (i + 1) rows

  pub update_json : Table → Row → Row → Bytes
  unfolding row_to_json
  update_json table old new =
      codes "{\"old\":"
      ++ (row_to_json valid_json table old
          ++ (codes ", \"new\":" ++ (row_to_json valid_json table new ++ codes "}")))

  pub each_pair : RowIds → RowsEvent → ℕ → List Row → List Event
  unfolding update_json row_id
  each_pair ids e i [] = []
  each_pair ids e i (_ ∷ []) = []
  each_pair ids e i (old ∷ new ∷ rows) =
      row_event ids e update (codes "UPDATE") (update_json e.table old new) i
      ∷ each_pair ids e (i + 1) rows

  -- The events that the switch on the action publishes, in order.
  unfoldable pub row_events : RowIds → RowsEvent → List Event
  unfolding each_row each_pair
  row_events ids e = elim e.action [
    | insert_action ↦ each_row ids e insert (codes "INSERT") 0 e.rows
    | update_action ↦ each_pair ids e 0 e.rows
    | delete_action ↦ each_row ids e delete (codes "DELETE") 0 e.rows
    | other_action ↦ []
  ]

  module _ {S : Type 0} (handle : S → Event → Option (S × Bool)) where
    -- `emit`; `none` while the bus blocks the handler.
    unfoldable pub emit : EventHandler → S → Event → Option (EventHandler × S)
    unfolding own_event Gate.hand
    emit h s event = do
      (s2, accepted) ← handle s event
      some ((if accepted && own_event event then record h { gate = Gate.hand h.gate } else h), s2)

    pub emit_all : EventHandler → S → List Event → Option (EventHandler × S)
    unfolding emit
    emit_all h s [] = some (h, s)
    emit_all h s (event ∷ events) = do (h2, s2) ← emit h s event; emit_all h2 s2 events

    -- What a handler's call returns.
    pub data Outcome : Type 0 where
      done : EventHandler → S → Outcome
      unplaced_row blocked : Outcome

    abbrev outcome : Option (EventHandler × S) → Outcome
    outcome none = blocked
    outcome (some (h, s)) = done h s

    unfoldable pub on_row : EventHandler → S → RowsEvent → Outcome
    unfolding row_ids row_events emit_all
    on_row h s e = elim (row_ids h e) [
      | none ↦ unplaced_row
      | some placing ↦ outcome (emit_all placing.0 s (row_events placing.1 e))
    ]

    unfoldable pub on_ddl :
        EventHandler → S → BinlogPosition → Bytes → Bytes → Option (EventHandler × S)
    unfolding emit Gate.committed position_string is_empty
    on_ddl h s next_pos ddl_schema query =
        let event = record (new_event now ddl ddl_schema [] query (codes "DDL") []) {
          source_id =
              if is_empty next_pos.file
              then []
              else source_prefix ++ (position_string next_pos ++ codes ":ddl");
        } in
        do
          (h2, s2) ← emit h s event
          some (record h2 { gate = Gate.committed h2.gate next_pos }, s2)

    unfoldable pub on_xid : EventHandler → S → BinlogPosition → Option (EventHandler × S)
    unfolding Gate.committed
    on_xid h s next_pos = do
      (s2, accepted) ← handle s (new_event now commit [] [] [] (codes "COMMIT") [])
      some (record h { gate = Gate.committed h.gate next_pos }, s2)

-- `OnGTID` behind its tests. The subtraction is guarded by the test before it.
unfoldable pub open_txn : EventHandler → EventHeader → EventHandler
unfolding Gate.committed
open_txn h header =
    let opened = record h { txn = record { file = h.current_file; position = header.log_pos } } in
    if leb header.event_size header.log_pos
    then record opened {
      gate =
          Gate.committed h.gate
            (record { file = h.current_file; position = header.log_pos - header.event_size });
    }
    else opened

unfoldable pub on_gtid : EventHandler → Option EventHeader → EventHandler
unfolding open_txn is_empty
on_gtid h none = record h { txn = no_position; txn_rows = 0 }
on_gtid h (some header) =
    let reset = record h { txn = no_position; txn_rows = 0 } in
    if is_empty h.current_file || header.log_pos == 0 then reset else open_txn reset header

-- `OnRotate`; the position of the rotate event is cut to 32 bits.
unfoldable pub on_rotate : EventHandler → Bytes → ℕ → EventHandler
unfolding Gate.committed
on_rotate h next_log_name position = record h {
  current_file = next_log_name;
  gate = Gate.committed h.gate (record { file = next_log_name; position = position % u32_mod });
}
