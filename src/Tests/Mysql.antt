-- ===== src/Tests/Mysql.antt =====
-- The MySQL side at concrete inputs.
use excalibase_watcher.Base.{
  ℕ, All, ◌≢◌, ◌≡◌, refl, Bool, true, false, some, List, [], ◌∷◌, map, arith, Bytes, codes,
  is_empty,
}
use excalibase_watcher.Cdc.Event.{Event, insert, new_event}
use excalibase_watcher.Mysql.CommitGate.{
  CommitGate, BinlogPosition, new_commit_gate, enable, hand, committed, observe_published,
  acked_count, confirmable_position, not_resumable,
}
use excalibase_watcher.Mysql.CommitGate.Newest.{
  Run, gated, then_step, hands, commits, acks, boundary, newest, report,
  confirmable_position-newest,
}
use excalibase_watcher.Mysql.Handler.{EventHandler, RowsEvent, insert_action, update_action}
use excalibase_watcher.Mysql.Handler.Values.{Table, Row, string_value, uint_value}
use excalibase_watcher.Mysql.Handler.Distinct.{
  AllDistinct, source_ids, txn_events, txn_events-Distinct,
}
use excalibase_watcher.Mysql.Dump.{parse_values_list}
use excalibase_watcher.Mysql.Dump.Statement as Statement
use excalibase_watcher.Mysql.Dump.Statement.{
  IsBare, bare, literal, plain, escape, rows_text, row_read, parse_values_list_lem,
}

abbrev valid : Bytes → Bool
valid _ = true

abbrev own_row : Event
own_row =
    record (new_event 5 insert (codes "db") (codes "users") (codes "{}") (codes "INSERT") []) {
      source_id = codes "mysql:bin.1:90:0";
    }

abbrev xid : BinlogPosition
xid = record { file = codes "bin.1"; position = 120 }

abbrev wired : CommitGate
wired = enable new_commit_gate

-- A row is handed, its transaction ends, and the row is acked.
run : Run (boundary (hand wired) xid ∷ []) (observe_published (committed (hand wired) xid) own_row)
unfolding hand enable not_resumable is_empty committed
run =
    then_step (then_step (then_step gated (hands (omega arith))) (commits xid refl))
      (acks own_row (omega arith))

confirmable_position-newest_example :
    (confirmable_position (observe_published (committed (hand wired) xid) own_row)).1
    ≡ report (
        newest
          (acked_count (observe_published (committed (hand wired) xid) own_row))
          (boundary (hand wired) xid ∷ []))
confirmable_position-newest_example = confirmable_position-newest run

abbrev users : Table
users = record {
  schema = codes "db";
  name = codes "users";
  columns =
      record { name = codes "id"; is_json = false }
      ∷ record { name = codes "name"; is_json = false }
      ∷ [];
}

abbrev alice : Row
alice = some (uint_value 1) ∷ some (string_value (codes "Alice")) ∷ []

abbrev two_rows : RowsEvent
two_rows = record {
  action = insert_action;
  table = users;
  rows = alice ∷ alice ∷ [];
  header = some (record { log_pos = 0; event_size = 40 });
}

abbrev one_change : RowsEvent
one_change = record two_rows { action = update_action }

abbrev handler : EventHandler
handler = record {
  gate = new_commit_gate;
  current_file = codes "bin.1";
  txn = record { file = codes "bin.1"; position = 90 };
  txn_rows = 0;
}

txn_events-Distinct_example :
    (events : List Event) × (txn_events valid 5 handler (two_rows ∷ one_change ∷ []) ≡ some events)
    × AllDistinct (source_ids events)
txn_events-Distinct_example =
    txn_events-Distinct valid 5 handler (two_rows ∷ one_change ∷ [])
      (
        (record { log_pos = 0; event_size = 40 }, refl, refl),
        ((record { log_pos = 0; event_size = 40 }, refl, refl), tt),
      )
      (λ e. cc) (λ e. cc)

seven-IsBare : All IsBare (b'7' ∷ [])
seven-IsBare = ground arith

abbrev letter : ℕ
letter = b'a'

no_quote : letter ≢ b'\''
no_quote e = ground (arith, e)

no_backslash : letter ≢ b'\\'
no_backslash e = ground (arith, e)

-- `(7,'a\n')`.
abbrev dumped : List Statement.Row
dumped =
    (
      bare (b'7' ∷ []) seven-IsBare,
      literal (plain letter no_quote no_backslash ∷ escape b'n' ∷ []) ∷ [],
    )
    ∷ []

parse_values_list_lem_example : parse_values_list (rows_text dumped) ≡ map row_read dumped
parse_values_list_lem_example = parse_values_list_lem dumped
