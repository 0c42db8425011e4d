-- ===== src/Cdc/Event.antt =====
-- internal/cdc/event.go and internal/cdc/publishable.go: the event that travels on the bus.
use excalibase_watcher.Base.{
  ◌↔◌, ℕ, Bool, true, false, List, [], ◌≡◌, refl, Option, none, some, arith, if◌then◌else◌, Bytes,
  codes, bytes_eq, bytes_eq_iff,
}

pub data EventType : Type 0 where
  begin commit insert update delete ddl truncate heartbeat : EventType

-- `EventType.String`.
abbrev pub to_string : EventType → Bytes
to_string begin = codes "BEGIN"
to_string commit = codes "COMMIT"
to_string insert = codes "INSERT"
to_string update = codes "UPDATE"
to_string delete = codes "DELETE"
to_string ddl = codes "DDL"
to_string truncate = codes "TRUNCATE"
to_string heartbeat = codes "HEARTBEAT"

-- The switch of `UnmarshalJSON` on the decoded string; `none` is its error.
pub unmarshal : Bytes → Option EventType
unmarshal s =
    if bytes_eq s (codes "BEGIN")
    then some begin
    else if bytes_eq s (codes "COMMIT")
    then some commit
    else if bytes_eq s (codes "INSERT")
    then some insert
    else if bytes_eq s (codes "UPDATE")
    then some update
    else if bytes_eq s (codes "DELETE")
    then some delete
    else if bytes_eq s (codes "DDL")
    then some ddl
    else if bytes_eq s (codes "TRUNCATE")
    then some truncate
    else if bytes_eq s (codes "HEARTBEAT")
    then some heartbeat
    else none

pub record Event : Type 0 where
  pub type : EventType
  pub schema : Bytes
  pub table : Bytes
  pub payload : Bytes
  pub raw_message : Bytes
  pub lsn : Bytes
  pub timestamp : ℕ
  pub source_timestamp : ℕ
  pub source_id : Bytes
  pub sequence : ℕ
  pub data_truncated : Bool
  pub key_columns : List Bytes

-- `NewEvent`; the clock's reading is an argument.
abbrev pub new_event : ℕ → EventType → Bytes → Bytes → Bytes → Bytes → Bytes → Event
new_event now typ schema table payload raw lsn = record {
  type = typ;
  schema = schema;
  table = table;
  payload = payload;
  raw_message = raw;
  lsn = lsn;
  timestamp = now;
  source_timestamp = 0;
  source_id = [];
  sequence = 0;
  data_truncated = false;
  key_columns = [];
}

abbrev pub new_event_with_source_ts :
    ℕ → EventType → Bytes → Bytes → Bytes → Bytes → Bytes → ℕ → Event
new_event_with_source_ts now typ schema table payload raw lsn source =
    record (new_event now typ schema table payload raw lsn) { source_timestamp = source }

-- `IsPublishable`.
unfoldable pub is_publishable : EventType → Bool
is_publishable insert = true
is_publishable update = true
is_publishable delete = true
is_publishable ddl = true
is_publishable truncate = true
is_publishable _ = false

-- `isTableEvent` of service.go.
unfoldable pub is_table_event : EventType → Bool
is_table_event insert = true
is_table_event update = true
is_table_event delete = true
is_table_event truncate = true
is_table_event _ = false

unmarshal-to_string : (t : EventType) → unmarshal (to_string t) ≡ some t
unfolding unmarshal bytes_eq
unmarshal-to_string begin = refl
unmarshal-to_string _ = refl

unmarshal-some : (t : EventType) (s : Bytes) → unmarshal s ≡ some t → s ≡ to_string t
unfolding unmarshal
unmarshal-some t s h = ground (
  arith,
  bytes_eq_iff s (codes "BEGIN"),
  bytes_eq_iff s (codes "COMMIT"),
  bytes_eq_iff s (codes "INSERT"),
  bytes_eq_iff s (codes "UPDATE"),
  bytes_eq_iff s (codes "DELETE"),
  bytes_eq_iff s (codes "DDL"),
  bytes_eq_iff s (codes "TRUNCATE"),
  bytes_eq_iff s (codes "HEARTBEAT"),
)

-- A string is decoded to an event type exactly when it is that type's name.
pub unmarshal_iff : (t : EventType) (s : Bytes) → (unmarshal s ≡ some t) ↔ (s ≡ to_string t)
unmarshal_iff t s = (unmarshal-some t s, λ e. rw e (unmarshal-to_string t))
