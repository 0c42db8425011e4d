-- ===== src/Postgres/Parser.antt =====
-- internal/postgres/parser.go: the decoder of pgoutput messages.
pub mod Reader
pub mod Tuple
pub mod Messages
pub mod Bounds
pub mod Fields
pub mod Image
pub mod Reads
pub mod Truncates
pub mod Filter
use excalibase_watcher.Base.{ℕ, Bool, List, Option, Bytes}
use excalibase_watcher.Schema.{HistoryEntry}

pub record RelationInfo : Type 0 where
  pub namespace : Bytes
  pub name : Bytes
  pub columns : List Bytes
  pub type_oids : List ℕ
  pub key_columns : List Bytes

-- An empty `table_filter` lets every table pass. `schema_store` holds the entries saved so far, or
-- nothing where there is no store; `lsn_provider` the position that the callback would return.
pub record Parser : Type 0 where
  pub table_filter : List Bytes
  pub capture_ddl : Bool
  pub schema_store : Option (List HistoryEntry)
  pub relation_map : List (ℕ × RelationInfo)
  pub lsn_provider : Option Bytes
  pub txn_final_lsn : ℕ
  pub txn_end_lsn : ℕ
