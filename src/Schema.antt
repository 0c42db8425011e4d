-- ===== src/Schema.antt =====
-- internal/schema/history.go: the entries of the schema history.
pub mod Store
use excalibase_watcher.Base.{ℕ, List, Bytes}

pub record ColumnDef : Type 0 where
  pub name : Bytes
  pub type_name : Bytes
  pub type_oid : ℕ

pub record HistoryEntry : Type 0 where
  pub position : Bytes
  pub schema : Bytes
  pub table : Bytes
  pub columns : List ColumnDef
  pub timestamp : ℕ
