-- ===== src/Tests/Startup.antt =====
-- The start and the stop of a PostgreSQL listener, and its connection string.
use excalibase_watcher.Postgres.ConnString.Strip.{strip-ensure}
use excalibase_watcher.Postgres.ConnString.{
  contains_text, ensure_replication_param, strip_replication_param,
}
use excalibase_watcher.Postgres.Start as Start
use excalibase_watcher.Postgres.Start.{Answers}
use excalibase_watcher.Postgres.Start.Lifecycle.{in_order, untouched, life, start-in_order}
use excalibase_watcher.Config.{PostgresConfig, pos}
use excalibase_watcher.Base.{◌≡◌, refl, true, false, [], codes}

-- Everything answers, and the listener is stopped while it streams.
abbrev all_well : Answers
all_well = record {
  database = true;
  publication = true;
  table = true;
  register = true;
  pattern = true;
  slot = true;
  triggers = true;
  snapshot = true;
  pool = true;
}

abbrev postgres_config : PostgresConfig
postgres_config = record {
  enabled = true;
  url = codes "postgres://db/app";
  username = [];
  password = [];
  slot_name = codes "cdc_slot";
  publication_name = codes "cdc_publication";
  create_slot = true;
  create_publication = true;
  tables = [];
  snapshot_mode = codes "none";
  snapshot_chunk_size = pos 10000;
  snapshot_backup_file = [];
  snapshot_start_lsn = [];
  capture_ddl = true;
  schema_history_dir = [];
  slot_stats_interval_seconds = pos 15;
  owner_id = codes "watcher";
  slot_cleanup = record {
    enabled = true;
    interval_minutes = pos 10;
    stale_after_minutes = pos 30;
    retained_wal_threshold_bytes = pos 0;
    dry_run = false;
    slot_pattern = codes "^cdc_";
    heartbeat_seconds = pos 30;
  };
}

start-in_order_example :
    in_order untouched (life true (Start.start false all_well postgres_config)) ≡ true
start-in_order_example = start-in_order false true all_well postgres_config

strip-ensure_example :
    (contains_text
        (ensure_replication_param (codes "postgres://db/app?sslmode=require"))
        (codes "replication=")
      ≡ true)
    × (strip_replication_param
          (ensure_replication_param (codes "postgres://db/app?sslmode=require"))
        ≡ codes "postgres://db/app?sslmode=require")
unfolding contains_text
strip-ensure_example = strip-ensure (codes "postgres://db/app?sslmode=require") refl
