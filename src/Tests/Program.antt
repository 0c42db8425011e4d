-- ===== src/Tests/Program.antt =====
-- A program with NATS and a PostgreSQL listener, whose MySQL listener fails to start.
use excalibase_watcher.Cdc.Service.{new_service}
use excalibase_watcher.Config.{Config, Setting, defaults, env_bindings, load, pos}
use excalibase_watcher.Config.Modes.{KnownMode, load_iff}
use excalibase_watcher.Health.{health_handler, ready_handler, status_ok}
use excalibase_watcher.Main.{Answers, signal, runs_on, run, World, start_http_server}
use excalibase_watcher.Main.Shutdown.{unwind, run-Unwinds}
use excalibase_watcher.Main.Wiring.{wires, run-wires}
use excalibase_watcher.Main.Probes.{Serves, start_http_server_lem}
use excalibase_watcher.Base.{
  ◌≡◌, refl, ◌↔◌, ◌⊎◌, true, false, ◌||◌, Option, none, some, List, [], ◌∷◌, Bytes, codes,
}

abbrev config : Config
config = record {
  postgres = record {
    enabled = true;
    url = codes "postgres://db/app";
    username = [];
    password = [];
    slot_name = codes "cdc_slot";
    publication_name = codes "cdc_publication";
    create_slot = true;
    create_publication = true;
    tables = [];
    snapshot_mode = codes "none";
    snapshot_chunk_size = pos 10000;
    snapshot_backup_file = [];
    snapshot_start_lsn = [];
    capture_ddl = false;
    schema_history_dir = [];
    slot_stats_interval_seconds = pos 15;
    owner_id = codes "watcher";
    slot_cleanup = record {
      enabled = true;
      interval_minutes = pos 10;
      stale_after_minutes = pos 30;
      retained_wal_threshold_bytes = pos 0;
      dry_run = false;
      slot_pattern = codes "^cdc_";
      heartbeat_seconds = pos 30;
    };
  };
  mysql = record {
    enabled = true;
    host = codes "db:3306";
    username = [];
    password = [];
    schema = codes "app";
    tables = [];
    snapshot_mode = codes "none";
    snapshot_chunk_size = pos 10000;
    snapshot_backup_file = [];
    offset_file = [];
    ca_cert = [];
  };
  nats = record {
    enabled = true;
    url = codes "nats://localhost:4222";
    stream_name = codes "CDC";
    subject_prefix = codes "cdc";
    max_age_minutes = pos 5;
    storage = codes "memory";
    username = [];
    password = [];
    inbox_prefix = [];
  };
  health = record { port = pos 8080; bind_address = codes "127.0.0.1" };
  metrics = record { enabled = true };
}

abbrev viper : List (Bytes × Setting) → List (Bytes × Bytes) → Option Config
viper _ _ = some config

load_iff_example : (load viper none ≡ some config) ↔ (
    (viper (defaults none) env_bindings ≡ some config)
    × (KnownMode (codes "none") × KnownMode (codes "none")))
load_iff_example = load_iff viper none config

abbrev answers : Answers
answers = record {
  publisher_starts = true;
  postgres_created = true;
  postgres_starts = true;
  cancelled = false;
  mysql_created = true;
  mysql_starts = false;
}

run-Unwinds_example :
    ((run answers (some config) (signal ∷ [])).ended ≡ runs_on)
    ⊎ (unwind [] (run answers (some config) (signal ∷ [])).trace ≡ some [])
run-Unwinds_example = run-Unwinds answers (some config) (signal ∷ [])

run-wires_example : wires [] (run answers (some config) (signal ∷ [])).trace ≡ true
run-wires_example = run-wires answers config (signal ∷ []) refl

abbrev world : World
world = record {
  service = record new_service { running = true };
  starting = false;
  pg_listener = some true;
  publisher_ready = false;
}

start_http_server_lem_example :
    (((health_handler (start_http_server true) world).code ≡ status_ok) ↔ ((true || false) ≡ true))
    × (((ready_handler (start_http_server true) world).code ≡ status_ok) ↔ Serves true world)
start_http_server_lem_example = start_http_server_lem true world
