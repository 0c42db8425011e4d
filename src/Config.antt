-- ===== src/Config.antt =====
-- internal/config/config.go: the configuration and how it is read.
-- viper reads the file, the environment and the defaults; that is the parameter `viper`, from the
-- defaults and the bound environment variables to the configuration, or none where it reports an error.
pub mod Modes
use excalibase_watcher.Base.{
  ◌>>=◌, ℕ, Bool, true, false, not, ◌||◌, Option, none, some, List, [], ◌∷◌, if◌then◌else◌, Bytes,
  codes, bytes_eq, is_empty,
}

-- `int` and `int64`.
pub data ℤ : Type 0 where
  pos negsuc : ℕ → ℤ

pub record SlotCleanupConfig : Type 0 where
  pub enabled : Bool
  pub interval_minutes : ℤ
  pub stale_after_minutes : ℤ
  pub retained_wal_threshold_bytes : ℤ
  pub dry_run : Bool
  pub slot_pattern : Bytes
  pub heartbeat_seconds : ℤ

pub record PostgresConfig : Type 0 where
  pub enabled : Bool
  pub url : Bytes
  pub username : Bytes
  pub password : Bytes
  pub slot_name : Bytes
  pub publication_name : Bytes
  pub create_slot : Bool
  pub create_publication : Bool
  pub tables : List Bytes
  pub snapshot_mode : Bytes
  pub snapshot_chunk_size : ℤ
  pub snapshot_backup_file : Bytes
  pub snapshot_start_lsn : Bytes
  pub capture_ddl : Bool
  pub schema_history_dir : Bytes
  pub slot_stats_interval_seconds : ℤ
  pub owner_id : Bytes
  pub slot_cleanup : SlotCleanupConfig

pub record MysqlConfig : Type 0 where
  pub enabled : Bool
  pub host : Bytes
  pub username : Bytes
  pub password : Bytes
  pub schema : Bytes
  pub tables : List Bytes
  pub snapshot_mode : Bytes
  pub snapshot_chunk_size : ℤ
  pub snapshot_backup_file : Bytes
  pub offset_file : Bytes
  pub ca_cert : Bytes

pub record NatsConfig : Type 0 where
  pub enabled : Bool
  pub url : Bytes
  pub stream_name : Bytes
  pub subject_prefix : Bytes
  pub max_age_minutes : ℤ
  pub storage : Bytes
  pub username : Bytes
  pub password : Bytes
  pub inbox_prefix : Bytes

pub record HealthConfig : Type 0 where
  pub port : ℤ
  pub bind_address : Bytes

pub record MetricsConfig : Type 0 where
  pub enabled : Bool

pub record Config : Type 0 where
  pub postgres : PostgresConfig
  pub mysql : MysqlConfig
  pub nats : NatsConfig
  pub health : HealthConfig
  pub metrics : MetricsConfig

-- A default that is given to viper.
pub data Setting : Type 0 where
  text : Bytes → Setting
  number : ℤ → Setting
  flag : Bool → Setting

-- `os.Hostname` is the parameter; none is its error.
unfoldable pub default_owner_id : Option Bytes → Bytes
unfolding is_empty
default_owner_id none = codes "watcher"
default_owner_id (some host) = if is_empty host then codes "watcher" else host

abbrev pub defaults : Option Bytes → List (Bytes × Setting)
defaults hostname =
    (codes "postgres.slot_name", text (codes "cdc_slot"))
    ∷ (codes "postgres.publication_name", text (codes "cdc_publication"))
    ∷ (codes "postgres.create_slot", flag true)
    ∷ (codes "postgres.create_publication", flag true)
    ∷ (codes "postgres.snapshot_mode", text (codes "none"))
    ∷ (codes "postgres.snapshot_chunk_size", number (pos 10000))
    ∷ (codes "postgres.slot_stats_interval_seconds", number (pos 15))
    ∷ (codes "postgres.owner_id", text (default_owner_id hostname))
    ∷ (codes "postgres.slot_cleanup.enabled", flag true)
    ∷ (codes "postgres.slot_cleanup.interval_minutes", number (pos 10))
    ∷ (codes "postgres.slot_cleanup.stale_after_minutes", number (pos 30))
    ∷ (codes "postgres.slot_cleanup.retained_wal_threshold_bytes", number (pos 0))
    ∷ (codes "postgres.slot_cleanup.dry_run", flag false)
    ∷ (codes "postgres.slot_cleanup.slot_pattern", text (codes "^cdc_"))
    ∷ (codes "postgres.slot_cleanup.heartbeat_seconds", number (pos 30))
    ∷ (codes "mysql.enabled", flag false)
    ∷ (codes "mysql.snapshot_mode", text (codes "none"))
    ∷ (codes "mysql.snapshot_chunk_size", number (pos 10000))
    ∷ (codes "nats.enabled", flag true)
    ∷ (codes "nats.url", text (codes "nats://localhost:4222"))
    ∷ (codes "nats.stream_name", text (codes "CDC"))
    ∷ (codes "nats.subject_prefix", text (codes "cdc"))
    ∷ (codes "nats.max_age_minutes", number (pos 5))
    ∷ (codes "nats.storage", text (codes "memory"))
    ∷ (codes "health.port", number (pos 8080))
    ∷ (codes "health.bind_address", text (codes "127.0.0.1"))
    ∷ (codes "metrics.enabled", flag true)
    ∷ []

abbrev pub env_bindings : List (Bytes × Bytes)
env_bindings =
    (codes "postgres.url", codes "WATCHER_POSTGRES_URL")
    ∷ (codes "postgres.username", codes "WATCHER_POSTGRES_USERNAME")
    ∷ (codes "postgres.password", codes "WATCHER_POSTGRES_PASSWORD")
    ∷ (codes "mysql.host", codes "WATCHER_MYSQL_HOST")
    ∷ (codes "mysql.username", codes "WATCHER_MYSQL_USERNAME")
    ∷ (codes "mysql.password", codes "WATCHER_MYSQL_PASSWORD")
    ∷ (codes "mysql.ca_cert", codes "WATCHER_MYSQL_CA_CERT")
    ∷ (codes "nats.url", codes "WATCHER_NATS_URL")
    ∷ (codes "nats.username", codes "WATCHER_NATS_USERNAME")
    ∷ (codes "nats.password", codes "WATCHER_NATS_PASSWORD")
    ∷ (codes "nats.inbox_prefix", codes "WATCHER_NATS_INBOX_PREFIX")
    ∷ []

-- `ValidateSnapshotMode`; false is its error.
unfoldable pub validate_snapshot_mode : Bytes → Bool
unfolding is_empty bytes_eq
validate_snapshot_mode mode =
    is_empty mode
    || (bytes_eq mode (codes "none")
        || (bytes_eq mode (codes "chunked") || bytes_eq mode (codes "backup_file")))

-- The end of `Load`.
unfoldable pub validated : Config → Option Config
unfolding validate_snapshot_mode
validated cfg =
    if not (validate_snapshot_mode cfg.postgres.snapshot_mode)
    then none
    else if not (validate_snapshot_mode cfg.mysql.snapshot_mode)
    then none
    else some cfg

-- `Load`; none is an error.
pub load :
    (List (Bytes × Setting) → List (Bytes × Bytes) → Option Config) → Option Bytes → Option Config
unfolding validated default_owner_id
load viper hostname = viper (defaults hostname) env_bindings >>= validated
