-- ===== src/Postgres/Start.antt =====
-- internal/postgres/listener.go: `Start` and `Stop` with the ownership of the slot, as the lists of the
-- calls that they make. What the calls answer is a field of `Answers`. A call that fails is in the list;
-- the cancellation and the wait of `Stop` are left out.
pub mod Lifecycle
use excalibase_watcher.Config.{ℤ, pos, negsuc, PostgresConfig}
use excalibase_watcher.Base.{
  ◌*◌, ◌==◌, ℕ, Bool, true, false, not, ◌||◌, List, [], ◌∷◌, ◌++◌, if◌then◌else◌,
}

-- `registers` says whether the registration succeeds.
pub data Call : Type 0 where
  opens_setup closes_setup creates_publication ensures_table : Call
  registers : Bool → Call
  creates_slot creates_triggers runs_snapshot opens_pool : Call
  listens samples heartbeats cleans closes_conn releases closes_pool : Call

pub record Answers : Type 0 where
  pub database : Bool
  pub publication : Bool
  pub table : Bool
  pub register : Bool
  pub pattern : Bool
  pub slot : Bool
  pub triggers : Bool
  pub snapshot : Bool
  pub pool : Bool

-- Whether `l.registry` and `l.cleaner` are set.
pub record Owned : Type 0 where
  pub registry : Bool
  pub cleaner : Bool

pub record Started : Type 0 where
  pub calls : List Call
  pub owned : Owned
  pub ok : Bool

abbrev pub nothing_owned : Owned
nothing_owned = record { registry = false; cleaner = false }

abbrev pub calls_first : List Call → Started → Started
calls_first calls s = record s { calls = calls ++ s.calls }

unfoldable pub setup_slot_ownership : Answers → PostgresConfig → List Call × Owned
setup_slot_ownership a cfg =
    if not cfg.slot_cleanup.enabled
    then ([], nothing_owned)
    else if not a.table
    then (ensures_table ∷ [], nothing_owned)
    else if not a.register
    then (ensures_table ∷ registers false ∷ [], nothing_owned)
    else (ensures_table ∷ registers true ∷ [], record { registry = true; cleaner = a.pattern })

unfoldable pub start_slot_maintenance : Owned → List Call
start_slot_maintenance owned =
    if not owned.registry
    then []
    else if not owned.cleaner
    then heartbeats ∷ []
    else heartbeats ∷ cleans ∷ []

-- `minutesOrDefault`, `slotStatsInterval` and the interval of the heartbeat, in milliseconds, for
-- settings far from the range of `time.Duration`.
pub positive_or : ℕ → ℤ → ℕ → ℕ
positive_or unit (negsuc _) fallback = fallback
positive_or unit (pos n) fallback = if n == 0 then fallback else n * unit

pub minutes_or_default : ℤ → ℕ → ℕ
unfolding positive_or
minutes_or_default minutes fallback = positive_or 60000 minutes fallback

pub slot_stats_interval : PostgresConfig → ℕ
unfolding positive_or
slot_stats_interval cfg = positive_or 1000 cfg.slot_stats_interval_seconds 15000

pub slot_heartbeat_interval : PostgresConfig → ℕ
unfolding positive_or
slot_heartbeat_interval cfg = positive_or 1000 cfg.slot_cleanup.heartbeat_seconds 30000

-- A call on the setup connection, if it is configured; its error closes the connection.
abbrev pub required : Bool → Bool → Call → Owned → Started → Started
required configured ok call owned next =
    if not configured
    then next
    else if ok
    then calls_first (call ∷ []) next
    else record { calls = call ∷ closes_setup ∷ []; owned = owned; ok = false }

-- The end of `Start`, once the setup connection is closed; the flags say whether the snapshot and the
-- pool succeed.
unfoldable pub after_setup : Bool → Bool → Owned → Started
unfolding start_slot_maintenance
after_setup snapshot pool owned =
    if not snapshot
    then record { calls = runs_snapshot ∷ []; owned = owned; ok = false }
    else if not pool
    then record { calls = runs_snapshot ∷ opens_pool ∷ []; owned = owned; ok = false }
    else record {
      calls = runs_snapshot ∷ opens_pool ∷ listens ∷ samples ∷ start_slot_maintenance owned;
      owned = owned;
      ok = true;
    }

-- The part of `Start` from the slot's ownership on.
unfoldable pub from_ownership : Answers → PostgresConfig → List Call × Owned → Started
unfolding after_setup
from_ownership a cfg (ownership, owned) = calls_first ownership (
    required cfg.create_slot a.slot creates_slot owned (
      required cfg.capture_ddl a.triggers creates_triggers owned
        (calls_first (closes_setup ∷ []) (after_setup a.snapshot a.pool owned))))

unfoldable pub start : Bool → Answers → PostgresConfig → Started
unfolding setup_slot_ownership from_ownership
start running a cfg =
    if running || not a.database
    then record { calls = []; owned = nothing_owned; ok = false }
    else calls_first (opens_setup ∷ []) (
        required cfg.create_publication a.publication creates_publication nothing_owned
          (from_ownership a cfg (setup_slot_ownership a cfg)))

-- `Stop`; `connected` says whether `l.conn` is set.
unfoldable pub stop : Bool → Bool → Owned → List Call
stop running connected owned =
    if not running
    then []
    else (if connected then closes_conn ∷ [] else [])
      ++ ((if owned.registry then releases ∷ [] else []) ++ closes_pool ∷ [])
