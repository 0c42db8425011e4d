-- ===== src/Postgres/Start/Lifecycle.antt =====
-- In which order a listener makes its calls.
use excalibase_watcher.Config.{PostgresConfig}
use excalibase_watcher.Postgres.Start.{
  Call, opens_setup, closes_setup, creates_publication, ensures_table, registers, creates_slot,
  creates_triggers, runs_snapshot, opens_pool, listens, samples, heartbeats, cleans, closes_conn,
  releases, closes_pool, Answers, Owned, Started, nothing_owned, calls_first, setup_slot_ownership,
  start_slot_maintenance, required, after_setup, from_ownership, start, stop,
}
use excalibase_watcher.Base.{
  ◌≡◌, refl, inl, inr, Bool, true, false, not, ◌&&◌, ◌||◌, List, [], ◌∷◌, ◌++◌, if◌then◌else◌,
  Bool-cases,
}

-- What the calls have left so far.
pub record Seen : Type 0 where
  pub setup_open : Bool
  pub registered : Bool
  pub slot_created : Bool
  pub pool_open : Bool

abbrev pub untouched : Seen
untouched = record {
  setup_open = false;
  registered = false;
  slot_created = false;
  pool_open = false;
}

-- Whether a call may come now.
unfoldable pub allowed : Seen → Call → Bool
allowed s opens_setup = not s.setup_open
allowed s closes_setup = s.setup_open
allowed s creates_publication = s.setup_open
allowed s ensures_table = s.setup_open && not s.slot_created
allowed s (registers _) = s.setup_open && not s.slot_created
allowed s creates_slot = s.setup_open
allowed s creates_triggers = s.setup_open
allowed s runs_snapshot = not s.setup_open
allowed s opens_pool = not s.setup_open && not s.pool_open
allowed s listens = s.pool_open
allowed s samples = s.pool_open
allowed s heartbeats = s.pool_open && s.registered
allowed s cleans = s.pool_open && s.registered
allowed s closes_conn = s.pool_open
allowed s releases = s.pool_open && s.registered
allowed s closes_pool = s.pool_open

unfoldable pub after : Seen → Call → Seen
after s opens_setup = record s { setup_open = true }
after s closes_setup = record s { setup_open = false }
after s (registers ok) = record s { registered = ok }
after s creates_slot = record s { slot_created = true }
after s opens_pool = record s { pool_open = true }
after s closes_pool = record s { pool_open = false }
after s _ = s

-- Calls in an order that is allowed and that leaves the setup connection closed.
unfoldable pub in_order : Seen → List Call → Bool
unfolding allowed after
in_order s [] = not s.setup_open
in_order s (call ∷ calls) = allowed s call && in_order (after s call) calls

-- A state with the setup connection open, or with nothing open.
abbrev setting_up : Bool → Bool → Seen
setting_up registered slot_created = record {
  setup_open = true;
  registered = registered;
  slot_created = slot_created;
  pool_open = false;
}

-- The calls of a life that starts, and stops if it has started.
abbrev pub life : Bool → Started → List Call
life connected s = s.calls ++ (if s.ok then stop true connected s.owned else [])

after_setup-in_order :
    (snapshot pool slot_created connected registry cleaner : Bool)
    → in_order (setting_up registry slot_created) (
        life connected (
          calls_first
            (closes_setup ∷ [])
            (after_setup snapshot pool (record { registry = registry; cleaner = cleaner }))))
      ≡ true
unfolding in_order after_setup start_slot_maintenance stop
after_setup-in_order false p c n r k = refl
after_setup-in_order true false c n r k = refl
after_setup-in_order true true c true true true = refl
after_setup-in_order true true c true true false = refl
after_setup-in_order true true c true false k = refl
after_setup-in_order true true c false true true = refl
after_setup-in_order true true c false true false = refl
after_setup-in_order true true c false false k = refl

and_true : (a b : Bool) → a ≡ true → b ≡ true → (a && b) ≡ true
and_true a b h k = rw (h, k) refl

required-in_order :
    (configured ok connected : Bool) (call : Call) (owned : Owned) (next : Started) (s : Seen)
    → allowed s call ≡ true
    → (after s call).setup_open ≡ true
    → in_order s (life connected next) ≡ true
    → in_order (after s call) (life connected next) ≡ true
    → in_order s (life connected (required configured ok call owned next)) ≡ true
unfolding in_order
required-in_order false ok connected call owned next s a o h k = h
required-in_order true true connected call owned next s a o h k = and_true _ _ a k
required-in_order true false connected call owned next s a o h k =
    and_true _ _ a (and_true _ _ o refl)

-- From the creation of the slot on.
from_slot-in_order :
    (a : Answers) (cfg : PostgresConfig) (connected registry cleaner : Bool)
    → in_order (setting_up registry false) (
        life connected
          (from_ownership a cfg ([], record { registry = registry; cleaner = cleaner })))
      ≡ true
unfolding from_ownership allowed after
from_slot-in_order a cfg connected registry cleaner =
    let owned : Owned = record { registry = registry; cleaner = cleaner } in
    let rest = calls_first (closes_setup ∷ []) (after_setup a.snapshot a.pool owned) in
    let triggers = required cfg.capture_ddl a.triggers creates_triggers owned rest in
    let goes : (slot_created : Bool)
        → in_order (setting_up registry slot_created) (life connected triggers) ≡ true =
      λ slot_created.
        let k = after_setup-in_order a.snapshot a.pool slot_created connected registry cleaner in
        required-in_order cfg.capture_ddl a.triggers connected creates_triggers owned rest
          (setting_up registry slot_created) refl refl k k in
    required-in_order cfg.create_slot a.slot connected creates_slot owned triggers
      (setting_up registry false) refl refl (goes false) (goes true)

-- From the ownership of the slot on.
ownership-in_order :
    (a : Answers) (cfg : PostgresConfig) (connected enabled table register pattern : Bool)
    → in_order (setting_up false false) (
        life connected (
          from_ownership a cfg (
            if not enabled
            then ([], nothing_owned)
            else if not table
            then (ensures_table ∷ [], nothing_owned)
            else if not register
            then (ensures_table ∷ registers false ∷ [], nothing_owned)
            else (
              ensures_table ∷ registers true ∷ [],
              record { registry = true; cleaner = pattern },
            ))))
      ≡ true
unfolding in_order from_ownership
ownership-in_order a cfg connected false t r p = from_slot-in_order a cfg connected false false
ownership-in_order a cfg connected true false r p = from_slot-in_order a cfg connected false false
ownership-in_order a cfg connected true true false p =
    from_slot-in_order a cfg connected false false
ownership-in_order a cfg connected true true true p = from_slot-in_order a cfg connected true p

-- Whatever the calls answer, a listener that starts, and stops if it has started, makes them in an
-- allowed order: the slot's owner is registered, if at all, before the slot is created; the setup
-- connection serves only while it is open, and is closed at the end on every path; the snapshot runs
-- after that; streaming and maintenance run on an open pool, and the heartbeat, the cleanup and the
-- release of the slot only with a successful registration.
pub start-in_order :
    (running connected : Bool) (a : Answers) (cfg : PostgresConfig)
    → in_order untouched (life connected (start running a cfg)) ≡ true
unfolding start setup_slot_ownership in_order
start-in_order running connected a cfg = elim (Bool-cases (running || not a.database)) [
  | inl refused ↦ rw refused refl
  | inr goes_on ↦ rw goes_on (
      let k =
        ownership-in_order a cfg connected cfg.slot_cleanup.enabled a.table a.register a.pattern in
      required-in_order cfg.create_publication a.publication connected creates_publication
        nothing_owned (from_ownership a cfg (setup_slot_ownership a cfg)) (setting_up false false)
        refl refl k k)
]
