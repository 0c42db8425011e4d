-- ===== src/Main.antt =====
-- main.go: the order in which the program starts its parts, and how it ends.
-- What a part answers when it is created or started is a field of `Answers`. A run is the list of the
-- actions on the parts, the deferred calls included, and how `run` ends.
pub mod Shutdown
pub mod Wiring
pub mod Probes
use excalibase_watcher.Config.{Config}
use excalibase_watcher.Cdc.Service.{Service, total_subscriber_count}
use excalibase_watcher.Health.{Checker, new_checker, with_readiness, with_startup}
use excalibase_watcher.Base.{
  Bool, true, false, not, Option, none, some, List, [], ◌∷◌, ◌++◌, if◌then◌else◌, codes,
}

pub data Part : Type 0 where
  bus publisher http postgres mysql : Part

-- `observes` is `pub.AddOnPublished` with the listener's observer.
pub data Action : Type 0 where
  starts stops observes : Part → Action
  marks_running : Action

pub data Failure : Type 0 where
  loading_config : Failure
  start_error create_error : Part → Failure
  failed_later : Part → Failure

-- How `run` ends, if it does.
pub data Ended : Type 0 where
  succeeds runs_on : Ended
  fails : Failure → Ended

pub record Answers : Type 0 where
  pub publisher_starts : Bool
  pub postgres_created : Bool
  pub postgres_starts : Bool
  pub cancelled : Bool
  pub mysql_created : Bool
  pub mysql_starts : Bool

-- What `waitForShutdown` meets, in order.
pub data Arrival : Type 0 where
  signal publisher_failure mysql_failure : Arrival

pub record Ran : Type 0 where
  pub trace : List Action
  pub ended : Ended

-- The result of a start function: nil, the part, or an error.
pub data Start : Type 0 where
  disabled started : Start
  start_failed : Failure → Start

unfoldable pub start_nats : Answers → Config → List Action × Start
start_nats a cfg =
    if not cfg.nats.enabled
    then ([], disabled)
    else if a.publisher_starts
    then (starts publisher ∷ [], started)
    else ([], start_failed (start_error publisher))

-- The wiring and the start of a listener, once it is created.
abbrev pub start_listener : Part → Bool → Bool → List Action × Start
start_listener p has_publisher starting_succeeds =
    let wiring = if has_publisher then observes p ∷ [] else [] in
    if starting_succeeds
    then (wiring ++ starts p ∷ marks_running ∷ [], started)
    else (wiring, start_failed (start_error p))

unfoldable pub start_postgres : Answers → Config → Bool → List Action × Start
start_postgres a cfg has_publisher =
    if not cfg.postgres.enabled
    then ([], disabled)
    else if not a.postgres_created
    then ([], start_failed (create_error postgres))
    else start_listener postgres has_publisher a.postgres_starts

unfoldable pub start_mysql : Answers → Config → Bool → List Action × Start
start_mysql a cfg has_publisher =
    if not cfg.mysql.enabled
    then ([], disabled)
    else if not a.mysql_created
    then ([], start_failed (create_error mysql))
    else start_listener mysql has_publisher a.mysql_starts

-- A channel of failures that is nil never delivers.
pub wait_for_shutdown : Bool → Bool → List Arrival → Ended
wait_for_shutdown has_publisher has_mysql [] = runs_on
wait_for_shutdown has_publisher has_mysql (signal ∷ more) = succeeds
wait_for_shutdown has_publisher has_mysql (publisher_failure ∷ more) =
    let rest = wait_for_shutdown has_publisher has_mysql more in
    if has_publisher then fails (failed_later publisher) else rest
wait_for_shutdown has_publisher has_mysql (mysql_failure ∷ more) =
    let rest = wait_for_shutdown has_publisher has_mysql more in
    if has_mysql then fails (failed_later mysql) else rest

abbrev pub is_started : Start → Bool
is_started started = true
is_started _ = false

-- A deferred stop, which runs when `run` returns.
unfoldable pub deferred : Part → Ran → Ran
deferred p r = elim r.ended [ runs_on ↦ r | _ ↦ record r { trace = r.trace ++ stops p ∷ [] } ]

abbrev pub first : List Action → Ran → Ran
first actions r = record r { trace = actions ++ r.trace }

-- What `run` does with the result of a start function: it returns, or defers the stop and goes on.
unfoldable pub started_then : Part → List Action × Start → (Failure → Ended) → Ran → Ran
unfolding deferred
started_then p (actions, disabled) on_failure next = first actions next
started_then p (actions, started) on_failure next = first actions (deferred p next)
started_then p (actions, start_failed failure) on_failure next = record {
  trace = actions;
  ended = on_failure failure;
}

-- The shutdown of the HTTP server, once the wait has ended.
unfoldable pub shut_http : Ended → Ran
shut_http runs_on = record { trace = []; ended = runs_on }
shut_http ended = record { trace = stops http ∷ []; ended = ended }

unfoldable pub main_loop : Bool → Bool → List Arrival → Ran
unfolding wait_for_shutdown shut_http
main_loop has_publisher has_mysql arrivals =
    shut_http (wait_for_shutdown has_publisher has_mysql arrivals)

-- `run` on a loaded configuration.
unfoldable pub run_configured : Answers → Config → List Arrival → Ran
unfolding start_nats start_postgres start_mysql started_then main_loop
run_configured a cfg arrivals =
    let nats = start_nats a cfg in
    let has_publisher = is_started nats.1 in
    let pg = start_postgres a cfg has_publisher in
    let my = start_mysql a cfg has_publisher in
    first (starts bus ∷ []) (
      deferred bus (
        started_then publisher nats fails (
          first (starts http ∷ []) (
            started_then postgres pg (λ failure. if a.cancelled then succeeds else fails failure)
              (started_then mysql my fails (main_loop has_publisher (is_started my.1) arrivals))))))

pub run : Answers → Option Config → List Arrival → Ran
unfolding run_configured
run a none arrivals = record { trace = []; ended = fails loading_config }
run a (some cfg) arrivals = run_configured a cfg arrivals

-- The state that the probes read: the bus, the pointer to the listener with its `SlotUsable`, the
-- flag `starting` and the publisher's `Ready`.
pub record World : Type 0 where
  pub service : Service
  pub starting : Bool
  pub pg_listener : Option Bool
  pub publisher_ready : Bool

abbrev pub slot_usable : World → Bool
slot_usable w = elim w.pg_listener [ none ↦ true | some usable ↦ usable ]

-- The checker that `startHTTPServer` serves.
unfoldable pub start_http_server : Bool → Checker World
unfolding with_readiness with_startup
start_http_server has_publisher =
    let checker = with_readiness (codes "replication slot dropped or invalidated") slot_usable (
      with_startup (λ w. w.starting)
        (new_checker (λ w. w.service.running) (λ w. total_subscriber_count w.service))) in
    if has_publisher
    then with_readiness (codes "NATS not connected") (λ w. w.publisher_ready) checker
    else checker
