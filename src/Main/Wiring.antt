-- ===== src/Main/Wiring.antt =====
-- That a listener is started only when the publisher reports its acks to it.
use excalibase_watcher.Config.{Config}
use excalibase_watcher.Main.{
  shut_http, start_error, create_error, Part, bus, publisher, http, postgres, mysql, Action, starts,
  stops, observes, marks_running, Failure, Ended, runs_on, succeeds, fails, Answers, Arrival, Ran,
  Start, disabled, started, start_failed, start_nats, start_postgres, start_mysql, start_listener,
  wait_for_shutdown, is_started, deferred, first, started_then, main_loop, run_configured, run,
}
use excalibase_watcher.Main.Shutdown.{same}
use excalibase_watcher.Base.{
  ◌≡◌, refl, sym, subst, Bool, true, false, not, ◌&&◌, ◌||◌, some, List, [], ◌∷◌, ◌++◌, append-nil,
  arith, if◌then◌else◌,
}

-- Whether a part observes the publisher.
unfoldable pub observed : Part → List Part → Bool
unfolding same
observed p [] = false
observed p (q ∷ wired) = same p q || observed p wired

abbrev pub may_start : Part → List Part → Bool
may_start postgres wired = observed postgres wired
may_start mysql wired = observed mysql wired
may_start _ wired = true

-- Every listener that the actions start observes the publisher before.
unfoldable pub wires : List Part → List Action → Bool
unfolding observed
wires wired [] = true
wires wired (observes p ∷ more) = wires (p ∷ wired) more
wires wired (starts p ∷ more) = may_start p wired && wires wired more
wires wired (stops p ∷ more) = wires wired more
wires wired (marks_running ∷ more) = wires wired more

abbrev IsWired : List Action → Type 0
IsWired trace = (wired : List Part) → wires wired trace ≡ true

wires-stop :
    (wired : List Part) (trace : List Action) (p : Part)
    → wires wired trace ≡ true
    → wires wired (trace ++ stops p ∷ []) ≡ true
unfolding wires
wires-stop wired [] p h = refl
wires-stop wired (observes q ∷ more) p h = wires-stop (q ∷ wired) more p h
wires-stop wired (starts q ∷ more) p h = ground (arith, h, wires-stop wired more p)
wires-stop wired (stops q ∷ more) p h = wires-stop wired more p h
wires-stop wired (marks_running ∷ more) p h = wires-stop wired more p h

deferred-IsWired :
    (p : Part) (trace : List Action) (ended : Ended)
    → IsWired trace
    → IsWired (deferred p (record { trace = trace; ended = ended })).trace
unfolding deferred
deferred-IsWired p trace runs_on h wired = h wired
deferred-IsWired p trace succeeds h wired = wires-stop wired trace p (h wired)
deferred-IsWired p trace (fails f) h wired = wires-stop wired trace p (h wired)

-- Actions that start nothing unwired, whatever follows.
abbrev GoesOn : List Action → Type 0
GoesOn actions =
    (wired : List Part) (trace : List Action)
    → IsWired trace
    → wires wired (actions ++ trace) ≡ true

started_then-IsWired :
    (p : Part) (s : List Action × Start) (on_failure : Failure → Ended) (next : Ran)
    → GoesOn s.0
    → IsWired next.trace
    → IsWired (started_then p s on_failure next).trace
unfolding started_then wires
started_then-IsWired p (actions, disabled) on_failure next g h wired = g wired next.trace h
started_then-IsWired p (actions, started) on_failure next g h wired =
    g wired _ (deferred-IsWired p next.trace next.ended h)
started_then-IsWired p (actions, start_failed f) on_failure next g h wired =
    subst (λ trace. wires wired trace ≡ true) (append-nil actions) (g wired [] (λ w. refl))

-- A listener with a publisher.
listener-GoesOn :
    (p : Part) (enabled created ok : Bool)
    → ((wired : List Part) → may_start p (p ∷ wired) ≡ true)
    → GoesOn
        (if not enabled
          then ([], disabled)
          else if not created
          then ([], start_failed (create_error p))
          else start_listener p true ok).0
unfolding wires
listener-GoesOn p false created ok m wired trace h = h wired
listener-GoesOn p true false ok m wired trace h = h wired
listener-GoesOn p true true true m wired trace h = rw (m wired) (h (p ∷ wired))
listener-GoesOn p true true false m wired trace h = h (p ∷ wired)

main_loop-IsWired :
    (has_publisher has_mysql : Bool) (arrivals : List Arrival)
    → IsWired (main_loop has_publisher has_mysql arrivals).trace
unfolding main_loop shut_http wires
main_loop-IsWired has_publisher has_mysql arrivals =
    loop_cases (wait_for_shutdown has_publisher has_mysql arrivals)
  where
    loop_cases : (e : Ended) → IsWired (shut_http e).trace
    loop_cases runs_on = λ wired. refl
    loop_cases succeeds = λ wired. refl
    loop_cases (fails f) = λ wired. refl

-- The run after the publisher's start.
abbrev run_after : Answers → Config → List Arrival → List Action × Start → Ran
run_after a cfg arrivals nats =
    let has_publisher = is_started nats.1 in
    let my = start_mysql a cfg has_publisher in
    first (starts bus ∷ []) (
      deferred bus (
        started_then publisher nats fails (
          first (starts http ∷ []) (
            started_then postgres (start_postgres a cfg has_publisher)
              (λ failure. if a.cancelled then succeeds else fails failure)
              (started_then mysql my fails (main_loop has_publisher (is_started my.1) arrivals))))))

start_nats-enabled :
    (a : Answers) (cfg : Config)
    → cfg.nats.enabled ≡ true
    → start_nats a cfg ≡ (
        if a.publisher_starts
        then (starts publisher ∷ [], started)
        else ([], start_failed (start_error publisher)))
unfolding start_nats
start_nats-enabled a cfg nats = rw nats refl

wired_run :
    (a : Answers) (cfg : Config) (arrivals : List Arrival) (ok : Bool)
    → wires []
        (run_after a cfg arrivals (
          if ok
          then (starts publisher ∷ [], started)
          else ([], start_failed (start_error publisher)))).trace
      ≡ true
unfolding wires started_then start_postgres start_mysql deferred
wired_run a cfg arrivals false = refl
wired_run a cfg arrivals true =
    let my = start_mysql a cfg true in
    let waits = main_loop true (is_started my.1) arrivals in
    let with_mysql = started_then mysql my fails waits in
    let with_postgres =
      started_then postgres (start_postgres a cfg true)
        (λ failure. if a.cancelled then succeeds else fails failure) with_mysql in
    let served = first (starts http ∷ []) with_postgres in
    let with_nats = started_then publisher (starts publisher ∷ [], started) fails served in
    deferred-IsWired bus with_nats.trace with_nats.ended
      (started_then-IsWired publisher (starts publisher ∷ [], started) fails served
        (λ wired trace h. h wired)
        (started_then-IsWired postgres (start_postgres a cfg true)
          (λ failure. if a.cancelled then succeeds else fails failure) with_mysql
          (listener-GoesOn postgres cfg.postgres.enabled a.postgres_created a.postgres_starts
            (λ wired. refl))
          (started_then-IsWired mysql my fails waits
            (listener-GoesOn mysql cfg.mysql.enabled a.mysql_created a.mysql_starts (λ wired. refl))
            (main_loop-IsWired true (is_started my.1) arrivals))))
      []

-- With NATS enabled, however the parts answer, a listener is only ever started after its observer was
-- given to the publisher.
pub run-wires :
    (a : Answers) (cfg : Config) (arrivals : List Arrival)
    → cfg.nats.enabled ≡ true
    → wires [] (run a (some cfg) arrivals).trace ≡ true
unfolding run run_configured
run-wires a cfg arrivals nats =
    subst (λ (s : List Action × Start). wires [] (run_after a cfg arrivals s).trace ≡ true)
      (sym (start_nats-enabled a cfg nats)) (wired_run a cfg arrivals a.publisher_starts)
