-- ===== src/Main/Shutdown.antt =====
-- That whatever was started is stopped when the program ends.
use excalibase_watcher.Config.{Config}
use excalibase_watcher.Main.{
  shut_http, create_error, start_error, Part, bus, publisher, http, postgres, mysql, Action, starts,
  stops, Failure, Ended, runs_on, succeeds, fails, Answers, Arrival, Ran, Start, disabled, started,
  start_failed, start_nats, start_postgres, start_mysql, start_listener, wait_for_shutdown,
  is_started, deferred, first, started_then, main_loop, run_configured, run,
}
use excalibase_watcher.Base.{
  ◌>>=◌, ◌≡◌, refl, ◌∙◌, ◌⊎◌, inl, inr, Bool, true, false, not, Option, none, some, List, [], ◌∷◌,
  ◌++◌, arith, if◌then◌else◌,
}

unfoldable pub same : Part → Part → Bool
same bus bus = true
same publisher publisher = true
same http http = true
same postgres postgres = true
same mysql mysql = true
same _ _ = false

-- The part started last, and its stop.
unfoldable pub closes : Part → List Part → Option (List Part)
unfolding same
closes p [] = none
closes p (q ∷ running) = if same p q then some running else none

-- The parts that run after an action, the last one first; none where a part is stopped that is not the
-- last one of those. The HTTP server is left to the end of the process and not counted.
unfoldable pub after : List Part → Action → Option (List Part)
unfolding closes
after running (starts http) = some running
after running (stops http) = some running
after running (starts p) = some (p ∷ running)
after running (stops p) = closes p running
after running _ = some running

unfoldable pub unwind : List Part → List Action → Option (List Part)
unfolding after
unwind running [] = some running
unwind running (a ∷ more) = after running a >>= λ left. unwind left more

unwind-then :
    (o : Option (List Part)) (xs ys : List Action)
    → ((left : List Part) → unwind left (xs ++ ys) ≡ (unwind left xs >>= λ p. unwind p ys))
    → (o >>= λ left. unwind left (xs ++ ys)) ≡ ((o >>= λ left. unwind left xs) >>= λ p. unwind p ys)
unwind-then none xs ys h = refl
unwind-then (some left) xs ys h = h left

unwind-append :
    (running : List Part) (xs ys : List Action)
    → unwind running (xs ++ ys) ≡ (unwind running xs >>= λ left. unwind left ys)
unfolding unwind
unwind-append running [] ys = refl
unwind-append running (a ∷ xs) ys =
    unwind-then (after running a) xs ys (λ left. unwind-append left xs ys)

abbrev IsBalanced : List Action → Type 0
IsBalanced trace = (running : List Part) → unwind running trace ≡ some running

abbrev Unwinds : Ran → Type 0
Unwinds r = (r.ended ≡ runs_on) ⊎ IsBalanced r.trace

-- What a start function leaves running.
abbrev Opens : Part → List Action × Start → Type 0
Opens p (actions, started) = (running : List Part) → unwind running actions ≡ some (p ∷ running)
Opens p (actions, _) = IsBalanced actions

start_nats-Opens : (a : Answers) (cfg : Config) → Opens publisher (start_nats a cfg)
unfolding start_nats unwind
start_nats-Opens a cfg = nats_cases cfg.nats.enabled a.publisher_starts
  where
    nats_cases :
        (enabled ok : Bool)
        → Opens publisher (
            if not enabled
            then ([], disabled)
            else if ok
            then (starts publisher ∷ [], started)
            else ([], start_failed (start_error publisher)))
    nats_cases true true = λ running. refl
    nats_cases true false = λ running. refl
    nats_cases false ok = λ running. refl

-- A listener that is created, wired and started, or not.
listener-Opens :
    (p : Part) (enabled created has_publisher ok : Bool)
    → ((running : List Part) → after running (starts p) ≡ some (p ∷ running))
    → Opens p (
        if not enabled
        then ([], disabled)
        else if not created
        then ([], start_failed (create_error p))
        else start_listener p has_publisher ok)
unfolding unwind
listener-Opens p false created has_publisher ok h = λ running. refl
listener-Opens p true false has_publisher ok h = λ running. refl
listener-Opens p true true true true h = λ running. rw (h running) refl
listener-Opens p true true true false h = λ running. refl
listener-Opens p true true false true h = λ running. rw (h running) refl
listener-Opens p true true false false h = λ running. refl

-- A part of which the stop is deferred, around a balanced run.
around-IsBalanced :
    (p : Part) (actions trace : List Action)
    → ((running : List Part) → unwind running actions ≡ some (p ∷ running))
    → ((running : List Part) → after (p ∷ running) (stops p) ≡ some running)
    → IsBalanced trace
    → IsBalanced (actions ++ (trace ++ stops p ∷ []))
unfolding unwind
around-IsBalanced p actions trace opens stop b running =
    unwind-append running actions (trace ++ stops p ∷ [])
    ∙ rw (opens running) (
        unwind-append (p ∷ running) trace (stops p ∷ [])
        ∙ rw (b (p ∷ running)) (rw (unwind, stop running) refl))

deferred-Unwinds :
    (p : Part) (actions trace : List Action) (ended : Ended)
    → ((running : List Part) → unwind running actions ≡ some (p ∷ running))
    → ((running : List Part) → after (p ∷ running) (stops p) ≡ some running)
    → Unwinds (record { trace = trace; ended = ended })
    → Unwinds (first actions (deferred p (record { trace = trace; ended = ended })))
unfolding deferred
deferred-Unwinds p actions trace runs_on opens stop u = inl refl
deferred-Unwinds p actions trace succeeds opens stop (inr b) =
    inr (around-IsBalanced p actions trace opens stop b)
deferred-Unwinds p actions trace (fails f) opens stop (inr b) =
    inr (around-IsBalanced p actions trace opens stop b)
deferred-Unwinds p actions trace succeeds opens stop (inl e) = absurd (ground (arith, e))
deferred-Unwinds p actions trace (fails f) opens stop (inl e) = absurd (ground (arith, e))

first-Unwinds :
    (actions : List Action) (r : Ran) → IsBalanced actions → Unwinds r → Unwinds (first actions r)
first-Unwinds actions r b (inl e) = inl e
first-Unwinds actions r b (inr k) =
    inr (λ running. unwind-append running actions r.trace ∙ rw (b running) (k running))

started_then-Unwinds :
    (p : Part) (s : List Action × Start) (on_failure : Failure → Ended) (next : Ran)
    → ((running : List Part) → after (p ∷ running) (stops p) ≡ some running)
    → Opens p s
    → Unwinds next
    → Unwinds (started_then p s on_failure next)
unfolding started_then
started_then-Unwinds p (actions, disabled) on_failure next stop o u = first-Unwinds actions next o u
started_then-Unwinds p (actions, started) on_failure next stop o u =
    deferred-Unwinds p actions next.trace next.ended o stop u
started_then-Unwinds p (actions, start_failed f) on_failure next stop o u = inr o

main_loop-Unwinds :
    (has_publisher has_mysql : Bool) (arrivals : List Arrival)
    → Unwinds (main_loop has_publisher has_mysql arrivals)
unfolding main_loop shut_http unwind
main_loop-Unwinds has_publisher has_mysql arrivals =
    loop_cases (wait_for_shutdown has_publisher has_mysql arrivals)
  where
    loop_cases : (e : Ended) → Unwinds (shut_http e)
    loop_cases runs_on = inl refl
    loop_cases succeeds = inr (λ running. refl)
    loop_cases (fails f) = inr (λ running. refl)

-- However the program ends, by a signal, by a failure of a part or by an error while it starts, it has
-- stopped every part that it had started, the bus, the publisher and the listeners, in the reverse
-- order of their starts; the HTTP server is left aside.
pub run-Unwinds :
    (a : Answers) (cfg : Option Config) (arrivals : List Arrival)
    → ((run a cfg arrivals).ended ≡ runs_on) ⊎ (unwind [] (run a cfg arrivals).trace ≡ some [])
unfolding run run_configured start_postgres start_mysql unwind closes
run-Unwinds a none arrivals = inr refl
run-Unwinds a (some cfg) arrivals =
    let nats = start_nats a cfg in
    let has_publisher = is_started nats.1 in
    let my = start_mysql a cfg has_publisher in
    let waits = main_loop has_publisher (is_started my.1) arrivals in
    let with_mysql = started_then mysql my fails waits in
    let with_postgres =
      started_then postgres (start_postgres a cfg has_publisher)
        (λ failure. if a.cancelled then succeeds else fails failure) with_mysql in
    let served = first (starts http ∷ []) with_postgres in
    let with_nats = started_then publisher nats fails served in
    elim (deferred-Unwinds bus (starts bus ∷ []) with_nats.trace with_nats.ended (λ running. refl)
      (λ running. refl)
      (started_then-Unwinds publisher nats fails served (λ running. refl) (start_nats-Opens a cfg)
        (first-Unwinds (starts http ∷ []) with_postgres (λ running. refl)
          (started_then-Unwinds postgres (start_postgres a cfg has_publisher)
            (λ failure. if a.cancelled then succeeds else fails failure) with_mysql
            (λ running. refl)
            (listener-Opens postgres cfg.postgres.enabled a.postgres_created has_publisher
              a.postgres_starts (λ running. refl))
            (started_then-Unwinds mysql my fails waits (λ running. refl)
              (listener-Opens mysql cfg.mysql.enabled a.mysql_created has_publisher a.mysql_starts
                (λ running. refl))
              (main_loop-Unwinds has_publisher (is_started my.1) arrivals)))))) [
                | inl e ↦ inl e
                | inr b ↦ inr (b [])
              ]
