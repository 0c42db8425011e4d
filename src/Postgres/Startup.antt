-- ===== src/Postgres/Startup.antt =====
-- internal/postgres/dbwait.go: waiting for the database to come up. Durations are milliseconds, and
-- stay under twice the backoff's limit. What the dials answer is a list of attempts.
use excalibase_watcher.Base.{
  arith, suc, ◌∙◌, doublings, All, length, ◌+◌, ◌++◌, ap, sym, ℕ, ◌*◌, min, ◌≡◌, refl, ◌⊎◌, inl,
  inr, Bool, true, false, not, List, [], ◌∷◌, if◌then◌else◌, Bool-cases, Bytes, codes, contains,
}

pub record StartupBackoff : Type 0 where
  pub next_delay : ℕ
  pub max_delay : ℕ

-- `step`: the delay, and the backoff for the next attempt.
unfoldable pub step : StartupBackoff → ℕ × StartupBackoff
step b = (b.next_delay, record b { next_delay = min (b.next_delay * 2) b.max_delay })

-- The errors that `databaseNotReady` tells apart: the context's, an answer of the server with its
-- SQLSTATE, and any other one.
pub data DialError : Type 0 where
  canceled deadline_exceeded no_answer : DialError
  pg_error : Bytes → DialError

abbrev startup_sql_states : List Bytes
startup_sql_states = codes "57P01" ∷ codes "57P02" ∷ codes "57P03" ∷ codes "53300" ∷ []

unfoldable pub database_not_ready : DialError → Bool
unfolding contains
database_not_ready canceled = false
database_not_ready deadline_exceeded = false
database_not_ready (pg_error code) = contains startup_sql_states code
database_not_ready no_answer = true

-- One round: what the dial returned, whether the context was cancelled by then, and whether it was
-- cancelled during the wait behind it.
pub data Attempt : Type 0 where
  answered : Attempt
  rejected : DialError → Bool → Bool → Attempt

-- `waiting` when the attempts run out.
pub data Outcome : Type 0 where
  connected cancelled waiting : Outcome
  gave_up : DialError → Outcome

-- `waitForDatabase`: its outcome, and the delays it waited, in order.
pub wait_for_database : StartupBackoff → List Attempt → Outcome × List ℕ
unfolding step database_not_ready
wait_for_database b [] = (waiting, [])
wait_for_database b (answered ∷ rest) = (connected, [])
wait_for_database b (rejected err done done_waiting ∷ rest) =
    let (delay, next) = step b in
    let after = wait_for_database next rest in
    if done
    then (cancelled, [])
    else if not (database_not_ready err)
    then (gave_up err, [])
    else if done_waiting
    then (cancelled, delay ∷ [])
    else (after.0, delay ∷ after.1)

-- An answer that means "not yet", met while nothing cancels the wait.
abbrev pub IsNotYet : Attempt → Type 0
IsNotYet answered = ⊥
IsNotYet (rejected err done done_waiting) =
    (database_not_ready err ≡ true) × (done ≡ false) × (done_waiting ≡ false)

-- What ends the wait, and how many delays were begun at that attempt.
abbrev pub Ends : List Attempt → Outcome → ℕ → Type 0
Ends [] outcome more = (outcome ≡ waiting) × (more ≡ 0)
Ends (answered ∷ _) outcome more = (outcome ≡ connected) × (more ≡ 0)
Ends (rejected err done done_waiting ∷ _) outcome more =
    ((done ≡ true) × (outcome ≡ cancelled) × (more ≡ 0))
    ⊎ ((done ≡ false) × (database_not_ready err ≡ false) × (outcome ≡ gave_up err) × (more ≡ 0))
    ⊎ ((done ≡ false)
        × (database_not_ready err ≡ true)
        × (done_waiting ≡ true)
        × (outcome ≡ cancelled)
        × (more ≡ 1))

-- A run over the attempts: the answers that mean "not yet", what ends the wait behind them, and the
-- delays.
pub record Waited (b : StartupBackoff) (attempts : List Attempt) (outcome : Outcome)
    (delays : List ℕ) : Type 0 where
  pub before : List Attempt
  pub after : List Attempt
  pub more : ℕ
  pub splits : attempts ≡ before ++ after
  pub not_yet : All IsNotYet before
  pub ended : Ends after outcome more
  pub slept : delays ≡ doublings b.max_delay b.next_delay (length before + more)

add_later : (n m : ℕ) → suc (n + m) ≡ suc n + m
add_later n m = omega arith

at_once :
    (b : StartupBackoff) (attempts : List Attempt) (outcome : Outcome)
    → Ends attempts outcome 0
    → Waited b attempts outcome []
at_once b attempts outcome e = record {
  before = [];
  after = attempts;
  more = 0;
  splits = refl;
  not_yet = tt;
  ended = e;
  slept = refl;
}

-- Waiting for the database passes over the answers that mean "not yet", with one full delay after
-- each, the first delay given and each next one doubled up to the limit; it ends with a connection at
-- the first answer, gives up without a delay on any other error, and is cancelled before a delay or
-- during one, and for no other reason; it still waits only where the attempts run out.
pub wait_for_database_lem :
    (b : StartupBackoff) (attempts : List Attempt)
    → Waited b attempts (wait_for_database b attempts).0 (wait_for_database b attempts).1
unfolding wait_for_database step
wait_for_database_lem b [] = at_once b [] waiting (refl, refl)
wait_for_database_lem b (answered ∷ rest) = at_once b (answered ∷ rest) connected (refl, refl)
wait_for_database_lem b (rejected err true w ∷ rest) =
    at_once b (rejected err true w ∷ rest) cancelled (inl (refl, refl, refl))
wait_for_database_lem b (rejected err false w ∷ rest) = elim (Bool-cases (database_not_ready err)) [
  | inr no_wait ↦ rw no_wait (
      at_once b (rejected err false w ∷ rest) (gave_up err) (inr (inl (refl, no_wait, refl, refl))))
  | inl not_yet ↦ elim (Bool-cases w) [
    | inl done ↦
        rw (not_yet, done)
          (record {
            before = [];
            after = rejected err false w ∷ rest;
            more = 1;
            splits = ap (λ b. rejected err false b ∷ rest) (sym done);
            not_yet = tt;
            ended = inr (inr (refl, not_yet, done, refl, refl));
            slept = refl;
          })
    | inr on ↦ rw (not_yet, on) (later err not_yet on (wait_for_database_lem (step b).1 rest))
  ]
]
  where
    later :
        (err : DialError)
        → database_not_ready err ≡ true
        → w ≡ false
        → Waited
            (step b).1
            rest
            (wait_for_database (step b).1 rest).0
            (wait_for_database (step b).1 rest).1
        → Waited b
            (rejected err false false ∷ rest)
            (wait_for_database (step b).1 rest).0
            (b.next_delay ∷ (wait_for_database (step b).1 rest).1)
    later err not_yet on v = record {
      before = rejected err false false ∷ v.before;
      after = v.after;
      more = v.more;
      splits = ap (◌∷◌ (rejected err false false)) v.splits;
      not_yet = ((not_yet, refl, refl), v.not_yet);
      ended = v.ended;
      slept =
          ap (◌∷◌ b.next_delay) v.slept
          ∙ ap (doublings b.max_delay b.next_delay) (add_later (length v.before) v.more);
    }
