-- ===== src/Nats/Stream.antt =====
-- internal/nats/publisher.go and internal/nats/connection.go: how the publisher starts, finds its
-- stream and fails.
-- What the NATS client answers is an argument: whether it connects, and for each attempt the states of
-- the connection, the stream lookup and whether the context ends. The delays are milliseconds.
pub mod Awaits
use excalibase_watcher.Nats.Backoff.{default_backoff, delay}
use excalibase_watcher.Base.{
  ℕ, ◌+◌, Bool, true, false, not, ◌&&◌, ◌||◌, Option, none, some, List, [], ◌∷◌, if◌then◌else◌,
}

-- The answer of `js.Stream`: the stream, `ErrStreamNotFound` or another error.
pub data Lookup : Type 0 where
  stream_found stream_not_found lookup_failed : Lookup

pub data StreamError : Type 0 where
  not_connected no_jet_stream stream_missing lookup_error connection_closed cancelled : StreamError

-- `ensureStream`; none is its success.
unfoldable pub ensure_stream : Lookup → Option StreamError
ensure_stream stream_found = none
ensure_stream stream_not_found = some stream_missing
ensure_stream lookup_failed = some lookup_error

-- What a poll of the connection meets; `down_cancelled` is a context that ends before the next one.
pub data Poll : Type 0 where
  up closed down down_cancelled : Poll

-- The result of a wait: success, an error, or none while it goes on.
pub data Waited : Type 0 where
  waiting arrived : Waited
  stopped : StreamError → Waited

-- `waitConnected`.
unfoldable pub wait_connected : List Poll → Waited
wait_connected [] = waiting
wait_connected (up ∷ polls) = arrived
wait_connected (closed ∷ polls) = stopped connection_closed
wait_connected (down_cancelled ∷ polls) = stopped cancelled
wait_connected (down ∷ polls) = wait_connected polls

-- One turn of `awaitStream`: `cancelled_after` is `ctx.Err() != nil` after the lookup, and `sleeps`
-- is false where the context ends the pause.
pub record Attempt : Type 0 where
  pub polls : List Poll
  pub lookup : Lookup
  pub cancelled_after : Bool
  pub sleeps : Bool

pub record Awaited : Type 0 where
  pub result : Waited
  pub delays : List ℕ

abbrev pub ends : Waited → Awaited
ends result = record { result = result; delays = [] }

abbrev pub slept : ℕ → Awaited → Awaited
slept pause a = record a { delays = pause ∷ a.delays }

-- Whether an error of the lookup ends the wait.
abbrev pub is_missing : StreamError → Bool
is_missing stream_missing = true
is_missing _ = false

module _ (rand : ℕ → ℕ) where
  -- The turn after a lookup that failed.
  abbrev pub retry : ℕ → Attempt → StreamError → Awaited → Awaited
  retry attempt a err rest =
      if is_missing err || a.cancelled_after
      then ends (stopped err)
      else if not a.sleeps
      then record { result = stopped cancelled; delays = delay default_backoff rand attempt ∷ [] }
      else slept (delay default_backoff rand attempt) rest

  -- `awaitStream` from an attempt on.
  unfoldable pub await_stream : ℕ → List Attempt → Awaited
  unfolding wait_connected ensure_stream delay
  await_stream attempt [] = ends waiting
  await_stream attempt (a ∷ more) =
      let rest = await_stream (attempt + 1) more in
      elim (wait_connected a.polls) [
        | waiting ↦ ends waiting
        | stopped err ↦ ends (stopped err)
        | arrived ↦ elim (ensure_stream a.lookup) [
          | none ↦ ends arrived
          | some err ↦ retry attempt a err rest
        ]
      ]

-- The publisher after `Start`. `failed` is the channel of one error, and `publishing` says that
-- `publishLoop` runs.
pub record Running : Type 0 where
  pub stream_verified : Bool
  pub publishing : Bool
  pub failed : Option StreamError

-- `fail` keeps the first error.
unfoldable pub fail : StreamError → Running → Running
fail err p = elim p.failed [ some _ ↦ p | none ↦ record p { failed = some err } ]

-- `verifyStreamIfConnected`: whether the stream is verified, or none for its error.
unfoldable pub verify_stream_if_connected : Bool → Lookup → Option Bool
unfolding ensure_stream
verify_stream_if_connected connected lookup =
    if not connected then some false else elim (ensure_stream lookup) [
      | none ↦ some true
      | some err ↦ if is_missing err then none else some false
    ]

abbrev pub fresh : Bool → Running
fresh verified = record { stream_verified = verified; publishing = verified; failed = none }

-- What the goroutine of `Start` does with the end of `awaitStream`; `context_ended` is
-- `ctx.Err() != nil` at that point.
unfoldable pub after_await : Bool → Waited → Running → Running
unfolding fail
after_await context_ended waiting p = p
after_await context_ended arrived p = record p { stream_verified = true; publishing = true }
after_await context_ended (stopped err) p = if context_ended then p else fail err p

-- `Start` with the goroutine that it leaves; none is an error of `Start`.
unfoldable pub start : (ℕ → ℕ) → Bool → Bool → Bool → Lookup → List Attempt → Bool → Option Running
unfolding verify_stream_if_connected await_stream after_await
start rand connects jet_stream connected lookup attempts context_ended =
    if not connects || not jet_stream
    then none
    else elim (verify_stream_if_connected connected lookup) [
      | none ↦ none
      | some true ↦ some (fresh true)
      | some false ↦
          some (after_await context_ended (await_stream rand 1 attempts).result (fresh false))
    ]

-- `Ready`; the argument is `conn.IsConnected()`.
unfoldable pub ready : Bool → Running → Bool
ready connected p = connected && p.stream_verified

-- `onClosed`.
unfoldable pub on_closed : Bool → Running → Running
unfolding fail
on_closed stopping p = if stopping then p else fail connection_closed p
