-- ===== src/Nats/Publisher.antt =====
-- internal/nats/publisher.go: publishing with retries, oversized events, and the publish loop.
-- The broker and the context are lists of what each attempt meets; marshalling an event cannot
-- fail (all its fields are strings, numbers and flags). `Event.Truncated` is the argument
-- `truncated`. Delays are milliseconds.
pub mod Delivery
pub mod Progress
use excalibase_watcher.Base.{
  ℕ, ◌*◌, min, Bool, true, false, not, Option, none, some, List, [], ◌∷◌, ◌++◌, if◌then◌else◌,
  Bytes, is_empty,
}
use excalibase_watcher.Cdc.Event.{Event, is_publishable}

pub data PublishError : Type 0 where
  too_large connection_closed cancelled : PublishError

-- `nil` or an error.
abbrev pub Result : Type 0
Result = Option PublishError

-- What one call of `publishFn` meets. After a failure the publisher waits: for the connection, where
-- that is lost (it comes back, is closed for good, or the context ends), or for its delay.
pub data Attempt : Type 0 where
  acked rejected_size : Attempt
  lost_reconnected lost_closed lost_cancelled : Attempt
  failed_waited failed_cancelled : Attempt

abbrev pub default_retry_base_delay : ℕ
default_retry_base_delay = 500

abbrev pub max_retry_delay : ℕ
max_retry_delay = 10000

-- A run of the publisher: its result, the delays that it slept, and the attempts still to come.
pub record Sent : Type 0 where
  pub result : Result
  pub delays : List ℕ
  pub left : List Attempt

abbrev pub slept : ℕ → Option Sent → Option Sent
slept delay none = none
slept delay (some s) = some (record s { delays = delay ∷ s.delays })

-- `publishWithRetry`; `none` while attempts are still being made.
unfoldable pub publish_with_retry : ℕ → List Attempt → Option Sent
publish_with_retry delay [] = none
publish_with_retry delay (acked ∷ more) = some (record { result = none; delays = []; left = more })
publish_with_retry delay (rejected_size ∷ more) =
    some (record { result = some too_large; delays = []; left = more })
publish_with_retry delay (lost_reconnected ∷ more) = publish_with_retry delay more
publish_with_retry delay (lost_closed ∷ more) =
    some (record { result = some connection_closed; delays = []; left = more })
publish_with_retry delay (lost_cancelled ∷ more) =
    some (record { result = some cancelled; delays = []; left = more })
publish_with_retry delay (failed_waited ∷ more) =
    slept delay (publish_with_retry (min (delay * 2) max_retry_delay) more)
publish_with_retry delay (failed_cancelled ∷ more) =
    some (record { result = some cancelled; delays = []; left = more })

pub is_too_large : Result → Bool
is_too_large (some too_large) = true
is_too_large _ = false

-- `Event.Stripped` of internal/cdc/truncate.go.
abbrev pub stripped : Event → Event
stripped event = record event { payload = []; data_truncated = true }

-- What `publish` did: the result, the form of the event that was tried last, and what is left.
pub record Published : Type 0 where
  pub result : Result
  pub form : Event
  pub left : List Attempt

abbrev pub done_with : Event → Sent → Published
done_with event s = record { result = s.result; form = event; left = s.left }

-- The sends one after the other: the next form is tried when this one is too large.
abbrev pub fallback : Event → Option Sent → (List Attempt → Option Published) → Option Published
fallback event none next = none
fallback event (some s) next =
    if is_too_large s.result then next s.left else some (done_with event s)

abbrev pub last_form : Event → Option Sent → Option Published
last_form event none = none
last_form event (some s) = some (done_with event s)

unfoldable pub send : List Attempt → Option Sent
unfolding publish_with_retry
send = publish_with_retry default_retry_base_delay

unfoldable pub send_truncated : (Event → Event) → Event → List Attempt → Option Published
unfolding send is_too_large
send_truncated truncated event attempts =
    fallback (truncated event) (send attempts) (λ left. last_form (stripped event) (send left))

-- The sends of `publish`.
unfoldable pub send_event : (Event → Event) → Event → List Attempt → Option Published
unfolding send_truncated
send_event truncated event attempts =
    fallback event (send attempts) (send_truncated truncated event)

-- The publisher: the last acked position, and the events passed to the observers, oldest first.
pub record Publisher : Type 0 where
  pub last_acked_lsn : Bytes
  pub observed : List Event
  pub stored : List Event

-- The end of `publish`: the observers learn of the event as it came, the broker stores its form.
unfoldable pub record_ack : Publisher → Event → Published → Publisher
unfolding is_empty
record_ack p event r = elim r.result [
  | some _ ↦ p
  | none ↦ record {
    last_acked_lsn = if is_empty event.lsn then p.last_acked_lsn else event.lsn;
    observed = p.observed ++ event ∷ [];
    stored = p.stored ++ r.form ∷ [];
  }
]

abbrev pub settled :
    Publisher → Event → Option Published → Option (Publisher × Result × List Attempt)
settled p event none = none
settled p event (some r) = some (record_ack p event r, r.result, r.left)

unfoldable pub publish :
    (Event → Event) → Publisher → Event → List Attempt → Option (Publisher × Result × List Attempt)
unfolding send_event record_ack
publish truncated p event attempts = settled p event (send_event truncated event attempts)

pub is_closed : Result → Bool
is_closed (some connection_closed) = true
is_closed _ = false

abbrev pub goes_on :
    Option (Publisher × Result × List Attempt) → Option (Publisher × Bool × List Attempt)
goes_on none = none
goes_on (some (p, result, left)) = some (p, not (is_closed result), left)

-- `deliver`; the flag says that the loop may continue.
unfoldable pub deliver :
    (Event → Event) → Publisher → Event → List Attempt → Option (Publisher × Bool × List Attempt)
unfolding publish is_closed is_publishable
deliver truncated p event attempts =
    if is_publishable event.type
    then goes_on (publish truncated p event attempts)
    else some (p, true, attempts)

-- The rest of the loop runs if `deliver` says so.
abbrev pub proceed :
    Publisher
    → Option (Publisher × Bool × List Attempt)
    → (Publisher → List Attempt → Publisher)
    → Publisher
proceed p none loop = p
proceed p (some (p', true, left)) loop = loop p' left
proceed p (some (p', false, left)) loop = p'

-- `publishLoop` over the events received; the context's end is an attempt that is cancelled.
unfoldable pub publish_loop : (Event → Event) → Publisher → List Event → List Attempt → Publisher
unfolding deliver
publish_loop truncated p [] attempts = p
publish_loop truncated p (event ∷ events) attempts =
    proceed p (deliver truncated p event attempts)
      (λ p' left. publish_loop truncated p' events left)
