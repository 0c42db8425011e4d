-- ===== src/Nats/Publisher/Delivery.antt =====
-- What the publisher guarantees about each event.
use excalibase_watcher.Base.{
  doublings, ℕ, suc, ◌*◌, ◌<◌, min, ◌≡◌, refl, sym, ap, ◌∙◌, ◌⊎◌, inl, inr, true, false, Option,
  none, some, List, [], ◌∷◌, ◌++◌, append-nil, append_assoc, arith, if◌then◌else◌, Bool-cases, All,
  IfSome,
}
use excalibase_watcher.Cdc.Event.{Event, is_publishable}
use excalibase_watcher.Nats.Publisher.{
  proceed, slept, done_with, fallback, last_form, settled, goes_on, Attempt, acked, rejected_size,
  lost_reconnected, lost_closed, lost_cancelled, failed_waited, failed_cancelled, too_large,
  connection_closed, cancelled, Result, Sent, Published, Publisher, publish_with_retry,
  max_retry_delay, default_retry_base_delay, stripped, send, send_event, send_truncated, publish,
  deliver, publish_loop, record_ack, is_too_large, is_closed,
}

-- A failure after which the publisher tries again.
abbrev pub IsTransient : Attempt → Type 0
IsTransient lost_reconnected = Unit
IsTransient failed_waited = Unit
IsTransient _ = ⊥

-- How many failures are waited out.
abbrev pub waited : List Attempt → ℕ
waited [] = 0
waited (failed_waited ∷ fails) = suc (waited fails)
waited (_ ∷ fails) = waited fails

-- A transient failure is retried, however often: after any number of them, the first attempt
-- that the broker acks ends the loop with success, and the loop has slept exactly once for each
-- failure that was not a lost connection, with delays that start with the first one and double up
-- to their limit.
pub publish_with_retry-acked :
    (delay : ℕ) (fails more : List Attempt)
    → All IsTransient fails
    → publish_with_retry delay (fails ++ acked ∷ more)
      ≡ some (record {
        result = none;
        delays = doublings max_retry_delay delay (waited fails);
        left = more;
      })
unfolding publish_with_retry
publish_with_retry-acked delay [] more h = refl
publish_with_retry-acked delay (lost_reconnected ∷ fails) more h =
    publish_with_retry-acked delay fails more h.1
publish_with_retry-acked delay (failed_waited ∷ fails) more h =
    ap (slept delay) (publish_with_retry-acked (min (delay * 2) max_retry_delay) fails more h.1)
publish_with_retry-acked delay (acked ∷ fails) more h = absurd h.0
publish_with_retry-acked delay (rejected_size ∷ fails) more h = absurd h.0
publish_with_retry-acked delay (lost_closed ∷ fails) more h = absurd h.0
publish_with_retry-acked delay (lost_cancelled ∷ fails) more h = absurd h.0
publish_with_retry-acked delay (failed_cancelled ∷ fails) more h = absurd h.0

-- A broker that takes an event in one of its three forms, and a context that does not end:
-- `k` sends in a row were too large.
abbrev pub Tolerant : ℕ → List Attempt → Type 0
Tolerant k [] = Unit
Tolerant k (acked ∷ more) = Tolerant 0 more
Tolerant k (rejected_size ∷ more) = (k < 2) × Tolerant (suc k) more
Tolerant k (lost_reconnected ∷ more) = Tolerant k more
Tolerant k (lost_closed ∷ more) = Tolerant 0 more
Tolerant k (lost_cancelled ∷ more) = ⊥
Tolerant k (failed_waited ∷ more) = Tolerant k more
Tolerant k (failed_cancelled ∷ more) = ⊥

abbrev After : ℕ → Result → List Attempt → Type 0
After k none left = Tolerant 0 left
After k (some too_large) left = (k < 2) × Tolerant (suc k) left
After k (some connection_closed) left = Unit
After k (some cancelled) left = ⊥

retry-After :
    (k delay : ℕ) (attempts : List Attempt)
    → Tolerant k attempts
    → IfSome (λ s. After k s.result s.left) (publish_with_retry delay attempts)
unfolding publish_with_retry
retry-After k delay [] h = tt
retry-After k delay (acked ∷ more) h = h
retry-After k delay (rejected_size ∷ more) h = h
retry-After k delay (lost_reconnected ∷ more) h = retry-After k delay more h
retry-After k delay (lost_closed ∷ more) h = tt
retry-After k delay (lost_cancelled ∷ more) h = absurd h
retry-After k delay (failed_waited ∷ more) h =
    kept (publish_with_retry (min (delay * 2) max_retry_delay) more)
      (retry-After k (min (delay * 2) max_retry_delay) more h)
  where
    kept :
        (o : Option Sent)
        → IfSome (λ s. After k s.result s.left) o
        → IfSome (λ s. After k s.result s.left) (slept delay o)
    kept none g = tt
    kept (some s) g = g
retry-After k delay (failed_cancelled ∷ more) h = absurd h

-- The forms in which an event may be stored.
abbrev pub IsForm : (Event → Event) → Event → Event → Type 0
IsForm truncated event form = (form ≡ event) ⊎ (form ≡ truncated event) ⊎ (form ≡ stripped event)

-- An event is stored in one of its forms, or the connection is closed for good.
abbrev Stored : (Event → Event) → Event → Published → Type 0
Stored truncated event r =
    ((r.result ≡ none) × IsForm truncated event r.form × Tolerant 0 r.left)
    ⊎ (r.result ≡ some connection_closed)

module _ (truncated : Event → Event) (event : Event) where
  last-Stored :
      (o : Option Sent)
      → IfSome (λ s. After 2 s.result s.left) o
      → IfSome (Stored truncated event) (last_form (stripped event) o)
  last-Stored none h = tt
  last-Stored (some s) h = by_result s.result s.delays s.left h
    where
      by_result :
          (r : Result) (ds : List ℕ) (left : List Attempt)
          → After 2 r left
          → Stored truncated event
              (done_with (stripped event) (record { result = r; delays = ds; left = left }))
      by_result none ds left g = inl (refl, inr (inr refl), g)
      by_result (some too_large) ds left g = absurd (omega arith)
      by_result (some connection_closed) ds left g = inr refl
      by_result (some cancelled) ds left g = absurd g

  fallback-Stored :
      (k : ℕ) (form : Event) (o : Option Sent) (next : List Attempt → Option Published)
      → IsForm truncated event form
      → ((left : List Attempt)
          → Tolerant (suc k) left
          → IfSome (Stored truncated event) (next left))
      → IfSome (λ s. After k s.result s.left) o
      → IfSome (Stored truncated event) (fallback form o next)
  unfolding is_too_large
  fallback-Stored k form none next f n h = tt
  fallback-Stored k form (some s) next f n h = by_result s.result s.delays s.left h
    where
      by_result :
          (r : Result) (ds : List ℕ) (left : List Attempt)
          → After k r left
          → IfSome
              (Stored truncated event)
              (fallback form (some (record { result = r; delays = ds; left = left })) next)
      by_result none ds left g = inl (refl, f, g)
      by_result (some too_large) ds left g = n left g.1
      by_result (some connection_closed) ds left g = inr refl
      by_result (some cancelled) ds left g = absurd g

  send_event-Stored :
      (attempts : List Attempt)
      → Tolerant 0 attempts
      → IfSome (Stored truncated event) (send_event truncated event attempts)
  unfolding send_event send_truncated send
  send_event-Stored attempts h =
      fallback-Stored 0 event (publish_with_retry default_retry_base_delay attempts) _ (inl refl)
        (λ left g.
          fallback-Stored 1 (truncated event) (publish_with_retry default_retry_base_delay left) _
            (inr (inl refl))
            (λ left' g'.
              last-Stored (publish_with_retry default_retry_base_delay left')
                (retry-After 2 default_retry_base_delay left' g'))
            (retry-After 1 default_retry_base_delay left g))
        (retry-After 0 default_retry_base_delay attempts h)

abbrev pub publishables : List Event → List Event
publishables [] = []
publishables (event ∷ events) =
    if is_publishable event.type then event ∷ publishables events else publishables events

abbrev pub Forms : (Event → Event) → List Event → List Event → Type 0
Forms truncated [] [] = Unit
Forms truncated (event ∷ events) (form ∷ forms) =
    IsForm truncated event form × Forms truncated events forms
Forms truncated _ _ = ⊥

-- The observers learned of the first `seen` of the publishable events, in order and with no gap,
-- and each of them is stored in one of its forms.
pub record Prefix (truncated : Event → Event) (events : List Event) (p p' : Publisher)
    : Type 0 where
  pub seen : List Event
  pub unseen : List Event
  pub forms : List Event
  pub splits : publishables events ≡ seen ++ unseen
  pub observed : p'.observed ≡ p.observed ++ seen
  pub stored : p'.stored ≡ p.stored ++ forms
  pub formed : Forms truncated seen forms

module _ (truncated : Event → Event) where
  none_seen : (events : List Event) (p : Publisher) → Prefix truncated events p p
  none_seen events p = record {
    seen = [];
    unseen = publishables events;
    forms = [];
    splits = refl;
    observed = sym (append-nil p.observed);
    stored = sym (append-nil p.stored);
    formed = tt;
  }

  one_seen :
      (event : Event) (events : List Event) (p p' : Publisher) (form : Event) (left : List Attempt)
      → is_publishable event.type ≡ true
      → IsForm truncated event form
      → Prefix truncated events
          (record_ack p event (record { result = none; form = form; left = left }))
          p'
      → Prefix truncated (event ∷ events) p p'
  unfolding record_ack
  one_seen event events p p' form left h f v = record {
    seen = event ∷ v.seen;
    unseen = v.unseen;
    forms = form ∷ v.forms;
    splits = rw h (ap (◌∷◌ event) v.splits);
    observed = v.observed ∙ append_assoc p.observed (event ∷ []) v.seen;
    stored = v.stored ∙ append_assoc p.stored (form ∷ []) v.forms;
    formed = (f, v.formed);
  }

  passed_over :
      (event : Event) (events : List Event) (p p' : Publisher)
      → is_publishable event.type ≡ false
      → Prefix truncated events p p'
      → Prefix truncated (event ∷ events) p p'
  passed_over event events p p' h v = record {
    seen = v.seen;
    unseen = v.unseen;
    forms = v.forms;
    splits = rw h v.splits;
    observed = v.observed;
    stored = v.stored;
    formed = v.formed;
  }

  delivered :
      (event : Event) (events : List Event) (p : Publisher)
      (loop : Publisher → List Attempt → Publisher) (o : Option Published)
      → is_publishable event.type ≡ true
      → ((p' : Publisher) (left : List Attempt)
          → Tolerant 0 left
          → Prefix truncated events p' (loop p' left))
      → IfSome (Stored truncated event) o
      → Prefix truncated (event ∷ events) p (proceed p (goes_on (settled p event o)) loop)
  unfolding is_closed
  delivered event events p loop none h n v = none_seen (event ∷ events) p
  delivered event events p loop (some r) h n v = by_result r.result r.form r.left v
    where
      by_result :
          (result : Result) (form : Event) (left : List Attempt)
          → Stored truncated event (record { result = result; form = form; left = left })
          → Prefix truncated (event ∷ events) p (
              proceed p
                (goes_on
                  (settled p event (some (record { result = result; form = form; left = left }))))
                loop)
      by_result none form left (inl (e, f, t)) =
          one_seen event events p _ form left h f (n _ left t)
      by_result none form left (inr e) = cc
      by_result (some too_large) form left (inl (e, f, t)) = cc
      by_result (some too_large) form left (inr e) = cc
      by_result (some connection_closed) form left v =
          unfold record_ack in none_seen (event ∷ events) p
      by_result (some cancelled) form left (inl (e, f, t)) = cc
      by_result (some cancelled) form left (inr e) = cc

  -- The publisher never skips an event: from a broker that takes each event in one of its three
  -- forms, and while the context lives, it publishes a gapless prefix of the publishable events
  -- in the order in which it received them, each in one of its forms, and passes each to the
  -- observers as it came.
  pub publish_loop-Prefix :
      (events : List Event) (p : Publisher) (attempts : List Attempt)
      → Tolerant 0 attempts
      → Prefix truncated events p (publish_loop truncated p events attempts)
  unfolding publish_loop deliver publish
  publish_loop-Prefix [] p attempts h = none_seen [] p
  publish_loop-Prefix (event ∷ events) p attempts h =
      elim (Bool-cases (is_publishable event.type)) [
        | inr passes ↦
            passed_over event events p _ passes
              (rw passes (publish_loop-Prefix events p attempts h))
        | inl goes ↦ rw goes (
            delivered event events p _ (send_event truncated event attempts) goes
              (λ p' left t. publish_loop-Prefix events p' left t)
              (send_event-Stored truncated event attempts h))
      ]
