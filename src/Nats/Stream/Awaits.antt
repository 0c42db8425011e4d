-- ===== src/Nats/Stream/Awaits.antt =====
-- When the publisher begins to publish.
use excalibase_watcher.Nats.Backoff.{delay_bounds, default_backoff, delay}
use excalibase_watcher.Nats.Stream.{
  fresh, verify_stream_if_connected, waiting, stream_not_found, stream_missing, fail, Running,
  after_await, stopped, stream_found, Lookup, start, lookup_failed, ensure_stream, Waited, arrived,
  wait_connected, Attempt, ends, slept, await_stream,
}
use excalibase_watcher.Base.{
  refl, inr, some, Bool, inl, none, arith, ◌⊎◌, ◌≤◌, ◌<◌, ℕ, ◌+◌, ◌≡◌, ap, true, false, List, [],
  ◌∷◌, ◌++◌, All,
}

-- An attempt that connects, but the lookup fails for another reason than a missing stream.
pub record Transient (a : Attempt) : Type 0 where
  pub connects : wait_connected a.polls ≡ arrived
  pub fails : a.lookup ≡ lookup_failed
  pub stays : a.cancelled_after ≡ false
  pub pauses : a.sleeps ≡ true

module _ (rand : ℕ → ℕ) where
  -- The pauses after the attempts, from the number of the first one on.
  unfoldable pub pauses_of : ℕ → List Attempt → List ℕ
  pauses_of attempt [] = []
  pauses_of attempt (a ∷ more) = delay default_backoff rand attempt ∷ pauses_of (attempt + 1) more

  await_stream-Transient :
      (attempt : ℕ) (tries : List Attempt) (last : Attempt) (more : List Attempt) (result : Waited)
      → All Transient tries
      → ((n : ℕ) → await_stream rand n (last ∷ more) ≡ ends result)
      → await_stream rand attempt (tries ++ last ∷ more)
        ≡ record { result = result; delays = pauses_of attempt tries }
  unfolding await_stream pauses_of ensure_stream
  await_stream-Transient attempt [] last more result t e = e attempt
  await_stream-Transient attempt (a ∷ tries) last more result t e =
      rw (await_stream, t.0.connects, t.0.fails, t.0.stays, t.0.pauses)
        (ap (slept (delay default_backoff rand attempt))
          (await_stream-Transient (attempt + 1) tries last more result t.1 e))

  -- The lookup of the last attempt decides.
  abbrev pub decided : Lookup → Waited
  decided stream_found = arrived
  decided stream_not_found = stopped stream_missing
  decided lookup_failed = waiting

  await_stream-decided :
      (last : Attempt) (more : List Attempt)
      → wait_connected last.polls ≡ arrived
      → (last.lookup ≡ stream_found) ⊎ (last.lookup ≡ stream_not_found)
      → (n : ℕ) → await_stream rand n (last ∷ more) ≡ ends (decided last.lookup)
  unfolding await_stream ensure_stream
  await_stream-decided last more c (inl e) n = rw (await_stream, c, e) refl
  await_stream-decided last more c (inr e) n = rw (await_stream, c, e) refl

  pauses-bounded :
      (attempt : ℕ) (tries : List Attempt)
      → ((n : ℕ) → 0 < n → rand n < n)
      → All (λ d. d ≤ 30000) (pauses_of attempt tries)
  unfolding pauses_of
  pauses-bounded attempt [] h = tt
  pauses-bounded attempt (a ∷ tries) h = (
    omega (arith, delay_bounds default_backoff rand attempt h),
    pauses-bounded (attempt + 1) tries h,
  )

  -- After any number of attempts that fail for another reason than a missing stream, the first attempt
  -- that connects and gets an answer decides: the stream is verified, or reported as missing; before it
  -- there was one pause for each failed attempt, of at most 30 seconds.
  pub await_stream-decides :
      (tries : List Attempt) (last : Attempt) (more : List Attempt)
      → All Transient tries
      → wait_connected last.polls ≡ arrived
      → (last.lookup ≡ stream_found) ⊎ (last.lookup ≡ stream_not_found)
      → ((n : ℕ) → 0 < n → rand n < n)
      → (await_stream rand 1 (tries ++ last ∷ more)
          ≡ record { result = decided last.lookup; delays = pauses_of 1 tries })
        × All (λ d. d ≤ 30000) (pauses_of 1 tries)
  await_stream-decides tries last more t c d h = (
    await_stream-Transient 1 tries last more (decided last.lookup) t
        (await_stream-decided last more c d),
    pauses-bounded 1 tries h,
  )

  -- What `Start` leaves once the wait for the stream is decided.
  abbrev pub outcome : Lookup → Running
  outcome stream_found = record { stream_verified = true; publishing = true; failed = none }
  outcome _ = record { stream_verified = false; publishing = false; failed = some stream_missing }

  -- A publisher that starts while NATS cannot be reached, or while the lookup of its stream fails for
  -- another reason than a missing stream, does not fail: after any number of such attempts, the first
  -- one that connects and gets an answer makes it publish, or report the stream as missing without
  -- publishing; it pauses once after each failed attempt, for at most 30 seconds. The context lives
  -- meanwhile, and the random source stays below its bound.
  pub start-decides :
      (connected : Bool) (lookup : Lookup) (tries : List Attempt) (last : Attempt)
      (more : List Attempt)
      → verify_stream_if_connected connected lookup ≡ some false
      → All Transient tries
      → wait_connected last.polls ≡ arrived
      → (last.lookup ≡ stream_found) ⊎ (last.lookup ≡ stream_not_found)
      → ((n : ℕ) → 0 < n → rand n < n)
      → (start rand true true connected lookup (tries ++ last ∷ more) false
          ≡ some (outcome last.lookup))
        × ((await_stream rand 1 (tries ++ last ∷ more)).delays ≡ pauses_of 1 tries)
        × All (λ d. d ≤ 30000) (pauses_of 1 tries)
  unfolding start after_await fail
  start-decides connected lookup tries last more v t c d h =
      let w = await_stream-decides tries last more t c d h in
      (rw (v, w.0) (settled last.lookup d), ap (λ a. a.delays) w.0, w.1)
    where
      settled :
          (l : Lookup)
          → (l ≡ stream_found) ⊎ (l ≡ stream_not_found)
          → some (after_await false (decided l) (fresh false)) ≡ some (outcome l)
      settled stream_found d = refl
      settled stream_not_found d = refl
      settled lookup_failed (inl e) = absurd (ground (arith, e))
      settled lookup_failed (inr e) = absurd (ground (arith, e))
