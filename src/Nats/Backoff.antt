-- ===== src/Nats/Backoff.antt =====
-- internal/nats/connection.go: the reconnect delays. Durations are numbers of milliseconds, and
-- stay under twice `max`, far from the range of `time.Duration`. `rand.Int64N` is an argument.
use native.Mathlib.Nat.{pow-suc, one-le-pow}
use excalibase_watcher.Base.{
  ℕ, zero, suc, ◌+◌, ◌-◌, ◌*◌, ◌/◌, ◌^◌, ◌≤◌, ◌<◌, min, ◌≡◌, sym, ap, ◌∙◌, inl, inr, arith, ltb,
  if◌then◌else◌, Bool-cases,
}

pub record Backoff : Type 0 where
  pub base : ℕ
  pub max_delay : ℕ

abbrev pub default_backoff : Backoff
default_backoff = record { base = 500; max_delay = 30000 }

-- The loop of `delay` with the number of rounds left.
pub grow : ℕ → ℕ → ℕ → ℕ
grow zero max_delay step = step
grow (suc rounds) max_delay step =
    let next = grow rounds max_delay (step * 2) in if ltb step max_delay then next else step

-- `delay(attempt)`; `rand n` is the random number below `n`.
unfoldable pub delay : Backoff → (ℕ → ℕ) → ℕ → ℕ
unfolding grow
delay b rand attempt =
    let step = min (grow (attempt - 1) b.max_delay b.base) b.max_delay in
    let half = step / 2 in half + rand (step - half + 1)

doubled : (step p : ℕ) → step * 2 * p ≡ step * (p * 2)
doubled step p = grind arith

le_doubled : (step rounds : ℕ) → step ≤ step * 2 ^ suc rounds
le_doubled step rounds =
    let one : 1 ≤ 2 ^ suc rounds = one-le-pow (suc rounds) 2 (omega arith) in grind arith

jitter :
    (step : ℕ) (rand : ℕ → ℕ)
    → ((n : ℕ) → 0 < n → rand n < n)
    → (step / 2 ≤ step / 2 + rand (step - step / 2 + 1))
      × (step / 2 + rand (step - step / 2 + 1) ≤ step)
jitter step rand h = omega (arith, h (step - step / 2 + 1) (omega arith))

-- The step before the jitter: the base doubled with each attempt, up to the limit.
grow_lem :
    (rounds max_delay step : ℕ)
    → min (grow rounds max_delay step) max_delay ≡ min (step * 2 ^ rounds) max_delay
unfolding grow
grow_lem zero max_delay step = ap (λ k. min k max_delay) (omega arith)
grow_lem (suc rounds) max_delay step = elim (Bool-cases (ltb step max_delay)) [
  | inl below ↦ rw below (
      grow_lem rounds max_delay (step * 2)
      ∙ ap (λ k. min k max_delay)
          (doubled step (2 ^ rounds) ∙ ap (◌*◌ step) (sym (pow-suc 2 rounds))))
  | inr reached ↦ rw reached (ground (arith, le_doubled step rounds))
]

-- The delay lies in the upper half of the exponential step, for every random source that respects
-- its bound.
pub delay_bounds :
    (b : Backoff) (rand : ℕ → ℕ) (attempt : ℕ)
    → ((n : ℕ) → 0 < n → rand n < n)
    → (min (b.base * 2 ^ (attempt - 1)) b.max_delay / 2 ≤ delay b rand attempt)
      × (delay b rand attempt ≤ min (b.base * 2 ^ (attempt - 1)) b.max_delay)
unfolding delay
delay_bounds b rand attempt h =
    rw (← grow_lem (attempt - 1) b.max_delay b.base)
      (jitter (min (grow (attempt - 1) b.max_delay b.base) b.max_delay) rand h)
