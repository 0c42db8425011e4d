-- ===== src/Health.antt =====
-- internal/health/health.go: the liveness and readiness answers.
-- `W` is the state of the program when a request comes in; a callback is a function of it. An answer is
-- the status code and the value that encoding/json writes as the body.
pub mod Ready
use excalibase_watcher.Base.{
  ℕ, Bool, true, false, not, Option, none, some, List, [], ◌∷◌, ◌++◌, if◌then◌else◌, Bytes, codes,
  is_empty,
}

pub record Status : Type 0 where
  pub status : Bytes
  pub cdc_enabled : Bool
  pub subscriptions : ℕ
  pub reason : Bytes

pub record ReadyBody : Type 0 where
  pub status : Bytes
  pub reason : Bytes

-- A response with its status code.
pub record Response {ℓ} (B : Type ℓ) : Type ℓ where
  pub code : ℕ
  pub body : B

abbrev pub status_ok : ℕ
status_ok = 200

abbrev pub status_service_unavailable : ℕ
status_service_unavailable = 503

abbrev pub listener_not_running : Bytes
listener_not_running = codes "CDC listener not running"

pub record ReadinessCheck (W : Type 0) : Type 0 where
  pub reason : Bytes
  pub ready : W → Bool

pub record Checker (W : Type 0) : Type 0 where
  pub is_running : W → Bool
  pub subscriber_fn : W → ℕ
  pub readiness : List (ReadinessCheck W)
  pub is_starting : Option (W → Bool)

module _ {W : Type 0} where
  abbrev pub new_checker : (W → Bool) → (W → ℕ) → Checker W
  new_checker is_running subscriber_fn = record {
    is_running = is_running;
    subscriber_fn = subscriber_fn;
    readiness = [];
    is_starting = none;
  }

  unfoldable pub with_readiness : Bytes → (W → Bool) → Checker W → Checker W
  with_readiness reason ready c = record c {
    readiness = c.readiness ++ record { reason = reason; ready = ready } ∷ [];
  }

  unfoldable pub with_startup : (W → Bool) → Checker W → Checker W
  with_startup is_starting c = record c { is_starting = some is_starting }

  unfoldable pub starting : Checker W → W → Bool
  starting c w = elim c.is_starting [ none ↦ false | some is_starting ↦ is_starting w ]

  abbrev health_answer : Checker W → W → ℕ → Bytes → Bytes → Response Status
  health_answer c w code status reason = record {
    code = code;
    body = record {
      status = status;
      cdc_enabled = true;
      subscriptions = c.subscriber_fn w;
      reason = reason;
    };
  }

  -- The answer of `/healthz`.
  unfoldable pub health_handler : Checker W → W → Response Status
  unfolding starting
  health_handler c w =
      if c.is_running w
      then health_answer c w status_ok (codes "UP") []
      else if starting c w
      then health_answer c w status_ok (codes "STARTING") []
      else health_answer c w status_service_unavailable (codes "DOWN") listener_not_running

  -- The loop over the checks.
  unfoldable pub failing_reason : List (ReadinessCheck W) → W → Bytes
  failing_reason [] w = []
  failing_reason (c ∷ cs) w = if not (c.ready w) then c.reason else failing_reason cs w

  unfoldable pub not_ready_reason : Checker W → W → Bytes
  unfolding failing_reason
  not_ready_reason c w =
      if not (c.is_running w) then listener_not_running else failing_reason c.readiness w

  -- The answer of `/readyz`.
  unfoldable pub ready_handler : Checker W → W → Response ReadyBody
  unfolding not_ready_reason is_empty
  ready_handler c w =
      let reason = not_ready_reason c w in
      if is_empty reason
      then record { code = status_ok; body = record { status = codes "ready"; reason = [] } }
      else record {
        code = status_service_unavailable;
        body = record { status = codes "not ready"; reason = reason };
      }
