-- ===== src/Health/Ready.antt =====
-- When the readiness answer is positive.
use excalibase_watcher.Health.{
  Checker, ReadinessCheck, ready_handler, not_ready_reason, failing_reason, status_ok,
}
use excalibase_watcher.Base.{
  ◌≡◌, refl, sym, ◌∙◌, ◌↔◌, inl, inr, true, false, List, [], ◌∷◌, arith, Bool-cases, All, is_empty,
}

module _ {W : Type 0} where
  abbrev HasReason : ReadinessCheck W → Type 0
  HasReason c = is_empty c.reason ≡ false

  abbrev IsReady : W → ReadinessCheck W → Type 0
  IsReady w c = c.ready w ≡ true

  failing_reason_iff :
      (cs : List (ReadinessCheck W)) (w : W)
      → All HasReason cs
      → (is_empty (failing_reason cs w) ≡ true) ↔ All (IsReady w) cs
  unfolding failing_reason is_empty
  failing_reason_iff [] w h = (λ e. tt, λ a. refl)
  failing_reason_iff (c ∷ cs) w h = elim (Bool-cases (c.ready w)) [
    | inl good ↦
        let rest = failing_reason_iff cs w h.1 in
        (λ e. (good, rest.0 (rw good at e)), λ a. rw good (rest.1 a.1))
    | inr bad ↦ (λ e. ground (arith, e, bad, h.0), λ a. ground (arith, a.0, bad))
  ]

  code_iff :
      (c : Checker W) (w : W)
      → ((ready_handler c w).code ≡ status_ok) ↔ (is_empty (not_ready_reason c w) ≡ true)
  unfolding ready_handler
  code_iff c w = ground arith

  up_reason :
      (c : Checker W) (w : W)
      → c.is_running w ≡ true
      → is_empty (not_ready_reason c w) ≡ is_empty (failing_reason c.readiness w)
  unfolding not_ready_reason
  up_reason c w up = rw up refl

  down_reason :
      (c : Checker W) (w : W) → c.is_running w ≡ false → is_empty (not_ready_reason c w) ≡ false
  unfolding not_ready_reason is_empty
  down_reason c w down = rw down refl

  -- When every check has a reason to give, `/readyz` answers 200 exactly when the listener runs and
  -- every check is ready.
  pub ready_handler_iff :
      (c : Checker W) (w : W)
      → All HasReason c.readiness
      → ((ready_handler c w).code ≡ status_ok)
        ↔ ((c.is_running w ≡ true) × All (IsReady w) c.readiness)
  ready_handler_iff c w h =
      let cs = failing_reason_iff c.readiness w h in
      elim (Bool-cases (c.is_running w)) [
        | inl up ↦ (
          λ e. (up, cs.0 (sym (up_reason c w up) ∙ (code_iff c w).0 e)),
          λ a. (code_iff c w).1 (up_reason c w up ∙ cs.1 a.1),
        )
        | inr down ↦ (
          λ e. ground (arith, (code_iff c w).0 e, down_reason c w down),
          λ a. ground (arith, a.0, down),
        )
      ]
