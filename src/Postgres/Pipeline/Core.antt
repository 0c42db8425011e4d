-- ===== src/Postgres/Pipeline/Core.antt =====
-- The invariant of the pipeline over one gate, one queue and the list of published events.
use excalibase_watcher.Base.{
  ℕ, suc, ◌+◌, ◌<◌, ◌≡◌, refl, sym, ap, subst, ◌⊎◌, inl, inr, Bool, true, false, List, [], ◌∷◌,
  ◌++◌, arith, u64_mod, All, All-append,
}
use excalibase_watcher.Cdc.Event.{Event, is_publishable}
use excalibase_watcher.Postgres.AckGate.{
  AckGate, PendingCommit, hand, unhand, idle, flush, observe_published,
}
use excalibase_watcher.Postgres.AckGate.Invariant.{Inv, hand-Inv, observe-Inv}
use excalibase_watcher.Postgres.Pipeline.{Queued}
use excalibase_watcher.Postgres.Pipeline.Order.{Run, Run-concat_plain, Run-concat}

-- The bus keeps in order what it accepts, and the publisher never skips a numbered event.
abbrev Passable : List Event → Type 0
Passable = All (λ e. (e.sequence ≡ 0) ⊎ (is_publishable e.type ≡ true))

pub unhand-hand : (g : AckGate) (e : Event) → g.handed + 1 < u64_mod → unhand (hand g e).0 ≡ g
unfolding unhand hand
unhand-hand g e h = ap (λ (n : ℕ). record g { handed = n }) (omega arith)

pub settled-counters :
    (g : AckGate) (p : ℕ)
    → ((idle g p).acked ≡ g.acked)
      × ((idle g p).handed ≡ g.handed)
      × ((flush g).0.acked ≡ g.acked)
      × ((flush g).0.handed ≡ g.handed)
unfolding idle flush
settled-counters g p = ground arith

observe_plain : (g : AckGate) (e : Event) → e.sequence ≡ 0 → observe_published g e ≡ g
unfolding observe_published
observe_plain g e z = ground arith

observe_next :
    (g : AckGate) (e : Event)
    → e.sequence ≡ suc g.acked
    → ((observe_published g e).acked ≡ suc g.acked) × ((observe_published g e).handed ≡ g.handed)
unfolding observe_published
observe_next g e z = ground arith

-- The invariant of the pipeline.
pub record Core (high : ℕ) (log : List PendingCommit) (g : AckGate) (q published : List Event)
    : Type 0 where
  pub inv : Inv high log g
  pub past : Run 0 published g.acked
  pub waiting : Run g.acked q g.handed
  pub passable : Passable q

module _ (high : ℕ) (log : List PendingCommit) (g : AckGate) (q published : List Event)
    (v : Core high log g q published) where
  -- An event with no number, accepted or refused.
  pub Core-plain :
      (e : Event) (q' : List Event) (accepted : Bool)
      → e.sequence ≡ 0
      → Queued q e q' accepted
      → Core high log g q' published
  Core-plain e q' false z h = rw h v
  Core-plain e q' true z h = rw h (record {
    inv = v.inv;
    past = v.past;
    waiting = Run-concat_plain g.acked g.handed q e z v.waiting;
    passable = All-append _ q (e ∷ []) v.passable (inl z, tt);
  })

  -- An operation that leaves the counters alone.
  pub Core-gate :
      (high' : ℕ) (log' : List PendingCommit) (g' : AckGate)
      → Inv high' log' g'
      → g'.acked ≡ g.acked
      → g'.handed ≡ g.handed
      → Core high' log' g' q published
  Core-gate high' log' g' i a h = record {
    inv = i;
    past = rw a v.past;
    waiting = rw (a, h) v.waiting;
    passable = v.passable;
  }

  pub Core-hand :
      (e : Event)
      → g.handed + 1 < u64_mod
      → is_publishable e.type ≡ true
      → Core high log (hand g e).0 (q ++ (hand g e).1 ∷ []) published
  Core-hand e b p = record {
    inv = hand-Inv high log g v.inv e b;
    past = unfold hand in v.past;
    waiting =
        let n : (hand g e).0.handed ≡ suc g.handed = unfold hand in omega arith in
        let m : (hand g e).1.sequence ≡ suc g.handed = unfold hand in omega arith in
        let same : (hand g e).0.acked ≡ g.acked = unfold hand in refl in
        subst (λ k. Run (hand g e).0.acked (q ++ (hand g e).1 ∷ []) k) (sym n)
          (subst (λ k. Run k (q ++ (hand g e).1 ∷ []) (suc g.handed)) (sym same)
            (Run-concat g.acked g.handed q (hand g e).1 m v.waiting));
    passable = All-append _ q ((hand g e).1 ∷ []) v.passable (inr (unfold hand in p), tt);
  }

  pub Core-publishes :
      (e : Event) (rest : List Event)
      → q ≡ e ∷ rest
      → Core high log (observe_published g e) rest (published ++ e ∷ [])
  Core-publishes e rest h =
      acks (subst (λ x. Run g.acked x g.handed) h v.waiting) (subst Passable h v.passable)
    where
      acks :
          Run g.acked (e ∷ rest) g.handed
          → Passable (e ∷ rest)
          → Core high log (observe_published g e) rest (published ++ e ∷ [])
      acks (inl (z, r)) a = rw (observe_plain g e z) (record {
        inv = v.inv;
        past = Run-concat_plain 0 g.acked published e z v.past;
        waiting = r;
        passable = a.1;
      })
      acks (inr (z, r)) a =
          let (n, m) = observe_next g e z in
          record {
            inv = observe-Inv high log g v.inv e;
            past =
                subst (Run 0 (published ++ e ∷ [])) (sym n)
                  (Run-concat 0 g.acked published e z v.past);
            waiting = rw (n, m) r;
            passable = a.1;
          }

  -- What the publisher passes over has no number.
  pub Core-skips :
      (e : Event) (rest : List Event)
      → q ≡ e ∷ rest
      → is_publishable e.type ≡ false
      → Core high log g rest published
  Core-skips e rest h p =
      passes (subst (λ x. Run g.acked x g.handed) h v.waiting) (subst Passable h v.passable)
    where
      passes :
          Run g.acked (e ∷ rest) g.handed → Passable (e ∷ rest) → Core high log g rest published
      passes (inl (z, r)) a = record { inv = v.inv; past = v.past; waiting = r; passable = a.1 }
      passes (inr (z, r)) (inl k, a) = absurd (omega arith)
      passes (inr (z, r)) (inr k, a) = cc
