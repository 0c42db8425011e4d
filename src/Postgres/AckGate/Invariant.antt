-- ===== src/Postgres/AckGate/Invariant.antt =====
-- The invariant of the gate over the log of all commits it has closed, and that each operation
-- keeps it. `high` is the furthest position of the stream seen so far.
use excalibase_watcher.Base.{
  ◌%◌, refl, ◌↔◌, max, true, u64_mod, ◌⊎◌, ℕ, ◌+◌, ◌≤◌, ◌<◌, ◌≡◌, List, [], ◌∷◌, arith, All,
  All-map_of,
}
use excalibase_watcher.Cdc.Event.{Event}
use excalibase_watcher.Postgres.AckGate.{
  acked_sequence, new_ack_gate, idle_settled, enable, new_session, begin_txn, AckGate,
  PendingCommit, hand, committed, settle, idle, observe_published, flush,
}
use excalibase_watcher.Postgres.AckGate.Entries.{
  push-Increasing, settle-Increasing, push-Waits, push-Waits_self, settle-Within, push-Guards,
  push-Guards_self, Within-mono, push-Within, settle-le, settle-Waits, settle-Guards, Waits, Guards,
  Increasing, Within,
}

-- The facts about one commit `c` of the log.
pub record Tracked (g : AckGate) (c : PendingCommit) : Type 0 where
  pub behind : c.last_sequence ≤ g.handed
  pub guarded : Guards c g.commits
  pub covered : (c.end ≤ g.confirmable) ⊎ (Waits c g.commits)
  pub confirmed : c.end ≤ g.confirmable → c.last_sequence ≤ g.acked

-- What holds of the gate by itself, once `Enable` was called.
pub record Frame (high : ℕ) (g : AckGate) : Type 0 where
  pub gated : g.gated ≡ true
  pub within : Within g.handed high g.commits
  pub increasing : Increasing 0 g.commits
  pub seen : g.confirmable ≤ high

pub record Inv (high : ℕ) (log : List PendingCommit) (g : AckGate) : Type 0 where
  pub frame : Frame high g
  pub tracked : All (Tracked g) log

pub new-Inv : Inv 0 [] (enable new_ack_gate)
unfolding enable
new-Inv = record { frame = ground arith; tracked = tt }

module _ (high : ℕ) (g : AckGate) where
  settle-Frame : Frame high g → Frame high (settle g)
  unfolding settle
  settle-Frame f = ground (
    arith,
    settle-Within g.acked g.handed high g.confirmable g.commits f.seen f.within,
    settle-Increasing g.acked 0 g.confirmable g.commits f.increasing,
  )

  pub settle-Tracked : (c : PendingCommit) → Frame high g → Tracked g c → Tracked (settle g) c
  unfolding settle
  settle-Tracked c f t = grind (
    arith,
    settle-Guards g.acked c g.confirmable g.commits t.confirmed t.guarded,
    settle-Waits g.acked c 0 g.confirmable g.commits f.increasing,
    settle-le g.acked g.confirmable g.commits,
  )

  hand-Frame : (e : Event) → g.handed + 1 < u64_mod → Frame high g → Frame high (hand g e).0
  unfolding hand
  hand-Frame e h f =
      ground (arith, Within-mono g.handed ((g.handed + 1) % u64_mod) high high g.commits)

  hand-Tracked :
      (e : Event) (c : PendingCommit)
      → g.handed + 1 < u64_mod
      → Tracked g c
      → Tracked (hand g e).0 c
  unfolding hand
  hand-Tracked e c h t = ground arith

  committed-Frame :
      (end high' : ℕ) → high ≤ high' → end ≤ high' → Frame high g → Frame high' (committed g end)
  unfolding committed
  committed-Frame end high' h k f = ground (
    arith,
    push-Within g.handed end high high' g.commits h k f.within,
    push-Increasing g.handed end 0 high g.commits (omega arith) f.increasing f.within,
  )

  committed-Tracked : (end : ℕ) (c : PendingCommit) → Tracked g c → Tracked (committed g end) c
  unfolding committed
  committed-Tracked end c t = ground (
    arith,
    push-Guards g.handed end c g.commits t.behind t.guarded,
    push-Waits g.handed end c g.commits,
  )

  -- The commit that was just closed enters the log.
  committed-Tracked_self :
      (end : ℕ)
      → high < end
      → Frame high g
      → Tracked (committed g end) (record { last_sequence = g.handed; end = end })
  unfolding committed
  committed-Tracked_self end h f =
      let c : PendingCommit = record { last_sequence = g.handed; end = end } in
      ground (
        arith,
        push-Guards_self g.handed end c g.commits high refl refl h f.within,
        push-Waits_self g.handed end c g.commits refl refl,
      )

  idle_settled-Frame : (p : ℕ) → Frame high g → Frame (max high p) (idle_settled g p)
  unfolding idle_settled
  idle_settled-Frame p f = ground (arith, Within-mono g.handed g.handed high (max high p) g.commits)

  idle_settled-Tracked :
      (p : ℕ) (c : PendingCommit) → Frame high g → Tracked g c → Tracked (idle_settled g p) c
  unfolding idle_settled
  idle_settled-Tracked p c f t = ground arith

  observe-Tracked :
      (e : Event) (c : PendingCommit) → Tracked g c → Tracked (observe_published g e) c
  unfolding observe_published
  observe-Tracked e c t = ground arith

  observe-Frame : (e : Event) → Frame high g → Frame high (observe_published g e)
  unfolding observe_published
  observe-Frame e f = ground arith

module _ (high : ℕ) (log : List PendingCommit) (g : AckGate) (v : Inv high log g) where
  Inv-step :
      (high' : ℕ) (g' : AckGate)
      → Frame high' g'
      → ((c : PendingCommit) → Tracked g c → Tracked g' c)
      → Inv high' log g'
  Inv-step high' g' f t = record {
    frame = f;
    tracked = All-map_of (Tracked g) (Tracked g') log t v.tracked;
  }

  pub settle-Inv : Inv high log (settle g)
  settle-Inv =
      Inv-step high (settle g) (settle-Frame high g v.frame) (λ c. settle-Tracked high g c v.frame)

  pub hand-Inv : (e : Event) → g.handed + 1 < u64_mod → Inv high log (hand g e).0
  hand-Inv e h =
      Inv-step high (hand g e).0 (hand-Frame high g e h v.frame) (λ c. hand-Tracked high g e c h)

  -- A transaction that was not streamed before.
  pub committed-Inv :
      (end : ℕ)
      → high < end
      → Inv end (record { last_sequence = g.handed; end = end } ∷ log) (committed g end)
  committed-Inv end h =
      let rest =
        Inv-step end (committed g end)
          (committed-Frame high g end end (omega arith) (omega arith) v.frame)
          (committed-Tracked high g end) in
      record {
        frame = rest.frame;
        tracked = (committed-Tracked_self high g end h v.frame, rest.tracked);
      }

  -- A transaction that is streamed again after a reconnect.
  pub committed-Inv_again : (end : ℕ) → end ≤ high → Inv high log (committed g end)
  committed-Inv_again end h =
      Inv-step high (committed g end) (committed-Frame high g end high (omega arith) h v.frame)
        (committed-Tracked high g end)

  pub observe-Inv : (e : Event) → Inv high log (observe_published g e)
  observe-Inv e =
      Inv-step high (observe_published g e) (observe-Frame high g e v.frame)
        (observe-Tracked high g e)

  pub begin_txn-Inv : Inv high log (begin_txn g)
  unfolding begin_txn
  begin_txn-Inv = Inv-step high (begin_txn g) (ground arith) (λ c t. ground arith)

  pub new_session-Inv : Inv high log (new_session g)
  unfolding new_session
  new_session-Inv = Inv-step high (new_session g) (ground arith) (λ c t. ground arith)

module _ (high : ℕ) (log : List PendingCommit) (g : AckGate) (v : Inv high log g) where
  pub idle-Inv : (p : ℕ) → Inv (max high p) log (idle g p)
  unfolding idle
  idle-Inv p =
      let s = settle-Inv high log g v in
      Inv-step high log (settle g) s (max high p) (idle_settled (settle g) p)
        (idle_settled-Frame high (settle g) p s.frame)
        (λ c. idle_settled-Tracked high (settle g) p c s.frame)

  pub flush-Inv : Inv high log (flush g).0
  unfolding flush
  flush-Inv = settle-Inv high log g v

-- Settled, a transaction is confirmed exactly when all that was handed up to its commit is acked.
pub settle-Tracked_iff :
    (high : ℕ) (g : AckGate) (c : PendingCommit)
    → Frame high g
    → Tracked g c
    → (c.end ≤ (settle g).confirmable) ↔ (c.last_sequence ≤ g.acked)
unfolding settle
settle-Tracked_iff high g c f t = (
  λ h. ground (arith, settle-Guards g.acked c g.confirmable g.commits t.confirmed t.guarded),
  λ h. ground (
    arith,
    settle-Waits g.acked c 0 g.confirmable g.commits f.increasing,
    settle-le g.acked g.confirmable g.commits,
  ),
)

-- What was confirmable stays so.
pub flush-le : (g : AckGate) → g.confirmable ≤ (flush g).0.confirmable
unfolding flush settle
flush-le g = settle-le _ g.confirmable g.commits

pub idle-le : (g : AckGate) (position : ℕ) → g.confirmable ≤ (idle g position).confirmable
unfolding idle idle_settled settle
idle-le g position = ground (arith, settle-le (acked_sequence g) g.confirmable g.commits)
