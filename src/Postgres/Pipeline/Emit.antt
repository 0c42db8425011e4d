-- ===== src/Postgres/Pipeline/Emit.antt =====
-- What `emit` does to the invariant of the pipeline.
use excalibase_watcher.Base.{
  ℕ, ◌+◌, ◌<◌, ◌≡◌, refl, sym, ap, subst, ◌≢◌, Bool, true, false, Option, none, some, List, u64_mod,
  Bytes, IfSome,
}
use excalibase_watcher.Cdc.Event.{Event, EventType, begin, commit, heartbeat, is_publishable}
use excalibase_watcher.Postgres.AckGate.{AckGate, PendingCommit, begin_txn, committed, hand, unhand}
use excalibase_watcher.Postgres.AckGate.Invariant.{Inv, begin_txn-Inv}
use excalibase_watcher.Postgres.Listener.{
  Listener, emit, emit_as, emit_publishable, passed, hand_back, named,
}
use excalibase_watcher.Postgres.Pipeline.{Bus, Queued}
use excalibase_watcher.Postgres.Pipeline.Core.{Core, Core-gate, Core-plain, Core-hand, unhand-hand}

module _ (bus : Bus) (lsn_string : ℕ → Bytes) (high : ℕ) (log : List PendingCommit)
    (published : List Event) where
  open bus use {State, queue, handle, handle_queue}

  abbrev Keeps : Listener × State → Type 0
  Keeps r = Core high log r.0.ack (queue r.1) published

  pub passed-Core :
      (l : Listener) (s : State) (e : Event)
      → e.sequence ≡ 0
      → Core high log l.ack (queue s) published
      → IfSome Keeps (passed l (handle s e))
  passed-Core l s e z v = ask (handle s e) (handle_queue s e)
    where
      ask :
          (o : Option (State × Bool))
          → IfSome (λ r. Queued (queue s) e (queue r.0) r.1) o
          → IfSome Keeps (passed l o)
      ask none h = tt
      ask (some (t, b)) h = Core-plain high log l.ack (queue s) published v e (queue t) b z h

  emit_publishable-Core :
      (l : Listener) (s : State) (e : Event)
      → l.ack.handed + 1 < u64_mod
      → is_publishable e.type ≡ true
      → Core high log l.ack (queue s) published
      → IfSome Keeps (emit_publishable lsn_string handle l s e)
  unfolding emit_publishable
  emit_publishable-Core l s e b p v =
      ask (handle s (hand l.ack named').1) (handle_queue s (hand l.ack named').1)
    where
      named' : Event
      named' = named lsn_string l e

      l' : Listener
      l' = record l { txn_index = l.txn_index + 1; ack = (hand l.ack named').0 }

      ask :
          (o : Option (State × Bool))
          → IfSome (λ r. Queued (queue s) (hand l.ack named').1 (queue r.0) r.1) o
          → IfSome Keeps (hand_back l' o)
      ask none h = tt
      ask (some (t, true)) h =
          subst (λ x. Core high log l'.ack x published) (sym h)
            (Core-hand high log l.ack (queue s) published v named' b p)
      ask (some (t, false)) h =
          subst (λ x. Core high log (unhand l'.ack) x published) (sym h)
            (subst (λ x. Core high log x (queue s) published) (sym (unhand-hand l.ack named' b)) v)

  begin_txn-Core :
      (g : AckGate) (q : List Event)
      → Core high log g q published
      → Core high log (begin_txn g) q published
  unfolding begin_txn
  begin_txn-Core g q v =
      Core-gate high log g q published v high log (begin_txn g) (begin_txn-Inv high log g v.inv)
        refl refl

  -- `emit`, but for a commit.
  emit_as-Core :
      (t : EventType) (l : Listener) (s : State) (e : Event)
      → e.type ≡ t
      → t ≢ commit
      → e.sequence ≡ 0
      → l.ack.handed + 1 < u64_mod
      → Core high log l.ack (queue s) published
      → IfSome Keeps (emit_as lsn_string handle t l s e)
  unfolding emit_as is_publishable
  emit_as-Core begin l s e k c z b v =
      passed-Core (record l { txn_index = 0; ack = begin_txn l.ack }) s e z
        (begin_txn-Core l.ack (queue s) v)
  emit_as-Core commit l s e k c z b v = absurd (c refl)
  emit_as-Core heartbeat l s e k c z b v = passed-Core l s e z v
  emit_as-Core _ l s e k c z b v = emit_publishable-Core l s e b (ap is_publishable k) v

  pub emit-Core :
      (l : Listener) (s : State) (e : Event)
      → e.type ≢ commit
      → e.sequence ≡ 0
      → l.ack.handed + 1 < u64_mod
      → Core high log l.ack (queue s) published
      → IfSome Keeps (emit lsn_string handle l s e)
  unfolding emit
  emit-Core l s e c z b v = emit_as-Core e.type l s e refl c z b v

module _ (bus : Bus) (lsn_string : ℕ → Bytes) where
  open bus use {State, queue, handle, handle_queue, receive_queue}

  committed_counters :
      (g : AckGate) (end : ℕ)
      → ((committed g end).acked ≡ g.acked) × ((committed g end).handed ≡ g.handed)
  unfolding committed
  committed_counters g end = (refl, refl)

  -- `emit` of a commit, given what the gate's invariant becomes.
  pub emit-Core_commit :
      (high high' : ℕ) (log log' : List PendingCommit) (published : List Event) (l : Listener)
      (s : State) (e : Event)
      → e.type ≡ commit
      → e.sequence ≡ 0
      → Inv high' log' (committed l.ack l.parser.txn_end_lsn)
      → Core high log l.ack (queue s) published
      → IfSome (λ r. Core high' log' r.0.ack (queue r.1) published) (emit lsn_string handle l s e)
  unfolding emit emit_as
  emit-Core_commit high high' log log' published l s e k z i v =
      let (a, h) = committed_counters l.ack l.parser.txn_end_lsn in
      subst
        (λ ty.
          IfSome (λ r. Core high' log' r.0.ack (queue r.1) published)
            (emit_as lsn_string handle ty l s e))
        (sym k)
        (passed-Core bus lsn_string high' log' published
          (record l { ack = committed l.ack l.parser.txn_end_lsn }) s e z
          (Core-gate high log l.ack (queue s) published v high' log'
            (committed l.ack l.parser.txn_end_lsn) i a h))
