-- ===== src/Postgres/Pipeline/AtLeastOnce.antt =====
-- At-least-once delivery: a position is confirmed to PostgreSQL only when the broker has acked
-- every event handed up to it, and as soon as it has, unless the publisher gave up on an event.
use native.Mathlib.Nat.{le_trans}
use excalibase_watcher.Base.{
  false, All-In, ℕ, zero, suc, ◌≤◌, ◌<◌, max, ◌≡◌, refl, sym, ap, subst, ◌∙◌, ◌↔◌, List, [], ◌∷◌,
  ◌++◌, arith, In, Bytes, IfSome-some,
}
use excalibase_watcher.Cdc.Event.{Event}
use excalibase_watcher.Postgres.AckGate.{
  settle, PendingCommit, idle, flush, new_session, observe_published, enable,
}
use excalibase_watcher.Postgres.AckGate.Invariant.{
  Tracked, new-Inv, committed-Inv, committed-Inv_again, new_session-Inv, idle-Inv, flush-Inv,
  settle-Tracked_iff,
}
use excalibase_watcher.Postgres.Pipeline.{
  gives_up, Bus, System, Step, Reach, IsStart, rest_of, parses, emits, commits, commits_again,
  other, publishes, skips, keepalive, flushes, reconnects, here, next,
}
use excalibase_watcher.Postgres.Pipeline.Order.{Run, Run-In, Run-le}
use excalibase_watcher.Postgres.Pipeline.Core.{
  Core, Core-gate, Core-plain, Core-publishes, Core-skips, settled-counters,
}
use excalibase_watcher.Postgres.Pipeline.Emit.{emit-Core, emit-Core_commit}

module _ (bus : Bus) (lsn_string : ℕ → Bytes) where
  open bus use {State, queue, handle, handle_queue, receive, receive_queue}

  abbrev pub Safe : System bus lsn_string → Type 0
  Safe s = Core s.high s.log s.listener.ack (queue s.state) s.published

  received :
      (s : State) (e : Event) (rest : List Event) → queue s ≡ e ∷ rest → rest ≡ queue (receive s)
  received s e rest h = sym (receive_queue s ∙ ap rest_of h)

  Step-Safe :
      {s t : System bus lsn_string} → Step bus lsn_string s t → t.given_up ≡ false → Safe s → Safe t
  Step-Safe (parses s p) g v = v
  Step-Safe (emits s e l t c z b h) g v =
      IfSome-some _ _ (l, t) h
        (emit-Core bus lsn_string s.high s.log s.published s.listener s.state e c z b v)
  Step-Safe (commits s e l t c z b h) g v =
      IfSome-some _ _ (l, t) h
        (emit-Core_commit bus lsn_string s.high s.listener.parser.txn_end_lsn s.log _ s.published
          s.listener s.state e c z
          (committed-Inv s.high s.log s.listener.ack v.inv s.listener.parser.txn_end_lsn b) v)
  Step-Safe (commits_again s e l t c z b h) g v =
      IfSome-some _ _ (l, t) h
        (emit-Core_commit bus lsn_string s.high s.high s.log s.log s.published s.listener s.state e
          c z
          (committed-Inv_again s.high s.log s.listener.ack v.inv s.listener.parser.txn_end_lsn b) v)
  Step-Safe (other s e t b z h) g v =
      Core-plain s.high s.log s.listener.ack (queue s.state) s.published v e (queue t) b z
        (IfSome-some _ _ (t, b) h (handle_queue s.state e))
  Step-Safe (publishes s e rest h p) g v =
      subst (λ q. Core s.high s.log (observe_published s.listener.ack e) q (s.published ++ e ∷ []))
        (received s.state e rest h)
        (Core-publishes s.high s.log s.listener.ack (queue s.state) s.published v e rest h)
  Step-Safe (skips s e rest h p) g v =
      subst (λ q. Core s.high s.log s.listener.ack q s.published) (received s.state e rest h)
        (Core-skips s.high s.log s.listener.ack (queue s.state) s.published v e rest h p)
  Step-Safe (gives_up s e rest h p) g v = cc
  Step-Safe (keepalive s p) g v =
      let n = settled-counters s.listener.ack p in
      Core-gate s.high s.log s.listener.ack (queue s.state) s.published v (max s.high p) s.log
        (idle s.listener.ack p) (idle-Inv s.high s.log s.listener.ack v.inv p) n.0 n.1
  Step-Safe (flushes s) g v =
      let n = settled-counters s.listener.ack 0 in
      Core-gate s.high s.log s.listener.ack (queue s.state) s.published v s.high s.log
        (flush s.listener.ack).0 (flush-Inv s.high s.log s.listener.ack v.inv) n.2 n.3
  Step-Safe (reconnects s) g v =
      Core-gate s.high s.log s.listener.ack (queue s.state) s.published v s.high s.log
        (new_session s.listener.ack) (new_session-Inv s.high s.log s.listener.ack v.inv)
        (unfold new_session in refl) (unfold new_session in refl)

  -- Once the publisher gave up on an event, it has for good.
  Step-given_up :
      {s t : System bus lsn_string}
      → Step bus lsn_string s t
      → t.given_up ≡ false
      → s.given_up ≡ false
  Step-given_up (parses s p) g = g
  Step-given_up (emits s e l t c z b h) g = g
  Step-given_up (commits s e l t c z b h) g = g
  Step-given_up (commits_again s e l t c z b h) g = g
  Step-given_up (other s e t b z h) g = g
  Step-given_up (publishes s e rest h p) g = g
  Step-given_up (skips s e rest h p) g = g
  Step-given_up (gives_up s e rest h p) g = cc
  Step-given_up (keepalive s p) g = g
  Step-given_up (flushes s) g = g
  Step-given_up (reconnects s) g = g

  IsStart-Safe : (s : System bus lsn_string) → IsStart bus lsn_string s → Safe s
  unfolding enable
  IsStart-Safe s b =
      simp (b.at_origin, b.nothing_logged, b.fresh_gate, b.empty_queue, b.nothing_published)
        (record { inv = new-Inv; past = refl; waiting = refl; passable = tt })

  Reach-Safe :
      {s t : System bus lsn_string}
      → Safe s
      → Reach bus lsn_string s t
      → t.given_up ≡ false
      → Safe t
  Reach-Safe v here g = v
  Reach-Safe v (next r st) g = Step-Safe st g (Reach-Safe v r (Step-given_up st g))

  -- All events numbered up to `m` were acked by the broker.
  abbrev pub Delivered : ℕ → List Event → Type 0
  Delivered m published = (n : ℕ) → 0 < n → n ≤ m → (e : Event) × In e published × (e.sequence ≡ n)

  Delivered-le :
      (m acked : ℕ) (published : List Event)
      → Run 0 published acked
      → Delivered m published
      → m ≤ acked
  Delivered-le zero acked published r d = omega arith
  Delivered-le (suc m) acked published r d =
      let (e, i, n) = d (suc m) (omega arith) (omega arith) in
      omega (arith, Run-le 0 acked published e r i)

  -- In every state that the pipeline reaches from a fresh listener with ack gating on, whatever
  -- the interleaving and however often the connection drops, as long as the publisher has given up on
  -- no event and stays subscribed and the bus is not shut down, the position sent to PostgreSQL
  -- covers a logged transaction exactly when the broker has acked every event that was handed to the
  -- bus before that transaction's commit.
  pub confirmed_iff :
      (s t : System bus lsn_string) (c : PendingCommit)
      → IsStart bus lsn_string s
      → Reach bus lsn_string s t
      → t.given_up ≡ false
      → In c t.log
      → (c.end ≤ (flush t.listener.ack).1) ↔ Delivered c.last_sequence t.published
  confirmed_iff s t c b r g m = (
    λ h n l k.
        Run-In 0 t.listener.ack.acked t.published n v.past l (le_trans k ((exactly).0 (flushed h))),
    λ d. reached (exactly.1 (acked_of d)),
  )
    where
      v : Safe t
      v = Reach-Safe (IsStart-Safe s b) r g

      exactly :
          (c.end ≤ (settle t.listener.ack).confirmable) ↔ (c.last_sequence ≤ t.listener.ack.acked)
      exactly =
          settle-Tracked_iff t.high t.listener.ack c v.inv.frame
            (All-In (Tracked t.listener.ack) t.log c v.inv.tracked m)

      flushed : c.end ≤ (flush t.listener.ack).1 → c.end ≤ (settle t.listener.ack).confirmable
      flushed h = unfold flush in h

      reached : c.end ≤ (settle t.listener.ack).confirmable → c.end ≤ (flush t.listener.ack).1
      reached h = unfold flush in h

      acked_of : Delivered c.last_sequence t.published → c.last_sequence ≤ t.listener.ack.acked
      acked_of d = Delivered-le c.last_sequence t.listener.ack.acked t.published v.past d
