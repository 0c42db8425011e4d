-- ===== src/Postgres/Streaming/Confirmed.antt =====
-- The positions that a session confirms to the primary never go back.
use excalibase_watcher.Postgres.AckGate.Invariant.{flush-le, idle-le}
use excalibase_watcher.Base.{
  bind-IfSome_any, false, some, if◌then◌else◌, bind-IfSome, sym, ◌+◌, Option-cases, IfSome, ltb,
  inl, inr, Bool-cases, ◌==◌, none, true, Option, ℕ, ◌≤◌, ◌≡◌, refl, Bool, List, [], ◌∷◌, arith,
  Bytes,
}
use excalibase_watcher.Cdc.Event.{begin, commit, heartbeat, is_publishable, EventType, Event}
use excalibase_watcher.Postgres.AckGate.{flush, begin_txn, committed, hand, unhand}
use excalibase_watcher.Postgres.Listener.{
  passed, hand_back, emit, emit_as, emit_publishable, Listener,
}
use excalibase_watcher.Postgres.Streaming.{
  parsed, other_message, maintain_heartbeat_and_status, copy_data, Message, maintain_heartbeat,
  handle_xlog_data, xlog_data, handle_message, fine, keepalive_byte, xlog_data_byte,
  heartbeat_interval, status_interval, answer, Keepalive, XLogData, send_status, keepalive,
  handle_keepalive, emit_each, finish, Session,
}

-- Positions, the newest first: none is above the limit, or above a newer one.
abbrev pub Descends : ℕ → List ℕ → Type 0
Descends limit [] = Unit
Descends limit (p ∷ ps) = (p ≤ limit) × Descends p ps

Descends-mono : (a b : ℕ) (ps : List ℕ) → a ≤ b → Descends a ps → Descends b ps
Descends-mono a b [] le d = tt
Descends-mono a b (p ∷ ps) le d = (omega (arith, d.0), d.1)

-- What was confirmed is at most what the gate would confirm now.
abbrev pub IsOrderly : {S : Type 0} → Session S → Type 0
IsOrderly s = Descends s.listener.ack.confirmable s.sent

module _ {S : Type 0} (lsn_string : ℕ → Bytes) (handle : S → Event → Option (S × Bool)) where
  abbrev Same : Listener → Option (Listener × S) → Type 0
  Same l r = IfSome (λ x. x.0.ack.confirmable ≡ l.ack.confirmable) r

  emit-Same : (l : Listener) (bus : S) (e : Event) → Same l (emit lsn_string handle l bus e)
  unfolding emit emit_as emit_publishable begin_txn committed hand unhand is_publishable
  emit-Same l bus e = go e.type
    where
      passed-same :
          (l2 : Listener) (r : Option (S × Bool))
          → l2.ack.confirmable ≡ l.ack.confirmable
          → Same l (passed l2 r)
      passed-same l2 none k = tt
      passed-same l2 (some _) k = k

      back-same :
          (l2 : Listener) (r : Option (S × Bool))
          → l2.ack.confirmable ≡ l.ack.confirmable
          → Same l (hand_back l2 r)
      back-same l2 none k = tt
      back-same l2 (some (_, true)) k = k
      back-same l2 (some (_, false)) k = k

      go : (t : EventType) → Same l (emit_as lsn_string handle t l bus e)
      go begin = passed-same _ (handle bus e) refl
      go commit = passed-same _ (handle bus e) refl
      go heartbeat = passed-same _ (handle bus e) refl
      go _ = back-same _ (handle bus _) refl

module _ {S : Type 0} (lsn_string : ℕ → Bytes) (handle : S → Event → Option (S × Bool))
    (parse_keepalive : Bytes → Option Keepalive) (parse_xlog : Bytes → Option XLogData)
    (valid_json : Bytes → Bool) (sends : Bool) (now : ℕ) where
  abbrev Orderly : Option (Session S × Bool) → Type 0
  Orderly r = IfSome (λ x. IsOrderly x.0) r

  emit_each-same :
      (l : Listener) (bus : S) (es : List Event)
      → IfSome
          (λ x. x.0.ack.confirmable ≡ l.ack.confirmable)
          (emit_each lsn_string handle parse_keepalive parse_xlog valid_json sends now l bus es)
  unfolding emit_each
  emit_each-same l bus [] = refl
  emit_each-same l bus (e ∷ es) =
      bind-IfSome _ _ (emit lsn_string handle l bus e) _ (emit-Same lsn_string handle l bus e)
        (λ x k. rw (sym k) (emit_each-same x.0 x.1 es))

  send_status-IsOrderly :
      (s : Session S)
      → IsOrderly s
      → IsOrderly
          (send_status lsn_string handle parse_keepalive parse_xlog valid_json sends now s).0
  unfolding send_status flush
  send_status-IsOrderly s o = elim (Bool-cases sends) [
    | inl ok ↦ rw ok (omega arith, Descends-mono _ _ s.sent (flush-le s.listener.ack) o)
    | inr failed ↦ rw failed (Descends-mono _ _ s.sent (flush-le s.listener.ack) o)
  ]

  answer-IsOrderly :
      (s : Session S) (reply : Bool)
      → IsOrderly s
      → IsOrderly
          (answer lsn_string handle parse_keepalive parse_xlog valid_json sends now s reply).0
  unfolding answer flush
  answer-IsOrderly s true o = send_status-IsOrderly s o
  answer-IsOrderly s false o =
      let flushed = Descends-mono _ _ s.sent (flush-le s.listener.ack) o in
      elim (Bool-cases ((flush s.listener.ack).1 == s.last_flush_sent)) [
        | inl same ↦ rw same flushed
        | inr moved ↦ rw moved (send_status-IsOrderly _ flushed)
      ]

  keepalive-IsOrderly :
      (s : Session S) (pkm : Keepalive)
      → IsOrderly s
      → IsOrderly
          (keepalive lsn_string handle parse_keepalive parse_xlog valid_json sends now s pkm).0
  unfolding keepalive
  keepalive-IsOrderly s pkm o =
      answer-IsOrderly _ pkm.reply_requested
        (Descends-mono _ _ s.sent (idle-le s.listener.ack pkm.server_wal_end) o)

  handle_keepalive-IsOrderly :
      (s : Session S) (body : Bytes)
      → IsOrderly s
      → IsOrderly
          (handle_keepalive lsn_string handle parse_keepalive parse_xlog valid_json sends now s
            body).0
  unfolding handle_keepalive
  handle_keepalive-IsOrderly s body o = elim (Option-cases (parse_keepalive body)) [
    | inl error ↦ rw (handle_keepalive, error) o
    | inr (pkm, is) ↦ rw (handle_keepalive, is) (keepalive-IsOrderly s pkm o)
  ]

  finish-IsOrderly :
      (s : Session S) (event : Option Event)
      → IsOrderly s
      → IfSome IsOrderly
          (finish lsn_string handle parse_keepalive parse_xlog valid_json sends now s event)
  unfolding finish
  finish-IsOrderly s none o = o
  finish-IsOrderly s (some event) o =
      bind-IfSome _ IsOrderly (emit lsn_string handle s.listener s.bus event) _
        (emit-Same lsn_string handle s.listener s.bus event) (λ x k. rw k o)

  xlog_data-IsOrderly :
      (s : Session S) (xld : XLogData)
      → IsOrderly s
      → IfSome IsOrderly
          (xlog_data lsn_string handle parse_keepalive parse_xlog valid_json sends now s xld)
  unfolding xlog_data
  xlog_data-IsOrderly s xld o =
      let r = parsed lsn_string handle parse_keepalive parse_xlog valid_json sends now s xld in
      bind-IfSome (λ x. x.0.ack.confirmable ≡ s.listener.ack.confirmable) IsOrderly
        (emit_each lsn_string handle parse_keepalive parse_xlog valid_json sends now
          (record s.listener { parser = r.parser }) s.bus r.handled)
        _ (emit_each-same (record s.listener { parser = r.parser }) s.bus r.handled)
        (λ x k. finish-IsOrderly _ r.event (rw k o))

  fine-Orderly :
      (r : Option (Session S))
      → IfSome IsOrderly r
      → Orderly (fine lsn_string handle parse_keepalive parse_xlog valid_json sends now r)
  fine-Orderly none h = tt
  fine-Orderly (some s) h = h

  handle_xlog_data-Orderly :
      (s : Session S) (body : Bytes)
      → IsOrderly s
      → Orderly (
          handle_xlog_data lsn_string handle parse_keepalive parse_xlog valid_json sends now s body)
  unfolding handle_xlog_data
  handle_xlog_data-Orderly s body o = elim (Option-cases (parse_xlog body)) [
    | inl error ↦ rw (handle_xlog_data, error) o
    | inr (xld, is) ↦ rw (handle_xlog_data, is) (fine-Orderly _ (xlog_data-IsOrderly s xld o))
  ]

  -- No message of the primary makes the session confirm a position below one that it confirmed
  -- before: where the statuses sent so far never went back, and none is above what the gate
  -- would confirm, both still hold after the message.
  pub handle_message-Orderly :
      (s : Session S) (m : Message)
      → IsOrderly s
      → IfSome
          (λ x. IsOrderly x.0)
          (handle_message lsn_string handle parse_keepalive parse_xlog valid_json sends now s m)
  unfolding handle_message
  handle_message-Orderly s other_message o = o
  handle_message-Orderly s (copy_data kind body) o = elim (Bool-cases (kind == keepalive_byte)) [
    | inl k ↦ rw k (handle_keepalive-IsOrderly s body o)
    | inr k ↦ elim (Bool-cases (kind == xlog_data_byte)) [
      | inl w ↦ rw (k, w) (handle_xlog_data-Orderly s body o)
      | inr w ↦ rw (k, w) o
    ]
  ]

  heartbeat-Orderly :
      (s : Session S)
      → IsOrderly s
      → Orderly
          (maintain_heartbeat lsn_string handle parse_keepalive parse_xlog valid_json sends now s)
  unfolding maintain_heartbeat
  heartbeat-Orderly s o = elim (Bool-cases (ltb now (s.last_message + heartbeat_interval))) [
    | inl early ↦ rw (maintain_heartbeat, early) o
    | inr due ↦
        rw (maintain_heartbeat, due)
          (bind-IfSome_any (λ x. IsOrderly x.0) (handle s.bus _) _ (λ x. send_status-IsOrderly _ o))
  ]

  -- The upkeep between messages, with its periodic status and its heartbeat, does not make the
  -- session confirm an older position either: where the
  -- statuses sent so far never went back, and none is above what the gate would confirm, both
  -- still hold after it.
  pub maintain_heartbeat_and_status-Orderly :
      (s : Session S)
      → IsOrderly s
      → IfSome
          (λ x. IsOrderly x.0)
          (maintain_heartbeat_and_status lsn_string handle parse_keepalive parse_xlog valid_json
            sends now s)
  unfolding maintain_heartbeat_and_status
  maintain_heartbeat_and_status-Orderly s o =
      elim (Bool-cases (ltb now (s.last_status + status_interval))) [
        | inl early ↦ rw early (heartbeat-Orderly s o)
        | inr due ↦ rw due (
            go (send_status lsn_string handle parse_keepalive parse_xlog valid_json sends now s)
              (send_status-IsOrderly s o))
      ]
    where
      go :
          (r : Session S × Bool)
          → IsOrderly r.0
          → Orderly (
              if r.1
              then maintain_heartbeat lsn_string handle parse_keepalive parse_xlog valid_json sends
                  now r.0
              else some (r.0, false))
      go (t, true) h = heartbeat-Orderly t h
      go (t, false) h = h
