-- ===== src/Postgres/Reconnect/Monotone.antt =====
-- What holds across the connections of a listener.
use excalibase_watcher.Cdc.Event.{Event}
use excalibase_watcher.Postgres.AckGate.{new_session}
use excalibase_watcher.Postgres.Streaming.{
  Keepalive, XLogData, Message, Session, maintain_heartbeat_and_status,
}
use excalibase_watcher.Postgres.Streaming.Confirmed.{
  IsOrderly, handle_message-Orderly, maintain_heartbeat_and_status-Orderly,
}
use excalibase_watcher.Postgres.Reconnect.{
  cannot_stream, Round, StreamEnd, streaming, ended, broken, Connection, first_delay,
  max_reconnect_delay, round, receive_loop, go_on, after_connection, new_state, connect_and_stream,
  Listened, slept, listen_loop,
}
use excalibase_watcher.Base.{
  ◌>>=◌, bind-IfSome, All, IfSome, ℕ, ◌*◌, ◌≤◌, min, Bool, true, false, not, ◌||◌, Option, none,
  some, List, [], ◌∷◌, arith, if◌then◌else◌, Bytes,
}

if-IfSome {ℓ κ} :
    {A : Type ℓ} (P : A → Type κ) (b : Bool) (x y : Option A)
    → IfSome P x
    → IfSome P y
    → IfSome P (if b then x else y)
if-IfSome P true x y h k = h
if-IfSome P false x y h k = k

module _ {S : Type 0} (lsn_string : ℕ → Bytes) (handle : S → Event → Option (S × Bool))
    (parse_keepalive : Bytes → Option Keepalive) (parse_xlog : Bytes → Option XLogData)
    (valid_json : Bytes → Bool) where
  abbrev Ends : Option (Session S × StreamEnd) → Type 0
  Ends r = IfSome (λ x. IsOrderly x.0) r

  round-Orderly :
      (r : Round) (m : Message) (s : Session S)
      → IsOrderly s
      → IfSome
          (λ x. IsOrderly x.0)
          (round lsn_string handle parse_keepalive parse_xlog valid_json r m s)
  unfolding round
  round-Orderly r m s o =
      bind-IfSome (λ (x : Session S × Bool). IsOrderly x.0)
        (λ (x : Session S × Bool). IsOrderly x.0) _ _
        (handle_message-Orderly lsn_string handle parse_keepalive parse_xlog valid_json r.sends
          r.now s m o)
        next
    where
      next :
          (t : Session S × Bool)
          → IsOrderly t.0
          → IfSome
              (λ x. IsOrderly x.0)
              (elim t.1 as (λ _. Option (Session S × Bool)) [
                | true ↦
                    maintain_heartbeat_and_status lsn_string handle parse_keepalive parse_xlog
                      valid_json r.sends r.now t.0
                | false ↦ some (t.0, false)
              ])
      next (t, true) h =
          maintain_heartbeat_and_status-Orderly lsn_string handle parse_keepalive parse_xlog
            valid_json r.sends r.now t h
      next (t, false) h = h

  -- What follows the receipt of a message, for any continuation.
  received-Orderly :
      (r : Round) (s : Session S) (loop : Session S → Option (Session S × StreamEnd))
      (message : Option Message)
      → IsOrderly s
      → ((t : Session S) → IsOrderly t → Ends (loop t))
      → Ends (elim message as (λ _. Option (Session S × StreamEnd)) [
        | none ↦ some (s, if r.cancelled_after then ended else broken)
        | some m ↦
            round lsn_string handle parse_keepalive parse_xlog valid_json r m s
            >>= go_on lsn_string handle parse_keepalive parse_xlog valid_json loop
      ])
  received-Orderly r s loop none o h = o
  received-Orderly r s loop (some m) o h =
      bind-IfSome (λ (x : Session S × Bool). IsOrderly x.0)
        (λ (x : Session S × StreamEnd). IsOrderly x.0) _ _ (round-Orderly r m s o) gone_on
    where
      gone_on :
          (t : Session S × Bool)
          → IsOrderly t.0
          → Ends (go_on lsn_string handle parse_keepalive parse_xlog valid_json loop t)
      gone_on (t, true) k = h t k
      gone_on (t, false) k = k

  receive_loop-Orderly :
      (rounds : List Round) (s : Session S)
      → IsOrderly s
      → Ends (receive_loop lsn_string handle parse_keepalive parse_xlog valid_json rounds s)
  unfolding receive_loop
  receive_loop-Orderly [] s o = o
  receive_loop-Orderly (r ∷ rounds) s o =
      if-IfSome (λ (x : Session S × StreamEnd). IsOrderly x.0) (not r.running || r.cancelled) _ _ o
        (received-Orderly r s
          (λ t. receive_loop lsn_string handle parse_keepalive parse_xlog valid_json rounds t)
          r.received o (λ t k. receive_loop-Orderly rounds t k))

  connect_and_stream-Orderly :
      (publication_name slot_name : Bytes) (c : Connection) (s : Session S)
      → IsOrderly s
      → Ends (
          connect_and_stream lsn_string handle parse_keepalive parse_xlog valid_json
            publication_name slot_name c s)
  unfolding connect_and_stream new_session
  connect_and_stream-Orderly publication_name slot_name c s o =
      if-IfSome (λ (x : Session S × StreamEnd). IsOrderly x.0)
        (cannot_stream publication_name slot_name c) _ _ o
        (receive_loop-Orderly c.rounds
          (new_state lsn_string handle parse_keepalive parse_xlog valid_json c.started_at s) o)

  abbrev Left : Type 0
  Left = Listened lsn_string handle parse_keepalive parse_xlog valid_json

  -- A pause lies between the first delay and the longest one.
  abbrev pub IsBounded : ℕ → Type 0
  IsBounded d = (first_delay ≤ d) × (d ≤ max_reconnect_delay)

  abbrev Fine : Left → Type 0
  Fine l = IsOrderly l.session × All IsBounded l.delays

  slept-Fine :
      (delay : ℕ) (l : Option Left)
      → IsBounded delay
      → IfSome Fine l
      → IfSome Fine (slept lsn_string handle parse_keepalive parse_xlog valid_json delay l)
  slept-Fine delay none b h = tt
  slept-Fine delay (some l) b h = (h.0, (b, h.1))

  after_connection-Fine :
      (c : Connection) (delay : ℕ) (next : ℕ → Session S → Option Left) (t : Session S × StreamEnd)
      → IsBounded delay
      → ((d : ℕ) (s : Session S) → IsBounded d → IsOrderly s → IfSome Fine (next d s))
      → IsOrderly t.0
      → IfSome Fine
          (after_connection lsn_string handle parse_keepalive parse_xlog valid_json c delay next t)
  after_connection-Fine c delay next (s, streaming) b n o = (o, tt)
  after_connection-Fine c delay next (s, ended) b n o = n first_delay s (omega arith, omega arith) o
  after_connection-Fine c delay next (s, broken) b n o =
      if-IfSome Fine c.cancelled _ _ (o, tt)
        (if-IfSome Fine (not c.wakes) _ _ (o, (b, tt))
          (slept-Fine delay _ b
            (n (min (delay * 2) max_reconnect_delay) s (omega (arith, b), omega arith) o)))

  -- Over all connections of a listener, however they end and whatever the primary sends, the confirmed
  -- positions never go back, and a pause between two connections lasts between 1 and 30 seconds: where
  -- both hold at the start, they hold at the end of every run of the loop.
  pub listen_loop-Fine :
      (publication_name slot_name : Bytes) (delay : ℕ) (cs : List Connection) (s : Session S)
      → IsBounded delay
      → IsOrderly s
      → IfSome
          (λ l. IsOrderly l.session × All IsBounded l.delays)
          (listen_loop lsn_string handle parse_keepalive parse_xlog valid_json publication_name
            slot_name delay cs s)
  unfolding listen_loop
  listen_loop-Fine publication_name slot_name delay [] s b o = (o, tt)
  listen_loop-Fine publication_name slot_name delay (c ∷ cs) s b o =
      if-IfSome Fine (not c.running) _ _ (o, tt)
        (bind-IfSome (λ (x : Session S × StreamEnd). IsOrderly x.0) Fine _ _
          (connect_and_stream-Orderly publication_name slot_name c s o)
          (λ t h.
            after_connection-Fine c delay _ t b
              (λ d u k l. listen_loop-Fine publication_name slot_name d cs u k l) h))
