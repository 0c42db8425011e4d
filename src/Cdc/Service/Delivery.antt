-- ===== src/Cdc/Service/Delivery.antt =====
-- Delivery by `HandleEvent`: who gets an event, in which order, and who does not.
use excalibase_watcher.Cdc.Service.Registry.{
  get_subs-put_subs_self, get_subs-put_subs_ne, get_subs_missing,
}
use excalibase_watcher.Base.{
  In, ap, ℕ, ◌≤◌, ◌≡◌, refl, ◌≢◌, ◌⊎◌, inl, inr, Bool, true, false, Option, none, some, List, [],
  ◌∷◌, ◌++◌, arith, ltb, Bool-cases, length, Bytes, IfSome,
}
use excalibase_watcher.Cdc.Event.{Event}
use excalibase_watcher.Cdc.Service.{
  has_subs, accepts, handle_event, get_subs, deliver_table, Service, Subs, routed, put_sent,
  after_sends, cons_sent, Subscriber, Wake, received, done, poll, receive, deliver_blocked, deliver,
  deliver_all, default_chan_buffer,
}

-- A blocked send found that the subscriber had unsubscribed, or that the service was closed.
abbrev pub Gone : List Wake → Type 0
Gone wakes = In done wakes ⊎ In (poll true) wakes

-- A send that was blocked on a full queue was abandoned.
abbrev pub Abandoned : List Wake → Subscriber → Subscriber → Type 0
Abandoned wakes sub sub' = Gone wakes × (default_chan_buffer ≤ length sub.queue) × (sub' ≡ sub)

-- The event went to the end of the queue, where at most the oldest one was received meanwhile, or
-- its send was abandoned.
pub record Sent (wakes : ℕ → List Wake) (event : Event) (sub sub' : Subscriber) : Type 0 where
  pub same : sub'.id ≡ sub.id
  pub queued :
      (sub'.queue ≡ sub.queue ++ event ∷ [])
      ⊎ ((sub'.queue ≡ (receive sub).queue ++ event ∷ [])
          × (default_chan_buffer ≤ length sub.queue))
      ⊎ Abandoned (wakes sub.id) sub sub'

abbrev pub AllSent : (ℕ → List Wake) → Event → List Subscriber → List Subscriber → Type 0
AllSent wakes event [] [] = Unit {0}
AllSent wakes event (sub ∷ subs) (sub' ∷ subs') =
    Sent wakes event sub sub' × AllSent wakes event subs subs'
AllSent wakes event _ _ = ⊥

abbrev pub Fits : Subscriber → Type 0
Fits sub = length sub.queue ≤ default_chan_buffer

-- What became of a blocked send.
abbrev Unblocked : List Wake → Event → Subscriber → Subscriber → Type 0
Unblocked wakes event sub sub' =
    (sub' ≡ record (receive sub) { queue = (receive sub).queue ++ event ∷ [] })
    ⊎ (Gone wakes × (sub' ≡ sub))

Gone-later : (w : Wake) (wakes : List Wake) → Gone wakes → Gone (w ∷ wakes)
Gone-later w wakes (inl i) = inl (inr i)
Gone-later w wakes (inr i) = inr (inr i)

deliver_blocked-Unblocked :
    (sub : Subscriber) (event : Event) (wakes : List Wake)
    → IfSome (Unblocked wakes event sub) (deliver_blocked sub event wakes)
unfolding deliver_blocked
deliver_blocked-Unblocked sub event [] = tt
deliver_blocked-Unblocked sub event (received ∷ wakes) = inl refl
deliver_blocked-Unblocked sub event (done ∷ wakes) = inr (inl (inl refl), refl)
deliver_blocked-Unblocked sub event (poll true ∷ wakes) = inr (inr (inl refl), refl)
deliver_blocked-Unblocked sub event (poll false ∷ wakes) =
    later (deliver_blocked sub event wakes) (deliver_blocked-Unblocked sub event wakes)
  where
    later :
        (o : Option Subscriber)
        → IfSome (Unblocked wakes event sub) o
        → IfSome (Unblocked (poll false ∷ wakes) event sub) o
    later none h = tt
    later (some sub') (inl h) = inl h
    later (some sub') (inr (g, h)) = inr (Gone-later (poll false) wakes g, h)

deliver_blocked-Sent :
    (wakes : ℕ → List Wake) (sub : Subscriber) (event : Event) (o : Option Subscriber)
    → default_chan_buffer ≤ length sub.queue
    → IfSome (Unblocked (wakes sub.id) event sub) o
    → IfSome (Sent wakes event sub) o
unfolding receive
deliver_blocked-Sent wakes sub event none full h = tt
deliver_blocked-Sent wakes sub event (some sub') full (inl e) = record {
  same = ap (λ (s : Subscriber). s.id) e;
  queued = inr (inl (ap (λ (s : Subscriber). s.queue) e, full));
}
deliver_blocked-Sent wakes sub event (some sub') full (inr (i, e)) = record {
  same = ap (λ (s : Subscriber). s.id) e;
  queued = inr (inr (i, full, e));
}

deliver-Sent :
    (wakes : ℕ → List Wake) (sub : Subscriber) (event : Event)
    → IfSome (Sent wakes event sub) (deliver wakes sub event)
unfolding deliver
deliver-Sent wakes sub event = elim (Bool-cases (ltb (length sub.queue) default_chan_buffer)) [
  | inl room ↦ rw room (record { same = refl; queued = inl refl })
  | inr full ↦ rw full (
      deliver_blocked-Sent wakes sub event (deliver_blocked sub event (wakes sub.id))
        (ground (arith, full)) (deliver_blocked-Unblocked sub event (wakes sub.id)))
]

pub deliver_all-AllSent :
    (wakes : ℕ → List Wake) (subs : List Subscriber) (event : Event)
    → IfSome (AllSent wakes event subs) (deliver_all wakes subs event)
unfolding deliver_all
deliver_all-AllSent wakes [] event = tt
deliver_all-AllSent wakes (sub ∷ subs) event =
    go (deliver wakes sub event) (deliver_all wakes subs event) (deliver-Sent wakes sub event)
      (deliver_all-AllSent wakes subs event)
  where
    go :
        (o : Option Subscriber) (os : Option (List Subscriber))
        → IfSome (Sent wakes event sub) o
        → IfSome (AllSent wakes event subs) os
        → IfSome (AllSent wakes event (sub ∷ subs)) (cons_sent o os)
    go none os h hs = tt
    go (some sub') none h hs = tt
    go (some sub') (some subs') h hs = (h, hs)

-- The map after the sends: the event's table, and every other one.
pub record TableSent (wakes : ℕ → List Wake) (event : Event) (m m' : Subs) : Type 0 where
  pub sent :
      routed event ≡ true → AllSent wakes event (get_subs event.table m) (get_subs event.table m')
  pub unrouted : routed event ≡ false → m' ≡ m
  pub others : (t : Bytes) → t ≢ event.table → get_subs t m' ≡ get_subs t m

deliver_table-TableSent :
    (wakes : ℕ → List Wake) (m : Subs) (event : Event)
    → IfSome (TableSent wakes event m) (deliver_table wakes m event)
unfolding deliver_table
deliver_table-TableSent wakes m event = elim (Bool-cases (routed event)) [
  | inr no_route ↦
      rw no_route (record { sent = λ h. cc; unrouted = λ _. refl; others = λ t h. refl })
  | inl route ↦ elim (Bool-cases (has_subs event.table m)) [
    | inr none_there ↦
        rw (route, none_there)
          (record {
            sent = λ _. rw (get_subs_missing event.table m none_there) tt;
            unrouted = λ h. cc;
            others = λ t h. refl;
          })
    | inl there ↦
        rw (route, there)
          (put (deliver_all wakes (get_subs event.table m) event) route
            (deliver_all-AllSent wakes (get_subs event.table m) event))
  ]
]
  where
    put :
        (o : Option (List Subscriber))
        → routed event ≡ true
        → IfSome (AllSent wakes event (get_subs event.table m)) o
        → IfSome (TableSent wakes event m) (put_sent event.table m o)
    put none route h = tt
    put (some subs) route h = record {
      sent = λ _. rw (get_subs-put_subs_self event.table subs m) h;
      unrouted = λ k. cc;
      others = λ t k. get_subs-put_subs_ne t event.table subs m k;
    }

-- What a call of `HandleEvent` that returns has done.
pub record Handled (valid_json : Bytes → Bool) (wakes : ℕ → List Wake) (event : Event)
    (s s' : Service) : Type 0 where
  pub accepted : accepts valid_json s event ≡ true
  pub globals : AllSent wakes event s.global_subs s'.global_subs
  pub tables : TableSent wakes event s.table_subs s'.table_subs
  pub open_still : s'.closed ≡ s.closed

abbrev pub Outcome : (Bytes → Bool) → (ℕ → List Wake) → Event → Service → Service × Bool → Type 0
Outcome valid_json wakes event s (s', true) = Handled valid_json wakes event s s'
Outcome valid_json wakes event s (s', false) = (accepts valid_json s event ≡ false) × (s' ≡ s)

-- A call of `HandleEvent` that returns has queued an accepted event last with every subscriber to all
-- events and, if it is an event of a table, with every subscriber to that table, and with no other;
-- only a subscriber whose queue was full may be left as it was, if its blocked send found that the
-- subscriber had unsubscribed or that the service had been closed meanwhile; a refused event, refused
-- for a closed service or for invalid JSON in an event of a table, leaves the service as it was.
pub handle_event-Outcome :
    (valid_json : Bytes → Bool) (wakes : ℕ → List Wake) (s : Service) (event : Event)
    → IfSome (Outcome valid_json wakes event s) (handle_event valid_json wakes s event)
unfolding handle_event
handle_event-Outcome valid_json wakes s event = elim (Bool-cases (accepts valid_json s event)) [
  | inr no_go ↦ rw no_go (no_go, refl)
  | inl go ↦ rw go (
      finish go (deliver_all wakes s.global_subs event) (deliver_table wakes s.table_subs event)
        (deliver_all-AllSent wakes s.global_subs event)
        (deliver_table-TableSent wakes s.table_subs event))
]
  where
    finish :
        accepts valid_json s event ≡ true
        → (gs : Option (List Subscriber)) (ts : Option Subs)
        → IfSome (AllSent wakes event s.global_subs) gs
        → IfSome (TableSent wakes event s.table_subs) ts
        → IfSome (Outcome valid_json wakes event s) (after_sends s gs ts)
    finish go none ts g t = tt
    finish go (some gs) none g t = tt
    finish go (some gs) (some ts) g t = record {
      accepted = go;
      globals = g;
      tables = t;
      open_still = refl;
    }
