-- ===== src/Cdc/Service.antt =====
-- internal/cdc/service.go: the bus between the listeners and their subscribers.
-- Subscribers are values with an identity in place of pointers; a channel is the queue of the
-- events sent and not yet received. A call runs under the service's lock. Metrics and logs are
-- left out. `json.Valid` is the parameter `valid_json`.
pub mod Delivery
pub mod Registry
use excalibase_watcher.Base.{
  ℕ, ◌+◌, Bool, true, false, not, ◌&&◌, List, [], ◌∷◌, ◌++◌, Option, none, some, ltb, ◌==◌,
  if◌then◌else◌, length, Bytes, bytes_eq, is_empty,
}
use excalibase_watcher.Cdc.Event.{Event, is_table_event}

abbrev pub default_chan_buffer : ℕ
default_chan_buffer = 100000

-- `ch_closed` says that the channel `ch` is closed; that `done` is matters to a blocked send only, which
-- meets it as a wake-up.
pub record Subscriber : Type 0 where
  pub id : ℕ
  pub queue : List Event
  pub ch_closed : Bool

pub record Service : Type 0 where
  pub next_id : ℕ
  pub table_subs : List (Bytes × List Subscriber)
  pub global_subs : List Subscriber
  pub running : Bool
  pub closed : Bool

abbrev pub new_service : Service
new_service = record {
  next_id = 0;
  table_subs = [];
  global_subs = [];
  running = false;
  closed = false;
}

abbrev pub new_subscriber : ℕ → Subscriber
new_subscriber id = record { id = id; queue = []; ch_closed = false }

abbrev pub Subs : Type 0
Subs = List (Bytes × List Subscriber)

-- `s.tableSubs[table]`, which is nil for a missing key.
unfoldable pub get_subs : Bytes → Subs → List Subscriber
get_subs table [] = []
get_subs table ((t, subs) ∷ rest) = if bytes_eq t table then subs else get_subs table rest

pub put_subs : Bytes → List Subscriber → Subs → Subs
put_subs table subs [] = (table, subs) ∷ []
put_subs table subs ((t, old) ∷ rest) =
    if bytes_eq t table then (t, subs) ∷ rest else (t, old) ∷ put_subs table subs rest

pub delete_subs : Bytes → Subs → Subs
delete_subs table [] = []
delete_subs table ((t, subs) ∷ rest) =
    if bytes_eq t table then rest else (t, subs) ∷ delete_subs table rest

pub has_subs : Bytes → Subs → Bool
has_subs table [] = false
has_subs table ((t, subs) ∷ rest) = if bytes_eq t table then true else has_subs table rest

-- The loop that takes one subscriber out of a slice.
pub remove_sub : ℕ → List Subscriber → List Subscriber
remove_sub id [] = []
remove_sub id (sub ∷ subs) = if sub.id == id then subs else sub ∷ remove_sub id subs

-- `Subscribe` and `SubscribeAll`; the identity stands for the channel and the callback returned.
pub subscribe : Service → Bytes → Service × ℕ
subscribe s table = (
  record s {
    next_id = s.next_id + 1;
    table_subs =
        put_subs table (get_subs table s.table_subs ++ new_subscriber s.next_id ∷ []) s.table_subs;
  },
  s.next_id,
)

pub subscribe_all : Service → Service × ℕ
subscribe_all s = (
  record s {
    next_id = s.next_id + 1;
    global_subs = s.global_subs ++ new_subscriber s.next_id ∷ [];
  },
  s.next_id,
)

is_nil : List Subscriber → Bool
is_nil [] = true
is_nil (_ ∷ _) = false

-- The callback of `Subscribe`; writing back an unchanged slice is no change of the map.
pub unsubscribe : Service → Bytes → ℕ → Service
unfolding get_subs put_subs delete_subs remove_sub is_nil
unsubscribe s table id =
    let left = remove_sub id (get_subs table s.table_subs) in
    record s {
      table_subs =
          if is_nil left then delete_subs table s.table_subs else put_subs table left s.table_subs;
    }

-- The callback of `SubscribeAll`.
pub unsubscribe_all : Service → ℕ → Service
unfolding remove_sub
unsubscribe_all s id = record s { global_subs = remove_sub id s.global_subs }

-- What ends a round of the blocking send: the consumer received, or `done` is closed, which the callback
-- of a subscription does before it takes the lock, or 100 ms
-- have passed and `s.closed` is read, with what it is by then: `Shutdown` may run meanwhile.
pub data Wake : Type 0 where
  received done : Wake
  poll : Bool → Wake

abbrev push : Subscriber → Event → Subscriber
push sub event = record sub { queue = sub.queue ++ event ∷ [] }

-- The consumer takes the oldest event, which makes room.
unfoldable pub receive : Subscriber → Subscriber
receive sub = record sub { queue = elim sub.queue [ [] ↦ [] | _ ∷ rest ↦ rest ] }

-- The blocking send; `none` while it still waits.
unfoldable pub deliver_blocked : Subscriber → Event → List Wake → Option Subscriber
unfolding receive
deliver_blocked sub event [] = none
deliver_blocked sub event (received ∷ wakes) = some (push (receive sub) event)
deliver_blocked sub event (done ∷ wakes) = some sub
deliver_blocked sub event (poll closed ∷ wakes) =
    let rest = deliver_blocked sub event wakes in if closed then some sub else rest

unfoldable pub deliver : (ℕ → List Wake) → Subscriber → Event → Option Subscriber
unfolding deliver_blocked
deliver wakes sub event =
    if ltb (length sub.queue) default_chan_buffer
    then some (push sub event)
    else deliver_blocked sub event (wakes sub.id)

-- A blocked send blocks the rest of the loop.
abbrev pub cons_sent : Option Subscriber → Option (List Subscriber) → Option (List Subscriber)
cons_sent none _ = none
cons_sent (some sub) none = none
cons_sent (some sub) (some subs) = some (sub ∷ subs)

unfoldable pub deliver_all : (ℕ → List Wake) → List Subscriber → Event → Option (List Subscriber)
unfolding deliver
deliver_all wakes [] event = some []
deliver_all wakes (sub ∷ subs) event =
    cons_sent (deliver wakes sub event) (deliver_all wakes subs event)

-- The guards of `HandleEvent`.
unfoldable pub accepts : (Bytes → Bool) → Service → Event → Bool
accepts valid_json s event =
    if s.closed
    then false
    else not (
        is_table_event event.type
        && (not (is_empty event.payload) && not (valid_json event.payload)))

-- The sends to the subscribers of the event's table.
abbrev pub routed : Event → Bool
routed event = not (is_empty event.table) && is_table_event event.type

abbrev pub put_sent : Bytes → Subs → Option (List Subscriber) → Option Subs
put_sent table m none = none
put_sent table m (some subs) = some (put_subs table subs m)

unfoldable pub deliver_table : (ℕ → List Wake) → Subs → Event → Option Subs
unfolding has_subs get_subs put_subs deliver_all
deliver_table wakes m event =
    if routed event && has_subs event.table m
    then put_sent event.table m (deliver_all wakes (get_subs event.table m) event)
    else some m

-- The service after the loops; a send that still blocks keeps the caller inside.
abbrev pub after_sends : Service → Option (List Subscriber) → Option Subs → Option (Service × Bool)
after_sends s none _ = none
after_sends s (some globals) none = none
after_sends s (some globals) (some tables) =
    some (record s { global_subs = globals; table_subs = tables }, true)

-- `HandleEvent`; `none` while the caller is blocked on a full channel.
unfoldable pub handle_event :
    (Bytes → Bool) → (ℕ → List Wake) → Service → Event → Option (Service × Bool)
unfolding accepts deliver_all deliver_table
handle_event valid_json wakes s event =
    if accepts valid_json s event
    then after_sends s (deliver_all wakes s.global_subs event)
        (deliver_table wakes s.table_subs event)
    else some (s, false)

pub mark_running : Service → Service
mark_running s = record s { running = true }

pub subscriber_count : Service → Bytes → ℕ
unfolding get_subs
subscriber_count s table = length (get_subs table s.table_subs)

pub has_table_subscribers : Service → Bytes → Bool
unfolding has_subs
has_table_subscribers s table = has_subs table s.table_subs

pub count_tables : Subs → ℕ
count_tables [] = 0
count_tables ((_, subs) ∷ rest) = length subs + count_tables rest

pub total_subscriber_count : Service → ℕ
unfolding count_tables
total_subscriber_count s = length s.global_subs + count_tables s.table_subs

-- `Shutdown` closes every channel and forgets the subscribers; those it closed are returned.
pub close_all : List Subscriber → List Subscriber
close_all [] = []
close_all (sub ∷ subs) = record sub { ch_closed = true } ∷ close_all subs

pub close_tables : Subs → List Subscriber
unfolding close_all
close_tables [] = []
close_tables ((_, subs) ∷ rest) = close_all subs ++ close_tables rest

pub shutdown : Service → Service × List Subscriber
unfolding close_all close_tables
shutdown s = if s.closed then (s, []) else (
  record s { closed = true; global_subs = []; table_subs = [] },
  close_all s.global_subs ++ close_tables s.table_subs,
)
