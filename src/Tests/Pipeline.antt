-- ===== src/Tests/Pipeline.antt =====
-- A transaction of one insert through the pipeline, from the listener to the broker's ack.
use excalibase_watcher.Postgres.Pipeline.AtLeastOnce.{Delivered, confirmed_iff}
use excalibase_watcher.Base.{
  false, is_empty, inl, ◌↔◌, ◌≤◌, arith, ◌≡◌, refl, Bool, true, none, some, [], ◌∷◌, Bytes, codes,
  decimal,
}
use excalibase_watcher.Cdc.Event.{is_table_event, is_publishable, Event, insert, commit, new_event}
use excalibase_watcher.Cdc.Service.{
  receive, new_service, new_subscriber, handle_event, deliver_all, deliver_table, deliver, accepts,
}
use excalibase_watcher.Postgres.AckGate.{
  committed, flush, observe_published, new_ack_gate, enable, hand,
}
use excalibase_watcher.Postgres.Listener.{Listener, emit, emit_as, emit_publishable, named}
use excalibase_watcher.Postgres.Parser.{Parser}
use excalibase_watcher.Postgres.Pipeline.{
  Step, emits, commits, publishes, Reach, here, next, IsStart, System,
}
use excalibase_watcher.Postgres.Pipeline.ServiceBus.{Wired, service_bus, bus_handle}

abbrev valid : Bytes → Bool
valid _ = true

abbrev parser : Parser
parser = record {
  table_filter = [];
  capture_ddl = false;
  schema_store = none;
  relation_map = [];
  lsn_provider = none;
  txn_final_lsn = 90;
  txn_end_lsn = 100;
}

abbrev bus : Wired
bus = record { publisher = new_subscriber 0; base = new_service }

abbrev fresh : Listener
fresh = record { parser = parser; ack = enable new_ack_gate; txn_index = 0 }

abbrev start : System (service_bus valid) decimal
start = record {
  listener = fresh;
  state = bus;
  published = [];
  log = [];
  high = 0;
  given_up = false;
}

abbrev row : Event
row = new_event 5 insert (codes "public") (codes "users") (codes "{}") (codes "INSERT") (codes "90")

abbrev end : Event
end = new_event 6 commit [] [] [] (codes "COMMIT") (codes "100")

abbrev queued_row : Event
queued_row = (hand fresh.ack (named decimal fresh row)).1

abbrev handed : Listener
handed = record fresh { txn_index = 1; ack = (hand fresh.ack (named decimal fresh row)).0 }

abbrev one_queued : Wired
one_queued = record bus { publisher = record bus.publisher { queue = queued_row ∷ [] } }

abbrev two_queued : Wired
two_queued = record bus { publisher = record bus.publisher { queue = queued_row ∷ end ∷ [] } }

abbrev closed : Listener
closed = record handed { ack = committed handed.ack 100 }

emits_row : emit decimal (bus_handle valid) fresh bus row ≡ some (handed, one_queued)
unfolding emit emit_as emit_publishable hand handle_event accepts deliver_all deliver_table deliver
    is_publishable is_table_event is_empty
emits_row = refl

emits_end : emit decimal (bus_handle valid) handed one_queued end ≡ some (closed, two_queued)
unfolding emit emit_as committed handle_event accepts deliver_all deliver_table deliver
    is_publishable is_table_event is_empty
emits_end = refl

abbrev after_row : System (service_bus valid) decimal
after_row = record start { listener = handed; state = one_queued }

abbrev after_end : System (service_bus valid) decimal
after_end = record after_row {
  listener = closed;
  state = two_queued;
  log = record { last_sequence = 1; end = 100 } ∷ [];
  high = 100;
}

abbrev acked : System (service_bus valid) decimal
acked = record after_end {
  listener = record closed { ack = observe_published closed.ack queued_row };
  state = record two_queued { publisher = receive two_queued.publisher };
  published = queued_row ∷ [];
}

step_row : Step (service_bus valid) decimal start after_row
unfolding enable
step_row = emits start row handed one_queued (λ e. cc) refl (omega arith) emits_row

step_end : Step (service_bus valid) decimal after_row after_end
unfolding hand enable
step_end = commits after_row end closed two_queued refl refl (omega arith) emits_end

step_ack : Step (service_bus valid) decimal after_end acked
unfolding is_publishable hand
step_ack = publishes after_end queued_row (end ∷ []) refl refl

Reach-acked : Reach (service_bus valid) decimal start acked
Reach-acked = next (next (next here step_row) step_end) step_ack

start-IsStart : IsStart (service_bus valid) decimal start
start-IsStart = record {
  empty_queue = refl;
  nothing_published = refl;
  nothing_logged = refl;
  at_origin = refl;
  nothing_given_up = refl;
  fresh_gate = refl;
}

confirmed_iff_example :
    (100 ≤ (flush acked.listener.ack).1) ↔ Delivered (service_bus valid) decimal 1 acked.published
confirmed_iff_example =
    confirmed_iff (service_bus valid) decimal start acked (record { last_sequence = 1; end = 100 })
      start-IsStart Reach-acked refl (inl refl)
