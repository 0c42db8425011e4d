-- ===== src/Tests/Cdc.antt =====
-- The bus and the event types at concrete inputs.
use excalibase_watcher.Base.{
  bytes_eq, ℕ, ◌≡◌, ◌↔◌, Bool, true, false, some, List, [], ◌∷◌, Bytes, codes, IfSome,
}
use excalibase_watcher.Cdc.Event.{
  Event, insert, ddl, new_event, unmarshal, to_string, unmarshal_iff,
}
use excalibase_watcher.Cdc.Service.{
  new_subscriber, get_subs, Service, new_service, handle_event, Wake, poll,
}
use excalibase_watcher.Cdc.Service.Delivery.{Outcome, handle_event-Outcome}

abbrev valid : Bytes → Bool
valid _ = true

-- Every blocked send would poll twice, the second time after a shutdown.
abbrev wakes : ℕ → List Wake
wakes _ = poll false ∷ poll true ∷ []

-- A subscriber to all events, and one to `users`.
abbrev service : Service
service = record new_service {
  next_id = 2;
  table_subs = (codes "users", new_subscriber 1 ∷ []) ∷ [];
  global_subs = new_subscriber 0 ∷ [];
}

abbrev row : Event
row = new_event 5 insert (codes "public") (codes "users") (codes "{}") (codes "INSERT") (codes "90")

handle_event-Outcome_example :
    IfSome (Outcome valid wakes row service) (handle_event valid wakes service row)
unfolding get_subs bytes_eq
handle_event-Outcome_example = handle_event-Outcome valid wakes service row

unmarshal_iff_example : (unmarshal (codes "DDL") ≡ some ddl) ↔ (codes "DDL" ≡ to_string ddl)
unmarshal_iff_example = unmarshal_iff ddl (codes "DDL")
