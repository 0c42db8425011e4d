-- ===== src/Main/Probes.antt =====
-- The answers of the two probes, over the state of the program.
use excalibase_watcher.Main.{World, slot_usable, start_http_server}
use excalibase_watcher.Health.{
  health_handler, ready_handler, status_ok, with_readiness, with_startup, starting,
}
use excalibase_watcher.Health.Ready.{ready_handler_iff}
use excalibase_watcher.Base.{◌≡◌, refl, ◌↔◌, Bool, true, false, not, ◌||◌, arith, is_empty}

-- The parts that `/readyz` asks, in the order of the checks.
abbrev pub Serves : Bool → World → Type 0
Serves has_publisher w =
    (w.service.running ≡ true)
    × ((slot_usable w ≡ true) × ((not has_publisher || w.publisher_ready) ≡ true))

ready-Serves :
    (has_publisher : Bool) (w : World)
    → ((ready_handler (start_http_server has_publisher) w).code ≡ status_ok)
      ↔ Serves has_publisher w
unfolding start_http_server with_readiness with_startup is_empty
ready-Serves true w =
    let e = ready_handler_iff (start_http_server true) w (refl, (refl, tt)) in
    (λ h. ((e.0 h).0, ((e.0 h).1.0, (e.0 h).1.1.0)), λ s. e.1 (s.0, (s.1.0, (s.1.1, tt))))
ready-Serves false w =
    let e = ready_handler_iff (start_http_server false) w (refl, tt) in
    (λ h. ((e.0 h).0, ((e.0 h).1.0, refl)), λ s. e.1 (s.0, (s.1.0, tt)))

health-alive :
    (has_publisher : Bool) (w : World)
    → ((health_handler (start_http_server has_publisher) w).code ≡ status_ok)
      ↔ ((w.service.running || w.starting) ≡ true)
unfolding start_http_server with_readiness with_startup starting health_handler
health-alive true w = ground arith
health-alive false w = ground arith

-- `/healthz` answers 200 exactly when a listener was started or the program is still starting, and
-- `/readyz` exactly when a listener was started, the replication slot of the PostgreSQL listener, if
-- there is one, is usable, and the publisher, if there is one, is ready,
-- whether or not another part of the program is still starting.
pub start_http_server_lem :
    (has_publisher : Bool) (w : World)
    → (((health_handler (start_http_server has_publisher) w).code ≡ status_ok)
        ↔ ((w.service.running || w.starting) ≡ true))
      × (((ready_handler (start_http_server has_publisher) w).code ≡ status_ok)
          ↔ Serves has_publisher w)
start_http_server_lem has_publisher w = (health-alive has_publisher w, ready-Serves has_publisher w)
