-- ===== src/Tests/Nats.antt =====
-- The publisher at concrete inputs.
use excalibase_watcher.Nats.Publisher.Progress.{Out, recovering, publish_loop-Out}
use excalibase_watcher.Base.{
  doublings, ℕ, ◌-◌, ◌*◌, ◌/◌, ◌^◌, ◌≤◌, min, ◌≡◌, refl, none, some, List, [], ◌∷◌, ◌++◌, arith,
  Bytes, codes,
}
use excalibase_watcher.Cdc.Event.{is_publishable, Event, insert, new_event}
use excalibase_watcher.Nats.Subject.{
  build_subject, IsToken, build_subject-IsToken, message_id-injective,
}
use excalibase_watcher.Nats.Backoff.{default_backoff, delay, delay_bounds}
use excalibase_watcher.Nats.Publisher.{
  max_retry_delay, Attempt, acked, rejected_size, failed_waited, lost_reconnected, Publisher,
  publish_with_retry, publish_loop, stripped, default_retry_base_delay,
}
use excalibase_watcher.Nats.Publisher.Delivery.{
  waited, publishables, publish_with_retry-acked, Prefix, publish_loop-Prefix,
}

build_subject-IsToken_example :
    (s : Bytes) × (t : Bytes) × (build_subject (codes "cdc") (codes "a.b") []
      ≡ codes "cdc" ++ (b'.' ∷ (s ++ (b'.' ∷ t))))
    × IsToken s
    × IsToken t
    × (IsToken (codes "a.b") → s ≡ codes "a.b")
    × (IsToken [] → t ≡ [])
build_subject-IsToken_example = build_subject-IsToken (codes "cdc") (codes "a.b") []

abbrev row : Event
row =
    record (new_event 5 insert (codes "public") (codes "users") (codes "{}") (codes "INSERT") []) {
      source_id = codes "pg:0/5A:0";
    }

message_id-injective_example : row.source_id ≡ row.source_id
message_id-injective_example =
    message_id-injective (codes "cdc") (codes "x") (codes "x") row row (λ e. cc) (λ e. cc) refl

-- A random source that gives the largest number it may.
abbrev largest : ℕ → ℕ
largest n = n - 1

delay_bounds_example :
    (min (500 * 2 ^ (3 - 1)) 30000 / 2 ≤ delay default_backoff largest 3)
    × (delay default_backoff largest 3 ≤ min (500 * 2 ^ (3 - 1)) 30000)
delay_bounds_example = delay_bounds default_backoff largest 3 (λ n h. omega arith)

abbrev troubles : List Attempt
troubles = failed_waited ∷ lost_reconnected ∷ failed_waited ∷ []

publish_with_retry-acked_example :
    publish_with_retry default_retry_base_delay (troubles ++ acked ∷ [])
    ≡ some (record {
      result = none;
      delays = doublings max_retry_delay default_retry_base_delay (waited troubles);
      left = [];
    })
publish_with_retry-acked_example =
    publish_with_retry-acked default_retry_base_delay troubles [] (tt, (tt, (tt, tt)))

abbrev publisher : Publisher
publisher = record { last_acked_lsn = []; observed = []; stored = [] }

-- A row that is too large, and one that is not.
abbrev attempts : List Attempt
attempts = rejected_size ∷ acked ∷ failed_waited ∷ acked ∷ []

publish_loop-Prefix_example :
    Prefix stripped
      (row ∷ row ∷ [])
      publisher
      (publish_loop stripped publisher (row ∷ row ∷ []) attempts)
publish_loop-Prefix_example =
    publish_loop-Prefix stripped (row ∷ row ∷ []) publisher attempts (omega arith, tt)

-- Trouble before the first row, and none before the second one.
publish_loop-Out_example :
    Out publisher
      (publishables (row ∷ row ∷ []))
      (publish_loop stripped publisher (row ∷ row ∷ []) (recovering (troubles ∷ [] ∷ [])))
unfolding is_publishable
publish_loop-Out_example =
    publish_loop-Out stripped (row ∷ row ∷ []) publisher (troubles ∷ [] ∷ [])
      ((tt, (tt, (tt, tt))), (tt, tt)) refl
