-- ===== src/Postgres/AckGate.antt =====
-- internal/postgres/ackgate.go: which LSN may be confirmed to the primary.
-- An LSN is a number. The counters are 64 bits wide; `handed` wraps around as `uint64` does.
-- `storeMax` is one step: its loop ends with the larger of the two values stored.
pub mod Entries
pub mod Invariant
use excalibase_watcher.Base.{
  ℕ, ◌+◌, ◌-◌, ◌%◌, max, Bool, true, false, ◌||◌, List, [], ◌∷◌, ltb, ◌==◌, if◌then◌else◌, u64_mod,
}
use excalibase_watcher.Cdc.Event.{Event}

pub record PendingCommit : Type 0 where
  pub last_sequence : ℕ
  pub end : ℕ

pub record AckGate : Type 0 where
  pub gated : Bool
  pub acked : ℕ
  pub handed : ℕ
  pub in_txn : Bool
  pub commits : List PendingCommit
  pub confirmable : ℕ

abbrev pub new_ack_gate : AckGate
new_ack_gate = record {
  gated = false;
  acked = 0;
  handed = 0;
  in_txn = false;
  commits = [];
  confirmable = 0;
}

unfoldable pub enable : AckGate → AckGate
enable g = record g { gated = true }

unfoldable pub begin_txn : AckGate → AckGate
begin_txn g = record g { in_txn = true }

abbrev next_handed : AckGate → ℕ
next_handed g = (g.handed + 1) % u64_mod

-- `Hand` numbers the event.
unfoldable pub hand : AckGate → Event → AckGate × Event
hand g event = (record g { handed = next_handed g }, record event { sequence = next_handed g })

unfoldable pub unhand : AckGate → AckGate
unhand g = record g { handed = (g.handed + u64_mod - 1) % u64_mod }

-- `Committed` on the list of entries: the last one is widened when it waits on the same change.
pub push_commit : ℕ → ℕ → List PendingCommit → List PendingCommit
push_commit handed end [] = record { last_sequence = handed; end = end } ∷ []
push_commit handed end (c ∷ []) =
    if c.last_sequence == handed
    then record c { end = max c.end end } ∷ []
    else c ∷ record { last_sequence = handed; end = end } ∷ []
push_commit handed end (c ∷ d ∷ cs) = c ∷ push_commit handed end (d ∷ cs)

unfoldable pub committed : AckGate → ℕ → AckGate
unfolding push_commit
committed g end = record g { in_txn = false; commits = push_commit g.handed end g.commits }

unfoldable pub new_session : AckGate → AckGate
new_session g = record g { in_txn = false }

pub acked_sequence : AckGate → ℕ
acked_sequence g = if g.gated then g.acked else g.handed

-- The loop of `settle`: the confirmable position and the entries that stay.
pub settle_commits : ℕ → ℕ → List PendingCommit → ℕ × List PendingCommit
settle_commits acked confirmable [] = (confirmable, [])
settle_commits acked confirmable (c ∷ cs) =
    let rest = settle_commits acked (max confirmable c.end) cs in
    if ltb acked c.last_sequence then (confirmable, c ∷ cs) else rest

unfoldable pub settle : AckGate → AckGate
unfolding settle_commits acked_sequence
settle g =
    let (confirmable, commits) = settle_commits (acked_sequence g) g.confirmable g.commits in
    record g { confirmable = confirmable; commits = commits }

unfoldable pub pending : AckGate → Bool
unfolding acked_sequence
pending g = ltb (acked_sequence g) g.handed

abbrev some_left : List PendingCommit → Bool
some_left [] = false
some_left (_ ∷ _) = true

-- The rest of `Idle`, behind its call of `settle`.
pub idle_settled : AckGate → ℕ → AckGate
unfolding pending
idle_settled g position =
    if g.in_txn || some_left g.commits || pending g
    then g
    else record g { confirmable = max g.confirmable position }

unfoldable pub idle : AckGate → ℕ → AckGate
unfolding settle idle_settled
idle g position = idle_settled (settle g) position

unfoldable pub observe_published : AckGate → Event → AckGate
observe_published g event =
    if event.sequence == 0 then g else record g { acked = max g.acked event.sequence }

-- `Flush` settles and returns the confirmable position.
unfoldable pub flush : AckGate → AckGate × ℕ
unfolding settle
flush g = let s = settle g in (s, s.confirmable)
