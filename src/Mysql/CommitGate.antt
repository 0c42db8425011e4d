-- ===== src/Mysql/CommitGate.antt =====
-- internal/mysql/ackgate.go: which binlog position may be saved as the resume offset.
-- The counters are 64 bits wide and wrap around as `uint64` does.
pub mod Newest
use excalibase_watcher.Base.{
  ℕ, ◌+◌, ◌%◌, Bool, true, false, not, ◌&&◌, ◌||◌, List, [], ◌∷◌, ltb, ◌==◌, if◌then◌else◌, u64_mod,
  Bytes, codes, is_empty,
}
use excalibase_watcher.Cdc.Event.{Event, is_publishable}

pub record BinlogPosition : Type 0 where
  pub file : Bytes
  pub position : ℕ

abbrev pub no_position : BinlogPosition
no_position = record { file = []; position = 0 }

pub record PendingCommit : Type 0 where
  pub last_handed : ℕ
  pub pos : BinlogPosition

pub record CommitGate : Type 0 where
  pub gated : Bool
  pub acked : ℕ
  pub handed : ℕ
  pub commits : List PendingCommit
  pub confirmable : BinlogPosition

abbrev pub new_commit_gate : CommitGate
new_commit_gate = record {
  gated = false;
  acked = 0;
  handed = 0;
  commits = [];
  confirmable = no_position;
}

unfoldable pub enable : CommitGate → CommitGate
enable g = record g { gated = true }

unfoldable pub hand : CommitGate → CommitGate
hand g = record g { handed = (g.handed + 1) % u64_mod }

abbrev min_binlog_position : ℕ
min_binlog_position = 4

-- The guard of `Committed`: no file, or a position before a file's first event.
unfoldable pub not_resumable : BinlogPosition → Bool
unfolding is_empty
not_resumable pos = is_empty pos.file || ltb pos.position min_binlog_position

-- `Committed` on the list of entries: the last one is replaced when it waits on the same event.
pub push_commit : ℕ → BinlogPosition → List PendingCommit → List PendingCommit
push_commit handed pos [] = record { last_handed = handed; pos = pos } ∷ []
push_commit handed pos (c ∷ []) =
    if c.last_handed == handed
    then record c { pos = pos } ∷ []
    else c ∷ record { last_handed = handed; pos = pos } ∷ []
push_commit handed pos (c ∷ d ∷ cs) = c ∷ push_commit handed pos (d ∷ cs)

unfoldable pub committed : CommitGate → BinlogPosition → CommitGate
unfolding not_resumable push_commit
committed g pos =
    if not_resumable pos then g else record g { commits = push_commit g.handed pos g.commits }

-- `strings.HasPrefix`, with the prefix first.
unfoldable pub has_prefix : Bytes → Bytes → Bool
has_prefix [] s = true
has_prefix (_ ∷ _) [] = false
has_prefix (c ∷ p) (d ∷ s) = c == d && has_prefix p s

abbrev pub source_prefix : Bytes
source_prefix = codes "mysql:"

unfoldable pub own_event : Event → Bool
unfolding has_prefix is_publishable
own_event event = has_prefix source_prefix event.source_id && is_publishable event.type

unfoldable pub observe_published : CommitGate → Event → CommitGate
unfolding own_event
observe_published g event =
    if own_event event then record g { acked = (g.acked + 1) % u64_mod } else g

unfoldable pub acked_count : CommitGate → ℕ
acked_count g = if g.gated then g.acked else g.handed

-- The loop of `Confirmable`: the newest settled boundary and the entries that stay.
pub settle_commits : ℕ → BinlogPosition → List PendingCommit → BinlogPosition × List PendingCommit
settle_commits acked confirmable [] = (confirmable, [])
settle_commits acked confirmable (c ∷ cs) =
    let rest = settle_commits acked c.pos cs in
    if ltb acked c.last_handed then (confirmable, c ∷ cs) else rest

unfoldable pub settled : CommitGate → CommitGate
unfolding settle_commits acked_count
settled g =
    let (pos, commits) = settle_commits (acked_count g) g.confirmable g.commits in
    record g { confirmable = pos; commits = commits }

-- `Confirmable`; the Boolean says whether there is a position at all.
unfoldable pub confirmable_position : CommitGate → CommitGate × (BinlogPosition × Bool)
unfolding settled is_empty
confirmable_position g =
    let s = settled g in (s, (s.confirmable, not (is_empty s.confirmable.file)))
