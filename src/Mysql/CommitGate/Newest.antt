-- ===== src/Mysql/CommitGate/Newest.antt =====
-- What the gate reports: the newest transaction boundary of its whole history whose events are all
-- acked. `Run` is the gate's history from its wiring on.
use excalibase_watcher.Base.{
  ap, ◌∙◌, ◌+◌, ◌<◌, u64_mod, Bool, true, not, inl, inr, Bool-cases, IfSome, is_empty, ◌%◌, ℕ, ◌≤◌,
  ◌≡◌, refl, false, Option, none, some, List, [], ◌∷◌, arith, leb, if◌then◌else◌, All,
}
use excalibase_watcher.Cdc.Event.{Event}
use excalibase_watcher.Mysql.CommitGate.{
  enable, new_commit_gate, hand, committed, observe_published, own_event, acked_count, settled,
  confirmable_position, no_position, not_resumable, BinlogPosition, PendingCommit, CommitGate,
  push_commit, settle_commits,
}

-- The boundaries of a history, newest first.
abbrev pub Log : Type 0
Log = List PendingCommit

abbrev pub boundary : CommitGate → BinlogPosition → PendingCommit
boundary g pos = record { last_handed = g.handed; pos = pos }

-- One call of the gate. A call of `Confirmable` may come at any time.
pub data Step : Log → CommitGate → Log → CommitGate → Type 0 where
  hands : {log : Log} {g : CommitGate} → g.handed + 1 < u64_mod → Step log g log (hand g)
  skips :
      {log : Log} {g : CommitGate} (pos : BinlogPosition)
      → not_resumable pos ≡ true
      → Step log g log (committed g pos)
  commits :
      {log : Log} {g : CommitGate} (pos : BinlogPosition)
      → not_resumable pos ≡ false
      → Step log g (boundary g pos ∷ log) (committed g pos)
  acks :
      {log : Log} {g : CommitGate} (event : Event)
      → g.acked + 1 < u64_mod
      → Step log g log (observe_published g event)
  asks : {log : Log} {g : CommitGate} → Step log g log (confirmable_position g).0

pub data Run : Log → CommitGate → Type 0 where
  ungated : Run [] new_commit_gate
  gated : Run [] (enable new_commit_gate)
  then_step : {log log2 : Log} {g g2 : CommitGate} → Run log g → Step log g log2 g2 → Run log2 g2

-- The newest boundary whose events are among the first `acked` ones.
unfoldable pub newest : ℕ → Log → Option BinlogPosition
newest acked [] = none
newest acked (c ∷ log) = if leb c.last_handed acked then some c.pos else newest acked log

abbrev pub position_of : Option BinlogPosition → BinlogPosition
position_of none = no_position
position_of (some pos) = pos

-- What `Confirmable` returns for it.
abbrev pub report : Option BinlogPosition → BinlogPosition × Bool
report none = (no_position, false)
report (some pos) = (pos, true)

abbrev Behind : ℕ → PendingCommit → Type 0
Behind handed c = c.last_handed ≤ handed

record Inv (log : Log) (g : CommitGate) : Type 0 where
  behind : All (Behind g.handed) g.commits
  resumable : All (λ c. not_resumable c.pos ≡ false) log
  tracks :
      (a : ℕ)
      → acked_count g ≤ a
      → (settle_commits a g.confirmable g.commits).0 ≡ position_of (newest a log)

Behind-mono : (h k : ℕ) (cs : List PendingCommit) → h ≤ k → All (Behind h) cs → All (Behind k) cs
Behind-mono h k [] le b = tt
Behind-mono h k (c ∷ cs) le b = (ground (arith, b), Behind-mono h k cs le b.1)

push-Behind :
    (h : ℕ) (pos : BinlogPosition) (cs : List PendingCommit)
    → All (Behind h) cs
    → All (Behind h) (push_commit h pos cs)
unfolding push_commit
push-Behind h pos [] b = (ground arith, tt)
push-Behind h pos (c ∷ []) b = ground (arith, b)
push-Behind h pos (c ∷ d ∷ cs) b = (b.0, push-Behind h pos (d ∷ cs) b.1)

-- A boundary that waits on the newest event is picked exactly when that event is acked.
settle-push :
    (a h : ℕ) (conf pos : BinlogPosition) (cs : List PendingCommit)
    → All (Behind h) cs
    → (settle_commits a conf (push_commit h pos cs)).0
      ≡ (if leb h a then pos else (settle_commits a conf cs).0)
unfolding push_commit settle_commits
settle-push a h conf pos [] b = ground arith
settle-push a h conf pos (c ∷ []) b = ground (arith, b)
settle-push a h conf pos (c ∷ d ∷ cs) b =
    ground (arith, b.0, settle-push a h c.pos pos (d ∷ cs) b.1)

settle-Behind :
    (a h : ℕ) (conf : BinlogPosition) (cs : List PendingCommit)
    → All (Behind h) cs
    → All (Behind h) (settle_commits a conf cs).1
unfolding settle_commits
settle-Behind a h conf [] b = tt
settle-Behind a h conf (c ∷ cs) b = ground (arith, b, settle-Behind a h c.pos cs b.1)

-- To settle at `a` and later at `b` is to settle at `b`.
settle-settle :
    (a b : ℕ) (conf : BinlogPosition) (cs : List PendingCommit)
    → a ≤ b
    → (settle_commits b (settle_commits a conf cs).0 (settle_commits a conf cs).1).0
      ≡ (settle_commits b conf cs).0
unfolding settle_commits
settle-settle a b conf [] le = refl
settle-settle a b conf (c ∷ cs) le = ground (arith, settle-settle a b c.pos cs le)

newest-resumable :
    (a : ℕ) (log : Log)
    → All (λ c. not_resumable c.pos ≡ false) log
    → IfSome (λ pos. not_resumable pos ≡ false) (newest a log)
unfolding newest
newest-resumable a [] r = tt
newest-resumable a (c ∷ log) r = ground (arith, r, newest-resumable a log r.1)

start-Inv : (b : Bool) → Inv [] (record new_commit_gate { gated = b })
unfolding settle_commits newest
start-Inv b = record { behind = tt; resumable = tt; tracks = λ a le. refl }

position-if :
    (b : Bool) (pos : BinlogPosition) (o : Option BinlogPosition)
    → (if b then pos else position_of o) ≡ position_of (if b then some pos else o)
position-if false pos o = refl
position-if true pos o = refl

push-newest :
    (log : Log) (g : CommitGate) (pos : BinlogPosition)
    → Inv log g
    → (a : ℕ) → acked_count g ≤ a
    → (settle_commits a g.confirmable (push_commit g.handed pos g.commits)).0
      ≡ position_of (newest a (boundary g pos ∷ log))
unfolding newest
push-newest log g pos i a le =
    settle-push a g.handed g.confirmable pos g.commits i.behind
    ∙ rw (i.tracks a le) (position-if (leb g.handed a) pos (newest a log))

pushed-Inv :
    (log : Log) (g : CommitGate) (pos : BinlogPosition)
    → not_resumable pos ≡ false
    → Inv log g
    → Inv (boundary g pos ∷ log) (record g { commits = push_commit g.handed pos g.commits })
unfolding acked_count
pushed-Inv log g pos r i = record {
  behind = push-Behind g.handed pos g.commits i.behind;
  resumable = (r, i.resumable);
  tracks = push-newest log g pos i;
}

commits-Inv :
    (log : Log) (g : CommitGate) (pos : BinlogPosition)
    → not_resumable pos ≡ false
    → Inv log g
    → Inv (boundary g pos ∷ log) (committed g pos)
unfolding committed
commits-Inv log g pos r i = rw r (pushed-Inv log g pos r i)

hand-Inv : (log : Log) (g : CommitGate) → g.handed + 1 < u64_mod → Inv log g → Inv log (hand g)
unfolding hand acked_count
hand-Inv log g h i = record {
  behind = Behind-mono g.handed ((g.handed + 1) % u64_mod) g.commits (omega arith) i.behind;
  resumable = i.resumable;
  tracks = λ a le. i.tracks a (ground arith);
}

ack-Inv :
    (log : Log) (g : CommitGate) (event : Event)
    → g.acked + 1 < u64_mod
    → Inv log g
    → Inv log (observe_published g event)
unfolding observe_published acked_count
ack-Inv log g event h i = elim (Bool-cases (own_event event)) [
  | inl own ↦ rw own (record {
    behind = i.behind;
    resumable = i.resumable;
    tracks = λ a le. i.tracks a (ground arith);
  })
  | inr foreign ↦ rw foreign i
]

settled-Inv : (log : Log) (g : CommitGate) → Inv log g → Inv log (settled g)
unfolding settled
settled-Inv log g i = record {
  behind = settle-Behind (acked_count g) g.handed g.confirmable g.commits i.behind;
  resumable = i.resumable;
  tracks = λ a le. settle-settle (acked_count g) a g.confirmable g.commits le ∙ i.tracks a le;
}

step-Inv : {log log2 : Log} {g g2 : CommitGate} → Step log g log2 g2 → Inv log g → Inv log2 g2
unfolding confirmable_position committed
step-Inv (hands h) i = hand-Inv _ _ h i
step-Inv (skips pos s) i = rw s i
step-Inv (commits pos s) i = commits-Inv _ _ pos s i
step-Inv (acks event h) i = ack-Inv _ _ event h i
step-Inv asks i = settled-Inv _ _ i

run-Inv : {log : Log} {g : CommitGate} → Run log g → Inv log g
unfolding enable
run-Inv ungated = start-Inv false
run-Inv gated = start-Inv true
run-Inv (then_step r s) = step-Inv s (run-Inv r)

-- A reported boundary lies in a file, behind its first event.
pub newest-Resumable :
    {log : Log} {g : CommitGate}
    → Run log g
    → (acked : ℕ) → IfSome (λ pos. not_resumable pos ≡ false) (newest acked log)
newest-Resumable r acked = newest-resumable acked _ (run-Inv r).resumable

report-flag :
    (o : Option BinlogPosition)
    → IfSome (λ pos. not_resumable pos ≡ false) o
    → (position_of o, not (is_empty (position_of o).file)) ≡ report o
unfolding not_resumable is_empty
report-flag none h = refl
report-flag (some pos) h = ground (arith, h)

-- In every history of the gate, as long as its counters do not wrap around, `Confirmable` reports
-- the newest boundary of the history for which every event handed before it is acked, and reports
-- that there is none exactly when there is none.
pub confirmable_position-newest :
    {log : Log} {g : CommitGate}
    → Run log g
    → (confirmable_position g).1 ≡ report (newest (acked_count g) log)
unfolding confirmable_position settled
confirmable_position-newest {log} {g} r =
    let i = run-Inv r in
    ap (λ p. (p, not (is_empty p.file))) (i.tracks (acked_count g) (omega arith))
    ∙ report-flag (newest (acked_count g) log) (newest-resumable (acked_count g) log i.resumable)
