-- ===== src/Mysql/Offsets/Settled.antt =====
-- The boundaries of a gate that are settled, and how they stay so.
use excalibase_watcher.Mysql.CommitGate.{
  BinlogPosition, PendingCommit, CommitGate, confirmable_position, acked_count, observe_published,
  committed, hand, settled,
}
use excalibase_watcher.Mysql.CommitGate.Newest.{
  Log, Step, hands, skips, commits, acks, asks, newest,
}
use excalibase_watcher.Mysql.Offsets.{position_eq}
use excalibase_watcher.Base.{
  ℕ, ◌≤◌, ◌≡◌, refl, ◌≢◌, ◌↔◌, inl, inr, true, false, some, [], ◌∷◌, arith, leb, leb→le, Bool-cases,
  In, bytes_eq_iff,
}

pub true≢false : true ≢ false
true≢false e = ground (arith, e)

pub position_eq_iff : (p q : BinlogPosition) → (position_eq p q ≡ true) ↔ (p ≡ q)
unfolding position_eq
position_eq_iff p q = ground (arith, bytes_eq_iff p.file q.file)

-- A boundary of the log whose events are all acked.
pub record IsSettled (log : Log) (acked : ℕ) (c : PendingCommit) : Type 0 where
  pub is_in : In c log
  pub is_acked : c.last_handed ≤ acked

abbrev pub NewestSettled : ℕ → Log → BinlogPosition → Type 0
NewestSettled acked log pos = newest acked log ≡ some pos

pub record Witnessed (log : Log) (acked : ℕ) (pos : BinlogPosition) : Type 0 where
  pub entry : PendingCommit
  pub settled_entry : IsSettled log acked entry
  pub same : entry.pos ≡ pos

pub newest-Witnessed :
    (acked : ℕ) (log : Log) (pos : BinlogPosition)
    → newest acked log ≡ some pos
    → Witnessed log acked pos
unfolding newest
newest-Witnessed acked [] pos e = ground (arith, e)
newest-Witnessed acked (c ∷ log) pos e = elim (Bool-cases (leb c.last_handed acked)) [
  | inl le ↦ record {
    entry = c;
    settled_entry = record { is_in = inl refl; is_acked = leb→le c.last_handed acked le };
    same = ground (arith, e, le);
  }
  | inr gt ↦
      let w = newest-Witnessed acked log pos (ground (arith, e, gt)) in
      record {
        entry = w.entry;
        settled_entry = record {
          is_in = inr w.settled_entry.is_in;
          is_acked = w.settled_entry.is_acked;
        };
        same = w.same;
      }
]

pub step-acked :
    {log log2 : Log} {g g2 : CommitGate} → Step log g log2 g2 → acked_count g ≤ acked_count g2
unfolding acked_count observe_published committed hand confirmable_position settled
step-acked {g = g} (hands h) = ground arith
step-acked {g = g} (skips pos s) = ground (arith, s)
step-acked {g = g} (commits pos s) = ground (arith, s)
step-acked {g = g} (acks event h) = ground arith
step-acked {g = g} asks = omega arith

pub acked_count-asks : (g : CommitGate) → acked_count (confirmable_position g).0 ≡ acked_count g
unfolding acked_count confirmable_position settled
acked_count-asks g = refl

step-In :
    {log log2 : Log} {g g2 : CommitGate} (c : PendingCommit)
    → Step log g log2 g2
    → In c log
    → In c log2
step-In c (hands h) i = i
step-In c (skips pos s) i = i
step-In c (commits pos s) i = inr i
step-In c (acks event h) i = i
step-In c asks i = i

pub IsSettled-mono :
    {log log2 : Log} {g g2 : CommitGate} (c : PendingCommit)
    → Step log g log2 g2
    → IsSettled log (acked_count g) c
    → IsSettled log2 (acked_count g2) c
IsSettled-mono c s i = record {
  is_in = step-In c s i.is_in;
  is_acked = omega (arith, i.is_acked, step-acked s);
}
