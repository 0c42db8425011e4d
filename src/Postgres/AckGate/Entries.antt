-- ===== src/Postgres/AckGate/Entries.antt =====
-- The entries that wait in `ackGate.commits`, seen from one committed transaction `c`: its end LSN,
-- and the number of the last event handed before its commit.
use excalibase_watcher.Base.{ℕ, suc, ◌≤◌, ◌<◌, max, List, [], ◌∷◌, ◌≡◌, ◌⊎◌, inl, inr, arith}
use excalibase_watcher.Postgres.AckGate.{PendingCommit, push_commit, settle_commits}

-- An entry waits on the same change and ends no earlier.
abbrev pub Waits : PendingCommit → List PendingCommit → Type 0
Waits c [] = ⊥
Waits c (d ∷ ds) = ((d.last_sequence ≡ c.last_sequence) × (c.end ≤ d.end)) ⊎ Waits c ds

-- A position from here on would confirm `c` only with all that it waits for.
abbrev pub Guards : PendingCommit → List PendingCommit → Type 0
Guards c [] = Unit {0}
Guards c (d ∷ ds) = (c.end ≤ d.end → c.last_sequence ≤ d.last_sequence) × Guards c ds

abbrev pub Increasing : ℕ → List PendingCommit → Type 0
Increasing lo [] = Unit {0}
Increasing lo (d ∷ ds) = (lo ≤ d.last_sequence) × Increasing (suc d.last_sequence) ds

-- No entry is beyond what was handed and what was seen of the stream.
abbrev pub Within : ℕ → ℕ → List PendingCommit → Type 0
Within handed high [] = Unit {0}
Within handed high (d ∷ ds) = (d.last_sequence ≤ handed) × (d.end ≤ high) × Within handed high ds

module _ (handed end : ℕ) where
  pub push-Waits :
      (c : PendingCommit) (ds : List PendingCommit)
      → Waits c ds
      → Waits c (push_commit handed end ds)
  unfolding push_commit
  push-Waits c [] w = absurd w
  push-Waits c (d ∷ []) w = ground arith
  push-Waits c (d ∷ e ∷ ds) (inl w) = inl w
  push-Waits c (d ∷ e ∷ ds) (inr w) = inr (push-Waits c (e ∷ ds) w)

  pub push-Waits_self :
      (c : PendingCommit) (ds : List PendingCommit)
      → c.last_sequence ≡ handed
      → c.end ≡ end
      → Waits c (push_commit handed end ds)
  unfolding push_commit
  push-Waits_self c [] h k = ground arith
  push-Waits_self c (d ∷ []) h k = ground arith
  push-Waits_self c (d ∷ e ∷ ds) h k = inr (push-Waits_self c (e ∷ ds) h k)

  -- An old commit: the position offered now lies behind it, or it waits for no more.
  pub push-Guards :
      (c : PendingCommit) (ds : List PendingCommit)
      → c.last_sequence ≤ handed
      → Guards c ds
      → Guards c (push_commit handed end ds)
  unfolding push_commit
  push-Guards c [] h g = (λ _. h, tt)
  push-Guards c (d ∷ []) h g = ground arith
  push-Guards c (d ∷ e ∷ ds) h g = (g.0, push-Guards c (e ∷ ds) h g.1)

  -- The new commit: every older entry ends before it.
  pub push-Guards_self :
      (c : PendingCommit) (ds : List PendingCommit) (high : ℕ)
      → c.last_sequence ≡ handed
      → c.end ≡ end
      → high < end
      → Within handed high ds
      → Guards c (push_commit handed end ds)
  unfolding push_commit
  push-Guards_self c [] high h k l w = ground arith
  push-Guards_self c (d ∷ []) high h k l w = ground arith
  push-Guards_self c (d ∷ e ∷ ds) high h k l w =
      (λ q. absurd (omega arith), push-Guards_self c (e ∷ ds) high h k l w.2)

  pub push-Increasing :
      (lo high : ℕ) (ds : List PendingCommit)
      → lo ≤ handed
      → Increasing lo ds
      → Within handed high ds
      → Increasing lo (push_commit handed end ds)
  unfolding push_commit
  push-Increasing lo high [] h i w = ground arith
  push-Increasing lo high (d ∷ []) h i w = ground arith
  push-Increasing lo high (d ∷ e ∷ ds) h i w =
      (i.0, push-Increasing (suc d.last_sequence) high (e ∷ ds) (omega arith) i.1 w.2)

  pub push-Within :
      (high high' : ℕ) (ds : List PendingCommit)
      → high ≤ high'
      → end ≤ high'
      → Within handed high ds
      → Within handed high' (push_commit handed end ds)
  unfolding push_commit
  push-Within high high' [] h k w = ground arith
  push-Within high high' (d ∷ []) h k w = ground arith
  push-Within high high' (d ∷ e ∷ ds) h k w =
      (w.0, omega arith, push-Within high high' (e ∷ ds) h k w.2)

pub Within-mono :
    (handed handed' high high' : ℕ) (ds : List PendingCommit)
    → handed ≤ handed'
    → high ≤ high'
    → Within handed high ds
    → Within handed' high' ds
Within-mono handed handed' high high' [] h k w = tt
Within-mono handed handed' high high' (d ∷ ds) h k w =
    (omega arith, omega arith, Within-mono handed handed' high high' ds h k w.2)

Increasing-mono :
    (lo lo' : ℕ) (ds : List PendingCommit) → lo' ≤ lo → Increasing lo ds → Increasing lo' ds
Increasing-mono lo lo' [] h i = tt
Increasing-mono lo lo' (d ∷ ds) h i = (omega arith, i.1)

Waits-le :
    (c : PendingCommit) (lo : ℕ) (ds : List PendingCommit)
    → Increasing lo ds
    → Waits c ds
    → lo ≤ c.last_sequence
Waits-le c lo [] i w = absurd w
Waits-le c lo (d ∷ ds) i (inl w) = omega arith
Waits-le c lo (d ∷ ds) i (inr w) = omega (arith, Waits-le c (suc d.last_sequence) ds i.1 w)

module _ (acked : ℕ) where
  pub settle-le :
      (confirmable : ℕ) (ds : List PendingCommit)
      → confirmable ≤ (settle_commits acked confirmable ds).0
  unfolding settle_commits
  settle-le confirmable [] = omega arith
  settle-le confirmable (d ∷ ds) = ground (arith, settle-le (max confirmable d.end) ds)

  -- A commit that waits is confirmed, or it still waits, and then for an ack.
  pub settle-Waits :
      (c : PendingCommit) (lo confirmable : ℕ) (ds : List PendingCommit)
      → Increasing lo ds
      → Waits c ds
      → (c.end ≤ (settle_commits acked confirmable ds).0)
        ⊎ (Waits c (settle_commits acked confirmable ds).1 × (acked < c.last_sequence))
  unfolding settle_commits
  settle-Waits c lo confirmable [] i w = absurd w
  settle-Waits c lo confirmable (d ∷ ds) i (inl w) =
      ground (arith, settle-le (max confirmable d.end) ds)
  settle-Waits c lo confirmable (d ∷ ds) i (inr w) = ground (
    arith,
    Waits-le c (suc d.last_sequence) ds i.1 w,
    settle-Waits c (suc d.last_sequence) (max confirmable d.end) ds i.1 w,
  )

  -- Settling moves the position past `c` only when all that it waits for is acked.
  pub settle-Guards :
      (c : PendingCommit) (confirmable : ℕ) (ds : List PendingCommit)
      → (c.end ≤ confirmable → c.last_sequence ≤ acked)
      → Guards c ds
      → (c.end ≤ (settle_commits acked confirmable ds).0 → c.last_sequence ≤ acked)
        × Guards c (settle_commits acked confirmable ds).1
  unfolding settle_commits
  settle-Guards c confirmable [] h g = (h, tt)
  settle-Guards c confirmable (d ∷ ds) h g =
      ground (arith, settle-Guards c (max confirmable d.end) ds)

  pub settle-Increasing :
      (lo confirmable : ℕ) (ds : List PendingCommit)
      → Increasing lo ds
      → Increasing lo (settle_commits acked confirmable ds).1
  unfolding settle_commits
  settle-Increasing lo confirmable [] i = tt
  settle-Increasing lo confirmable (d ∷ ds) i = ground (
    arith,
    settle-Increasing lo (max confirmable d.end) ds
        (Increasing-mono (suc d.last_sequence) lo ds (omega arith) i.1),
  )

  pub settle-Within :
      (handed high confirmable : ℕ) (ds : List PendingCommit)
      → confirmable ≤ high
      → Within handed high ds
      → ((settle_commits acked confirmable ds).0 ≤ high)
        × Within handed high (settle_commits acked confirmable ds).1
  unfolding settle_commits
  settle-Within handed high confirmable [] h w = (h, tt)
  settle-Within handed high confirmable (d ∷ ds) h w =
      ground (arith, settle-Within handed high (max confirmable d.end) ds)
