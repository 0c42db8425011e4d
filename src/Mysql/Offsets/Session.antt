-- ===== src/Mysql/Offsets/Session.antt =====
-- The life of one listener, as far as its offset goes: the calls of its gate, the ticks of the saver,
-- and what its offset file holds in each state.
use excalibase_watcher.Mysql.CommitGate.{
  no_position, BinlogPosition, PendingCommit, CommitGate, confirmable_position, acked_count,
}
use excalibase_watcher.Mysql.CommitGate.Newest.{
  confirmable_position-newest, report, then_step, Run, Log, Step, asks, newest,
}
use excalibase_watcher.Mysql.Offsets.{
  rename_fails, write_fails, save_position, save, save_initial, get_start_position, completes,
  flush_final, save_confirmed_offset, load, found, resolve_start_position, Loaded, Offsets, Disk,
  Io, position_eq,
}
use excalibase_watcher.Base.{
  ℕ, ◌≡◌, refl, sym, ap, subst, ◌≢◌, ◌⊎◌, inl, inr, Bool, true, false, Option, none, some, [],
  arith, if◌then◌else◌, Bool-cases, Option-cases, Bytes,
}
use excalibase_watcher.Mysql.Offsets.Settled.{
  IsSettled, newest-Witnessed, acked_count-asks, IsSettled-mono,
}

module _ (marshal : BinlogPosition → Bytes) (unmarshal : Bytes → Option BinlogPosition) where
  abbrev pub O : Type 0
  O = Offsets marshal unmarshal

  abbrev pub loaded : Option Bytes → Loaded
  loaded stored = load marshal unmarshal true (record { stored = stored; temporary = none })

  -- What the file holds after a start at `start`, where `io` is what became of the first `Save`.
  abbrev pub Starts : Io → BinlogPosition → Option Bytes → Type 0
  Starts io start stored =
      (loaded stored ≡ found start)
      ⊎ ((stored ≡ some (marshal start)) ⊎ ((stored ≡ none) × (io ≢ completes)))

  abbrev pub Saved : O → Type 0
  Saved o = (o.saved_offset ≡ no_position) ⊎ (o.disk.stored ≡ some (marshal o.saved_offset))

  -- A listener with an offset file before it starts.
  abbrev pub fresh : CommitGate → Disk → O
  fresh g d = record { store = true; gate = g; saved_offset = no_position; disk = d }

  record Started (io : Io) (g : CommitGate) (start : BinlogPosition) (o : O) : Type 0 where
    starts : Starts io start o.disk.stored
    saved : Saved o
    same_gate : o.gate ≡ g

  some-injective : {p q : BinlogPosition} → some p ≡ some q → p ≡ q
  some-injective e = ground (arith, e)

  resolve-Started :
      (readable : Bool) (io : Io) (master : Option BinlogPosition) (g : CommitGate)
      (stored temporary : Option Bytes) (start : BinlogPosition)
      → (resolve_start_position marshal unmarshal readable io master
          (fresh g (record { stored = stored; temporary = temporary }))).1
        ≡ some start
      → Started io g start
          (resolve_start_position marshal unmarshal readable io master
            (fresh g (record { stored = stored; temporary = temporary }))).0
  unfolding resolve_start_position get_start_position save_initial save load
  resolve-Started r io none g none t start e = absurd (ground (arith, e))
  resolve-Started r (write_fails left) (some pos) g none t start e = record {
    starts = inr (inr (refl, λ q. ground (arith, q)));
    saved = inl refl;
    same_gate = refl;
  }
  resolve-Started r rename_fails (some pos) g none t start e = record {
    starts = inr (inr (refl, λ q. ground (arith, q)));
    saved = inl refl;
    same_gate = refl;
  }
  resolve-Started r completes (some pos) g none t start e = record {
    starts = inr (inl (ap (λ p. some (marshal p)) (some-injective e)));
    saved = inr refl;
    same_gate = refl;
  }
  resolve-Started false io m g (some text) t start e = absurd (ground (arith, e))
  resolve-Started true io m g (some text) t start e = elim (Option-cases (unmarshal text)) [
    | inl u ↦ absurd (ground (arith, rw (resolve_start_position, u) at e))
    | inr (pos, u) ↦
        rw (resolve_start_position, u)
          (record {
            starts = inl (rw u (ap found (some-injective (rw (resolve_start_position, u) at e))));
            saved = inl refl;
            same_gate = refl;
          })
  ]

  module _ (readable : Bool) (io : Io) (master : Option BinlogPosition) (d0 : Disk) where
    abbrev pub started : CommitGate → O × Option BinlogPosition
    started g = resolve_start_position marshal unmarshal readable io master (fresh g d0)

    -- The life of a listener that started at `start`. A crash in a call of `Save` leaves the disk as
    -- the call's failure at that point does.
    pub data Session (start : BinlogPosition) : Log → O → Type 0 where
      begins :
          {g : CommitGate} → Run [] g → (started g).1 ≡ some start → Session start [] (started g).0
      calls :
          {log log2 : Log} {o : O} {g2 : CommitGate}
          → Session start log o
          → Step log o.gate log2 g2
          → Session start log2 (record o { gate = g2 })
      ticks :
          {log : Log} {o : O} (tick : Io)
          → Session start log o
          → Session start log (save_confirmed_offset marshal unmarshal tick o).0
      stops :
          {log : Log} {o : O} (tick : Io)
          → Session start log o
          → Session start log (flush_final marshal unmarshal tick o)

    -- The file holds a boundary whose events are all acked.
    pub record Holds (log : Log) (acked : ℕ) (stored : Option Bytes) : Type 0 where
      pub entry : PendingCommit
      pub settled_entry : IsSettled log acked entry
      pub held : stored ≡ some (marshal entry.pos)

    pub record Inv (start : BinlogPosition) (log : Log) (o : O) : Type 0 where
      pub run : Run log o.gate
      pub stored : Starts io start o.disk.stored ⊎ Holds log (acked_count o.gate) o.disk.stored
      pub saved : Saved o

    begins-Inv :
        (start : BinlogPosition) (g : CommitGate)
        → Run [] g
        → (started g).1 ≡ some start
        → Inv start [] (started g).0
    begins-Inv start g r e =
        let s = resolve-Started readable io master g d0.stored d0.temporary start e in
        record { run = subst (Run []) (sym s.same_gate) r; stored = inl s.starts; saved = s.saved }

    calls-Inv :
        {log log2 : Log} (start : BinlogPosition) (o : O) (g2 : CommitGate)
        → Step log o.gate log2 g2
        → Inv start log o
        → Inv start log2 (record o { gate = g2 })
    calls-Inv start o g2 s i = record {
      run = then_step i.run s;
      stored = elim i.stored [
        | inl a ↦ inl a
        | inr h ↦ inr (record {
          entry = h.entry;
          settled_entry = IsSettled-mono h.entry s h.settled_entry;
          held = h.held;
        })
      ];
      saved = i.saved;
    }

    -- A save whose file is not replaced.
    same-Inv :
        {log : Log} (start : BinlogPosition) (temporary : Option Bytes) (o : O)
        → Inv start log o
        → Inv start log (record o { disk = record (o.disk) { temporary = temporary } })
    same-Inv start temporary o i = record { run = i.run; stored = i.stored; saved = i.saved }

    abbrev saves : Io → BinlogPosition → O → O × Bool
    saves tick pos o =
        let (disk, saved) = save marshal unmarshal tick o.disk pos in
        if saved
        then (record o { disk = disk; saved_offset = pos }, true)
        else (record o { disk = disk }, false)

    -- A call of `Save` with a settled boundary, whatever becomes of it.
    save_position-Inv :
        {log : Log} (start : BinlogPosition) (tick : Io) (answer : Option BinlogPosition) (o : O)
        → newest (acked_count o.gate) log ≡ answer
        → Inv start log o
        → Inv start log (save_position marshal unmarshal tick (report answer) o).0
    unfolding save_position save
    save_position-Inv start tick none o e i = i
    save_position-Inv {log} start tick (some pos) o e i =
        elim (Bool-cases (position_eq pos o.saved_offset)) [
          | inl same ↦ rw same i
          | inr moved ↦ rw moved (moved_on tick)
        ]
      where
        moved_on : (tick : Io) → Inv start log (saves tick pos o).0
        moved_on (write_fails left) = same-Inv start left o i
        moved_on rename_fails = same-Inv start (some (marshal pos)) o i
        moved_on completes =
            let w = newest-Witnessed (acked_count o.gate) log pos e in
            record {
              run = i.run;
              stored = inr (record {
                entry = w.entry;
                settled_entry = w.settled_entry;
                held = ap (λ p. some (marshal p)) (sym w.same);
              });
              saved = inr refl;
            }

    save_confirmed_offset-Inv :
        {log : Log} (start : BinlogPosition) (tick : Io) (o : O)
        → Inv start log o
        → Inv start log (save_confirmed_offset marshal unmarshal tick o).0
    unfolding save_confirmed_offset
    save_confirmed_offset-Inv {log} start tick o i =
        let g = (confirmable_position o.gate).0 in
        let asked = calls-Inv start o g asks i in
        subst
          (λ (answer : BinlogPosition × Bool).
            Inv start log (save_position marshal unmarshal tick answer (record o { gate = g })).0)
          (sym (confirmable_position-newest i.run))
          (save_position-Inv start tick (newest (acked_count o.gate) log) (record o { gate = g })
            (ap (λ (n : ℕ). newest n log) (acked_count-asks o.gate)) asked)

    if-Inv :
        {log : Log} (start : BinlogPosition) (b : Bool) (o p : O)
        → Inv start log o
        → Inv start log p
        → Inv start log (if b then o else p)
    if-Inv start true o p i k = i
    if-Inv start false o p i k = k

    flush_final-Inv :
        {log : Log} (start : BinlogPosition) (tick : Io) (o : O)
        → Inv start log o
        → Inv start log (flush_final marshal unmarshal tick o)
    unfolding flush_final
    flush_final-Inv start tick o i =
        if-Inv start o.store (save_confirmed_offset marshal unmarshal tick o).0 o
          (save_confirmed_offset-Inv start tick o i) i

    pub session-Inv :
        (start : BinlogPosition) {log : Log} {o : O} → Session start log o → Inv start log o
    session-Inv start (begins {g} r e) = begins-Inv start g r e
    session-Inv start (calls {o = o} {g2 = g2} s c) = calls-Inv start o g2 c (session-Inv start s)
    session-Inv start (ticks {o = o} tick s) =
        save_confirmed_offset-Inv start tick o (session-Inv start s)
    session-Inv start (stops {o = o} tick s) = flush_final-Inv start tick o (session-Inv start s)
