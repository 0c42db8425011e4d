-- ===== src/Mysql/Offsets/Resume.antt =====
-- Where a listener resumes after it stopped or crashed at any point, and when the file of its offset is
-- up to date.
use excalibase_watcher.Mysql.CommitGate.{
  not_resumable, BinlogPosition, PendingCommit, confirmable_position, acked_count,
}
use excalibase_watcher.Mysql.CommitGate.Newest.{
  newest-Resumable, confirmable_position-newest, report, Log, newest,
}
use excalibase_watcher.Mysql.Offsets.{
  absent, save_position, save, completes, save_confirmed_offset, load, found, Disk, Io, position_eq,
}
use excalibase_watcher.Base.{
  ℕ, ◌≡◌, refl, sym, ap, ◌∙◌, ◌≢◌, ◌⊎◌, inl, inr, Bool, true, false, Option, none, some, Bool-cases,
  All, All-In, Bytes, IfSome,
}
use excalibase_watcher.Mysql.Offsets.Settled.{true≢false, position_eq_iff, IsSettled}
use excalibase_watcher.Mysql.Offsets.Session.{O, loaded, Saved, Session, Holds, session-Inv}

module _ (marshal : BinlogPosition → Bytes) (unmarshal : Bytes → Option BinlogPosition) where
  module _ (readable : Bool) (io : Io) (master : Option BinlogPosition) (d0 : Disk) where
    loaded-marshal :
        (stored : Option Bytes) (pos : BinlogPosition)
        → stored ≡ some (marshal pos)
        → unmarshal (marshal pos) ≡ some pos
        → loaded marshal unmarshal stored ≡ found pos
    unfolding load
    loaded-marshal stored pos e u = rw (e, u) refl

    Holds-resumes :
        (log : Log) (acked : ℕ) (stored : Option Bytes)
        (h : Holds marshal unmarshal readable io master d0 log acked stored)
        → All (λ c. unmarshal (marshal c.pos) ≡ some c.pos) log
        → IsSettled log acked h.entry × (loaded marshal unmarshal stored ≡ found h.entry.pos)
    Holds-resumes log acked stored h codecs = (
      h.settled_entry,
      loaded-marshal stored h.entry.pos h.held (
          All-In (λ (c : PendingCommit). unmarshal (marshal c.pos) ≡ some c.pos) log h.entry codecs
            h.settled_entry.is_in),
    )

    -- Whatever fails and wherever the listener stops or crashes, a later start finds in the offset's
    -- file the position of this start, or a transaction boundary of this life all of whose events
    -- were acked, or, if the very first offset could not be saved, nothing. JSON has to bring back the
    -- positions that this life met.
    pub load-resumes :
        {log : Log} {o : O marshal unmarshal} (start : BinlogPosition)
        → Session marshal unmarshal readable io master d0 start log o
        → unmarshal (marshal start) ≡ some start
        → All (λ c. unmarshal (marshal c.pos) ≡ some c.pos) log
        → (load marshal unmarshal true o.disk ≡ found start)
          ⊎ (((c : PendingCommit) × (IsSettled log (acked_count o.gate) c
                  × (load marshal unmarshal true o.disk ≡ found c.pos)))
              ⊎ ((load marshal unmarshal true o.disk ≡ absent) × (io ≢ completes)))
    unfolding load
    load-resumes {log} {o} start s codec codecs =
        elim (session-Inv marshal unmarshal readable io master d0 start s).stored [
          | inl (inl e) ↦ inl e
          | inl (inr (inl e)) ↦ inl (loaded-marshal o.disk.stored start e codec)
          | inl (inr (inr (e, failed))) ↦ inr (inr (rw e refl, failed))
          | inr h ↦
              inr (inl (h.entry, Holds-resumes log (acked_count o.gate) o.disk.stored h codecs))
        ]

    -- What the file holds after an offset was saved.
    abbrev pub up_to_date : Option BinlogPosition → Option Bytes → Option Bytes
    up_to_date none stored = stored
    up_to_date (some pos) stored = some (marshal pos)

    save_position-stored :
        (answer : Option BinlogPosition) (o : O marshal unmarshal)
        → IfSome (λ (pos : BinlogPosition). not_resumable pos ≡ false) answer
        → Saved marshal unmarshal o
        → (save_position marshal unmarshal completes (report answer) o).0.disk.stored
          ≡ up_to_date answer o.disk.stored
    unfolding save_position save not_resumable
    save_position-stored none o h s = refl
    save_position-stored (some pos) o h s = elim (Bool-cases (position_eq pos o.saved_offset)) [
      | inl same ↦
          let e = (position_eq_iff pos o.saved_offset).0 same in
          rw (save_position, same)
            (elim s [
              | inl n ↦ absurd (true≢false (ap not_resumable (sym (e ∙ n)) ∙ h))
              | inr k ↦ k ∙ ap (λ p. some (marshal p)) (sym e)
            ])
      | inr moved ↦ rw moved refl
    ]

    -- A tick whose file calls succeed leaves in the offset's file the newest boundary all of whose
    -- events are acked, or the file as it was while there is no such boundary; also where the saver
    -- skips the write because the position did not move.
    pub save_confirmed_offset-stored :
        {log : Log} {o : O marshal unmarshal} (start : BinlogPosition)
        → Session marshal unmarshal readable io master d0 start log o
        → (save_confirmed_offset marshal unmarshal completes o).0.disk.stored
          ≡ up_to_date (newest (acked_count o.gate) log) o.disk.stored
    unfolding save_confirmed_offset
    save_confirmed_offset-stored {log} {o} start s =
        let i = session-Inv marshal unmarshal readable io master d0 start s in
        ap
          (λ (answer : BinlogPosition × Bool).
            (save_position marshal unmarshal completes answer
              (record o { gate = (confirmable_position o.gate).0 })).0.disk.stored)
          (confirmable_position-newest i.run)
        ∙ save_position-stored (newest (acked_count o.gate) log)
            (record o { gate = (confirmable_position o.gate).0 })
            (newest-Resumable i.run (acked_count o.gate)) i.saved
