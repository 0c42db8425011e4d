-- ===== src/Tests/Offsets.antt =====
-- The life of a listener that saves one offset and crashes in the next save.
use excalibase_watcher.Mysql.CommitGate.{
  PendingCommit, CommitGate, BinlogPosition, new_commit_gate, enable, hand, committed, acked_count,
  not_resumable,
}
use excalibase_watcher.Mysql.CommitGate.Newest.{gated, hands, commits, newest, boundary}
use excalibase_watcher.Mysql.Offsets.{
  Offsets, Disk, write_fails, completes, found, absent, load, save_confirmed_offset,
  resolve_start_position,
}
use excalibase_watcher.Mysql.Offsets.Settled.{IsSettled}
use excalibase_watcher.Mysql.Offsets.Session.{started, Session, begins, calls, ticks}
use excalibase_watcher.Mysql.Offsets.Resume.{load-resumes, up_to_date, save_confirmed_offset-stored}
use excalibase_watcher.Base.{
  ◌≡◌, refl, ◌≢◌, ◌⊎◌, true, Option, none, some, [], ◌∷◌, arith, Bytes, codes, is_empty,
}

-- A codec for positions in the file `bin.1` below 256.
abbrev marshal : BinlogPosition → Bytes
marshal p = p.position ∷ p.file

abbrev unmarshal : Bytes → Option BinlogPosition
unmarshal [] = none
unmarshal (n ∷ file) = some (record { file = file; position = n })

abbrev empty_disk : Disk
empty_disk = record { stored = none; temporary = none }

abbrev master : BinlogPosition
master = record { file = codes "bin.1"; position = 90 }

abbrev xid : BinlogPosition
xid = record { file = codes "bin.1"; position = 120 }

abbrev wired : CommitGate
wired = enable new_commit_gate

-- The state right after the start: the master's position was saved.
abbrev at_start : Offsets marshal unmarshal
at_start = (started marshal unmarshal true completes (some master) empty_disk wired).0

-- A row is handed and its transaction ends; the next tick crashes while it writes.
abbrev handed : Offsets marshal unmarshal
handed = record at_start { gate = hand wired }

abbrev closed : Offsets marshal unmarshal
closed = record at_start { gate = committed (hand wired) xid }

abbrev crashed : Offsets marshal unmarshal
crashed = (save_confirmed_offset marshal unmarshal (write_fails none) closed).0

session :
    Session marshal unmarshal true completes
      (some master)
      empty_disk
      master
      (boundary (hand wired) xid ∷ [])
      crashed
unfolding hand enable committed not_resumable is_empty resolve_start_position
session =
    ticks (write_fails none)
      (calls (calls (begins gated refl) (hands (omega arith))) (commits xid refl))

load-resumes_example :
    (load marshal unmarshal true crashed.disk ≡ found master)
    ⊎ (((c : PendingCommit) × (IsSettled
              (boundary (hand wired) xid ∷ [])
              (acked_count crashed.gate)
              c
            × (load marshal unmarshal true crashed.disk ≡ found c.pos)))
        ⊎ ((load marshal unmarshal true crashed.disk ≡ absent) × (completes ≢ completes)))
load-resumes_example =
    load-resumes marshal unmarshal true completes (some master) empty_disk master session refl
      (refl, tt)

save_confirmed_offset-stored_example :
    (save_confirmed_offset marshal unmarshal completes crashed).0.disk.stored
    ≡ up_to_date marshal unmarshal true completes
        (some master)
        empty_disk
        (newest (acked_count crashed.gate) (boundary (hand wired) xid ∷ []))
        crashed.disk.stored
save_confirmed_offset-stored_example =
    save_confirmed_offset-stored marshal unmarshal true completes (some master) empty_disk master
      session
