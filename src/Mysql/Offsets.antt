-- ===== src/Mysql/Offsets.antt =====
-- internal/mysql/offset.go and the offset of internal/mysql/listener.go: where the binlog is resumed.
-- `marshal` and `unmarshal` are encoding/json on a position. The disk holds the offset's file and its
-- temporary file. What the operating system does with a call is an argument: os.WriteFile may fail
-- and leave anything in the temporary file, and os.Rename replaces the file or fails.
pub mod Settled
pub mod Session
pub mod Resume
use excalibase_watcher.Mysql.CommitGate.{BinlogPosition, CommitGate, confirmable_position}
use excalibase_watcher.Base.{
  Bool, true, false, not, ◌&&◌, ◌||◌, Option, none, some, ◌==◌, if◌then◌else◌, Bytes, bytes_eq,
}

pub record Disk : Type 0 where
  pub stored : Option Bytes
  pub temporary : Option Bytes

-- How far a call of `Save` comes, by an error or by a crash of the process.
pub data Io : Type 0 where
  write_fails : Option Bytes → Io
  rename_fails completes : Io

-- What `Load` returns: a position, nil, or an error.
pub data Loaded : Type 0 where
  found : BinlogPosition → Loaded
  absent load_failed : Loaded

-- `==` on positions.
unfoldable pub position_eq : BinlogPosition → BinlogPosition → Bool
unfolding bytes_eq
position_eq p q = bytes_eq p.file q.file && p.position == q.position

module _ (marshal : BinlogPosition → Bytes) (unmarshal : Bytes → Option BinlogPosition) where
  -- `FileOffsetStore.Save`; false is an error.
  unfoldable pub save : Io → Disk → BinlogPosition → Disk × Bool
  save (write_fails left) d pos = (record d { temporary = left }, false)
  save rename_fails d pos = (record d { temporary = some (marshal pos) }, false)
  save completes d pos = (record { stored = some (marshal pos); temporary = none }, true)

  -- `FileOffsetStore.Load`; the Boolean says whether an existing file can be read.
  unfoldable pub load : Bool → Disk → Loaded
  load readable d = elim d.stored [
    | none ↦ absent
    | some text ↦
        if readable
        then elim (unmarshal text) [ some pos ↦ found pos | none ↦ load_failed ]
        else load_failed
  ]

  -- What the listener keeps of its offset; `store` says whether an offset file is configured.
  pub record Offsets : Type 0 where
    pub store : Bool
    pub gate : CommitGate
    pub saved_offset : BinlogPosition
    pub disk : Disk

  unfoldable pub get_start_position : Bool → Offsets → Loaded
  unfolding load
  get_start_position readable o = if o.store then load readable o.disk else absent

  -- The first offset, when none is stored.
  unfoldable pub save_initial : Io → BinlogPosition → Offsets → Offsets
  unfolding save
  save_initial io pos o =
      let (disk, ok) = save io o.disk pos in
      if not o.store
      then o
      else if ok
      then record o { disk = disk; saved_offset = pos }
      else record o { disk = disk }

  -- `resolveStartPosition`; `master` is the answer of `GetMasterPos`, and a result of none is an error.
  unfoldable pub resolve_start_position :
      Bool → Io → Option BinlogPosition → Offsets → Offsets × Option BinlogPosition
  unfolding get_start_position save_initial
  resolve_start_position readable io master o = elim (get_start_position readable o) [
    | load_failed ↦ (o, none)
    | found pos ↦ (o, some pos)
    | absent ↦ elim master [ none ↦ (o, none) | some pos ↦ (save_initial io pos o, some pos) ]
  ]

  -- The part of `saveConfirmedOffset` after `Confirmable`; false is an error.
  unfoldable pub save_position : Io → BinlogPosition × Bool → Offsets → Offsets × Bool
  unfolding save position_eq
  save_position io (pos, ok) o =
      let (disk, saved) = save io o.disk pos in
      if not ok || position_eq pos o.saved_offset
      then (o, true)
      else if saved
      then (record o { disk = disk; saved_offset = pos }, true)
      else (record o { disk = disk }, false)

  -- `saveConfirmedOffset`, at each tick of `offsetSaver`.
  unfoldable pub save_confirmed_offset : Io → Offsets → Offsets × Bool
  unfolding save_position confirmable_position
  save_confirmed_offset io o =
      let (gate, answer) = confirmable_position o.gate in
      save_position io answer (record o { gate = gate })

  -- The end of `Stop`, which only logs an error.
  unfoldable pub flush_final : Io → Offsets → Offsets
  unfolding save_confirmed_offset
  flush_final io o = if o.store then (save_confirmed_offset io o).0 else o
