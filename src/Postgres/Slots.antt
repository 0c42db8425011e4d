-- ===== src/Postgres/Slots.antt =====
-- internal/postgres/slotstats.go and internal/postgres/slotcleanup.go: what the watcher knows of
-- replication slots, and the cleanup of orphaned ones.
-- Times are milliseconds; `time.Time{}` is 0 and a duration since a later time is negative, which
-- no stale limit exceeds. The naming pattern, a compiled regexp, is a test on names. Fetching and
-- dropping a slot are the database's answers. Logs and counters are left out.
pub mod Cleanup
pub mod Sampler
use excalibase_watcher.Base.{
  ℕ, ◌+◌, ◌-◌, ◌%◌, Bool, true, false, not, ◌&&◌, ◌||◌, Option, none, some, List, [], ◌∷◌, ◌++◌,
  ltb, leb, ◌==◌, if◌then◌else◌, u64_mod, drop, Bytes, codes, bytes_eq,
}

pub record SlotStats : Type 0 where
  pub confirmed_flush_lsn : ℕ
  pub restart_lsn : ℕ
  pub wal_lsn : ℕ
  pub active : Bool
  pub wal_status : Bytes

-- `RetainedWALBytes`, with the subtraction in uint64.
unfoldable pub retained_wal_bytes : SlotStats → ℕ
retained_wal_bytes s =
    if s.restart_lsn == 0 || ltb s.wal_lsn s.restart_lsn
    then 0
    else (s.wal_lsn + u64_mod - s.restart_lsn) % u64_mod

-- The result of a slot lookup.
pub data Lookup : Type 0 where
  found : SlotStats → Lookup
  slot_missing failed : Lookup

-- `slotNeedsRecreating`; `none` is its error.
unfoldable pub slot_needs_recreating : Lookup → Option Bool
slot_needs_recreating (found stats) = some (bytes_eq stats.wal_status (codes "lost"))
slot_needs_recreating slot_missing = some true
slot_needs_recreating failed = none

-- `slotSampler.sampleOnce`: the flag `unusable` after a lookup, and the retained WAL published.
unfoldable pub sample_once : Bool → Lookup → Bool × Option ℕ
unfolding slot_needs_recreating retained_wal_bytes
sample_once unusable (found stats) =
    (bytes_eq stats.wal_status (codes "lost"), some (retained_wal_bytes stats))
sample_once unusable slot_missing = (true, none)
sample_once unusable failed = (unusable, none)

-- `slotSampler.run` over what its lookups return until the context ends: the first one at once, the
-- others at the ticks.
unfoldable pub sampler_run : Bool → List Lookup → Bool
unfolding sample_once
sampler_run unusable [] = unusable
sampler_run unusable (l ∷ ls) = sampler_run (sample_once unusable l).0 ls

pub record SlotOwner : Type 0 where
  pub owner_id : Bytes
  pub heartbeat_at : ℕ
  pub released_at : Option ℕ

pub record SlotCandidate : Type 0 where
  pub name : Bytes
  pub active : Bool
  pub retained_wal_bytes : ℕ
  pub owner : Option SlotOwner

pub record OrphanRules : Type 0 where
  pub own_slot : Bytes
  pub pattern : Bytes → Bool
  pub stale_after : ℕ
  pub retained_threshold : ℕ

pub data Reason : Type 0 where
  own_slot name_mismatch active below_threshold released recent_heartbeat heartbeat_stale : Reason

pub record OrphanDecision : Type 0 where
  pub drop : Bool
  pub reason : Reason

abbrev pub keep_for : Reason → OrphanDecision
keep_for r = record { drop = false; reason = r }

abbrev pub drop_for : Reason → OrphanDecision
drop_for r = record { drop = true; reason = r }

abbrev pub is_released : Option SlotOwner → Bool
is_released none = false
is_released (some o) = elim o.released_at [ none ↦ false | some _ ↦ true ]

abbrev pub last_alive : Option SlotOwner → ℕ → ℕ
last_alive none first_seen = first_seen
last_alive (some o) first_seen = o.heartbeat_at

-- `decide`; `now` is the clock's reading.
unfoldable pub decide_orphan : OrphanRules → ℕ → SlotCandidate → ℕ → OrphanDecision
decide_orphan r now c first_seen =
    if bytes_eq c.name r.own_slot
    then keep_for own_slot
    else if not (r.pattern c.name)
    then keep_for name_mismatch
    else if c.active
    then keep_for active
    else if ltb 0 r.retained_threshold && leb c.retained_wal_bytes r.retained_threshold
    then keep_for below_threshold
    else if is_released c.owner
    then drop_for released
    else if ltb now (last_alive c.owner first_seen + r.stale_after)
    then keep_for recent_heartbeat
    else drop_for heartbeat_stale

abbrev Marks : Type 0
Marks = List (Bytes × ℕ)

unfoldable pub mark_of : Bytes → List (Bytes × ℕ) → Option ℕ
mark_of name [] = none
mark_of name ((n, t) ∷ rest) = if bytes_eq n name then some t else mark_of name rest

unfoldable pub delete_mark : Bytes → List (Bytes × ℕ) → List (Bytes × ℕ)
delete_mark name [] = []
delete_mark name ((n, t) ∷ rest) =
    let others = delete_mark name rest in if bytes_eq n name then others else (n, t) ∷ others

pub record SlotCleaner : Type 0 where
  pub rules : OrphanRules
  pub dry_run : Bool
  pub inactive_since : List (Bytes × ℕ)

abbrev pub is_owned : Option SlotOwner → Bool
is_owned none = false
is_owned (some _) = true

-- `observeInactive`: the mark for this candidate, and the cleaner with its marks updated.
unfoldable pub observe_inactive : SlotCleaner → ℕ → SlotCandidate → SlotCleaner × ℕ
unfolding mark_of delete_mark
observe_inactive c now candidate =
    if candidate.active || is_owned candidate.owner
    then (record c { inactive_since = delete_mark candidate.name c.inactive_since }, 0)
    else elim (mark_of candidate.name c.inactive_since) [
      | some seen ↦ (c, seen)
      | none ↦ (record c { inactive_since = (candidate.name, now) ∷ c.inactive_since }, now)
    ]

-- What a round has done: the cleaner, the slots that the database was asked to drop, and the names
-- of those that it failed to drop.
pub record Round : Type 0 where
  pub cleaner : SlotCleaner
  pub asked : List Bytes
  pub errors : List Bytes

-- `dropSlot` when it is no dry run; `drops` says whether the database drops the slot.
unfoldable pub try_drop : (Bytes → Bool) → Round → SlotCandidate → Round
unfolding delete_mark
try_drop drops r candidate =
    if drops candidate.name
    then record r {
      cleaner = record r.cleaner {
        inactive_since = delete_mark candidate.name r.cleaner.inactive_since;
      };
      asked = r.asked ++ candidate.name ∷ [];
    }
    else record r {
      asked = r.asked ++ candidate.name ∷ [];
      errors = r.errors ++ candidate.name ∷ [];
    }

unfoldable pub drop_slot : (Bytes → Bool) → Round → SlotCandidate → Round
unfolding try_drop
drop_slot drops r candidate = if r.cleaner.dry_run then r else try_drop drops r candidate

-- One round of the loop of `cleanupOnce`.
unfoldable pub clean_one : (Bytes → Bool) → ℕ → Round → SlotCandidate → Round
unfolding observe_inactive decide_orphan drop_slot
clean_one drops now r candidate =
    let (cleaner, first_seen) = observe_inactive r.cleaner now candidate in
    let observed = record r { cleaner = cleaner } in
    if (decide_orphan r.cleaner.rules now candidate first_seen).drop
    then drop_slot drops observed candidate
    else observed

unfoldable pub clean_all : (Bytes → Bool) → ℕ → Round → List SlotCandidate → Round
unfolding clean_one
clean_all drops now r [] = r
clean_all drops now r (c ∷ cs) = clean_all drops now (clean_one drops now r c) cs

-- `cleanupOnce`; a failed fetch is `none`.
unfoldable pub cleanup_once :
    (Bytes → Bool) → ℕ → SlotCleaner → Option (List SlotCandidate) → Option Round
unfolding clean_all
cleanup_once drops now cleaner none = none
cleanup_once drops now cleaner (some candidates) =
    some (clean_all drops now (record { cleaner = cleaner; asked = []; errors = [] }) candidates)
