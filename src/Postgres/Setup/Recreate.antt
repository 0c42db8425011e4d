-- ===== src/Postgres/Setup/Recreate.antt =====
-- When a replication slot is dropped and created again.
use excalibase_watcher.Postgres.Slots.{Lookup, found, slot_missing, failed, slot_needs_recreating}
use excalibase_watcher.Postgres.Snapshot.{validate_identifier}
use excalibase_watcher.Postgres.Setup.{
  create_failed, created, already_exists, query_failed, Ensured, Statement, drop_slot, create_slot,
  recreate_unusable_slot, recreate_slot, create_replication_slot_if_not_exists,
  create_if_not_exists,
}
use excalibase_watcher.Base.{
  ◌≡◌, refl, inl, inr, Bool, true, false, ◌&&◌, ◌||◌, Option, none, some, List, [], ◌∷◌,
  if◌then◌else◌, Bool-cases, Bytes, codes, bytes_eq,
}

-- A slot that exists and is invalidated, and one that is gone.
abbrev pub is_lost : Lookup → Bool
is_lost (found stats) = bytes_eq stats.wal_status (codes "lost")
is_lost _ = false

abbrev pub is_missing : Lookup → Bool
is_missing slot_missing = true
is_missing _ = false

abbrev pub drops_slot : Statement → Bool
drops_slot (drop_slot _) = true
drops_slot _ = false

abbrev pub creates_slot : Statement → Bool
creates_slot (create_slot _) = true
creates_slot _ = false

unfoldable pub any : (Statement → Bool) → List Statement → Bool
any test [] = false
any test (s ∷ more) = test s || any test more

-- A check that answered that the slot does not exist.
abbrev pub absent : Option Bool → Bool
absent (some false) = true
absent _ = false

-- What is asked of the database when the slot is to be created.
ensured-asks :
    (slot_name : Bytes) (exists : Option Bool) (executes : Bool)
    → (any drops_slot (create_replication_slot_if_not_exists slot_name exists executes).1 ≡ false)
      × (any creates_slot (create_replication_slot_if_not_exists slot_name exists executes).1
          ≡ (validate_identifier slot_name && absent exists))
unfolding any create_replication_slot_if_not_exists create_if_not_exists
ensured-asks slot_name exists executes = elim (Bool-cases (validate_identifier slot_name)) [
  | inr bad ↦ rw bad (refl, refl)
  | inl good ↦ rw good (asked exists)
]
  where
    asked :
        (exists : Option Bool)
        → (any drops_slot
              (elim exists as (λ _. Ensured × List Statement) [
                | none ↦ (query_failed, [])
                | some true ↦ (already_exists, [])
                | some false ↦
                    (if executes then created else create_failed, create_slot slot_name ∷ [])
              ]).1
            ≡ false)
          × (any creates_slot
                (elim exists as (λ _. Ensured × List Statement) [
                  | none ↦ (query_failed, [])
                  | some true ↦ (already_exists, [])
                  | some false ↦
                      (if executes then created else create_failed, create_slot slot_name ∷ [])
                ]).1
              ≡ absent exists)
    asked none = (refl, refl)
    asked (some true) = (refl, refl)
    asked (some false) = (refl, refl)

-- Streaming that does not start drops the replication slot exactly when the watcher manages the slot
-- and it was found invalidated, and creates one exactly when the watcher manages the slot, the slot
-- is gone or was just dropped, its name is an identifier and the database knows no slot of that name;
-- an unusable lookup changes nothing.
pub recreate_unusable_slot_lem :
    (configured : Bool) (slot_name : Bytes) (lookup : Lookup) (drops : Bool) (exists : Option Bool)
    (executes : Bool)
    → (any drops_slot
          (recreate_unusable_slot configured slot_name lookup drops exists executes).statements
        ≡ (configured && is_lost lookup))
      × (any creates_slot
            (recreate_unusable_slot configured slot_name lookup drops exists executes).statements
          ≡ (configured
              && ((is_missing lookup || (is_lost lookup && drops))
                  && (validate_identifier slot_name && absent exists))))
unfolding recreate_unusable_slot recreate_slot slot_needs_recreating any
recreate_unusable_slot_lem false slot_name lookup drops exists executes = (refl, refl)
recreate_unusable_slot_lem true slot_name failed drops exists executes = (refl, refl)
recreate_unusable_slot_lem true slot_name slot_missing drops exists executes =
    ensured-asks slot_name exists executes
recreate_unusable_slot_lem true slot_name (found stats) drops exists executes =
    elim (Bool-cases (bytes_eq stats.wal_status (codes "lost"))) [
      | inr fine ↦ rw fine (refl, refl)
      | inl lost ↦ rw lost (dropped drops)
    ]
  where
    dropped :
        (drops : Bool)
        → (any drops_slot (recreate_slot slot_name (found stats) drops exists executes).statements
            ≡ true)
          × (any creates_slot
                (recreate_slot slot_name (found stats) drops exists executes).statements
              ≡ (drops && (validate_identifier slot_name && absent exists)))
    dropped true = (refl, (ensured-asks slot_name exists executes).1)
    dropped false = (refl, refl)
