-- ===== src/Postgres/Setup.antt =====
-- internal/postgres/setup.go, and the slot's recreation in internal/postgres/listener.go.
-- What the database answers to a query is an argument: `exists` is none where the query fails, and
-- `executes` says whether the statement succeeds. The statement of the DDL triggers is left out.
pub mod Recreate
use excalibase_watcher.Postgres.Slots.{Lookup, found, slot_needs_recreating}
use excalibase_watcher.Postgres.Snapshot.{validate_identifier}
use excalibase_watcher.Base.{
  Bool, true, false, not, Option, none, some, List, [], ◌∷◌, ◌++◌, if◌then◌else◌, Bytes,
}

-- How a `create…IfNotExists` ends; the first two and the last one but one are its errors.
pub data Ensured : Type 0 where
  invalid_name query_failed already_exists create_failed created : Ensured

abbrev pub ensured_ok : Ensured → Bool
ensured_ok already_exists = true
ensured_ok created = true
ensured_ok _ = false

-- The statements that reach the database.
pub data Statement : Type 0 where
  create_publication create_slot drop_slot : Bytes → Statement

-- The result and the statements executed.
unfoldable pub create_if_not_exists :
    (Bytes → Statement) → Bytes → Option Bool → Bool → Ensured × List Statement
unfolding validate_identifier
create_if_not_exists statement name exists executes =
    if not (validate_identifier name) then (invalid_name, []) else elim exists [
      | none ↦ (query_failed, [])
      | some true ↦ (already_exists, [])
      | some false ↦ (if executes then created else create_failed, statement name ∷ [])
    ]

unfoldable pub create_publication_if_not_exists :
    Bytes → Option Bool → Bool → Ensured × List Statement
unfolding create_if_not_exists
create_publication_if_not_exists = create_if_not_exists create_publication

unfoldable pub create_replication_slot_if_not_exists :
    Bytes → Option Bool → Bool → Ensured × List Statement
unfolding create_if_not_exists
create_replication_slot_if_not_exists = create_if_not_exists create_slot

-- The result of `recreateUnusableSlot`; false is an error. `counted` is `metrics.IncSlotRecreated`.
pub record Recreation : Type 0 where
  pub ok : Bool
  pub statements : List Statement
  pub counted : Bool

abbrev pub unchanged : Bool → Recreation
unchanged ok = record { ok = ok; statements = []; counted = false }

-- The end of `recreateUnusableSlot`, after these statements.
abbrev pub recreate_after : List Statement → Ensured × List Statement → Recreation
recreate_after before (ensured, executed) = record {
  ok = ensured_ok ensured;
  statements = before ++ executed;
  counted = ensured_ok ensured;
}

unfoldable pub recreate_slot : Bytes → Lookup → Bool → Option Bool → Bool → Recreation
unfolding create_replication_slot_if_not_exists
recreate_slot slot_name (found stats) drops exists executes =
    if drops
    then recreate_after (drop_slot slot_name ∷ [])
        (create_replication_slot_if_not_exists slot_name exists executes)
    else record { ok = false; statements = drop_slot slot_name ∷ []; counted = false }
recreate_slot slot_name _ drops exists executes =
    recreate_after [] (create_replication_slot_if_not_exists slot_name exists executes)

pub recreate_unusable_slot : Bool → Bytes → Lookup → Bool → Option Bool → Bool → Recreation
unfolding slot_needs_recreating recreate_slot
recreate_unusable_slot configured slot_name lookup drops exists executes =
    if not configured then unchanged true else elim (slot_needs_recreating lookup) [
      | none ↦ unchanged false
      | some false ↦ unchanged true
      | some true ↦ recreate_slot slot_name lookup drops exists executes
    ]
