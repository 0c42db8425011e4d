-- ===== src/Postgres/Parser/Truncates.antt =====
-- A TRUNCATE message gives one event for each relation that it names, is known and passes the
-- filter; the event of the first one is returned, after the others were handed over.
use excalibase_watcher.Base.{
  false, Bool, not, ◌&&◌, ◌||◌, bytes_eq, contains, codes, decimal, if◌then◌else◌, ℕ, ◌≡◌, refl,
  sym, ap, ◌∙◌, true, Option, none, some, List, [], ◌∷◌, ◌++◌, map, append-nil, append_assoc, Bytes,
}
use excalibase_watcher.Cdc.Event.{new_event, truncate, Event}
use excalibase_watcher.Postgres.Parser.{RelationInfo, Parser}
use excalibase_watcher.Postgres.Parser.Reader.{Reader, read_uint32, read_byte}
use excalibase_watcher.Postgres.Parser.Messages.{
  relation, slot_owners_table, Parsed, nothing, truncate_ids, truncate_event, truncate_loop,
  parse_truncate,
}

-- What a call gives out, in order of time: the events that it hands over, and the one it returns.
abbrev pub outputs_of : Option Event → List Event → List Event
outputs_of none handled = handled
outputs_of (some event) handled = handled ++ event ∷ []

abbrev pub outputs : Parsed → List Event
outputs r = outputs_of r.event r.handled

abbrev pub somes : List (Option Event) → List Event
somes [] = []
somes (none ∷ rest) = somes rest
somes (some event ∷ rest) = event ∷ somes rest

-- The first one goes to the end.
abbrev pub first_last {ℓ} : {A : Type ℓ} → List A → List A
first_last [] = []
first_last (x ∷ xs) = xs ++ x ∷ []

abbrev pub has_none : List Bytes → Bool
has_none [] = true
has_none (_ ∷ _) = false

-- Truncates of this relation are wanted: it is not the watcher's own table, and the filter is empty
-- or names it.
abbrev pub is_wanted : Parser → RelationInfo → Bool
is_wanted p rel =
    not (bytes_eq rel.name slot_owners_table)
    && (has_none p.table_filter || contains p.table_filter rel.name)

abbrev pub add_wanted : Parser → Option RelationInfo → List RelationInfo → List RelationInfo
add_wanted p none rels = rels
add_wanted p (some rel) rels = if is_wanted p rel then rel ∷ rels else rels

-- The wanted relations among those that are known by these ids.
abbrev pub wanted : Parser → List ℕ → List RelationInfo
wanted p [] = []
wanted p (id ∷ ids) = add_wanted p (relation p.relation_map id) (wanted p ids)

-- The event of a relation.
abbrev pub truncated : ℕ → ℕ → Bytes → RelationInfo → Event
truncated now options lsn rel =
    new_event now truncate rel.namespace rel.name
      (codes "{\"options\":" ++ (decimal options ++ b'}' ∷ [])) (codes "TRUNCATE") lsn

-- With an event at hand, every later one is handed over.
truncate_loop_later :
    (p : Parser) (first : Event) (handled : List Event) (es : List (Option Event))
    → truncate_loop true (record { parser = p; event = some first; handled = handled }) es
      ≡ record { parser = p; event = some first; handled = handled ++ somes es }
unfolding truncate_loop
truncate_loop_later p first handled [] =
    ap (λ (h : List Event). record { parser = p; event = some first; handled = h })
      (sym (append-nil handled))
truncate_loop_later p first handled (none ∷ es) = truncate_loop_later p first handled es
truncate_loop_later p first handled (some event ∷ es) =
    truncate_loop_later p first (handled ++ event ∷ []) es
    ∙ ap (λ (h : List Event). record { parser = p; event = some first; handled = h })
        (append_assoc handled (event ∷ []) (somes es))

truncate_loop-somes :
    (p : Parser) (es : List (Option Event))
    → (outputs (truncate_loop true (nothing p) es) ≡ first_last (somes es))
      × ((truncate_loop true (nothing p) es).parser ≡ p)
unfolding truncate_loop
truncate_loop-somes p [] = (refl, refl)
truncate_loop-somes p (none ∷ es) = truncate_loop-somes p es
truncate_loop-somes p (some event ∷ es) = (
  ap outputs (truncate_loop_later p event [] es),
  ap (λ (r : Parsed). r.parser) (truncate_loop_later p event [] es),
)

pub parse_truncate-first_last :
    (now : ℕ) (p : Parser) (buf : Reader) (lsn : Bytes)
    → let (count, buf1) = read_uint32 buf in
      let (options, buf2) = read_byte buf1 in
      (outputs (parse_truncate now true p buf lsn)
        ≡ first_last (somes (map (truncate_event now p options lsn) (truncate_ids count buf2))))
      × ((parse_truncate now true p buf lsn).parser ≡ p)
unfolding parse_truncate
parse_truncate-first_last now p buf lsn = truncate_loop-somes p (
    map (truncate_event now p (read_byte (read_uint32 buf).1).0 lsn)
      (truncate_ids (read_uint32 buf).0 (read_byte (read_uint32 buf).1).1))
