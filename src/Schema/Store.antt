-- ===== src/Schema/Store.antt =====
-- internal/schema/history.go: the file store of the schema history.
-- `marshal` and `unmarshal` are encoding/json on a list of entries. The store holds its cache and the
-- files of its directory, by key; how far the writing of a file comes is an argument. The locks are
-- left out, and so is the temporary file, which no other call reads.
pub mod History
use excalibase_watcher.Schema.{HistoryEntry}
use excalibase_watcher.Base.{
  ℕ, Bool, true, false, Option, none, some, List, [], ◌∷◌, ◌++◌, ◌==◌, if◌then◌else◌, Bytes,
  bytes_eq,
}

-- A map by key; a later entry for a key is never reached.
unfoldable pub find {ℓ} : {A : Type ℓ} → Bytes → List (Bytes × A) → Option A
unfolding bytes_eq
find key [] = none
find key ((k, a) ∷ rest) = if bytes_eq k key then some a else find key rest

unfoldable pub put {ℓ} : {A : Type ℓ} → Bytes → A → List (Bytes × A) → List (Bytes × A)
unfolding bytes_eq
put key a [] = (key, a) ∷ []
put key a ((k, b) ∷ rest) = if bytes_eq k key then (k, a) ∷ rest else (k, b) ∷ put key a rest

pub record FileHistoryStore : Type 0 where
  pub cache : List (Bytes × List HistoryEntry)
  pub files : List (Bytes × Bytes)

-- `NewFileHistoryStore` on a directory with these files.
abbrev pub new_file_history_store : List (Bytes × Bytes) → FileHistoryStore
new_file_history_store files = record { cache = []; files = files }

abbrev pub key_of : Bytes → Bytes → Bytes
key_of schema table = schema ++ b'.' ∷ table

-- The entries of the cache; a missing key has none.
abbrev pub or_empty : Option (List HistoryEntry) → List HistoryEntry
or_empty none = []
or_empty (some entries) = entries

-- The entry with the time of the call, unless it has one.
unfoldable pub stamped : ℕ → HistoryEntry → HistoryEntry
stamped now entry = if entry.timestamp == 0 then record entry { timestamp = now } else entry

module _ (marshal : List HistoryEntry → Bytes)
    (unmarshal : Bytes → Option (List HistoryEntry)) where
  -- `writeFile`; false is an error, which leaves the file as it was.
  unfoldable pub write_file : Bool → Bytes → FileHistoryStore → FileHistoryStore × Bool
  unfolding find put
  write_file false key s = (s, false)
  write_file true key s =
      (record s { files = put key (marshal (or_empty (find key s.cache))) s.files }, true)

  unfoldable pub save : ℕ → Bool → HistoryEntry → FileHistoryStore → FileHistoryStore × Bool
  unfolding find put stamped write_file
  save now writes entry s =
      let key = key_of entry.schema entry.table in
      let entries = or_empty (find key s.cache) ++ stamped now entry ∷ [] in
      write_file writes key (record s { cache = put key entries s.cache })

  -- `loadEntries`; none is an error. `readable` says whether a file that exists can be read.
  unfoldable pub load_entries :
      Bool → Bytes → FileHistoryStore → FileHistoryStore × Option (List HistoryEntry)
  unfolding find put
  load_entries readable key s = elim (find key s.cache) [
    | some entries ↦ (s, some entries)
    | none ↦ elim (find key s.files) [
      | none ↦ (s, some [])
      | some text ↦ elim (if readable then unmarshal text else none) [
        | none ↦ (s, none)
        | some entries ↦ (record s { cache = put key entries s.cache }, some entries)
      ]
    ]
  ]

  unfoldable pub last_entry : List HistoryEntry → Option HistoryEntry
  last_entry [] = none
  last_entry (e ∷ []) = some e
  last_entry (e ∷ f ∷ es) = last_entry (f ∷ es)

  -- `GetLatest`: an error, or the newest entry if there is one.
  unfoldable pub get_latest :
      Bool → Bytes → Bytes → FileHistoryStore → FileHistoryStore × Option (Option HistoryEntry)
  unfolding load_entries last_entry
  get_latest readable schema table s =
      let (after, entries) = load_entries readable (key_of schema table) s in
      (after, elim entries [ none ↦ none | some es ↦ some (last_entry es) ])

  unfoldable pub get_history :
      Bool → Bytes → Bytes → FileHistoryStore → FileHistoryStore × Option (List HistoryEntry)
  unfolding load_entries
  get_history readable schema table s = load_entries readable (key_of schema table) s
