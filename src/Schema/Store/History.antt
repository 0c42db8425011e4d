-- ===== src/Schema/Store/History.antt =====
-- What the store returns after an entry was saved.
use excalibase_watcher.Schema.{HistoryEntry}
use excalibase_watcher.Schema.Store.{
  find, put, FileHistoryStore, new_file_history_store, key_of, or_empty, stamped, write_file, save,
  load_entries, last_entry, get_latest, get_history,
}
use excalibase_watcher.Base.{
  none, ℕ, ◌≡◌, refl, ap, ◌∙◌, inl, inr, Bool, true, false, Option, some, List, [], ◌∷◌, ◌++◌,
  Bool-cases, Bytes, bytes_eq, bytes_eq_self,
}

find-put_self {ℓ} :
    {A : Type ℓ} (key : Bytes) (a : A) (m : List (Bytes × A)) → find key (put key a m) ≡ some a
unfolding find put
find-put_self key a [] = rw (bytes_eq_self key) refl
find-put_self key a ((k, b) ∷ rest) = elim (Bool-cases (bytes_eq k key)) [
  | inl same ↦ rw (same, same) refl
  | inr other ↦ rw (other, other) (find-put_self key a rest)
]

last_entry-snoc :
    (marshal : List HistoryEntry → Bytes) (unmarshal : Bytes → Option (List HistoryEntry))
    (es : List HistoryEntry) (e : HistoryEntry)
    → last_entry marshal unmarshal (es ++ e ∷ []) ≡ some e
unfolding last_entry
last_entry-snoc marshal unmarshal [] e = refl
last_entry-snoc marshal unmarshal (f ∷ []) e = refl
last_entry-snoc marshal unmarshal (f ∷ g ∷ es) e = last_entry-snoc marshal unmarshal (g ∷ es) e

load_entries-cached :
    (marshal : List HistoryEntry → Bytes) (unmarshal : Bytes → Option (List HistoryEntry))
    (readable : Bool) (key : Bytes) (s : FileHistoryStore) (es : List HistoryEntry)
    → find key s.cache ≡ some es
    → load_entries marshal unmarshal readable key s ≡ (s, some es)
unfolding load_entries
load_entries-cached marshal unmarshal readable key s es e = rw (load_entries, e) refl

load_entries-file :
    (marshal : List HistoryEntry → Bytes) (unmarshal : Bytes → Option (List HistoryEntry))
    (key text : Bytes) (s : FileHistoryStore) (es : List HistoryEntry)
    → find key s.cache ≡ none
    → find key s.files ≡ some text
    → unmarshal text ≡ some es
    → (load_entries marshal unmarshal true key s).1 ≡ some es
unfolding load_entries
load_entries-file marshal unmarshal key text s es c f u = rw (load_entries, c, f, u) refl

module _ (marshal : List HistoryEntry → Bytes) (unmarshal : Bytes → Option (List HistoryEntry))
    (now : ℕ) (entry : HistoryEntry) (s : FileHistoryStore) where
  -- The history that the store knows after the entry was saved.
  abbrev pub appended : List HistoryEntry
  appended = or_empty (find (key_of entry.schema entry.table) s.cache) ++ stamped now entry ∷ []

  abbrev saved : Bool → FileHistoryStore
  saved writes = (save marshal unmarshal now writes entry s).0

  save-cache :
      (writes : Bool) → find (key_of entry.schema entry.table) (saved writes).cache ≡ some appended
  unfolding save write_file
  save-cache true = find-put_self (key_of entry.schema entry.table) appended s.cache
  save-cache false = find-put_self (key_of entry.schema entry.table) appended s.cache

  save-files : find (key_of entry.schema entry.table) (saved true).files ≡ some (marshal appended)
  unfolding save write_file
  save-files =
      find-put_self (key_of entry.schema entry.table) _ s.files
      ∙ ap (λ (es : Option (List HistoryEntry)). some (marshal (or_empty es)))
          (find-put_self (key_of entry.schema entry.table) appended s.cache)

  -- After an entry was saved, whether its file could be written or not, GetHistory returns the entries
  -- of its table that the store had in its cache, then this one, and GetLatest returns this one.
  pub get_history-save :
      (writes readable : Bool)
      → ((get_history marshal unmarshal readable entry.schema entry.table (saved writes)).1
          ≡ some appended)
        × ((get_latest marshal unmarshal readable entry.schema entry.table (saved writes)).1
            ≡ some (some (stamped now entry)))
  unfolding get_history get_latest
  get_history-save writes readable =
      let loaded =
        load_entries-cached marshal unmarshal readable (key_of entry.schema entry.table)
          (saved writes) appended (save-cache writes) in
      (
        ap (λ r. r.1) loaded,
        rw (get_latest, loaded)
            (ap some (
              last_entry-snoc marshal unmarshal
                (or_empty (find (key_of entry.schema entry.table) s.cache)) (stamped now entry))),
      )

  -- When the program starts again after an entry was saved to its file, GetHistory returns the entries
  -- of the table that the earlier store had in its cache, then this one; entries of an older file that
  -- it had not loaded are gone. JSON has to bring back the list that was written.
  pub get_history-restart :
      unmarshal (marshal appended) ≡ some appended
      → (get_history marshal unmarshal true entry.schema entry.table
          (new_file_history_store (saved true).files)).1
        ≡ some appended
  unfolding get_history find
  get_history-restart codec =
      load_entries-file marshal unmarshal (key_of entry.schema entry.table) (marshal appended)
        (new_file_history_store (saved true).files) appended refl save-files codec
