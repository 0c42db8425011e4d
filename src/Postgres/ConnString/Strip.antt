-- ===== src/Postgres/ConnString/Strip.antt =====
-- That stripping the replication parameter undoes adding it.
use excalibase_watcher.Postgres.ConnString.{
  contains_text, replace_from, replace_all, replication_key, replication_param,
  ensure_replication_param, strip_replication_param,
}
use excalibase_watcher.Mysql.CommitGate.{has_prefix}
use excalibase_watcher.Base.{
  inr, inl, append-nil, ◌∙◌, Bool-cases, codes, ap, false, ℕ, ◌≡◌, refl, true, [], ◌∷◌, ◌++◌, arith,
  Bytes, Avoids,
}

-- A text that cannot reach over a separator, since it has none in it.
has_prefix-within :
    (sep : ℕ) (key s rest : Bytes)
    → Avoids sep key
    → has_prefix key (s ++ sep ∷ rest) ≡ true
    → has_prefix key s ≡ true
unfolding has_prefix
has_prefix-within sep [] s rest a h = refl
has_prefix-within sep (k ∷ key) [] rest a h = absurd (ground (arith, a.0, h))
has_prefix-within sep (k ∷ key) (c ∷ s) rest a h =
    ground (arith, h, has_prefix-within sep key s rest a.1)

-- A longer text begins with what begins it.
has_prefix-shorter :
    (key more s : Bytes) → has_prefix (key ++ more) s ≡ true → has_prefix key s ≡ true
unfolding has_prefix
has_prefix-shorter [] more s h = refl
has_prefix-shorter (k ∷ key) more [] h = absurd (ground (arith, h))
has_prefix-shorter (k ∷ key) more (c ∷ s) h = ground (arith, h, has_prefix-shorter key more s)

abbrev IsBare : Bytes → Type 0
IsBare s = contains_text s replication_key ≡ false

contains_text-begins : (key s : Bytes) → has_prefix key s ≡ true → contains_text s key ≡ true
unfolding contains_text
contains_text-begins key [] h = h
contains_text-begins key (c ∷ s) h = rw h refl

-- Behind its first byte, no pattern with the parameter occurs at a place of a bare text.
no_occurrence :
    (c0 : ℕ) (more : Bytes) (sep c : ℕ) (s rest : Bytes)
    → Avoids sep replication_key
    → IsBare s
    → has_prefix (c0 ∷ (replication_key ++ more)) (c ∷ (s ++ sep ∷ rest)) ≡ false
unfolding has_prefix
no_occurrence c0 more sep c s rest a b =
    elim (Bool-cases (has_prefix (replication_key ++ more) (s ++ sep ∷ rest))) [
      | inr none ↦ ground (arith, none)
      | inl there ↦
          let within =
            has_prefix-within sep replication_key s rest a
              (has_prefix-shorter replication_key more (s ++ sep ∷ rest) there) in
          absurd (ground (arith, b, contains_text-begins replication_key s within))
    ]

IsBare-tail : (c : ℕ) (s : Bytes) → IsBare (c ∷ s) → IsBare s
unfolding contains_text
IsBare-tail c s b = ground (arith, b)

-- Replacing passes over a bare text up to a separator.
replace_from-append :
    (c0 : ℕ) (more new : Bytes) (sep : ℕ) (s rest : Bytes)
    → Avoids sep replication_key
    → IsBare s
    → replace_from 0 (s ++ sep ∷ rest) (c0 ∷ (replication_key ++ more)) new
      ≡ s ++ replace_from 0 (sep ∷ rest) (c0 ∷ (replication_key ++ more)) new
unfolding replace_from
replace_from-append c0 more new sep [] rest a b = refl
replace_from-append c0 more new sep (c ∷ s) rest a b =
    rw (no_occurrence c0 more sep c s rest a (IsBare-tail c s b))
      (ap (◌∷◌ c) (replace_from-append c0 more new sep s rest a (IsBare-tail c s b)))

IsBare-no_prefix : (more s : Bytes) → IsBare s → has_prefix (replication_key ++ more) s ≡ false
IsBare-no_prefix more s b = elim (Bool-cases (has_prefix (replication_key ++ more) s)) [
  | inr none ↦ none
  | inl there ↦
      let begins =
        contains_text-begins replication_key s (has_prefix-shorter replication_key more s there) in
      absurd (ground (arith, b, begins))
]

replace_from-bare :
    (c0 : ℕ) (more new s : Bytes)
    → IsBare s
    → replace_from 0 s (c0 ∷ (replication_key ++ more)) new ≡ s
unfolding replace_from has_prefix
replace_from-bare c0 more new [] b = refl
replace_from-bare c0 more new (c ∷ s) b =
    rw (no_prefix (IsBare-tail c s b))
      (ap (◌∷◌ c) (replace_from-bare c0 more new s (IsBare-tail c s b)))
  where
    no_prefix : IsBare s → has_prefix (c0 ∷ (replication_key ++ more)) (c ∷ s) ≡ false
    no_prefix t = ground (arith, IsBare-no_prefix more s t)

amp-Avoids : Avoids b'&' replication_key
amp-Avoids = ground arith

mark-Avoids : Avoids b'?' replication_key
mark-Avoids = ground arith

strip-amp : (s : Bytes) → IsBare s → strip_replication_param (s ++ b'&' ∷ replication_param) ≡ s
unfolding strip_replication_param replace_all replace_from has_prefix
strip-amp s b =
    let first =
      replace_from-append b'&' (codes "database") [] b'&' s replication_param amp-Avoids b
      ∙ append-nil s in
    rw (first, replace_from-bare b'?' (codes "database&") (codes "?") s b)
      (replace_from-bare b'?' (codes "database") [] s b)

strip-mark : (s : Bytes) → IsBare s → strip_replication_param (s ++ b'?' ∷ replication_param) ≡ s
unfolding strip_replication_param replace_all replace_from has_prefix
strip-mark s b =
    let first =
      replace_from-append b'&' (codes "database") [] b'?' s replication_param mark-Avoids b in
    let second =
      replace_from-append b'?' (codes "database&") (codes "?") b'?' s replication_param mark-Avoids
        b in
    rw (first, second)
      (replace_from-append b'?' (codes "database") [] b'?' s replication_param mark-Avoids b
        ∙ append-nil s)

contains_text-append :
    (key s rest : Bytes) → contains_text rest key ≡ true → contains_text (s ++ rest) key ≡ true
unfolding contains_text
contains_text-append key [] rest h = h
contains_text-append key (c ∷ s) rest h = ground (arith, contains_text-append key s rest h)

ensure_has_key : (s : Bytes) → contains_text (ensure_replication_param s) replication_key ≡ true
unfolding ensure_replication_param contains_text has_prefix
ensure_has_key s = elim (Bool-cases (contains_text s replication_key)) [
  | inl key ↦ rw key key
  | inr bare ↦ elim (Bool-cases (contains_text s (codes "?"))) [
    | inl query ↦
        rw (bare, query) (contains_text-append replication_key s (b'&' ∷ replication_param) refl)
    | inr plain ↦
        rw (bare, plain) (contains_text-append replication_key s (b'?' ∷ replication_param) refl)
  ]
]

strip_undoes : (s : Bytes) → IsBare s → strip_replication_param (ensure_replication_param s) ≡ s
unfolding ensure_replication_param
strip_undoes s b = elim (Bool-cases (contains_text s (codes "?"))) [
  | inl query ↦ rw (b, query) (strip-amp s b)
  | inr plain ↦ rw (b, plain) (strip-mark s b)
]

-- For a connection string without a replication parameter, adding the parameter gives one that has it,
-- and stripping it from that one gives the connection string back.
pub strip-ensure :
    (conn_str : Bytes)
    → contains_text conn_str replication_key ≡ false
    → (contains_text (ensure_replication_param conn_str) replication_key ≡ true)
      × (strip_replication_param (ensure_replication_param conn_str) ≡ conn_str)
strip-ensure conn_str b = (ensure_has_key conn_str, strip_undoes conn_str b)
