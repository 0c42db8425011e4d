-- ===== src/Postgres/Slots/Cleanup.antt =====
-- When a slot is dropped.
use excalibase_watcher.Base.{
  none, sym, bytes_eq, subst, In-append_right, append_assoc, if◌then◌else◌, In, ◌∙◌, Bytes, some,
  List, [], ◌∷◌, ◌++◌, All, All-append, Bool-cases, Option-cases, ◌||◌, ℕ, ◌+◌, ◌≤◌, ◌<◌, ◌≡◌, refl,
  ◌≢◌, ◌↔◌, ◌⊎◌, inl, inr, Bool, true, false, arith, bytes_eq_iff,
}
use excalibase_watcher.Postgres.Slots.{
  delete_mark, try_drop, clean_one, clean_all, cleanup_once, drop_slot, SlotCleaner, Round,
  observe_inactive, mark_of, is_owned, SlotCandidate, OrphanRules, is_released, last_alive,
  decide_orphan,
}

-- Nobody will resume this slot: it is not the watcher's own, it matches the pattern, it is inactive
-- and holds more WAL than the threshold, and its owner released it or was last heard of at least
-- `stale_after` ago.
pub record IsOrphan (r : OrphanRules) (now : ℕ) (c : SlotCandidate) (first_seen : ℕ) : Type 0 where
  pub foreign : c.name ≢ r.own_slot
  pub matching : r.pattern c.name ≡ true
  pub inactive : c.active ≡ false
  pub retaining : (r.retained_threshold ≡ 0) ⊎ (r.retained_threshold < c.retained_wal_bytes)
  pub abandoned :
      (is_released c.owner ≡ true) ⊎ (last_alive c.owner first_seen + r.stale_after ≤ now)

-- A slot is dropped exactly when it is an orphan.
pub decide_orphan_iff :
    (r : OrphanRules) (now : ℕ) (c : SlotCandidate) (first_seen : ℕ)
    → ((decide_orphan r now c first_seen).drop ≡ true) ↔ IsOrphan r now c first_seen
unfolding decide_orphan
decide_orphan_iff r now c first_seen = (
  λ h. ground (arith, bytes_eq_iff c.name r.own_slot),
  λ v. ground (arith, bytes_eq_iff c.name r.own_slot),
)

-- The time since which a slot without an owner is known to be inactive: the mark that the cleaner
-- has had since an earlier round, or now.
abbrev pub IsSeen : List (Bytes × ℕ) → ℕ → SlotCandidate → ℕ → Type 0
IsSeen marks now c first_seen =
    (is_owned c.owner ≡ false) × ((mark_of c.name marks ≡ some first_seen) ⊎ (first_seen ≡ now))

-- The slot of this name is a candidate and an orphan, with a heartbeat or, where it has no owner, a
-- time since which it is known to be inactive.
abbrev pub Justified : SlotCleaner → ℕ → List SlotCandidate → Bytes → Type 0
Justified cleaner now cs name =
    (c : SlotCandidate) × (first_seen : ℕ) × In c cs
    × (c.name ≡ name)
    × ((is_owned c.owner ≡ true) ⊎ IsSeen cleaner.inactive_since now c first_seen)
    × IsOrphan cleaner.rules now c first_seen

-- Marks of which each is an old one or was made now.
abbrev Marked : List (Bytes × ℕ) → ℕ → List (Bytes × ℕ) → Type 0
Marked old now marks =
    (name : Bytes) (t : ℕ) → mark_of name marks ≡ some t → (mark_of name old ≡ some t) ⊎ (t ≡ now)

deleted_mark :
    (name : Bytes) (marks : List (Bytes × ℕ)) → mark_of name (delete_mark name marks) ≡ none
unfolding mark_of delete_mark
deleted_mark name [] = refl
deleted_mark name ((n, t) ∷ marks) = elim (Bool-cases (bytes_eq n name)) [
  | inl same ↦ rw same (deleted_mark name marks)
  | inr differs ↦ rw (differs, differs) (deleted_mark name marks)
]

kept_mark :
    (name other : Bytes) (marks : List (Bytes × ℕ)) (t : ℕ)
    → mark_of name (delete_mark other marks) ≡ some t
    → mark_of name marks ≡ some t
unfolding mark_of delete_mark
kept_mark name other [] t h = h
kept_mark name other ((n, u) ∷ marks) t h = elim (Bool-cases (bytes_eq n other)) [
  | inl gone ↦ elim (Bool-cases (bytes_eq n name)) [
    | inl same ↦
        let e : name ≡ other = sym ((bytes_eq_iff n name).0 same) ∙ (bytes_eq_iff n other).0 gone in
        let f = subst (λ o. mark_of name (delete_mark o ((n, u) ∷ marks)) ≡ some t) (sym e) h in
        let g = deleted_mark name ((n, u) ∷ marks) in cc
    | inr differs ↦ rw differs (kept_mark name other marks t (rw gone at h))
  ]
  | inr stays ↦ elim (Bool-cases (bytes_eq n name)) [
    | inl same ↦ rw same (rw (stays, same) at h)
    | inr differs ↦ rw differs (kept_mark name other marks t (rw (stays, differs) at h))
  ]
]

record Sound (cleaner : SlotCleaner) (now : ℕ) (cs : List SlotCandidate) (r : Round) : Type 0 where
  rules : r.cleaner.rules ≡ cleaner.rules
  mode : r.cleaner.dry_run ≡ cleaner.dry_run
  only : All (Justified cleaner now cs) r.asked
  dry : cleaner.dry_run ≡ true → r.asked ≡ []
  marks : Marked cleaner.inactive_since now r.cleaner.inactive_since

observe-same :
    (c : SlotCleaner) (now : ℕ) (s : SlotCandidate)
    → ((observe_inactive c now s).0.rules ≡ c.rules)
      × ((observe_inactive c now s).0.dry_run ≡ c.dry_run)
unfolding observe_inactive
observe-same c now s = elim (Bool-cases (s.active || is_owned s.owner)) [
  | inl known ↦ rw (observe_inactive, known) (refl, refl)
  | inr unknown ↦ elim (Option-cases (mark_of s.name c.inactive_since)) [
    | inl unseen ↦ rw (unknown, unseen) (refl, refl)
    | inr (t, seen) ↦ rw (unknown, seen) (refl, refl)
  ]
]

observe-Marked :
    (c : SlotCleaner) (now : ℕ) (s : SlotCandidate) (old : List (Bytes × ℕ))
    → Marked old now c.inactive_since
    → Marked old now (observe_inactive c now s).0.inactive_since
unfolding observe_inactive mark_of
observe-Marked c now s old m name t = elim (Bool-cases (s.active || is_owned s.owner)) [
  | inl known ↦
      rw (observe_inactive, known) (λ h. m name t (kept_mark name s.name c.inactive_since t h))
  | inr unknown ↦ elim (Option-cases (mark_of s.name c.inactive_since)) [
    | inr (u, seen) ↦ rw (unknown, seen) (m name t)
    | inl unseen ↦ rw (unknown, unseen) (added (bytes_eq s.name name))
  ]
]
  where
    added :
        (same : Bool)
        → (if same then some now else mark_of name c.inactive_since) ≡ some t
        → (mark_of name old ≡ some t) ⊎ (t ≡ now)
    added true h = inr cc
    added false h = m name t h

-- The time that a slot that is not active is judged by.
observe_inactive-IsSeen :
    (c : SlotCleaner) (now : ℕ) (s : SlotCandidate) (old : List (Bytes × ℕ))
    → Marked old now c.inactive_since
    → s.active ≡ false
    → (is_owned s.owner ≡ true) ⊎ IsSeen old now s (observe_inactive c now s).1
unfolding observe_inactive
observe_inactive-IsSeen c now s old m idle = elim (Bool-cases (is_owned s.owner)) [
  | inl owned ↦ inl owned
  | inr free ↦ elim (Option-cases (mark_of s.name c.inactive_since)) [
    | inr (t, seen) ↦ rw (idle, free, seen) (inr (refl, m s.name t seen))
    | inl unseen ↦ rw (idle, free, unseen) (inr (refl, inr refl))
  ]
]

module _ (drops : Bytes → Bool) (now : ℕ) (cleaner : SlotCleaner) (cs : List SlotCandidate) where
  try_drop-Sound :
      (r : Round) (c : SlotCandidate)
      → Sound cleaner now cs r
      → r.cleaner.dry_run ≡ false
      → Justified cleaner now cs c.name
      → Sound cleaner now cs (try_drop drops r c)
  unfolding try_drop
  try_drop-Sound r c v wet j =
      let only = All-append (Justified cleaner now cs) r.asked (c.name ∷ []) v.only (j, tt) in
      let dry : (d : Bool) → cleaner.dry_run ≡ true → r.asked ++ c.name ∷ [] ≡ [] =
        λ d h. ground (arith, h, v.mode, wet) in
      elim (Bool-cases (drops c.name)) [
        | inl done ↦ rw done (record {
          rules = v.rules;
          mode = v.mode;
          only = only;
          dry = dry true;
          marks = λ name t h. v.marks name t (kept_mark name c.name r.cleaner.inactive_since t h);
        })
        | inr kept ↦ rw kept (record {
          rules = v.rules;
          mode = v.mode;
          only = only;
          dry = dry true;
          marks = v.marks;
        })
      ]

  drop_slot-Sound :
      (r : Round) (c : SlotCandidate)
      → Sound cleaner now cs r
      → Justified cleaner now cs c.name
      → Sound cleaner now cs (drop_slot drops r c)
  unfolding drop_slot
  drop_slot-Sound r c v j = go r.cleaner.dry_run refl
    where
      go :
          (b : Bool)
          → r.cleaner.dry_run ≡ b
          → Sound cleaner now cs (if b then r else try_drop drops r c)
      go true dry = v
      go false wet = try_drop-Sound r c v wet j

  observed-Sound :
      (r : Round) (c : SlotCandidate)
      → Sound cleaner now cs r
      → Sound cleaner now cs (record r { cleaner = (observe_inactive r.cleaner now c).0 })
  observed-Sound r c v =
      let (same, mode) = observe-same r.cleaner now c in
      record {
        rules = same ∙ v.rules;
        mode = mode ∙ v.mode;
        only = v.only;
        dry = v.dry;
        marks = λ name t h. observe-Marked r.cleaner now c cleaner.inactive_since v.marks name t h;
      }

  clean_one-Sound :
      (r : Round) (c : SlotCandidate)
      → In c cs
      → Sound cleaner now cs r
      → Sound cleaner now cs (clean_one drops now r c)
  unfolding clean_one
  clean_one-Sound r c i v =
      go (decide_orphan r.cleaner.rules now c (observe_inactive r.cleaner now c).1).drop refl
    where
      seen : ℕ
      seen = (observe_inactive r.cleaner now c).1

      observed : Round
      observed = record r { cleaner = (observe_inactive r.cleaner now c).0 }

      go :
          (b : Bool)
          → (decide_orphan r.cleaner.rules now c seen).drop ≡ b
          → Sound cleaner now cs (if b then drop_slot drops observed c else observed)
      go false _ = observed-Sound r c v
      go true orphan = drop_slot-Sound observed c (observed-Sound r c v) (
        c,
        seen,
        i,
        refl,
        observe_inactive-IsSeen r.cleaner now c cleaner.inactive_since v.marks
            ((decide_orphan_iff r.cleaner.rules now c seen).0 orphan).inactive,
        subst (λ rules. IsOrphan rules now c seen) v.rules
            ((decide_orphan_iff r.cleaner.rules now c seen).0 orphan),
      )

  clean_all-Sound :
      (r : Round) (done rest : List SlotCandidate)
      → done ++ rest ≡ cs
      → Sound cleaner now cs r
      → Sound cleaner now cs (clean_all drops now r rest)
  unfolding clean_all
  clean_all-Sound r done [] e v = v
  clean_all-Sound r done (c ∷ rest) e v =
      clean_all-Sound (clean_one drops now r c) (done ++ c ∷ []) rest
        (append_assoc done (c ∷ []) rest ∙ e)
        (clean_one-Sound r c (subst (In c) e (In-append_right c done (c ∷ rest) (inl refl))) v)

-- A cleanup round whose candidates could be fetched asks the database to drop candidates only, each
-- of them an orphan under the rules, where a slot without an owner counts as inactive since the mark
-- that the cleaner had of it before the round or, without one, only since now; and in a dry run the
-- round asks it to drop none.
pub cleanup_once-Justified :
    (drops : Bytes → Bool) (now : ℕ) (cleaner : SlotCleaner) (cs : List SlotCandidate)
    → (r : Round) × (cleanup_once drops now cleaner (some cs) ≡ some r)
      × All (Justified cleaner now cs) r.asked
      × (cleaner.dry_run ≡ true → r.asked ≡ [])
unfolding cleanup_once
cleanup_once-Justified drops now cleaner cs =
    let start : Round = record { cleaner = cleaner; asked = []; errors = [] } in
    let v = clean_all-Sound drops now cleaner cs start [] cs refl (record {
      rules = refl;
      mode = refl;
      only = tt;
      dry = λ _. refl;
      marks = λ name t h. inl h;
    }) in
    (clean_all drops now start cs, refl, v.only, v.dry)
