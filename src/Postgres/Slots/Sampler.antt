-- ===== src/Postgres/Slots/Sampler.antt =====
-- What the sampler of internal/postgres/slotstats.go says of its slot after a run.
use excalibase_watcher.Base.{
  Bytes, ◌≡◌, refl, ◌≢◌, ◌↔◌, ◌⊎◌, inl, inr, Bool, true, List, [], ◌∷◌, ◌++◌, All, codes,
  bytes_eq_iff, ap, ◌∙◌,
}
use excalibase_watcher.Postgres.Slots.{
  SlotStats, Lookup, found, slot_missing, failed, sample_once, sampler_run,
}

-- This slot can never stream again: it is gone, or its WAL is.
abbrev pub IsUnusable : Lookup → Type 0
IsUnusable l =
    (l ≡ slot_missing)
    ⊎ ((stats : SlotStats) × (l ≡ found stats) × (stats.wal_status ≡ codes "lost"))

sampler_run-failures :
    (unusable : Bool) (failures : List Lookup)
    → All (λ l. l ≡ failed) failures
    → sampler_run unusable failures ≡ unusable
unfolding sampler_run sample_once
sampler_run-failures unusable [] h = refl
sampler_run-failures unusable (l ∷ failures) h =
    ap (λ k. sampler_run (sample_once unusable k).0 failures) h.0
    ∙ sampler_run-failures unusable failures h.1

verdict :
    (unusable : Bool) (l : Lookup) → l ≢ failed → ((sample_once unusable l).0 ≡ true) ↔ IsUnusable l
unfolding sample_once
verdict unusable (found stats) h = (
  λ e. inr (stats, refl, (bytes_eq_iff stats.wal_status (codes "lost")).0 e),
  λ u. elim u [
    | inl e ↦ cc
    | inr (other, e, lost) ↦
        (bytes_eq_iff stats.wal_status (codes "lost")).1
          (ap (λ (k : Lookup). status_of stats k) e ∙ lost)
  ],
)
  where
    status_of : SlotStats → Lookup → Bytes
    status_of none_found (found stats) = stats.wal_status
    status_of none_found _ = none_found.wal_status
verdict unusable slot_missing h = (λ e. inl refl, λ u. refl)
verdict unusable failed h = absurd (h refl)

-- After any run of the sampler whose lookups did not all fail, the slot is held unusable exactly when
-- the last lookup that did not fail found no slot, or one whose WAL is lost, whatever was held before
-- and however many lookups have failed since.
pub sampler_run-last :
    (unusable : Bool) (before : List Lookup) (last : Lookup) (failures : List Lookup)
    → last ≢ failed
    → All (λ l. l ≡ failed) failures
    → (sampler_run unusable (before ++ last ∷ failures) ≡ true) ↔ IsUnusable last
unfolding sampler_run
sampler_run-last unusable [] last failures h fs =
    rw (sampler_run-failures (sample_once unusable last).0 failures fs) (verdict unusable last h)
sampler_run-last unusable (l ∷ before) last failures h fs =
    sampler_run-last (sample_once unusable l).0 before last failures h fs
