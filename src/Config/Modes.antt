-- ===== src/Config/Modes.antt =====
-- Which configurations are loaded.
use excalibase_watcher.Config.{
  validated, Config, Setting, defaults, env_bindings, load, validate_snapshot_mode,
}
use excalibase_watcher.Base.{
  ◌≡◌, refl, sym, ap, subst, ◌∙◌, ◌↔◌, ◌⊎◌, inl, inr, Bool, true, false, ◌||◌, Option, some, List,
  [], ◌∷◌, arith, Bool-cases, Option-cases, Bytes, codes, bytes_eq, bytes_eq_iff, is_empty,
}

-- The snapshot modes of the documentation, and the empty one.
abbrev pub KnownMode : Bytes → Type 0
KnownMode mode =
    ([] ≡ mode)
    ⊎ ((codes "none" ≡ mode) ⊎ ((codes "chunked" ≡ mode) ⊎ (codes "backup_file" ≡ mode)))

-- A test of several alternatives, and equality with one of them.
or_iff : (a b : Bool) (P Q : Type 0) → (a ≡ true) ↔ P → (b ≡ true) ↔ Q → ((a || b) ≡ true) ↔ (P ⊎ Q)
or_iff true b P Q p q = (λ e. inl (p.0 refl), λ s. refl)
or_iff false b P Q p q =
    (λ e. inr (q.0 e), λ s. elim s [ inl x ↦ absurd (ground (arith, p.1 x)) | inr y ↦ q.1 y ])

is_empty_iff : (mode : Bytes) → (is_empty mode ≡ true) ↔ ([] ≡ mode)
unfolding is_empty
is_empty_iff [] = (λ e. refl, λ e. refl)
is_empty_iff (c ∷ mode) = (λ e. ground (arith, e), λ e. ground (arith, e))

eq_iff : (mode known : Bytes) → (bytes_eq mode known ≡ true) ↔ (known ≡ mode)
eq_iff mode known =
    (λ e. sym ((bytes_eq_iff mode known).0 e), λ e. (bytes_eq_iff mode known).1 (sym e))

-- `ValidateSnapshotMode` accepts exactly the documented modes and the empty one.
pub validate_snapshot_mode_iff :
    (mode : Bytes) → (validate_snapshot_mode mode ≡ true) ↔ KnownMode mode
unfolding validate_snapshot_mode
validate_snapshot_mode_iff mode = or_iff _ _ _ _ (is_empty_iff mode) (
    or_iff _ _ _ _ (eq_iff mode (codes "none"))
      (or_iff _ _ _ _ (eq_iff mode (codes "chunked")) (eq_iff mode (codes "backup_file"))))

abbrev Valid : Config → Type 0
Valid cfg =
    (validate_snapshot_mode cfg.postgres.snapshot_mode ≡ true)
    × (validate_snapshot_mode cfg.mysql.snapshot_mode ≡ true)

validated-some : (cfg : Config) → Valid cfg → validated cfg ≡ some cfg
unfolding validated
validated-some cfg v = rw (v.0, v.1) refl

some-validated : (got cfg : Config) → validated got ≡ some cfg → (got ≡ cfg) × Valid got
unfolding validated
some-validated got cfg e = elim (Bool-cases (validate_snapshot_mode got.postgres.snapshot_mode)) [
  | inr bad ↦ absurd (ground (arith, e, bad))
  | inl p ↦ elim (Bool-cases (validate_snapshot_mode got.mysql.snapshot_mode)) [
    | inr bad ↦ absurd (ground (arith, e, p, bad))
    | inl m ↦ (ground (arith, e, p, m), (p, m))
  ]
]

-- `Load` returns a configuration exactly when viper reads it and both of its snapshot modes are known.
pub load_iff :
    (viper : List (Bytes × Setting) → List (Bytes × Bytes) → Option Config)
    (hostname : Option Bytes) (cfg : Config)
    → (load viper hostname ≡ some cfg) ↔ (
        (viper (defaults hostname) env_bindings ≡ some cfg)
        × (KnownMode cfg.postgres.snapshot_mode × KnownMode cfg.mysql.snapshot_mode))
unfolding load
load_iff viper hostname cfg = (
  λ e. loaded e,
  λ h. rw h.0 (
      validated-some cfg (
        (validate_snapshot_mode_iff cfg.postgres.snapshot_mode).1 h.1.0,
        (validate_snapshot_mode_iff cfg.mysql.snapshot_mode).1 h.1.1,
      )),
)
  where
    Known : Config → Type 0
    Known cfg = KnownMode cfg.postgres.snapshot_mode × KnownMode cfg.mysql.snapshot_mode

    loaded :
        load viper hostname ≡ some cfg
        → (viper (defaults hostname) env_bindings ≡ some cfg) × Known cfg
    loaded e = elim (Option-cases (viper (defaults hostname) env_bindings)) [
      | inl nothing ↦ absurd (ground (arith, rw (load, nothing) at e))
      | inr (got, r) ↦
          let h = some-validated got cfg (rw (load, r) at e) in
          (
            r ∙ ap some h.0,
            subst Known h.0 (
              (validate_snapshot_mode_iff got.postgres.snapshot_mode).0 h.1.0,
              (validate_snapshot_mode_iff got.mysql.snapshot_mode).0 h.1.1,
            ),
          )
    ]
