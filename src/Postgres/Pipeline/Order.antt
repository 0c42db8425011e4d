-- ===== src/Postgres/Pipeline/Order.antt =====
-- Events in hand-off order: the numbers in a list of events follow one another.
use excalibase_watcher.Base.{
  ℕ, suc, ◌≤◌, ◌<◌, ◌≡◌, refl, ap, ◌⊎◌, inl, inr, List, [], ◌∷◌, ◌++◌, arith, ◌==◌, Bool-cases, In,
}
use excalibase_watcher.Cdc.Event.{Event}

-- The numbered events of the list are `a + 1`, …, `b`, in this order.
abbrev pub Run : ℕ → List Event → ℕ → Type 0
Run a [] b = a ≡ b
Run a (e ∷ es) b = ((e.sequence ≡ 0) × Run a es b) ⊎ ((e.sequence ≡ suc a) × Run (suc a) es b)

pub Run-append : (a b c : ℕ) (es fs : List Event) → Run a es b → Run b fs c → Run a (es ++ fs) c
Run-append a b c [] fs h k = rw h k
Run-append a b c (e ∷ es) fs (inl h) k = inl (h.0, Run-append a b c es fs h.1 k)
Run-append a b c (e ∷ es) fs (inr h) k = inr (h.0, Run-append (suc a) b c es fs h.1 k)

pub Run-concat_plain :
    (a b : ℕ) (es : List Event) (e : Event) → e.sequence ≡ 0 → Run a es b → Run a (es ++ e ∷ []) b
Run-concat_plain a b es e h r = Run-append a b b es (e ∷ []) r (inl (h, refl))

pub Run-concat :
    (a b : ℕ) (es : List Event) (e : Event)
    → e.sequence ≡ suc b
    → Run a es b
    → Run a (es ++ e ∷ []) (suc b)
Run-concat a b es e h r = Run-append a b (suc b) es (e ∷ []) r (inr (h, refl))

pub Run-In :
    (a b : ℕ) (es : List Event) (n : ℕ)
    → Run a es b
    → a < n
    → n ≤ b
    → (e : Event) × In e es × (e.sequence ≡ n)
Run-In a b [] n r l h = absurd (omega arith)
Run-In a b (e ∷ es) n (inl r) l h = let (f, m, q) = Run-In a b es n r.1 l h in (f, inr m, q)
Run-In a b (e ∷ es) n (inr r) l h = elim (Bool-cases (n == suc a)) [
  | inl first ↦ (e, inl refl, ground arith)
  | inr later ↦ let (f, m, q) = Run-In (suc a) b es n r.1 (ground arith) h in (f, inr m, q)
]

Run-bound : (a b : ℕ) (es : List Event) → Run a es b → a ≤ b
Run-bound a b [] r = omega arith
Run-bound a b (f ∷ es) (inl (z, r)) = Run-bound a b es r
Run-bound a b (f ∷ es) (inr (z, r)) = omega (arith, Run-bound (suc a) b es r)

pub Run-le : (a b : ℕ) (es : List Event) (e : Event) → Run a es b → In e es → e.sequence ≤ b
Run-le a b [] e r m = absurd m
Run-le a b (f ∷ es) e (inl (z, r)) (inl k) =
    let n : f.sequence ≡ e.sequence = ap (λ (x : Event). x.sequence) k in
    let below = Run-bound a b es r in omega arith
Run-le a b (f ∷ es) e (inr (z, r)) (inl k) =
    let n : f.sequence ≡ e.sequence = ap (λ (x : Event). x.sequence) k in
    let below = Run-bound (suc a) b es r in omega arith
Run-le a b (f ∷ es) e (inl (z, r)) (inr m) = Run-le a b es e r m
Run-le a b (f ∷ es) e (inr (z, r)) (inr m) = Run-le (suc a) b es e r m
