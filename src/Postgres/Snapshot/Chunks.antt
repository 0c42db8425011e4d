-- ===== src/Postgres/Snapshot/Chunks.antt =====
-- Chunks of a list: what `take` and `drop` leave of it.
use excalibase_watcher.Base.{
  ℕ, zero, suc, ◌≤◌, ◌<◌, ◌≡◌, refl, ap, List, [], ◌∷◌, ◌++◌, map, arith, length, take, drop,
}

pub map-append_take {ℓ κ} :
    {A : Type ℓ} {B : Type κ} (f : A → B) (n : ℕ) (xs : List A)
    → map f (take n xs) ++ map f (drop n xs) ≡ map f xs
map-append_take f zero xs = refl
map-append_take f (suc n) [] = refl
map-append_take f (suc n) (x ∷ xs) = ap (◌∷◌ (f x)) (map-append_take f n xs)

pub take_all {ℓ} : {A : Type ℓ} (n : ℕ) (xs : List A) → length (take n xs) < n → take n xs ≡ xs
take_all zero xs h = absurd (omega arith)
take_all (suc n) [] h = refl
take_all (suc n) (x ∷ xs) h = ap (◌∷◌ x) (take_all n xs (omega arith))

pub take-append-drop {ℓ} : {A : Type ℓ} (n : ℕ) (xs : List A) → take n xs ++ drop n xs ≡ xs
take-append-drop zero xs = refl
take-append-drop (suc n) [] = refl
take-append-drop (suc n) (x ∷ xs) = ap (◌∷◌ x) (take-append-drop n xs)

pub drop_le {ℓ} : {A : Type ℓ} (n : ℕ) (xs : List A) → length (drop n xs) ≤ length xs
drop_le zero xs = omega arith
drop_le (suc n) [] = omega arith
drop_le (suc n) (x ∷ xs) = omega (arith, drop_le n xs)

pub drop_lt {ℓ} :
    {A : Type ℓ} (n : ℕ) (xs : List A)
    → 0 < n
    → n ≤ length (take n xs)
    → length (drop n xs) < length xs
drop_lt zero xs h k = absurd (omega arith)
drop_lt (suc n) [] h k = absurd (omega arith)
drop_lt (suc n) (x ∷ xs) h k = omega (arith, drop_le n xs)

pub full_chunk {ℓ} :
    {A : Type ℓ} (n : ℕ) (xs : List A) → n ≤ length (take n xs) → length (take n xs) ≡ n
full_chunk zero xs h = refl
full_chunk (suc n) [] h = absurd (omega arith)
full_chunk (suc n) (x ∷ xs) h = ap suc (full_chunk n xs (omega arith))
