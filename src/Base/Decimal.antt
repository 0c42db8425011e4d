-- ===== src/Base/Decimal.antt =====
-- Numbers in decimal, as `%d` and `strconv.Itoa` print them, and joined fields.
use mathlib.Core.List.{[], ◌∷◌, ◌++◌}
use mathlib.Core.Logic.{inr, inl, ◌≢◌}
use mathlib.Core.Path.{◌≡◌, refl, sym, ap, ◌∙◌}
use native.Mathlib.Omega.{arith}
use Prim.Native.Nat.{ℕ, zero, suc, ◌+◌, ◌-◌, ◌*◌, ◌/◌, ◌%◌, ◌<◌}
use excalibase_watcher.Base.Lists.{All}
use excalibase_watcher.Base.Tests.{Bool-cases, ltb, if◌then◌else◌}
use excalibase_watcher.Base.Text.{codes, Bytes}

-- Each round prints the last digit; a number has no more digits than its value plus one.
digits_onto : ℕ → ℕ → Bytes → Bytes
digits_onto zero n out = out
digits_onto (suc fuel) n out =
    let rest = digits_onto fuel (n / 10) ((b'0' + n % 10) ∷ out) in
    if ltb n 10 then (b'0' + n) ∷ out else rest

unfoldable pub decimal : ℕ → Bytes
unfolding digits_onto
decimal n = digits_onto (suc n) n []

-- The value of a run of digits, behind a prefix of value `acc`.
abbrev pub value_of : ℕ → Bytes → ℕ
value_of acc [] = acc
value_of acc (c ∷ cs) = value_of (acc * 10 + (c - b'0')) cs

value_of-digits :
    (fuel n : ℕ) (out : Bytes) → n < fuel → value_of 0 (digits_onto fuel n out) ≡ value_of n out
unfolding digits_onto
value_of-digits zero n out h = absurd (omega arith)
value_of-digits (suc fuel) n out h = elim (Bool-cases (ltb n 10)) [
  | inl small ↦ rw small (ap (λ k. value_of k out) (ground arith))
  | inr large ↦ rw large (
      value_of-digits fuel (n / 10) ((b'0' + n % 10) ∷ out) (ground arith)
      ∙ ap (λ k. value_of k out) (omega arith))
]

pub value_of-decimal : (n : ℕ) → value_of 0 (decimal n) ≡ n
unfolding decimal
value_of-decimal n = value_of-digits (suc n) n [] (omega arith)

pub decimal-injective : (m n : ℕ) → decimal m ≡ decimal n → m ≡ n
decimal-injective m n e = sym (value_of-decimal m) ∙ ap (value_of 0) e ∙ value_of-decimal n

-- No byte of a text is the separator.
abbrev pub Avoids : ℕ → Bytes → Type 0
Avoids sep = All (λ c. c ≢ sep)

digits-Avoids :
    (sep fuel n : ℕ) (out : Bytes)
    → (b'9' < sep)
    → Avoids sep out
    → Avoids sep (digits_onto fuel n out)
unfolding digits_onto
digits-Avoids sep zero n out s h = h
digits-Avoids sep (suc fuel) n out s h =
    ground (arith, digits-Avoids sep fuel (n / 10) ((b'0' + n % 10) ∷ out) s)

pub decimal-Avoids : (sep n : ℕ) → b'9' < sep → Avoids sep (decimal n)
unfolding decimal
decimal-Avoids sep n s = digits-Avoids sep (suc n) n [] s tt

tail_eq : {x y : ℕ} {xs ys : Bytes} → x ∷ xs ≡ y ∷ ys → xs ≡ ys
tail_eq e = cc

-- A field that ends at the first separator can be read back.
pub field-injective :
    (sep : ℕ) (a b x y : Bytes)
    → Avoids sep a
    → Avoids sep b
    → a ++ sep ∷ x ≡ b ++ sep ∷ y
    → (a ≡ b) × (x ≡ y)
field-injective sep [] [] x y ha hb e = (refl, cc)
field-injective sep [] (c ∷ b) x y ha hb e = absurd (hb.0 (cc))
field-injective sep (c ∷ a) [] x y ha hb e = absurd (ha.0 (cc))
field-injective sep (c ∷ a) (d ∷ b) x y ha hb e =
    let (p, q) = field-injective sep a b x y ha.1 hb.1 (tail_eq e) in let h : c ≡ d = cc in (cc, q)

max_u64_decimal : decimal 18446744073709551615 ≡ codes "18446744073709551615"
unfolding decimal
max_u64_decimal = refl
