-- ===== src/Base/Text.antt =====
-- Go strings as lists of bytes, their comparison, and the literals of the program.
use Prim.Native.Nat.{ℕ}
use Prim.Native.Char.{code}
use Prim.Native.String.{String}
use mathlib.Core.Path.{◌≡◌, refl}
use mathlib.Core.Logic.{◌≢◌, ◌↔◌}
use mathlib.Core.Bool.{Bool, true, false, ◌&&◌}
use mathlib.Core.List.{◌++◌, List, [], ◌∷◌}
use native.Mathlib.Omega.{arith}
use excalibase_watcher.Base.Tests.{◌==◌}

abbrev pub Bytes : Type 0
Bytes = List ℕ

-- The bytes of an ASCII literal.
abbrev pub codes : String → Bytes
codes String.[] = []
codes (String.◌∷◌ c s) = code c ∷ codes s

-- `==` on strings.
unfoldable pub bytes_eq : Bytes → Bytes → Bool
bytes_eq [] [] = true
bytes_eq (x ∷ xs) (y ∷ ys) = x == y && bytes_eq xs ys
bytes_eq _ _ = false

pub bytes_eq_iff : (a b : Bytes) → (bytes_eq a b ≡ true) ↔ (a ≡ b)
unfolding bytes_eq
bytes_eq_iff (x ∷ a) (y ∷ b) = ground (arith, bytes_eq_iff a b)
bytes_eq_iff _ _ = ground arith

pub bytes_eq_self : (a : Bytes) → bytes_eq a a ≡ true
bytes_eq_self a = (bytes_eq_iff a a).1 refl

unfoldable pub is_empty : Bytes → Bool
is_empty [] = true
is_empty (_ ∷ _) = false

-- `slices.Contains` on strings.
unfoldable pub contains : List Bytes → Bytes → Bool
unfolding bytes_eq
contains [] b = false
contains (x ∷ xs) b = elim (bytes_eq x b) [ true ↦ true | false ↦ contains xs b ]

pub is_empty_ne : (s : Bytes) → s ≢ [] → is_empty s ≡ false
unfolding is_empty
is_empty_ne [] h = absurd (h refl)
is_empty_ne (_ ∷ _) h = refl

-- A common prefix cancels.
pub prefix-injective : (p a b : Bytes) → p ++ a ≡ p ++ b → a ≡ b
prefix-injective [] a b e = e
prefix-injective (c ∷ p) a b e = prefix-injective p a b (cc)
