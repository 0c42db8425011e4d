-- ===== src/Base.antt =====
-- The names that the other modules share: the libraries', passed on, and those of the children.
mod Tests
mod Lists
mod Text
mod Decimal
use excalibase_watcher.Base.Text.{codes}
use excalibase_watcher.Base.Tests.{Bool-cases}
pub use Tests.*
pub use Lists.*
unfoldable pub use Decimal.{decimal}
unfoldable pub use Text.{bytes_eq, is_empty, contains}
pub use Text.*
pub use Decimal.*
pub use Prim.Native.Nat.{ℕ, zero, suc, ◌+◌, ◌-◌, ◌*◌, ◌/◌, ◌%◌, ◌^◌, ◌≤◌, ◌<◌, min, max}
pub use mathlib.Core.Path.{◌≡◌, refl, sym, ap, subst, ◌∙◌}
pub use mathlib.Core.Logic.{◌≢◌, ◌↔◌, ◌⊎◌, inl, inr}
pub use mathlib.Core.Bool.{Bool, true, false, not, ◌&&◌, ◌||◌}
pub use mathlib.Core.Option.{Option, none, some}
pub use mathlib.Core.List.{List, [], ◌∷◌, ◌++◌, map, append-nil, append_assoc}
pub use native.Mathlib.Omega.{arith}

-- The first `n` of the delays that start with `delay` and double up to `limit`.
abbrev pub doublings : ℕ → ℕ → ℕ → List ℕ
doublings limit delay zero = []
doublings limit delay (suc n) = delay ∷ doublings limit (min (delay * 2) limit) n
