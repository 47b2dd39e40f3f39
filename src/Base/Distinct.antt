-- ===== src/Base/Distinct.antt =====
-- Vectors of distinct identifiers, which several crates keep by a test of `contains` before a push.
use Prim.Native.Nat.{ℕ}
use mathlib.Core.Path.{◌≡◌, refl}
use mathlib.Core.Bool.{false, ◌||◌}
use mathlib.Core.List.{List, [], ◌∷◌}
use native.Mathlib.Omega.{arith}
use solen.Base.Tests.{◌==◌}
use solen.Base.Lists.{push, contains}

abbrev pub HasDistinct : List ℕ → Type 0
HasDistinct [] = Unit
HasDistinct (x ∷ xs) = (contains x xs ≡ false) × HasDistinct xs

pub contains-push : (a b : ℕ) (xs : List ℕ) → contains a (push xs b) ≡ (contains a xs || a == b)
unfolding contains
contains-push a b [] = ground arith
contains-push a b (x ∷ xs) = ground (arith, contains-push a b xs)

pub push-HasDistinct :
    (xs : List ℕ) (b : ℕ) → HasDistinct xs → contains b xs ≡ false → HasDistinct (push xs b)
unfolding contains
push-HasDistinct [] b h new = (refl, tt)
push-HasDistinct (x ∷ xs) b h new = ground (arith, push-HasDistinct xs b, contains-push x b xs)
