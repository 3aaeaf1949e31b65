-- ===== src/Prelude/Membership.antt =====
-- Whether a number stands in a list.
use Prim.Native.Nat.{ℕ}
use mathlib.Core.Path.{◌≡◌, refl}
use mathlib.Core.Bool.{Bool, false, ◌||◌}
use mathlib.Core.List.{List, [], ◌∷◌, ◌++◌}
use native.Mathlib.Omega.{arith}
use origin.Prelude.Tests.{◌==◌, nat_eq}

abbrev pub among : ℕ → List ℕ → Bool
among k [] = false
among k (x ∷ xs) = x == k || among k xs

pub among-append : (k : ℕ) (xs ys : List ℕ) → among k (xs ++ ys) ≡ (among k xs || among k ys)
among-append k [] ys = refl
among-append k (x ∷ xs) ys = ground (arith, among-append k xs ys)
