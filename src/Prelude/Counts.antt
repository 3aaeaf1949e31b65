-- ===== src/Prelude/Counts.antt =====
-- How often a number stands in a list.
use Prim.Native.Nat.{ℕ, zero, suc, ◌+◌, ◌<◌}
use mathlib.Core.Path.{◌≡◌}
use mathlib.Core.Bool.{Bool}
use mathlib.Core.List.{List, [], ◌∷◌, ◌++◌}
use native.Mathlib.Omega.{arith}
use origin.Prelude.Tests.{nat_eq, ◌==◌, if◌then◌else◌, Bool-cases}
use mathlib.Core.Logic.{inl, inr}
use origin.Prelude.Lists.{length, get_or, set, take, get_or-set, length-set}

abbrev pub one_if : Bool → ℕ
one_if b = if b then 1 else 0

abbrev pub count : ℕ → List ℕ → ℕ
count k [] = 0
count k (x ∷ xs) = one_if (x == k) + count k xs

pub count-append : (k : ℕ) (xs ys : List ℕ) → count k (xs ++ ys) ≡ count k xs + count k ys
count-append k [] ys = omega arith
count-append k (x ∷ xs) ys = omega (arith, count-append k xs ys)

pub count-set :
    (k : ℕ) (xs : List ℕ) (i v d : ℕ)
    → i < length xs
    → count k (set xs i v) + one_if (get_or xs i d == k) ≡ count k xs + one_if (v == k)
count-set k [] i v d h = absurd (omega arith)
count-set k (x ∷ xs) zero v d h = omega arith
count-set k (x ∷ xs) (suc i) v d h = omega (arith, count-set k xs i v d (omega arith))

pub count-swap :
    (k : ℕ) (xs : List ℕ) (i j d : ℕ)
    → i < length xs
    → j < length xs
    → count k (set (set xs i (get_or xs j d)) j (get_or xs i d)) ≡ count k xs
count-swap k xs i j d hi hj =
    let once = set xs i (get_or xs j d) in
    let len = length-set xs i (get_or xs j d) in
    ground (
      arith,
      count-set k xs i (get_or xs j d) d hi,
      count-set k once j (get_or xs i d) d (omega arith),
      get_or-set xs i j (get_or xs j d) d hi,
    )

pub count-take :
    (k n : ℕ) (xs : List ℕ) (d : ℕ)
    → length xs ≡ suc n
    → count k (take n xs) + one_if (get_or xs n d == k) ≡ count k xs
count-take k zero (x ∷ []) d h = omega arith
count-take k n [] d h = absurd (omega arith)
count-take k zero (x ∷ y ∷ xs) d h = absurd (omega arith)
count-take k (suc n) (x ∷ xs) d h = omega (arith, count-take k n xs d (omega arith))

-- What stands at an index is in the list, and the other way round.
pub count-get_or : (xs : List ℕ) (i d : ℕ) → i < length xs → 0 < count (get_or xs i d) xs
count-get_or [] i d h = absurd (omega arith)
count-get_or (x ∷ xs) zero d h = ground arith
count-get_or (x ∷ xs) (suc i) d h = omega (arith, count-get_or xs i d (omega arith))

pub index_of :
    (k : ℕ) (xs : List ℕ) (d : ℕ) → 0 < count k xs → (i : ℕ) × (i < length xs) × (get_or xs i d ≡ k)
index_of k [] d h = absurd (omega arith)
index_of k (x ∷ xs) d h = elim (Bool-cases (x == k)) [
  | inl same ↦ (0, omega arith, ground arith)
  | inr other ↦ let (i, p, q) = index_of k xs d (ground arith) in (suc i, omega arith, q)
]
