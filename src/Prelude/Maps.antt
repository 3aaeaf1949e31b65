-- ===== src/Prelude/Maps.antt =====
-- Go maps as association lists: a key stands at most once in a list that `insert` built.

use mathlib.Core.Path.{◌≡◌, refl}
use mathlib.Core.Logic.{inl, inr}
use mathlib.Core.Option.{Option, none, some}
use mathlib.Core.List.{List, [], ◌∷◌}
use native.Mathlib.Omega.{arith}
use origin.Prelude.Tests.{Comparable, ◌==◌, if◌then◌else◌, nat_eq, Bool-cases, Option-cases}

module _ {ℓ κ} {K : Type ℓ} {V : Type κ} ⦃e : Comparable K⦄ where
  unfoldable pub lookup : K → List (K × V) → Option V
  lookup key [] = none
  lookup key ((k, v) ∷ rest) = if k == key then some v else lookup key rest

  unfoldable pub insert : K → V → List (K × V) → List (K × V)
  insert key new [] = (key, new) ∷ []
  insert key new ((k, v) ∷ rest) =
      if k == key then (key, new) ∷ rest else (k, v) ∷ insert key new rest

  -- Every entry of the key goes, so that the law below needs no condition.
  unfoldable pub delete : K → List (K × V) → List (K × V)
  delete key [] = []
  delete key ((k, v) ∷ rest) = if k == key then delete key rest else (k, v) ∷ delete key rest

  pub lookup-insert :
      (key j : K) (new : V) (m : List (K × V))
      → lookup j (insert key new m) ≡ (if key == j then some new else lookup j m)
  unfolding lookup insert
  lookup-insert key j new [] = refl
  lookup-insert key j new ((i, v) ∷ rest) =
      ground
        (arith, e.same_iff key j, e.same_iff i key, e.same_iff i j, lookup-insert key j new rest)

  pub lookup-delete :
      (key j : K) (m : List (K × V))
      → lookup j (delete key m) ≡ (if key == j then none else lookup j m)
  unfolding lookup delete
  lookup-delete key j [] = ground arith
  lookup-delete key j ((i, v) ∷ rest) =
      ground (arith, e.same_iff key j, e.same_iff i key, e.same_iff i j, lookup-delete key j rest)

-- Maps of maps: a missing inner map reads as an empty one.
module _ {ℓ} {K J : Type 0} {V : Type ℓ} ⦃e : Comparable K⦄ ⦃f : Comparable J⦄ where
  unfoldable pub inner : K → List (K × List (J × V)) → List (J × V)
  inner t m = elim (lookup t m) [ none ↦ [] | some i ↦ i ]

  unfoldable pub get_nested : K → J → List (K × List (J × V)) → Option V
  unfolding inner
  get_nested t k m = lookup k (inner t m)

  -- `m[t]` is made if it is missing, and `m[t][k] = v`.
  unfoldable pub put_nested : K → J → V → List (K × List (J × V)) → List (K × List (J × V))
  unfolding inner
  put_nested t k v m = insert t (insert k v (inner t m)) m

  -- `delete(m[t], k)` if `m[t]` is there
  unfoldable pub delete_nested : K → J → List (K × List (J × V)) → List (K × List (J × V))
  delete_nested t k m = elim (lookup t m) [ none ↦ m | some i ↦ insert t (delete k i) m ]

  pub get_nested-missing :
      (t : K) (j : J) (m : List (K × List (J × V))) → lookup t m ≡ none → get_nested t j m ≡ none
  unfolding get_nested lookup
  get_nested-missing t j m h = rw (h, inner)

  pub get_nested-inner :
      (t : K) (j : J) (m : List (K × List (J × V))) {i : List (J × V)}
      → lookup t m ≡ some i
      → get_nested t j m ≡ lookup j i
  unfolding get_nested
  get_nested-inner t j m h = rw (h, inner)

  pub inner-put_nested :
      (t : K) (k : J) (s : K) (v : V) (m : List (K × List (J × V)))
      → inner s (put_nested t k v m) ≡ (if t == s then insert k v (inner t m) else inner s m)
  unfolding inner put_nested
  inner-put_nested t k s v m = ground (arith, lookup-insert t s (insert k v (inner t m)) m)

  pub inner-delete_nested :
      (t : K) (k : J) (s : K) (m : List (K × List (J × V)))
      → inner s (delete_nested t k m) ≡ (if t == s then delete k (inner t m) else inner s m)
  unfolding inner delete_nested delete
  inner-delete_nested t k s m = elim (Option-cases (lookup t m)) [
    | inl h ↦ ground (arith, e.same_iff t s)
    | inr (i, h) ↦ ground (arith, lookup-insert t s (delete k i) m)
  ]

  pub get-put_nested :
      (t : K) (k : J) (s : K) (j : J) (v : V) (m : List (K × List (J × V)))
      → get_nested s j (put_nested t k v m)
        ≡ (if t == s then if k == j then some v else get_nested s j m else get_nested s j m)
  unfolding get_nested
  get-put_nested t k s j v m = elim (Bool-cases (t == s)) [
    | inl h ↦
        let same : t ≡ s = (e.same_iff t s).0 h in
        rw (inner-put_nested t k s v m, h, lookup-insert k j v (inner t m), same) refl
    | inr h ↦ rw (inner-put_nested t k s v m, h) refl
  ]

  pub get-delete_nested :
      (t : K) (k : J) (s : K) (j : J) (m : List (K × List (J × V)))
      → get_nested s j (delete_nested t k m)
        ≡ (if t == s then if k == j then none else get_nested s j m else get_nested s j m)
  unfolding get_nested
  get-delete_nested t k s j m = elim (Bool-cases (t == s)) [
    | inl h ↦
        let same : t ≡ s = (e.same_iff t s).0 h in
        rw (inner-delete_nested t k s m, h, lookup-delete k j (inner t m), same) refl
    | inr h ↦ rw (inner-delete_nested t k s m, h) refl
  ]
