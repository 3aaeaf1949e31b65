-- ===== src/Rank/Order.antt =====
-- The comparison of sysservice/rankservice/RankData.go as an order.
use origin.Prelude.{
  ℕ, ◌<◌, ◌≡◌, ◌≢◌, refl, nat_eq, ◌==◌, true, false, List, [], ◌∷◌, length, arith, Bool-cases, inl,
  inr,
}
use origin.Rank.{
  Sign, minus, none_of_both, plus, RankData, compare_more_than, or_by_key, asc_compare, des_compare,
}

abbrev pub opposite : Sign → Sign
opposite minus = plus
opposite none_of_both = none_of_both
opposite plus = minus

opposite-compare_more_than :
    (xs ys : List ℕ) → compare_more_than ys xs ≡ opposite (compare_more_than xs ys)
unfolding compare_more_than
opposite-compare_more_than [] [] = refl
opposite-compare_more_than [] (y ∷ ys) = refl
opposite-compare_more_than (x ∷ xs) [] = refl
opposite-compare_more_than (x ∷ xs) (y ∷ ys) = ground (arith, opposite-compare_more_than xs ys)

opposite-or_by_key :
    (s : Sign) (k j : ℕ)
    → k ≢ j
    → or_by_key (opposite s) plus minus j k ≡ opposite (or_by_key s plus minus k j)
unfolding or_by_key
opposite-or_by_key minus k j ne = refl
opposite-or_by_key plus k j ne = refl
opposite-or_by_key none_of_both k j ne = ground arith

-- Ascending comparison the other way round gives the opposite result.
pub asc_compare-opposite : (p q : RankData) → asc_compare q p ≡ opposite (asc_compare p q)
unfolding asc_compare
asc_compare-opposite p q = elim (Bool-cases (q.key == p.key)) [
  | inl same ↦ let back : (p.key == q.key) ≡ true = ground arith in rw (same, back) refl
  | inr differ ↦
      let back : (p.key == q.key) ≡ false = ground arith in
      rw (differ, back, opposite-compare_more_than p.sort_data q.sort_data)
        (opposite-or_by_key (compare_more_than p.sort_data q.sort_data) p.key q.key (ground arith))
]

-- Descending comparison is ascending comparison the other way round.
pub des_compare_lem : (p q : RankData) → des_compare p q ≡ asc_compare q p
unfolding asc_compare des_compare or_by_key
des_compare_lem p q = elim (Bool-cases (q.key == p.key)) [
  | inl same ↦ let back : (p.key == q.key) ≡ true = ground arith in rw (same, back) refl
  | inr differ ↦
      let back : (p.key == q.key) ≡ false = ground arith in
      rw (differ, back) (by_sign (compare_more_than q.sort_data p.sort_data) (ground arith))
]
  where
    by_sign :
        (s : Sign)
        → p.key ≢ q.key
        → or_by_key s minus plus p.key q.key ≡ or_by_key s plus minus q.key p.key
    by_sign minus ne = refl
    by_sign plus ne = refl
    by_sign none_of_both ne = ground arith

-- The first difference decides.
abbrev join : Sign → Sign → Sign
join minus s = minus
join plus s = plus
join none_of_both s = s

compare_more_than_trans :
    (xs ys zs : List ℕ)
    → length xs ≡ length ys
    → length ys ≡ length zs
    → compare_more_than xs ys ≢ minus
    → compare_more_than ys zs ≢ minus
    → compare_more_than xs zs ≡ join (compare_more_than xs ys) (compare_more_than ys zs)
unfolding compare_more_than
compare_more_than_trans [] [] [] e f g h = refl
compare_more_than_trans [] [] (z ∷ zs) e f g h = absurd (omega arith)
compare_more_than_trans [] (y ∷ ys) zs e f g h = absurd (omega arith)
compare_more_than_trans (x ∷ xs) [] zs e f g h = absurd (omega arith)
compare_more_than_trans (x ∷ xs) (y ∷ ys) [] e f g h = absurd (omega arith)
compare_more_than_trans (x ∷ xs) (y ∷ ys) (z ∷ zs) e f g h =
    ground (arith, g, h, compare_more_than_trans xs ys zs (omega arith) (omega arith))

-- How an entry comes out above another.
abbrev Above : Sign → ℕ → ℕ → Type 0
Above s k j = (s ≢ minus) × (s ≡ none_of_both → j < k)

by_sign : (s : Sign) (k j : ℕ) → or_by_key s plus minus k j ≡ plus → Above s k j
unfolding or_by_key
by_sign minus k j e = absurd (cc e)
by_sign plus k j e = (λ m. absurd (cc m), λ m. absurd (cc m))
by_sign none_of_both k j e = (λ m. absurd (cc m), λ m. ground arith)

Above-join :
    (s t : Sign) (k j i : ℕ)
    → Above s k j
    → Above t j i
    → or_by_key (join s t) plus minus k i ≡ plus
unfolding or_by_key
Above-join minus t k j i a b = absurd (a.0 refl)
Above-join plus t k j i a b = refl
Above-join none_of_both minus k j i a b = absurd (b.0 refl)
Above-join none_of_both plus k j i a b = refl
Above-join none_of_both none_of_both k j i a b =
    let c = a.1 refl in let d = b.1 refl in ground arith

above_lem :
    (p q : RankData)
    → asc_compare p q ≡ plus
    → Above (compare_more_than p.sort_data q.sort_data) p.key q.key
unfolding asc_compare
above_lem p q e = elim (Bool-cases (q.key == p.key)) [
  | inl same ↦ absurd (cc (rw same at e))
  | inr differ ↦
      let f : or_by_key (compare_more_than p.sort_data q.sort_data) plus minus p.key q.key ≡ plus =
        rw differ at e in
      by_sign (compare_more_than p.sort_data q.sort_data) p.key q.key f
]

-- On entries with as many sort values each, of which the first and the last have different keys,
-- ascending comparison is transitive.
pub asc_compare_trans :
    (p q r : RankData)
    → length p.sort_data ≡ length q.sort_data
    → length q.sort_data ≡ length r.sort_data
    → p.key ≢ r.key
    → asc_compare p q ≡ plus
    → asc_compare q r ≡ plus
    → asc_compare p r ≡ plus
unfolding asc_compare
asc_compare_trans p q r e f ne g h =
    let a = above_lem p q g in
    let b = above_lem q r h in
    let differ : (r.key == p.key) ≡ false = ground arith in
    rw (differ, compare_more_than_trans p.sort_data q.sort_data r.sort_data e f a.0 b.0)
      (Above-join (compare_more_than p.sort_data q.sort_data)
        (compare_more_than q.sort_data r.sort_data) p.key q.key r.key a b)
