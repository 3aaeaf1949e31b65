-- ===== src/Rank.antt =====
-- sysservice/rankservice: how the data of a ranking are compared (RankFunc.go, RankData.go). The
-- sort data are `int64`, here numbers from 0 up, since only their order counts. A result of 1, 0 or
-- -1 is a `Sign`.
pub mod Order
mod Tests
use origin.Prelude.{
  ℕ, zero, suc, ◌-◌, nat_eq, ◌==◌, ltb, if◌then◌else◌, Bool, true, false, List, [], ◌∷◌, length,
}

pub data Sign : Type 0 where
  minus none_of_both plus : Sign

-- The fields that are compared.
pub record RankData : Type 0 where
  pub key : ℕ
  pub sort_data : List ℕ

-- From the last element to the first, as far as equality goes the same as from the first on.
unfoldable pub all_equal : List ℕ → List ℕ → Bool
all_equal [] ys = true
all_equal (x ∷ xs) [] = true
all_equal (x ∷ xs) (y ∷ ys) = if x == y then all_equal xs ys else false

unfoldable pub compare_is_equal : List ℕ → List ℕ → Bool
compare_is_equal first second =
    if length first == length second then all_equal first second else false

-- The loop ends with the shorter of the two.
unfoldable pub compare_more_than : List ℕ → List ℕ → Sign
compare_more_than [] ys = none_of_both
compare_more_than (x ∷ xs) [] = none_of_both
compare_more_than (x ∷ xs) (y ∷ ys) =
    if ltb y x then plus else if ltb x y then minus else compare_more_than xs ys

-- By key, where the sort data do not tell.
unfoldable pub or_by_key : Sign → Sign → Sign → ℕ → ℕ → Sign
or_by_key none_of_both larger other k j = if ltb j k then larger else other
or_by_key minus larger other k j = minus
or_by_key plus larger other k j = plus

unfoldable pub asc_compare : RankData → RankData → Sign
asc_compare p other =
    if other.key == p.key
    then none_of_both
    else or_by_key (compare_more_than p.sort_data other.sort_data) plus minus p.key other.key

unfoldable pub des_compare : RankData → RankData → Sign
des_compare p other =
    if other.key == p.key
    then none_of_both
    else or_by_key (compare_more_than other.sort_data p.sort_data) minus plus p.key other.key
