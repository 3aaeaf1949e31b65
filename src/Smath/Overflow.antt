-- ===== src/Smath/Overflow.antt =====
-- When AddSafe and SubSafe of util/smath/smath.go report an overflow.
use origin.Prelude.{ℕ, ◌+◌, ◌*◌, ◌%◌, ◌≤◌, ◌<◌, ◌≡◌, ◌≢◌, ltb, leb, nat_eq, Bool, true, ◌&&◌, arith}
use origin.Smath.{size, half, NumType, int64, uint64, rank, less, add_safe, sub_safe, mul_safe}

-- The sum of the numbers that the words stand for is one of the type. An int64 is its rank less 2^63.
abbrev pub sum_fits : NumType → ℕ → ℕ → Bool
sum_fits int64 a b =
    leb half (rank int64 a + rank int64 b) && ltb (rank int64 a + rank int64 b) (size + half)
sum_fits uint64 a b = ltb (a + b) size

abbrev pub difference_fits : NumType → ℕ → ℕ → Bool
difference_fits int64 a b =
    leb (rank int64 b) (rank int64 a + half) && ltb (rank int64 a) (rank int64 b + half)
difference_fits uint64 a b = leb b a

-- How far a rank is above the number.
abbrev pub offset : NumType → ℕ
offset int64 = half
offset uint64 = 0

-- At int64 and at uint64 AddSafe says true if and only if the sum of the numbers is one of their type, and then returns it.
pub add_safe_lem :
    (t : NumType) (a b : ℕ)
    → a < size
    → b < size
    → ((add_safe t a b).1 ≡ sum_fits t a b)
      × (sum_fits t a b ≡ true → rank t (add_safe t a b).0 + offset t ≡ rank t a + rank t b)
unfolding add_safe less
add_safe_lem int64 a b p q = (ground arith, λ fits. ground arith)
add_safe_lem uint64 a b p q = (ground arith, λ fits. ground arith)

-- SubSafe says true if and only if the difference of the numbers is one of their type, and then
-- returns it.
pub sub_safe_lem :
    (t : NumType) (a b : ℕ)
    → a < size
    → b < size
    → ((sub_safe t a b).1 ≡ difference_fits t a b)
      × (difference_fits t a b ≡ true → rank t (sub_safe t a b).0 + rank t b ≡ rank t a + offset t)
unfolding sub_safe less
sub_safe_lem int64 a b p q = (ground arith, λ fits. ground arith)
sub_safe_lem uint64 a b p q = (ground arith, λ fits. ground arith)

-- Where the product of two numbers of type uint64 is none, MulSafe returns another number, and says
-- true all the same.
pub mul_overflow_unreported :
    (a b : ℕ)
    → size ≤ a * b
    → ((mul_safe a b).1 ≡ true) × ((mul_safe a b).0 < size) × ((mul_safe a b).0 ≢ a * b)
unfolding mul_safe
mul_overflow_unreported a b big =
    let less_than_size : (a * b) % size < size = omega arith in
    (ground arith, ground arith, λ e. ground arith)
