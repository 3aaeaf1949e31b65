-- ===== src/Smath.antt =====
-- AddSafe, SubSafe, MulSafe, Max and Min of util/smath/smath.go, at the types int64 and uint64. An
-- integer is its word of 64 bits, a number below 2^64; an int64 at or above 2^63 is negative.
pub mod Overflow
mod Tests
use origin.Prelude.{
  ℕ, ◌+◌, ◌-◌, ◌*◌, ◌/◌, ◌%◌, ◌^◌, nat_eq, ◌==◌, ltb, if◌then◌else◌, Bool, true, false, ◌&&◌, ◌||◌,
}

abbrev pub size : ℕ
size = 2 ^ 64

abbrev pub half : ℕ
half = 2 ^ 63

-- A number type of the code, by its comparison and by whether it has negative numbers.
pub data NumType : Type 0 where
  int64 uint64 : NumType

-- The word that stands in the same place of the order of uint64 as `a` does in that of its type.
abbrev pub rank : NumType → ℕ → ℕ
rank int64 a = (a + half) % size
rank uint64 a = a

-- `a < b`
unfoldable pub less : NumType → ℕ → ℕ → Bool
less t a b = ltb (rank t a) (rank t b)

unfoldable pub max : NumType → ℕ → ℕ → ℕ
max t number1 number2 = if less t number2 number1 then number1 else number2

unfoldable pub min : NumType → ℕ → ℕ → ℕ
min t number1 number2 = if less t number1 number2 then number1 else number2

-- `number2 > 0 && ret < number1 || number2 < 0 && ret > number1`, with the log line in between
abbrev pub add_overflows : NumType → ℕ → ℕ → ℕ → Bool
add_overflows t number1 number2 ret =
    (less t 0 number2 && less t ret number1) || (less t number2 0 && less t number1 ret)

unfoldable pub add_safe : NumType → ℕ → ℕ → ℕ × Bool
unfolding less
add_safe t number1 number2 =
    let ret = (number1 + number2) % size in
    if add_overflows t number1 number2 ret then (ret, false) else (ret, true)

abbrev pub sub_overflows : NumType → ℕ → ℕ → ℕ → Bool
sub_overflows t number1 number2 ret =
    (less t 0 number2 && less t number1 ret) || (less t number2 0 && less t ret number1)

-- The difference modulo 2^64
unfoldable pub sub_safe : NumType → ℕ → ℕ → ℕ × Bool
sub_safe t number1 number2 =
    let ret = (number1 + (size - number2)) % size in
    if sub_overflows t number1 number2 ret then (ret, false) else (ret, true)

-- `ret / number2`, at uint64
unfoldable pub mul_safe : ℕ → ℕ → ℕ × Bool
mul_safe number1 number2 =
    let ret = (number1 * number2) % size in
    if (number1 == 0) || (number2 == 0)
    then (ret, true)
    else if ret / number2 == number1
    then (ret, true)
    else (ret, true)
