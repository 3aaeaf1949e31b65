-- ===== src/Smath/Tests.antt =====
-- Tests of util/smath/smath.go.
use origin.Prelude.{◌+◌, ◌*◌, ◌<◌, ◌≡◌, ◌≢◌, refl, true, false, arith}
use origin.Smath.{size, int64, rank, add_safe, mul_safe, less}
use origin.Smath.Overflow.{sum_fits, offset, add_safe_lem, mul_overflow_unreported}

-- The largest int64 and one.
add_safe_lem_example :
    ((add_safe int64 9223372036854775807 1).1 ≡ sum_fits int64 9223372036854775807 1)
    × (sum_fits int64 9223372036854775807 1 ≡ true
        → rank int64 (add_safe int64 9223372036854775807 1).0 + offset int64
          ≡ rank int64 9223372036854775807 + rank int64 1)
add_safe_lem_example = add_safe_lem int64 9223372036854775807 1 (omega arith) (omega arith)

mul_overflow_unreported_example :
    ((mul_safe 4294967296 4294967296).1 ≡ true)
    × ((mul_safe 4294967296 4294967296).0 < size)
    × ((mul_safe 4294967296 4294967296).0 ≢ 4294967296 * 4294967296)
mul_overflow_unreported_example = mul_overflow_unreported 4294967296 4294967296 (omega arith)

add_safe_test : add_safe int64 9223372036854775807 1 ≡ (9223372036854775808, false)
unfolding add_safe less
add_safe_test = refl

mul_safe_test : mul_safe 4294967296 4294967297 ≡ (4294967296, true)
unfolding mul_safe
mul_safe_test = refl
