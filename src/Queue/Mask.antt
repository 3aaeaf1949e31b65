-- ===== src/Queue/Mask.antt =====
-- `x & (n - 1)` for a power of two n, by which util/queue/deque.go and queue.go go round a buffer.
use Prim.Native.Nat.{bit_and, digits, bit_and-bitwise}
use native.Mathlib.Nat.{
  mod-eq_of_lt, mod-eq-sub-mod, mul_assoc, mul-add-mod_self_left, add-zero, le_refl,
}
use origin.Prelude.{
  ℕ, zero, suc, ◌+◌, ◌-◌, ◌*◌, ◌/◌, ◌%◌, ◌^◌, min, ◌≤◌, ◌<◌, ◌≡◌, refl, arith, ◌∙◌, sym, ap, nat_eq,
  ◌==◌, ltb, if◌then◌else◌, Bool-cases, inl, inr,
}

-- The recursion on binary digits that `bit_and` stands for; `steps` is its fuel.
abbrev common_digits : ℕ → ℕ → ℕ → ℕ
common_digits x y steps = digits (λ _. zero) min steps x y

common_digits_enough : (x y s r : ℕ) → x ≤ s → x ≤ r → common_digits x y s ≡ common_digits x y r
common_digits_enough zero y zero zero h i = refl
common_digits_enough zero y zero (suc r) h i = refl
common_digits_enough zero y (suc s) zero h i = refl
common_digits_enough zero y (suc s) (suc r) h i = refl
common_digits_enough (suc x) y zero r h i = absurd (omega arith)
common_digits_enough (suc x) y (suc s) zero h i = absurd (omega arith)
common_digits_enough (suc x) y (suc s) (suc r) h i =
    omega (arith, common_digits_enough (suc x / 2) (y / 2) s r (omega arith) (omega arith))

bit_and_none : (b : ℕ) → bit_and 0 b ≡ 0
bit_and_none b = bit_and-bitwise 0 b

lowest_digit : (a b : ℕ) → bit_and a b ≡ bit_and (a / 2) (b / 2) * 2 + min (a % 2) (b % 2)
lowest_digit zero b = omega (arith, bit_and_none b, bit_and_none (b / 2))
lowest_digit (suc a) b = omega (
  arith,
  bit_and-bitwise (suc a) b,
  bit_and-bitwise (suc a / 2) (b / 2),
  common_digits_enough (suc a / 2) (b / 2) a (suc a / 2) (omega arith) (omega arith),
)

abbrev pub power : ℕ → ℕ
power zero = 1
power (suc k) = power k * 2

pub power_pos : (k : ℕ) → 0 < power k
power_pos zero = omega arith
power_pos (suc k) = omega (arith, power_pos k)

bit_and-zero : (k a : ℕ) → a ≤ k → bit_and a 0 ≡ 0
bit_and-zero zero zero h = bit_and_none 0
bit_and-zero zero (suc a) h = absurd (omega arith)
bit_and-zero (suc k) zero h = bit_and_none 0
bit_and-zero (suc k) (suc a) h =
    omega (arith, lowest_digit (suc a) 0, bit_and-zero k (suc a / 2) (omega arith))

mod_double : (a p : ℕ) → 0 < p → (a / 2) % p * 2 + a % 2 ≡ a % (p * 2)
mod_double a p h = grind arith

-- The low `k` bits are the remainder.
pub bit_and-mask : (k a : ℕ) → bit_and a (power k - 1) ≡ a % power k
bit_and-mask zero a = omega (arith, bit_and-zero a a (omega arith))
bit_and-mask (suc k) a =
    let half : (power k * 2 - 1) / 2 ≡ power k - 1 = omega (arith, power_pos k) in
    let odd : (power k * 2 - 1) % 2 ≡ 1 = omega (arith, power_pos k) in
    let low : min (a % 2) ((power k * 2 - 1) % 2) ≡ a % 2 = omega arith in
    lowest_digit a (power k * 2 - 1)
    ∙ rw (half, low, bit_and-mask k (a / 2)) (mod_double a (power k) (power_pos k))

pub power-add : (j k : ℕ) → power (j + k) ≡ power j * power k
power-add j zero = rw add-zero (omega arith)
power-add j (suc k) =
    let e : j + suc k ≡ suc (j + k) = omega arith in
    rw (e, power-add j k) (mul_assoc (power j) (power k) 2)

top_mod : (p q : ℕ) → 0 < p → 0 < q → (p * q - 1) % p ≡ p - 1
top_mod p zero hp hq = absurd (omega arith)
top_mod p (suc r) hp hq =
    let e : p * suc r - 1 ≡ p * r + (p - 1) = omega arith in
    rw e (mul-add-mod_self_left p r (p - 1) ∙ mod-eq_of_lt (omega arith))

-- `(i + 1) & (n - 1)`
abbrev pub next_index : ℕ → ℕ → ℕ
next_index i n = bit_and (i + 1) (n - 1)

-- `(i - 1) & (n - 1)`: the difference is a 64-bit int in two's complement.
abbrev pub prev_index : ℕ → ℕ → ℕ
prev_index i n = bit_and ((i + 2 ^ 64 - 1) % 2 ^ 64) (n - 1)

-- A sum of two indices goes round at most once.
pub wrap_once : (x n : ℕ) → x < n + n → x % n ≡ (if ltb x n then x else x - n)
wrap_once x n h = elim (Bool-cases (ltb x n)) [
  | inl e ↦ rw e (mod-eq_of_lt (ground arith))
  | inr e ↦ rw e (mod-eq_sub-lem x n h (ground arith))
]
  where
    mod-eq_sub-lem : (x n : ℕ) → x < n + n → n ≤ x → x % n ≡ x - n
    mod-eq_sub-lem x n h p = mod-eq-sub-mod {n = x} {m = n} p ∙ mod-eq_of_lt (omega arith)

pub next_index_lem :
    (k i : ℕ) → i < power k → next_index i (power k) ≡ (if i + 1 == power k then 0 else i + 1)
next_index_lem k i h = bit_and-mask k (i + 1) ∙ ground (arith, wrap_once (i + 1) (power k))

prev_of_zero : (k : ℕ) → k ≤ 62 → (2 ^ 64 - 1) % power k ≡ power k - 1
prev_of_zero k h =
    let e : k + (64 - k) ≡ 64 = omega arith in
    let f : power k * power (64 - k) ≡ 2 ^ 64 = sym (power-add k (64 - k)) ∙ ap power e in
    ap (λ m. (m - 1) % power k) (sym f)
    ∙ top_mod (power k) (power (64 - k)) (power_pos k) (power_pos (64 - k))

pub power_le : (j k : ℕ) → j ≤ k → power j ≤ power k
power_le j zero h = ground arith
power_le j (suc k) h = elim (Bool-cases (j == suc k)) [
  | inl e ↦ let f : j ≡ suc k = ground arith in rw f (le_refl (power (suc k)))
  | inr e ↦ omega (arith, power_le j k (ground arith))
]

pub prev_index_lem :
    (k i : ℕ)
    → k ≤ 62
    → i < power k
    → prev_index i (power k) ≡ (if i == 0 then power k - 1 else i - 1)
prev_index_lem k zero small h = bit_and-mask k (2 ^ 64 - 1) ∙ prev_of_zero k small
prev_index_lem k (suc i) small h =
    let bound : power k ≤ power 62 = power_le k 62 small in
    let e : (suc i + 2 ^ 64 - 1) % 2 ^ 64 ≡ i = omega arith in
    rw e (bit_and-mask k i ∙ mod-eq_of_lt (omega arith) ∙ ground arith)
