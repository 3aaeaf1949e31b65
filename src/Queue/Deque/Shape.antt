-- ===== src/Queue/Deque/Shape.antt =====
-- The buffer of util/queue/deque.go, its indices, and the elements for which it stands.

use origin.Prelude.{
  ℕ, ◌+◌, ◌-◌, ◌≤◌, ◌<◌, ◌≡◌, nat_eq, ltb, if◌then◌else◌, List, [], length, get_or, arith, ◌⊎◌, ◌∙◌,
  tabulate,
}
use origin.Queue.Mask.{power, bit_and-mask, wrap_once}
use origin.Queue.Deque.{Deque, slot}

-- The least capacity is not set, or a power of two.
abbrev pub IsMinCap : ℕ → Type 0
IsMinCap m = (m ≡ 0) ⊎ ((j : ℕ) × (m ≡ power j) × (j ≤ 60))

module _ {T : Type 0} where
  -- A buffer of `power k` elements; the `count` elements from `head` on end before `tail`.
  pub record IsRing (k : ℕ) (q : Deque T) : Type 0 where
    pub small : k ≤ 61
    pub size : length q.buf ≡ power k
    pub head_in : q.head < power k
    pub tail_in : q.tail < power k
    pub count_in : q.count ≤ power k
    pub spans : (q.tail ≡ q.head + q.count) ⊎ (q.tail + power k ≡ q.head + q.count)

  -- A deque without a buffer, as `new` makes it for capacity 0 and Go's zero value is.
  pub record IsBare (q : Deque T) : Type 0 where
    pub no_buf : q.buf ≡ []
    pub head_zero : q.head ≡ 0
    pub tail_zero : q.tail ≡ 0
    pub count_zero : q.count ≡ 0

  pub record IsValid (q : Deque T) : Type 0 where
    pub min_cap : IsMinCap q.min_cap
    pub shape : IsBare q ⊎ ((k : ℕ) × IsRing k q)

  -- Where element `i` stands.
  pub slot_lem :
      (zero_value : T) (k : ℕ) (q : Deque T) (i : ℕ)
      → IsRing k q
      → i ≤ power k
      → slot zero_value q i
        ≡ (if ltb (q.head + i) (power k) then q.head + i else q.head + i - power k)
  slot_lem zero_value k q i r h =
      rw (r.size)
        (bit_and-mask k (q.head + i) ∙ wrap_once (q.head + i) (power k) (omega (arith, r.head_in)))

module _ {T : Type 0} (zero_value : T) where
  abbrev pub cell : Deque T → ℕ → T
  cell q i = get_or q.buf (slot zero_value q i) zero_value

  -- The elements from the front to the back.
  abbrev pub contents : Deque T → List T
  contents q = tabulate q.count (cell q)
