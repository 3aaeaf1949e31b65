-- ===== src/Queue/Deque.antt =====
-- util/queue/deque.go: a double-ended queue in a ring buffer whose length is 0 or a power of two.
-- A write past the buffer would panic; `set` leaves the buffer alone there, and `Deque.Shape`
-- says which states are well formed.
-- `zero_value` is `var zero T`. Buffers are shorter than 2^62.
pub mod Shape
pub mod Resize
pub mod Room
pub mod Middle
pub mod Turns
pub mod Full
pub mod Rotate
pub mod Writes
pub mod Ends
use origin.Prelude.{
  ℕ, zero, suc, ◌+◌, ◌-◌, ◌*◌, ◌^◌, min, nat_eq, ◌==◌, ltb, leb, if◌then◌else◌, Bool, true, false,
  ◌&&◌, List, [], ◌∷◌, ◌++◌, Option, none, some, length, get_or, set, take, drop, replicate,
  Outcome, ok, panic, ◌>>=◌, out_of_fuel, ℤ, pos, negsuc,
}
use origin.Queue.Mask.{next_index, prev_index}
use Prim.Native.Nat.{bit_and}

pub record Deque (T : Type 0) : Type 0 where
  pub buf : List T
  pub head : ℕ
  pub tail : ℕ
  pub count : ℕ
  pub min_cap : ℕ

abbrev pub min_capacity : ℕ
min_capacity = 16

-- `for x < bound { x <<= 1 }`, of which the fuel bounds the rounds
unfoldable pub double_until : ℕ → ℕ → ℕ → ℕ
double_until zero bound x = x
double_until (suc fuel) bound x = elim (ltb x bound) [
  | true ↦ double_until fuel bound (x * 2)
  | false ↦ x
]

-- The parts that a method without a count check would read out of range are `Option` or `Outcome`.
module _ {T : Type 0} (zero_value : T) where
  unfoldable pub new : ℕ → ℕ → Deque T
  unfolding double_until
  new capacity minimum =
      let min_cap = double_until minimum minimum min_capacity in
      record {
        buf =
            if capacity == 0
            then []
            else replicate (double_until capacity capacity min_cap) zero_value;
        head = 0;
        tail = 0;
        count = 0;
        min_cap = min_cap;
      }

  unfoldable pub cap : Deque T → ℕ
  cap q = length q.buf

  unfoldable pub len : Deque T → ℕ
  len q = q.count

  -- `copy(dst, src)` and `copy(dst[n:], src)`
  unfoldable pub copy : List T → List T → List T
  copy dst src =
      take (min (length dst) (length src)) src ++ drop (min (length dst) (length src)) dst

  unfoldable pub resize : Deque T → Deque T
  resize q =
      let new_buf = replicate (q.count * 2) zero_value in
      record q {
        head = 0;
        tail = q.count;
        buf =
            if ltb q.head q.tail
            then copy new_buf (take (q.tail - q.head) (drop q.head q.buf))
            else (let first = drop q.head q.buf in
                let n = min (length new_buf) (length first) in
                let half = copy new_buf first in
                take n half ++ copy (drop n half) (take q.tail q.buf));
      }

  unfoldable pub grow_if_full : Deque T → Deque T
  grow_if_full q =
      if q.count == length q.buf
      then (if length q.buf == 0
          then (let m = if q.min_cap == 0 then min_capacity else q.min_cap in
              record q { min_cap = m; buf = replicate m zero_value })
          else resize q)
      else q

  unfoldable pub shrink_if_excess : Deque T → Deque T
  shrink_if_excess q =
      if ltb q.min_cap (length q.buf) && q.count * 4 == length q.buf then resize q else q

  unfoldable pub push_back : T → Deque T → Deque T
  push_back elem q =
      let q1 = grow_if_full q in
      record q1 {
        buf = set q1.buf q1.tail elem;
        tail = next_index q1.tail (length q1.buf);
        count = q1.count + 1;
      }

  unfoldable pub push_front : T → Deque T → Deque T
  push_front elem q =
      let q1 = grow_if_full q in
      let head = prev_index q1.head (length q1.buf) in
      record q1 { buf = set q1.buf head elem; head = head; count = q1.count + 1 }

  unfoldable pub pop_front : Deque T → Outcome (T × Deque T)
  pop_front q =
      if q.count == 0
      then panic
      else ok (
        get_or q.buf q.head zero_value,
        shrink_if_excess (record q {
          buf = set q.buf q.head zero_value;
          head = next_index q.head (length q.buf);
          count = q.count - 1;
        }),
      )

  unfoldable pub pop_back : Deque T → Outcome (T × Deque T)
  pop_back q =
      if q.count == 0
      then panic
      else (let tail = prev_index q.tail (length q.buf) in
          ok (
            get_or q.buf tail zero_value,
            shrink_if_excess
                (record q { buf = set q.buf tail zero_value; tail = tail; count = q.count - 1 }),
          ))

  unfoldable pub front : Deque T → Outcome T
  front q = if q.count == 0 then panic else ok (get_or q.buf q.head zero_value)

  unfoldable pub back : Deque T → Outcome T
  back q =
      if q.count == 0
      then panic
      else ok (get_or q.buf (prev_index q.tail (length q.buf)) zero_value)

  -- The buffer's index of the element `i`.
  abbrev slot : Deque T → ℕ → ℕ
  slot q i = bit_and (q.head + i) (length q.buf - 1)

  unfoldable pub at : Deque T → ℤ → Outcome T
  at q (negsuc i) = panic
  at q (pos i) = if leb q.count i then panic else ok (get_or q.buf (slot q i) zero_value)

  unfoldable pub set_at : Deque T → ℤ → T → Outcome (Deque T)
  set_at q (negsuc i) elem = panic
  set_at q (pos i) elem =
      if leb q.count i then panic else ok (record q { buf = set q.buf (slot q i) elem })

  -- The loop of Clear from index `h` to `tail`.
  unfoldable pub clear_loop : ℕ → ℕ → ℕ → List T → Outcome (List T)
  clear_loop zero h tail buf = out_of_fuel
  clear_loop (suc fuel) h tail buf = elim (h == tail) [
    | true ↦ ok buf
    | false ↦ clear_loop fuel (bit_and (h + 1) (length buf - 1)) tail (set buf h zero_value)
  ]

  unfoldable pub clear : Deque T → Outcome (Deque T)
  clear q = clear_loop (length q.buf + 1) q.head q.tail q.buf >>= λ buf.
      ok (record q { buf = buf; head = 0; tail = 0; count = 0 })

  -- The first index from `i` on, of the `n` that are left, at which `f` holds.
  unfoldable pub index_loop : (T → Bool) → Deque T → ℕ → ℕ → Option ℕ
  index_loop f q zero i = none
  index_loop f q (suc n) i = elim (f (get_or q.buf (slot q i) zero_value)) [
    | true ↦ some i
    | false ↦ index_loop f q n (i + 1)
  ]

  -- `none` is -1.
  unfoldable pub index : (T → Bool) → Deque T → Option ℕ
  unfolding index_loop
  index f q = index_loop f q q.count 0

  -- The last index below `n` at which `f` holds.
  unfoldable pub rindex_loop : (T → Bool) → Deque T → ℕ → Option ℕ
  rindex_loop f q zero = none
  rindex_loop f q (suc i) = elim (f (get_or q.buf (slot q i) zero_value)) [
    | true ↦ some i
    | false ↦ rindex_loop f q i
  ]

  unfoldable pub rindex : (T → Bool) → Deque T → Option ℕ
  unfolding rindex_loop
  rindex f q = rindex_loop f q q.count

  unfoldable pub set_min_capacity : ℕ → Deque T → Deque T
  set_min_capacity min_cap_exp q = record q {
    min_cap = if ltb min_capacity (2 ^ min_cap_exp) then 2 ^ min_cap_exp else min_capacity;
  }
