-- ===== src/Queue/Deque/Room.antt =====
-- growIfFull and shrinkIfExcess of util/queue/deque.go.

use origin.Prelude.{
  ℕ, zero, suc, ◌*◌, ◌≤◌, ◌<◌, ◌≡◌, refl, nat_eq, ◌==◌, ltb, if◌then◌else◌, true, false, ◌&&◌,
  length, replicate, arith, ◌⊎◌, inl, inr, ◌∙◌, length-replicate, Bool-cases,
}
use origin.Queue.Mask.{power, power_pos, power_le}
use origin.Queue.Deque.{Deque, resize, grow_if_full, shrink_if_excess, min_capacity}
use origin.Queue.Deque.Shape.{IsRing, IsBare, IsMinCap, IsValid, contents}
use origin.Queue.Deque.Resize.{resize-IsRing, contents-resize}

module _ {T : Type 0} (z : T) where
  -- A ring with the same elements, and the same least capacity where that is set.
  pub record Same (q q' : Deque T) : Type 0 where
    pub bits : ℕ
    pub ring : IsRing bits q'
    pub elements : contents z q' ≡ contents z q
    pub as_many : q'.count ≡ q.count
    pub min_cap : IsMinCap q'.min_cap

  bare-IsRing :
      (j : ℕ) (m : ℕ) (q : Deque T)
      → IsBare q
      → j ≤ 61
      → m ≡ power j
      → IsRing j (record q { min_cap = m; buf = replicate m z })
  bare-IsRing j m q b small e =
      let room = power_pos j in
      record {
        small = small;
        size = length-replicate m z ∙ e;
        head_in = omega (arith, b.head_zero, room);
        tail_in = omega (arith, b.tail_zero, room);
        count_in = omega (arith, b.count_zero, room);
        spans = inl (omega (arith, b.head_zero, b.tail_zero, b.count_zero));
      }

  bare_contents : (q q' : Deque T) → q.count ≡ 0 → q'.count ≡ 0 → contents z q' ≡ contents z q
  bare_contents q q' e e' = rw (e, e') refl

  grow_bare :
      (q : Deque T)
      → IsBare q
      → (j : ℕ) (m : ℕ) → m ≡ power j
      → j ≤ 60
      → (if q.min_cap == 0 then min_capacity else q.min_cap) ≡ m
      → (s : Same q (grow_if_full z q)) × (q.count < power s.bits)
  unfolding grow_if_full
  grow_bare q b j m e small is_m =
      let no_len : length q.buf ≡ 0 = rw (b.no_buf) refl in
      let full : (q.count == length q.buf) ≡ true = rw (no_len, b.count_zero) refl in
      let empty : (length q.buf == 0) ≡ true = rw no_len refl in
      rw (full, empty, is_m, grow_if_full)
        (
          record {
            bits = j;
            ring = bare-IsRing j m q b (omega (arith, small)) e;
            elements =
                bare_contents q (record q { min_cap = m; buf = replicate m z }) b.count_zero
                  b.count_zero;
            as_many = refl;
            min_cap = inr (j, e, small);
          },
          omega (arith, b.count_zero, power_pos j),
        )

  -- The next power of two, of a full buffer with fewer than 2^60 elements.
  small_bits : (k n : ℕ) → n ≡ power k → n < power 60 → k < 60
  small_bits k n e few = elim (Bool-cases (ltb k 60)) [
    | inl h ↦ ground arith
    | inr h ↦ ground (arith, power_le 60 k (ground arith))
  ]

  resized :
      (q : Deque T) (k k' : ℕ)
      → IsRing k q
      → 0 < q.count
      → q.count * 2 ≡ power k'
      → k' ≤ 61
      → IsMinCap q.min_cap
      → (s : Same q (resize z q)) × (s.bits ≡ k')
  unfolding resize
  resized q k k' r h e small m = (
    record {
      bits = k';
      ring = resize-IsRing z k q r h k' small e;
      elements = contents-resize z k q r h k' e;
      as_many = refl;
      min_cap = m;
    },
    refl,
  )

  -- growIfFull leaves room for one more element.
  pub grow_if_full_lem :
      (q : Deque T)
      → IsValid q
      → q.count < power 60
      → (s : Same q (grow_if_full z q)) × (q.count < power s.bits)
  unfolding grow_if_full
  grow_if_full_lem q v few = by_shape (v.shape)
    where
      by_cap :
          IsBare q → IsMinCap q.min_cap → (s : Same q (grow_if_full z q)) × (q.count < power s.bits)
      by_cap b (inl none_set) = grow_bare q b 4 16 refl (omega arith) (rw none_set refl)
      by_cap b (inr (j, e, small)) = grow_bare q b j q.min_cap e small (ground (arith, power_pos j))

      by_shape :
          IsBare q ⊎ ((k : ℕ) × IsRing k q)
          → (s : Same q (grow_if_full z q)) × (q.count < power s.bits)
      by_shape (inl b) = by_cap b v.min_cap
      by_shape (inr (k, r)) = elim (Bool-cases (q.count == length q.buf)) [
        | inl full ↦
            let as_size : q.count ≡ power k = ground (arith, r.size) in
            let room : (length q.buf == 0) ≡ false = ground (arith, r.size, power_pos k) in
            let (s, bits) =
              resized q k (suc k) r (omega (arith, as_size, power_pos k)) (omega (arith, as_size))
                (omega (arith, small_bits k q.count as_size few)) v.min_cap in
            rw (full, room, grow_if_full) (s, rw bits (omega (arith, as_size, power_pos k)))
        | inr room ↦
            rw (room, grow_if_full)
              (
                record { bits = k; ring = r; elements = refl; as_many = refl; min_cap = v.min_cap },
                ground (arith, r.count_in, r.size),
              )
      ]

  quarter : (k n : ℕ) → n * 4 ≡ power k → (j : ℕ) × (n * 2 ≡ power j) × (j ≤ k) × (0 < n)
  quarter zero n e = absurd (ground arith)
  quarter (suc k) n e = (k, omega (arith, e), omega arith, omega (arith, e, power_pos k))

  -- shrinkIfExcess keeps the elements.
  pub shrink_if_excess_lem :
      (k : ℕ) (q : Deque T) → IsRing k q → IsMinCap q.min_cap → Same q (shrink_if_excess z q)
  unfolding shrink_if_excess
  shrink_if_excess_lem k q r m =
      elim (Bool-cases (ltb q.min_cap (length q.buf) && q.count * 4 == length q.buf)) [
        | inl excess ↦
            let fourth : q.count * 4 ≡ power k = ground (arith, r.size) in
            let (j, e, le, some_left) = quarter k q.count fourth in
            rw (excess, shrink_if_excess)
              ((resized q k j r some_left e (omega (arith, le, r.small)) m).0)
        | inr fits ↦
            rw (fits, shrink_if_excess)
              (record { bits = k; ring = r; elements = refl; as_many = refl; min_cap = m })
      ]
