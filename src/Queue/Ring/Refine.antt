-- ===== src/Queue/Ring/Refine.antt =====
-- Add and Pop of util/queue/queue.go against the list of elements, by way of the deque.

use origin.Prelude.{
  ℕ, ◌-◌, ◌*◌, ◌<◌, ◌≡◌, ◌≢◌, refl, nat_eq, ◌==◌, ltb, true, false, ◌&&◌, List, [], ◌∷◌, ◌++◌,
  length, get_or, set, arith, Bool-cases, inl, inr, ◌⊎◌, ap, ◌∙◌, sym, ap₂, length-replicate,
}
use origin.Queue.Mask.{power, power_pos}
use origin.Queue.Deque
use origin.Queue.Deque.{Deque}
use origin.Queue.Deque.Shape.{IsRing, IsMinCap, IsValid, contents}
use origin.Queue.Deque.Room.{shrink_if_excess_lem}
use origin.Queue.Deque.Writes.{popped_front, popped_front-IsRing, popped_front-contents}
use origin.Queue.Deque.Ends.{push_back_lem, push_back-IsRing}
use mathlib.Core.Path.{subst}
use origin.Queue.Ring.{Queue, min_queue_len, new_queue, resize_queue, add, pop}

-- The same ring as a deque, whose least capacity is the queue's.
abbrev pub as_deque : {T : Type 0} → Queue T → Deque T
as_deque q = record {
  buf = q.buf;
  head = q.head;
  tail = q.tail;
  count = q.count;
  min_cap = min_queue_len;
}

module _ {T : Type 0} (nil : T) where
  as_deque-resize : (q : Queue T) → as_deque (resize_queue nil q) ≡ Deque.resize nil (as_deque q)
  unfolding resize_queue Deque.resize
  as_deque-resize q = refl

  length_zero : (xs : List T) → length xs ≡ 0 → xs ≡ []
  length_zero [] e = refl
  length_zero (x ∷ xs) e = absurd (omega arith)

  as_deque-add :
      (elem : T) (q : Queue T)
      → q.buf ≢ []
      → as_deque (add nil elem q) ≡ Deque.push_back nil elem (as_deque q)
  unfolding add Deque.push_back Deque.grow_if_full resize_queue Deque.resize
  as_deque-add elem q some_buf = elim (Bool-cases (q.count == length q.buf)) [
    | inl full ↦
        let not_bare : (length q.buf == 0) ≡ false = ground (arith, length_zero q.buf) in
        rw (full, not_bare, add, Deque.push_back, Deque.grow_if_full) refl
    | inr room ↦ rw (room, add, Deque.push_back, Deque.grow_if_full) refl
  ]

  as_deque-pop :
      (q : Queue T)
      → q.count ≢ 0
      → (as_deque (pop nil q).1 ≡ Deque.shrink_if_excess nil (popped_front nil (as_deque q)))
        × ((pop nil q).0 ≡ get_or q.buf q.head nil)
  unfolding pop Deque.shrink_if_excess resize_queue Deque.resize
  as_deque-pop q some_left =
      let left : (q.count == 0) ≡ false = ground arith in
      let buf = set q.buf q.head nil in
      elim (Bool-cases (ltb min_queue_len (length buf) && (q.count - 1) * 4 == length buf)) [
        | inl excess ↦ (rw (left, excess, pop, Deque.shrink_if_excess) refl, rw (left, pop) refl)
        | inr fits ↦ (rw (left, fits, pop, Deque.shrink_if_excess) refl, rw (left, pop) refl)
      ]

  -- A queue's ring; it has a buffer at any time.
  abbrev pub IsQueue : Queue T → Type 0
  IsQueue q = (k : ℕ) × IsRing k (as_deque q)

  abbrev pub elements : Queue T → List T
  elements q = contents nil (as_deque q)

  least_cap : IsMinCap min_queue_len
  least_cap = inr (4, refl, omega arith)

  IsValid-as_deque : (q : Queue T) → IsQueue q → IsValid (as_deque q)
  IsValid-as_deque q v = record { min_cap = least_cap; shape = inr v }

  has_buf : (q : Queue T) → IsQueue q → q.buf ≢ []
  has_buf q (k, r) e = absurd (omega (arith, ap length e, r.size, power_pos k))

  -- A new queue is a ring without elements.
  pub new_queue-IsQueue : IsQueue (new_queue nil) × (elements (new_queue nil) ≡ [])
  unfolding new_queue
  new_queue-IsQueue = (
    (
      4,
      record {
        small = omega arith;
        size = length-replicate min_queue_len nil;
        head_in = omega arith;
        tail_in = omega arith;
        count_in = omega arith;
        spans = inl refl;
      },
    ),
    refl,
  )

  -- On a well-formed queue of fewer than 2^60 elements Add puts the element behind the others,
  -- whether or not the buffer grows.
  pub add_lem :
      (elem : T) (q : Queue T)
      → IsQueue q
      → q.count < power 60
      → IsQueue (add nil elem q) × (elements (add nil elem q) ≡ elements q ++ elem ∷ [])
  add_lem elem q v few =
      let e = as_deque-add elem q (has_buf q v) in
      let (k, r) = push_back-IsRing nil elem (as_deque q) (IsValid-as_deque q v) few in
      (
        (k, subst (IsRing k) (sym e) r),
        ap (contents nil) e ∙ (push_back_lem nil elem (as_deque q) (IsValid-as_deque q v) few).1,
      )

  pop_none : (q : Queue T) → q.count ≡ 0 → pop nil q ≡ (nil, q)
  unfolding pop
  pop_none q e = let none_left : (q.count == 0) ≡ true = ground arith in rw (none_left, pop) refl

  -- On a well-formed queue Pop returns nil and leaves the queue alone if it is empty; otherwise it takes out the first element and
  -- leaves the others, whether or not the buffer shrinks.
  pub queue_pop_lem :
      (q : Queue T)
      → IsQueue q
      → IsQueue (pop nil q).1
        × (((elements q ≡ []) × (pop nil q ≡ (nil, q)))
            ⊎ (elements q ≡ (pop nil q).0 ∷ elements (pop nil q).1))
  queue_pop_lem q (k, r) = elim (Bool-cases (q.count == 0)) [
    | inl none_left ↦
        let same = pop_none q (ground arith) in
        let no_more : q.count ≡ 0 = ground arith in rw same ((k, r), inl (rw no_more refl, refl))
    | inr some_left ↦
        let (e, first) = as_deque-pop q (ground arith) in
        let r' = popped_front-IsRing nil k (as_deque q) r (ground arith) in
        let s = shrink_if_excess_lem nil k (popped_front nil (as_deque q)) r' least_cap in
        (
          (s.bits, subst (IsRing s.bits) (sym e) s.ring),
          inr (
              popped_front-contents nil k (as_deque q) r (ground arith)
              ∙ ap₂ ◌∷◌ (sym first) (sym (ap (contents nil) e ∙ s.elements))),
        )
  ]
