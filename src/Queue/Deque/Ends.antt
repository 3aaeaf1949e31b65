-- ===== src/Queue/Deque/Ends.antt =====
-- PushBack, PushFront, PopBack and PopFront of util/queue/deque.go.

use origin.Prelude.{
  ℕ, ◌<◌, ◌≡◌, ◌≢◌, refl, nat_eq, ◌==◌, [], ◌∷◌, ◌++◌, length, get_or, arith, ◌⊎◌, inl, inr, ◌∙◌,
  sym, ap, Bool-cases, ok, panic,
}
use origin.Queue.Mask.{power, prev_index}
use origin.Queue.Deque.{
  Deque, grow_if_full, shrink_if_excess, push_back, push_front, pop_front, pop_back,
}
use origin.Queue.Deque.Shape.{IsRing, IsBare, IsValid, contents}
use origin.Queue.Deque.Room.{grow_if_full_lem, shrink_if_excess_lem}
use origin.Queue.Deque.Writes.{
  pushed_back-IsRing, pushed_back-contents, pushed_front-IsRing, pushed_front-contents,
  popped_front, popped_front-IsRing, popped_front-contents, popped_back, popped_back-IsRing,
  popped_back-contents,
}

module _ {T : Type 0} (z : T) where
  pub push_back-IsRing :
      (elem : T) (q : Deque T)
      → IsValid q
      → q.count < power 60
      → (k : ℕ) × IsRing k (push_back z elem q)
  unfolding push_back
  push_back-IsRing elem q v few =
      let (s, room) = grow_if_full_lem z q v few in
      (s.bits, pushed_back-IsRing z s.bits elem (grow_if_full z q) s.ring (rw (s.as_many) room))

  -- On a valid deque of fewer than 2^60 elements PushBack gives a valid deque with `elem` after
  -- the others, in order, whether or not the buffer grows.
  pub push_back_lem :
      (elem : T) (q : Deque T)
      → IsValid q
      → q.count < power 60
      → IsValid (push_back z elem q) × (contents z (push_back z elem q) ≡ contents z q ++ elem ∷ [])
  unfolding push_back
  push_back_lem elem q v few =
      let (s, room) = grow_if_full_lem z q v few in
      let g = grow_if_full z q in
      (
        record { min_cap = s.min_cap; shape = inr (push_back-IsRing elem q v few) },
        pushed_back-contents z s.bits elem g s.ring (rw (s.as_many) room)
            ∙ ap (λ xs. xs ++ elem ∷ []) s.elements,
      )

  -- On a valid deque of fewer than 2^60 elements PushFront gives a valid deque with `elem` before
  -- the others, in order, whether or not the buffer grows.
  pub push_front_lem :
      (elem : T) (q : Deque T)
      → IsValid q
      → q.count < power 60
      → IsValid (push_front z elem q) × (contents z (push_front z elem q) ≡ elem ∷ contents z q)
  unfolding push_front
  push_front_lem elem q v few =
      let (s, room) = grow_if_full_lem z q v few in
      let g = grow_if_full z q in
      (
        record {
          min_cap = s.min_cap;
          shape = inr (s.bits, pushed_front-IsRing z s.bits elem g s.ring (rw (s.as_many) room));
        },
        pushed_front-contents z s.bits elem g s.ring (rw (s.as_many) room)
            ∙ ap (◌∷◌ elem) s.elements,
      )

  pub has-IsRing : (q : Deque T) → IsValid q → q.count ≢ 0 → (k : ℕ) × IsRing k q
  has-IsRing q v some_left = by_shape v.shape
    where
      by_shape : IsBare q ⊎ ((k : ℕ) × IsRing k q) → (k : ℕ) × IsRing k q
      by_shape (inl b) = absurd (some_left b.count_zero)
      by_shape (inr p) = p

  -- On a valid deque PopFront panics when there is no element; otherwise it returns the first
  -- element and a valid deque with the others, in order, whether or not the buffer shrinks.
  pub pop_front_lem :
      (q : Deque T)
      → IsValid q
      → ((contents z q ≡ []) × (pop_front z q ≡ panic))
        ⊎ ((x : T) × (q' : Deque T) × (pop_front z q ≡ ok (x, q'))
            × IsValid q'
            × (contents z q ≡ x ∷ contents z q'))
  unfolding pop_front
  pop_front_lem q v = elim (Bool-cases (q.count == 0)) [
    | inl none_left ↦
        let empty : q.count ≡ 0 = ground arith in
        inl (rw empty refl, rw (none_left, pop_front) refl)
    | inr some_left ↦
        let (k, r) = has-IsRing q v (ground arith) in
        let r' = popped_front-IsRing z k q r (ground arith) in
        let s = shrink_if_excess_lem z k (popped_front z q) r' v.min_cap in
        inr (
          get_or q.buf q.head z,
          shrink_if_excess z (popped_front z q),
          rw (some_left, pop_front) refl,
          record { min_cap = s.min_cap; shape = inr (s.bits, s.ring) },
          popped_front-contents z k q r (ground arith)
              ∙ ap (◌∷◌ (get_or q.buf q.head z)) (sym s.elements),
        )
  ]

  -- On a valid deque PopBack panics when there is no element; otherwise it returns the last
  -- element and a valid deque with the others, in order, whether or not the buffer shrinks.
  pub pop_back_lem :
      (q : Deque T)
      → IsValid q
      → ((contents z q ≡ []) × (pop_back z q ≡ panic))
        ⊎ ((x : T) × (q' : Deque T) × (pop_back z q ≡ ok (x, q'))
            × IsValid q'
            × (contents z q ≡ contents z q' ++ x ∷ []))
  unfolding pop_back
  pop_back_lem q v = elim (Bool-cases (q.count == 0)) [
    | inl none_left ↦
        let empty : q.count ≡ 0 = ground arith in inl (rw empty refl, rw (none_left, pop_back) refl)
    | inr some_left ↦
        let (k, r) = has-IsRing q v (ground arith) in
        let r' = popped_back-IsRing z k q r (ground arith) in
        let s = shrink_if_excess_lem z k (popped_back z q) r' v.min_cap in
        let x = get_or q.buf (prev_index q.tail (length q.buf)) z in
        inr (
          x,
          shrink_if_excess z (popped_back z q),
          rw (some_left, pop_back) refl,
          record { min_cap = s.min_cap; shape = inr (s.bits, s.ring) },
          popped_back-contents z k q r (ground arith) ∙ ap (λ xs. xs ++ x ∷ []) (sym s.elements),
        )
  ]
