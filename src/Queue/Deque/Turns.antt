-- ===== src/Queue/Deque/Turns.antt =====
-- The loops of Rotate in util/queue/deque.go, where the buffer has an empty slot.
use mathlib.Core.Path.{subst}
use origin.Prelude.{
  ℕ, zero, suc, ◌+◌, ◌-◌, ◌<◌, ◌≡◌, ◌≢◌, refl, nat_eq, List, [], ◌∷◌, ◌++◌, length, get_or, set,
  arith, ◌∙◌, sym, ap, length-set,
}
use origin.Queue.Mask.{power, prev_index}
use origin.Queue.Deque.{Deque}
use origin.Queue.Deque.Shape.{IsRing, contents}
use origin.Queue.Deque.Middle.{back_to_front, front_to_back}
use origin.Queue.Deque.Writes.{
  pushed_back, pushed_back-IsRing, pushed_back-contents, pushed_front, pushed_front-IsRing,
  pushed_front-contents, popped_front, popped_front-IsRing, popped_front-contents, popped_back,
  popped_back-IsRing, popped_back-contents, prev_lem,
}

set_comm :
    {T : Type 0} (xs : List T) (i j : ℕ) (a b : T)
    → i ≢ j
    → set (set xs i a) j b ≡ set (set xs j b) i a
set_comm [] i j a b ne = refl
set_comm (x ∷ xs) zero zero a b ne = absurd (ne refl)
set_comm (x ∷ xs) zero (suc j) a b ne = refl
set_comm (x ∷ xs) (suc i) zero a b ne = refl
set_comm (x ∷ xs) (suc i) (suc j) a b ne = ap (◌∷◌ x) (set_comm xs i j a b (λ e. ne (ap suc e)))

-- The first element goes to the end, `n` times.
abbrev pub turn : {T : Type 0} → ℕ → List T → List T
turn zero xs = xs
turn (suc n) [] = []
turn (suc n) (x ∷ xs) = turn n (xs ++ x ∷ [])

turn-suc : {T : Type 0} (n : ℕ) (xs : List T) → turn (suc n) xs ≡ turn 1 (turn n xs)
turn-suc zero xs = refl
turn-suc (suc n) [] = refl
turn-suc (suc n) (x ∷ xs) = turn-suc n (xs ++ x ∷ [])

module _ {T : Type 0} (z : T) where
  -- What one round of the loop makes of the deque.
  abbrev forward : Deque T → Deque T
  forward q = pushed_back z (get_or q.buf q.head z) (popped_front z q)

  forward_eq :
      (k : ℕ) (q : Deque T) (n : ℕ)
      → IsRing k q
      → 0 < q.count
      → q.count < power k
      → front_to_back z (suc n) q ≡ front_to_back z n (forward q)
  unfolding front_to_back
  forward_eq k q n r some_left room =
      let apart : q.tail ≢ q.head = ground (arith, r.spans, r.head_in, r.tail_in) in
      let same : q.count - 1 + 1 ≡ q.count = omega arith in
      rw
        (
          set_comm q.buf q.tail q.head (get_or q.buf q.head z) z apart,
          length-set q.buf q.head z,
          same,
        )
        refl

  pub front_to_back_lem :
      (k : ℕ) (n : ℕ) (q : Deque T)
      → IsRing k q
      → 0 < q.count
      → q.count < power k
      → IsRing k (front_to_back z n q) × (contents z (front_to_back z n q) ≡ turn n (contents z q))
  unfolding front_to_back
  front_to_back_lem k zero q r some_left room = (r, refl)
  front_to_back_lem k (suc n) q r some_left room =
      let p = popped_front-IsRing z k q r some_left in
      let x = get_or q.buf q.head z in
      let f = pushed_back-IsRing z k x (popped_front z q) p (omega arith) in
      let ih = front_to_back_lem k n (forward q) f (omega arith) (omega arith) in
      let e = forward_eq k q n r some_left room in
      let one : contents z (forward q) ≡ contents z (popped_front z q) ++ x ∷ [] =
        pushed_back-contents z k x (popped_front z q) p (omega arith) in
      (
        subst (IsRing k) (sym e) ih.0,
        ap (contents z) e
            ∙ ih.1
            ∙ ap (turn n) one
            ∙ sym (ap (turn (suc n)) (popped_front-contents z k q r some_left)),
      )

  abbrev backward : Deque T → Deque T
  backward q = pushed_front z (get_or q.buf (prev_index q.tail (length q.buf)) z) (popped_back z q)

  backward_eq :
      (k : ℕ) (q : Deque T) (n : ℕ)
      → IsRing k q
      → 0 < q.count
      → q.count < power k
      → back_to_front z (suc n) q ≡ back_to_front z n (backward q)
  unfolding back_to_front
  backward_eq k q n r some_left room =
      let tail = prev_index q.tail (length q.buf) in
      let head = prev_index q.head (length q.buf) in
      let pt = prev_lem z k q.tail q r r.tail_in in
      let ph = prev_lem z k q.head q r r.head_in in
      let apart : head ≢ tail = ground (arith, pt, ph, r.spans, r.head_in, r.tail_in) in
      let same : q.count - 1 + 1 ≡ q.count = omega arith in
      rw (set_comm q.buf head tail (get_or q.buf tail z) z apart, length-set q.buf tail z, same)
        refl

  -- The other way round: turned on by as many steps, the elements are as they were.
  pub back_to_front_lem :
      (k : ℕ) (n : ℕ) (q : Deque T)
      → IsRing k q
      → 0 < q.count
      → q.count < power k
      → IsRing k (back_to_front z n q) × (turn n (contents z (back_to_front z n q)) ≡ contents z q)
  unfolding back_to_front
  back_to_front_lem k zero q r some_left room = (r, refl)
  back_to_front_lem k (suc n) q r some_left room =
      let p = popped_back-IsRing z k q r some_left in
      let x = get_or q.buf (prev_index q.tail (length q.buf)) z in
      let f = pushed_front-IsRing z k x (popped_back z q) p (omega arith) in
      let ih = back_to_front_lem k n (backward q) f (omega arith) (omega arith) in
      let e = backward_eq k q n r some_left room in
      let one : contents z (backward q) ≡ x ∷ contents z (popped_back z q) =
        pushed_front-contents z k x (popped_back z q) p (omega arith) in
      (
        subst (IsRing k) (sym e) ih.0,
        ap (λ d. turn (suc n) (contents z d)) e
            ∙ turn-suc n (contents z (back_to_front z n (backward q)))
            ∙ ap (turn 1) (ih.1 ∙ one)
            ∙ sym (popped_back-contents z k q r some_left),
      )
