-- ===== src/Queue/Deque/Rotate.antt =====
-- Rotate of util/queue/deque.go against the list of elements, with a full buffer and with an empty
-- slot.
use Prim.Native.Nat.{bit_and}
use native.Mathlib.Nat.{mod-lt}
use origin.Prelude.{
  ℕ, zero, suc, ◌+◌, ◌-◌, ◌%◌, ◌^◌, ◌≤◌, ◌<◌, ◌≡◌, ◌≢◌, refl, nat_eq, ◌==◌, leb, List, [], ◌∷◌,
  length, arith, inl, inr, ◌∙◌, sym, ap, Bool-cases, ℤ, pos, negsuc, length-tabulate,
}
use origin.Queue.Mask.{power, power_pos, bit_and-mask}
use origin.Queue.Deque.{Deque}
use origin.Queue.Deque.Shape.{IsRing, IsMinCap, IsValid, cell, contents}
use origin.Queue.Deque.Middle.{back_to_front, front_to_back, rotate_front, rotate_back, rotate}
use origin.Queue.Deque.Ends.{has-IsRing}
use origin.Queue.Deque.Turns.{turn, front_to_back_lem, back_to_front_lem}
use origin.Queue.Deque.Full.{spun, spun-contents, spun-IsRing, back_lem}

-- What `rotate` should make of the elements `xs`.
abbrev pub IsRotated : {T : Type 0} → ℤ → List T → List T → Type 0
IsRotated (pos n) xs ys = ys ≡ turn (n % length xs) xs
IsRotated (negsuc n) xs ys = turn (suc n % length xs) ys ≡ xs

module _ {T : Type 0} (z : T) where
  min_cap-front_to_back : (n : ℕ) (q : Deque T) → (front_to_back z n q).min_cap ≡ q.min_cap
  unfolding front_to_back
  min_cap-front_to_back zero q = refl
  min_cap-front_to_back (suc n) q = min_cap-front_to_back n _

  min_cap-back_to_front : (n : ℕ) (q : Deque T) → (back_to_front z n q).min_cap ≡ q.min_cap
  unfolding back_to_front
  min_cap-back_to_front zero q = refl
  min_cap-back_to_front (suc n) q = min_cap-back_to_front n _

  length-contents : (q : Deque T) → length (contents z q) ≡ q.count
  length-contents q = length-tabulate q.count (cell z q)

  turn_short : (n : ℕ) (xs : List T) → length xs ≤ 1 → turn (n % length xs) xs ≡ xs
  turn_short n [] h = turn_nil (n % 0)
    where
      turn_nil : (m : ℕ) → turn {T = T} m [] ≡ []
      turn_nil zero = refl
      turn_nil (suc m) = refl
  turn_short n (x ∷ []) h =
      let none_of_it : n % 1 ≡ 0 = omega arith in ap (λ m. turn m (x ∷ [])) none_of_it
  turn_short n (x ∷ y ∷ xs) h = absurd (omega arith)

  ring_IsValid : (k : ℕ) (q : Deque T) → IsMinCap q.min_cap → IsRing k q → IsValid q
  ring_IsValid k q m r = record { min_cap = m; shape = inr (k, r) }

  module _ (k : ℕ) (q : Deque T) (r : IsRing k q) (m : IsMinCap q.min_cap) (steps : ℕ)
      (some_left : 0 < q.count) (few : steps < q.count) where
    full_lem : q.head ≡ q.tail → q.count ≡ power k
    full_lem e = ground (arith, r.spans, r.head_in, r.tail_in, r.count_in)

    room_lem : q.head ≢ q.tail → q.count < power k
    room_lem ne = ground (arith, r.spans, r.head_in, r.tail_in, r.count_in)

    rotate_front_lem :
        IsValid (rotate_front z steps q)
        × (contents z (rotate_front z steps q) ≡ turn steps (contents z q))
    unfolding rotate_front
    rotate_front_lem = elim (Bool-cases (steps == 0)) [
      | inl stay ↦
          let none_of_it : steps ≡ 0 = ground arith in
          rw (stay, rotate_front)
            (ring_IsValid k q m r, ap (λ i. turn i (contents z q)) (sym none_of_it))
      | inr go ↦ elim (Bool-cases (q.head == q.tail)) [
        | inl full ↦
            let count_is = full_lem (ground arith) in
            let h : bit_and (q.head + steps) (length q.buf - 1) ≡ (q.head + steps) % power k =
              rw (r.size) (bit_and-mask k (q.head + steps)) in
            rw (go, full, rotate_front, h)
              (
                ring_IsValid k _ m (
                    spun-IsRing z k ((q.head + steps) % power k) q r count_is
                      (mod-lt (q.head + steps) (power_pos k))),
                spun-contents z k q steps r count_is,
              )
        | inr open_slot ↦
            let f = front_to_back_lem z k steps q r some_left (room_lem (ground arith)) in
            rw (go, open_slot, rotate_front)
              (
                ring_IsValid k (front_to_back z steps q) (rw (min_cap-front_to_back steps q) m) f.0,
                f.1,
              )
      ]
    ]

    rotate_back_lem :
        IsValid (rotate_back z steps q)
        × (turn steps (contents z (rotate_back z steps q)) ≡ contents z q)
    unfolding rotate_back
    rotate_back_lem = elim (Bool-cases (steps == 0)) [
      | inl stay ↦
          let none_of_it : steps ≡ 0 = ground arith in
          rw (stay, rotate_back) (ring_IsValid k q m r, ap (λ i. turn i (contents z q)) none_of_it)
      | inr go ↦ elim (Bool-cases (q.head == q.tail)) [
        | inl full ↦
            let count_is = full_lem (ground arith) in
            let v = (q.head + 2 ^ 64 - steps) % 2 ^ 64 in
            let h = bit_and v (power k - 1) in
            let size = r.size in
            let inside : h < power k = rw (bit_and-mask k v) (mod-lt v (power_pos k)) in
            let ring = spun-IsRing z k h q r count_is inside in
            let back : (h + steps) % power k ≡ q.head =
              back_lem z k q.head steps r.small r.head_in (omega (arith, r.count_in)) in
            rw (go, full, rotate_back, size)
              (
                ring_IsValid k _ m ring,
                sym (spun-contents z k (spun z h q) steps ring count_is)
                    ∙ ap (λ i. contents z (spun z i q)) back,
              )
        | inr open_slot ↦
            let f = back_to_front_lem z k steps q r some_left (room_lem (ground arith)) in
            rw (go, open_slot, rotate_back)
              (
                ring_IsValid k (back_to_front z steps q) (rw (min_cap-back_to_front steps q) m) f.0,
                f.1,
              )
      ]
    ]

  -- Rotate of a valid deque gives a valid one. By `n` steps it puts the first element at the end
  -- `n % count` times; by `-n` steps it gives the elements that are as before once they are turned
  -- on by `n % count`. A full buffer and one with an empty slot are treated alike.
  pub rotate_lem :
      (n : ℤ) (q : Deque T)
      → IsValid q
      → IsValid (rotate z n q) × IsRotated n (contents z q) (contents z (rotate z n q))
  unfolding rotate
  rotate_lem (pos n) q v = elim (Bool-cases (leb q.count 1)) [
    | inl short ↦
        rw (short, rotate)
          (v, sym (turn_short n (contents z q) (rw (length-contents q) (ground arith))))
    | inr long ↦
        let (k, r) = has-IsRing z q v (ground arith) in
        let size = length-contents q in
        let done =
          rotate_front_lem k q r v.min_cap (n % q.count) (ground arith)
            (mod-lt (n) (ground arith)) in
        rw (long, rotate, size) done
  ]
  rotate_lem (negsuc n) q v = elim (Bool-cases (leb q.count 1)) [
    | inl short ↦
        rw (short, rotate)
          (v, turn_short (suc n) (contents z q) (rw (length-contents q) (ground arith)))
    | inr long ↦
        let (k, r) = has-IsRing z q v (ground arith) in
        let size = length-contents q in
        let done =
          rotate_back_lem k q r v.min_cap (suc n % q.count) (ground arith)
            (mod-lt (suc n) (ground arith)) in
        rw (long, rotate, size) done
  ]
