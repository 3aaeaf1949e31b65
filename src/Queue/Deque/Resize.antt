-- ===== src/Queue/Deque/Resize.antt =====
-- resize of util/queue/deque.go, which moves the elements to another buffer.

use origin.Prelude.{
  ℕ, ◌+◌, ◌-◌, ◌*◌, ◌%◌, min, ◌≤◌, ◌<◌, ◌≡◌, refl, nat_eq, ltb, if◌then◌else◌, true, false, List,
  ◌++◌, length, get_or, take, drop, replicate, arith, inl, inr, ◌∙◌, sym, ap, tabulate_eq,
  length-append, length-take, length-drop, length-replicate, get_or-take, get_or-drop,
  get_or-append_left, get_or-append_right, Bool-cases,
}
use origin.Queue.Mask.{power, bit_and-mask, wrap_once}
use origin.Queue.Deque.{Deque, slot, copy, resize}
use origin.Queue.Deque.Shape.{IsRing, slot_lem, cell, contents}

module _ {T : Type 0} (z : T) where
  length-copy : (dst src : List T) → length (copy z dst src) ≡ length dst
  unfolding copy
  length-copy dst src =
      let n = min (length dst) (length src) in
      omega (
        arith,
        length-append (take n src) (drop n dst),
        length-take n src (omega arith),
        length-drop n dst,
      )

  get_or-copy :
      (dst src : List T) (i : ℕ)
      → i < min (length dst) (length src)
      → get_or (copy z dst src) i z ≡ get_or src i z
  unfolding copy
  get_or-copy dst src i h =
      let n = min (length dst) (length src) in
      get_or-append_left (take n src) (drop n dst) i z
        (omega (arith, length-take n src (omega arith)))
      ∙ get_or-take n src i z h

  module _ (k : ℕ) (q : Deque T) (r : IsRing k q) (pos : 0 < q.count) where
    abbrev blank : List T
    blank = replicate (q.count * 2) z

    length-blank : length blank ≡ q.count * 2
    length-blank = length-replicate (q.count * 2) z

    -- The elements lie in one piece.
    straight :
        (i : ℕ)
        → i < q.count
        → ltb q.head q.tail ≡ true
        → get_or (copy z blank (take (q.tail - q.head) (drop q.head q.buf))) i z
          ≡ get_or q.buf (q.head + i) z
    straight i h e =
        let n = q.tail - q.head in
        let inside =
          length-take n (drop q.head q.buf)
            (ground (arith, length-drop q.head q.buf, r.size, r.tail_in)) in
        get_or-copy blank (take n (drop q.head q.buf)) i
          (ground (arith, inside, length-blank, r.spans, r.head_in))
        ∙ get_or-take n (drop q.head q.buf) i z (ground (arith, r.spans, r.head_in))
        ∙ get_or-drop q.head q.buf i z

    abbrev first : List T
    first = drop q.head q.buf

    abbrev folded : List T
    folded =
        let n = min (length blank) (length first) in
        let half = copy z blank first in take n half ++ copy z (drop n half) (take q.tail q.buf)

    -- The elements go round the end: the piece from `head` on, then the one before `tail`.
    folded_lem :
        (i : ℕ)
        → i < q.count
        → ltb q.head q.tail ≡ false
        → get_or folded i z
          ≡ get_or q.buf (if ltb (q.head + i) (power k) then q.head + i else q.head + i - power k) z
    folded_lem i h e =
        let m = length q.buf - q.head in
        let n = min (length blank) (length first) in
        let half = copy z blank first in
        let rest = copy z (drop n half) (take q.tail q.buf) in
        let len_first = length-drop q.head q.buf in
        let n_is : n ≡ m = ground (arith, length-blank, len_first, r.spans, r.size, r.tail_in) in
        let len_half : length half ≡ q.count * 2 = length-copy blank first ∙ length-blank in
        let len_take : length (take n half) ≡ n =
          length-take n half (ground (arith, n_is, len_half, r.spans, r.size, r.tail_in)) in
        elim (Bool-cases (ltb (q.head + i) (power k))) [
          | inl before ↦ rw before (
              get_or-append_left (take n half) rest i z (ground (arith, len_take, n_is, r.size))
              ∙ get_or-take n half i z (ground (arith, n_is, r.size))
              ∙ get_or-copy blank first i (ground (arith, n_is, r.size))
              ∙ get_or-drop q.head q.buf i z)
          | inr behind ↦
              let j = q.head + i - power k in
              let at : i ≡ length (take n half) + j =
                ground (arith, len_take, n_is, r.size, r.head_in) in
              let len_tail : length (take q.tail q.buf) ≡ q.tail =
                length-take q.tail q.buf (omega (arith, r.size, r.tail_in)) in
              let len_rest : length (drop n half) ≡ q.count * 2 - n =
                length-drop n half ∙ ap (λ l. l - n) len_half in
              let short : j < q.tail = ground (arith, r.spans, r.head_in) in
              rw behind (
                ap (λ l. get_or (take n half ++ rest) l z) at
                ∙ get_or-append_right (take n half) rest j z
                ∙ get_or-copy (drop n half) (take q.tail q.buf) j (
                    ground (arith, len_tail, len_rest, n_is, r.size, r.spans, r.head_in, r.tail_in))
                ∙ get_or-take q.tail q.buf j z short)
        ]

    length-resize : length (resize z q).buf ≡ q.count * 2
    unfolding resize
    length-resize = elim (Bool-cases (ltb q.head q.tail)) [
      | inl e ↦
          rw (e, resize)
            (length-copy blank (take (q.tail - q.head) (drop q.head q.buf)) ∙ length-blank)
      | inr e ↦
          let n = min (length blank) (length first) in
          let half = copy z blank first in
          rw (e, resize)
            (omega (
              arith,
              length-append (take n half) (copy z (drop n half) (take q.tail q.buf)),
              length-take n half (omega (arith, length-copy blank first)),
              length-copy (drop n half) (take q.tail q.buf),
              length-drop n half,
              length-copy blank first,
              length-blank,
            ))
    ]

    buf_lem :
        (i : ℕ)
        → i < q.count
        → get_or (resize z q).buf i z
          ≡ get_or q.buf (if ltb (q.head + i) (power k) then q.head + i else q.head + i - power k) z
    unfolding resize
    buf_lem i h = elim (Bool-cases (ltb q.head q.tail)) [
      | inl e ↦
          let inside : ltb (q.head + i) (power k) ≡ true =
            ground (arith, r.spans, r.tail_in, r.head_in) in
          rw (e, inside, resize) (straight i h e)
      | inr e ↦ rw (e, resize) (folded_lem i h e)
    ]

    head-resize : (resize z q).head ≡ 0
    unfolding resize
    head-resize = refl

    -- Every element is where it was, counted from the head.
    cell-resize :
        (k' : ℕ)
        → q.count * 2 ≡ power k'
        → (i : ℕ) → i < q.count
        → cell z (resize z q) i ≡ cell z q i
    cell-resize k' e i h =
        let in_count : i ≤ power k = omega (arith, r.count_in) in
        let size = length-resize ∙ e in
        let inside : (0 + i) % power k' ≡ i =
          wrap_once (0 + i) (power k') (omega arith) ∙ ground arith in
        let here : slot z (resize z q) i ≡ i =
          rw (size, head-resize) (bit_and-mask k' (0 + i) ∙ inside) in
        ap (λ j. get_or (resize z q).buf j z) here
        ∙ buf_lem i h
        ∙ ap (λ j. get_or q.buf j z) (sym (slot_lem z k q i r (in_count)))

    pub resize-IsRing : (k' : ℕ) → k' ≤ 61 → q.count * 2 ≡ power k' → IsRing k' (resize z q)
    unfolding resize
    resize-IsRing k' small e = record {
      small = small;
      size = length-resize ∙ e;
      head_in = omega arith;
      tail_in = omega arith;
      count_in = omega arith;
      spans = inl (omega arith);
    }

    pub contents-resize : (k' : ℕ) → q.count * 2 ≡ power k' → contents z (resize z q) ≡ contents z q
    unfolding resize
    contents-resize k' e = tabulate_eq q.count (cell z (resize z q)) (cell z q) (cell-resize k' e)
