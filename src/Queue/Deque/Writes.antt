-- ===== src/Queue/Deque/Writes.antt =====
-- The writes of PushBack, PushFront, PopBack and PopFront of util/queue/deque.go, without the change
-- of buffer that precedes or follows them.

use origin.Prelude.{
  ℕ, suc, ◌+◌, ◌-◌, ◌≤◌, ◌<◌, ◌≡◌, refl, nat_eq, ◌==◌, ltb, if◌then◌else◌, true, false, [], ◌∷◌,
  ◌++◌, length, get_or, set, arith, ◌∙◌, sym, ap, ap₂, tabulate, tabulate_eq, tabulate_last,
  length-set, get_or-set,
}
use origin.Queue.Mask.{power, power_pos, next_index, prev_index, next_index_lem, prev_index_lem}
use origin.Queue.Deque.{Deque}
use origin.Queue.Deque.Shape.{IsRing, slot_lem, cell, contents}

-- An index that has gone round at most once.
abbrev wrap : ℕ → ℕ → ℕ
wrap k j = if ltb j (power k) then j else j - power k

module _ {T : Type 0} (z : T) where
  cell_lem :
      (k : ℕ) (q : Deque T) (i : ℕ)
      → IsRing k q
      → i ≤ power k
      → cell z q i ≡ get_or q.buf (wrap k (q.head + i)) z
  cell_lem k q i r h = ap (λ j. get_or q.buf j z) (slot_lem z k q i r h)

  tail_lem :
      (k : ℕ) (q : Deque T) → IsRing k q → q.count < power k → q.tail ≡ wrap k (q.head + q.count)
  tail_lem k q r room = ground (arith, r.spans, r.head_in, r.tail_in)

  -- The ring after PushBack has written.
  abbrev pub pushed_back : T → Deque T → Deque T
  pushed_back elem q = record q {
    buf = set q.buf q.tail elem;
    tail = next_index q.tail (length q.buf);
    count = q.count + 1;
  }

  pub pushed_back-IsRing :
      (k : ℕ) (elem : T) (q : Deque T)
      → IsRing k q
      → q.count < power k
      → IsRing k (pushed_back elem q)
  pushed_back-IsRing k elem q r room =
      let next : next_index q.tail (length q.buf)
          ≡ (if q.tail + 1 == power k then 0 else q.tail + 1) =
        rw (r.size) (next_index_lem k q.tail r.tail_in) in
      record {
        small = r.small;
        size = length-set q.buf q.tail elem ∙ r.size;
        head_in = r.head_in;
        tail_in = rw next (ground (arith, r.tail_in, power_pos k));
        count_in = omega (arith, room);
        spans = rw next (ground (arith, r.spans, r.tail_in, r.head_in));
      }

  pub pushed_back-contents :
      (k : ℕ) (elem : T) (q : Deque T)
      → IsRing k q
      → q.count < power k
      → contents z (pushed_back elem q) ≡ contents z q ++ elem ∷ []
  pushed_back-contents k elem q r room =
      let one_more : q.count + 1 ≡ suc q.count = omega arith in
      let r' = pushed_back-IsRing k elem q r room in
      let t = tail_lem k q r room in
      let at_tail : (j : ℕ)
          → get_or (set q.buf q.tail elem) j z ≡ (if q.tail == j then elem else get_or q.buf j z) =
        λ j. get_or-set q.buf q.tail j elem z (omega (arith, r.size, r.tail_in)) in
      let kept : (i : ℕ) → i < q.count → cell z (pushed_back elem q) i ≡ cell z q i = λ i h.
        let other : (q.tail == wrap k (q.head + i)) ≡ false = ground (arith, t, r.head_in) in
        cell_lem k (pushed_back elem q) i r' (omega (arith, room))
        ∙ at_tail (wrap k (q.head + i))
        ∙ rw other (sym (cell_lem k q i r (omega (arith, room)))) in
      let new : cell z (pushed_back elem q) q.count ≡ elem =
        let same : (q.tail == wrap k (q.head + q.count)) ≡ true = ground (arith, t) in
        cell_lem k (pushed_back elem q) q.count r' (omega (arith, room))
        ∙ at_tail (wrap k (q.head + q.count))
        ∙ rw same refl in
      ap (λ n. tabulate n (cell z (pushed_back elem q))) one_more
      ∙ tabulate_last q.count (cell z (pushed_back elem q))
      ∙ ap₂ (λ xs x. xs ++ x ∷ [])
          (tabulate_eq q.count (cell z (pushed_back elem q)) (cell z q) kept) new

  -- The ring after PushFront has written.
  abbrev pub pushed_front : T → Deque T → Deque T
  pushed_front elem q =
      let head = prev_index q.head (length q.buf) in
      record q { buf = set q.buf head elem; head = head; count = q.count + 1 }

  pub prev_lem :
      (k i : ℕ) (q : Deque T)
      → IsRing k q
      → i < power k
      → prev_index i (length q.buf) ≡ (if i == 0 then power k - 1 else i - 1)
  prev_lem k i q r h = rw (r.size) (prev_index_lem k i (omega (arith, r.small)) h)

  next_lem :
      (k i : ℕ) (q : Deque T)
      → IsRing k q
      → i < power k
      → next_index i (length q.buf) ≡ (if i + 1 == power k then 0 else i + 1)
  next_lem k i q r h = rw (r.size) (next_index_lem k i h)

  pub pushed_front-IsRing :
      (k : ℕ) (elem : T) (q : Deque T)
      → IsRing k q
      → q.count < power k
      → IsRing k (pushed_front elem q)
  pushed_front-IsRing k elem q r room =
      let p = prev_lem k q.head q r r.head_in in
      record {
        small = r.small;
        size = length-set q.buf (prev_index q.head (length q.buf)) elem ∙ r.size;
        head_in = rw p (ground (arith, r.head_in, power_pos k));
        tail_in = r.tail_in;
        count_in = omega (arith, room);
        spans = rw p (ground (arith, r.spans, r.tail_in, r.head_in));
      }

  pub pushed_front-contents :
      (k : ℕ) (elem : T) (q : Deque T)
      → IsRing k q
      → q.count < power k
      → contents z (pushed_front elem q) ≡ elem ∷ contents z q
  pushed_front-contents k elem q r room =
      let one_more : q.count + 1 ≡ suc q.count = omega arith in
      let r' = pushed_front-IsRing k elem q r room in
      let head = prev_index q.head (length q.buf) in
      let p = prev_lem k q.head q r r.head_in in
      let inside = r'.head_in in
      let at_head : (j : ℕ)
          → get_or (set q.buf head elem) j z ≡ (if head == j then elem else get_or q.buf j z) =
        λ j. get_or-set q.buf head j elem z (omega (arith, r.size, inside)) in
      let kept : (i : ℕ) → i < q.count → cell z (pushed_front elem q) (suc i) ≡ cell z q i = λ i h.
        let moved : wrap k (head + suc i) ≡ wrap k (q.head + i) =
          ground (arith, p, r.head_in, power_pos k) in
        let other : (head == wrap k (q.head + i)) ≡ false =
          ground (arith, p, r.head_in, power_pos k) in
        cell_lem k (pushed_front elem q) (suc i) r' (omega (arith, room))
        ∙ at_head (wrap k (head + suc i))
        ∙ rw (moved, other) (sym (cell_lem k q i r (omega (arith, room)))) in
      let new : cell z (pushed_front elem q) 0 ≡ elem =
        let same : (head == wrap k (head + 0)) ≡ true = ground (arith, inside) in
        cell_lem k (pushed_front elem q) 0 r' (omega arith)
        ∙ at_head (wrap k (head + 0))
        ∙ rw same refl in
      ap (λ n. tabulate n (cell z (pushed_front elem q))) one_more
      ∙ ap₂ ◌∷◌ new
          (tabulate_eq q.count (λ i. cell z (pushed_front elem q) (suc i)) (cell z q) kept)

  -- The ring after PopFront has written, before it shrinks.
  abbrev pub popped_front : Deque T → Deque T
  popped_front q = record q {
    buf = set q.buf q.head z;
    head = next_index q.head (length q.buf);
    count = q.count - 1;
  }

  pub popped_front-IsRing :
      (k : ℕ) (q : Deque T) → IsRing k q → 0 < q.count → IsRing k (popped_front q)
  popped_front-IsRing k q r some_left =
      let p = next_lem k q.head q r r.head_in in
      record {
        small = r.small;
        size = length-set q.buf q.head z ∙ r.size;
        head_in = rw p (ground (arith, r.head_in, power_pos k));
        tail_in = r.tail_in;
        count_in = omega (arith, r.count_in);
        spans = rw p (ground (arith, r.spans, r.tail_in, r.head_in, r.count_in));
      }

  pub popped_front-contents :
      (k : ℕ) (q : Deque T)
      → IsRing k q
      → 0 < q.count
      → contents z q ≡ get_or q.buf q.head z ∷ contents z (popped_front q)
  popped_front-contents k q r some_left =
      let as_suc : q.count ≡ suc (q.count - 1) = omega arith in
      let r' = popped_front-IsRing k q r some_left in
      let next = next_index q.head (length q.buf) in
      let p = next_lem k q.head q r r.head_in in
      let kept : (i : ℕ) → i < q.count - 1 → cell z q (suc i) ≡ cell z (popped_front q) i = λ i h.
        let moved : wrap k (next + i) ≡ wrap k (q.head + suc i) =
          ground (arith, p, r.head_in, r.count_in, power_pos k) in
        let other : (q.head == wrap k (q.head + suc i)) ≡ false =
          ground (arith, r.head_in, r.count_in) in
        cell_lem k q (suc i) r (omega (arith, r.count_in))
        ∙ sym (
            cell_lem k (popped_front q) i r' (omega (arith, r.count_in))
            ∙ get_or-set q.buf q.head (wrap k (next + i)) z z (omega (arith, r.size, r.head_in))
            ∙ rw (moved, other) refl) in
      let first : cell z q 0 ≡ get_or q.buf q.head z =
        cell_lem k q 0 r (omega arith) ∙ ap (λ j. get_or q.buf j z) (ground (arith, r.head_in)) in
      ap (λ n. tabulate n (cell z q)) as_suc
      ∙ ap₂ ◌∷◌ first
          (tabulate_eq (q.count - 1) (λ i. cell z q (suc i)) (cell z (popped_front q)) kept)

  -- The ring after PopBack has written, before it shrinks.
  abbrev pub popped_back : Deque T → Deque T
  popped_back q =
      let tail = prev_index q.tail (length q.buf) in
      record q { buf = set q.buf tail z; tail = tail; count = q.count - 1 }

  pub popped_back-IsRing :
      (k : ℕ) (q : Deque T) → IsRing k q → 0 < q.count → IsRing k (popped_back q)
  popped_back-IsRing k q r some_left =
      let p = prev_lem k q.tail q r r.tail_in in
      record {
        small = r.small;
        size = length-set q.buf (prev_index q.tail (length q.buf)) z ∙ r.size;
        head_in = r.head_in;
        tail_in = rw p (ground (arith, r.tail_in, power_pos k));
        count_in = omega (arith, r.count_in);
        spans = rw p (ground (arith, r.spans, r.tail_in, r.head_in, r.count_in));
      }

  pub popped_back-contents :
      (k : ℕ) (q : Deque T)
      → IsRing k q
      → 0 < q.count
      → contents z q
        ≡ contents z (popped_back q) ++ get_or q.buf (prev_index q.tail (length q.buf)) z ∷ []
  popped_back-contents k q r some_left =
      let r' = popped_back-IsRing k q r some_left in
      let tail = prev_index q.tail (length q.buf) in
      let p = prev_lem k q.tail q r r.tail_in in
      let n = q.count - 1 in
      let as_suc : q.count ≡ suc n = omega arith in
      let is_last : tail ≡ wrap k (q.head + n) =
        ground (arith, p, r.spans, r.head_in, r.tail_in, r.count_in) in
      let kept : (i : ℕ) → i < n → cell z q i ≡ cell z (popped_back q) i = λ i h.
        let other : (tail == wrap k (q.head + i)) ≡ false =
          ground (arith, is_last, r.head_in, r.count_in) in
        cell_lem k q i r (omega (arith, r.count_in))
        ∙ sym (
            cell_lem k (popped_back q) i r' (omega (arith, r.count_in))
            ∙ get_or-set q.buf tail (wrap k (q.head + i)) z z (omega (arith, r.size, r'.tail_in))
            ∙ rw other refl) in
      let final : cell z q n ≡ get_or q.buf tail z =
        cell_lem k q n r (omega (arith, r.count_in)) ∙ ap (λ j. get_or q.buf j z) (sym is_last) in
      ap (λ n. tabulate n (cell z q)) as_suc
      ∙ tabulate_last n (cell z q)
      ∙ ap₂ (λ xs x. xs ++ x ∷ []) (tabulate_eq n (cell z q) (cell z (popped_back q)) kept) final
