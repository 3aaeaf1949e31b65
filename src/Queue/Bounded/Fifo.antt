-- ===== src/Queue/Bounded/Fifo.antt =====
-- The queue of util/queue/squeue.go against the list of its elements.
use origin.Prelude.{
  ℕ, suc, ◌+◌, ◌-◌, ◌%◌, ◌≤◌, ◌<◌, ◌≡◌, ◌≢◌, refl, nat_eq, ◌==◌, ltb, if◌then◌else◌, true, false,
  List, [], ◌∷◌, ◌++◌, none, some, length, get_or, set, tabulate, tabulate_eq, tabulate_last,
  get_or-set, length-set, arith, Bool-cases, inl, inr, ◌⊎◌, ap, ap₂, ◌∙◌, sym,
}
use origin.Queue.Mask.{wrap_once}
use origin.Queue.Bounded.{SQueue, squeue_len, squeue_pop, squeue_push}

module _ {T : Type 0} (z : T) where
  pub record IsCircular (s : SQueue T) : Type 0 where
    pub head_in : s.head < length s.elements
    pub tail_in : s.tail < length s.elements

  cell : SQueue T → ℕ → T
  cell s i = get_or s.elements ((s.head + suc i) % length s.elements) z

  -- The elements, the first one at the front.
  unfoldable pub waiting : SQueue T → List T
  unfolding cell
  waiting s = tabulate (squeue_len z s) (cell s)

  module _ (s : SQueue T) (v : IsCircular s) where
    len_lem : squeue_len z s < length s.elements
    unfolding squeue_len
    len_lem = ground (arith, v.head_in, v.tail_in)

    -- The index of an element, counted from the slot at `head`.
    place :
        (i : ℕ)
        → i ≤ squeue_len z s
        → (s.head + i) % length s.elements ≡ (
            if ltb (s.head + i) (length s.elements)
            then s.head + i
            else s.head + i - length s.elements)
    unfolding squeue_len
    place i h = wrap_once (s.head + i) (length s.elements) (omega (arith, v.head_in, len_lem))

    next_lem : (s.tail + 1) % length s.elements ≡ (
        if ltb (s.tail + 1) (length s.elements) then s.tail + 1 else s.tail + 1 - length s.elements)
    next_lem = wrap_once (s.tail + 1) (length s.elements) (omega (arith, v.tail_in))

    abbrev pub popped : SQueue T
    popped = record s { head = (s.head + 1) % length s.elements }

    head_lem : (s.head + 1) % length s.elements ≡ (
        if ltb (s.head + 1) (length s.elements) then s.head + 1 else s.head + 1 - length s.elements)
    head_lem = wrap_once (s.head + 1) (length s.elements) (omega (arith, v.head_in))

    pub popped-IsCircular : IsCircular popped
    popped-IsCircular = record {
      head_in = rw head_lem (ground (arith, v.head_in));
      tail_in = v.tail_in;
    }

    popped-len : s.head ≢ s.tail → squeue_len z s ≡ suc (squeue_len z popped)
    unfolding squeue_len
    popped-len some_left = rw head_lem (ground (arith, v.head_in, v.tail_in))

    abbrev pub pushed : T → SQueue T
    pushed x =
        let next_pos = (s.tail + 1) % length s.elements in
        record s { tail = next_pos; elements = set s.elements next_pos x }

    pub pushed-IsCircular : (x : T) → IsCircular (pushed x)
    pushed-IsCircular x =
        let e = length-set s.elements ((s.tail + 1) % length s.elements) x in
        record {
          head_in = omega (arith, e, v.head_in);
          tail_in = rw (e, next_lem) (ground (arith, v.tail_in));
        }

    pushed-len :
        (x : T)
        → (s.tail + 1) % length s.elements ≢ s.head
        → squeue_len z (pushed x) ≡ suc (squeue_len z s)
    unfolding squeue_len
    pushed-len x room =
        let e = length-set s.elements ((s.tail + 1) % length s.elements) x in
        rw (e, next_lem) (ground (arith, v.head_in, v.tail_in, room, next_lem))

    -- The number of elements, by whether the next slot is the one at `head`.
    pub full_lem :
        ((s.tail + 1) % length s.elements ≡ s.head → squeue_len z s + 1 ≡ length s.elements)
        × ((s.tail + 1) % length s.elements ≢ s.head → squeue_len z s + 1 < length s.elements)
    unfolding squeue_len
    full_lem = (
      λ e. ground (arith, v.head_in, v.tail_in, next_lem),
      λ ne. ground (arith, v.head_in, v.tail_in, next_lem),
    )

  cell-popped :
      (s : SQueue T) (v : IsCircular s) (i : ℕ)
      → s.head ≢ s.tail
      → i < squeue_len z (popped s v)
      → cell s (suc i) ≡ cell (popped s v) i
  unfolding cell
  cell-popped s v i some_left h =
      let longer = popped-len s v some_left in
      let a = place s v (suc (suc i)) (omega arith) in
      let b = place (popped s v) (popped-IsCircular s v) (suc i) (omega arith) in
      let same : (s.head + suc (suc i)) % length s.elements
          ≡ ((s.head + 1) % length s.elements + suc i) % length s.elements =
        a ∙ sym (b ∙ rw (head_lem s v) (ground (arith, v.head_in, len_lem s v))) in
      ap (λ j. get_or s.elements j z) same

  cell-pushed :
      (s : SQueue T) (v : IsCircular s) (x : T) (i : ℕ)
      → (s.tail + 1) % length s.elements ≢ s.head
      → i ≤ squeue_len z s
      → cell (pushed s v x) i ≡ (if i == squeue_len z s then x else cell s i)
  unfolding cell squeue_len
  cell-pushed s v x i room h =
      let next_pos = (s.tail + 1) % length s.elements in
      let e = length-set s.elements next_pos x in
      let small = (full_lem s v).1 room in
      let p = wrap_once (s.head + suc i) (length s.elements) (omega (arith, v.head_in)) in
      let inside : next_pos < length s.elements = rw (next_lem s v) (ground (arith, v.tail_in)) in
      rw e (
        get_or-set s.elements next_pos ((s.head + suc i) % length s.elements) x z inside
        ∙ ground (arith, p, next_lem s v, v.head_in, v.tail_in))

  kept :
      (s : SQueue T) (v : IsCircular s) (x : T) (i : ℕ)
      → (s.tail + 1) % length s.elements ≢ s.head
      → i < squeue_len z s
      → cell (pushed s v x) i ≡ cell s i
  kept s v x i room h =
      let other : (i == squeue_len z s) ≡ false = ground arith in
      cell-pushed s v x i room (omega arith) ∙ rw other refl

  new :
      (s : SQueue T) (v : IsCircular s) (x : T)
      → (s.tail + 1) % length s.elements ≢ s.head
      → cell (pushed s v x) (squeue_len z s) ≡ x
  new s v x room =
      let last : (squeue_len z s == squeue_len z s) ≡ true = ground arith in
      cell-pushed s v x (squeue_len z s) room (omega arith) ∙ rw last refl

  module _ (s : SQueue T) (v : IsCircular s) where
    pub popped-waiting :
        s.head ≢ s.tail
        → waiting s ≡ get_or s.elements ((s.head + 1) % length s.elements) z ∷ waiting (popped s v)
    unfolding waiting
    popped-waiting some_left =
        ap (λ n. tabulate n (cell s)) (popped-len s v some_left)
        ∙ ap (◌∷◌ (cell s 0)) (
            tabulate_eq (squeue_len z (popped s v)) (λ i. cell s (suc i)) (cell (popped s v))
              (λ i h. cell-popped s v i some_left h))

    pub pushed-waiting :
        (x : T)
        → (s.tail + 1) % length s.elements ≢ s.head
        → waiting (pushed s v x) ≡ waiting s ++ x ∷ []
    unfolding waiting
    pushed-waiting x room =
        ap (λ n. tabulate n (cell (pushed s v x))) (pushed-len s v x room)
        ∙ tabulate_last (squeue_len z s) (cell (pushed s v x))
        ∙ ap₂ (λ xs y. xs ++ y ∷ [])
            (tabulate_eq (squeue_len z s) (cell (pushed s v x)) (cell s)
              (λ i h. kept s v x i room h))
            (new s v x room)

    -- With head and tail inside the slice, Pop takes out the first element, or finds that there
    -- is none.
    pub squeue_pop_lem :
        IsCircular (squeue_pop z s).1
        × (((waiting s ≡ []) × (squeue_pop z s ≡ (none, s)))
            ⊎ ((x : T) × ((squeue_pop z s).0 ≡ some x)
                × (waiting s ≡ x ∷ waiting (squeue_pop z s).1)))
    unfolding squeue_pop waiting squeue_len
    squeue_pop_lem = elim (Bool-cases (s.head == s.tail)) [
      | inl none_left ↦
          let empty : squeue_len z s ≡ 0 = ground arith in
          rw (none_left, squeue_pop) (v, inl (rw empty refl, refl))
      | inr some_left ↦
          rw (some_left, squeue_pop)
            (
              popped-IsCircular s v,
              inr (
                get_or s.elements ((s.head + 1) % length s.elements) z,
                refl,
                popped-waiting (ground arith),
              ),
            )
    ]

    -- With head and tail inside the slice, Push refuses an element only if the queue has `length - 1` elements, and otherwise puts it
    -- behind the others.
    pub squeue_push_lem :
        (x : T)
        → IsCircular (squeue_push z x s).1
          × (((squeue_len z s + 1 ≡ length s.elements) × (squeue_push z x s ≡ (false, s)))
              ⊎ ((squeue_len z s + 1 < length s.elements)
                  × ((squeue_push z x s).0 ≡ true)
                  × (waiting (squeue_push z x s).1 ≡ waiting s ++ x ∷ [])))
    unfolding squeue_push
    squeue_push_lem x = elim (Bool-cases ((s.tail + 1) % length s.elements == s.head)) [
      | inl full ↦ rw (full, squeue_push) (v, inl ((full_lem s v).0 (ground arith), refl))
      | inr room ↦
          rw (room, squeue_push)
            (
              pushed-IsCircular s v x,
              inr ((full_lem s v).1 (ground arith), refl, pushed-waiting x (ground arith)),
            )
    ]
