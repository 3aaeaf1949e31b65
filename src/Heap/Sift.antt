-- ===== src/Heap/Sift.antt =====
-- The sift loops of container/heap.
use origin.Prelude.{
  ℕ, zero, suc, ◌+◌, ◌-◌, ◌*◌, ◌≤◌, ◌<◌, ◌≡◌, ◌⊎◌, inl, inr, refl, Bool, true, false, nat_eq, ◌==◌,
  ltb, arith, Bool-cases, Ends, ends, Ends-bind, Ends-map, Ends-if, lt→ltb, ge→ltb,
}
use origin.Heap.{HeapInterface, up_loop, up, smaller_child, down_loop, down, settle}
use origin.Heap.Order.{IsLawful, parent, IsHeap, IsHeapBut, IsHeapAbove, IsHeapBelow, IsSifted}

module _ {S X Y : Type 0} {h : HeapInterface S X Y} {Good : S → Type 0} {n : ℕ}
    (l : IsLawful h Good n) where
  open l use {key, swapped, less_ok, swap_ok, len-swapped, key-swapped, swapped-Good}

  up_step :
      (s : S) (j : ℕ)
      → n ≤ h.len s
      → j < n
      → 0 < j
      → IsHeapBelow l n s j
      → key s j < key s (parent j)
      → IsHeapBelow l n (swapped s (parent j) j) (parent j)
  up_step s j hn hj pos b lt =
      let at = λ (c : ℕ). key-swapped s (parent j) j c (omega arith) (omega arith) in
      record {
        edges = λ c p q r. ground (arith, b.edges c, b.past c, at c, at (parent c));
        past = λ c p q r t.
            ground (arith, b.edges c, b.edges (parent j), at c, at (parent (parent j)));
      }

  up_loop_restores :
      (fuel : ℕ) (s : S) (j : ℕ)
      → j < fuel
      → n ≤ h.len s
      → j < n
      → Good s
      → IsHeapBelow l n s j
      → Ends (IsSifted l n (h.len s)) (up_loop h fuel s j)
  unfolding up_loop
  up_loop_restores zero s j f hn hj g b = absurd (omega arith)
  up_loop_restores (suc fuel) s j f hn hj g b =
      Ends-if (parent j == j) (λ root. ends (λ c p q. b.edges c p q (ground arith), g, refl))
        (λ inner.
          let pos : 0 < j = ground arith in
          rw (less_ok s j (parent j) (omega arith) (omega arith))
            (elim (Bool-cases (ltb (key s j) (key s (parent j)))) [
              | inl above ↦
                  rw (above, swap_ok s (parent j) j (omega arith) (omega arith))
                    (Ends-map
                      (up_loop_restores fuel (swapped s (parent j) j) (parent j) (omega arith)
                        (omega (arith, len-swapped s (parent j) j)) (omega arith)
                        (swapped-Good s (parent j) j (omega arith) (omega arith) g)
                        (up_step s j hn hj pos b (ground arith)))
                      λ t (o, k, e). (o, k, omega (arith, len-swapped s (parent j) j)))
              | inr settled ↦ rw settled (ends (λ c p q. ground (arith, b.edges c), g, refl))
            ]))

  -- `up` restores a heap in which only the edge above `j` may be out of order.
  pub up_restores :
      (s : S) (j : ℕ)
      → n ≤ h.len s
      → j < n
      → Good s
      → IsHeapBelow l n s j
      → Ends (IsSifted l n (h.len s)) (up h s j)
  unfolding up
  up_restores s j = up_loop_restores (suc j) s j (omega arith)

  -- `j` is the child of `i` with the smaller key.
  record IsSmallerChild (s : S) (i j : ℕ) : Type 0 where
    inside : j < n
    child : (j ≡ 2 * i + 1) ⊎ (j ≡ 2 * i + 2)
    least : (c : ℕ) → 0 < c → c < n → parent c ≡ i → key s j ≤ key s c

  smaller_child_lem :
      (s : S) (i : ℕ)
      → n ≤ h.len s
      → 2 * i + 1 < n
      → Ends (IsSmallerChild s i) (smaller_child h s (2 * i + 1) n)
  unfolding smaller_child
  smaller_child_lem s i hn lt = elim (Bool-cases (ltb (2 * i + 1 + 1) n)) [
    | inl two ↦
        rw (two, less_ok s (2 * i + 1 + 1) (2 * i + 1) (ground arith) (omega arith))
          (elim (Bool-cases (ltb (key s (2 * i + 1 + 1)) (key s (2 * i + 1)))) [
            | inl right ↦ rw right (
                ends (record {
                  inside = ground arith;
                  child = inr (omega arith);
                  least = λ c p q r. children i c p r (λ e. ground arith) (λ e. ground arith);
                }))
            | inr left ↦ rw left (
                ends (record {
                  inside = ground arith;
                  child = inl refl;
                  least = λ c p q r. children i c p r (λ e. ground arith) (λ e. ground arith);
                }))
          ])
    | inr one ↦ rw one (
        ends (record {
          inside = ground arith;
          child = inl refl;
          least = λ c p q r. children i c p r (λ e. ground arith) (λ e. absurd (ground arith));
        }))
  ]
    where
      children :
          {P : Type 0} (i c : ℕ)
          → 0 < c
          → parent c ≡ i
          → (c ≡ 2 * i + 1 → P)
          → (c ≡ 2 * i + 1 + 1 → P)
          → P
      children i c p r f g = elim (Bool-cases (c == 2 * i + 1)) [
        | inl e ↦ f (ground arith)
        | inr e ↦ g (ground arith)
      ]

  down_step :
      (s : S) (i j : ℕ)
      → n ≤ h.len s
      → IsHeapBut l n s i
      → IsSmallerChild s i j
      → key s j < key s i
      → IsHeapAbove l n (swapped s i j) j
  down_step s i j hn b m lt =
      let at = λ (c : ℕ).
        key-swapped s i j c (omega (arith, m.inside, m.child)) (omega (arith, m.inside)) in
      record {
        edges = λ c p q r.
            ground (arith, at c, at (parent c), b.edges c, b.past j, m.least c, m.child, m.inside);
        past = λ c p q r t. ground (arith, at c, at (parent j), b.edges c, m.child);
      }

  -- The loop moved and left a heap, or it stopped where it began, and only the edge above `i`
  -- may be out of order.
  abbrev Stopped : S → ℕ → ℕ × S → Type 0
  Stopped s i r =
      ((i < r.0) × IsSifted l n (h.len s) r.1) ⊎ ((r.0 ≡ i) × (r.1 ≡ s) × IsHeapBelow l n s i)

  above_and_below : {s : S} {i : ℕ} → IsHeapAbove l n s i → IsHeapBelow l n s i → IsHeap l n s
  above_and_below {i = i} a b = λ c p q. elim (Bool-cases (c == i)) [
    | inl e ↦ a.edges c p q (ground arith)
    | inr e ↦ b.edges c p q (ground arith)
  ]

  down_loop_restores :
      (fuel : ℕ) (s : S) (i : ℕ)
      → n - i < fuel
      → n ≤ h.len s
      → Good s
      → IsHeapBut l n s i
      → Ends (Stopped s i) (down_loop h fuel s i n)
  unfolding down_loop
  down_loop_restores zero s i f hn g b = absurd (omega arith)
  down_loop_restores (suc fuel) s i f hn g b = elim (Bool-cases (ltb (2 * i + 1) n)) [
    | inl more ↦ rw more (
        Ends-bind (smaller_child_lem s i hn (ground arith)) λ j m.
          let hi : i < h.len s = ground arith in
          let hj : j < h.len s = omega (arith, m.inside) in
          let e = len-swapped s i j in
          rw (less_ok s j i hj hi) (elim (Bool-cases (ltb (key s j) (key s i))) [
            | inl below ↦
                let a = down_step s i j hn b m (ground arith) in
                rw (below, swap_ok s i j hi hj)
                  (Ends-map
                    (down_loop_restores fuel (swapped s i j) j (omega (arith, m.child, m.inside))
                      (omega arith) (swapped-Good s i j (omega arith) m.inside g)
                      (record { edges = λ c p q t. a.edges c p q; past = a.past }))
                    λ r stop. elim stop [
                      | inl moved ↦
                          inl (omega (arith, m.child), (moved.1.0, moved.1.1, omega arith))
                      | inr stayed ↦ inl (
                        omega (arith, m.child),
                        rw (stayed.1) (
                          above_and_below a stayed.2,
                          swapped-Good s i j (omega arith) m.inside g,
                          e,
                        ),
                      )
                    ])
            | inr settled ↦ rw settled (
                ends (
                  inr (
                    refl,
                    refl,
                    record {
                      edges = λ c p q r. ground (arith, b.edges c, m.least c);
                      past = b.past;
                    },
                  )))
          ]))
    | inr leaf ↦ rw leaf (
        ends (
          inr (refl, refl, record { edges = λ c p q r. ground (arith, b.edges c); past = b.past })))
  ]

  -- What `down` reports: that it moved, or that it left the state alone.
  abbrev Settled : S → ℕ → Bool × S → Type 0
  Settled s i r =
      ((r.0 ≡ true) × IsSifted l n (h.len s) r.1)
      ⊎ ((r.0 ≡ false) × (r.1 ≡ s) × IsHeapBelow l n s i)

  down_restores :
      (s : S) (i : ℕ) → n ≤ h.len s → Good s → IsHeapBut l n s i → Ends (Settled s i) (down h s i n)
  unfolding down
  down_restores s i hn g b =
      Ends-bind (down_loop_restores (suc n) s i (omega arith) hn g b) λ r stop. ends (elim stop [
        | inl moved ↦ inl (lt→ltb _ _ moved.0, moved.1)
        | inr stayed ↦ inr (ge→ltb _ _ (omega arith), stayed.1, stayed.2)
      ])

  -- `down` followed by `up` where it did not move restores a heap that is out of order at `i`.
  pub settle_restores :
      (s : S) (i : ℕ)
      → n ≤ h.len s
      → i < n
      → Good s
      → IsHeapBut l n s i
      → Ends (IsSifted l n (h.len s)) (settle h s i n)
  unfolding settle
  settle_restores s i hn hi g b = Ends-bind (down_restores s i hn g b) λ r stop. elim stop [
    | inl done ↦ rw (done.0) (ends done.1)
    | inr stayed ↦ rw (stayed.0, stayed.1) (up_restores s i hn hi g stayed.2)
  ]

  -- `down` from the root, where no edge lies above.
  pub down_root :
      (s : S)
      → n ≤ h.len s
      → Good s
      → IsHeapBut l n s 0
      → Ends (λ r. IsSifted l n (h.len s) r.1) (down h s 0 n)
  down_root s hn g b = Ends-map (down_restores s 0 hn g b) λ r stop. elim stop [
    | inl moved ↦ moved.1
    | inr stayed ↦ rw (stayed.1) (λ c p q. stayed.2.edges c p q (omega arith), g, refl)
  ]
