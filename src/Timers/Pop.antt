-- ===== src/Timers/Pop.antt =====
-- heap.Push and heap.Pop on the heap of timers of util/timer/heap.go.
use origin.Prelude.{
  ℕ, suc, ◌+◌, ◌-◌, ◌≤◌, ◌<◌, ◌≡◌, refl, nat_eq, ◌==◌, List, [], ◌∷◌, ◌++◌, length, take, arith,
  get_elem?-eq-get_or, length-append, length-take, get_or-append_left, get_or-take, count, one_if,
  count-take, count-swap, Ends, ends, Ends-bind, Ends-map, ap, ◌∙◌,
}
use origin.Heap
use origin.Heap.Order.{parent}
use origin.Heap.Ops.{push_restores, unroot_restores}
use origin.Timers.{append, remove_last, timers}
use origin.Timers.Lawful.{entry, swapped, Same, Kept, entry-swapped, len-swapped, swap_ok, lawful}

module _ (fire : ℕ → ℕ) where
  -- No timer is due before its parent.
  abbrev pub IsOrdered : List ℕ → Type 0
  IsOrdered h = (c : ℕ) → 0 < c → c < length h → fire (entry h (parent c)) ≤ fire (entry h c)

  abbrev pub Pushed : List ℕ → ℕ → List ℕ → Type 0
  Pushed h x r = IsOrdered r × Same r (h ++ x ∷ [])

  pub push_lem :
      (h : List ℕ) (x : ℕ) → IsOrdered h → Ends (Pushed h x) (Heap.push (timers fire) h x)
  unfolding append
  push_lem h x o =
      let t = h ++ x ∷ [] in
      let len = length-append h (x ∷ []) in
      Ends-map
        (push_restores (lawful fire t (length t) (omega arith)) h x o
          (record { same = λ u. refl; size = refl; behind = refl }) len refl
          (λ c p. ap fire (get_or-append_left h (x ∷ []) c 0 p)))
        λ r (o', k, _). (λ c p q. o' c p (omega (arith, k.size)), k.same)

  -- The first timer `r.0` is out.
  pub record Popped (h : List ℕ) (r : ℕ × List ℕ) : Type 0 where
    pub first : r.0 ≡ entry h 0
    pub order : IsOrdered r.1
    pub rest : (u : ℕ) → count u r.1 + one_if (r.0 == u) ≡ count u h
    pub fewer : suc (length r.1) ≡ length h

  module _ (h : List ℕ) (n : ℕ) (len : length h ≡ suc n) where
    whole : List ℕ
    whole = swapped h 0 n

    cut_last :
        (g : List ℕ)
        → Kept whole n g
        → ((c : ℕ) → 0 < c → c < n → fire (entry g (parent c)) ≤ fire (entry g c))
        → Ends (Popped h) (remove_last g)
    unfolding remove_last whole
    cut_last g k o =
        let size : length g ≡ suc n = k.size ∙ len-swapped h 0 n ∙ len in
        let at_n : length g - 1 ≡ n = omega arith in
        let short : length (take n g) ≡ n = length-take n g (omega arith) in
        rw (at_n, get_elem?-eq-get_or g n 0 (omega arith))
          (ends (record {
            first = ground (arith, k.behind, entry-swapped h 0 n n (omega arith) (omega arith));
            order = λ c p q. ground (
              arith,
              o c,
              get_or-take n g c 0 (omega arith),
              get_or-take n g (parent c) 0 (omega arith),
            );
            rest = λ u.
                count-take u n g 0 size
                ∙ k.same u
                ∙ count-swap u h 0 n 0 (omega arith) (omega arith);
            fewer = omega arith;
          }))

    pub pop_lem : IsOrdered h → Ends (Popped h) (Heap.pop (timers fire) h)
    unfolding Heap.pop whole
    pop_lem o =
        let at_n : length h - 1 ≡ n = omega arith in
        rw (at_n, swap_ok h 0 n (omega arith) (omega arith))
          (Ends-bind
            (unroot_restores (lawful fire (swapped h 0 n) n (omega (arith, len-swapped h 0 n))) h
              len o (record { same = λ u. refl; size = refl; behind = refl }))
            λ r (o', k, _). cut_last r.1 k o')
