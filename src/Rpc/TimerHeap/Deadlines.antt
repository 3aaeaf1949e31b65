-- ===== src/Rpc/TimerHeap/Deadlines.antt =====
-- The operations of rpc/rpctimer.go on the map from calls to deadlines that a heap stands for.
use mathlib.Core.Path.{subst}
use origin.Prelude.{
  ℕ, suc, ◌-◌, ◌≤◌, ◌<◌, ◌≡◌, refl, nat_eq, ◌==◌, if◌then◌else◌, Option, none, some, take, delete,
  arith, get_elem?-eq-get_or, length-take, get_or-take, lookup-delete, Ends, ends, Ends-bind,
  Bool-cases, inl, inr, ◌∙◌, ap,
}
use origin.Heap
use origin.Heap.{HeapInterface}
use origin.Heap.Order.{IsLawful, parent}
use origin.Heap.Ops.{unhook_restores, unroot_restores}
use origin.Rpc.TimerHeap.{CallTimer, CallTimerHeap, len, remove_last, timers}
use origin.Rpc.TimerHeap.Index.{
  no_timer, at, Holds, swapped, swapped-Holds, at-swapped, len-swapped, lawful, swap_ok,
}

abbrev pub Deadlines : Type 0
Deadlines = ℕ → Option ℕ

abbrev pub erase : ℕ → Deadlines → Deadlines
erase k d j = if k == j then none else d j

abbrev pub put : ℕ → ℕ → Deadlines → Deadlines
put k t d j = if k == j then some t else d j

-- A heap in order, with its index map right, of the calls that have a deadline; 0 is no call.
pub record IsTimers (d : Deadlines) (h : CallTimerHeap) : Type 0 where
  pub holds : Holds d h
  pub order : (c : ℕ) → 0 < c → c < len h → (at h (parent c)).fire_time ≤ (at h c).fire_time
  pub no_zero : d 0 ≡ none

-- The state before the last entry is cut off: the others are in order.
record IsCut (d : Deadlines) (n : ℕ) (h : CallTimerHeap) : Type 0 where
  holds : Holds d h
  order : (c : ℕ) → 0 < c → c < n → (at h (parent c)).fire_time ≤ (at h c).fire_time
  no_zero : d 0 ≡ none
  size : len h ≡ suc n

-- Entry `k` is out, and `n` are left.
abbrev pub Removed : Deadlines → ℕ → ℕ → ℕ × CallTimerHeap → Type 0
Removed d k n r = (r.0 ≡ k) × IsTimers (erase k d) r.1 × (len r.1 ≡ n)

module _ (d : Deadlines) (n : ℕ) (h : CallTimerHeap) (cut : IsCut d n h) where
  cut_off : CallTimerHeap
  cut_off = record {
    call_timer = take n h.call_timer;
    map_seq_index = delete (at h n).seq_id h.map_seq_index;
  }

  len-cut_off : len cut_off ≡ n
  unfolding cut_off
  len-cut_off = length-take n h.call_timer (omega (arith, cut.size))

  at-cut_off : (c : ℕ) → c < n → at cut_off c ≡ at h c
  unfolding cut_off
  at-cut_off c p = get_or-take n h.call_timer c no_timer p

  cut_off-Holds : Holds (erase (at h n).seq_id d) cut_off
  unfolding cut_off
  cut_off-Holds =
      let last = cut.holds.index n (omega (arith, cut.size)) in
      record {
        index = λ c p. ground (
          arith,
          last,
          len-cut_off,
          at-cut_off c (omega (arith, len-cut_off)),
          cut.holds.index c (omega (arith, len-cut_off, cut.size)),
          lookup-delete (at h n).seq_id (at h c).seq_id h.map_seq_index,
        );
        back = λ k c e. ground (
          arith,
          len-cut_off,
          cut.size,
          last,
          at-cut_off c,
          cut.holds.back k c,
          lookup-delete (at h n).seq_id k h.map_seq_index,
        );
        times = λ c p. ground (
          arith,
          last,
          len-cut_off,
          at-cut_off c (omega (arith, len-cut_off)),
          cut.holds.index c (omega (arith, len-cut_off, cut.size)),
          cut.holds.times c (omega (arith, len-cut_off, cut.size)),
        );
        keys =
            λ k. ground (arith, cut.holds.keys k, lookup-delete (at h n).seq_id k h.map_seq_index);
      }

  cut_off-IsTimers : IsTimers (erase (at h n).seq_id d) cut_off
  cut_off-IsTimers = record {
    holds = cut_off-Holds;
    order = λ c p q. ground (arith, len-cut_off, at-cut_off c, at-cut_off (parent c), cut.order c);
    no_zero = ground (arith, cut.no_zero);
  }

  remove_last_lem : Ends (Removed d (at h n).seq_id n) (remove_last h)
  unfolding remove_last cut_off
  remove_last_lem =
      let e : len h - 1 ≡ n = omega (arith, cut.size) in
      rw (e, get_elem?-eq-get_or h.call_timer n no_timer (omega (arith, cut.size)))
        (ends (refl, cut_off-IsTimers, len-cut_off))

-- What is kept while the first `n` entries are sifted: the entry behind them too.
record Keeps (d : Deadlines) (n : ℕ) (t : CallTimer) (h : CallTimerHeap) : Type 0 where
  holds : Holds d h
  size : len h ≡ suc n
  last : at h n ≡ t

keeping :
    (d : Deadlines) (n : ℕ) (t : CallTimer) (h : CallTimerHeap) (i j : ℕ)
    → i < len h
    → j < len h
    → i < n
    → j < n
    → Keeps d n t h
    → Keeps d n t (swapped h i j)
keeping d n t h i j hi hj p q k = record {
  holds = swapped-Holds h i j hi hj k.holds;
  size = len-swapped h i j ∙ k.size;
  last = ground (arith, at-swapped h i j hi hj n, k.last);
}

sifting : (d : Deadlines) (n : ℕ) (t : CallTimer) → IsLawful timers (Keeps d n t) n
sifting d n t = lawful (Keeps d n t) n (keeping d n t) (λ h k. omega (arith, k.size))

module _ (d : Deadlines) (h : CallTimerHeap) (v : IsTimers d h) where
  -- The state with the last entry in the place of entry `i`.
  moved_last : (i n : ℕ) → len h ≡ suc n → i < suc n → Keeps d n (at h i) (swapped h i n)
  moved_last i n e p = record {
    holds = swapped-Holds h i n (omega arith) (omega arith) v.holds;
    size = len-swapped h i n ∙ e;
    last = ground (arith, at-swapped h i n (omega arith) (omega arith) n);
  }

  cut_from :
      (t : CallTimer) (n : ℕ) (s : CallTimerHeap)
      → Keeps d n t s
      → ((c : ℕ) → 0 < c → c < n → (at s (parent c)).fire_time ≤ (at s c).fire_time)
      → Ends (Removed d t.seq_id n) (remove_last s)
  cut_from t n s k o =
      let cut : IsCut d n s = record {
        holds = k.holds;
        order = o;
        no_zero = v.no_zero;
        size = k.size;
      } in
      rw (ap (λ (u : CallTimer). u.seq_id) k.last) at (remove_last_lem d n s cut)

  -- heap.Remove takes out exactly entry `i`.
  pub remove_lem :
      (i n : ℕ)
      → len h ≡ suc n
      → i < suc n
      → Ends (Removed d (at h i).seq_id n) (Heap.remove timers h i)
  unfolding Heap.remove sifting
  remove_lem i n e p =
      let f : len h - 1 ≡ n = omega arith in
      rw f (elim (Bool-cases (n == i)) [
        | inl last ↦
            let same : n ≡ i = ground arith in
            rw last (
              subst (λ k. Ends (Removed d (at h k).seq_id n) (remove_last h)) same
                (remove_last_lem d n h (record {
                  holds = v.holds;
                  order = λ c q r. v.order c q (omega arith);
                  no_zero = v.no_zero;
                  size = e;
                })))
        | inr inner ↦
            rw (inner, swap_ok h i n (omega arith) (omega arith))
              (Ends-bind
                (unhook_restores (sifting d n (at h i)) h i e (ground arith) v.order
                  (moved_last i n e p))
                λ s (o, k, _). cut_from (at h i) n s k o)
      ])

  -- heap.Pop takes out the first entry.
  pub pop_lem : (n : ℕ) → len h ≡ suc n → Ends (Removed d (at h 0).seq_id n) (Heap.pop timers h)
  unfolding Heap.pop sifting
  pop_lem n e =
      let f : len h - 1 ≡ n = omega arith in
      rw (f, swap_ok h 0 n (omega arith) (omega arith))
        (Ends-bind
          (unroot_restores (sifting d n (at h 0)) h e v.order (moved_last 0 n e (omega arith)))
          λ (b, s) (o, k, _). cut_from (at h 0) n s k o)
