-- ===== src/Rpc/TimerHeap/Operations.antt =====
-- What Cancel, AddTimer, PopTimeout and PopFirst of rpc/rpctimer.go do to the deadlines.
use mathlib.Core.Path.{subst}
use origin.Prelude.{
  ℕ, ◌+◌, ◌-◌, ◌≤◌, ◌<◌, ◌≡◌, ◌≢◌, refl, nat_eq, ◌==◌, ltb, if◌then◌else◌, true, false, [], ◌∷◌,
  none, some, is_some, lookup, arith, get_elem?-eq-get_or, lookup-insert, length-append,
  get_or-append_left, get_or-append_last, Ends, ends, Ends-bind, Ends-map, Bool-cases, Option-cases,
  inl, inr, ◌⊎◌, ◌∙◌, ap, fun_ext, sym,
}
use origin.Heap
use origin.Heap.Order.{IsLawful}
use origin.Heap.Ops.{root_least, push_restores}
use origin.Rpc.TimerHeap.{
  CallTimer, CallTimerHeap, len, append, timers, cancel, add_timer, pop_timeout, pop_first,
}
use origin.Rpc.TimerHeap.Index.{no_timer, at, Holds, swapped-Holds, len-swapped, lawful}
use origin.Rpc.TimerHeap.Deadlines.{Deadlines, erase, put, IsTimers, remove_lem, pop_lem}

-- On a heap that stands for the deadlines `d` (in order, its index map right) Cancel says whether
-- the call had a timer, and leaves a heap for the deadlines without that call.
pub cancel_lem :
    (d : Deadlines) (h : CallTimerHeap) (seq : ℕ)
    → IsTimers d h
    → Ends (λ r. (r.0 ≡ is_some (d seq)) × IsTimers (erase seq d) r.1) (cancel h seq)
unfolding cancel
cancel_lem d h seq v = elim (Option-cases (lookup seq h.map_seq_index)) [
  | inl missing ↦
      let e : is_some (d seq) ≡ false = v.holds.keys seq ∙ ap is_some missing in
      let same : d ≡ erase seq d = fun_ext (λ k. ground arith) in
      rw (missing, cancel) (ends (sym e, subst (λ f. IsTimers f h) same v))
  | inr (i, found) ↦
      let b = v.holds.back seq i found in
      let e : is_some (d seq) ≡ true = v.holds.keys seq ∙ ap is_some found in
      rw (found, cancel)
        (Ends-bind (remove_lem d h v i (len h - 1) (omega arith) (omega arith))
          λ r (k, t, n). ends (sym e, subst (λ k. IsTimers (erase k d) r.1) (b.1) t))
]

module _ (d : Deadlines) (h : CallTimerHeap) (v : IsTimers d h) (seq t : ℕ)
    (fresh : d seq ≡ none) where
  entry : CallTimer
  entry = record { seq_id = seq; fire_time = t }

  len-append : len (append h entry) ≡ len h + 1
  unfolding append
  len-append = length-append h.call_timer (entry ∷ [])

  at-append : (c : ℕ) → c < len h → at (append h entry) c ≡ at h c
  unfolding append
  at-append c p = get_or-append_left h.call_timer (entry ∷ []) c no_timer p

  at-append_last : at (append h entry) (len h) ≡ entry
  unfolding append
  at-append_last = get_or-append_last h.call_timer entry no_timer

  lookup-append :
      (k : ℕ)
      → lookup k (append h entry).map_seq_index
        ≡ (if seq == k then some (len h) else lookup k h.map_seq_index)
  unfolding append entry
  lookup-append k = lookup-insert seq k (len h) h.map_seq_index

  append-Holds : Holds (put seq t d) (append h entry)
  unfolding entry
  append-Holds = record {
    index = λ c p. elim (Bool-cases (ltb c (len h))) [
      | inl old ↦
          ground
            (arith, at-append c, lookup-append (at h c).seq_id, v.holds.index c, v.holds.times c)
      | inr new ↦
          let e : c ≡ len h = ground (arith, len-append) in
          rw e (ground (arith, at-append_last, lookup-append seq))
    ];
    back = λ k c e. elim (Bool-cases (seq == k)) [
      | inl new ↦
          let f : c ≡ len h = ground (arith, lookup-append k) in
          rw f (ground (arith, len-append), ground (arith, at-append_last))
      | inr old ↦ ground (arith, len-append, lookup-append k, v.holds.back k c, at-append c)
    ];
    times = λ c p. elim (Bool-cases (ltb c (len h))) [
      | inl old ↦ ground (arith, at-append c, v.holds.times c)
      | inr new ↦
          let e : c ≡ len h = ground (arith, len-append) in rw e (ground (arith, at-append_last))
    ];
    keys = λ k. ground (arith, lookup-append k, v.holds.keys k);
  }

  Adding : CallTimerHeap → Type 0
  Adding g = Holds (put seq t d) g × (len g ≡ len h + 1)

  adding : IsLawful timers Adding (len h + 1)
  unfolding Adding
  adding =
      lawful Adding (len h + 1)
        (λ g i j hi hj p q k. (swapped-Holds g i j hi hj k.0, len-swapped g i j ∙ k.1))
        (λ g k. omega (arith, k.1))

  push_lem :
      seq ≢ 0
      → Ends (λ r. IsTimers (put seq t d) r × (len r ≡ len h + 1)) (Heap.push timers h entry)
  unfolding adding Adding
  push_lem nz =
      Ends-map
        (push_restores adding h entry v.order (append-Holds, len-append) len-append len-append
          (λ c p. ap (λ (e : CallTimer). e.fire_time) (at-append c p)))
        λ r (o, k, _). (
          record {
            holds = k.0;
            order = λ c p q. o c p (omega (arith, k.1));
            no_zero = ground (arith, v.no_zero, nz);
          },
          k.1,
        )

-- On a heap for the deadlines `d` AddTimer gives a call other than 0 that has no timer yet the
-- deadline `now + dur`, and leaves the others.
pub add_timer_lem :
    (d : Deadlines) (h : CallTimerHeap) (now seq dur : ℕ)
    → IsTimers d h
    → d seq ≡ none
    → seq ≢ 0
    → Ends (λ r. IsTimers (put seq (now + dur) d) r × (len r ≡ len h + 1)) (add_timer now h seq dur)
unfolding add_timer entry
add_timer_lem d h now seq dur v fresh nz = push_lem d h v seq (now + dur) fresh nz

-- No call has a deadline.
abbrev pub IsNone : Deadlines → Type 0
IsNone d = (k : ℕ) → d k ≡ none

-- The call `r.0` had the least deadline `t`, and is out.
pub record Earliest (d : Deadlines) (size : ℕ) (r : ℕ × CallTimerHeap) : Type 0 where
  pub deadline : ℕ
  pub had : d r.0 ≡ some deadline
  pub least : (k u : ℕ) → d k ≡ some u → deadline ≤ u
  pub rest : IsTimers (erase r.0 d) r.1
  pub fewer : len r.1 + 1 ≡ size

module _ (d : Deadlines) (h : CallTimerHeap) (v : IsTimers d h) where
  empty-IsNone : len h ≡ 0 → IsNone d
  empty-IsNone e k = elim (Option-cases (lookup k h.map_seq_index)) [
    | inl missing ↦ ground (arith, v.holds.keys k)
    | inr (i, found) ↦ absurd (omega (arith, (v.holds.back k i found).0))
  ]

  -- The heap's first entry has the least deadline of all.
  first_least : (k u : ℕ) → d k ≡ some u → (0 < len h) × ((at h 0).fire_time ≤ u)
  first_least k u e = elim (Option-cases (lookup k h.map_seq_index)) [
    | inl missing ↦ absurd (ground (arith, v.holds.keys k))
    | inr (i, found) ↦
        let b = v.holds.back k i found in
        let t : some (at h i).fire_time ≡ some u = sym (v.holds.times i b.0) ∙ ap d b.1 ∙ e in
        (
          omega (arith, b.0),
          ground (
            arith,
            root_least
                (lawful (λ g. g ≡ h) 0 (λ g i' j' _ _ p. absurd (omega arith)) (λ g _. omega arith))
                (len h) h i v.order b.0,
          ),
        )
  ]

  pop-Earliest : 0 < len h → Ends (Earliest d (len h)) (Heap.pop timers h)
  pop-Earliest p = Ends-map (pop_lem d h v (len h - 1) (omega arith)) λ r (k, t, n). record {
    deadline = (at h 0).fire_time;
    had = ap d k ∙ v.holds.times 0 p;
    least = λ j u e. (first_least j u e).1;
    rest = subst (λ j. IsTimers (erase j d) r.1) (sym k) t;
    fewer = omega arith;
  }

  -- On a heap for the deadlines `d` PopFirst takes out a call with the least deadline, or finds
  -- that there is none.
  pub pop_first_lem :
      Ends (λ r. ((r.0 ≡ 0) × (r.1 ≡ h) × IsNone d) ⊎ Earliest d (len h) r) (pop_first h)
  unfolding pop_first
  pop_first_lem = elim (Bool-cases (len h == 0)) [
    | inl e ↦ rw e (ends (inl (refl, refl, empty-IsNone (ground arith))))
    | inr e ↦ rw e (Ends-map (pop-Earliest (ground arith)) λ r p. inr p)
  ]

  -- On a heap for the deadlines `d` PopTimeout takes out a call with the least deadline if that
  -- has come, and otherwise leaves
  -- all, whose deadlines lie ahead.
  pub pop_timeout_lem :
      (now : ℕ)
      → Ends
          (λ r.
            ((r.0 ≡ 0) × (r.1 ≡ h) × ((k u : ℕ) → d k ≡ some u → now < u))
            ⊎ ((p : Earliest d (len h) r) × (p.deadline ≤ now)))
          (pop_timeout now h)
  unfolding pop_timeout
  pop_timeout_lem now = elim (Bool-cases (len h == 0)) [
    | inl e ↦
        rw e
          (ends (inl (refl, refl, λ k u f. absurd (ground (arith, empty-IsNone (ground arith) k)))))
    | inr e ↦
        let pos : 0 < len h = ground arith in
        rw (e, get_elem?-eq-get_or h.call_timer 0 no_timer pos)
          (elim (Bool-cases (ltb now (at h 0).fire_time)) [
            | inl later ↦
                rw later (ends (inl (refl, refl, λ k u f. ground (arith, first_least k u f))))
            | inr due ↦ rw due (
                Ends-map (pop_lem d h v (len h - 1) (omega arith)) λ r (k, t, n). inr (
                  record {
                    deadline = (at h 0).fire_time;
                    had = ap d k ∙ v.holds.times 0 pos;
                    least = λ j u f. (first_least j u f).1;
                    rest = subst (λ j. IsTimers (erase j d) r.1) (sym k) t;
                    fewer = omega arith;
                  },
                  ground arith,
                ))
          ])
  ]
