-- ===== src/Rpc/TimerHeap/Index.antt =====
-- The index map of rpc/rpctimer.go, and the map from sequence numbers to deadlines for which a
-- heap stands.
use origin.Prelude.{
  ℕ, ◌≤◌, ◌<◌, ◌≡◌, nat_eq, ◌==◌, ltb, if◌then◌else◌, Option, some, is_some, get_or, set, lookup,
  insert, ok, arith, length-set, get_elem?-eq-get_or, get_or-set, lookup-insert,
}
use native.Mathlib.Nat.{le_trans}
use origin.Heap.Order.{IsLawful}
use origin.Rpc.TimerHeap.{CallTimer, CallTimerHeap, len, less, swap, timers}

abbrev pub no_timer : CallTimer
no_timer = record { seq_id = 0; fire_time = 0 }

abbrev pub at : CallTimerHeap → ℕ → CallTimer
at h i = get_or h.call_timer i no_timer

-- `deadline` maps the calls in the heap to their fire times.
pub record Holds (deadline : ℕ → Option ℕ) (h : CallTimerHeap) : Type 0 where
  pub index : (i : ℕ) → i < len h → lookup (at h i).seq_id h.map_seq_index ≡ some i
  pub back : (k i : ℕ) → lookup k h.map_seq_index ≡ some i → (i < len h) × ((at h i).seq_id ≡ k)
  pub times : (i : ℕ) → i < len h → deadline (at h i).seq_id ≡ some (at h i).fire_time
  pub keys : (k : ℕ) → is_some (deadline k) ≡ is_some (lookup k h.map_seq_index)

abbrev pub swapped : CallTimerHeap → ℕ → ℕ → CallTimerHeap
swapped h i j =
    let timers = set (set h.call_timer i (at h j)) j (at h i) in
    record {
      call_timer = timers;
      map_seq_index =
          insert (get_or timers j no_timer).seq_id j
            (insert (get_or timers i no_timer).seq_id i h.map_seq_index);
    }

pub len-swapped : (h : CallTimerHeap) (i j : ℕ) → len (swapped h i j) ≡ len h
len-swapped h i j =
    omega (
      arith,
      length-set (set h.call_timer i (at h j)) j (at h i),
      length-set h.call_timer i (at h j),
    )

module _ (h : CallTimerHeap) (i j : ℕ) (hi : i < len h) (hj : j < len h) where
  pub at-swapped :
      (c : ℕ)
      → at (swapped h i j) c ≡ (if j == c then at h i else if i == c then at h j else at h c)
  at-swapped c = ground (
    arith,
    get_or-set (set h.call_timer i (at h j)) j c (at h i) no_timer,
    get_or-set h.call_timer i c (at h j) no_timer,
    length-set h.call_timer i (at h j),
  )

  pub lookup-swapped :
      (k : ℕ)
      → lookup k (swapped h i j).map_seq_index ≡ (
          if (at h i).seq_id == k
          then some j
          else if (at h j).seq_id == k
          then some i
          else lookup k h.map_seq_index)
  lookup-swapped k =
      let t = swapped h i j in
      ground (
        arith,
        lookup-insert (at t j).seq_id k j (insert (at t i).seq_id i h.map_seq_index),
        lookup-insert (at t i).seq_id k i h.map_seq_index,
        at-swapped i,
        at-swapped j,
      )

  pub swapped-Holds : {deadline : ℕ → Option ℕ} → Holds deadline h → Holds deadline (swapped h i j)
  swapped-Holds {deadline} v = record {
    index = λ c p. ground (
      arith,
      at-swapped c,
      lookup-swapped (at h c).seq_id,
      lookup-swapped (at h i).seq_id,
      lookup-swapped (at h j).seq_id,
      v.index c (omega (arith, len-swapped h i j)),
      v.index i hi,
      v.index j hj,
    );
    back = λ k c e. ground (
      arith,
      len-swapped h i j,
      at-swapped c,
      lookup-swapped k,
      v.back k c,
      v.index i hi,
      v.index j hj,
    );
    times = λ c p. ground (
      arith,
      at-swapped c,
      v.times c (omega (arith, len-swapped h i j)),
      v.times i hi,
      v.times j hj,
    );
    keys = λ k. ground (arith, lookup-swapped k, v.keys k, v.index i hi, v.index j hj);
  }

pub less_ok :
    (h : CallTimerHeap) (i j : ℕ)
    → i < len h
    → j < len h
    → less h i j ≡ ok (ltb (at h i).fire_time (at h j).fire_time)
unfolding less
less_ok h i j hi hj =
    rw (
      get_elem?-eq-get_or h.call_timer i no_timer hi,
      get_elem?-eq-get_or h.call_timer j no_timer hj,
    )

pub swap_ok :
    (h : CallTimerHeap) (i j : ℕ) → i < len h → j < len h → swap h i j ≡ ok (swapped h i j)
unfolding swap
swap_ok h i j hi hj =
    let e = len-swapped h i j in
    rw (
      get_elem?-eq-get_or h.call_timer i no_timer hi,
      get_elem?-eq-get_or h.call_timer j no_timer hj,
      get_elem?-eq-get_or (swapped h i j).call_timer i no_timer (omega arith),
      get_elem?-eq-get_or (swapped h i j).call_timer j no_timer (omega arith),
    )

pub fire_time-swapped :
    (h : CallTimerHeap) (i j : ℕ)
    → i < len h
    → j < len h
    → (c : ℕ)
    → (at (swapped h i j) c).fire_time ≡ (
        if j == c
        then (at h i).fire_time
        else if i == c
        then (at h j).fire_time
        else (at h c).fire_time)
fire_time-swapped h i j hi hj c = ground (arith, at-swapped h i j hi hj c)

-- The key of an entry is its fire time, and swaps among the first `n` entries keep `Good`.
abbrev pub lawful :
    (Good : CallTimerHeap → Type 0) (n : ℕ)
    → ((h : CallTimerHeap) (i j : ℕ)
        → i < len h
        → j < len h
        → i < n
        → j < n
        → Good h
        → Good (swapped h i j))
    → ((h : CallTimerHeap) → Good h → n ≤ len h)
    → IsLawful timers Good n
lawful Good n keep within = record {
  key = λ h i. (at h i).fire_time;
  swapped = swapped;
  less_ok = less_ok;
  swap_ok = swap_ok;
  len-swapped = len-swapped;
  key-swapped = λ h i j c hi hj. fire_time-swapped h i j hi hj c;
  swapped-Good =
      λ h i j p q g. keep h i j (le_trans p (within h g)) (le_trans q (within h g)) p q g;
}
