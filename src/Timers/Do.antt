-- ===== src/Timers/Do.antt =====
-- Timer.Do, Ticker.Do and Timer.SetupTimer of util/timer/timer.go.
use origin.Prelude.{
  ℕ, ◌+◌, ◌≤◌, ◌<◌, ◌≡◌, ◌≢◌, refl, nat_eq, ◌==◌, ltb, if◌then◌else◌, Bool, true, false, length,
  arith, count, count-get_or, get_elem?-eq-get_or, ok, Ends, ends, Ends-bind, Ends-map, Bool-cases,
  inl, inr,
}
use origin.Timers.{
  World, put, fire_times, setup_timer, setup_timer_at, tick, tick_routine, run_callback, is_active,
  do_ticker, call, ran, ran_ex,
}
use origin.Timers.Lawful.{entry}
use origin.Timers.Setup.{IsSound, setup_timer_lem, put-IsOrdered}
use origin.Timers.Rounds.{Served, tick_routine_lem}

-- A timer that is not open gets its next fire time and is open again, the only one that changed.
pub record IsSetUpAt (now t : ℕ) (w : World) (r : Bool × World) : Type 0 where
  pub done : r.0 ≡ true
  pub sound : IsSound r.1
  pub at :
      (u : ℕ)
      → r.1.at u ≡ (
          if t == u
          then record (w.at t) { fire_time = now + (w.at t).interval; r_open = true }
          else w.at u)
  pub quiet : (r.1.sent ≡ w.sent) × (r.1.called ≡ w.called)

pub setup_timer_at_lem :
    (now t : ℕ) (w : World)
    → IsSound w
    → (w.at t).r_open ≡ false
    → Ends (IsSetUpAt now t w) (setup_timer_at now t w)
unfolding setup_timer_at
setup_timer_at_lem now t w s e =
    let timer = record (w.at t) { fire_time = now + (w.at t).interval } in
    let w' = put t timer w in
    let s' : IsSound w' = record {
      order = put-IsOrdered w t timer s e;
      once = λ u. ground (arith, s.once u);
    } in
    Ends-map (setup_timer_lem t w' s' (ground (arith, e))) λ r k. record {
      done = k.done;
      sound = k.sound;
      at = λ u. ground (arith, k.at u);
      quiet = k.quiet;
    }

-- What a callback may do: the heap stays sound, and the timer `t` is not set up in it.
abbrev pub IsTame : (ℕ → World → World) → ℕ → Type 0
IsTame run t =
    (w : World)
    → IsSound w
    → (w.at t).r_open ≡ false
    → IsSound (run t w) × (((run t w).at t).r_open ≡ false)

module _ (run : ℕ → World → World) (t : ℕ) (tame : IsTame run t) (w : World) (s : IsSound w)
    (e : (w.at t).r_open ≡ false) where
  run_callback-Tame :
      IsSound (run_callback run t w) × (((run_callback run t w).at t).r_open ≡ false)
  unfolding run_callback call
  run_callback-Tame = elim (Bool-cases (w.at t).cb) [
    | inl has ↦ rw has (tame (call (ran t) w) (record { order = s.order; once = s.once }) e)
    | inr no_cb ↦ elim (Bool-cases (w.at t).cb_ex) [
      | inl has ↦
          rw (no_cb, has) (tame (call (ran_ex t) w) (record { order = s.order; once = s.once }) e)
      | inr lacks ↦ rw (no_cb, lacks) (s, e)
    ]
  ]

  -- On a sound world, a ticker that is not in the heap and that no one cancels is set up again by Do,
  -- and the loop at a time that is at least its interval later, with more fuel than there are timers,
  -- sends it to its channel once. Its callback leaves the heap sound and does not set the ticker up.
  pub ticker_again :
      (now later fuel : ℕ)
      → let ran_ = run_callback run t w in
        is_active (ran_.at t) ≡ true
        → is_active (w.at t) ≡ true
        → now + (ran_.at t).interval ≤ later
        → Ends
            (λ w'.
              length w'.heap < fuel
              → Ends
                  (λ w''.
                    (v : Served later 0 (fire_times w') (λ u. (w'.at u).c) w' w'') × (count t v.ts
                      ≡ 1))
                  (tick_routine fuel later w'))
            (do_ticker run now t w)
  unfolding do_ticker
  ticker_again now later fuel active before le =
      let v = run_callback run t w in
      let (sound, shut) = run_callback-Tame in
      rw (before, active)
        (Ends-bind (setup_timer_at_lem now t v sound shut) λ r k. ends λ lt.
          Ends-map (tick_routine_lem fuel later r.1 k.sound lt)
            λ w'' z. (z, ground (arith, z.all_due t, k.at t)))

-- On a sound world, Timer.SetupTimer on the first timer of the heap, which is open, is refused, but moves its fire
-- time in the heap all the same: until the new time tick fires no other timer either, due or not.
pub late_after_setup :
    (now later : ℕ) (w : World)
    → IsSound w
    → 0 < length w.heap
    → let t = entry w.heap 0 in
      later < now + (w.at t).interval
      → (w' : World) × (setup_timer_at now t w ≡ ok (false, w'))
        × (tick later w' ≡ ok (false, w'))
        × ((u : ℕ) → t ≢ u → w'.at u ≡ w.at u)
        × (w'.heap ≡ w.heap)
unfolding setup_timer_at setup_timer tick
late_after_setup now later w s p lt =
    let t = entry w.heap 0 in
    let open_ : (w.at t).r_open ≡ true = ground (arith, count-get_or w.heap 0 0 p, s.once t) in
    let full : (length w.heap == 0) ≡ false = ground arith in
    let late : ltb later (now + (w.at t).interval) ≡ true = ground arith in
    (
      put t (record (w.at t) { fire_time = now + (w.at t).interval }) w,
      ground (arith, open_),
      rw (full, get_elem?-eq-get_or w.heap 0 0 p) (ground (arith, late)),
      λ u n. ground arith,
      refl,
    )
