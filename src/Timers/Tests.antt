-- ===== src/Timers/Tests.antt =====
-- Tests of util/timer: timers 1 and 2 are in the heap, 3 is not.
use origin.Prelude.{
  ℕ, ◌<◌, ◌≡◌, ◌≢◌, ◌>>=◌, refl, nat_eq, ◌==◌, if◌then◌else◌, Bool, true, false, List, [], ◌∷◌,
  length, arith, count, Outcome, ok, Ends,
}
use origin.Timers.{
  Timer, World, fire_times, setup_timer, setup_timer_at, tick, tick_routine, do_ticker,
  run_callback, is_active, new_timer,
}
use origin.Timers.Setup.{IsSound}
use origin.Timers.Rounds.{Served, tick_routine_lem}
use origin.Timers.Do.{IsTame, ticker_again, late_after_setup}

abbrev timer : ℕ → Bool → Timer
timer fire_time r_open = record {
  cancelled = false;
  c = 7;
  interval = 10;
  fire_time = fire_time;
  cb = true;
  cb_ex = false;
  cb_on_close_timer = true;
  r_open = r_open;
}

abbrev two : World
two = record {
  at = λ t. if t == 1 then timer 20 true else if t == 2 then timer 30 true else timer 0 false;
  heap = 1 ∷ 2 ∷ [];
  sent = [];
  called = [];
}

two-IsSound : IsSound two
two-IsSound = record {
  order = λ c p q. let e : c ≡ 1 = omega arith in rw e (omega arith);
  once = λ t. ground arith;
}

tick_routine_lem_example :
    Ends (Served 30 0 (fire_times two) (λ t. (two.at t).c) two) (tick_routine 3 30 two)
tick_routine_lem_example = tick_routine_lem 3 30 two two-IsSound (omega arith)

abbrev idle : ℕ → World → World
idle t w = w

idle-IsTame : IsTame idle 3
idle-IsTame w s e = (s, e)

ticker_again_example :
    Ends
      (λ w'.
        length w'.heap < 9
        → Ends
            (λ w''.
              (v : Served 50 0 (fire_times w') (λ u. (w'.at u).c) w' w'') × (count 3 v.ts ≡ 1))
            (tick_routine 9 50 w'))
      (do_ticker idle 40 3 two)
unfolding run_callback origin.Timers.call
ticker_again_example =
    ticker_again idle 3 idle-IsTame two two-IsSound refl 40 50 9 refl refl (omega arith)

-- At 30 the timers 1 and 2 would be due, but 1 was set up again at 25.
late_after_setup_example :
    (w' : World) × (setup_timer_at 25 1 two ≡ ok (false, w'))
    × (tick 30 w' ≡ ok (false, w'))
    × ((u : ℕ) → 1 ≢ u → w'.at u ≡ two.at u)
    × (w'.heap ≡ two.heap)
late_after_setup_example = late_after_setup 25 30 two two-IsSound (omega arith) (omega arith)

abbrev sent_in_order : Outcome (List (ℕ × ℕ))
sent_in_order = tick_routine 3 30 two >>= λ w. ok w.sent

tick_routine_test : sent_in_order ≡ ok ((7, 1) ∷ (7, 2) ∷ [])
unfolding tick_routine tick origin.Heap.pop origin.Timers.swap origin.Heap.down
    origin.Timers.remove_last origin.Timers.fire
tick_routine_test = refl
