-- ===== src/Timers/Setup.antt =====
-- SetupTimer of util/timer/heap.go, and what holds of the timers in the heap.
use origin.Prelude.{
  ℕ, ◌-◌, ◌/◌, ◌≡◌, refl, nat_eq, Bool, true, false, [], ◌∷◌, arith, count, one_if, count-append,
  count-get_or, Ends, ends, Ends-bind,
}
use origin.Timers.{Timer, World, put, set_open, fire_times, setup_timer}
use origin.Timers.Pop.{IsOrdered, push_lem}

-- The heap is in order, and a timer is in it, once, if and only if it is open.
pub record IsSound (w : World) : Type 0 where
  pub order : IsOrdered (fire_times w) w.heap
  pub once : (t : ℕ) → count t w.heap ≡ one_if (w.at t).r_open

-- Where a timer that is not in the heap is written to, the others' order stays.
pub put-IsOrdered :
    (w : World) (t : ℕ) (timer : Timer)
    → IsSound w
    → (w.at t).r_open ≡ false
    → IsOrdered (fire_times (put t timer w)) w.heap
put-IsOrdered w t timer s e c p q = ground (
  arith,
  s.order c,
  s.once t,
  count-get_or w.heap c 0 q,
  count-get_or w.heap ((c - 1) / 2) 0 (omega arith),
)

-- What SetupTimer makes of a timer that is not open: it is, as the only one that changed.
pub record IsSetUp (t : ℕ) (w : World) (r : Bool × World) : Type 0 where
  pub done : r.0 ≡ true
  pub sound : IsSound r.1
  pub at : (u : ℕ) → r.1.at u ≡ (set_open t true w).at u
  pub quiet : (r.1.sent ≡ w.sent) × (r.1.called ≡ w.called)

pub setup_timer_lem :
    (t : ℕ) (w : World) → IsSound w → (w.at t).r_open ≡ false → Ends (IsSetUp t w) (setup_timer t w)
unfolding setup_timer
setup_timer_lem t w s e = rw e (
    Ends-bind
      (push_lem (fire_times (set_open t true w)) w.heap t
        (put-IsOrdered w t (record (w.at t) { r_open = true }) s e))
      λ h (o, same). ends (record {
        done = refl;
        sound = record {
          order = o;
          once = λ u. ground (arith, same u, count-append u w.heap (t ∷ []), s.once u, e);
        };
        at = λ u. refl;
        quiet = (refl, refl);
      }))
