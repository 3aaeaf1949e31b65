-- ===== src/Timers/Rounds.antt =====
-- The rounds of tickRoutine in util/timer/heap.go: every timer that is due is sent, in order.
use origin.Prelude.{
  ℕ, zero, suc, ◌≤◌, ◌<◌, ◌≡◌, refl, nat_eq, leb, ◌&&◌, if◌then◌else◌, Bool, true, false, List, [],
  ◌∷◌, ◌++◌, map, length, arith, count, one_if, append_assoc, append-nil, Ends, ends, Ends-bind,
  Ends-map, ok, sym,
}
use origin.Timers.{Timer, World, fire_times, tick_routine}
use origin.Timers.Setup.{IsSound}
use origin.Timers.Tick.{Fired, Ticked, quiet, fired, tick_lem}

-- The keys do not fall, and none is below the bound.
pub data IsAscending (key : ℕ → ℕ) : ℕ → List ℕ → Type 0 where
  nil : {bound : ℕ} → IsAscending key bound []
  next :
      {bound t : ℕ} {ts : List ℕ}
      → bound ≤ key t
      → IsAscending key (key t) ts
      → IsAscending key bound (t ∷ ts)

abbrev pub is_due : ℕ → Timer → Bool
is_due now t = t.r_open && leb t.fire_time now

-- `ts` are the timers that were sent, each once, and closed.
pub record Served (now bound : ℕ) (fire chan : ℕ → ℕ) (w w' : World) : Type 0 where
  pub ts : List ℕ
  pub ascending : IsAscending fire bound ts
  pub all_due : (t : ℕ) → count t ts ≡ one_if (is_due now (w.at t))
  pub sent : w'.sent ≡ w.sent ++ map (λ t. (chan t, t)) ts
  pub sound : IsSound w'
  pub at :
      (t : ℕ)
      → w'.at t ≡ (if is_due now (w.at t) then record (w.at t) { r_open = false } else w.at t)

module _ (now : ℕ) (fire chan : ℕ → ℕ) where
  Agrees : World → Type 0
  Agrees w = (t : ℕ) → ((w.at t).fire_time ≡ fire t) × ((w.at t).c ≡ chan t)

  IsBound : ℕ → World → Type 0
  IsBound bound w = (t : ℕ) → (w.at t).r_open ≡ true → bound ≤ fire t

  none_due :
      (bound : ℕ) (w : World)
      → IsSound w
      → ((t : ℕ) → (w.at t).r_open ≡ true → now < fire_times w t)
      → Served now bound fire chan w w
  none_due bound w s q = record {
    ts = [];
    ascending = nil;
    all_due = λ t. ground (arith, q t);
    sent = sym (append-nil w.sent);
    sound = s;
    at = λ t. ground (arith, q t);
  }

  one_due :
      (bound : ℕ) (w v w' : World) (t : ℕ)
      → IsBound bound w
      → Agrees w
      → fire_times w t ≤ now
      → Fired t w v
      → Served now (fire t) fire chan v w'
      → Served now bound fire chan w w'
  unfolding IsBound Agrees
  one_due bound w v w' t b a due f s = record {
    ts = t ∷ s.ts;
    ascending = next (b t f.was_open) s.ascending;
    all_due = λ u. ground (arith, s.all_due u, f.at u, f.was_open);
    sent =
        rw (s.sent, f.sent, (a t).1)
          (append_assoc w.sent ((chan t, t) ∷ []) (map (λ t. (chan t, t)) s.ts));
    sound = s.sound;
    at = λ u. ground (arith, s.at u, f.at u, f.was_open);
  }

  -- The loop with this fuel, from any world.
  Rounds : ℕ → Type 0
  Rounds fuel =
      (bound : ℕ) (w : World)
      → IsSound w
      → IsBound bound w
      → Agrees w
      → length w.heap < fuel
      → Ends (Served now bound fire chan w) (tick_routine fuel now w)

  round :
      (fuel bound : ℕ) (w : World)
      → Rounds fuel
      → IsSound w
      → IsBound bound w
      → Agrees w
      → length w.heap < suc fuel
      → (r : Bool × World) → Ticked now w r
      → Ends (Served now bound fire chan w) (if r.0 then tick_routine fuel now r.1 else ok r.1)
  unfolding Rounds IsBound Agrees
  round fuel bound w ih s b a lt _ (quiet q) = ends (none_due bound w s q)
  round fuel bound w ih s b a lt (_, v) (fired t due f) =
      Ends-map
        (ih (fire t) v f.sound (λ u o. ground (arith, f.at u, f.least u, a u, a t))
          (λ u. ground (arith, f.at u, a u)) (omega (arith, f.fewer)))
        λ w' g. one_due bound w v w' t b a due f g

  tick_routine_from : (fuel : ℕ) → Rounds fuel
  unfolding tick_routine Rounds
  tick_routine_from zero bound w s b a lt = absurd (omega arith)
  tick_routine_from (suc fuel) bound w s b a lt =
      Ends-bind (tick_lem now w s) (round fuel bound w (tick_routine_from fuel) s b a lt)

-- On a sound world, with more fuel than there are timers, the loop comes to its sleep. Then it has
-- sent exactly the open timers that are due to their channels, each once, by rising fire time, and
-- has closed them and changed no other.
pub tick_routine_lem :
    (fuel now : ℕ) (w : World)
    → IsSound w
    → length w.heap < fuel
    → Ends (Served now 0 (fire_times w) (λ t. (w.at t).c) w) (tick_routine fuel now w)
unfolding IsBound Agrees Rounds
tick_routine_lem fuel now w s lt =
    tick_routine_from now (fire_times w) (λ t. (w.at t).c) fuel 0 w s (λ t o. omega arith)
      (λ t. (refl, refl)) lt
