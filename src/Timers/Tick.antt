-- ===== src/Timers/Tick.antt =====
-- tick and the loop of tickRoutine in util/timer/heap.go.
use origin.Prelude.{
  ℕ, suc, ◌-◌, ◌≤◌, ◌<◌, ◌≡◌, refl, nat_eq, ◌==◌, ltb, Bool, true, false, List, [], ◌∷◌, ◌++◌,
  length, arith, get_elem?-eq-get_or, count-get_or, index_of, Ends, ends, Ends-bind, Bool-cases,
  inl, inr,
}
use origin.Heap.Ops.{root_least}
use origin.Timers.{World, set_open, fire_times, fire, tick}
use origin.Timers.Lawful.{entry, lawful}
use origin.Timers.Pop.{Popped, pop_lem}
use origin.Timers.Setup.{IsSound}

-- The first timer is open, and no open timer is due before it.
module _ (w : World) (s : IsSound w) where
  first_open : 0 < length w.heap → (w.at (entry w.heap 0)).r_open ≡ true
  first_open p = ground (arith, count-get_or w.heap 0 0 p, s.once (entry w.heap 0))

  open_inside :
      (t : ℕ) → (w.at t).r_open ≡ true → (i : ℕ) × (i < length w.heap) × (entry w.heap i ≡ t)
  open_inside t e = index_of t w.heap 0 (ground (arith, s.once t))

  first_least :
      (t : ℕ)
      → (w.at t).r_open ≡ true
      → (0 < length w.heap) × (fire_times w (entry w.heap 0) ≤ fire_times w t)
  first_least t e =
      let (i, p, q) = open_inside t e in
      let l = lawful (fire_times w) w.heap (length w.heap) (omega arith) in
      let least = root_least l (length w.heap) w.heap i s.order p in
      (omega arith, ground (arith, least, q))

-- The timer `t`, which no other open timer goes before, went to its channel.
pub record Fired (t : ℕ) (w w' : World) : Type 0 where
  pub was_open : (w.at t).r_open ≡ true
  pub least : (u : ℕ) → (w.at u).r_open ≡ true → fire_times w t ≤ fire_times w u
  pub sound : IsSound w'
  pub at : (u : ℕ) → w'.at u ≡ (set_open t false w).at u
  pub sent : w'.sent ≡ w.sent ++ ((w.at t).c, t) ∷ []
  pub fewer : suc (length w'.heap) ≡ length w.heap

pub data Ticked (now : ℕ) (w : World) : Bool × World → Type 0 where
  quiet : ((t : ℕ) → (w.at t).r_open ≡ true → now < fire_times w t) → Ticked now w (false, w)
  fired : {w' : World} → (t : ℕ) → fire_times w t ≤ now → Fired t w w' → Ticked now w (true, w')

module _ (now : ℕ) (w : World) (s : IsSound w) where
  fire_lem :
      (n : ℕ)
      → length w.heap ≡ suc n
      → (r : ℕ × List ℕ) → Popped (fire_times w) w.heap r
      → Fired r.0 w (fire r.0 r.1 w)
  unfolding fire
  fire_lem n len (t, h) p =
      let e = first_open w s (omega arith) in
      record {
        was_open = ground (arith, e, p.first);
        least = λ u o. ground (arith, first_least w s u o, p.first);
        sound = record {
          order = λ c q r. ground (arith, p.order c);
          once = λ u. ground (arith, p.rest u, s.once u, e, p.first);
        };
        at = λ u. refl;
        sent = ground arith;
        fewer = p.fewer;
      }

  -- On a sound world tick fires an open timer that is due, the one with the least fire time; it
  -- does nothing if none is due.
  pub tick_lem : Ends (Ticked now w) (tick now w)
  unfolding tick
  tick_lem = elim (Bool-cases (length w.heap == 0)) [
    | inl empty ↦ rw empty (ends (quiet λ t o. absurd (ground (arith, first_least w s t o))))
    | inr full ↦
        let len : length w.heap ≡ suc (length w.heap - 1) = ground arith in
        rw (full, get_elem?-eq-get_or w.heap 0 0 (omega arith))
          (elim (Bool-cases (ltb now (fire_times w (entry w.heap 0)))) [
            | inl later ↦ rw later (ends (quiet λ t o. ground (arith, first_least w s t o)))
            | inr due ↦ rw due (
                Ends-bind (pop_lem (fire_times w) w.heap (length w.heap - 1) len s.order) λ r p.
                  ends (fired r.0 (ground (arith, p.first)) (fire_lem (length w.heap - 1) len r p)))
          ])
  ]
