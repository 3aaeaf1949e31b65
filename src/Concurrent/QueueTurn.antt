-- ===== src/Concurrent/QueueTurn.antt =====
-- The turn in which the dispatcher of concurrent/dispatch.go learns that a task of a queue has ended.
use mathlib.Core.Path.{subst}
use origin.Prelude.{
  ℕ, ◌+◌, ◌≡◌, ◌≢◌, refl, nat_eq, ◌==◌, if◌then◌else◌, true, false, List, [], ◌∷◌, ◌++◌, some,
  lookup, Option-cases, Bool-cases, inl, inr, arith, ap, append_assoc, append-nil, some_inj,
}
use origin.Concurrent.{Task, Dispatch, execute_task, session, set_session, process_queue_event}
use origin.Concurrent.Workers.{Executed, executed, session-set_session}
use origin.Concurrent.Order.{only, events, at_most_one, IsOf, IsOrdered, only-append}
use origin.Concurrent.TaskTurn.{session-eq}

no_event_pending :
    (q r : ℕ) (rest : List ℕ) (d : Dispatch)
    → d.queue_id_channel ≡ r ∷ rest
    → IsOrdered d
    → q ≢ 0
    → session q d ≡ []
    → (r == q) ≡ false
no_event_pending q r rest d front o nz empty =
    ground (arith, o.under_way q nz, ap (events q) front, ap at_most_one empty)

module _ (r : ℕ) (rest : List ℕ) (d : Dispatch) (front : d.queue_id_channel ≡ r ∷ rest)
    (o : IsOrdered d) where
  abbrev told : Dispatch
  told = record d { queue_id_channel = rest; idle = false }

  events_front : (q : ℕ) → events q d.queue_id_channel ≡ (if r == q then 1 else 0) + events q rest
  events_front q = ap (events q) front

  unknown-IsOrdered : session r d ≡ [] → IsOrdered told
  unfolding session
  unknown-IsOrdered empty = record {
    under_way = λ q nz.
        ground
          (arith, o.under_way q nz, events_front q, no_event_pending r r rest d front o, empty);
    order = o.order;
    owned = o.owned;
  }

  last-IsOrdered : (t : Task) → session r d ≡ t ∷ [] → IsOrdered (set_session r [] told)
  last-IsOrdered t one =
      let at = λ (q : ℕ). session-set_session r q [] told in
      let old = λ (q : ℕ). session-eq q told d refl in
      record {
        under_way = λ q nz.
            rw (at q, old q)
              (elim (Bool-cases (r == q)) [
                | inl this ↦
                    let same : r ≡ q = ground arith in
                    let only_one : session q d ≡ t ∷ [] = rw (← same) one in
                    rw this (ground (arith, o.under_way q nz, events_front q, only_one))
                | inr other ↦ rw other (ground (arith, o.under_way q nz, events_front q))
              ]);
        order = λ q nz.
            rw (at q, old q)
              (elim (Bool-cases (r == q)) [
                | inl this ↦
                    let same : r ≡ q = ground arith in
                    let only_one : session q d ≡ t ∷ [] = rw (← same) one in
                    rw this (rw only_one at (o.order q nz))
                | inr other ↦ rw other (o.order q nz)
              ]);
        owned = λ q.
            rw (at q, old q)
              (elim (Bool-cases (r == q)) [
                | inl this ↦ rw this tt
                | inr other ↦ rw other (o.owned q)
              ]);
      }

  next-IsOrdered :
      (t u : Task) (s : List Task) (d' : Dispatch)
      → session r d ≡ t ∷ u ∷ s
      → Executed u (set_session r (u ∷ s) told) d'
      → IsOrdered d'
  next-IsOrdered t u s d' more x =
      let at = λ (q : ℕ). session-set_session r q (u ∷ s) told in
      let old = λ (q : ℕ). session-eq q told d refl in
      let here = λ (q : ℕ). session-eq q d' (set_session r (u ∷ s) told) x.sessions in
      let mine : IsOf r (t ∷ u ∷ s) = rw more at (o.owned r) in
      record {
        under_way = λ q nz.
            rw (here q, at q, old q, x.queue_ids)
              (elim (Bool-cases (r == q)) [
                | inl this ↦
                    let same : r ≡ q = ground arith in
                    let full : session q d ≡ t ∷ u ∷ s = rw (← same) more in
                    rw this
                      (ground (arith, o.under_way q nz, events_front q, x.runs q, full, mine.1.0))
                | inr other ↦
                    rw other (ground (arith, o.under_way q nz, events_front q, x.runs q, mine.1.0))
              ]);
        order = λ q nz.
            rw
              (
                here q,
                at q,
                old q,
                x.started,
                x.tasks,
                x.accepted,
                only-append q d.started (u ∷ []),
                ← o.order q nz,
              )
              (elim (Bool-cases (r == q)) [
                | inl this ↦
                    let same : r ≡ q = ground arith in
                    let full : session q d ≡ t ∷ u ∷ s = rw (← same) more in
                    let ours : (u.queue_id == q) ≡ true = ground (arith, mine.1.0) in
                    rw (this, full, ours)
                      (append_assoc (only q d.started) (u ∷ []) (s ++ only q d.tasks))
                | inr other ↦
                    let theirs : (u.queue_id == q) ≡ false = ground (arith, mine.1.0) in
                    rw (other, theirs, append-nil)
              ]);
        owned = λ q.
            rw (here q, at q, old q)
              (elim (Bool-cases (r == q)) [
                | inl this ↦
                    let same : r ≡ q = ground arith in
                    rw this (subst (λ k. IsOf k (u ∷ s)) same mine.1)
                | inr other ↦ rw other (o.owned q)
              ]);
      }

pub take_queue_id-IsOrdered :
    (r : ℕ) (rest : List ℕ) (d d' : Dispatch)
    → d.queue_id_channel ≡ r ∷ rest
    → process_queue_event r (record d { queue_id_channel = rest }) ≡ some d'
    → IsOrdered d
    → IsOrdered d'
unfolding process_queue_event session
take_queue_id-IsOrdered r rest d d' front e o =
    elim (Option-cases (lookup r d.map_task_queue_session)) [
      | inl missing ↦
          let f : some d1 ≡ some d' = rw (missing, process_queue_event) at e in
          subst IsOrdered (some_inj f) (unknown-IsOrdered r rest d front o (rw (missing, session)))
      | inr (s, found) ↦ by_session s found
    ]
  where
    d1 : Dispatch
    d1 = record d { queue_id_channel = rest; idle = false }

    by_session : (s : List Task) → lookup r d.map_task_queue_session ≡ some s → IsOrdered d'
    by_session [] found = absurd (cc (rw (found, process_queue_event) at e))
    by_session (t ∷ []) found =
        let f : some (set_session r [] d1) ≡ some d' = rw (found, process_queue_event) at e in
        subst IsOrdered (some_inj f) (last-IsOrdered r rest d front o t (rw (found, session)))
    by_session (t ∷ u ∷ s) found =
        let f : execute_task u (set_session r (u ∷ s) d1) ≡ some d' =
          rw (found, process_queue_event) at e in
        next-IsOrdered r rest d front o t u s d' (rw (found, session))
          (executed u (set_session r (u ∷ s) d1) d' f)
