-- ===== src/Concurrent/Pool.antt =====
-- The workers of concurrent/dispatch.go and their number, and the sessions of the queues' events.
use mathlib.Core.Path.{subst}
use origin.Prelude.{
  ℕ, ◌≤◌, ◌≡◌, ◌≢◌, refl, nat_eq, ◌==◌, false, List, [], ◌∷◌, ◌++◌, none, some, length, lookup,
  Option-cases, Bool-cases, inl, inr, arith, sym, ap, length-append, some_inj,
}
use origin.Concurrent.{
  Task, Dispatch, execute_task, session, set_session, process_task, process_queue_event,
  async_do_by_queue, end_call_fun, open_dispatch, Step, submit, take_task, take_queue_id, timeout,
  finish, Reach, here, next,
}
use origin.Concurrent.Workers.{executed, process_timer_lem}
use origin.Concurrent.Order.{events, at_most_one}
use origin.Concurrent.Queues.{Reach-IsOrdered}

pub record IsBounded (d : Dispatch) : Type 0 where
  pub counted : d.worker_num ≡ length d.workers
  pub within : d.worker_num ≤ d.max_concurrent_num

executed-IsBounded :
    (t : Task) (d d' : Dispatch) → execute_task t d ≡ some d' → IsBounded d → IsBounded d'
executed-IsBounded t d d' e b =
    let x = executed t d d' e in
    record { counted = omega (arith, x.grown, b.counted); within = x.bounded b.within }

process_task-IsBounded :
    (t : Task) (d d' : Dispatch) → process_task t d ≡ some d' → IsBounded d → IsBounded d'
unfolding process_task
process_task-IsBounded t d d' e b = elim (Bool-cases (t.queue_id == 0)) [
  | inl plain ↦ executed-IsBounded t d1 d' (rw plain at e) b1
  | inr queued ↦ by_session (session t.queue_id d1) refl queued
]
  where
    d1 : Dispatch
    d1 = record d { idle = false }

    b1 : IsBounded d1
    b1 = record { counted = b.counted; within = b.within }

    by_session :
        (s : List Task) → session t.queue_id d1 ≡ s → (t.queue_id == 0) ≡ false → IsBounded d'
    by_session [] empty queued = elim (Option-cases (execute_task t d1)) [
      | inl blocked ↦ absurd (cc (rw (queued, empty, blocked) at e))
      | inr (d2, run) ↦
          let f : some (set_session t.queue_id (t ∷ []) d2) ≡ some d' =
            rw (queued, empty, run) at e in
          let c = executed-IsBounded t d1 d2 run b1 in
          subst IsBounded (some_inj f) (record { counted = c.counted; within = c.within })
    ]
    by_session (u ∷ s) busy queued =
        let f : some (set_session t.queue_id ((u ∷ s) ++ t ∷ []) d1) ≡ some d' =
          rw (queued, busy) at e in
        subst IsBounded (some_inj f) (record { counted = b.counted; within = b.within })

process_queue_event-IsBounded :
    (q : ℕ) (d d' : Dispatch) → process_queue_event q d ≡ some d' → IsBounded d → IsBounded d'
unfolding process_queue_event
process_queue_event-IsBounded q d d' e b = elim (Option-cases (lookup q d.map_task_queue_session)) [
  | inl missing ↦
      let f : some d1 ≡ some d' = rw (missing, process_queue_event) at e in
      subst IsBounded (some_inj f) b1
  | inr (s, found) ↦ by_session s found
]
  where
    d1 : Dispatch
    d1 = record d { idle = false }

    b1 : IsBounded d1
    b1 = record { counted = b.counted; within = b.within }

    by_session : (s : List Task) → lookup q d.map_task_queue_session ≡ some s → IsBounded d'
    by_session [] found = absurd (cc (rw (found, process_queue_event) at e))
    by_session (t ∷ []) found =
        let f : some (set_session q [] d1) ≡ some d' = rw (found, process_queue_event) at e in
        subst IsBounded (some_inj f) (record { counted = b.counted; within = b.within })
    by_session (t ∷ u ∷ s) found =
        let f : execute_task u (set_session q (u ∷ s) d1) ≡ some d' =
          rw (found, process_queue_event) at e in
        executed-IsBounded u (set_session q (u ∷ s) d1) d' f
          (record { counted = b.counted; within = b.within })

pub Step-IsBounded : {d d' : Dispatch} → Step d d' → IsBounded d → IsBounded d'
unfolding async_do_by_queue end_call_fun
Step-IsBounded {d} (submit t) b = ground (arith, b.counted, b.within)
Step-IsBounded {d} {d'} (take_task t rest front e) b =
    process_task-IsBounded t (record d { tasks = rest }) d' e
      (record { counted = b.counted; within = b.within })
Step-IsBounded {d} {d'} (take_queue_id r rest front e) b =
    process_queue_event-IsBounded r (record d { queue_id_channel = rest }) d' e
      (record { counted = b.counted; within = b.within })
Step-IsBounded {d} timeout b =
    let t = process_timer_lem d in
    record {
      counted = omega (arith, t.shrunk, b.counted);
      within = rw (t.limit) (omega (arith, t.fewer, b.within));
    }
Step-IsBounded {d} (finish before after t ending e f) b = subst IsBounded (sym f) (record {
  counted = omega (
    arith,
    b.counted,
    ap length e,
    length-append before (some t ∷ after),
    length-append before (none ∷ after),
  );
  within = b.within;
})

-- In every state that is reached from an open dispatcher, the count of the workers is right and
-- within the maximum.
pub Reach-IsBounded :
    (min_num max_num max_tasks : ℕ) {d : Dispatch}
    → Reach (open_dispatch min_num max_num max_tasks) d
    → IsBounded d
unfolding open_dispatch
Reach-IsBounded min_num max_num max_tasks here = record { counted = refl; within = omega arith }
Reach-IsBounded min_num max_num max_tasks (next r s) =
    Step-IsBounded s (Reach-IsBounded min_num max_num max_tasks r)

-- In every state that is reached from an open dispatcher, the queue of an event in the channel
-- has a task in its session, so that PopFront in processQueueEvent does not panic.
pub event_has_session :
    (min_num max_num max_tasks q : ℕ) {d : Dispatch}
    → Reach (open_dispatch min_num max_num max_tasks) d
    → q ≢ 0
    → events q d.queue_id_channel ≢ 0
    → session q d ≢ []
event_has_session min_num max_num max_tasks q {d} r nz pending empty =
    let o = Reach-IsOrdered min_num max_num max_tasks r in
    pending (omega (arith, o.under_way q nz, ap at_most_one empty))
