-- ===== src/Concurrent/Order.antt =====
-- The queues of concurrent/dispatch.go: at most one task of a queue is under way, and the tasks of
-- a queue start in the order in which they were accepted.

use origin.Prelude.{
  ℕ, ◌+◌, ◌≡◌, ◌≢◌, refl, nat_eq, ◌==◌, ltb, if◌then◌else◌, List, [], ◌∷◌, ◌++◌, none, some, length,
  Bool-cases, inl, inr, arith, ◌∙◌, sym, ap, append_assoc,
}
use origin.Concurrent.{
  Task, Worker, Dispatch, Ending, session, process_timer, async_do_by_queue, end_call_fun,
}
use origin.Concurrent.Workers.{running, running-append, process_timer_lem}

-- The tasks of queue `q` in a list, in their order.
abbrev pub only : ℕ → List Task → List Task
only q [] = []
only q (t ∷ ts) = if t.queue_id == q then t ∷ only q ts else only q ts

abbrev pub tail : List Task → List Task
tail [] = []
tail (t ∷ ts) = ts

abbrev pub events : ℕ → List ℕ → ℕ
events q [] = 0
events q (r ∷ rs) = (if r == q then 1 else 0) + events q rs

abbrev pub at_most_one : List Task → ℕ
at_most_one [] = 0
at_most_one (t ∷ ts) = 1

-- Every task of the list belongs to queue `q`.
abbrev pub IsOf : ℕ → List Task → Type 0
IsOf q [] = Unit
IsOf q (t ∷ ts) = (t.queue_id ≡ q) × IsOf q ts

-- A queue has one task under way (it runs, or its end is not processed yet) if its session has a
-- task, and none otherwise. The tasks that were started, those that wait in the session and those
-- in the channel are the tasks that were accepted, in this order.
pub record IsOrdered (d : Dispatch) : Type 0 where
  pub under_way :
      (q : ℕ)
      → q ≢ 0
      → running q d.workers + events q d.queue_id_channel ≡ at_most_one (session q d)
  pub order :
      (q : ℕ)
      → q ≢ 0
      → only q d.started ++ (tail (session q d) ++ only q d.tasks) ≡ only q d.accepted
  pub owned : (q : ℕ) → IsOf q (session q d)

pub only-append : (q : ℕ) (ts us : List Task) → only q (ts ++ us) ≡ only q ts ++ only q us
only-append q [] us = refl
only-append q (t ∷ ts) us = ground (arith, only-append q ts us)

pub events-append : (q : ℕ) (rs ss : List ℕ) → events q (rs ++ ss) ≡ events q rs + events q ss
events-append q [] ss = omega arith
events-append q (r ∷ rs) ss = omega (arith, events-append q rs ss)

pub IsOf-append :
    (q : ℕ) (ts : List Task) (t : Task) → IsOf q ts → t.queue_id ≡ q → IsOf q (ts ++ t ∷ [])
IsOf-append q [] t h e = (e, tt)
IsOf-append q (u ∷ ts) t h e = (h.0, IsOf-append q ts t h.1 e)

tail-append : (t u : Task) (s : List Task) → tail ((u ∷ s) ++ t ∷ []) ≡ s ++ t ∷ []
tail-append t u s = refl

-- AsyncDoByQueue appends to the channel and to the accepted tasks, or to neither.
pub submit-IsOrdered : (t : Task) (d : Dispatch) → IsOrdered d → IsOrdered (async_do_by_queue t d)
unfolding async_do_by_queue session
submit-IsOrdered t d o = elim (Bool-cases (ltb (length d.tasks) d.max_task_channel_num)) [
  | inl room ↦ rw room (record {
    under_way = o.under_way;
    order = λ q nz.
        let a = only q d.started in
        let b = tail (session q d) in
        rw (only-append q d.tasks (t ∷ []), only-append q d.accepted (t ∷ []), ← o.order q nz)
          (ap (◌++◌ a) (sym (append_assoc b (only q d.tasks) (only q (t ∷ []))))
            ∙ sym (append_assoc a (b ++ only q d.tasks) (only q (t ∷ []))));
    owned = o.owned;
  })
  | inr full ↦ rw full (elim (Bool-cases t.with_callback) [
    | inl e ↦ rw e (record { under_way = o.under_way; order = o.order; owned = o.owned })
    | inr e ↦ rw e o
  ])
]

pub timeout-IsOrdered : (d : Dispatch) → IsOrdered d → IsOrdered (process_timer d)
unfolding session
timeout-IsOrdered d o =
    let t = process_timer_lem d in
    record {
      under_way = λ q nz. rw (t.runs q, t.queue_ids, t.sessions) (o.under_way q nz);
      order = λ q nz. rw (t.started, t.sessions, t.tasks, t.accepted) (o.order q nz);
      owned = λ q. rw (t.sessions) (o.owned q);
    }

-- The end of a task of a queue turns the running task into an event.
pub finish-IsOrdered :
    (before after : List Worker) (t : Task) (ending : Ending) (d : Dispatch)
    → d.workers ≡ before ++ some t ∷ after
    → IsOrdered d
    → IsOrdered (end_call_fun ending t (record d { workers = before ++ none ∷ after }))
unfolding end_call_fun session
finish-IsOrdered before after t ending d e o = record {
  under_way = λ q nz. ground (
    arith,
    o.under_way q nz,
    ap (running q) e,
    running-append q before (some t ∷ after),
    running-append q before (none ∷ after),
    events-append q d.queue_id_channel (t.queue_id ∷ []),
  );
  order = o.order;
  owned = o.owned;
}
