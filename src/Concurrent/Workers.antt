-- ===== src/Concurrent/Workers.antt =====
-- executeTask, processIdle and the end of a task in concurrent/dispatch.go and worker.go: what
-- they do to the workers, and that there are never too many.
use mathlib.Core.Path.{subst}
use origin.Prelude.{
  ℕ, ◌+◌, ◌≤◌, ◌≡◌, refl, nat_eq, ◌==◌, ltb, if◌then◌else◌, true, ◌&&◌, List, [], ◌∷◌, ◌++◌, Option,
  none, some, length, length-append, Option-cases, Bool-cases, inl, inr, arith, lookup-insert,
}
use origin.Concurrent.{
  Task, Worker, Dispatch, hand_over, execute_task, session, set_session, dismiss, process_idle,
  process_timer,
}

-- How many workers run a task of queue `q`.
abbrev pub running : ℕ → List Worker → ℕ
running q [] = 0
running q (none ∷ ws) = running q ws
running q (some t ∷ ws) = (if t.queue_id == q then 1 else 0) + running q ws

pub running-append :
    (q : ℕ) (ws vs : List Worker) → running q (ws ++ vs) ≡ running q ws + running q vs
running-append q [] vs = omega arith
running-append q (none ∷ ws) vs = running-append q ws vs
running-append q (some t ∷ ws) vs = omega (arith, running-append q ws vs)

abbrev Handed : Task → List Worker → Option (List Worker) → Type 0
Handed t ws none = Unit
Handed t ws (some vs) =
    ((q : ℕ) → running q vs ≡ running q ws + (if t.queue_id == q then 1 else 0))
    × (length vs ≡ length ws)

hand_over_lem : (t : Task) (ws : List Worker) → Handed t ws (hand_over t ws)
unfolding hand_over
hand_over_lem t [] = tt
hand_over_lem t (none ∷ ws) = (λ q. omega arith, refl)
hand_over_lem t (some u ∷ ws) = step (hand_over t ws) (hand_over_lem t ws)
  where
    step :
        (o : Option (List Worker))
        → Handed t ws o
        → Handed t (some u ∷ ws) (elim o [ none ↦ none | some ws' ↦ some (some u ∷ ws') ])
    step none h = tt
    step (some vs) h = (λ q. omega (arith, h.0 q), omega (arith, h.1))

-- What executeTask does when it does not block.
pub record Executed (t : Task) (d d' : Dispatch) : Type 0 where
  pub runs :
      (q : ℕ) → running q d'.workers ≡ running q d.workers + (if t.queue_id == q then 1 else 0)
  pub started : d'.started ≡ d.started ++ t ∷ []
  pub tasks : d'.tasks ≡ d.tasks
  pub queue_ids : d'.queue_id_channel ≡ d.queue_id_channel
  pub sessions : d'.map_task_queue_session ≡ d.map_task_queue_session
  pub accepted : d'.accepted ≡ d.accepted
  pub limit : d'.max_concurrent_num ≡ d.max_concurrent_num
  pub grown : length d'.workers + d.worker_num ≡ d'.worker_num + length d.workers
  pub bounded : d.worker_num ≤ d.max_concurrent_num → d'.worker_num ≤ d'.max_concurrent_num

abbrev pub Effect : Option Dispatch → (Dispatch → Type 0) → Type 0
Effect none P = Unit
Effect (some d) P = P d

pub execute_task_lem : (t : Task) (d : Dispatch) → Effect (execute_task t d) (Executed t d)
unfolding execute_task
execute_task_lem t d = elim (Option-cases (hand_over t d.workers)) [
  | inl busy ↦
      rw (busy, Effect, execute_task)
        (elim (Bool-cases (ltb d.worker_num d.max_concurrent_num)) [
          | inl room ↦
              rw (room, Effect)
                (record {
                  runs = λ q. omega (arith, running-append q d.workers (some t ∷ []));
                  started = refl;
                  tasks = refl;
                  queue_ids = refl;
                  sessions = refl;
                  accepted = refl;
                  limit = refl;
                  grown = omega (arith, length-append d.workers (some t ∷ []));
                  bounded = λ h. ground arith;
                })
          | inr full ↦ rw (full, Effect) tt
        ])
  | inr (vs, handed) ↦
      let h = hand_over_lem t d.workers in
      let h' : Handed t d.workers (some vs) = rw handed at h in
      rw (handed, Effect, execute_task)
        (record {
          runs = h'.0;
          started = refl;
          tasks = refl;
          queue_ids = refl;
          sessions = refl;
          accepted = refl;
          limit = refl;
          grown = omega (arith, h'.1);
          bounded = λ h. h;
        })
]

pub executed : (t : Task) (d d' : Dispatch) → execute_task t d ≡ some d' → Executed t d d'
executed t d d' e = subst (λ o. Effect o (Executed t d)) e (execute_task_lem t d)

pub session-set_session :
    (q r : ℕ) (s : List Task) (d : Dispatch)
    → session r (set_session q s d) ≡ (if q == r then s else session r d)
unfolding session
session-set_session q r s d = ground (arith, lookup-insert q r s d.map_task_queue_session)

abbrev Dismissed : List Worker → Option (List Worker) → Type 0
Dismissed ws none = Unit
Dismissed ws (some vs) = ((q : ℕ) → running q vs ≡ running q ws) × (length vs + 1 ≡ length ws)

dismiss_lem : (ws : List Worker) → Dismissed ws (dismiss ws)
unfolding dismiss
dismiss_lem [] = tt
dismiss_lem (none ∷ ws) = (λ q. refl, omega arith)
dismiss_lem (some u ∷ ws) = step (dismiss ws) (dismiss_lem ws)
  where
    step :
        (o : Option (List Worker))
        → Dismissed ws o
        → Dismissed (some u ∷ ws) (elim o [ none ↦ none | some ws' ↦ some (some u ∷ ws') ])
    step none h = tt
    step (some vs) h = (λ q. omega (arith, h.0 q), omega (arith, h.1))

-- A turn of the timer leaves all but the idle workers alone.
pub record Timed (d d' : Dispatch) : Type 0 where
  pub runs : (q : ℕ) → running q d'.workers ≡ running q d.workers
  pub tasks : d'.tasks ≡ d.tasks
  pub queue_ids : d'.queue_id_channel ≡ d.queue_id_channel
  pub sessions : d'.map_task_queue_session ≡ d.map_task_queue_session
  pub accepted : d'.accepted ≡ d.accepted
  pub started : d'.started ≡ d.started
  pub limit : d'.max_concurrent_num ≡ d.max_concurrent_num
  pub shrunk : length d'.workers + d.worker_num ≡ d'.worker_num + length d.workers
  pub fewer : d'.worker_num ≤ d.worker_num

pub process_timer_lem : (d : Dispatch) → Timed d (process_timer d)
unfolding process_timer
process_timer_lem d = elim (Bool-cases (d.idle && ltb d.min_concurrent_num d.worker_num)) [
  | inl lazy ↦ rw lazy (elim (Option-cases (dismiss d.workers)) [
    | inl busy ↦ rw (busy, process_idle) untouched
    | inr (vs, gone) ↦
        let h : Dismissed d.workers (some vs) =
          subst (Dismissed d.workers) gone (dismiss_lem d.workers) in
        rw (gone, process_idle)
          (record {
            runs = h.0;
            tasks = refl;
            queue_ids = refl;
            sessions = refl;
            accepted = refl;
            started = refl;
            limit = refl;
            shrunk = ground (arith, h.1);
            fewer = omega arith;
          })
  ])
  | inr used ↦ rw used untouched
]
  where
    untouched : Timed d (record d { idle = true })
    untouched = record {
      runs = λ q. refl;
      tasks = refl;
      queue_ids = refl;
      sessions = refl;
      accepted = refl;
      started = refl;
      limit = refl;
      shrunk = omega arith;
      fewer = omega arith;
    }
