-- ===== src/Concurrent.antt =====
-- concurrent/dispatch.go, concurrent/worker.go and concurrent/concurrent.go: tasks are handed to a
-- growing set of workers, and the tasks of one queue run one after the other. The goroutines are
-- the steps of `Step`: a client's AsyncDoByQueue, one turn of the dispatcher's loop, and the end of
-- a worker's task. A send that would block delays its step; a function or callback is a number.
pub mod QueueId
pub mod Workers
pub mod Order
pub mod TaskTurn
pub mod QueueTurn
pub mod Queues
pub mod Pool
mod Tests
use origin.Prelude.{
  ℕ, zero, suc, ◌+◌, ◌-◌, ◌<◌, ◌≡◌, nat_eq, ◌==◌, ltb, if◌then◌else◌, Bool, true, false, ◌&&◌, List,
  [], ◌∷◌, ◌++◌, Option, none, some, length, lookup, insert,
}

-- `queue_id` is 0 for an ordinary task. `with_callback` says that `cb` is not nil.
pub record Task : Type 0 where
  pub queue_id : ℕ
  pub fn : ℕ
  pub with_callback : Bool

-- A worker waits for a task, or runs one.
abbrev pub Worker : Type 0
Worker = Option Task

-- What stands in the callback channel: a task's callback, or one of the two errors for it.
pub data Callback : Type 0 where
  call : ℕ → Callback
  tasks_full : ℕ → Callback
  fn_panicked : ℕ → Callback

-- How a task's function ends: it returns whether the callback is wanted, or it panics.
pub data Ending : Type 0 where
  returned : Bool → Ending
  panicked : Ending

-- `workers` are the goroutines that wait on `workerQueue` or run a task. `accepted` and `started`
-- are histories, which the code does not keep.
pub record Dispatch : Type 0 where
  pub min_concurrent_num : ℕ
  pub max_concurrent_num : ℕ
  pub max_task_channel_num : ℕ
  pub tasks : List Task
  pub queue_id_channel : List ℕ
  pub map_task_queue_session : List (ℕ × List Task)
  pub idle : Bool
  pub worker_num : ℕ
  pub workers : List Worker
  pub cb_channel : List Callback
  pub accepted : List Task
  pub started : List Task

unfoldable pub open_dispatch : ℕ → ℕ → ℕ → Dispatch
open_dispatch min_num max_num max_tasks = record {
  min_concurrent_num = min_num;
  max_concurrent_num = max_num;
  max_task_channel_num = max_tasks;
  tasks = [];
  queue_id_channel = [];
  map_task_queue_session = [];
  idle = false;
  worker_num = 0;
  workers = [];
  cb_channel = [];
  accepted = [];
  started = [];
}

-- `workerQueue <- t`: the first worker that waits takes it, if there is one.
unfoldable pub hand_over : Task → List Worker → Option (List Worker)
hand_over t [] = none
hand_over t (none ∷ ws) = some (some t ∷ ws)
hand_over t (some u ∷ ws) = elim (hand_over t ws) [ none ↦ none | some ws' ↦ some (some u ∷ ws') ]

-- executeTask; `none` while it blocks, because no worker waits and none may be started.
unfoldable pub execute_task : Task → Dispatch → Option Dispatch
execute_task t d = elim (hand_over t d.workers) [
  | some ws ↦ some (record d { workers = ws; started = d.started ++ t ∷ [] })
  | none ↦
      if ltb d.worker_num d.max_concurrent_num
      then some (record d {
        worker_num = d.worker_num + 1;
        workers = d.workers ++ some t ∷ [];
        started = d.started ++ t ∷ [];
      })
      else none
]

-- The tasks of a queue, the running one first; a missing session reads as an empty one.
unfoldable pub session : ℕ → Dispatch → List Task
session q d = elim (lookup q d.map_task_queue_session) [ none ↦ [] | some s ↦ s ]

abbrev pub set_session : ℕ → List Task → Dispatch → Dispatch
set_session q s d = record d { map_task_queue_session = insert q s d.map_task_queue_session }

-- processTask: a task of a queue is executed only if the queue's session is empty, and joins it.
unfoldable pub process_task : Task → Dispatch → Option Dispatch
process_task t d =
    let d1 = record d { idle = false } in
    if t.queue_id == 0 then execute_task t d1 else elim (session t.queue_id d1) [
      | [] ↦ elim (execute_task t d1) [
        | none ↦ none
        | some d2 ↦ some (set_session t.queue_id (t ∷ []) d2)
      ]
      | u ∷ s ↦ some (set_session t.queue_id ((u ∷ s) ++ t ∷ []) d1)
    ]

-- processQueueEvent: the first task of the session has ended, and the next one is executed.
-- PopFront panics on an empty session; `none` stands for that too.
unfoldable pub process_queue_event : ℕ → Dispatch → Option Dispatch
process_queue_event q d =
    let d1 = record d { idle = false } in
    elim (lookup q d1.map_task_queue_session) [
      | none ↦ some d1
      | some [] ↦ none
      | some (t ∷ []) ↦ some (set_session q [] d1)
      | some (t ∷ u ∷ s) ↦ execute_task u (set_session q (u ∷ s) d1)
    ]

-- An idle worker that takes the empty task exits.
unfoldable pub dismiss : List Worker → Option (List Worker)
dismiss [] = none
dismiss (none ∷ ws) = some ws
dismiss (some u ∷ ws) = elim (dismiss ws) [ none ↦ none | some ws' ↦ some (some u ∷ ws') ]

unfoldable pub process_idle : Dispatch → Dispatch
process_idle d = elim (dismiss d.workers) [
  | none ↦ d
  | some ws ↦ record d { worker_num = d.worker_num - 1; workers = ws }
]

unfoldable pub process_timer : Dispatch → Dispatch
unfolding process_idle
process_timer d =
    let d1 = if d.idle && ltb d.min_concurrent_num d.worker_num then process_idle d else d in
    record d1 { idle = true }

-- AsyncDoByQueue with a function, and a queue id that is reduced already.
unfoldable pub async_do_by_queue : Task → Dispatch → Dispatch
async_do_by_queue t d =
    if ltb (length d.tasks) d.max_task_channel_num
    then record d { tasks = d.tasks ++ t ∷ []; accepted = d.accepted ++ t ∷ [] }
    else if t.with_callback
    then record d { cb_channel = d.cb_channel ++ tasks_full t.fn ∷ [] }
    else d

-- exec and endCallFun. After a panic the callback is a new function that is not nil, whether the
-- task has one or not.
unfoldable pub wanted : Ending → Task → List Callback
wanted (returned do_callback) t = if do_callback && t.with_callback then call t.fn ∷ [] else []
wanted panicked t = fn_panicked t.fn ∷ []

unfoldable pub end_call_fun : Ending → Task → Dispatch → Dispatch
unfolding wanted
end_call_fun ending t d = record d {
  cb_channel = d.cb_channel ++ wanted ending t;
  queue_id_channel =
      if t.queue_id == 0 then d.queue_id_channel else d.queue_id_channel ++ t.queue_id ∷ [];
}

-- One step of one goroutine.
pub data Step : Dispatch → Dispatch → Type 0 where
  submit : {d : Dispatch} (t : Task) → Step d (async_do_by_queue t d)
  take_task :
      {d d' : Dispatch} (t : Task) (rest : List Task)
      → d.tasks ≡ t ∷ rest
      → process_task t (record d { tasks = rest }) ≡ some d'
      → Step d d'
  take_queue_id :
      {d d' : Dispatch} (q : ℕ) (rest : List ℕ)
      → d.queue_id_channel ≡ q ∷ rest
      → process_queue_event q (record d { queue_id_channel = rest }) ≡ some d'
      → Step d d'
  timeout : {d : Dispatch} → Step d (process_timer d)
  finish :
      {d d' : Dispatch} (before after : List Worker) (t : Task) (ending : Ending)
      → d.workers ≡ before ++ some t ∷ after
      → d' ≡ end_call_fun ending t (record d { workers = before ++ none ∷ after })
      → Step d d'

pub data Reach (d : Dispatch) : Dispatch → Type 0 where
  here : Reach d d
  next : {e f : Dispatch} → Reach d e → Step e f → Reach d f
