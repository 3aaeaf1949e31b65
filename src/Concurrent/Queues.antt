-- ===== src/Concurrent/Queues.antt =====
-- The order of the queues of concurrent/dispatch.go, through its steps and runs.
use mathlib.Core.Path.{subst}
use origin.Prelude.{ℕ, refl, nat_eq, lookup, sym}
use origin.Concurrent.{
  Dispatch, session, open_dispatch, Step, submit, take_task, take_queue_id, timeout, finish, Reach,
  here, next,
}
use origin.Concurrent.Order.{IsOrdered, submit-IsOrdered, timeout-IsOrdered, finish-IsOrdered}
use origin.Concurrent.TaskTurn.{take_task-IsOrdered}
use origin.Concurrent.QueueTurn.{take_queue_id-IsOrdered}

-- Every step of a goroutine keeps that each queue has at most one task under way, if its session
-- has a task, and that its tasks were started in the order in which they were accepted
-- (IsOrdered).
Step-IsOrdered : {d d' : Dispatch} → Step d d' → IsOrdered d → IsOrdered d'
Step-IsOrdered {d} (submit t) o = submit-IsOrdered t d o
Step-IsOrdered {d} {d'} (take_task t rest front e) o = take_task-IsOrdered t rest d d' front e o
Step-IsOrdered {d} {d'} (take_queue_id r rest front e) o =
    take_queue_id-IsOrdered r rest d d' front e o
Step-IsOrdered {d} timeout o = timeout-IsOrdered d o
Step-IsOrdered {d} (finish before after t ending e f) o =
    subst IsOrdered (sym f) (finish-IsOrdered before after t ending d e o)

open-IsOrdered :
    (min_num max_num max_tasks : ℕ) → IsOrdered (open_dispatch min_num max_num max_tasks)
unfolding open_dispatch session lookup
open-IsOrdered min_num max_num max_tasks = record {
  under_way = λ q nz. refl;
  order = λ q nz. refl;
  owned = λ q. tt;
}

-- In every state that the goroutines reach from an open dispatcher, each queue has at most one
-- task under way, and its tasks were started in the order in which they were accepted.
pub Reach-IsOrdered :
    (min_num max_num max_tasks : ℕ) {d : Dispatch}
    → Reach (open_dispatch min_num max_num max_tasks) d
    → IsOrdered d
Reach-IsOrdered min_num max_num max_tasks here = open-IsOrdered min_num max_num max_tasks
Reach-IsOrdered min_num max_num max_tasks (next r s) =
    Step-IsOrdered s (Reach-IsOrdered min_num max_num max_tasks r)
