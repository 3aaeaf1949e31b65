-- ===== src/Concurrent/Tests.antt =====
-- A concrete run of the dispatcher of concurrent/: two tasks of queue 4, of which the first has
-- ended.
use origin.Prelude.{
  ℕ, ◌≡◌, ◌≢◌, ◌↔◌, refl, nat_eq, true, false, [], ◌∷◌, none, some, arith, lookup, pos, negsuc,
  insert, ◌%◌,
}
use origin.Concurrent.{
  Task, Dispatch, returned, open_dispatch, async_do_by_queue, process_task, end_call_fun,
  execute_task, hand_over, session, Step, submit, take_task, finish, Reach, here, next,
}
use origin.Concurrent.QueueId.{queue_slot, queue_slot_lost}
use origin.Concurrent.Order.{IsOrdered, events}
use origin.Concurrent.Queues.{Reach-IsOrdered}
use origin.Concurrent.Pool.{IsBounded, Reach-IsBounded}

abbrev first : Task
first = record { queue_id = 4; fn = 1; with_callback = true }

abbrev second : Task
second = record { queue_id = 4; fn = 2; with_callback = false }

abbrev fresh : Dispatch
fresh = open_dispatch 1 2 100

abbrev two_accepted : Dispatch
two_accepted = async_do_by_queue second (async_do_by_queue first fresh)

abbrev one_running : Dispatch
one_running = record fresh {
  tasks = second ∷ [];
  map_task_queue_session = (4, first ∷ []) ∷ [];
  worker_num = 1;
  workers = some first ∷ [];
  accepted = first ∷ second ∷ [];
  started = first ∷ [];
}

abbrev one_ended : Dispatch
one_ended = end_call_fun (returned true) first (record one_running { workers = none ∷ [] })

take_first : Step two_accepted one_running
unfolding open_dispatch async_do_by_queue process_task execute_task hand_over session lookup insert
take_first = take_task first (second ∷ []) refl refl

reach_running : Reach fresh one_running
reach_running = next (next (next here (submit first)) (submit second)) take_first

reach_ended : Reach fresh one_ended
reach_ended = next reach_running (finish [] [] first (returned true) refl refl)

Reach-IsOrdered_example : IsOrdered one_ended
Reach-IsOrdered_example = Reach-IsOrdered 1 2 100 reach_ended

Reach-IsBounded_example : IsBounded one_ended
Reach-IsBounded_example = Reach-IsBounded 1 2 100 reach_ended

one_event : events 4 one_ended.queue_id_channel ≢ 0
unfolding end_call_fun open_dispatch
one_event = λ e. absurd (omega arith)

queue_slot_lost_example :
    (queue_slot (negsuc 0) ≡ pos 0) ↔ ((n : ℕ) × (negsuc 0 ≡ negsuc n) × (n % 10000 ≡ 0))
queue_slot_lost_example = queue_slot_lost (negsuc 0) (λ e. absurd (cc e))
