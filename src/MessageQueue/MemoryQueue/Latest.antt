-- ===== src/MessageQueue/MemoryQueue/Latest.antt =====
-- Push of sysservice/messagequeueservice/MemoryQueue.go. The slice is laid out as that of
-- util/queue/squeue.go.
use origin.Prelude.{
  ◌+◌, ◌%◌, ◌≤◌, ◌<◌, ◌≡◌, ◌≢◌, nat_eq, ◌==◌, List, [], ◌∷◌, ◌++◌, length, get_or, arith,
  Bool-cases, inl, inr, ◌⊎◌,
}
use origin.Queue.Bounded.{SQueue, squeue_len}
use origin.Queue.Bounded.Fifo.{
  IsCircular, waiting, popped, popped-IsCircular, popped-waiting, pushed-IsCircular, pushed-waiting,
  full_lem,
}
use origin.Queue.Mask.{wrap_once}
use origin.MessageQueue.MemoryQueue.{TopicData, MemoryQueue, no_data, push_topic}

abbrev pub as_squeue : MemoryQueue → SQueue TopicData
as_squeue mq = record { elements = mq.topic_queue; head = mq.head; tail = mq.tail }

abbrev pub IsMemory : MemoryQueue → Type 0
IsMemory mq = IsCircular no_data (as_squeue mq)

-- The messages in memory, the oldest one first.
abbrev pub recent : MemoryQueue → List TopicData
recent mq = waiting no_data (as_squeue mq)

-- In a slice of at least two, with head and tail inside, Push puts the message behind the others; if `length - 1` messages are
-- in memory, the oldest one goes, and otherwise none.
pub push_topic_lem :
    (t : TopicData) (mq : MemoryQueue)
    → IsMemory mq
    → 2 ≤ length mq.topic_queue
    → IsMemory (push_topic t mq)
      × (((squeue_len no_data (as_squeue mq) + 1 < length mq.topic_queue)
            × (recent (push_topic t mq) ≡ recent mq ++ t ∷ []))
          ⊎ ((squeue_len no_data (as_squeue mq) + 1 ≡ length mq.topic_queue)
              × ((oldest : TopicData) × (rest : List TopicData) × (recent mq ≡ oldest ∷ rest)
                  × (recent (push_topic t mq) ≡ rest ++ t ∷ []))))
unfolding push_topic
push_topic_lem t mq v two =
    let n = length mq.topic_queue in
    let s = as_squeue mq in
    elim (Bool-cases ((mq.tail + 1) % n == mq.head)) [
      | inr room ↦
          rw (room, push_topic)
            (
              pushed-IsCircular no_data s v t,
              inl (
                (full_lem no_data s v).1 (ground arith),
                pushed-waiting no_data s v t (ground arith),
              ),
            )
      | inl full ↦
          let next = wrap_once (mq.tail + 1) n (omega (arith, v.tail_in)) in
          let after = wrap_once (mq.head + 1) n (omega (arith, v.head_in)) in
          let some_left : mq.head ≢ mq.tail = ground (arith, next, v.tail_in) in
          let s' = popped no_data s v in
          let v' = popped-IsCircular no_data s v in
          let room : (mq.tail + 1) % n ≢ (mq.head + 1) % n =
            ground (arith, next, after, v.tail_in) in
          rw (full, push_topic)
            (
              pushed-IsCircular no_data s' v' t,
              inr (
                (full_lem no_data s v).0 (ground arith),
                (
                  get_or mq.topic_queue ((mq.head + 1) % n) no_data,
                  waiting no_data s',
                  popped-waiting no_data s v some_left,
                  pushed-waiting no_data s' v' t room,
                ),
              ),
            )
    ]
