-- ===== src/MessageQueue/MemoryQueue.antt =====
-- sysservice/messagequeueservice/MemoryQueue.go: the last messages of a topic in a circular slice,
-- in which a new message takes the place of the oldest one. The lock makes each method one step.
-- Positions, limits and their sums are below 2^31.
pub mod Latest
use origin.Prelude.{
  ℕ, zero, suc, ◌+◌, ◌-◌, ◌%◌, nat_eq, ◌==◌, ltb, leb, if◌then◌else◌, Bool, true, false, List, [],
  ◌∷◌, ◌++◌, Option, none, some, length, get_elem?, get_or, set, take, drop, replicate, map,
  Outcome, ok, panic, ◌>>=◌, or_panic,
}
use origin.MessageQueue.BiSearch.{right, bi_search}

-- TopicData of TopicRoom.go: its number, and what is sent, as a number that stands for it.
pub record TopicData : Type 0 where
  pub seq : ℕ
  pub raw_data : ℕ

-- The subscriber is not read here.
pub record MemoryQueue : Type 0 where
  pub topic_queue : List TopicData
  pub head : ℕ
  pub tail : ℕ

abbrev pub no_data : TopicData
no_data = record { seq = 0; raw_data = 0 }

unfoldable pub init_queue : ℕ → MemoryQueue
init_queue cap = record { topic_queue = replicate (cap + 1) no_data; head = 0; tail = 0 }

unfoldable pub push_topic : TopicData → MemoryQueue → MemoryQueue
push_topic topic_data mq =
    let n = length mq.topic_queue in
    let next_pos = (mq.tail + 1) % n in
    record {
      topic_queue = set mq.topic_queue next_pos topic_data;
      head = if next_pos == mq.head then (mq.head + 1) % n else mq.head;
      tail = next_pos;
    }

-- `xs[lo:hi]`
abbrev pub slice : {A : Type 0} → List A → ℕ → ℕ → List A
slice xs lo hi = take (hi - lo) (drop lo xs)

abbrev pub seqs : List TopicData → List ℕ
seqs xs = map (λ t. t.seq) xs

-- The data found, and whether they are in memory.
unfoldable pub find_data_from : ℕ → ℕ → ℕ → MemoryQueue → Outcome (List TopicData × Bool)
find_data_from start_pos start_index limit mq =
    if mq.head == mq.tail
    then ok ([], true)
    else (let find_end_pos = if leb start_pos mq.tail then mq.tail + 1 else length mq.topic_queue in
        if leb find_end_pos start_pos
        then ok ([], false)
        else (or_panic (get_elem? mq.topic_queue start_pos) >>= λ first.
            if ltb start_index first.seq
            then ok ([], false)
            else (bi_search (seqs (slice mq.topic_queue start_pos find_end_pos)) start_index right
                >>= λ found. elim found [
                  | none ↦ ok ([], false)
                  | some p ↦
                      let pos = p + start_pos in
                      let end_pos =
                        if ltb find_end_pos (limit + pos) then find_end_pos else limit + pos in
                      ok (slice mq.topic_queue pos end_pos, true)
                ])))

unfoldable pub find_data : ℕ → ℕ → List TopicData → MemoryQueue → Outcome (List TopicData × Bool)
find_data start_index limit data_queue mq =
    if mq.head == mq.tail
    then ok ([], false)
    else (find_data_from (mq.head + 1) start_index limit mq >>= λ (datas, ret).
        if ret
        then ok (data_queue ++ datas, true)
        else if ltb mq.head mq.tail
        then ok (data_queue, false)
        else (find_data_from 0 start_index limit mq >>= λ (datas', ret').
            ok (data_queue ++ datas', ret')))
