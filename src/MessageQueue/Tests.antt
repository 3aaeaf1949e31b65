-- ===== src/MessageQueue/Tests.antt =====
-- Concrete runs of the binary search and of the memory queue.
use origin.Prelude.{ℕ, zero, suc, ◌+◌, ◌<◌, ◌≡◌, List, [], ◌∷◌, ◌++◌, Ends, ◌⊎◌, length, arith}
use origin.Queue.Bounded.{squeue_len}
use origin.MessageQueue.BiSearch.{right, bi_search}
use origin.MessageQueue.BiSearch.Found.{IsSorted, Sought, bi_search_lem}
use origin.MessageQueue.MemoryQueue.{TopicData, MemoryQueue, no_data, push_topic}
use origin.MessageQueue.MemoryQueue.Latest.{as_squeue, IsMemory, recent, push_topic_lem}

abbrev tens : List ℕ
tens = 10 ∷ 20 ∷ 30 ∷ []

tens-IsSorted : IsSorted tens
tens-IsSorted zero zero p q = omega arith
tens-IsSorted zero (suc zero) p q = omega arith
tens-IsSorted zero (suc (suc zero)) p q = omega arith
tens-IsSorted (suc zero) (suc zero) p q = omega arith
tens-IsSorted (suc zero) (suc (suc zero)) p q = omega arith
tens-IsSorted (suc (suc zero)) (suc (suc zero)) p q = omega arith
tens-IsSorted (suc i) zero p q = absurd (omega arith)
tens-IsSorted (suc (suc i)) (suc zero) p q = absurd (omega arith)
tens-IsSorted (suc (suc (suc i))) (suc (suc zero)) p q = absurd (omega arith)
tens-IsSorted i (suc (suc (suc j))) p q = absurd (omega arith)

bi_search_lem_example : Ends (Sought right tens 11) (bi_search tens 11 right)
bi_search_lem_example = bi_search_lem tens 11 right tens-IsSorted

abbrev topic : ℕ → TopicData
topic n = record { seq = n; raw_data = 0 }

abbrev full_memory : MemoryQueue
full_memory = record { topic_queue = topic 2 ∷ topic 0 ∷ topic 1 ∷ []; head = 1; tail = 0 }

full-IsMemory : IsMemory full_memory
full-IsMemory = record { head_in = omega arith; tail_in = omega arith }

push_topic_lem_example :
    IsMemory (push_topic (topic 3) full_memory)
    × (((squeue_len no_data (as_squeue full_memory) + 1 < length full_memory.topic_queue)
          × (recent (push_topic (topic 3) full_memory) ≡ recent full_memory ++ topic 3 ∷ []))
        ⊎ ((squeue_len no_data (as_squeue full_memory) + 1 ≡ length full_memory.topic_queue)
            × ((oldest : TopicData) × (rest : List TopicData) × (recent full_memory ≡ oldest ∷ rest)
                × (recent (push_topic (topic 3) full_memory) ≡ rest ++ topic 3 ∷ []))))
push_topic_lem_example = push_topic_lem (topic 3) full_memory full-IsMemory (omega arith)
