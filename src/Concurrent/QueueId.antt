-- ===== src/Concurrent/QueueId.antt =====
-- The queue id that AsyncDoByQueue of concurrent/concurrent.go hands to the dispatcher.
use origin.Prelude.{ℕ, zero, suc, ◌+◌, ◌%◌, ◌≡◌, ◌≢◌, ◌↔◌, refl, nat_eq, arith, ℤ, pos, negsuc}

abbrev pub max_task_queue_session_id : ℕ
max_task_queue_session_id = 10000

-- 1 - m
abbrev pub one_minus : ℕ → ℤ
one_minus zero = pos 1
one_minus (suc zero) = pos 0
one_minus (suc (suc m)) = negsuc m

-- `queueId % maxTaskQueueSessionId + 1` unless the id is 0; Go's `%` has the sign of the dividend.
unfoldable pub queue_slot : ℤ → ℤ
queue_slot (pos zero) = pos 0
queue_slot (pos (suc n)) = pos (suc n % max_task_queue_session_id + 1)
queue_slot (negsuc n) = one_minus (suc n % max_task_queue_session_id)

one_minus_zero : (m : ℕ) → (one_minus m ≡ pos 0) ↔ (m ≡ 1)
one_minus_zero zero = (λ h. ground arith, λ h. absurd (omega arith))
one_minus_zero (suc zero) = (λ h. refl, λ h. refl)
one_minus_zero (suc (suc m)) = (λ h. absurd (cc), λ h. absurd (omega arith))

-- A task that a caller gave a queue runs as an ordinary task exactly if the queue id is negative
-- and one below a multiple of 10000: -1, -10001 and so on.
pub queue_slot_lost :
    (q : ℤ)
    → q ≢ pos 0
    → (queue_slot q ≡ pos 0) ↔ ((n : ℕ) × (q ≡ negsuc n) × (n % max_task_queue_session_id ≡ 0))
unfolding queue_slot
queue_slot_lost (pos zero) h = absurd (h refl)
queue_slot_lost (pos (suc n)) h = (λ e. absurd (ground arith), λ (k, e, _). absurd (cc e))
queue_slot_lost (negsuc n) h = (
  λ e. (n, refl, omega (arith, (one_minus_zero (suc n % 10000)).0 e)),
  λ (k, e, f). let g : n ≡ k = ground arith in (one_minus_zero (suc n % 10000)).1 (omega arith),
)
