-- ===== src/Queue/Tests.antt =====
-- Concrete runs of util/queue/deque.go: three elements that go round the end of a small buffer.
use origin.Prelude.{
  ℕ, none, some, ◌≡◌, refl, nat_eq, [], ◌∷◌, ◌++◌, inl, inr, ◌⊎◌, arith, ok, panic, pos, negsuc,
}
use origin.Queue.Deque.{Deque, clear, clear_loop, push_back, pop_front}
use origin.Queue.Deque.Shape.{IsValid, contents}
use origin.Queue.Deque.Middle.{back_to_front, front_to_back, rotate_front, rotate_back, rotate}
use origin.Queue.Deque.Rotate.{IsRotated, rotate_lem}
use origin.Queue.Ring.{Queue, add}
use origin.Queue.Ring.Refine.{IsQueue, elements, add_lem}
use origin.Queue.Bounded.{SQueue, squeue_pop}
use origin.Queue.Bounded.Fifo.{IsCircular, waiting, squeue_pop_lem}
use origin.Queue.Deque.Ends.{push_back_lem, pop_front_lem}

abbrev folded : Deque ℕ
folded = record { buf = 12 ∷ 0 ∷ 10 ∷ 11 ∷ []; head = 2; tail = 1; count = 3; min_cap = 0 }

folded-IsValid : IsValid folded
folded-IsValid = record {
  min_cap = inl refl;
  shape = inr (
    2,
    record {
      small = omega arith;
      size = refl;
      head_in = omega arith;
      tail_in = omega arith;
      count_in = omega arith;
      spans = inr refl;
    },
  );
}

push_back_lem_example :
    IsValid (push_back 0 13 folded)
    × (contents 0 (push_back 0 13 folded) ≡ contents 0 folded ++ 13 ∷ [])
push_back_lem_example = push_back_lem 0 13 folded folded-IsValid (omega arith)

pop_front_lem_example :
    ((contents 0 folded ≡ []) × (pop_front 0 folded ≡ panic))
    ⊎ ((x : ℕ) × (q' : Deque ℕ) × (pop_front 0 folded ≡ ok (x, q'))
        × IsValid q'
        × (contents 0 folded ≡ x ∷ contents 0 q'))
pop_front_lem_example = pop_front_lem 0 folded folded-IsValid

abbrev folded_queue : Queue ℕ
folded_queue = record { buf = 12 ∷ 0 ∷ 10 ∷ 11 ∷ []; head = 2; tail = 1; count = 3 }

folded-IsQueue : IsQueue 0 folded_queue
folded-IsQueue = (
  2,
  record {
    small = omega arith;
    size = refl;
    head_in = omega arith;
    tail_in = omega arith;
    count_in = omega arith;
    spans = inr refl;
  },
)

add_lem_example :
    IsQueue 0 (add 0 13 folded_queue)
    × (elements 0 (add 0 13 folded_queue) ≡ elements 0 folded_queue ++ 13 ∷ [])
add_lem_example = add_lem 0 13 folded_queue folded-IsQueue (omega arith)

abbrev circle : SQueue ℕ
circle = record { elements = 12 ∷ 0 ∷ 0 ∷ 11 ∷ []; head = 2; tail = 0 }

circle-IsCircular : IsCircular 0 circle
circle-IsCircular = record { head_in = omega arith; tail_in = omega arith }

squeue_pop_lem_example :
    IsCircular 0 (squeue_pop 0 circle).1
    × (((waiting 0 circle ≡ []) × (squeue_pop 0 circle ≡ (none, circle)))
        ⊎ ((x : ℕ) × ((squeue_pop 0 circle).0 ≡ some x)
            × (waiting 0 circle ≡ x ∷ waiting 0 (squeue_pop 0 circle).1)))
squeue_pop_lem_example = squeue_pop_lem 0 circle circle-IsCircular

rotate_lem_example :
    IsValid (rotate 0 (negsuc 0) folded)
    × IsRotated (negsuc 0) (contents 0 folded) (contents 0 (rotate 0 (negsuc 0) folded))
rotate_lem_example = rotate_lem 0 (negsuc 0) folded folded-IsValid

rotate_forward : contents 0 (rotate 0 (pos 1) folded) ≡ 11 ∷ 12 ∷ 10 ∷ []
unfolding rotate rotate_front front_to_back
rotate_forward = refl

rotate_backward : contents 0 (rotate 0 (negsuc 0) folded) ≡ 12 ∷ 10 ∷ 11 ∷ []
unfolding rotate rotate_back back_to_front
rotate_backward = refl

-- A full buffer keeps its elements when it is cleared, since head and tail are equal.
abbrev brimful : Deque ℕ
brimful = record { buf = 12 ∷ 13 ∷ 10 ∷ 11 ∷ []; head = 2; tail = 2; count = 4; min_cap = 0 }

clear-brimful : clear 0 brimful ≡ ok (record brimful { head = 0; tail = 0; count = 0 })
unfolding clear clear_loop
clear-brimful = refl

clear-folded :
    clear 0 folded
    ≡ ok (record { buf = 0 ∷ 0 ∷ 0 ∷ 0 ∷ []; head = 0; tail = 0; count = 0; min_cap = 0 })
unfolding clear clear_loop
clear-folded = refl
