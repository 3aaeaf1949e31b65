-- ===== src/Rpc/TimerHeap.antt =====
-- rpc/rpctimer.go: a heap of call timers, ordered by fire time, with the index of every call in a
-- map. `now` is time.Now().UnixNano(), read where the code reads it; fire times do not overflow.
pub mod Index
pub mod Deadlines
pub mod Operations
use origin.Prelude.{
  ℕ, ◌+◌, ◌-◌, nat_eq, ◌==◌, ltb, if◌then◌else◌, Bool, true, false, List, [], ◌∷◌, ◌++◌, Option,
  none, some, length, get_elem?, set, take, lookup, insert, delete, Outcome, ok, ◌>>=◌, or_panic,
}
use origin.Heap
use origin.Heap.{HeapInterface}

pub record CallTimer : Type 0 where
  pub seq_id : ℕ
  pub fire_time : ℕ

pub record CallTimerHeap : Type 0 where
  pub call_timer : List CallTimer
  pub map_seq_index : List (ℕ × ℕ)

abbrev pub init : CallTimerHeap
init = record { call_timer = []; map_seq_index = [] }

abbrev pub len : CallTimerHeap → ℕ
len h = length h.call_timer

unfoldable pub less : CallTimerHeap → ℕ → ℕ → Outcome Bool
less h i j = or_panic (get_elem? h.call_timer i) >>= λ a.
    or_panic (get_elem? h.call_timer j) >>= λ b. ok (ltb a.fire_time b.fire_time)

unfoldable pub swap : CallTimerHeap → ℕ → ℕ → Outcome CallTimerHeap
swap h i j = or_panic (get_elem? h.call_timer i) >>= λ a.
    or_panic (get_elem? h.call_timer j) >>= λ b.
    let timers = set (set h.call_timer i b) j a in
    or_panic (get_elem? timers i) >>= λ c. or_panic (get_elem? timers j) >>= λ d. ok (record {
      call_timer = timers;
      map_seq_index = insert d.seq_id j (insert c.seq_id i h.map_seq_index);
    })

unfoldable pub append : CallTimerHeap → CallTimer → CallTimerHeap
append h t = record {
  call_timer = h.call_timer ++ t ∷ [];
  map_seq_index = insert t.seq_id (len h) h.map_seq_index;
}

unfoldable pub remove_last : CallTimerHeap → Outcome (ℕ × CallTimerHeap)
remove_last h = or_panic (get_elem? h.call_timer (len h - 1)) >>= λ t. ok (
  t.seq_id,
  record {
    call_timer = take (len h - 1) h.call_timer;
    map_seq_index = delete t.seq_id h.map_seq_index;
  },
)

-- *CallTimerHeap as heap.Interface
abbrev pub timers : HeapInterface CallTimerHeap CallTimer ℕ
timers = record { len = len; less = less; swap = swap; append = append; remove_last = remove_last }

unfoldable pub cancel : CallTimerHeap → ℕ → Outcome (Bool × CallTimerHeap)
cancel h seq = elim (lookup seq h.map_seq_index) [
  | none ↦ ok (false, h)
  | some index ↦ Heap.remove timers h index >>= λ (_, h'). ok (true, h')
]

unfoldable pub add_timer : ℕ → CallTimerHeap → ℕ → ℕ → Outcome CallTimerHeap
add_timer now h seq_id d = Heap.push timers h (record { seq_id = seq_id; fire_time = now + d })

-- The sequence number 0 says that there is none.
unfoldable pub pop_timeout : ℕ → CallTimerHeap → Outcome (ℕ × CallTimerHeap)
pop_timeout now h =
    if len h == 0
    then ok (0, h)
    else (or_panic (get_elem? h.call_timer 0) >>= λ first.
        if ltb now first.fire_time then ok (0, h) else Heap.pop timers h)

unfoldable pub pop_first : CallTimerHeap → Outcome (ℕ × CallTimerHeap)
pop_first h = if len h == 0 then ok (0, h) else Heap.pop timers h
