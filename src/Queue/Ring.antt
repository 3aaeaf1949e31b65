-- ===== src/Queue/Ring.antt =====
-- util/queue/queue.go: a queue in the same ring buffer as the deque, with a buffer from the start.
-- An element is a pointer or nil; `nil` is the element that clears a slot.
pub mod Refine
use Prim.Native.Nat.{bit_and}
use origin.Prelude.{
  ℕ, zero, suc, ◌+◌, ◌-◌, ◌*◌, ◌≤◌, ◌<◌, ◌≡◌, ◌≢◌, refl, nat_eq, ◌==◌, ltb, leb, if◌then◌else◌,
  Bool, true, false, ◌&&◌, List, [], ◌∷◌, ◌++◌, length, get_or, set, take, drop, replicate, ℤ, pos,
  negsuc, arith, Outcome, ok, panic, Bool-cases, inl, inr, ◌⊎◌, ap, ◌∙◌, sym, min, ap₂,
  length-replicate,
}
use origin.Queue.Mask.{power, power_pos, next_index}
use origin.Queue.Deque
use origin.Queue.Deque.{Deque}
use origin.Queue.Deque.Shape.{IsRing, IsMinCap, IsValid, contents}
use origin.Queue.Deque.Room.{shrink_if_excess_lem}
use origin.Queue.Deque.Writes.{popped_front, popped_front-IsRing, popped_front-contents}
use origin.Queue.Deque.Ends.{push_back_lem, push_back-IsRing}
use mathlib.Core.Path.{subst}

pub record Queue (T : Type 0) : Type 0 where
  pub buf : List T
  pub head : ℕ
  pub tail : ℕ
  pub count : ℕ

abbrev pub min_queue_len : ℕ
min_queue_len = 16

module _ {T : Type 0} (nil : T) where
  unfoldable pub new_queue : Queue T
  new_queue = record { buf = replicate min_queue_len nil; head = 0; tail = 0; count = 0 }

  abbrev pub queue_length : Queue T → ℕ
  queue_length q = q.count

  unfoldable pub resize_queue : Queue T → Queue T
  resize_queue q =
      let new_buf = replicate (q.count * 2) nil in
      record q {
        head = 0;
        tail = q.count;
        buf =
            if ltb q.head q.tail
            then Deque.copy nil new_buf (take (q.tail - q.head) (drop q.head q.buf))
            else (let first = drop q.head q.buf in
                let n = min (length new_buf) (length first) in
                let half = Deque.copy nil new_buf first in
                take n half ++ Deque.copy nil (drop n half) (take q.tail q.buf));
      }

  unfoldable pub add : T → Queue T → Queue T
  add elem q =
      let q1 = if q.count == length q.buf then resize_queue q else q in
      record q1 {
        buf = set q1.buf q1.tail elem;
        tail = next_index q1.tail (length q1.buf);
        count = q1.count + 1;
      }

  unfoldable pub peek : Queue T → T
  peek q = if q.count == 0 then nil else get_or q.buf q.head nil

  -- The element `i` from the head.
  unfoldable pub get_at : Queue T → ℕ → T
  get_at q i =
      if leb q.count i then nil else get_or q.buf (bit_and (q.head + i) (length q.buf - 1)) nil

  -- A negative index counts from the back.
  unfoldable pub get : Queue T → ℤ → T
  get q (pos i) = get_at q i
  get q (negsuc i) = if leb q.count i then nil else get_at q (q.count - suc i)

  unfoldable pub pop : Queue T → T × Queue T
  pop q =
      if q.count == 0
      then (nil, q)
      else (let q1 = record q {
        buf = set q.buf q.head nil;
        head = next_index q.head (length q.buf);
        count = q.count - 1;
      } in
          (
            get_or q.buf q.head nil,
            if ltb min_queue_len (length q1.buf) && q1.count * 4 == length q1.buf
                then resize_queue q1
                else q1,
          ))
