-- ===== src/Queue/Bounded.antt =====
-- util/queue/squeue.go: a queue of a fixed capacity in a circular slice. `head` stands before the
-- first element and `tail` at the last one, so that one slot is never used. The locks make each
-- method one step. Positions and counts are not negative; `zero_value` is Go's zero value.
pub mod Fifo
use origin.Prelude.{
  ℕ, zero, suc, ◌+◌, ◌-◌, ◌%◌, nat_eq, ◌==◌, ltb, leb, if◌then◌else◌, Bool, true, false, ◌&&◌, List,
  [], ◌∷◌, Option, none, some, length, get_or, set, replicate,
}

pub record SQueue (T : Type 0) : Type 0 where
  pub elements : List T
  pub head : ℕ
  pub tail : ℕ

-- A cursor's queue is the argument of its methods.
pub record SCursor : Type 0 where
  pub pos : ℕ

module _ {T : Type 0} (zero_value : T) where
  unfoldable pub new_squeue : ℕ → SQueue T
  new_squeue max_element_num = record {
    elements = replicate (max_element_num + 1) zero_value;
    head = 0;
    tail = 0;
  }

  unfoldable pub cursor_first : SQueue T → SCursor → SCursor
  cursor_first s c = record { pos = s.head }

  unfoldable pub cursor_next : SQueue T → SCursor → Option T × SCursor
  cursor_next s c =
      if c.pos == s.tail
      then (none, c)
      else (let pos = (c.pos + 1) % length s.elements in
          (some (get_or s.elements pos zero_value), record { pos = pos }))

  unfoldable pub squeue_len : SQueue T → ℕ
  squeue_len s = if leb s.head s.tail then s.tail - s.head else length s.elements - s.head + s.tail

  unfoldable pub get_cursor : SQueue T → SCursor
  get_cursor s = record { pos = s.head }

  -- The cursor, and whether it is said to be valid: without a cursor its queue is nil.
  unfoldable pub get_pos_cursor : SQueue T → ℕ → Option SCursor × Bool
  get_pos_cursor s pos =
      if ltb s.head s.tail
      then (if leb pos s.head
          then (none, false)
          else if ltb s.tail pos
          then (none, false)
          else (some (record { pos = pos }), true))
      else (if ltb s.tail pos && leb pos s.head
          then (none, false)
          else (some (record { pos = pos }), false))

  unfoldable pub remove_element : ℕ → SQueue T → ℕ × SQueue T
  remove_element element_num s =
      let remove_num = if ltb (squeue_len s) element_num then squeue_len s else element_num in
      (remove_num, record s { head = (s.head + remove_num) % length s.elements })

  unfoldable pub squeue_pop : SQueue T → Option T × SQueue T
  squeue_pop s =
      if s.head == s.tail
      then (none, s)
      else (let head = (s.head + 1) % length s.elements in
          (some (get_or s.elements head zero_value), record s { head = head }))

  unfoldable pub squeue_push : T → SQueue T → Bool × SQueue T
  squeue_push elem s =
      let next_pos = (s.tail + 1) % length s.elements in
      if next_pos == s.head
      then (false, s)
      else (true, record s { tail = next_pos; elements = set s.elements next_pos elem })

  unfoldable pub is_empty : SQueue T → Bool
  is_empty s = s.head == s.tail

  unfoldable pub is_full : SQueue T → Bool
  is_full s = (s.tail + 1) % length s.elements == s.head
