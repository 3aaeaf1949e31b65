-- ===== src/Queue/Deque/Middle.antt =====
-- Rotate, Insert and Remove of util/queue/deque.go.
use Prim.Native.Nat.{bit_and}
use origin.Prelude.{
  ℕ, zero, suc, ◌+◌, ◌-◌, ◌*◌, ◌%◌, ◌^◌, nat_eq, ◌==◌, ltb, leb, if◌then◌else◌, List, length,
  get_or, set, Outcome, ok, panic, ℤ, pos, negsuc,
}
use origin.Queue.Mask.{next_index, prev_index}
use origin.Queue.Deque.{Deque, slot, push_back, push_front, pop_front, pop_back}

module _ {T : Type 0} (zero_value : T) where
  -- `buf[i], buf[j] = buf[j], buf[i]`
  unfoldable pub exchange : ℕ → ℕ → List T → List T
  exchange i j buf = set (set buf i (get_or buf j zero_value)) j (get_or buf i zero_value)

  -- The element at `i` moves `n` places towards the back, or towards the front.
  unfoldable pub move_back : ℕ → ℕ → List T → List T
  move_back zero i buf = buf
  move_back (suc n) i buf =
      let next = next_index i (length buf) in move_back n next (exchange i next buf)

  unfoldable pub move_front : ℕ → ℕ → List T → List T
  move_front zero i buf = buf
  move_front (suc n) i buf =
      let prev = prev_index i (length buf) in move_front n prev (exchange i prev buf)

  unfoldable pub insert_at : ℤ → T → Deque T → Outcome (Deque T)
  insert_at (negsuc i) item q = panic
  insert_at (pos i) item q =
      if ltb q.count i
      then panic
      else if ltb (i * 2) q.count
      then (let q1 = push_front zero_value item q in
          ok (record q1 { buf = move_back i q1.head q1.buf }))
      else (let q1 = push_back zero_value item q in
          let back = prev_index q1.tail (length q1.buf) in
          ok (record q1 { buf = move_front (q.count - i) back q1.buf }))

  unfoldable pub remove_at : ℤ → Deque T → Outcome (T × Deque T)
  remove_at (negsuc i) q = panic
  remove_at (pos i) q =
      if leb q.count i
      then panic
      else (let rm = slot zero_value q i in
          if ltb (i * 2) q.count
          then pop_front zero_value (record q { buf = move_front i rm q.buf })
          else pop_back zero_value (record q { buf = move_back (q.count - i - 1) rm q.buf }))

  -- The two loops of Rotate, of `n` rounds.
  unfoldable pub back_to_front : ℕ → Deque T → Deque T
  back_to_front zero q = q
  back_to_front (suc n) q =
      let head = prev_index q.head (length q.buf) in
      let tail = prev_index q.tail (length q.buf) in
      let moved = set q.buf head (get_or q.buf tail zero_value) in
      back_to_front n (record q { head = head; tail = tail; buf = set moved tail zero_value })

  unfoldable pub front_to_back : ℕ → Deque T → Deque T
  front_to_back zero q = q
  front_to_back (suc n) q =
      let moved = set q.buf q.tail (get_or q.buf q.head zero_value) in
      front_to_back n (record q {
        buf = set moved q.head zero_value;
        head = next_index q.head (length q.buf);
        tail = next_index q.tail (length q.buf);
      })

  -- Rotate by `steps` below the count, either way; with no empty slot only head and tail move.
  unfoldable pub rotate_front : ℕ → Deque T → Deque T
  rotate_front steps q =
      if steps == 0
      then q
      else if q.head == q.tail
      then (let head = bit_and (q.head + steps) (length q.buf - 1) in
          record q { head = head; tail = head })
      else front_to_back steps q

  unfoldable pub rotate_back : ℕ → Deque T → Deque T
  rotate_back steps q =
      if steps == 0
      then q
      else if q.head == q.tail
      then (let head = bit_and ((q.head + 2 ^ 64 - steps) % 2 ^ 64) (length q.buf - 1) in
          record q { head = head; tail = head })
      else back_to_front steps q

  -- `n % count` has the sign of `n`.
  unfoldable pub rotate : ℤ → Deque T → Deque T
  rotate (pos n) q = if leb q.count 1 then q else rotate_front (n % q.count) q
  rotate (negsuc n) q = if leb q.count 1 then q else rotate_back (suc n % q.count) q
