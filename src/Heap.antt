-- ===== src/Heap.antt =====
-- container/heap of Go's standard library, which the timer heaps of rpc/rpctimer.go,
-- util/timer/heap.go, sysmodule/frametimer and sysservice/rankservice are built on: the five
-- operations over heap.Interface, and the laws of an implementation that the proofs need.
pub mod Order
pub mod Sift
pub mod Ops
use origin.Prelude.{
  ℕ, zero, suc, ◌+◌, ◌-◌, ◌*◌, ◌/◌, ◌<◌, ◌≡◌, Bool, true, false, nat_eq, ◌==◌, ltb, leb, ◌&&◌, not,
  if◌then◌else◌, Outcome, ok, out_of_fuel, ◌>>=◌,
}

-- heap.Interface. `X` is what Push takes, `Y` what Pop returns; an index out of range panics.
pub record HeapInterface (S X Y : Type 0) : Type 0 where
  pub len : S → ℕ
  pub less : S → ℕ → ℕ → Outcome Bool
  pub swap : S → ℕ → ℕ → Outcome S
  pub append : S → X → S
  pub remove_last : S → Outcome (Y × S)

module _ {S X Y : Type 0} (h : HeapInterface S X Y) where
  open h use {len, less, swap, append, remove_last}

  -- `(j - 1) / 2`, which Go truncates towards zero at 0 as ℕ does
  up_loop : ℕ → S → ℕ → Outcome S
  up_loop zero s j = out_of_fuel
  up_loop (suc fuel) s j =
      let i = (j - 1) / 2 in
      if i == j
      then ok s
      else less s j i >>= λ above. elim above [
        | true ↦ swap s i j >>= λ s'. up_loop fuel s' i
        | false ↦ ok s
      ]

  unfoldable pub up : S → ℕ → Outcome S
  unfolding up_loop
  up s j = up_loop (suc j) s j

  smaller_child : S → ℕ → ℕ → Outcome ℕ
  smaller_child s j n =
      if ltb (j + 1) n
      then (less s (j + 1) j >>= λ right. ok (if right then j + 1 else j))
      else ok j

  -- The index where the loop stops, and the state.
  down_loop : ℕ → S → ℕ → ℕ → Outcome (ℕ × S)
  unfolding smaller_child
  down_loop zero s i n = out_of_fuel
  down_loop (suc fuel) s i n =
      if ltb (2 * i + 1) n
      then (smaller_child s (2 * i + 1) n >>= λ j. less s j i >>= λ below. elim below [
        | true ↦ swap s i j >>= λ s'. down_loop fuel s' j n
        | false ↦ ok (i, s)
      ])
      else ok (i, s)

  unfoldable pub down : S → ℕ → ℕ → Outcome (Bool × S)
  unfolding down_loop
  down s i n = down_loop (suc n) s i n >>= λ (i', s'). ok (ltb i i', s')

  unfoldable pub push : S → X → Outcome S
  push s x = let s' = append s x in up s' (len s' - 1)

  unfoldable pub pop : S → Outcome (Y × S)
  pop s = let n = len s - 1 in swap s 0 n >>= λ s'. down s' 0 n >>= λ (_, s''). remove_last s''

  unfoldable pub settle : S → ℕ → ℕ → Outcome S
  settle s i n = down s i n >>= λ (moved, s'). if moved then ok s' else up s' i

  unfoldable pub remove : S → ℕ → Outcome (Y × S)
  remove s i =
      let n = len s - 1 in
      if n == i then remove_last s else (swap s i n >>= λ s'. settle s' i n >>= remove_last)

  unfoldable pub fix : S → ℕ → Outcome S
  fix s i = settle s i (len s)
