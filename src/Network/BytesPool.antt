-- ===== src/Network/BytesPool.antt =====
-- util/bytespool/bytespool.go: the byte buffers for messages, in pools of four areas of sizes. A
-- buffer is the list of the bytes up to its capacity, and what a caller sees are the first `size`.
-- sync.Pool is the argument `get_pool`: what Get returns for an area's pool at a position. Sizes are
-- not negative.
pub mod Sizes
use origin.Prelude.{
  ℕ, zero, suc, ◌+◌, ◌-◌, ◌*◌, ◌/◌, ◌≤◌, ◌<◌, nat_eq, ◌==◌, ltb, leb, if◌then◌else◌, Bool, true,
  false, List, [], ◌∷◌, Option, none, some, length, take, replicate, Outcome, ok, panic,
}

pub record MemAreaPool : Type 0 where
  pub min_area_value : ℕ
  pub max_area_value : ℕ
  pub growth_value : ℕ

abbrev pub area : ℕ → ℕ → ℕ → MemAreaPool
area lo hi growth = record { min_area_value = lo; max_area_value = hi; growth_value = growth }

abbrev pub mem_area_pool_list : List MemAreaPool
mem_area_pool_list =
    area 1 4096 512
    ∷ area 4097 40960 4096
    ∷ area 40961 417792 16384
    ∷ area 417793 1925120 65536
    ∷ []

-- makePool: the number of pools, and the size of the buffers that pool `i` makes.
unfoldable pub pool_len : MemAreaPool → ℕ
pool_len a = (a.max_area_value - a.min_area_value + 1) / a.growth_value

unfoldable pub mem_size : MemAreaPool → ℕ → ℕ
mem_size a i = (a.min_area_value - 1) + (i + 1) * a.growth_value

-- `none` is -1. Go's division of a negative difference, for size 0, rounds to 0, as does that of
-- the difference that stops at 0.
unfoldable pub get_pos_byte_size : MemAreaPool → ℕ → Option ℕ
unfolding pool_len
get_pos_byte_size a size =
    let pos = (size - a.min_area_value) / a.growth_value in
    if leb (pool_len a) pos then none else some pos

-- A slice of the first `size` bytes, which panics if the buffer is shorter; `none` is nil.
unfoldable pub make_byte_slice :
    (MemAreaPool → ℕ → List ℕ) → MemAreaPool → ℕ → Outcome (Option (List ℕ))
make_byte_slice get_pool a size = elim (get_pos_byte_size a size) [
  | none ↦ ok none
  | some pos ↦
      let buff = get_pool a pos in
      if ltb (length buff) size then panic else ok (some (take size buff))
]

unfoldable pub make_bytes_from :
    (MemAreaPool → ℕ → List ℕ) → List MemAreaPool → ℕ → Outcome (Option (List ℕ))
make_bytes_from get_pool [] size = ok (some (replicate size 0))
make_bytes_from get_pool (a ∷ areas) size =
    if leb size a.max_area_value
    then make_byte_slice get_pool a size
    else make_bytes_from get_pool areas size

unfoldable pub make_bytes : (MemAreaPool → ℕ → List ℕ) → ℕ → Outcome (Option (List ℕ))
make_bytes get_pool size = make_bytes_from get_pool mem_area_pool_list size

-- Where a buffer of this capacity is put back: `none` if it is left to the garbage collector.
unfoldable pub release_byte_slice : MemAreaPool → ℕ → Outcome (Option (MemAreaPool × ℕ))
release_byte_slice a capacity = elim (get_pos_byte_size a capacity) [
  | none ↦ panic
  | some pos ↦ ok (some (a, pos))
]

unfoldable pub release_bytes_to : List MemAreaPool → ℕ → Outcome (Option (MemAreaPool × ℕ))
release_bytes_to [] capacity = ok none
release_bytes_to (a ∷ areas) capacity =
    if leb capacity a.max_area_value
    then release_byte_slice a capacity
    else release_bytes_to areas capacity

unfoldable pub release_bytes : ℕ → Outcome (Option (MemAreaPool × ℕ))
release_bytes capacity = release_bytes_to mem_area_pool_list capacity
