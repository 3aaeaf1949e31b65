-- ===== src/Network/BytesPool/Sizes.antt =====
-- The sizes of the buffers of util/bytespool/bytespool.go.
use origin.Prelude.{
  ℕ, zero, suc, ◌+◌, ◌-◌, ◌*◌, ◌/◌, ◌≤◌, ◌<◌, ◌≡◌, refl, nat_eq, ltb, leb, false, List, Option,
  some, length, take, replicate, length-take, length-replicate, arith, Bool-cases, inl, inr, ok,
  Ends, ends,
}
use origin.Network.BytesPool.{
  MemAreaPool, area, pool_len, mem_size, get_pos_byte_size, make_byte_slice, make_bytes_from,
  make_bytes, release_byte_slice, release_bytes_to, release_bytes,
}

-- A pool's buffers have the size with which it makes them: Get returns one that New made, or one
-- that was put back.
abbrev pub IsSized : (MemAreaPool → ℕ → List ℕ) → Type 0
IsSized get_pool = (a : MemAreaPool) (i : ℕ) → length (get_pool a i) ≡ mem_size a i

-- What MakeBytes should return.
abbrev pub HasSize : ℕ → Option (List ℕ) → Type 0
HasSize size r = (b : List ℕ) × (r ≡ some b) × (length b ≡ size)

module _ (get_pool : MemAreaPool → ℕ → List ℕ) (sized : IsSized get_pool) (size : ℕ) where
  slice_lem :
      (a : MemAreaPool)
      → leb (pool_len a) ((size - a.min_area_value) / a.growth_value) ≡ false
      → size ≤ mem_size a ((size - a.min_area_value) / a.growth_value)
      → Ends (HasSize size) (make_byte_slice get_pool a size)
  unfolding make_byte_slice get_pos_byte_size
  slice_lem a inside enough =
      let pos = (size - a.min_area_value) / a.growth_value in
      let long : ltb (length (get_pool a pos)) size ≡ false = ground (arith, sized a pos) in
      rw (inside, long, make_byte_slice, get_pos_byte_size)
        (ends (
          take size (get_pool a pos),
          refl,
          length-take size (get_pool a pos) (omega (arith, sized a pos, enough)),
        ))

  -- If the pools hand out buffers of the size with which they make them, MakeBytes returns a
  -- buffer of exactly the size that is asked for, whatever that is: it does not
  -- panic, and no size falls between the areas.
  pub make_bytes_lem : Ends (HasSize size) (make_bytes get_pool size)
  unfolding make_bytes make_bytes_from pool_len mem_size
  make_bytes_lem = elim (Bool-cases (leb size 4096)) [
    | inl tiny ↦ rw tiny (slice_lem (area 1 4096 512) (ground arith) (ground arith))
    | inr h1 ↦ rw h1 (elim (Bool-cases (leb size 40960)) [
      | inl small ↦ rw small (slice_lem (area 4097 40960 4096) (ground arith) (ground arith))
      | inr h2 ↦ rw h2 (elim (Bool-cases (leb size 417792)) [
        | inl middle ↦ rw middle (slice_lem (area 40961 417792 16384) (ground arith) (ground arith))
        | inr h3 ↦ rw h3 (elim (Bool-cases (leb size 1925120)) [
          | inl large ↦
              rw large (slice_lem (area 417793 1925120 65536) (ground arith) (ground arith))
          | inr huge ↦ rw huge (ends (replicate size 0, refl, length-replicate size 0))
        ])
      ])
    ])
  ]

-- The areas in turn.
abbrev pub nth_area : ℕ → MemAreaPool
nth_area zero = area 1 4096 512
nth_area (suc zero) = area 4097 40960 4096
nth_area (suc (suc zero)) = area 40961 417792 16384
nth_area (suc (suc (suc n))) = area 417793 1925120 65536

-- A buffer that pool `i` of an area made goes back to that pool.
pub release_bytes_lem :
    (n i : ℕ)
    → i < pool_len (nth_area n)
    → release_bytes (mem_size (nth_area n) i) ≡ ok (some (nth_area n, i))
unfolding release_bytes release_bytes_to release_byte_slice get_pos_byte_size pool_len mem_size
release_bytes_lem zero i h = let pos : ((i + 1) * 512 - 1) / 512 ≡ i = omega arith in ground arith
release_bytes_lem (suc zero) i h =
    let pos : (4096 + (i + 1) * 4096 - 4097) / 4096 ≡ i = omega arith in ground arith
release_bytes_lem (suc (suc zero)) i h =
    let pos : (40960 + (i + 1) * 16384 - 40961) / 16384 ≡ i = omega arith in ground arith
release_bytes_lem (suc (suc (suc n))) i h =
    let pos : (417792 + (i + 1) * 65536 - 417793) / 65536 ≡ i = omega arith in ground arith
