-- ===== src/Network/Tests.antt =====
-- Concrete messages of network/tcp_msg.go, behind a length of two bytes.
use origin.Prelude.{
  ℕ, ◌≡◌, refl, nat_eq, false, List, [], ◌∷◌, ◌++◌, arith, replicate, length-replicate, ok, inl,
  inr,
}
use origin.Network.BytesPool.{MemAreaPool, mem_size, pool_len, release_bytes}
use origin.Network.BytesPool.Sizes.{IsSized, nth_area, release_bytes_lem}
use origin.Prelude.{some, length-replicate, ◌<◌}
use origin.Network.MsgParser.{MsgParser, message, sent, read, write, read_full, parse_len, be_value}
use origin.Network.MsgParser.Framing.{concat, read-write}

abbrev parser : MsgParser
parser = record {
  len_msg_len = 2;
  min_msg_len = 1;
  max_read_msg_len = 4096;
  max_write_msg_len = 0;
  little_endian = false;
}

abbrev zeros : ℕ → List ℕ
zeros n = replicate n 0

abbrev parts : List (List ℕ)
parts = (1 ∷ 2 ∷ []) ∷ (3 ∷ []) ∷ []

read-write_example :
    (msg : List ℕ) × (write zeros parser parts ≡ ok (sent msg))
    × ((rest : List ℕ) → read parser (msg ++ rest) ≡ ok (message (concat parts), rest))
read-write_example =
    read-write zeros parser parts (λ n. length-replicate n 0) (inr (inl refl)) (omega arith)
      (inl refl) (omega arith) (omega arith) (omega arith)

abbrev two_bytes : List ℕ
two_bytes = 8 ∷ 9 ∷ []

reads : read parser (0 ∷ 2 ∷ 8 ∷ 9 ∷ 0 ∷ []) ≡ ok (message two_bytes, 0 ∷ [])
unfolding read read_full parse_len be_value
reads = refl

abbrev fresh_buffers : MemAreaPool → ℕ → List ℕ
fresh_buffers a i = replicate (mem_size a i) 0

fresh-IsSized : IsSized fresh_buffers
fresh-IsSized = λ a i. length-replicate (mem_size a i) 0

within : 0 < pool_len (nth_area 1)
unfolding pool_len
within = omega arith

release_bytes_lem_example : release_bytes (mem_size (nth_area 1) 0) ≡ ok (some (nth_area 1, 0))
release_bytes_lem_example = release_bytes_lem 1 0 within
