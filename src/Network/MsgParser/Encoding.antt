-- ===== src/Network/MsgParser/Encoding.antt =====
-- The length field of network/tcp_msg.go: what Write puts, Read reads.
use origin.Prelude.{
  ℕ, ◌^◌, ◌≤◌, ◌<◌, ◌≡◌, refl, nat_eq, List, [], ◌∷◌, ◌++◌, length, take, drop, inl, inr, arith,
  ◌⊎◌,
}
use origin.Network.MsgParser.{MsgParser, parse_len, put_len}

-- The three lengths that getMaxMsgLen allows.
abbrev pub IsWidth : ℕ → Type 0
IsWidth k = (k ≡ 1) ⊎ ((k ≡ 2) ⊎ (k ≡ 4))

-- The bytes of the length field.
unfoldable pub header : MsgParser → ℕ → List ℕ
unfolding put_len
header p n = take p.len_msg_len (put_len p n (0 ∷ 0 ∷ 0 ∷ 0 ∷ []))

pub length-header :
    (p : MsgParser) (n : ℕ) → IsWidth p.len_msg_len → length (header p n) ≡ p.len_msg_len
unfolding header
length-header p n (inl e) = rw e refl
length-header p n (inr (inl e)) = rw e (ground arith)
length-header p n (inr (inr e)) = rw e (ground arith)

pub put_len-header :
    (p : MsgParser) (n : ℕ) (msg : List ℕ)
    → IsWidth p.len_msg_len
    → p.len_msg_len ≤ length msg
    → put_len p n msg ≡ header p n ++ drop p.len_msg_len msg
unfolding header
put_len-header p n [] w h = absurd (omega (arith, w))
put_len-header p n (x ∷ r) (inl e) h = rw e refl
put_len-header p n (x ∷ []) (inr w) h = absurd (omega (arith, w))
put_len-header p n (x ∷ y ∷ r) (inr (inl e)) h = rw e (ground arith)
put_len-header p n (x ∷ y ∷ []) (inr (inr e)) h = absurd (omega arith)
put_len-header p n (x ∷ y ∷ z ∷ []) (inr (inr e)) h = absurd (omega arith)
put_len-header p n (x ∷ y ∷ z ∷ w ∷ r) (inr (inr e)) h = rw e (ground arith)

pub parse_len-header :
    (p : MsgParser) (n : ℕ)
    → IsWidth p.len_msg_len
    → n < 256 ^ p.len_msg_len
    → parse_len p (header p n) ≡ n
unfolding header parse_len
parse_len-header p n (inl e) h = let h' : n < 256 = rw e at h in rw e (omega arith)
parse_len-header p n (inr (inl e)) h = let h' : n < 65536 = rw e at h in rw e (ground arith)
parse_len-header p n (inr (inr e)) h = let h' : n < 4294967296 = rw e at h in rw e (ground arith)
