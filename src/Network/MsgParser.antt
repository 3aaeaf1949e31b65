-- ===== src/Network/MsgParser.antt =====
-- network/tcp_msg.go: messages behind a length of 1, 2 or 4 bytes. A byte is a number below 256,
-- a reader is the list of bytes that it will deliver before it ends, and a writer keeps the bytes
-- of each Write. The byte pool of util/bytespool is the argument `make_bytes`.
pub mod Encoding
pub mod Framing
use origin.Prelude.{
  ℕ, zero, suc, ◌+◌, ◌-◌, ◌*◌, ◌/◌, ◌%◌, ◌^◌, min, nat_eq, ◌==◌, ltb, leb, if◌then◌else◌, Bool,
  true, false, ◌&&◌, List, [], ◌∷◌, ◌++◌, Option, none, some, length, get_or, set, take, drop,
  Outcome, ok, panic, ◌>>=◌,
}

pub record MsgParser : Type 0 where
  pub len_msg_len : ℕ
  pub min_msg_len : ℕ
  pub max_read_msg_len : ℕ
  pub max_write_msg_len : ℕ
  pub little_endian : Bool

pub data MsgError : Type 0 where
  io_error too_long too_short : MsgError

unfoldable pub get_max_msg_len : MsgParser → Outcome ℕ
get_max_msg_len p =
    if p.len_msg_len == 1
    then ok 0xff
    else if p.len_msg_len == 2
    then ok 0xffff
    else if p.len_msg_len == 4
    then ok 0xffff_ffff
    else panic

-- The first bytes as a number, the least significant byte first or last.
unfoldable pub le_value : List ℕ → ℕ
le_value [] = 0
le_value (b ∷ bs) = b + 256 * le_value bs

unfoldable pub be_value : ℕ → List ℕ → ℕ
be_value acc [] = acc
be_value acc (b ∷ bs) = be_value (acc * 256 + b) bs

unfoldable pub parse_len : MsgParser → List ℕ → ℕ
unfolding le_value be_value
parse_len p b =
    if p.len_msg_len == 1
    then get_or b 0 0
    else if p.len_msg_len == 2
    then (if p.little_endian then le_value (take 2 b) else be_value 0 (take 2 b))
    else if p.len_msg_len == 4
    then (if p.little_endian then le_value (take 4 b) else be_value 0 (take 4 b))
    else 0

-- io.ReadFull: `n` bytes, or an error if the reader ends before.
unfoldable pub read_full : ℕ → List ℕ → Option (List ℕ × List ℕ)
read_full n s = if leb n (length s) then some (take n s, drop n s) else none

pub data Received : Type 0 where
  message : List ℕ → Received
  refused : MsgError → Received

-- What Read returns, with what is left in the reader. The slice `b[:p.LenMsgLen]` of four bytes
-- panics past four.
unfoldable pub read : MsgParser → List ℕ → Outcome (Received × List ℕ)
read p s = if ltb 4 p.len_msg_len then panic else elim (read_full p.len_msg_len s) [
  | none ↦ ok (refused io_error, [])
  | some (b, s') ↦
      let msg_len = parse_len p b in
      if ltb p.max_read_msg_len msg_len
      then ok (refused too_long, s')
      else if ltb msg_len p.min_msg_len
      then ok (refused too_short, s')
      else elim (read_full msg_len s') [
        | none ↦ ok (refused io_error, [])
        | some (msg_data, s'') ↦ ok (message msg_data, s'')
      ]
]

-- The `uint32` sum of the lengths.
unfoldable pub total_len : ℕ → List (List ℕ) → ℕ
total_len acc [] = acc
total_len acc (a ∷ args) = total_len ((acc + length a % 2 ^ 32) % 2 ^ 32) args

-- PutUint16 and PutUint32 in either order, and the byte of `msg[0] = byte(msgLen)`.
unfoldable pub put_len : MsgParser → ℕ → List ℕ → List ℕ
put_len p n msg =
    if p.len_msg_len == 1
    then set msg 0 (n % 256)
    else if p.len_msg_len == 2
    then (if p.little_endian
        then set (set msg 0 (n % 256)) 1 (n / 256 % 256)
        else set (set msg 0 (n / 256 % 256)) 1 (n % 256))
    else if p.len_msg_len == 4
    then (if p.little_endian
        then set (set (set (set msg 0 (n % 256)) 1 (n / 256 % 256)) 2 (n / 65536 % 256)) 3
            (n / 16777216 % 256)
        else set (set (set (set msg 0 (n / 16777216 % 256)) 1 (n / 65536 % 256)) 2 (n / 256 % 256))
            3 (n % 256))
    else msg

-- `copy(msg[l:], a)`: the slice panics past the end, and copy stops at it.
unfoldable pub copy_at : List ℕ → ℕ → List ℕ → Outcome (List ℕ)
copy_at msg l a =
    if ltb (length msg) l
    then panic
    else (let n = min (length msg - l) (length a) in
        ok (take l msg ++ (take n a ++ drop (l + n) msg)))

unfoldable pub copy_all : List ℕ → ℕ → List (List ℕ) → Outcome (List ℕ)
copy_all msg l [] = ok msg
copy_all msg l (a ∷ args) = copy_at msg l a >>= λ msg'. copy_all msg' (l + length a) args

pub data Written : Type 0 where
  sent : List ℕ → Written
  rejected : MsgError → Written

-- What Write hands to `conn.Write`, whose own error it drops.
unfoldable pub write : (ℕ → List ℕ) → MsgParser → List (List ℕ) → Outcome Written
write make_bytes p args =
    let msg_len = total_len 0 args in
    if ltb 0 p.max_write_msg_len && ltb p.max_write_msg_len msg_len
    then ok (rejected too_long)
    else if ltb msg_len p.min_msg_len
    then ok (rejected too_short)
    else (copy_all (put_len p msg_len (make_bytes (p.len_msg_len + msg_len))) p.len_msg_len args
        >>= λ msg. ok (sent msg))
