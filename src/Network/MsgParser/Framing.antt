-- ===== src/Network/MsgParser/Framing.antt =====
-- Read and Write of network/tcp_msg.go.

use origin.Prelude.{
  ℕ, suc, ◌+◌, ◌-◌, ◌%◌, ◌^◌, min, ◌≤◌, ◌<◌, ◌≡◌, refl, nat_eq, ltb, leb, true, false, ◌&&◌, List,
  [], ◌∷◌, ◌++◌, length, take, drop, arith, ◌⊎◌, ok, length-append, take-append, drop-append,
  append_assoc, length-drop, length-take, ◌∙◌, sym, ap,
}
use origin.Network.MsgParser.{
  MsgParser, read_full, message, read, total_len, copy_at, copy_all, sent, write, parse_len,
}
use origin.Network.MsgParser.Encoding.{
  IsWidth, header, length-header, put_len-header, parse_len-header,
}

abbrev pub concat : List (List ℕ) → List ℕ
concat [] = []
concat (a ∷ args) = a ++ concat args

-- The sum of the lengths, if it fits a `uint32`.
total_len-concat :
    (acc : ℕ) (args : List (List ℕ))
    → acc + length (concat args) < 2 ^ 32
    → total_len acc args ≡ acc + length (concat args)
unfolding total_len
total_len-concat acc [] h = omega arith
total_len-concat acc (a ∷ args) h =
    let e = length-append a (concat args) in
    let f : (acc + length a % 2 ^ 32) % 2 ^ 32 ≡ acc + length a = omega arith in
    rw f (total_len-concat (acc + length a) args (omega arith) ∙ omega arith)

take_drop_all :
    (suf a : List ℕ) → length a ≤ length suf → length (drop (length a) suf) + length a ≡ length suf
take_drop_all suf a h = omega (arith, length-drop (length a) suf)

take_all : (a : List ℕ) → take (length a) a ≡ a
take_all [] = refl
take_all (x ∷ a) = ap (◌∷◌ x) (take_all a)

drop-append_past : (pre suf : List ℕ) (n : ℕ) → drop (length pre + n) (pre ++ suf) ≡ drop n suf
drop-append_past [] suf n = ap (λ k. drop k suf) (omega arith)
drop-append_past (x ∷ pre) suf n =
    let e : suc (length pre) + n ≡ suc (length pre + n) = omega arith in
    rw e (drop-append_past pre suf n)

copy_at_lem :
    (pre suf a : List ℕ)
    → length a ≤ length suf
    → copy_at (pre ++ suf) (length pre) a ≡ ok ((pre ++ a) ++ drop (length a) suf)
unfolding copy_at
copy_at_lem pre suf a h =
    let e = length-append pre suf in
    let inside : ltb (length (pre ++ suf)) (length pre) ≡ false = ground arith in
    let n : min (length (pre ++ suf) - length pre) (length a) ≡ length a = omega arith in
    rw (inside, n, take-append pre suf, take_all a, drop-append_past pre suf (length a))
      (ap ok (sym (append_assoc pre a (drop (length a) suf))))

-- The loop fills the buffer behind the header with the arguments, one after the other.
copy_all_lem :
    (pre suf : List ℕ) (args : List (List ℕ))
    → length suf ≡ length (concat args)
    → copy_all (pre ++ suf) (length pre) args ≡ ok (pre ++ concat args)
unfolding copy_all
copy_all_lem pre [] [] h = refl
copy_all_lem pre (x ∷ suf) [] h = absurd (omega arith)
copy_all_lem pre suf (a ∷ args) h =
    let e = length-append a (concat args) in
    rw (copy_at_lem pre suf a (omega arith), sym (length-append pre a))
      (copy_all_lem (pre ++ a) (drop (length a) suf) args
          (omega (arith, length-drop (length a) suf))
        ∙ ap ok (append_assoc pre a (concat args)))

module _ (make_bytes : ℕ → List ℕ) (p : MsgParser) (args : List (List ℕ))
    (filled : (n : ℕ) → length (make_bytes n) ≡ n) (width : IsWidth p.len_msg_len)
    (long_enough : p.min_msg_len ≤ length (concat args))
    (writable : (p.max_write_msg_len ≡ 0) ⊎ (length (concat args) ≤ p.max_write_msg_len))
    (small : length (concat args) < 2 ^ 32) where
  -- Write sends the length and then the arguments.
  write_lem : write make_bytes p args ≡ ok (sent (header p (length (concat args)) ++ concat args))
  unfolding write
  write_lem =
      let n = length (concat args) in
      let k = p.len_msg_len in
      let buffer = make_bytes (k + n) in
      let room : length buffer ≡ k + n = filled (k + n) in
      let head = put_len-header p n buffer width (omega arith) in
      let total : total_len 0 args ≡ n = total_len-concat 0 args (omega arith) ∙ omega arith in
      let not_long : (ltb 0 p.max_write_msg_len && ltb p.max_write_msg_len n) ≡ false =
        ground arith in
      let not_short : ltb n p.min_msg_len ≡ false = ground arith in
      let copied =
        copy_all_lem (header p n) (drop k buffer) args (omega (arith, length-drop k buffer)) in
      let start = rw (length-header p n width) at copied in
      rw (total, not_long, not_short, head, start)

  -- Read takes such a message off the front of what the reader delivers.
  read_lem :
      (rest : List ℕ)
      → length (concat args) < 256 ^ p.len_msg_len
      → length (concat args) ≤ p.max_read_msg_len
      → read p ((header p (length (concat args)) ++ concat args) ++ rest)
        ≡ ok (message (concat args), rest)
  unfolding read read_full
  read_lem rest fits readable =
      let n = length (concat args) in
      let k = p.len_msg_len in
      let body = concat args ++ rest in
      let four : ltb 4 k ≡ false = ground (arith, width) in
      let size = length-header p n width in
      let front : take k (header p n ++ body) ≡ header p n =
        rw size at (take-append (header p n) body) in
      let back : drop k (header p n ++ body) ≡ body = rw size at (drop-append (header p n) body) in
      let all = length-append (header p n) body in
      let whole = length-append (concat args) rest in
      let enough : leb k (length (header p n ++ body)) ≡ true = ground arith in
      let filled_body : leb n (length body) ≡ true = ground arith in
      let not_long : ltb p.max_read_msg_len n ≡ false = ground arith in
      let not_short : ltb n p.min_msg_len ≡ false = ground arith in
      rw (append_assoc (header p n) (concat args) rest, four, enough, front, back)
        (rw (parse_len-header p n width fits, not_long, not_short, filled_body)
          (rw (take-append (concat args) rest, drop-append (concat args) rest)))

-- Where the length field has 1, 2 or 4 bytes, the joined arguments fit it and the limits, and the
-- byte pool makes buffers of the size that it is asked for,
-- Write sends one message, and Read of that message, whatever follows it, returns the joined
-- arguments and leaves what follows.
pub read-write :
    (make_bytes : ℕ → List ℕ) (p : MsgParser) (args : List (List ℕ))
    → ((n : ℕ) → length (make_bytes n) ≡ n)
    → IsWidth p.len_msg_len
    → p.min_msg_len ≤ length (concat args)
    → (p.max_write_msg_len ≡ 0) ⊎ (length (concat args) ≤ p.max_write_msg_len)
    → length (concat args) < 2 ^ 32
    → length (concat args) < 256 ^ p.len_msg_len
    → length (concat args) ≤ p.max_read_msg_len
    → (msg : List ℕ) × (write make_bytes p args ≡ ok (sent msg))
      × ((rest : List ℕ) → read p (msg ++ rest) ≡ ok (message (concat args), rest))
read-write make_bytes p args filled width long_enough writable small fits readable = (
  header p (length (concat args)) ++ concat args,
  write_lem make_bytes p args filled width long_enough writable small,
  λ rest. read_lem make_bytes p args filled width long_enough writable small rest fits readable,
)

-- A message that Read returns keeps the configured limits, whatever bytes arrive.
pub read_bounds :
    (p : MsgParser) (s m rest : List ℕ)
    → read p s ≡ ok (message m, rest)
    → (p.min_msg_len ≤ length m) × (length m ≤ p.max_read_msg_len)
unfolding read read_full
read_bounds p s m rest e =
    ground (arith, length-take (parse_len p (take p.len_msg_len s)) (drop p.len_msg_len s))
