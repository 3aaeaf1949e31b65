-- ===== src/Rpc/Client/Together.antt =====
-- The operations of rpc/client.go on one CallSet, in any order, and what becomes of the calls.
use origin.Prelude.{
  ℕ, suc, ◌+◌, ◌^◌, ◌≤◌, ◌<◌, ◌≡◌, ◌≢◌, refl, Bool, List, [], ◌∷◌, none, length, lookup, arith,
  count, Outcome, ok, ◌>>=◌, Ends, ends, Ends-bind, Ends-map, inl, inr, nat_eq,
}
use origin.Rpc.CallSet.{find_pending}
use origin.Rpc.Client.{
  Wire, Bytes, Decoder, Line, init, raw_go, async_call, process_rpc_response, cancel_rpc,
  check_timeout, close,
}
use origin.Rpc.Client.Ledger.{answers, Balanced, IsLedger, Keeps, Keeps-IsLedger}
use origin.Rpc.Client.Answers.{
  process_rpc_response-Keeps, cancel_rpc-Keeps, check_timeout-Keeps, close-Keeps,
}
use origin.Rpc.Client.Calls.{raw_go-IsLedger, async_call-IsLedger}

-- What happens to the CallSet of a node: a client's rawGo or asyncCall, a response of at least one
-- byte, a CancelRpc, a round of the timeouts, or the Close of a client.
pub data Op : Type 0 where
  go : ℕ → Wire → ℕ → Bool → ℕ → Bytes → Op
  async : ℕ → Wire → ℕ → ℕ → Op
  response : Decoder → ℕ → Bytes → Op
  cancel : ℕ → Op
  time_out : ℕ → Op
  close_client : ℕ → Op

unfoldable pub serve : Op → Line → Outcome Line
serve (go now wire t no_reply method raw_args) l =
    raw_go now wire t no_reply method raw_args l >>= λ (_, l'). ok l'
serve (async now wire t method) l = async_call now wire t method l >>= λ (_, l'). ok l'
serve (response decoder first bytes) l =
    process_rpc_response decoder (first ∷ bytes) l >>= λ (_, l'). ok l'
serve (cancel seq) l = cancel_rpc seq l
serve (time_out now) l = check_timeout now l
serve (close_client node) l = close node l

unfoldable pub serve_all : List Op → Line → Outcome Line
serve_all [] l = ok l
serve_all (op ∷ ops) l = serve op l >>= λ l'. serve_all ops l'

-- A ledger whose numbers go up to `n` at most.
UpTo : ℕ → Line → Type 0
UpTo n l = (top : ℕ) × (top ≤ n) × IsLedger top l

kept : (n : ℕ) (l l' : Line) (u : UpTo n l) → Keeps l l' → UpTo (n + 1) l'
unfolding UpTo
kept n l l' (top, le, v) k = (top, omega arith, Keeps-IsLedger top l l' v k)

serve-UpTo :
    (n : ℕ) (op : Op) (l : Line) → UpTo n l → n + 1 < 2 ^ 64 → Ends (UpTo (n + 1)) (serve op l)
unfolding serve UpTo
serve-UpTo n (go now wire t no_reply method raw_args) l (top, le, v) lt =
    Ends-bind (raw_go-IsLedger now wire t no_reply method raw_args top l v (omega arith))
      λ r w. ends (top + 1, omega arith, w)
serve-UpTo n (async now wire t method) l (top, le, v) lt =
    Ends-bind (async_call-IsLedger now wire t method top l v (omega arith)) λ r w. elim w [
      | inl same ↦ ends (top, omega arith, same)
      | inr next ↦ ends (top + 1, omega arith, next)
    ]
serve-UpTo n (response decoder first bytes) l u lt =
    Ends-bind (process_rpc_response-Keeps l (u.2.deadlines) (u.2.consistent) decoder first bytes)
      λ r k. ends (kept n l r.1 u k)
serve-UpTo n (cancel seq) l u lt =
    Ends-map (cancel_rpc-Keeps l (u.2.deadlines) (u.2.consistent) seq) λ l' k. kept n l l' u k
serve-UpTo n (time_out now) l u lt =
    Ends-map (check_timeout-Keeps l (u.2.deadlines) (u.2.consistent) now) λ l' k. kept n l l' u k
serve-UpTo n (close_client node) l u lt =
    Ends-map (close-Keeps l (u.2.deadlines) (u.2.consistent) node) λ l' k. kept n l l' u k

serve_all-UpTo :
    (ops : List Op) (n : ℕ) (l : Line)
    → UpTo n l
    → n + length ops < 2 ^ 64
    → Ends (UpTo (n + length ops)) (serve_all ops l)
unfolding serve_all
serve_all-UpTo [] n l u lt = let e : n + 0 ≡ n = omega arith in rw e (ends u)
serve_all-UpTo (op ∷ ops) n l u lt =
    let e : n + suc (length ops) ≡ (n + 1) + length ops = omega arith in
    rw e (
      Ends-bind (serve-UpTo n op l u (omega arith))
        λ l' w. serve_all-UpTo ops (n + 1) l' w (omega arith))

-- The answers to the call `k`, its place among the pending calls, and its cancellation make one, if
-- it ever was under way, and none if not. The answers under the number 0 are those that rawGo sent
-- itself, and no caller of rawGo waits for ever to send one.
abbrev pub IsAccounted : Line → Type 0
IsAccounted l =
    ((k : ℕ) → k ≢ 0 → Balanced k l × (count k l.accepted ≤ 1))
    × (answers 0 l ≡ l.refused)
    × (l.stuck ≡ 0)

init-UpTo : UpTo 0 init
unfolding UpTo find_pending lookup
init-UpTo = (
  0,
  omega arith,
  record {
    deadlines = λ k. none;
    consistent = record {
      timers = record {
        holds = record {
          index = λ i p. absurd (omega arith);
          back = λ k i e. absurd (ground (arith, e));
          times = λ i p. absurd (omega arith);
          keys = λ k. refl;
        };
        order = λ c p q. absurd (omega arith);
        no_zero = refl;
      };
      same = λ k. refl;
      named = λ k c e. absurd (ground (arith, e));
    };
    start = refl;
    balance = λ k nz. ground arith;
    once = λ k. omega arith;
    unused = λ k p. refl;
    unnumbered = refl;
    free = refl;
  },
)

-- From the start, fewer than 2^64 operations, in any order but each in one step, end well, and then
-- every call that was under way when Go or AsyncCall returned was answered once, or was cancelled, or
-- is pending, and only one of these. No other number but 0 was answered, and 0 as often as rawGo
-- failed and answered its call itself. No caller waits for ever to do so.
pub serve_all-IsAccounted :
    (ops : List Op) → length ops < 2 ^ 64 → Ends IsAccounted (serve_all ops init)
unfolding UpTo
serve_all-IsAccounted ops lt =
    Ends-map (serve_all-UpTo ops 0 init init-UpTo (omega arith))
      λ l (top, _, v). (λ k nz. (v.balance k nz, v.once k), v.unnumbered, v.free)
