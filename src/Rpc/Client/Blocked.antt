-- ===== src/Rpc/Client/Blocked.antt =====
-- rawGo of rpc/client.go where a Close comes between its AddPending and its WriteMsg.
use origin.Prelude.{
  ℕ, ◌+◌, ◌≡◌, ◌≢◌, refl, Bool, true, false, List, [], ◌∷◌, ◌++◌, none, some, arith, ok, ◌>>=◌,
  Ends, ends, Ends-bind, sym, ◌∙◌, ap, Bool-cases, inl, inr, nat_eq, ◌==◌,
}
use origin.Rpc.CallSet.{
  Call, CallSet, write_failed, Delivery, done, rpc_response, make_call_fail, find_pending,
  remove_pending,
}
use origin.Rpc.CallSet.Pending.{IsConsistent, find_pending_lem, add_pending_lem, remove_pending_lem}
use origin.Rpc.CallSet.Timeout.{cut_short, answers_to}
use origin.Rpc.CallSet.Loops.{answer, clean_pending-Cleaned}
use origin.Rpc.TimerHeap.Deadlines.{Deadlines, put}
use origin.Rpc.Client.{
  Wire, Bytes, Line, or_flag, is_full, GoResult, blocked, add_call, close, write_msg, returned,
  do_error,
}

-- What a Close makes of a rawGo whose WriteMsg fails after it: `xs` are the answers of Close.
pub record IsBlocked (call : Call) (l : Line) (r : GoResult × Line) : Type 0 where
  pub xs : List Delivery
  pub sent : r.1.sent ≡ l.sent ++ xs
  pub once : answers_to call.seq xs ≡ done (cut_short call) ∷ []
  pub result : r.0 ≡ blocked
  pub stuck : r.1.stuck ≡ l.stuck + 1

-- Close answers the call, and leaves a consistent state.
record ClosedFor (call : Call) (l l' : Line) : Type 0 where
  xs : List Delivery
  sent : l'.sent ≡ l.sent ++ xs
  once : answers_to call.seq xs ≡ done (cut_short call) ∷ []
  stuck : l'.stuck ≡ l.stuck
  deadlines : Deadlines
  consistent : IsConsistent deadlines l'.call_set

-- The channel of a call that Close answered has no room.
is_full-answered :
    (k : ℕ) (c : Call) (xs : List Delivery) → answers_to k xs ≡ done c ∷ [] → is_full k xs ≡ true
is_full-answered k c [] e = cc
is_full-answered k c (done x ∷ xs) e = ground (arith, is_full-answered k c xs)
is_full-answered k c (rpc_response x ∷ xs) e = elim (Bool-cases (x.seq == k)) [
  | inl this ↦
      let calc : answers_to k (rpc_response x ∷ xs) ≡ rpc_response x ∷ answers_to k xs =
        rw this refl in
      cc
  | inr other ↦
      let calc : answers_to k (rpc_response x ∷ xs) ≡ answers_to k xs = rw other refl in
      is_full-answered k c xs (sym calc ∙ e)
]

is_full-append : (k : ℕ) (xs ys : List Delivery) → is_full k ys ≡ true → is_full k (xs ++ ys) ≡ true
is_full-append k [] ys e = e
is_full-append k (done x ∷ xs) ys e = ground (arith, is_full-append k xs ys e)
is_full-append k (rpc_response x ∷ xs) ys e = is_full-append k xs ys e

module _ (call : Call) (l : Line) (plain : call.callback ≡ false) where
  to_channel : make_call_fail (cut_short call) ≡ done (cut_short call)
  unfolding make_call_fail
  to_channel = rw plain refl

  -- `m` is the line once the call is pending.
  close-ClosedFor :
      (node : ℕ) (m : Line) (d : Deadlines)
      → IsConsistent d m.call_set
      → find_pending m.call_set call.seq ≡ some call
      → m.sent ≡ l.sent
      → m.stuck ≡ l.stuck
      → Ends (ClosedFor call l) (close node m)
  unfolding close
  close-ClosedFor node m d v found sent_same stuck_same =
      Ends-bind (clean_pending-Cleaned d m.call_set v) λ (sent, cs) (each, empty, (d', v')).
        let there = sym (find_pending_lem d m.call_set call.seq v) ∙ found in
        ends (record {
          xs = sent;
          sent = ap (λ s. s ++ sent) sent_same;
          once = each call.seq ∙ ap (answer cut_short) there ∙ ap (λ x. x ∷ []) to_channel;
          stuck = stuck_same;
          deadlines = d';
          consistent = v';
        })

  do_error-IsBlocked :
      (m : Line) (xs : List Delivery)
      → m.sent ≡ l.sent ++ xs
      → answers_to call.seq xs ≡ done (cut_short call) ∷ []
      → m.stuck ≡ l.stuck
      → Ends (IsBlocked call l) (do_error write_failed call m)
  unfolding do_error
  do_error-IsBlocked m xs sent once stuck =
      let full : is_full call.seq m.sent ≡ true =
        ap (is_full call.seq) sent
        ∙ is_full-append call.seq l.sent xs (is_full-answered call.seq (cut_short call) xs once) in
      rw full (
        ends (record {
          xs = xs;
          sent = sent;
          once = once;
          result = refl;
          stuck = ap (λ n. n + 1) stuck;
        }))

  failed_write :
      (m : Line)
      → ClosedFor call l m
      → Ends (IsBlocked call l) (
          remove_pending m.call_set call.seq
          >>= (λ (p, cs). ok (false, record m { call_set = cs }))
          >>= returned false call)
  unfolding returned
  failed_write m k =
      let inner : Ends
          (λ (r : Bool × Line). (cs : CallSet) × (r ≡ (false, record m { call_set = cs })))
          (remove_pending m.call_set call.seq
            >>= (λ (p, cs). ok (false, record m { call_set = cs }))) =
        Ends-bind (remove_pending_lem k.deadlines m.call_set call.seq k.consistent)
          λ r _. ends (r.1, refl) in
      Ends-bind inner λ r (cs, e).
        rw e (do_error-IsBlocked (record m { call_set = cs }) k.xs k.sent k.once k.stuck)

-- AddPending of a call that wants a reply.
record AddedTo (call : Call) (l m : Line) : Type 0 where
  deadlines : Deadlines
  consistent : IsConsistent deadlines m.call_set
  found : find_pending m.call_set call.seq ≡ some call
  sent : m.sent ≡ l.sent
  stuck : m.stuck ≡ l.stuck

add_call-AddedTo :
    (now : ℕ) (call : Call) (l : Line) (d : Deadlines)
    → IsConsistent d l.call_set
    → call.seq ≢ 0
    → find_pending l.call_set call.seq ≡ none
    → Ends (AddedTo call l) (add_call now false call l)
unfolding add_call
add_call-AddedTo now call l d v nz fresh =
    Ends-bind (add_pending_lem d l.call_set now call v nz fresh) λ cs a. ends (record {
      deadlines = put call.seq (now + call.time_out) d;
      consistent = a.0;
      found = ground (arith, a.1 call.seq);
      sent = refl;
      stuck = refl;
    })

-- On a CallSet in order, let rawGo add its call, which wants a reply and has a number that is new
-- and not 0, let a Close of any client come next, and let the WriteMsg of rawGo fail after that.
-- Then rawGo does not return: what Close sends answers the call once, which fills the call's
-- channel, and rawGo waits for ever to send its own error.
pub close_fills_channel :
    (now node flag : ℕ) (wire : Wire) (bytes : Bytes) (call : Call) (l : Line) (d : Deadlines)
    → IsConsistent d l.call_set
    → call.seq ≢ 0
    → find_pending l.call_set call.seq ≡ none
    → call.callback ≡ false
    → wire.write (or_flag wire.processor_type flag) bytes ≡ false
    → Ends (IsBlocked call l) (
        add_call now false call l >>= close node >>= λ m.
        write_msg wire flag bytes call m >>= returned false call)
unfolding write_msg
close_fills_channel now node flag wire bytes call l d v nz fresh plain broken = rw broken (
    Ends-bind
      (Ends-bind (add_call-AddedTo now call l d v nz fresh)
        λ m a. close-ClosedFor call l plain node m a.deadlines a.consistent a.found a.sent a.stuck)
      λ m k. failed_write call l plain m k)
