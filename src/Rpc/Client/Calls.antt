-- ===== src/Rpc/Client/Calls.antt =====
-- rawGo and asyncCall of rpc/client.go on the ledger of calls.
use mathlib.Core.Path.{subst}
use origin.Prelude.{
  ℕ, ◌+◌, ◌%◌, ◌^◌, ◌<◌, ◌≡◌, nat_eq, Bool, true, false, arith, Ends, ends, Ends-bind, Ends-if,
  Option-cases, inl, inr, sym, ◌⊎◌, Ends-map,
}
use origin.Rpc.CallSet.{
  Call, marshal_failed, no_connection, compress_failed, write_failed, find_pending, generate_seq,
}
use origin.Rpc.Client.{
  Wire, Bytes, Line, accept, returned, send_call, make_call, raw_go, async_returned, send_async,
  async_call, async_call_with, compress_block,
}
use origin.Rpc.Client.Written.{
  IsFresh, do_error-IsLedger, add_call-IsAdded, Written, unsent, unheeded, waiting,
  write_msg-Written,
}
use origin.Rpc.Client.Ledger.{IsLedger}

returned-IsLedger :
    (seq : ℕ) (l : Line) (v : IsFresh seq l) (no_reply : Bool) (call : Call) (r : Bool × Line)
    → call.seq ≡ seq
    → Written seq l v no_reply r
    → Ends (λ s. IsLedger seq s.1) (returned no_reply call r)
unfolding returned
returned-IsLedger seq l v no_reply call _ e (unsent f) =
    do_error-IsLedger seq _ f write_failed call e
returned-IsLedger seq l v _ call _ e (unheeded f) = ends f.ledger
returned-IsLedger seq l v _ call (_, m) e (waiting w) =
    ends (subst (λ k. IsLedger seq (accept k m)) (sym e) w)

async_returned-IsLedger :
    (seq : ℕ) (l : Line) (v : IsFresh seq l) (call : Call) (r : Bool × Line)
    → call.seq ≡ seq
    → Written seq l v false r
    → Ends (λ s. IsLedger seq s.1) (async_returned call r)
unfolding async_returned
async_returned-IsLedger seq l v call _ e (unsent f) = ends f.ledger
async_returned-IsLedger seq l v call (_, m) e (waiting w) =
    ends (subst (λ k. IsLedger seq (accept k m)) (sym e) w)

module _ (now : ℕ) (wire : Wire) (seq : ℕ) (l : Line) (v : IsFresh seq l) (call : Call)
    (e : call.seq ≡ seq) (bytes : Bytes) where
  send_call-IsLedger :
      (no_reply : Bool) → Ends (λ s. IsLedger seq s.1) (send_call now wire no_reply bytes call l)
  unfolding send_call
  send_call-IsLedger no_reply =
      Ends-if wire.connected
        (λ there. elim (Option-cases (compress_block wire bytes)) [
          | inl bad ↦ rw (bad, send_call) (do_error-IsLedger seq l v compress_failed call e)
          | inr ((flag, packed), good) ↦
              rw (good, send_call)
                (Ends-bind (add_call-IsAdded seq l v now no_reply call e) λ m a.
                  Ends-bind (write_msg-Written seq l v wire no_reply flag packed call m e a)
                    (λ r w. returned-IsLedger seq l v no_reply call r e w))
        ])
        (λ lost. do_error-IsLedger seq l v no_connection call e)

  send_async-IsLedger : Ends (λ s. IsLedger seq s.1) (send_async now wire bytes call l)
  unfolding send_async
  send_async-IsLedger =
      Ends-if wire.connected
        (λ there. elim (Option-cases (compress_block wire bytes)) [
          | inl bad ↦ rw (bad, send_async) (ends v.ledger)
          | inr ((flag, packed), good) ↦
              rw (good, send_async)
                (Ends-bind (add_call-IsAdded seq l v now false call e) λ m a.
                  Ends-bind (write_msg-Written seq l v wire false flag packed call m e a)
                    (λ r w. async_returned-IsLedger seq l v call r e w))
        ])
        (λ lost. ends v.ledger)

-- A number that generateSeq gave out is fresh, as long as the numbers do not wrap around.
generate_seq-IsFresh :
    (top : ℕ) (l : Line)
    → IsLedger top l
    → top + 1 < 2 ^ 64
    → ((generate_seq l.call_set).0 ≡ top + 1)
      × IsFresh (top + 1) (record l { call_set = (generate_seq l.call_set).1 })
unfolding generate_seq find_pending
generate_seq-IsFresh top l v lt =
    let e : (l.call_set.start_seq + 1) % 2 ^ 64 ≡ top + 1 = ground (arith, v.start) in
    (
      e,
      record {
        ledger = record {
          deadlines = v.deadlines;
          consistent = record {
            timers = v.consistent.timers;
            same = v.consistent.same;
            named = v.consistent.named;
          };
          start = e;
          balance = v.balance;
          once = v.once;
          unused = λ k p. v.unused k (omega arith);
          unnumbered = v.unnumbered;
          free = v.free;
        };
        unused = v.unused (top + 1) (omega arith);
        not_zero = λ z. omega arith;
      },
    )

pub raw_go-IsLedger :
    (now : ℕ) (wire : Wire) (time_out : ℕ) (no_reply : Bool) (service_method : ℕ) (raw_args : Bytes)
    (top : ℕ) (l : Line)
    → IsLedger top l
    → top + 1 < 2 ^ 64
    → Ends
        (λ r. IsLedger (top + 1) r.1)
        (raw_go now wire time_out no_reply service_method raw_args l)
unfolding raw_go
raw_go-IsLedger now wire time_out no_reply service_method raw_args top l v lt =
    let (e, f) = generate_seq-IsFresh top l v lt in
    let seq = (generate_seq l.call_set).0 in
    let m = record l { call_set = (generate_seq l.call_set).1 } in
    let call = make_call seq time_out service_method false in
    elim (Option-cases (wire.marshal raw_args seq service_method no_reply)) [
      | inl bad ↦ rw (bad, raw_go) (do_error-IsLedger (top + 1) m f marshal_failed call e)
      | inr (bytes, good) ↦
          rw (good, raw_go) (send_call-IsLedger now wire (top + 1) m f call e bytes no_reply)
    ]

async_call_with-IsLedger :
    (now : ℕ) (wire : Wire) (time_out service_method : ℕ) (in_param : Bytes) (top : ℕ) (l : Line)
    → IsLedger top l
    → top + 1 < 2 ^ 64
    → Ends
        (λ r. IsLedger (top + 1) r.1)
        (async_call_with now wire time_out service_method in_param l)
unfolding async_call_with
async_call_with-IsLedger now wire time_out service_method in_param top l v lt =
    let (e, f) = generate_seq-IsFresh top l v lt in
    let seq = (generate_seq l.call_set).0 in
    let m = record l { call_set = (generate_seq l.call_set).1 } in
    elim (Option-cases (wire.marshal in_param seq service_method false)) [
      | inl bad ↦ rw (bad, async_call_with) (ends f.ledger)
      | inr (bytes, good) ↦
          rw (good, async_call_with)
            (send_async-IsLedger now wire (top + 1) m f (make_call seq time_out service_method true)
              e bytes)
    ]

-- Without marshalled arguments asyncCall takes no number.
pub async_call-IsLedger :
    (now : ℕ) (wire : Wire) (time_out service_method top : ℕ) (l : Line)
    → IsLedger top l
    → top + 1 < 2 ^ 64
    → Ends
        (λ r. IsLedger top r.1 ⊎ IsLedger (top + 1) r.1)
        (async_call now wire time_out service_method l)
unfolding async_call
async_call-IsLedger now wire time_out service_method top l v lt =
    elim (Option-cases wire.marshal_args) [
      | inl bad ↦ rw (bad, async_call) (ends (inl v))
      | inr (in_param, good) ↦
          rw (good, async_call)
            (Ends-map
              (async_call_with-IsLedger now wire time_out service_method in_param top l v lt)
              λ r w. inr w)
    ]
