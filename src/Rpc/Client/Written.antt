-- ===== src/Rpc/Client/Written.antt =====
-- AddPending and WriteMsg in rawGo and asyncCall of rpc/client.go, on the ledger of calls.

use origin.Prelude.{
  ℕ, ◌+◌, ◌≡◌, ◌≢◌, refl, nat_eq, ◌==◌, ◌&&◌, not, if◌then◌else◌, Bool, true, false, [], ◌∷◌,
  Option, none, some, arith, count, count-append, Ends, ends, Ends-bind, Ends-IfOk, Bool-cases, inl,
  inr, sym, ◌∙◌, ap,
}
use origin.Rpc.TimerHeap.Deadlines.{Deadlines, erase, put}
use origin.Rpc.CallSet.{Call, CallError, CallSet, done, find_pending}
use origin.Rpc.CallSet.Pending.{IsConsistent, add_pending_lem, remove_pending_lem}
use origin.Rpc.CallSet.Start.{start-add_pending, start-remove_pending}
use origin.Rpc.Client.{Wire, Bytes, Line, is_full, do_error, write_msg, or_flag, accept, add_call}
use origin.Rpc.Client.Ledger.{seqs, seqs-append, is_full-unanswered, IsLedger}

-- The last number that was given out is not in use yet.
pub record IsFresh (seq : ℕ) (l : Line) : Type 0 where
  pub ledger : IsLedger seq l
  pub unused : count seq l.accepted ≡ 0
  pub not_zero : seq ≢ 0

module _ (seq : ℕ) (l : Line) (v : IsFresh seq l) where
  not_pending : find_pending l.call_set seq ≡ none
  not_pending = ground (arith, v.ledger.balance seq v.not_zero, v.unused)

  pub do_error-IsLedger :
      (err : CallError) (call : Call)
      → call.seq ≡ seq
      → Ends (λ r. IsLedger seq r.1) (do_error err call l)
  unfolding do_error
  do_error-IsLedger err call e =
      let x = done (record call { seq = 0; err = err }) in
      let room : is_full call.seq l.sent ≡ false = is_full-unanswered call.seq l.sent (
        ap (λ k. count k (seqs l.sent)) e
        ∙ ground (arith, v.ledger.balance seq v.not_zero, v.unused)) in
      rw room (
        ends (record {
          deadlines = v.ledger.deadlines;
          consistent = v.ledger.consistent;
          start = v.ledger.start;
          balance = λ k nz. ground (
            arith,
            v.ledger.balance k nz,
            ap (count k) (seqs-append l.sent (x ∷ [])),
            count-append k (seqs l.sent) (seqs (x ∷ [])),
          );
          once = v.ledger.once;
          unused = v.ledger.unused;
          unnumbered = ground (
            arith,
            v.ledger.unnumbered,
            ap (count 0) (seqs-append l.sent (x ∷ [])),
            count-append 0 (seqs l.sent) (seqs (x ∷ [])),
          );
          free = v.ledger.free;
        }))

  -- The call is pending, if it waits for a reply, and the rest is as it was.
  pub record IsAdded (no_reply : Bool) (call : Call) (m : Line) : Type 0 where
    deadlines : Deadlines
    consistent : IsConsistent deadlines m.call_set
    start : m.call_set.start_seq ≡ seq
    sent : m.sent ≡ l.sent
    accepted : m.accepted ≡ l.accepted
    cancelled : m.cancelled ≡ l.cancelled
    refused : m.refused ≡ l.refused
    stuck : m.stuck ≡ l.stuck
    found :
        (k : ℕ)
        → find_pending m.call_set k
          ≡ (if not no_reply && (seq == k) then some call else find_pending l.call_set k)

  pub add_call-IsAdded :
      (now : ℕ) (no_reply : Bool) (call : Call)
      → call.seq ≡ seq
      → Ends (IsAdded no_reply call) (add_call now no_reply call l)
  unfolding add_call
  add_call-IsAdded now true call e = ends (record {
    deadlines = v.ledger.deadlines;
    consistent = v.ledger.consistent;
    start = v.ledger.start;
    sent = refl;
    accepted = refl;
    cancelled = refl;
    refused = refl;
    stuck = refl;
    found = λ k. refl;
  })
  add_call-IsAdded now false call e =
      Ends-bind
        (Ends-IfOk
          (add_pending_lem v.ledger.deadlines l.call_set now call v.ledger.consistent
            (λ z. v.not_zero (sym e ∙ z)) (ap (find_pending l.call_set) e ∙ not_pending))
          (start-add_pending l.call_set now call))
        λ cs ((c, found), s). ends (record {
          deadlines = put call.seq (now + call.time_out) v.ledger.deadlines;
          consistent = c;
          start = s ∙ v.ledger.start;
          sent = refl;
          accepted = refl;
          cancelled = refl;
          refused = refl;
          stuck = refl;
          found = λ k. ground (arith, found k, e);
        })

  -- What the ledger is once the message was written or not.
  pub data Written : Bool → Bool × Line → Type 0 where
    unsent : {no_reply : Bool} {m : Line} → IsFresh seq m → Written no_reply (false, m)
    unheeded : {m : Line} → IsFresh seq m → Written true (true, m)
    waiting : {m : Line} → IsLedger seq (accept seq m) → Written false (true, m)

  added_ok :
      (no_reply : Bool) (call : Call) (m : Line)
      → IsAdded no_reply call m
      → Written no_reply (true, m)
  added_ok true call m a = unheeded (record {
    ledger = record {
      deadlines = a.deadlines;
      consistent = a.consistent;
      start = a.start;
      balance =
          λ k nz. ground (arith, a.found k, a.sent, a.accepted, a.cancelled, v.ledger.balance k nz);
      once = λ k. ground (arith, a.accepted, v.ledger.once k);
      unused = λ k p. ground (arith, a.accepted, v.ledger.unused k p);
      unnumbered = ap (λ s. count 0 (seqs s)) a.sent ∙ v.ledger.unnumbered ∙ sym a.refused;
      free = a.stuck ∙ v.ledger.free;
    };
    unused = ground (arith, a.accepted, v.unused);
    not_zero = v.not_zero;
  })
  added_ok false call m a = waiting (record {
    deadlines = a.deadlines;
    consistent = a.consistent;
    start = a.start;
    balance = λ k nz. ground (
      arith,
      a.found k,
      a.sent,
      a.accepted,
      a.cancelled,
      v.ledger.balance k nz,
      not_pending,
      count-append k m.accepted (seq ∷ []),
    );
    once = λ k.
        ground (arith, a.accepted, v.ledger.once k, v.unused, count-append k m.accepted (seq ∷ []));
    unused = λ k p.
        ground (arith, a.accepted, v.ledger.unused k p, count-append k m.accepted (seq ∷ []));
    unnumbered = ap (λ s. count 0 (seqs s)) a.sent ∙ v.ledger.unnumbered ∙ sym a.refused;
    free = a.stuck ∙ v.ledger.free;
  })

  removed_again :
      (no_reply : Bool) (call : Call) (m : Line) (r : Option Call × CallSet)
      → call.seq ≡ seq
      → (a : IsAdded no_reply call m) → IsConsistent (erase call.seq a.deadlines) r.1
      → ((k : ℕ) → find_pending r.1 k ≡ (if call.seq == k then none else find_pending m.call_set k))
      → r.1.start_seq ≡ m.call_set.start_seq
      → IsFresh seq (record m { call_set = r.1 })
  removed_again no_reply call m r e a c after s = record {
    ledger = record {
      deadlines = erase call.seq a.deadlines;
      consistent = c;
      start = s ∙ a.start;
      balance = λ k nz. ground (
        arith,
        e,
        after k,
        a.found k,
        a.sent,
        a.accepted,
        a.cancelled,
        not_pending,
        v.ledger.balance k nz,
      );
      once = λ k. ground (arith, a.accepted, v.ledger.once k);
      unused = λ k p. ground (arith, a.accepted, v.ledger.unused k p);
      unnumbered = ap (λ s. count 0 (seqs s)) a.sent ∙ v.ledger.unnumbered ∙ sym a.refused;
      free = a.stuck ∙ v.ledger.free;
    };
    unused = ground (arith, a.accepted, v.unused);
    not_zero = v.not_zero;
  }

  pub write_msg-Written :
      (wire : Wire) (no_reply : Bool) (flag : ℕ) (bytes : Bytes) (call : Call) (m : Line)
      → call.seq ≡ seq
      → IsAdded no_reply call m
      → Ends (Written no_reply) (write_msg wire flag bytes call m)
  unfolding write_msg
  write_msg-Written wire no_reply flag bytes call m e a =
      elim (Bool-cases (wire.write (or_flag wire.processor_type flag) bytes)) [
        | inl written ↦ rw written (ends (added_ok no_reply call m a))
        | inr broken ↦ rw broken (
            Ends-bind
              (Ends-IfOk (remove_pending_lem a.deadlines m.call_set call.seq a.consistent)
                (start-remove_pending m.call_set call.seq))
              λ (p, cs) ((_, c, after), s).
                ends (unsent (removed_again no_reply call m (p, cs) e a c after s)))
      ]
