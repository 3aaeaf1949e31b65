-- ===== src/Rpc/CallSet/Timeout.antt =====
-- checkRpcCallTimeout and cleanPending of rpc/callset.go: which calls they fail.

use origin.Prelude.{
  ℕ, ◌+◌, ◌/◌, ◌≤◌, ◌<◌, ◌≡◌, ◌≢◌, refl, nat_eq, ◌==◌, if◌then◌else◌, false, List, [], ◌∷◌, none,
  some, lookup, lookup-delete, Ends, ends, Ends-bind, Option-cases, inl, inr, ◌⊎◌, arith, ap,
}
use origin.Rpc.TimerHeap
use origin.Rpc.TimerHeap.{CallTimerHeap}
use origin.Rpc.TimerHeap.Deadlines.{Deadlines, erase}
use origin.Rpc.TimerHeap.Operations.{IsNone, Earliest, pop_first_lem, pop_timeout_lem}
use origin.Rpc.CallSet.{
  Call, CallSet, timed_out, disconnected, Delivery, rpc_response, done, make_call_fail, idle,
  failed, check_round, clean_round,
}
use origin.Rpc.CallSet.Pending.{IsConsistent, dropped, dropped-IsConsistent}

abbrev pub late : Call → Call
late call = record call { err = timed_out (call.time_out / 1_000_000_000) call.service_method }

abbrev pub cut_short : Call → Call
cut_short call = record call { err = disconnected }

abbrev pub answered : Delivery → Call
answered (rpc_response c) = c
answered (done c) = c

-- The deliveries that answer the call `k`, in the order in which they were sent.
abbrev pub answers_to : ℕ → List Delivery → List Delivery
answers_to k [] = []
answers_to k (x ∷ xs) = if (answered x).seq == k then x ∷ answers_to k xs else answers_to k xs

-- A round failed the call `key`, which had the least deadline.
pub record Failed (mark : Call → Call) (d : Deadlines) (cs : CallSet) (x : Delivery) (cs' : CallSet)
    : Type 0 where
  pub key : ℕ
  pub call : Call
  pub deadline : ℕ
  pub found : lookup key cs.pending ≡ some call
  pub sent : x ≡ make_call_fail (mark call)
  pub had : d key ≡ some deadline
  pub least : (k u : ℕ) → d k ≡ some u → deadline ≤ u
  pub after : IsConsistent (erase key d) cs'
  pub others : (k : ℕ) → lookup k cs'.pending ≡ (if key == k then none else lookup k cs.pending)
  pub fewer : TimerHeap.len cs'.call_timer_heap + 1 ≡ TimerHeap.len cs.call_timer_heap

module _ (d : Deadlines) (cs : CallSet) (v : IsConsistent d cs) where
  -- What a round makes of the call whose timer it took out.
  fail_lem :
      (mark : Call → Call) (k : ℕ) (heap : CallTimerHeap)
      → (p : Earliest d (TimerHeap.len cs.call_timer_heap) (k, heap))
      → (k ≢ 0)
        × ((c : Call) × (lookup k cs.pending ≡ some c)
            × ((f : Failed mark d cs (make_call_fail (mark c)) (dropped cs k heap)) × (f.deadline
                  ≡ p.deadline)))
  fail_lem mark k heap p = elim (Option-cases (lookup k cs.pending)) [
    | inl missing ↦ absurd (ground (arith, v.same k, p.had))
    | inr (c, found) ↦ (
      λ e. ground (arith, ap d e, p.had, v.timers.no_zero),
      (
        c,
        found,
        (
          record {
            key = k;
            call = c;
            deadline = p.deadline;
            found = found;
            sent = refl;
            had = p.had;
            least = p.least;
            after = dropped-IsConsistent d cs k v heap p.rest;
            others = λ j. lookup-delete k j cs.pending;
            fewer = p.fewer;
          },
          refl,
        ),
      ),
    )
  ]

  -- If the pending calls are those that have a timer (IsConsistent), one round of
  -- checkRpcCallTimeout fails a pending call with the least deadline, and only when
  -- that has come; it stops only if no deadline has come, and meets no timer without a call.
  pub check_round_lem :
      (now : ℕ)
      → Ends
          (λ r.
            ((r.0 ≡ idle) × (r.1 ≡ cs) × ((k u : ℕ) → d k ≡ some u → now < u))
            ⊎ ((x : Delivery) × (r.0 ≡ failed x)
                × ((f : Failed late d cs x r.1) × (f.deadline ≤ now))))
          (check_round now cs)
  unfolding check_round
  check_round_lem now =
      Ends-bind (pop_timeout_lem d cs.call_timer_heap v.timers now) λ (k, heap) result.
        elim result [
          | inl (z, same, ahead) ↦ rw (z, same) (ends (inl (refl, refl, ahead)))
          | inr (p, due) ↦
              let (nz, (c, found, (f, e))) = fail_lem late k heap p in
              let other : (k == 0) ≡ false = ground arith in
              rw (other, found) (ends (inr (make_call_fail (late c), refl, (f, rw e due))))
        ]

  pub clean_round_lem :
      Ends
        (λ r.
          ((r.0 ≡ idle) × (r.1 ≡ cs) × IsNone d)
          ⊎ ((x : Delivery) × (r.0 ≡ failed x) × Failed cut_short d cs x r.1))
        (clean_round cs)
  unfolding clean_round
  clean_round_lem = Ends-bind (pop_first_lem d cs.call_timer_heap v.timers) λ (k, heap) result.
      elim result [
        | inl (z, same, no_more) ↦ rw (z, same) (ends (inl (refl, refl, no_more)))
        | inr p ↦
            let (nz, (c, found, (f, e))) = fail_lem cut_short k heap p in
            let other : (k == 0) ≡ false = ground arith in
            rw (other, found) (ends (inr (make_call_fail (cut_short c), refl, f)))
      ]
