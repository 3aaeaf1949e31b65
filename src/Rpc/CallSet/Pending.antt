-- ===== src/Rpc/CallSet/Pending.antt =====
-- AddPending, RemovePending and FindPending of rpc/callset.go, and how the pending calls agree
-- with the timers.
use mathlib.Core.Path.{subst}
use origin.Prelude.{
  ℕ, ◌+◌, ◌≡◌, ◌≢◌, refl, nat_eq, ◌==◌, if◌then◌else◌, none, some, is_some, lookup, insert, delete,
  lookup-insert, lookup-delete, Ends, ends, Ends-bind, Bool-cases, Option-cases, inl, inr, arith,
  ◌∙◌, fun_ext,
}
use origin.Rpc.TimerHeap
use origin.Rpc.TimerHeap.Deadlines.{Deadlines, erase, put, IsTimers}
use origin.Rpc.TimerHeap.Operations.{add_timer_lem, cancel_lem}
use origin.Rpc.CallSet.{
  Call, CallSet, add_pending, remove_pending_locked, remove_pending, find_pending,
}

pub record IsConsistent (d : Deadlines) (cs : CallSet) : Type 0 where
  pub timers : IsTimers d cs.call_timer_heap
  pub same : (k : ℕ) → is_some (d k) ≡ is_some (lookup k cs.pending)
  pub named : (k : ℕ) (c : Call) → lookup k cs.pending ≡ some c → c.seq ≡ k

-- What a client sees: 0 is never pending.
pub find_pending_lem :
    (d : Deadlines) (cs : CallSet) (k : ℕ)
    → IsConsistent d cs
    → find_pending cs k ≡ lookup k cs.pending
unfolding find_pending
find_pending_lem d cs k v = ground (arith, v.same 0, v.timers.no_zero)

-- In a consistent state a new call with a sequence number other than 0 that is not in use is
-- pending afterwards, with the deadline
-- `now + time_out`; the other calls stay as they are.
pub add_pending_lem :
    (d : Deadlines) (cs : CallSet) (now : ℕ) (call : Call)
    → IsConsistent d cs
    → call.seq ≢ 0
    → find_pending cs call.seq ≡ none
    → Ends
        (λ cs'.
          IsConsistent (put call.seq (now + call.time_out) d) cs'
          × ((k : ℕ)
              → find_pending cs' k ≡ (if call.seq == k then some call else find_pending cs k)))
        (add_pending now cs call)
unfolding add_pending
add_pending_lem d cs now call v nz fresh = elim (Bool-cases (call.seq == 0)) [
  | inl e ↦ absurd (nz (ground arith))
  | inr e ↦
      let fresh' : d call.seq ≡ none =
        ground (arith, v.same call.seq, fresh, find_pending_lem d cs call.seq v) in
      rw e (
        Ends-bind (add_timer_lem d cs.call_timer_heap now call.seq call.time_out v.timers fresh' nz)
          λ heap (t, n).
            let after = record cs {
              pending = insert call.seq call cs.pending;
              call_timer_heap = heap;
            } in
            let v' : IsConsistent (put call.seq (now + call.time_out) d) after = record {
              timers = t;
              same = λ k. ground (arith, v.same k, lookup-insert call.seq k call cs.pending);
              named =
                  λ k c h. ground (arith, v.named k c, lookup-insert call.seq k call cs.pending);
            } in
            ends (
              v',
              λ k. ground (
                arith,
                find_pending_lem (put call.seq (now + call.time_out) d) after k v',
                find_pending_lem d cs k v,
                lookup-insert call.seq k call cs.pending,
              ),
            ))
]

-- The state without the call `k`, once its timer is out.
abbrev pub dropped : CallSet → ℕ → TimerHeap.CallTimerHeap → CallSet
dropped cs k heap = record cs { pending = delete k cs.pending; call_timer_heap = heap }

module _ (d : Deadlines) (cs : CallSet) (k : ℕ) (v : IsConsistent d cs) where
  pub dropped-IsConsistent :
      (heap : TimerHeap.CallTimerHeap)
      → IsTimers (erase k d) heap
      → IsConsistent (erase k d) (dropped cs k heap)
  dropped-IsConsistent heap t = record {
    timers = t;
    same = λ j. ground (arith, v.same j, lookup-delete k j cs.pending);
    named = λ j c h. ground (arith, v.named j c, lookup-delete k j cs.pending);
  }

  pub find_pending-dropped :
      (heap : TimerHeap.CallTimerHeap)
      → IsTimers (erase k d) heap
      → (j : ℕ) → find_pending (dropped cs k heap) j ≡ (if k == j then none else find_pending cs j)
  find_pending-dropped heap t j = ground (
    arith,
    find_pending_lem (erase k d) (dropped cs k heap) j (dropped-IsConsistent heap t),
    find_pending_lem d cs j v,
    lookup-delete k j cs.pending,
  )

  -- To forget a call that is not there changes nothing.
  pub forget_missing :
      lookup k cs.pending ≡ none
      → IsConsistent (erase k d) cs
        × ((j : ℕ) → find_pending cs j ≡ (if k == j then none else find_pending cs j))
  forget_missing e =
      let same : d ≡ erase k d = fun_ext (λ j. ground (arith, v.same j)) in
      (
        subst (λ f. IsConsistent f cs) same v,
        λ j. ground (arith, find_pending_lem d cs j v, find_pending_lem d cs k v),
      )

-- In a consistent state RemovePending hands out the call of the number if it is pending, and
-- nothing otherwise; afterwards that number is not pending, the others are as before, and the
-- state is consistent.
pub remove_pending_lem :
    (d : Deadlines) (cs : CallSet) (seq : ℕ)
    → IsConsistent d cs
    → Ends
        (λ r.
          (r.0 ≡ find_pending cs seq)
          × IsConsistent (erase seq d) r.1
          × ((k : ℕ) → find_pending r.1 k ≡ (if seq == k then none else find_pending cs k)))
        (remove_pending cs seq)
unfolding remove_pending
remove_pending_lem d cs seq v = elim (Bool-cases (seq == 0)) [
  | inl zero_seq ↦
      let missing : lookup seq cs.pending ≡ none = ground (arith, v.same seq, v.timers.no_zero) in
      let f = forget_missing d cs seq v missing in
      rw (zero_seq, find_pending_lem d cs seq v ∙ missing) (ends (refl, f.0, f.1))
  | inr real ↦
      rw (real, find_pending_lem d cs seq v)
        (elim (Option-cases (lookup seq cs.pending)) [
          | inl missing ↦
              let f = forget_missing d cs seq v missing in
              rw (missing, remove_pending_locked) (ends (refl, f.0, f.1))
          | inr (c, found) ↦
              rw (found, remove_pending_locked)
                (Ends-bind (cancel_lem d cs.call_timer_heap seq v.timers) λ (b, heap) (_, t). ends (
                  refl,
                  dropped-IsConsistent d cs seq v heap t,
                  find_pending-dropped d cs seq v heap t,
                ))
        ])
]
