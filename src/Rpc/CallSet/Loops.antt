-- ===== src/Rpc/CallSet/Loops.antt =====
-- The loops of checkRpcCallTimeout and cleanPending in rpc/callset.go, and the answers they send.
use origin.Prelude.{
  ℕ, zero, suc, ◌+◌, ◌≤◌, ◌<◌, ◌≡◌, refl, nat_eq, ◌==◌, List, [], ◌∷◌, Option, none, some, lookup,
  Ends, ends, Ends-bind, Ends-map, Bool-cases, inl, inr, ◌⊎◌, arith, ap, ◌∙◌, sym,
}
use origin.Rpc.TimerHeap
use origin.Rpc.TimerHeap.Deadlines.{Deadlines, erase}
use origin.Rpc.CallSet.{
  Call, CallSet, Delivery, make_call_fail, check_timeouts, check_rpc_call_timeout, clean_loop,
  clean_pending,
}
use origin.Rpc.CallSet.Pending.{IsConsistent}
use origin.Rpc.CallSet.Timeout.{
  late, cut_short, answered, answers_to, Failed, check_round_lem, clean_round_lem,
}

-- The answer to a call that is pending, and none to one that is not.
abbrev pub answer : (Call → Call) → Option Call → List Delivery
answer mark none = []
answer mark (some c) = make_call_fail (mark c) ∷ []

module _ (mark : Call → Call) (d : Deadlines) (cs cs' : CallSet) (x : Delivery)
    (v : IsConsistent d cs) (f : Failed mark d cs x cs')
    (keeps_seq : (c : Call) → (mark c).seq ≡ c.seq) where
  answered_seq : (answered x).seq ≡ f.key
  unfolding make_call_fail
  answered_seq = ground (arith, f.sent, keeps_seq f.call, v.named f.key f.call f.found)

  -- The answer of a round joins those of the rounds behind it.
  answers_to-cons :
      (k : ℕ) (sent : List Delivery)
      → answers_to k sent ≡ answer mark (lookup k cs'.pending)
      → answers_to k (x ∷ sent) ≡ answer mark (lookup k cs.pending)
  answers_to-cons k sent e = elim (Bool-cases (f.key == k)) [
    | inl this ↦
        let same : f.key ≡ k = ground arith in
        rw
          (
            answered_seq,
            this,
            e,
            f.others k,
            this,
            sym (ap (λ j. lookup j cs.pending) same) ∙ f.found,
          )
          (ap (λ y. y ∷ []) f.sent)
    | inr other ↦ rw (answered_seq, other, e, f.others k, other) refl
  ]

abbrev pub Cleaned : CallSet → List Delivery × CallSet → Type 0
Cleaned cs r =
    ((k : ℕ) → answers_to k r.0 ≡ answer cut_short (lookup k cs.pending))
    × ((k : ℕ) → lookup k r.1.pending ≡ none)
    × ((e : Deadlines) × IsConsistent e r.1)

clean_loop_lem :
    (fuel : ℕ) (d : Deadlines) (cs : CallSet)
    → IsConsistent d cs
    → TimerHeap.len cs.call_timer_heap < fuel
    → Ends (Cleaned cs) (clean_loop fuel cs)
unfolding clean_loop
clean_loop_lem zero d cs v lt = absurd (omega arith)
clean_loop_lem (suc fuel) d cs v lt = Ends-bind (clean_round_lem d cs v) λ (round, cs') result.
    elim result [
      | inl (stop, same, no_more) ↦
          let missing = λ (k : ℕ). none_pending k no_more in
          rw (stop, same) (ends (λ k. sym (ap (answer cut_short) (missing k)), missing, (d, v)))
      | inr (x, failure, f) ↦ rw failure (
          Ends-bind (clean_loop_lem fuel (erase f.key d) cs' f.after (omega (arith, f.fewer)))
            λ r (each, empty, kept). ends (
              λ k. answers_to-cons cut_short d cs cs' x v f (λ c. refl) k r.0 (each k),
              empty,
              kept,
            ))
    ]
  where
    none_pending : (k : ℕ) → ((j : ℕ) → d j ≡ none) → lookup k cs.pending ≡ none
    none_pending k h = ground (arith, h k, v.same k)

-- If the pending calls are those that have a timer (IsConsistent), cleanPending ends; it answers
-- every pending call exactly once, with the error that the node is
-- disconnected, answers nothing else, and leaves no call pending.
pub clean_pending_lem :
    (d : Deadlines) (cs : CallSet)
    → IsConsistent d cs
    → Ends
        (λ r.
          ((k : ℕ) → answers_to k r.0 ≡ answer cut_short (lookup k cs.pending))
          × ((k : ℕ) → lookup k r.1.pending ≡ none))
        (clean_pending cs)
unfolding clean_pending
clean_pending_lem d cs v =
    Ends-map (clean_loop_lem (TimerHeap.len cs.call_timer_heap + 1) d cs v (omega arith))
      λ r (each, empty, _). (each, empty)

pub clean_pending-Cleaned :
    (d : Deadlines) (cs : CallSet) → IsConsistent d cs → Ends (Cleaned cs) (clean_pending cs)
unfolding clean_pending
clean_pending-Cleaned d cs v =
    clean_loop_lem (TimerHeap.len cs.call_timer_heap + 1) d cs v (omega arith)

-- The call `k` was pending with a deadline that had come, was answered once, and is gone.
pub record TimedOut (d : Deadlines) (clock : ℕ → ℕ) (cs : CallSet) (r : List Delivery × CallSet)
    (k : ℕ) : Type 0 where
  pub call : Call
  pub deadline : ℕ
  pub reading : ℕ
  pub found : lookup k cs.pending ≡ some call
  pub had : d k ≡ some deadline
  pub due : deadline ≤ clock reading
  pub answer_sent : answers_to k r.0 ≡ make_call_fail (late call) ∷ []
  pub gone : lookup k r.1.pending ≡ none

-- The call `k` was left as it was, and not answered.
pub record Untouched (cs : CallSet) (r : List Delivery × CallSet) (k : ℕ) : Type 0 where
  pub silent : answers_to k r.0 ≡ []
  pub kept : lookup k r.1.pending ≡ lookup k cs.pending

abbrev Checked : Deadlines → (ℕ → ℕ) → CallSet → List Delivery × CallSet → Type 0
Checked d clock cs r =
    ((d' : Deadlines) × IsConsistent d' r.1)
    × ((k : ℕ) → Untouched cs r k ⊎ TimedOut d clock cs r k)

module _ (d : Deadlines) (clock : ℕ → ℕ) (n : ℕ) (cs cs' : CallSet) (x : Delivery)
    (v : IsConsistent d cs) (f : Failed late d cs x cs') (due : f.deadline ≤ clock n) where
  Checked-cons :
      (r : List Delivery × CallSet)
      → Checked (erase f.key d) clock cs' r
      → (k : ℕ) → Untouched cs (x ∷ r.0, r.1) k ⊎ TimedOut d clock cs (x ∷ r.0, r.1) k
  Checked-cons r c k =
      let seq = answered_seq late d cs cs' x v f (λ c'. refl) in
      elim (Bool-cases (f.key == k)) [
        | inl this ↦
            let same : f.key ≡ k = ground arith in
            let gone : lookup k cs'.pending ≡ none = ground (arith, f.others k) in
            elim (c.1 k) [
              | inl u ↦ inr (record {
                call = f.call;
                deadline = f.deadline;
                reading = n;
                found = sym (ap (λ j. lookup j cs.pending) same) ∙ f.found;
                had = sym (ap d same) ∙ f.had;
                due = due;
                answer_sent = rw (seq, this, u.silent) (ap (λ y. y ∷ []) f.sent);
                gone = u.kept ∙ gone;
              })
              | inr t ↦ absurd (ground (arith, t.found, gone))
            ]
        | inr other ↦
            let kept : lookup k cs'.pending ≡ lookup k cs.pending = ground (arith, f.others k) in
            elim (c.1 k) [
              | inl u ↦ inl (record { silent = rw (seq, other) u.silent; kept = u.kept ∙ kept })
              | inr t ↦ inr (record {
                call = t.call;
                deadline = t.deadline;
                reading = t.reading;
                found = sym kept ∙ t.found;
                had = ground (arith, t.had);
                due = t.due;
                answer_sent = rw (seq, other) t.answer_sent;
                gone = t.gone;
              })
            ]
      ]

check_timeouts_lem :
    (count : ℕ) (d : Deadlines) (clock : ℕ → ℕ) (cs : CallSet)
    → IsConsistent d cs
    → Ends (Checked d clock cs) (check_timeouts count clock cs)
unfolding check_timeouts
check_timeouts_lem zero d clock cs v =
    ends ((d, v), λ k. inl (record { silent = refl; kept = refl }))
check_timeouts_lem (suc count) d clock cs v =
    Ends-bind (check_round_lem d cs v (clock count)) λ (round, cs') result. elim result [
      | inl (stop, same, ahead) ↦
          rw (stop, same) (ends ((d, v), λ k. inl (record { silent = refl; kept = refl })))
      | inr (x, failure, (f, due)) ↦ rw failure (
          Ends-bind (check_timeouts_lem count (erase f.key d) clock cs' f.after)
            λ r c. ends (c.0, Checked-cons d clock count cs cs' x v f due r c))
    ]

-- If the pending calls are those that have a timer (IsConsistent), a pass of checkRpcCallTimeout
-- ends in such a state again; of every call it either sends no
-- answer and leaves it as it was, or it sends exactly one, with the error that the call timed out,
-- and forgets the call, and then the deadline of the call had come at a reading of the clock.
pub check_rpc_call_timeout_lem :
    (d : Deadlines) (clock : ℕ → ℕ) (cs : CallSet)
    → IsConsistent d cs
    → Ends
        (λ r.
          ((d' : Deadlines) × IsConsistent d' r.1)
          × ((k : ℕ) → Untouched cs r k ⊎ TimedOut d clock cs r k))
        (check_rpc_call_timeout clock cs)
unfolding check_rpc_call_timeout
check_rpc_call_timeout_lem d clock cs v =
    check_timeouts_lem cs.max_check_call_rpc_count d clock cs v
