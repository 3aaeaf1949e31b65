-- ===== src/Rpc/CallSet/Start.antt =====
-- The operations of rpc/callset.go but generateSeq leave the last sequence number as it is.
use origin.Prelude.{
  ℕ, zero, suc, ◌≡◌, refl, nat_eq, ◌==◌, List, [], ◌∷◌, lookup, ok, ◌>>=◌, IfOk, on_ok, on_fuel,
  IfOk-bind, IfOk-then, IfOk-map, ◌+◌, Bool-cases, Option-cases, inl, inr, ◌∙◌,
}
use origin.Rpc.TimerHeap
use origin.Rpc.CallSet.{
  Call, CallSet, Delivery, Round, idle, stale, failed, add_pending, remove_pending_locked,
  remove_pending, check_round, clean_round, clean_loop, clean_pending,
}

module _ (cs : CallSet) where
  abbrev Stays : CallSet → Type 0
  Stays cs' = cs'.start_seq ≡ cs.start_seq

  pub start-add_pending : (now : ℕ) (call : Call) → IfOk Stays (add_pending now cs call)
  unfolding add_pending
  start-add_pending now call = elim (Bool-cases (call.seq == 0)) [
    | inl e ↦ rw e (on_ok refl)
    | inr e ↦ rw e (
        IfOk-bind (TimerHeap.add_timer now cs.call_timer_heap call.seq call.time_out)
          λ heap. on_ok refl)
  ]

  pub start-remove_pending : (seq : ℕ) → IfOk (λ r. Stays r.1) (remove_pending cs seq)
  unfolding remove_pending remove_pending_locked
  start-remove_pending seq = elim (Bool-cases (seq == 0)) [
    | inl e ↦ rw e (on_ok refl)
    | inr e ↦ rw e (elim (Option-cases (lookup seq cs.pending)) [
      | inl missing ↦ rw (missing, remove_pending_locked) (on_ok refl)
      | inr (v, found) ↦
          rw (found, remove_pending_locked)
            (IfOk-bind (TimerHeap.cancel cs.call_timer_heap seq) λ r. on_ok refl)
    ])
  ]

  pub start-check_round : (now : ℕ) → IfOk (λ r. Stays r.1) (check_round now cs)
  unfolding check_round
  start-check_round now = IfOk-bind (TimerHeap.pop_timeout now cs.call_timer_heap) λ (k, heap).
      elim (Bool-cases (k == 0)) [
        | inl e ↦ rw e (on_ok refl)
        | inr e ↦ rw e (elim (Option-cases (lookup k cs.pending)) [
          | inl missing ↦ rw missing (on_ok refl)
          | inr (v, found) ↦ rw found (on_ok refl)
        ])
      ]

  start-clean_round : IfOk (λ r. Stays r.1) (clean_round cs)
  unfolding clean_round
  start-clean_round = IfOk-bind (TimerHeap.pop_first cs.call_timer_heap) λ (k, heap).
      elim (Bool-cases (k == 0)) [
        | inl e ↦ rw e (on_ok refl)
        | inr e ↦ rw e (elim (Option-cases (lookup k cs.pending)) [
          | inl missing ↦ rw missing (on_ok refl)
          | inr (v, found) ↦ rw found (on_ok refl)
        ])
      ]

next_rounds :
    (fuel : ℕ) (cs cs' : CallSet) (round : Round)
    → Stays cs cs'
    → IfOk (λ r. Stays cs' r.1) (clean_loop fuel cs')
    → IfOk
        (λ (r : List Delivery × CallSet). Stays cs r.1)
        (elim round [
          | idle ↦ ok ([], cs')
          | stale ↦ clean_loop fuel cs'
          | failed x ↦ clean_loop fuel cs' >>= λ (sent, cs''). ok (x ∷ sent, cs'')
        ])
next_rounds fuel cs cs' idle e rest = on_ok e
next_rounds fuel cs cs' stale e rest = IfOk-map rest λ r f. f ∙ e
next_rounds fuel cs cs' (failed x) e rest = IfOk-then rest λ r f. on_ok (f ∙ e)

start-clean_loop : (fuel : ℕ) (cs : CallSet) → IfOk (λ r. Stays cs r.1) (clean_loop fuel cs)
unfolding clean_loop
start-clean_loop zero cs = on_fuel
start-clean_loop (suc fuel) cs =
    IfOk-then (start-clean_round cs)
      λ r e. next_rounds fuel cs r.1 r.0 e (start-clean_loop fuel r.1)

pub start-clean_pending : (cs : CallSet) → IfOk (λ r. Stays cs r.1) (clean_pending cs)
unfolding clean_pending
start-clean_pending cs = start-clean_loop (TimerHeap.len cs.call_timer_heap + 1) cs
