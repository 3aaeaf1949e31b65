-- ===== src/Rpc/Tests.antt =====
-- Concrete runs of rpc/rpctimer.go and rpc/callset.go: one call in flight.
use origin.Prelude.{ℕ, ◌≡◌, refl, nat_eq, true, false, [], ◌∷◌, none, lookup, Ends, ◌⊎◌, arith}
use origin.Rpc.TimerHeap.{CallTimerHeap}
use origin.Rpc.TimerHeap.Deadlines.{Deadlines, put, IsTimers}
use origin.Rpc.CallSet.{
  Call, CallSet, no_error, check_rpc_call_timeout, clean_pending, find_pending,
}
use origin.Rpc.CallSet.Pending.{IsConsistent}
use origin.Rpc.CallSet.Timeout.{cut_short, answers_to}
use origin.Rpc.CallSet.Loops.{
  answer, Untouched, TimedOut, clean_pending_lem, check_rpc_call_timeout_lem,
}

abbrev pub call : Call
call = record {
  seq = 7;
  time_out = 50;
  service_method = 3;
  callback = true;
  err = no_error;
  reply = none;
}

abbrev other_call : Call
other_call = record {
  seq = 8;
  time_out = 5;
  service_method = 3;
  callback = false;
  err = no_error;
  reply = none;
}

abbrev one_timer : CallTimerHeap
one_timer = record {
  call_timer = record { seq_id = 7; fire_time = 60 } ∷ [];
  map_seq_index = (7, 0) ∷ [];
}

abbrev pub one_call : CallSet
one_call = record {
  start_seq = 7;
  pending = (7, call) ∷ [];
  max_check_call_rpc_count = 1000;
  call_timer_heap = one_timer;
}

abbrev pub deadlines : Deadlines
deadlines = put 7 60 (λ k. none)

one_timer-IsTimers : IsTimers deadlines one_timer
unfolding lookup
one_timer-IsTimers = record {
  holds = record {
    index = λ i h. let e : i ≡ 0 = omega arith in rw e refl;
    back = λ k i h. ground arith;
    times = λ i h. let e : i ≡ 0 = omega arith in rw e refl;
    keys = λ k. ground arith;
  };
  order = λ c p q. absurd (omega arith);
  no_zero = refl;
}

pub one_call-IsConsistent : IsConsistent deadlines one_call
unfolding lookup
one_call-IsConsistent = record {
  timers = one_timer-IsTimers;
  same = λ k. ground arith;
  named = λ k c h. ground arith;
}

not_pending : find_pending one_call 8 ≡ none
unfolding find_pending lookup
not_pending = refl

clean_pending_lem_example :
    Ends
      (λ r.
        ((k : ℕ) → answers_to k r.0 ≡ answer cut_short (lookup k one_call.pending))
        × ((k : ℕ) → lookup k r.1.pending ≡ none))
      (clean_pending one_call)
clean_pending_lem_example = clean_pending_lem deadlines one_call one_call-IsConsistent

check_rpc_call_timeout_lem_example :
    Ends
      (λ r.
        ((d' : Deadlines) × IsConsistent d' r.1)
        × ((k : ℕ) → Untouched one_call r k ⊎ TimedOut deadlines (λ n. 70) one_call r k))
      (check_rpc_call_timeout (λ n. 70) one_call)
check_rpc_call_timeout_lem_example =
    check_rpc_call_timeout_lem deadlines (λ n. 70) one_call one_call-IsConsistent
