-- ===== src/Rpc/CallSet.antt =====
-- rpc/callset.go: the calls that wait for an answer, and their timeouts. What the code sends (to
-- the handler's response channel, or to the call's own `done` channel) is a list of deliveries.
-- The lock makes each operation one step; log lines are left out.
pub mod Pending
pub mod Timeout
pub mod Loops
pub mod Start
use origin.Prelude.{
  ℕ, zero, suc, ◌+◌, ◌/◌, ◌%◌, ◌^◌, nat_eq, ◌==◌, if◌then◌else◌, Bool, true, false, List, [], ◌∷◌,
  ◌++◌, Option, none, some, lookup, insert, delete, Outcome, ok, out_of_fuel, ◌>>=◌,
}
use origin.Rpc.TimerHeap
use origin.Rpc.TimerHeap.{CallTimerHeap}

pub data CallError : Type 0 where
  no_error : CallError
  timed_out : ℕ → ℕ → CallError
  disconnected : CallError
  -- set in rpc/client.go
  marshal_failed no_connection compress_failed write_failed bad_reply remote_error : CallError

-- `callback` says whether the call has a valid callback; the method is a number that stands for its
-- name. `reply` is the value that was read into Reply, or none where Reply is as the caller made it.
pub record Call : Type 0 where
  pub seq : ℕ
  pub time_out : ℕ
  pub service_method : ℕ
  pub callback : Bool
  pub err : CallError
  pub reply : Option ℕ

pub data Delivery : Type 0 where
  rpc_response : Call → Delivery
  done : Call → Delivery

pub record CallSet : Type 0 where
  pub start_seq : ℕ
  pub pending : List (ℕ × Call)
  pub max_check_call_rpc_count : ℕ
  pub call_timer_heap : CallTimerHeap

-- DefaultMaxCheckCallRpcCount of rpc/client.go
abbrev pub default_max_check_call_rpc_count : ℕ
default_max_check_call_rpc_count = 1000

abbrev pub init : CallSet
init = record {
  start_seq = 0;
  pending = [];
  max_check_call_rpc_count = default_max_check_call_rpc_count;
  call_timer_heap = TimerHeap.init;
}

unfoldable pub make_call_fail : Call → Delivery
make_call_fail call = if call.callback then rpc_response call else done call

abbrev second : ℕ
second = 1_000_000_000

pub data Round : Type 0 where
  idle stale : Round
  failed : Delivery → Round

-- One round of the loop in checkRpcCallTimeout, under the lock. `idle` ends the loop; `stale` is
-- a timer whose call is not pending.
unfoldable pub check_round : ℕ → CallSet → Outcome (Round × CallSet)
check_round now cs = TimerHeap.pop_timeout now cs.call_timer_heap >>= λ (call_seq, heap).
    if call_seq == 0
    then ok (idle, record cs { call_timer_heap = heap })
    else elim (lookup call_seq cs.pending) [
      | none ↦ ok (stale, record cs { call_timer_heap = heap })
      | some call ↦
          let late = record call { err = timed_out (call.time_out / second) call.service_method } in
          ok (
            failed (make_call_fail late),
            record cs { pending = delete call_seq cs.pending; call_timer_heap = heap },
          )
    ]

-- The loop, with the time that each round reads and no other operation between the rounds.
unfoldable pub check_timeouts : ℕ → (ℕ → ℕ) → CallSet → Outcome (List Delivery × CallSet)
check_timeouts zero clock cs = ok ([], cs)
check_timeouts (suc count) clock cs = check_round (clock count) cs >>= λ (round, cs'). elim round [
  | idle ↦ ok ([], cs')
  | stale ↦ check_timeouts count clock cs'
  | failed x ↦ check_timeouts count clock cs' >>= λ (sent, cs''). ok (x ∷ sent, cs'')
]

unfoldable pub check_rpc_call_timeout : (ℕ → ℕ) → CallSet → Outcome (List Delivery × CallSet)
check_rpc_call_timeout clock cs = check_timeouts cs.max_check_call_rpc_count clock cs

unfoldable pub add_pending : ℕ → CallSet → Call → Outcome CallSet
add_pending now cs call =
    if call.seq == 0
    then ok cs
    else (TimerHeap.add_timer now cs.call_timer_heap call.seq call.time_out >>= λ heap.
        ok (record cs { pending = insert call.seq call cs.pending; call_timer_heap = heap }))

unfoldable pub remove_pending_locked : CallSet → ℕ → Outcome (Option Call × CallSet)
remove_pending_locked cs seq = elim (lookup seq cs.pending) [
  | none ↦ ok (none, cs)
  | some v ↦ TimerHeap.cancel cs.call_timer_heap seq >>= λ (_, heap).
      ok (some v, record cs { pending = delete seq cs.pending; call_timer_heap = heap })
]

unfoldable pub remove_pending : CallSet → ℕ → Outcome (Option Call × CallSet)
unfolding remove_pending_locked
remove_pending cs seq = if seq == 0 then ok (none, cs) else remove_pending_locked cs seq

unfoldable pub find_pending : CallSet → ℕ → Option Call
find_pending cs seq = if seq == 0 then none else lookup seq cs.pending

-- One round of the loop in cleanPending.
unfoldable pub clean_round : CallSet → Outcome (Round × CallSet)
clean_round cs = TimerHeap.pop_first cs.call_timer_heap >>= λ (call_seq, heap).
    if call_seq == 0
    then ok (idle, record cs { call_timer_heap = heap })
    else elim (lookup call_seq cs.pending) [
      | none ↦ ok (stale, record cs { call_timer_heap = heap })
      | some call ↦ ok (
        failed (make_call_fail (record call { err = disconnected })),
        record cs { pending = delete call_seq cs.pending; call_timer_heap = heap },
      )
    ]

-- The loop of cleanPending; `fuel` bounds its rounds.
unfoldable pub clean_loop : ℕ → CallSet → Outcome (List Delivery × CallSet)
clean_loop zero cs = out_of_fuel
clean_loop (suc fuel) cs = clean_round cs >>= λ (round, cs'). elim round [
  | idle ↦ ok ([], cs')
  | stale ↦ clean_loop fuel cs'
  | failed x ↦ clean_loop fuel cs' >>= λ (sent, cs''). ok (x ∷ sent, cs'')
]

-- The loop takes out one timer in a round, and one more round ends it.
unfoldable pub clean_pending : CallSet → Outcome (List Delivery × CallSet)
clean_pending cs = clean_loop (TimerHeap.len cs.call_timer_heap + 1) cs

-- atomic.AddUint64
unfoldable pub generate_seq : CallSet → ℕ × CallSet
generate_seq cs = let seq = (cs.start_seq + 1) % 2 ^ 64 in (seq, record cs { start_seq = seq })
