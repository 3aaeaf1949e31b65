-- ===== src/Rpc/Client/Tests.antt =====
-- Tests of rpc/client.go.
use origin.Prelude.{
  ℕ, ◌+◌, ◌^◌, ◌<◌, ◌≡◌, refl, Bool, true, false, List, [], ◌∷◌, ◌++◌, Option, none, some, arith,
  Outcome, ok, ◌>>=◌, Ends, lookup,
}
use origin.Rpc.CallSet.{Call, no_error, find_pending, Delivery}
use origin.Rpc.Tests.{one_call, deadlines, one_call-IsConsistent}
use origin.Rpc.Client.{
  Wire, Bytes, Line, Decoder, RpcResponse, init, make_call, add_call, close, write_msg, returned,
}
use origin.Rpc.Client.Ledger.{seqs}
use origin.Rpc.Client.Together.{
  Op, go, async, response, cancel, time_out, close_client, serve_all, IsAccounted,
  serve_all-IsAccounted,
}
use origin.Rpc.Client.Blocked.{IsBlocked, close_fills_channel}

abbrev wire : Bool → Wire
wire writes = record {
  processor_type = 1;
  marshal_args = some (9 ∷ []);
  marshal = λ in_param seq method no_reply. some (seq ∷ method ∷ in_param);
  compress = λ bytes. none;
  compress_bytes_len = 0;
  connected = true;
  write = λ flag bytes. writes;
}

-- The first byte of a message is the number of the call.
abbrev decoder : Decoder
decoder = record {
  array_processor_len = 2;
  uncompress = λ bytes. none;
  unmarshal = λ type bytes. elim bytes [
    | [] ↦ none
    | seq ∷ rest ↦ some (record { seq = seq; reply = rest; err = false })
  ];
  unmarshal_reply = λ type bytes. some 5;
}

-- Two calls, of which the first is answered and the second cut short; and one that is not written.
abbrev ops : List Op
ops =
    go 10 (wire true) 5 false 3 (6 ∷ [])
    ∷ async 11 (wire true) 5 4
    ∷ go 12 (wire false) 5 false 3 []
    ∷ response decoder 1 (1 ∷ 4 ∷ [])
    ∷ time_out 13
    ∷ cancel 9
    ∷ close_client 2
    ∷ []

serve_all-IsAccounted_example : Ends IsAccounted (serve_all ops init)
serve_all-IsAccounted_example = serve_all-IsAccounted ops (omega arith)

abbrev line : Line
line = record init { call_set = one_call }

close_fills_channel_example : Ends (IsBlocked (make_call 8 5 3 false) line) (
    add_call 10 false (make_call 8 5 3 false) line >>= close 2 >>= λ m.
    write_msg (wire false) 0 (1 ∷ []) (make_call 8 5 3 false) m
    >>= returned false (make_call 8 5 3 false))
unfolding find_pending lookup
close_fills_channel_example =
    close_fills_channel 10 2 0 (wire false) (1 ∷ []) (make_call 8 5 3 false) line deadlines
      one_call-IsConsistent (omega arith) refl refl refl

answers_test : (serve_all ops init >>= λ l. ok (seqs l.sent)) ≡ ok (0 ∷ 1 ∷ 2 ∷ [])
unfolding serve_all origin.Rpc.Client.Together.serve origin.Rpc.Client.raw_go
    origin.Rpc.Client.send_call origin.Rpc.Client.compress_block origin.Rpc.Client.add_call
    origin.Rpc.Client.write_msg origin.Rpc.Client.returned origin.Rpc.Client.async_call
    origin.Rpc.Client.async_call_with origin.Rpc.Client.async_returned origin.Rpc.Client.send_async
    origin.Rpc.Client.do_error origin.Rpc.Client.process_rpc_response origin.Rpc.Client.process_head
    origin.Rpc.Client.unpack origin.Rpc.Client.answer_call origin.Rpc.Client.read_response
    origin.Rpc.Client.cancel_rpc origin.Rpc.Client.check_timeout origin.Rpc.Client.close
    origin.Rpc.CallSet.add_pending origin.Rpc.CallSet.generate_seq origin.Rpc.CallSet.remove_pending
    origin.Rpc.CallSet.remove_pending_locked origin.Rpc.CallSet.check_round
    origin.Rpc.CallSet.clean_round origin.Rpc.CallSet.clean_loop origin.Rpc.CallSet.clean_pending
    origin.Rpc.CallSet.make_call_fail origin.Rpc.TimerHeap.add_timer origin.Rpc.TimerHeap.append
    origin.Rpc.TimerHeap.less origin.Rpc.TimerHeap.swap origin.Rpc.TimerHeap.remove_last
    origin.Rpc.TimerHeap.cancel origin.Rpc.TimerHeap.pop_timeout origin.Rpc.TimerHeap.pop_first
    origin.Heap.push origin.Heap.up origin.Heap.down origin.Heap.pop origin.Heap.remove
    origin.Heap.settle lookup origin.Prelude.insert origin.Prelude.delete
answers_test = refl
