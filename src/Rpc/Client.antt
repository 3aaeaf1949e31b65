-- ===== src/Rpc/Client.antt =====
-- rpc/client.go, with the calls of it in rpc/rclient.go: a call is framed and written, waits in the
-- CallSet, and is answered by a response, a timeout, or the end of the connection. A node has one
-- CallSet for the clients of all others. Codecs, the compressor and the connection are arguments;
-- `seq` 0 in an answer says that the call was never under way. A call's channel has room for one
-- answer, and rawGo returns before anyone reads from it.
pub mod Ledger
pub mod Answers
pub mod Written
pub mod Calls
pub mod Together
pub mod Blocked
mod Tests
use origin.Prelude.{
  ℕ, ◌+◌, ◌%◌, nat_eq, ◌==◌, ltb, leb, ◌&&◌, if◌then◌else◌, Bool, true, false, List, [], ◌∷◌, ◌++◌,
  Option, none, some, is_some, length, Outcome, ok, panic, ◌>>=◌,
}
use origin.Rpc.CallSet
use origin.Rpc.CallSet.{
  Call, CallError, no_error, marshal_failed, no_connection, compress_failed, write_failed,
  bad_reply, remote_error, CallSet, Delivery, done, rpc_response, make_call_fail, idle, stale,
  failed, check_round, add_pending, remove_pending, clean_pending, generate_seq,
}

abbrev pub Bytes : Type 0
Bytes = List ℕ

-- What a request meets: the processor with its type, which marshals the arguments of asyncCall and
-- the request with its parameter, number, method and flag; the compressor; and the connection, where
-- `connected` says that there is a writer with IsConnected.
pub record Wire : Type 0 where
  pub processor_type : ℕ
  pub marshal_args : Option Bytes
  pub marshal : Bytes → ℕ → ℕ → Bool → Option Bytes
  pub compress : Bytes → Option Bytes
  pub compress_bytes_len : ℕ
  pub connected : Bool
  pub write : ℕ → Bytes → Bool

-- `uint8(processor.GetProcessorType()) | bCompress`
abbrev pub or_flag : ℕ → ℕ → ℕ
or_flag type flag = if ltb type 128 then type + flag else type

abbrev pub shorter : Bytes → Bytes → ℕ × Bytes
shorter buff bytes = if ltb (length buff) (length bytes) then (128, buff) else (0, bytes)

-- The flag and the bytes to send; nothing where CompressBlock fails.
unfoldable pub compress_block : Wire → Bytes → Option (ℕ × Bytes)
compress_block wire bytes =
    if ltb 0 wire.compress_bytes_len && leb wire.compress_bytes_len (length bytes)
    then elim (wire.compress bytes) [ none ↦ none | some buff ↦ some (shorter buff bytes) ]
    else some (0, bytes)

-- The CallSet, and what was sent to handlers and to the calls' channels. The rest notes what the
-- calls came to: those that were under way when Go or AsyncCall returned, those cancelled, how many
-- rawGo answered itself since they failed, and how many callers wait for ever to do so.
pub record Line : Type 0 where
  pub call_set : CallSet
  pub sent : List Delivery
  pub accepted : List ℕ
  pub cancelled : List ℕ
  pub refused : ℕ
  pub stuck : ℕ

abbrev pub init : Line
init = record {
  call_set = CallSet.init;
  sent = [];
  accepted = [];
  cancelled = [];
  refused = 0;
  stuck = 0;
}

-- The channel of the call `seq`, which is still on its way through rawGo, holds an answer.
abbrev pub is_full : ℕ → List Delivery → Bool
is_full seq [] = false
is_full seq (done c ∷ xs) = if c.seq == seq then true else is_full seq xs
is_full seq (rpc_response c ∷ xs) = is_full seq xs

-- How rawGo ends: it returns the call, or waits for ever to send to the call's channel.
pub data GoResult : Type 0 where
  gone : Call → GoResult
  blocked : GoResult

-- `call.Seq = 0; call.DoError(err)`
unfoldable pub do_error : CallError → Call → Line → Outcome (GoResult × Line)
do_error err call l =
    if is_full call.seq l.sent
    then ok (blocked, record l { stuck = l.stuck + 1 })
    else let call' = record call { seq = 0; err = err } in
      ok (gone call', record l { sent = l.sent ++ done call' ∷ []; refused = l.refused + 1 })

-- The end of rawGo and of asyncCall: WriteMsg, and RemovePending where it fails.
unfoldable pub write_msg : Wire → ℕ → Bytes → Call → Line → Outcome (Bool × Line)
write_msg wire flag bytes call l =
    if wire.write (or_flag wire.processor_type flag) bytes
    then ok (true, l)
    else (remove_pending l.call_set call.seq >>= λ (_, cs). ok (false, record l { call_set = cs }))

abbrev pub accept : ℕ → Line → Line
accept seq l = record l { accepted = l.accepted ++ seq ∷ [] }

unfoldable pub add_call : ℕ → Bool → Call → Line → Outcome Line
add_call now no_reply call l =
    if no_reply
    then ok l
    else (add_pending now l.call_set call >>= λ cs. ok (record l { call_set = cs }))

-- What WriteMsg left of the call in rawGo.
unfoldable pub returned : Bool → Call → Bool × Line → Outcome (GoResult × Line)
returned no_reply call (true, l) = ok (gone call, if no_reply then l else accept call.seq l)
returned no_reply call (false, l) = do_error write_failed call l

unfoldable pub send_call : ℕ → Wire → Bool → Bytes → Call → Line → Outcome (GoResult × Line)
send_call now wire no_reply bytes call l =
    if wire.connected
    then elim (compress_block wire bytes) [
      | none ↦ do_error compress_failed call l
      | some (flag, packed) ↦ add_call now no_reply call l >>= λ l'.
          write_msg wire flag packed call l' >>= returned no_reply call
    ]
    else do_error no_connection call l

abbrev pub make_call : ℕ → ℕ → ℕ → Bool → Call
make_call seq time_out service_method callback = record {
  seq = seq;
  time_out = time_out;
  service_method = service_method;
  callback = callback;
  err = no_error;
  reply = none;
}

-- Client.rawGo at the time `now`.
unfoldable pub raw_go : ℕ → Wire → ℕ → Bool → ℕ → Bytes → Line → Outcome (GoResult × Line)
raw_go now wire time_out no_reply service_method raw_args l =
    let (seq, cs) = generate_seq l.call_set in
    let l' = record l { call_set = cs } in
    let call = make_call seq time_out service_method false in
    elim (wire.marshal raw_args seq service_method no_reply) [
      | none ↦ do_error marshal_failed call l'
      | some bytes ↦ send_call now wire no_reply bytes call l'
    ]

-- The error that asyncCall returns, and AsyncCall hands to the callback; `none` is nil.
unfoldable pub async_returned : Call → Bool × Line → Outcome (Option CallError × Line)
async_returned call (true, l) = ok (none, accept call.seq l)
async_returned call (false, l) = ok (some write_failed, l)

unfoldable pub send_async : ℕ → Wire → Bytes → Call → Line → Outcome (Option CallError × Line)
send_async now wire bytes call l =
    if wire.connected
    then elim (compress_block wire bytes) [
      | none ↦ ok (some compress_failed, l)
      | some (flag, packed) ↦ add_call now false call l >>= λ l'.
          write_msg wire flag packed call l' >>= async_returned call
    ]
    else ok (some no_connection, l)

-- asyncCall, once the arguments are marshalled.
unfoldable pub async_call_with : ℕ → Wire → ℕ → ℕ → Bytes → Line → Outcome (Option CallError × Line)
async_call_with now wire time_out service_method in_param l =
    let (seq, cs) = generate_seq l.call_set in
    let l' = record l { call_set = cs } in
    elim (wire.marshal in_param seq service_method false) [
      | none ↦ ok (some marshal_failed, l')
      | some bytes ↦ send_async now wire bytes (make_call seq time_out service_method true) l'
    ]

-- Client.asyncCall
unfoldable pub async_call : ℕ → Wire → ℕ → ℕ → Line → Outcome (Option CallError × Line)
async_call now wire time_out service_method l = elim wire.marshal_args [
  | none ↦ ok (some marshal_failed, l)
  | some in_param ↦ async_call_with now wire time_out service_method in_param l
]

-- The head of a response: an empty `reply` is none, and `err` says whether an error came.
pub record RpcResponse : Type 0 where
  pub seq : ℕ
  pub reply : Bytes
  pub err : Bool

-- The processors by their type, of which there are `array_processor_len`. A reply stands for itself
-- by a number.
pub record Decoder : Type 0 where
  pub array_processor_len : ℕ
  pub uncompress : Bytes → Option Bytes
  pub unmarshal : ℕ → Bytes → Option RpcResponse
  pub unmarshal_reply : ℕ → Bytes → Option ℕ

-- Unmarshal of the body into Reply; one that fails is taken to leave Reply as it was.
abbrev pub read_into : Option ℕ → Call → Call
read_into none v = record v { err = bad_reply }
read_into (some value) v = record v { err = no_error; reply = some value }

abbrev pub read_reply : (Bytes → Option ℕ) → Bytes → Call → Call
read_reply unmarshal [] v = record v { err = no_error }
read_reply unmarshal (b ∷ bytes) v = read_into (unmarshal (b ∷ bytes)) v

unfoldable pub read_response : (Bytes → Option ℕ) → RpcResponse → Call → Call
read_response unmarshal response v =
    let v' = read_reply unmarshal response.reply v in
    if response.err then record v' { err = remote_error } else v'

-- The delivery goes the way of makeCallFail: to the handler, or to the call's channel.
unfoldable pub answer_call : (Bytes → Option ℕ) → RpcResponse → Option Call × CallSet → Line → Line
answer_call unmarshal response (none, cs) l = record l { call_set = cs }
answer_call unmarshal response (some v, cs) l = record l {
  call_set = cs;
  sent = l.sent ++ make_call_fail (read_response unmarshal response v) ∷ [];
}

unfoldable pub unpack : Decoder → ℕ → Bytes → Option Bytes
unpack decoder first bytes = if leb 128 first then decoder.uncompress bytes else some bytes

unfoldable pub process_head : Decoder → ℕ → Bytes → Line → Outcome Line
process_head decoder type bytes l = elim (decoder.unmarshal type bytes) [
  | none ↦ ok l
  | some response ↦ remove_pending l.call_set response.seq >>= λ r.
      ok (answer_call (decoder.unmarshal_reply type) response r l)
]

-- Client.processRpcResponse; `false` is an error, on which the connection ends.
unfoldable pub process_rpc_response : Decoder → Bytes → Line → Outcome (Bool × Line)
process_rpc_response decoder [] l = panic
process_rpc_response decoder (first ∷ bytes) l =
    if leb decoder.array_processor_len (first % 128)
    then ok (false, l)
    else elim (unpack decoder first bytes) [
      | none ↦ ok (false, l)
      | some data_ ↦ process_head decoder (first % 128) data_ l >>= λ l'. ok (true, l')
    ]

-- RpcCancel.CancelRpc
unfoldable pub cancel_rpc : ℕ → Line → Outcome Line
cancel_rpc seq l = remove_pending l.call_set seq >>= λ (v, cs). ok (record l {
  call_set = cs;
  cancelled = if is_some v then l.cancelled ++ seq ∷ [] else l.cancelled;
})

-- A round of checkRpcCallTimeout.
unfoldable pub check_timeout : ℕ → Line → Outcome Line
check_timeout now l = check_round now l.call_set >>= λ (round, cs). elim round [
  | idle ↦ ok (record l { call_set = cs })
  | stale ↦ ok (record l { call_set = cs })
  | failed x ↦ ok (record l { call_set = cs; sent = l.sent ++ x ∷ [] })
]

-- RClient.Close of the client for `node`.
unfoldable pub close : ℕ → Line → Outcome Line
close node l = clean_pending l.call_set >>= λ (failed_, cs).
    ok (record l { call_set = cs; sent = l.sent ++ failed_ })
