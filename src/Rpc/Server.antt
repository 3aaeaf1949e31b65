-- ===== src/Rpc/Server.antt =====
-- processRpcRequest of rpc/lserver.go, and WriteResponse of rpc/server.go, which answers. Codecs, the
-- compressor and the services' handlers are arguments. An effect is what the server sends itself or
-- hands to a service; with the request a service gets the function that answers it.
pub mod Requests
pub mod Expected
pub mod Responses
mod Tests
use origin.Prelude.{
  ℕ, ◌+◌, ◌%◌, nat_eq, ◌==◌, ltb, leb, if◌then◌else◌, Bool, true, false, List, [], ◌∷◌, ◌++◌,
  Option, none, some, GoString, split, Outcome, ok, panic,
}
use origin.Rpc.Client.{Bytes, Wire, or_flag, compress_block, RpcResponse}

pub record RpcRequest : Type 0 where
  pub seq : ℕ
  pub rpc_method_id : ℕ
  pub service_method : GoString
  pub no_reply : Bool
  pub in_param : Bytes

-- What Unmarshal makes of a head; `broken` is an error, with what it had read.
pub data Head : Type 0 where
  whole broken : RpcRequest → Head

-- `push_rpc_request` says whether the queue of the service took the request.
pub record Finder : Type 0 where
  pub array_processor_len : ℕ
  pub uncompress : Bytes → Option Bytes
  pub unmarshal : ℕ → Bytes → Head
  pub find_rpc_handler : GoString → Option ℕ
  pub unmarshal_in_param : ℕ → RpcRequest → Bool
  pub push_rpc_request : ℕ → RpcRequest → Bool

-- A response with an error, or a request for the service.
pub data Effect : Type 0 where
  respond : RpcRequest → Effect
  push : ℕ → RpcRequest → Effect

abbrev pub answer_error : RpcRequest → List Effect
answer_error r = if r.no_reply then [] else respond r ∷ []

unfoldable pub pushed : Finder → ℕ → RpcRequest → List Effect
pushed finder handler r =
    if finder.push_rpc_request handler r
    then push handler r ∷ []
    else if r.no_reply
    then respond r ∷ []
    else []

-- `strings.Split(s, ".")[0]`
abbrev pub first_part : List GoString → GoString
first_part [] = []
first_part (s ∷ rest) = s

unfoldable pub handled : Finder → RpcRequest → List Effect
handled finder r = elim (finder.find_rpc_handler (first_part (split 46 r.service_method))) [
  | none ↦ answer_error r
  | some handler ↦
      if finder.unmarshal_in_param handler r then pushed finder handler r else answer_error r
]

-- `false` is an error, on which the connection ends.
unfoldable pub parsed : Finder → Head → Bool × List Effect
parsed finder (whole r) = (true, handled finder r)
parsed finder (broken r) = (false, if ltb 0 r.seq then answer_error r else [])

unfoldable pub unpacked : Finder → ℕ → Bytes → Option Bytes
unpacked finder first bytes = if leb 128 first then finder.uncompress bytes else some bytes

unfoldable pub process_rpc_request : Finder → Bytes → Outcome (Bool × List Effect)
process_rpc_request finder [] = panic
process_rpc_request finder (first ∷ bytes) =
    if leb finder.array_processor_len (first % 128)
    then ok (false, [])
    else elim (unpacked finder first bytes) [
      | none ↦ ok (false, [])
      | some data_ ↦ ok (parsed finder (finder.unmarshal (first % 128) data_))
    ]

-- The codec of the connection: Marshal of a reply, and of a response's head with its body.
pub record Codec : Type 0 where
  pub marshal_reply : ℕ → Option Bytes
  pub marshal : RpcResponse → Option Bytes

-- The reply stands for itself by a number. If it cannot be marshalled, the error is that. No reply
-- has an empty body.
unfoldable pub make_response : Codec → ℕ → Option ℕ → Bool → RpcResponse
make_response codec seq none err = record { seq = seq; reply = []; err = err }
make_response codec seq (some reply) err = elim (codec.marshal_reply reply) [
  | none ↦ record { seq = seq; reply = []; err = true }
  | some body ↦ record { seq = seq; reply = body; err = err }
]

-- The first byte and the rest of the message that WriteResponse writes, if it does.
unfoldable pub write_response : Wire → Codec → ℕ → Option ℕ → Bool → Option (ℕ × Bytes)
write_response wire codec seq reply err = elim (codec.marshal (make_response codec seq reply err)) [
  | none ↦ none
  | some bytes ↦ elim (compress_block wire bytes) [
    | none ↦ none
    | some (flag, packed) ↦ some (or_flag wire.processor_type flag, packed)
  ]
]
