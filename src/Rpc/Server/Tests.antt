-- ===== src/Rpc/Server/Tests.antt =====
-- Tests of rpc/lserver.go and rpc/server.go.
use mathlib.Core.Path.{subst}
use origin.Prelude.{
  ℕ, ◌≡◌, refl, if◌then◌else◌, Bool, true, false, [], ◌∷◌, Option, none, some, arith, nat_eq,
  bytes_eq, ◌==◌, ok, Ends, lookup, ◌⊎◌, ◌↔◌, inl, inr, Bool-cases, ap, sym,
}
use origin.Rpc.CallSet.{find_pending}
use origin.Rpc.Tests.{call, one_call, deadlines, one_call-IsConsistent}
use origin.Rpc.Client.{
  Bytes, Wire, Decoder, Line, RpcResponse, init, process_rpc_response, compress_block,
}
use origin.Rpc.Server.{
  RpcRequest, whole, Finder, respond, push, process_rpc_request, unpacked, Codec, make_response,
  write_response,
}
use origin.Rpc.Server.Requests.{IsFull, served_once, unanswered}
use origin.Rpc.Server.Expected.{expected}
use origin.Rpc.Server.Responses.{IsAnswered, process-write_response}

-- "A.f"
abbrev request : Bool → RpcRequest
request no_reply = record {
  seq = 7;
  rpc_method_id = 0;
  service_method = 65 ∷ 46 ∷ 102 ∷ [];
  no_reply = no_reply;
  in_param = [];
}

-- The service A has the handler 1.
abbrev finder : Bool → Bool → Finder
finder no_reply takes = record {
  array_processor_len = 2;
  uncompress = λ bytes. none;
  unmarshal = λ type bytes. whole (request no_reply);
  find_rpc_handler = λ name. if name == 65 ∷ [] then some 1 else none;
  unmarshal_in_param = λ handler r. true;
  push_rpc_request = λ handler r. takes;
}

served_once_example :
    (process_rpc_request (finder false true) (1 ∷ 5 ∷ []) ≡ ok (true, respond (request false) ∷ []))
    ⊎ ((handler : ℕ) × (process_rpc_request (finder false true) (1 ∷ 5 ∷ [])
          ≡ ok (true, push handler (request false) ∷ [])))
unfolding unpacked
served_once_example =
    served_once (finder false true) 1 (5 ∷ []) (5 ∷ []) (request false) refl refl refl refl
      (λ handler. refl)

unanswered_example :
    (process_rpc_request (finder false false) (1 ∷ 5 ∷ []) ≡ ok (true, []))
    ↔ IsFull (finder false false) (request false)
unfolding unpacked
unanswered_example =
    unanswered (finder false false) 1 (5 ∷ []) (5 ∷ []) (request false) refl refl refl refl

abbrev bit : Bool → ℕ
bit b = if b then 1 else 0

abbrev encode : RpcResponse → Bytes
encode r = r.seq ∷ bit r.err ∷ r.reply

abbrev decode : Bytes → Option RpcResponse
decode (seq ∷ err ∷ body) = some (record { seq = seq; reply = body; err = err == 1 })
decode _ = none

decode-encode :
    (seq : ℕ) (reply : Bytes) (err : Bool)
    → decode (encode (record { seq = seq; reply = reply; err = err }))
      ≡ some (record { seq = seq; reply = reply; err = err })
decode-encode seq reply true = refl
decode-encode seq reply false = refl

abbrev wire : Wire
wire = record {
  processor_type = 1;
  marshal_args = none;
  marshal = λ in_param seq method no_reply. none;
  compress = some;
  compress_bytes_len = 1;
  connected = true;
  write = λ flag bytes. true;
}

-- The reply 0 has no bytes, as a message of zeros in Protocol Buffers.
abbrev encode_reply : ℕ → Bytes
encode_reply value = if value == 0 then [] else value ∷ []

abbrev decode_reply : Bytes → Option ℕ
decode_reply [] = some 0
decode_reply (value ∷ rest) = some value

abbrev decoder : Decoder
decoder = record {
  array_processor_len = 2;
  uncompress = some;
  unmarshal = λ type. decode;
  unmarshal_reply = λ type. decode_reply;
}

abbrev codec : Codec
codec = record {
  marshal_reply = λ reply. some (encode_reply reply);
  marshal = λ r. some (encode r);
}

abbrev line : Line
line = record init { call_set = one_call }

decodes :
    (response : RpcResponse) (bytes : Bytes)
    → some (encode response) ≡ some bytes
    → decode bytes ≡ some response
decodes response bytes e =
    let same : encode response ≡ bytes = cc in
    subst (λ b. decode b ≡ some response) same
      (decode-encode response.seq response.reply response.err)

decodes_reply :
    (value : ℕ) (body : Bytes)
    → some (encode_reply value) ≡ some body
    → decode_reply body ≡ some value
decodes_reply value body e =
    let same : encode_reply value ≡ body = cc in
    let calc : decode_reply (encode_reply value) ≡ some value = elim (Bool-cases (value == 0)) [
      | inl zero_value ↦ rw zero_value (ap some (ground arith))
      | inr other ↦ rw other refl
    ] in
    subst (λ b. decode_reply b ≡ some value) same calc

process-write_response_example :
    Ends
      (IsAnswered (expected codec (some 9) false call) 7 line)
      (process_rpc_response decoder (1 ∷ 7 ∷ 0 ∷ 9 ∷ []) line)
unfolding find_pending lookup write_response make_response compress_block
process-write_response_example =
    process-write_response wire decoder (omega arith) (λ bytes buff e. sym e) codec 7 (some 9) false
      call line deadlines (1, 7 ∷ 0 ∷ 9 ∷ []) refl decodes decodes_reply one_call-IsConsistent refl
      refl
