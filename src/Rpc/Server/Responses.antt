-- ===== src/Rpc/Server/Responses.antt =====
-- A response that WriteResponse of rpc/server.go writes arrives at processRpcResponse of
-- rpc/client.go.
use mathlib.Core.Path.{subst}
use origin.Prelude.{
  ℕ, ◌%◌, ◌<◌, ◌≡◌, refl, nat_eq, ◌==◌, ltb, leb, ◌&&◌, if◌then◌else◌, Bool, true, false, [], ◌∷◌,
  ◌++◌, Option, none, some, length, arith, Ends, ends, Ends-bind, Ends-map, sym, Bool-cases,
  Option-cases, inl, inr, ◌∙◌, ap,
}
use origin.Rpc.CallSet.{Call, CallSet, find_pending, make_call_fail}
use origin.Rpc.CallSet.Pending.{IsConsistent, remove_pending_lem}
use origin.Rpc.TimerHeap.Deadlines.{Deadlines}
use origin.Rpc.Client.{
  Bytes, Wire, or_flag, shorter, compress_block, Line, RpcResponse, Decoder, read_response,
  answer_call, unpack, process_head, process_rpc_response,
}
use origin.Rpc.Server.Expected.{expected, read-make_response}
use origin.Rpc.Server.{Codec, make_response, write_response}

-- Only `c` is delivered, and the call `seq` is not pending any more.
abbrev pub IsAnswered : Call → ℕ → Line → Bool × Line → Type 0
IsAnswered c seq l (fine, m) =
    (fine ≡ true)
    × (m.sent ≡ l.sent ++ make_call_fail c ∷ [])
    × (find_pending m.call_set seq ≡ none)

module _ (decoder : Decoder) (response : RpcResponse) (call : Call) (l : Line) (d : Deadlines)
    (v : IsConsistent d l.call_set) (found : find_pending l.call_set response.seq ≡ some call) where
  taken :
      (type : ℕ) (r : Option Call × CallSet)
      → r.0 ≡ find_pending l.call_set response.seq
      → ((k : ℕ)
          → find_pending r.1 k ≡ (if response.seq == k then none else find_pending l.call_set k))
      → IsAnswered
          (read_response (decoder.unmarshal_reply type) response call)
          response.seq
          l
          (true, answer_call (decoder.unmarshal_reply type) response r l)
  unfolding answer_call
  taken type (none, cs) e after = cc
  taken type (some c, cs) e after =
      let same : c ≡ call = cc in rw same (refl, refl, ground (arith, after response.seq))

  Arrives : ℕ → Bytes → Bytes → ℕ → Type 0
  Arrives first packed bytes type =
      leb decoder.array_processor_len type ≡ false
      → decoder.unmarshal type bytes ≡ some response
      → Ends
          (IsAnswered (read_response (decoder.unmarshal_reply type) response call) response.seq l)
          (process_rpc_response decoder (first ∷ packed) l)

  as_sent-Arrives :
      (first : ℕ) (packed bytes : Bytes)
      → unpack decoder first packed ≡ some bytes
      → Arrives first packed bytes (first % 128)
  unfolding process_rpc_response process_head Arrives
  as_sent-Arrives first packed bytes unpacks known decodes =
      rw (known, unpacks, process_rpc_response)
        (rw (decodes, process_head)
          (Ends-bind
            (Ends-bind (remove_pending_lem d l.call_set response.seq v)
              λ r (p, _, after). ends (taken (first % 128) r p after))
            λ l' k. ends k))

  type-Arrives :
      (first : ℕ) (packed bytes : Bytes) (type : ℕ)
      → first % 128 ≡ type
      → unpack decoder first packed ≡ some bytes
      → Arrives first packed bytes type
  type-Arrives first packed bytes type e unpacks =
      subst (Arrives first packed bytes) e (as_sent-Arrives first packed bytes unpacks)

seq-make_response :
    (codec : Codec) (seq : ℕ) (reply : Option ℕ) (err : Bool)
    → (make_response codec seq reply err).seq ≡ seq
unfolding make_response
seq-make_response codec seq none err = refl
seq-make_response codec seq (some reply) err = elim (Option-cases (codec.marshal_reply reply)) [
  | inl bad ↦ rw (bad, make_response) refl
  | inr (body, good) ↦ rw (good, make_response) refl
]

-- What one end packs, the other unpacks, and the byte in front tells the processor.
module _ (wire : Wire) (decoder : Decoder) (low : wire.processor_type < 128)
    (inverse : (bytes buff : Bytes)
      → wire.compress bytes ≡ some buff
      → decoder.uncompress buff ≡ some bytes) where
  Unpacks : Bytes → ℕ × Bytes → Type 0
  Unpacks bytes (flag, packed) =
      (unpack decoder (or_flag wire.processor_type flag) packed ≡ some bytes)
      × (or_flag wire.processor_type flag % 128 ≡ wire.processor_type)

  plain-Unpacks : (bytes : Bytes) → Unpacks bytes (0, bytes)
  unfolding Unpacks unpack
  plain-Unpacks bytes = (ground arith, ground arith)

  shorter-Unpacks :
      (bytes buff : Bytes) → wire.compress bytes ≡ some buff → Unpacks bytes (shorter buff bytes)
  unfolding Unpacks unpack
  shorter-Unpacks bytes buff e = elim (Bool-cases (ltb (length buff) (length bytes))) [
    | inl less ↦ rw less (ground (arith, inverse bytes buff e), ground arith)
    | inr more ↦ rw more (plain-Unpacks bytes)
  ]

  unpack-compress_block :
      (bytes : Bytes) (p : ℕ × Bytes) → compress_block wire bytes ≡ some p → Unpacks bytes p
  unfolding compress_block
  unpack-compress_block bytes p e =
      elim (Bool-cases
        (ltb 0 wire.compress_bytes_len && leb wire.compress_bytes_len (length bytes))) [
          | inr short ↦
              let calc : compress_block wire bytes ≡ some (0, bytes) = rw short refl in
              let same : (0, bytes) ≡ p = cc in subst (Unpacks bytes) same (plain-Unpacks bytes)
          | inl long ↦ elim (Option-cases (wire.compress bytes)) [
            | inl fails ↦
                let calc : compress_block wire bytes ≡ none =
                  rw (long, fails, compress_block) refl in
                cc
            | inr (buff, packs) ↦
                let calc : compress_block wire bytes ≡ some (shorter buff bytes) =
                  rw (long, packs, compress_block) refl in
                let same : shorter buff bytes ≡ p = cc in
                subst (Unpacks bytes) same (shorter-Unpacks bytes buff packs)
          ]
        ]

  -- On a CallSet in order, a response that WriteResponse writes for a call that is pending is
  -- delivered to the call, nothing else is, and the call is not pending any more. The call then has
  -- an error just where the server has one or could not marshal its reply, and it has the server's
  -- reply; it keeps the Reply it had where there is no reply, or one that was marshalled to
  -- no bytes or not at all. Provided that the processor's number is below 128 and known, and that the
  -- decompressor and the decoders of the head and the body undo the compressor and the codec.
  pub process-write_response :
      (codec : Codec) (seq : ℕ) (reply : Option ℕ) (err : Bool) (call : Call) (l : Line)
      (d : Deadlines) (p : ℕ × Bytes)
      → leb decoder.array_processor_len wire.processor_type ≡ false
      → ((response : RpcResponse) (bytes : Bytes)
          → codec.marshal response ≡ some bytes
          → decoder.unmarshal wire.processor_type bytes ≡ some response)
      → ((value : ℕ) (body : Bytes)
          → codec.marshal_reply value ≡ some body
          → decoder.unmarshal_reply wire.processor_type body ≡ some value)
      → IsConsistent d l.call_set
      → find_pending l.call_set seq ≡ some call
      → write_response wire codec seq reply err ≡ some p
      → Ends
          (IsAnswered (expected codec reply err call) seq l)
          (process_rpc_response decoder (p.0 ∷ p.1) l)
  unfolding write_response Unpacks Arrives
  process-write_response codec seq reply err call l d p known decodes bodies v found written =
      let response = make_response codec seq reply err in
      elim (Option-cases (codec.marshal response)) [
        | inl bad ↦
            let calc : write_response wire codec seq reply err ≡ none =
              rw (bad, write_response) refl in
            cc
        | inr (bytes, good) ↦ elim (Option-cases (compress_block wire bytes)) [
          | inl fails ↦
              let calc : write_response wire codec seq reply err ≡ none =
                rw (good, fails, write_response) refl in
              cc
          | inr ((flag, packed), packs) ↦
              let first = or_flag wire.processor_type flag in
              let calc : write_response wire codec seq reply err ≡ some (first, packed) =
                rw (good, packs, write_response) refl in
              let same : (first, packed) ≡ p = cc in
              let (a, b) = unpack-compress_block bytes (flag, packed) packs in
              let there =
                ap (find_pending l.call_set) (seq-make_response codec seq reply err) ∙ found in
              let arrived =
                type-Arrives decoder response call l d v there first packed bytes
                  wire.processor_type b a known (decodes response bytes good) in
              subst
                (λ (q : ℕ × Bytes).
                  Ends (IsAnswered (expected codec reply err call) seq l)
                    (process_rpc_response decoder (q.0 ∷ q.1) l))
                same
                (Ends-map arrived λ r k. (
                  k.0,
                  k.1
                      ∙ ap (λ c. l.sent ++ make_call_fail c ∷ [])
                          (read-make_response codec (decoder.unmarshal_reply wire.processor_type)
                            bodies seq reply err call),
                  sym (ap (find_pending r.1.call_set) (seq-make_response codec seq reply err))
                      ∙ k.2,
                ))
        ]
      ]
