-- ===== src/Rpc/Server/Expected.antt =====
-- What a caller of rpc/client.go is to find in its call, by what the server gave to WriteResponse.
use origin.Prelude.{
  ℕ, ◌≡◌, refl, nat_eq, if◌then◌else◌, Bool, true, false, [], ◌∷◌, Option, none, some, Option-cases,
  inl, inr,
}
use origin.Rpc.CallSet.{Call, no_error, remote_error}
use origin.Rpc.Client.{Bytes, read_response}
use origin.Rpc.Server.{Codec, make_response}

-- The call with its error, and with the reply that it has then.
abbrev pub got : Bool → Option ℕ → Call → Call
got err reply call = record call { err = if err then remote_error else no_error; reply = reply }

-- The same for a reply that was marshalled to `body`: only from some bytes the reply is read.
abbrev pub got_body : Option Bytes → ℕ → Bool → Call → Call
got_body none value err call = got true call.reply call
got_body (some []) value err call = got err call.reply call
got_body (some (b ∷ body)) value err call = got err (some value) call

-- What the caller is to find in the call that the server answers with `reply` and `err`.
abbrev pub expected : Codec → Option ℕ → Bool → Call → Call
expected codec none err call = got err call.reply call
expected codec (some value) err call = got_body (codec.marshal_reply value) value err call

module _ (codec : Codec) (unmarshal : Bytes → Option ℕ)
    (bodies : (value : ℕ) (body : Bytes)
      → codec.marshal_reply value ≡ some body
      → unmarshal body ≡ some value) where
  read_body :
      (seq value : ℕ) (body : Bytes) (err : Bool) (call : Call)
      → codec.marshal_reply value ≡ some body
      → read_response unmarshal (record { seq = seq; reply = body; err = err }) call
        ≡ got_body (some body) value err call
  unfolding read_response
  read_body seq value [] true call e = refl
  read_body seq value [] false call e = refl
  read_body seq value (b ∷ body) true call e = rw (bodies value (b ∷ body) e) refl
  read_body seq value (b ∷ body) false call e = rw (bodies value (b ∷ body) e) refl

  -- The caller finds in its call what the server answers.
  pub read-make_response :
      (seq : ℕ) (reply : Option ℕ) (err : Bool) (call : Call)
      → read_response unmarshal (make_response codec seq reply err) call
        ≡ expected codec reply err call
  unfolding make_response read_response
  read-make_response seq none true call = refl
  read-make_response seq none false call = refl
  read-make_response seq (some value) err call = elim (Option-cases (codec.marshal_reply value)) [
    | inl bad ↦ rw (bad, make_response) refl
    | inr (body, good) ↦ rw (good, make_response) (read_body seq value body err call good)
  ]
