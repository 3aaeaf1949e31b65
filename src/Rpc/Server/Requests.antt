-- ===== src/Rpc/Server/Requests.antt =====
-- Which requests processRpcRequest of rpc/lserver.go answers or hands on.
use origin.Prelude.{
  Outcome, Bool, List, ◌↔◌, ℕ, ◌%◌, ◌≡◌, refl, leb, nat_eq, true, false, [], ◌∷◌, some, split, ok,
  Bool-cases, Option-cases, inl, inr, ◌⊎◌, ◌∙◌, ◌↔◌,
}
use origin.Rpc.Client.{Bytes}
use origin.Rpc.Server.{
  Effect, RpcRequest, whole, Finder, respond, push, pushed, first_part, handled, parsed, unpacked,
  process_rpc_request,
}

-- The service that the request names is found and its parameter is right, but its queue is full.
abbrev pub IsFull : Finder → RpcRequest → Type 0
IsFull finder r =
    (handler : ℕ) × (finder.find_rpc_handler (first_part (split 46 r.service_method))
      ≡ some handler)
    × (finder.unmarshal_in_param handler r ≡ true)
    × (finder.push_rpc_request handler r ≡ false)

only :
    (es : List Effect) (p : Outcome (Bool × List Effect))
    → p ≡ ok (true, es)
    → p ≡ ok (true, [])
    → es ≡ []
only es p e f = cc

module _ (finder : Finder) (first : ℕ) (bytes data_ : Bytes) (r : RpcRequest)
    (known : leb finder.array_processor_len (first % 128) ≡ false)
    (unpacks : unpacked finder first bytes ≡ some data_)
    (parses : finder.unmarshal (first % 128) data_ ≡ whole r) where
  process_lem : process_rpc_request finder (first ∷ bytes) ≡ ok (true, handled finder r)
  unfolding process_rpc_request parsed
  process_lem = rw (known, unpacks, parses, process_rpc_request) refl

  -- A request that wants a reply, and whose head was read from a message of a known processor that
  -- could be unpacked, is either answered with an error or handed to a service, once, if the queue of
  -- a service always takes it.
  pub served_once :
      r.no_reply ≡ false
      → ((handler : ℕ) → finder.push_rpc_request handler r ≡ true)
      → (process_rpc_request finder (first ∷ bytes) ≡ ok (true, respond r ∷ []))
        ⊎ ((handler : ℕ) × (process_rpc_request finder (first ∷ bytes)
              ≡ ok (true, push handler r ∷ [])))
  unfolding handled pushed
  served_once wants takes =
      rw process_lem
        (elim (Option-cases (finder.find_rpc_handler (first_part (split 46 r.service_method)))) [
          | inl missing ↦ inl (rw (missing, handled, wants) refl)
          | inr (handler, found) ↦ elim (Bool-cases (finder.unmarshal_in_param handler r)) [
            | inl good ↦ inr (handler, rw (found, handled, good, takes handler) refl)
            | inr bad ↦ inl (rw (found, handled, bad, wants) refl)
          ]
        ])

  handled-IsFull : r.no_reply ≡ false → handled finder r ≡ [] → IsFull finder r
  unfolding handled pushed
  handled-IsFull wants silent =
      elim (Option-cases (finder.find_rpc_handler (first_part (split 46 r.service_method)))) [
        | inl missing ↦
            let calc : handled finder r ≡ respond r ∷ [] = rw (missing, handled, wants) refl in cc
        | inr (handler, found) ↦ elim (Bool-cases (finder.unmarshal_in_param handler r)) [
          | inr bad ↦
              let calc : handled finder r ≡ respond r ∷ [] = rw (found, handled, bad, wants) refl in
              cc
          | inl good ↦ elim (Bool-cases (finder.push_rpc_request handler r)) [
            | inl takes ↦
                let calc : handled finder r ≡ push handler r ∷ [] =
                  rw (found, handled, good, takes) refl in
                cc
            | inr full ↦ (handler, found, good, full)
          ]
        ]
      ]

  -- A request that wants a reply, and whose head was read from a message of a known processor that
  -- could be unpacked, is neither answered nor handed to a service if and only if its service is
  -- found and its parameter is right, but the queue of the service does not take it.
  pub unanswered :
      r.no_reply ≡ false
      → (process_rpc_request finder (first ∷ bytes) ≡ ok (true, [])) ↔ IsFull finder r
  unfolding handled pushed
  unanswered wants = (
    λ silent. handled-IsFull wants (only (handled finder r) _ process_lem silent),
    λ (handler, found, good, full). process_lem ∙ rw (found, handled, good, full, wants) refl,
  )
