-- ===== src/Rpc/Client/Answers.antt =====
-- What each operation of rpc/client.go does to the ledger of calls.
use origin.Prelude.{
  ℕ, ◌%◌, ◌≡◌, refl, nat_eq, ◌==◌, leb, if◌then◌else◌, List, [], ◌∷◌, ◌++◌, Option, none, some,
  arith, count, count-append, Ends, ends, Ends-bind, Ends-IfOk, Bool-cases, Option-cases, inl, inr,
  sym, ◌∙◌, ap,
}
use origin.Rpc.TimerHeap.Deadlines.{Deadlines, erase}
use origin.Rpc.CallSet.{Call, CallSet, Delivery, make_call_fail, find_pending, remove_pending}
use origin.Rpc.CallSet.Pending.{IsConsistent, find_pending_lem, remove_pending_lem}
use origin.Rpc.CallSet.Timeout.{late, answered, Failed, check_round_lem}
use origin.Rpc.CallSet.Loops.{Cleaned, clean_pending-Cleaned}
use origin.Rpc.CallSet.Start.{start-remove_pending, start-check_round, start-clean_pending}
use origin.Rpc.Client.{
  Bytes, Line, RpcResponse, Decoder, read_into, read_reply, read_response, answer_call,
  process_head, process_rpc_response, unpack, cancel_rpc, check_timeout, close,
}
use origin.Rpc.Client.Ledger.{seqs, seqs-append, count-seqs, Keeps}

seq-make_call_fail : (c : Call) → (answered (make_call_fail c)).seq ≡ c.seq
unfolding make_call_fail
seq-make_call_fail c = ground arith

seq-read_into : (value : Option ℕ) (v : Call) → (read_into value v).seq ≡ v.seq
seq-read_into none v = refl
seq-read_into (some value) v = refl

seq-read_reply :
    (unmarshal : Bytes → Option ℕ) (bytes : Bytes) (v : Call)
    → (read_reply unmarshal bytes v).seq ≡ v.seq
seq-read_reply unmarshal [] v = refl
seq-read_reply unmarshal (b ∷ bytes) v = seq-read_into (unmarshal (b ∷ bytes)) v

seq-read_response :
    (unmarshal : Bytes → Option ℕ) (response : RpcResponse) (v : Call)
    → (read_response unmarshal response v).seq ≡ v.seq
unfolding read_response
seq-read_response unmarshal response v = ground (arith, seq-read_reply unmarshal response.reply v)

module _ (l : Line) (d : Deadlines) (v : IsConsistent d l.call_set) where
  Keeps-refl : Keeps l l
  Keeps-refl = record {
    deadlines = d;
    consistent = v;
    start = refl;
    same = refl;
    refused_same = refl;
    stuck_same = refl;
    unnumbered = refl;
    moved = λ k nz. refl;
  }

  -- RemovePending with its number of the last call.
  Removed : ℕ → Option Call × CallSet → Type 0
  Removed seq r =
      (r.0 ≡ find_pending l.call_set seq)
      × IsConsistent (erase seq d) r.1
      × ((k : ℕ) → find_pending r.1 k ≡ (if seq == k then none else find_pending l.call_set k))

  removed :
      (seq : ℕ)
      → Ends
          (λ r. Removed seq r × (r.1.start_seq ≡ l.call_set.start_seq))
          (remove_pending l.call_set seq)
  unfolding Removed
  removed seq =
      Ends-IfOk (remove_pending_lem d l.call_set seq v) (start-remove_pending l.call_set seq)

  -- No call has the number 0.
  never : find_pending l.call_set 0 ≡ none
  unfolding find_pending
  never = refl

  seq_found : (seq : ℕ) (c : Call) → find_pending l.call_set seq ≡ some c → c.seq ≡ seq
  seq_found seq c e = v.named seq c (sym (find_pending_lem d l.call_set seq v) ∙ e)

  answer_call-Keeps :
      (unmarshal : Bytes → Option ℕ) (response : RpcResponse) (r : Option Call × CallSet)
      → Removed response.seq r
      → r.1.start_seq ≡ l.call_set.start_seq
      → Keeps l (answer_call unmarshal response r l)
  unfolding answer_call Removed
  answer_call-Keeps unmarshal response (none, cs) (found, c, after) e = record {
    deadlines = erase response.seq d;
    consistent = c;
    start = e;
    same = refl;
    refused_same = refl;
    stuck_same = refl;
    unnumbered = refl;
    moved = λ k nz. ground (arith, found, after k);
  }
  answer_call-Keeps unmarshal response (some call, cs) (found, c, after) e = record {
    deadlines = erase response.seq d;
    consistent = c;
    start = e;
    same = refl;
    refused_same = refl;
    stuck_same = refl;
    unnumbered =
        let c = read_response unmarshal response call in
        let x = make_call_fail c in
        ground (
          arith,
          found,
          never,
          ap (count 0) (seqs-append l.sent (x ∷ [])),
          count-append 0 (seqs l.sent) (seqs (x ∷ [])),
          seq-make_call_fail c,
          seq-read_response unmarshal response call,
          seq_found response.seq call (sym found),
        );
    moved = λ k nz.
        let c = read_response unmarshal response call in
        let x = make_call_fail c in
        ground (
          arith,
          found,
          after k,
          ap (count k) (seqs-append l.sent (x ∷ [])),
          count-append k (seqs l.sent) (seqs (x ∷ [])),
          seq-make_call_fail c,
          seq-read_response unmarshal response call,
          seq_found response.seq call (sym found),
        );
  }

  process_head-Keeps :
      (decoder : Decoder) (type : ℕ) (bytes : List ℕ)
      → Ends (Keeps l) (process_head decoder type bytes l)
  unfolding process_head
  process_head-Keeps decoder type bytes = elim (Option-cases (decoder.unmarshal type bytes)) [
    | inl bad ↦ rw (bad, process_head) (ends Keeps-refl)
    | inr (response, good) ↦
        rw (good, process_head)
          (Ends-bind (removed response.seq)
            λ r (k, e). ends (answer_call-Keeps (decoder.unmarshal_reply type) response r k e))
  ]

  -- A message has at least one byte.
  pub process_rpc_response-Keeps :
      (decoder : Decoder) (first : ℕ) (bytes : List ℕ)
      → Ends (λ r. Keeps l r.1) (process_rpc_response decoder (first ∷ bytes) l)
  unfolding process_rpc_response
  process_rpc_response-Keeps decoder first bytes =
      elim (Bool-cases (leb decoder.array_processor_len (first % 128))) [
        | inl unknown ↦ rw unknown (ends Keeps-refl)
        | inr known ↦ rw known (elim (Option-cases (unpack decoder first bytes)) [
          | inl bad ↦ rw bad (ends Keeps-refl)
          | inr (data_, good) ↦
              rw good (Ends-bind (process_head-Keeps decoder (first % 128) data_) λ l' k. ends k)
        ])
      ]

  pub cancel_rpc-Keeps : (seq : ℕ) → Ends (Keeps l) (cancel_rpc seq l)
  unfolding cancel_rpc Removed
  cancel_rpc-Keeps seq = Ends-bind (removed seq) λ (p, cs) ((found, c, after), e). ends (record {
    deadlines = erase seq d;
    consistent = c;
    start = e;
    same = refl;
    refused_same = refl;
    stuck_same = refl;
    unnumbered = refl;
    moved = λ k nz. ground (arith, found, after k, count-append k l.cancelled (seq ∷ []));
  })

  failed_late :
      (x : Delivery) (cs : CallSet)
      → Failed late d l.call_set x cs
      → cs.start_seq ≡ l.call_set.start_seq
      → Keeps l (record l { call_set = cs; sent = l.sent ++ x ∷ [] })
  unfolding make_call_fail
  failed_late x cs f e = record {
    deadlines = erase f.key d;
    consistent = f.after;
    start = e;
    same = refl;
    refused_same = refl;
    stuck_same = refl;
    unnumbered = ground (
      arith,
      f.sent,
      v.same 0,
      v.timers.no_zero,
      f.found,
      ap (count 0) (seqs-append l.sent (x ∷ [])),
      count-append 0 (seqs l.sent) (seqs (x ∷ [])),
      v.named f.key f.call f.found,
    );
    moved = λ k nz. ground (
      arith,
      f.others k,
      f.found,
      f.sent,
      find_pending_lem d l.call_set k v,
      find_pending_lem (erase f.key d) cs k f.after,
      ap (count k) (seqs-append l.sent (x ∷ [])),
      count-append k (seqs l.sent) (seqs (x ∷ [])),
      v.named f.key f.call f.found,
    );
  }

  pub check_timeout-Keeps : (now : ℕ) → Ends (Keeps l) (check_timeout now l)
  unfolding check_timeout
  check_timeout-Keeps now =
      Ends-bind (Ends-IfOk (check_round_lem d l.call_set v now) (start-check_round l.call_set now))
        λ (round, cs) (result, e). elim result [
          | inl (stop, same, _) ↦ rw (stop, same) (ends Keeps-refl)
          | inr (x, failure, (f, _)) ↦ rw failure (ends (failed_late x cs f e))
        ]

  -- Close answers every call that is pending, once.
  closed :
      (sent : List Delivery) (cs : CallSet)
      → Cleaned l.call_set (sent, cs)
      → cs.start_seq ≡ l.call_set.start_seq
      → Keeps l (record l { call_set = cs; sent = l.sent ++ sent })
  closed sent cs (each, empty, (d', v')) e = record {
    deadlines = d';
    consistent = v';
    start = e;
    same = refl;
    refused_same = refl;
    stuck_same = refl;
    unnumbered = ground (
      arith,
      each 0,
      v.same 0,
      v.timers.no_zero,
      count-seqs 0 sent,
      ap (count 0) (seqs-append l.sent sent),
      count-append 0 (seqs l.sent) (seqs sent),
    );
    moved = λ k nz. ground (
      arith,
      each k,
      empty k,
      count-seqs k sent,
      find_pending_lem d l.call_set k v,
      find_pending_lem d' cs k v',
      ap (count k) (seqs-append l.sent sent),
      count-append k (seqs l.sent) (seqs sent),
    );
  }

  pub close-Keeps : (node : ℕ) → Ends (Keeps l) (close node l)
  unfolding close
  close-Keeps node =
      Ends-bind (Ends-IfOk (clean_pending-Cleaned d l.call_set v) (start-clean_pending l.call_set))
        λ (sent, cs) (c, e). ends (closed sent cs c e)
