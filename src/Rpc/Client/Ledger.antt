-- ===== src/Rpc/Client/Ledger.antt =====
-- The ledger of the calls of rpc/client.go: every call that was under way is pending, answered or
-- cancelled.
use origin.Prelude.{
  ℕ, ◌+◌, ◌≤◌, ◌<◌, ◌≡◌, ◌≢◌, refl, nat_eq, false, List, [], ◌∷◌, ◌++◌, is_some, length, arith,
  count, one_if, sym, ◌∙◌, ap,
}
use origin.Rpc.TimerHeap.Deadlines.{Deadlines}
use origin.Rpc.CallSet.{Delivery, done, rpc_response, find_pending}
use origin.Rpc.CallSet.Pending.{IsConsistent}
use origin.Rpc.CallSet.Timeout.{answered, answers_to}
use origin.Rpc.Client.{Line, is_full}

-- The sequence numbers of the calls that were answered.
abbrev pub seqs : List Delivery → List ℕ
seqs [] = []
seqs (x ∷ xs) = (answered x).seq ∷ seqs xs

pub seqs-append : (xs ys : List Delivery) → seqs (xs ++ ys) ≡ seqs xs ++ seqs ys
seqs-append [] ys = refl
seqs-append (x ∷ xs) ys = ap (◌∷◌ (answered x).seq) (seqs-append xs ys)

pub count-seqs : (k : ℕ) (xs : List Delivery) → count k (seqs xs) ≡ length (answers_to k xs)
count-seqs k [] = refl
count-seqs k (x ∷ xs) = ground (arith, count-seqs k xs)

-- A call that was not answered has room in its channel.
pub is_full-unanswered : (k : ℕ) (xs : List Delivery) → count k (seqs xs) ≡ 0 → is_full k xs ≡ false
is_full-unanswered k [] e = refl
is_full-unanswered k (done c ∷ xs) e = ground (arith, is_full-unanswered k xs)
is_full-unanswered k (rpc_response c ∷ xs) e = is_full-unanswered k xs (omega arith)

abbrev pub answers : ℕ → Line → ℕ
answers k l = count k (seqs l.sent)

abbrev pub waits : ℕ → Line → ℕ
waits k l = one_if (is_some (find_pending l.call_set k))

-- The account of the call `k`.
abbrev pub Balanced : ℕ → Line → Type 0
Balanced k l = answers k l + waits k l + count k l.cancelled ≡ count k l.accepted

-- The CallSet agrees with its timers, every call is accounted for, and no number above `top` is
-- in use.
pub record IsLedger (top : ℕ) (l : Line) : Type 0 where
  pub deadlines : Deadlines
  pub consistent : IsConsistent deadlines l.call_set
  pub start : l.call_set.start_seq ≡ top
  pub balance : (k : ℕ) → k ≢ 0 → Balanced k l
  pub once : (k : ℕ) → count k l.accepted ≤ 1
  pub unused : (k : ℕ) → top < k → count k l.accepted ≡ 0
  pub unnumbered : answers 0 l ≡ l.refused
  pub free : l.stuck ≡ 0

-- What an operation may do to the account of one call.
pub record Keeps (l l' : Line) : Type 0 where
  pub deadlines : Deadlines
  pub consistent : IsConsistent deadlines l'.call_set
  pub start : l'.call_set.start_seq ≡ l.call_set.start_seq
  pub same : l'.accepted ≡ l.accepted
  pub refused_same : l'.refused ≡ l.refused
  pub stuck_same : l'.stuck ≡ l.stuck
  pub unnumbered : answers 0 l' ≡ answers 0 l
  pub moved :
      (k : ℕ)
      → k ≢ 0
      → answers k l' + waits k l' + count k l'.cancelled
        ≡ answers k l + waits k l + count k l.cancelled

pub Keeps-IsLedger : (top : ℕ) (l l' : Line) → IsLedger top l → Keeps l l' → IsLedger top l'
Keeps-IsLedger top l l' v s = record {
  deadlines = s.deadlines;
  consistent = s.consistent;
  start = s.start ∙ v.start;
  balance = λ k nz. s.moved k nz ∙ v.balance k nz ∙ sym (ap (count k) s.same);
  once = λ k. omega (arith, ap (count k) s.same, v.once k);
  unused = λ k p. ap (count k) s.same ∙ v.unused k p;
  unnumbered = s.unnumbered ∙ v.unnumbered ∙ sym s.refused_same;
  free = s.stuck_same ∙ v.free;
}
