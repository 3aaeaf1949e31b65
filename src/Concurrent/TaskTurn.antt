-- ===== src/Concurrent/TaskTurn.antt =====
-- The turn in which the dispatcher of concurrent/dispatch.go takes a task off the channel.
use mathlib.Core.Path.{subst}
use origin.Prelude.{
  ℕ, ◌≡◌, refl, nat_eq, ◌==◌, if◌then◌else◌, false, List, [], ◌∷◌, ◌++◌, some, Option-cases,
  Bool-cases, inl, inr, arith, ◌∙◌, ap, append_assoc, append-nil, some_inj,
}
use origin.Concurrent.{Task, Dispatch, execute_task, session, set_session, process_task}
use origin.Concurrent.Workers.{Executed, executed, session-set_session}
use origin.Concurrent.Order.{only, IsOrdered, only-append, IsOf-append}

pub session-eq :
    (q : ℕ) (d e : Dispatch)
    → d.map_task_queue_session ≡ e.map_task_queue_session
    → session q d ≡ session q e
unfolding session
session-eq q d e h = rw h

-- The three ways in which the dispatcher takes the task `t` off the channel.
module _ (t : Task) (rest : List Task) (d : Dispatch) (front : d.tasks ≡ t ∷ rest)
    (o : IsOrdered d) where
  abbrev taken : Dispatch
  taken = record d { tasks = rest; idle = false }

  only_tasks : (q : ℕ) → only q d.tasks ≡ (if t.queue_id == q then t ∷ only q rest else only q rest)
  only_tasks q = ap (only q) front

  ordinary-IsOrdered : (d' : Dispatch) → t.queue_id ≡ 0 → Executed t taken d' → IsOrdered d'
  unfolding session
  ordinary-IsOrdered d' z x = record {
    under_way = λ q nz. rw (x.queue_ids, x.sessions) (ground (arith, x.runs q, o.under_way q nz));
    order = λ q nz.
        let skip : only q (t ∷ []) ≡ [] = ground arith in
        let same : only q d.tasks ≡ only q rest = ground (arith, only_tasks q) in
        rw
          (
            x.started,
            x.sessions,
            x.tasks,
            x.accepted,
            only-append q d.started (t ∷ []),
            skip,
            append-nil,
            ← same,
          )
          (o.order q nz);
    owned = λ q. rw (x.sessions) (o.owned q);
  }

  first-IsOrdered :
      (d' : Dispatch)
      → session t.queue_id d ≡ []
      → Executed t taken d'
      → IsOrdered (set_session t.queue_id (t ∷ []) d')
  first-IsOrdered d' empty x =
      let at = λ (q : ℕ). session-set_session t.queue_id q (t ∷ []) d' in
      let old = λ (q : ℕ). session-eq q d' d x.sessions in
      record {
        under_way = λ q nz.
            rw (at q, old q, x.queue_ids)
              (elim (Bool-cases (t.queue_id == q)) [
                | inl this ↦
                    let same : t.queue_id ≡ q = ground arith in
                    let none_yet : session q d ≡ [] = rw (← same) empty in
                    rw this (ground (arith, x.runs q, o.under_way q nz, none_yet))
                | inr other ↦ rw other (ground (arith, x.runs q, o.under_way q nz))
              ]);
        order = λ q nz.
            rw
              (
                at q,
                old q,
                x.started,
                x.tasks,
                x.accepted,
                only-append q d.started (t ∷ []),
                ← o.order q nz,
                only_tasks q,
              )
              (elim (Bool-cases (t.queue_id == q)) [
                | inl this ↦
                    let same : t.queue_id ≡ q = ground arith in
                    let none_yet : session q d ≡ [] = rw (← same) empty in
                    rw (this, none_yet) (append_assoc (only q d.started) (t ∷ []) (only q rest))
                | inr other ↦ rw (other, append-nil)
              ]);
        owned = λ q.
            rw (at q, old q)
              (elim (Bool-cases (t.queue_id == q)) [
                | inl this ↦ rw this (ground arith, tt)
                | inr other ↦ rw other (o.owned q)
              ]);
      }

  joining-IsOrdered :
      (u : Task) (s : List Task)
      → session t.queue_id d ≡ u ∷ s
      → IsOrdered (set_session t.queue_id ((u ∷ s) ++ t ∷ []) taken)
  joining-IsOrdered u s busy =
      let at = λ (q : ℕ). session-set_session t.queue_id q ((u ∷ s) ++ t ∷ []) taken in
      let old = λ (q : ℕ). session-eq q taken d refl in
      record {
        under_way = λ q nz.
            rw (at q, old q)
              (elim (Bool-cases (t.queue_id == q)) [
                | inl this ↦
                    let same : t.queue_id ≡ q = ground arith in
                    let full : session q d ≡ u ∷ s = rw (← same) busy in
                    rw this (ground (arith, o.under_way q nz, full))
                | inr other ↦ rw other (o.under_way q nz)
              ]);
        order = λ q nz.
            rw (at q, old q, ← o.order q nz, only_tasks q)
              (elim (Bool-cases (t.queue_id == q)) [
                | inl this ↦
                    let same : t.queue_id ≡ q = ground arith in
                    let full : session q d ≡ u ∷ s = rw (← same) busy in
                    rw (this, full)
                      (ap (◌++◌ (only q d.started)) (append_assoc s (t ∷ []) (only q rest)))
                | inr other ↦ rw other
              ]);
        owned = λ q.
            rw (at q, old q)
              (elim (Bool-cases (t.queue_id == q)) [
                | inl this ↦
                    let same : t.queue_id ≡ q = ground arith in
                    let full : session q d ≡ u ∷ s = rw (← same) busy in
                    rw this (IsOf-append q (u ∷ s) t (rw full at (o.owned q)) same)
                | inr other ↦ rw other (o.owned q)
              ]);
      }

pub take_task-IsOrdered :
    (t : Task) (rest : List Task) (d d' : Dispatch)
    → d.tasks ≡ t ∷ rest
    → process_task t (record d { tasks = rest }) ≡ some d'
    → IsOrdered d
    → IsOrdered d'
unfolding process_task
take_task-IsOrdered t rest d d' front e o = elim (Bool-cases (t.queue_id == 0)) [
  | inl plain ↦
      let e' : execute_task t (taken t rest d front o) ≡ some d' = rw plain at e in
      ordinary-IsOrdered t rest d front o d' (ground arith)
        (executed t (taken t rest d front o) d' e')
  | inr queued ↦ by_session (session t.queue_id d) refl queued
]
  where
    d1 : Dispatch
    d1 = record d { tasks = rest; idle = false }

    same : session t.queue_id d1 ≡ session t.queue_id d
    same = session-eq t.queue_id d1 d refl

    by_session :
        (s : List Task) → session t.queue_id d ≡ s → (t.queue_id == 0) ≡ false → IsOrdered d'
    by_session [] empty queued = elim (Option-cases (execute_task t d1)) [
      | inl blocked ↦ absurd (cc (rw (queued, same ∙ empty, blocked) at e))
      | inr (d2, run) ↦
          let f : some (set_session t.queue_id (t ∷ []) d2) ≡ some d' =
            rw (queued, same ∙ empty, run) at e in
          subst IsOrdered (some_inj f)
            (first-IsOrdered t rest d front o d2 empty (executed t d1 d2 run))
    ]
    by_session (u ∷ s) busy queued =
        let f : some (set_session t.queue_id ((u ∷ s) ++ t ∷ []) d1) ≡ some d' =
          rw (queued, same ∙ busy) at e in
        subst IsOrdered (some_inj f) (joining-IsOrdered t rest d front o u s busy)
