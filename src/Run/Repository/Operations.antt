-- ===== src/Run/Repository/Operations.antt =====
-- Each method of RepositoryRunStateManager against the method of InMemoryRunStateManager.
use sun_pilot.Base.{
  ℕ, String, Option, some, ◌≡◌, inl, inr, refl, sym, ap, ◌∙◌, arith, lookup, insert, Bool-cases,
}
use sun_pilot.Run.Status.{
  AgentLoopStatus, same_status, completed, cancelled, failed, includes, legal_transitions,
  is_terminal,
}
use sun_pilot.Run.State.{RunState, Thrown, or_else}
use sun_pilot.Run.Manager.{
  Manager, Result, ok, err, run_not_found, state_conflict, HistoryEntry, moved, failed_with, taken,
  record_history,
}
use sun_pilot.Run.Manager as Memory
use sun_pilot.Run.Store.{RunRecord, Database}
use sun_pilot.Run.Repository.{
  map_run_to_state, status_change, failure_change, perform, plan_status, plan_failure, mark_status,
  mark_failed, mark_completed, mark_cancelled,
}
use sun_pilot.Run.Repository.Refines.{
  forget, view, Agree, SameResult, meet, view_status, status_change-view, failure_change-view,
  perform-Agree,
}

SameResult-by :
    (a b : Result (Database × RunState)) (c d : Result (Manager × RunState))
    → a ≡ b
    → c ≡ d
    → SameResult b d
    → SameResult a c
SameResult-by a b c d e f h = rw (e, f) h

-- A run that both sides keep.
module _ (db : Database) (m : Manager) (agree : Agree db m) (r : RunRecord) (s : RunState)
    (a : lookup r.id db.runs ≡ some r) (b : lookup r.id m.runs ≡ some s)
    (seen : view r ≡ forget s) where
  unchanged_Same :
      (p : Result (Database × RunState)) (q : Result (Manager × RunState))
      → p ≡ ok (db, map_run_to_state r)
      → q ≡ ok (m, s)
      → SameResult p q
  unfolding view
  unchanged_Same p q e f = SameResult-by _ _ _ _ e f (agree, seen)

  mark_status_found :
      (now clock : ℕ) (next : AgentLoopStatus) (reason : Option String)
      → SameResult
          (mark_status now clock r.id next reason db)
          (Memory.mark_status now r.id next reason m)
  unfolding mark_status Memory.mark_status plan_status perform forget moved status_change
  mark_status_found now clock next reason =
      let same : r.status ≡ s.status = view_status r s seen in
      elim (Bool-cases (same_status s.status next)) [
        | inl there ↦ unchanged_Same _ _ (ground arith) (ground arith)
        | inr away ↦ elim (Bool-cases (is_terminal s.status)) [
          | inl over ↦ unchanged_Same _ _ (ground arith) (ground arith)
          | inr still ↦ elim (Bool-cases (includes (legal_transitions s.status) next)) [
            | inr illegal ↦
                SameResult-by _ (err state_conflict) _ (err state_conflict) (ground arith)
                  (ground arith) refl
            | inl legal ↦
                let c = status_change now next reason r in
                let history =
                  record_history now r.id (some s.status) next (or_else reason "state transition")
                    m.history in
                SameResult-by _ (perform clock r (some c) db) _
                  (ok (
                    record { runs = insert r.id (moved now next s) m.runs; history = history },
                    moved now next s,
                  ))
                  (ground arith) (ground arith)
                  (perform-Agree clock c r db m (moved now next s) history a refl refl
                    (status_change-view now clock next reason r
                      ∙ ap (λ v. forget (moved now next v)) seen)
                    agree)
          ]
        ]
      ]

  mark_failed_found :
      (now clock : ℕ) (error : Thrown)
      → SameResult (mark_failed now clock r.id error db) (Memory.mark_failed now r.id error m)
  unfolding mark_failed Memory.mark_failed plan_failure perform forget failed_with failure_change
  mark_failed_found now clock error =
      let same : r.status ≡ s.status = view_status r s seen in
      elim (Bool-cases (is_terminal s.status)) [
        | inl over ↦ unchanged_Same _ _ (ground arith) (ground arith)
        | inr still ↦ elim (Bool-cases (includes (legal_transitions s.status) failed)) [
          | inr illegal ↦
              SameResult-by _ (err state_conflict) _ (err state_conflict) (ground arith)
                (ground arith) refl
          | inl legal ↦
              let c = failure_change now error r in
              let history =
                record_history now r.id (some s.status) failed error.message m.history in
              SameResult-by _ (perform clock r (some c) db) _
                (ok (
                  record { runs = insert r.id (failed_with now error s) m.runs; history = history },
                  failed_with now error s,
                ))
                (ground arith) (ground arith)
                (perform-Agree clock c r db m (failed_with now error s) history a refl refl
                  (failure_change-view now clock error r
                    ∙ ap (λ v. forget (failed_with now error v)) seen)
                  agree)
        ]
      ]

-- `markStatus` throws the same, or keeps the same runs and returns the same run.
pub mark_status-Agree :
    (now clock : ℕ) (id : String) (next : AgentLoopStatus) (reason : Option String) (db : Database)
    (m : Manager)
    → Agree db m
    → SameResult (mark_status now clock id next reason db) (Memory.mark_status now id next reason m)
unfolding mark_status Memory.mark_status
mark_status-Agree now clock id next reason db m agree = elim (meet db m id agree) [
  | inl (a, b) ↦
      SameResult-by _ (err run_not_found) _ (err run_not_found) (ground arith) (ground arith) refl
  | inr (r, s, a, b, same, seen) ↦ rw (sym same) (
      mark_status_found db m agree r s (ap (λ k. lookup k db.runs) same ∙ a)
        (ap (λ k. lookup k m.runs) same ∙ b) seen now clock next reason)
]

pub mark_failed-Agree :
    (now clock : ℕ) (id : String) (error : Thrown) (db : Database) (m : Manager)
    → Agree db m
    → SameResult (mark_failed now clock id error db) (Memory.mark_failed now id error m)
unfolding mark_failed Memory.mark_failed
mark_failed-Agree now clock id error db m agree = elim (meet db m id agree) [
  | inl (a, b) ↦
      SameResult-by _ (err run_not_found) _ (err run_not_found) (ground arith) (ground arith) refl
  | inr (r, s, a, b, same, seen) ↦ rw (sym same) (
      mark_failed_found db m agree r s (ap (λ k. lookup k db.runs) same ∙ a)
        (ap (λ k. lookup k m.runs) same ∙ b) seen now clock error)
]

pub mark_completed-Agree :
    (now clock : ℕ) (id : String) (db : Database) (m : Manager)
    → Agree db m
    → SameResult (mark_completed now clock id db) (Memory.mark_completed now id m)
unfolding mark_completed Memory.mark_completed
mark_completed-Agree now clock id db m agree =
    mark_status-Agree now clock id completed (some "run completed") db m agree

pub mark_cancelled-Agree :
    (now clock : ℕ) (id : String) (reason : Option String) (db : Database) (m : Manager)
    → Agree db m
    → SameResult (mark_cancelled now clock id reason db) (Memory.mark_cancelled now id reason m)
unfolding mark_cancelled Memory.mark_cancelled
mark_cancelled-Agree now clock id reason db m agree =
    mark_status-Agree now clock id cancelled (some (or_else reason "user cancelled")) db m agree
