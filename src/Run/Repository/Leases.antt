-- ===== src/Run/Repository/Leases.antt =====
-- `acquireExecution`, `createRun`, `saveTaskState` and `getRun` of RepositoryRunStateManager against
-- InMemoryRunStateManager.
use sun_pilot.Base.{
  ℕ, String, Bool, true, false, Option, none, some, List, ◌≡◌, inl, inr, refl, sym, ap, ◌∙◌, arith,
  lookup, insert, Bool-cases, ===_refl,
}
use sun_pilot.Run.Status.{AgentLoopStatus, running, includes}
use sun_pilot.Run.State.{RunState}
use sun_pilot.Run.Manager.{
  Manager, Result, ok, err, run_not_found, HistoryEntry, taken, record_history,
}
use sun_pilot.Run.Manager as Memory
use sun_pilot.Run.Store.{set_status, RunRecord, Database, patched}
use sun_pilot.Run.Repository.{
  map_run_to_state, acquisition, acquire_execution, get_run, write_acquisition,
}
use sun_pilot.Run.Repository.Writes.{changed, write_acquisition-IsChanged}
use sun_pilot.Run.Repository.Refines.{
  forget, view, Agree, meet, view_status, acquisition-view, stored-Agree,
}

-- What is thrown, or the runs kept, whether the run was acquired, and the run returned.
abbrev pub SameLease :
    Result (Database × Bool × RunState) → Result (Manager × Bool × RunState) → Type 0
SameLease (err e) (err f) = e ≡ f
SameLease (err e) (ok q) = ⊥
SameLease (ok p) (err f) = ⊥
SameLease (ok p) (ok q) = Agree p.0 q.0 × (p.1 ≡ q.1) × (forget p.2 ≡ forget q.2)

SameLease-by :
    (a b : Result (Database × Bool × RunState)) (c d : Result (Manager × Bool × RunState))
    → a ≡ b
    → c ≡ d
    → SameLease b d
    → SameLease a c
SameLease-by a b c d e f h = rw (e, f) h

module _ (db : Database) (m : Manager) (agree : Agree db m) (r : RunRecord) (s : RunState)
    (a : lookup r.id db.runs ≡ some r) (b : lookup r.id m.runs ≡ some s)
    (seen : view r ≡ forget s) where
  acquired_found :
      (now clock : ℕ) (expected : List AgentLoopStatus) (w : Database) (f : RunRecord)
      → includes expected r.status ≡ true
      → write_acquisition clock expected (acquisition now r) db ≡ (w, true)
      → lookup r.id w.runs ≡ some f
      → acquire_execution now clock r.id expected db ≡ ok (w, true, map_run_to_state f)
  unfolding acquire_execution
  acquired_found now clock expected w f within written there = ground arith

  acquire_execution_found :
      (now clock : ℕ) (expected : List AgentLoopStatus)
      → SameLease
          (acquire_execution now clock r.id expected db)
          (Memory.acquire_execution now r.id expected m)
  unfolding acquire_execution Memory.acquire_execution acquisition view patched set_status
  acquire_execution_found now clock expected =
      let same : r.status ≡ s.status = view_status r s seen in
      elim (Bool-cases (includes expected s.status)) [
        | inr out ↦
            SameLease-by _ (ok (db, false, map_run_to_state r)) _ (ok (m, false, s)) (ground arith)
              (ground arith) (agree, refl, seen)
        | inl within ↦
            let held : includes expected r.status ≡ true =
              ap (λ t. includes expected t) same ∙ within in
            let c = acquisition now r in
            let (w, written, change) = write_acquisition-IsChanged clock expected c r db a held in
            let history =
              record_history now r.id (some s.status) running "acquireExecution" m.history in
            let agrees : view (changed clock c r) ≡ forget (taken now s) =
              acquisition-view now clock r ∙ ap (λ v. forget (taken now v)) seen in
            SameLease-by _ (ok (w, true, map_run_to_state (changed clock c r))) _
              (ok (
                record { runs = insert r.id (taken now s) m.runs; history = history },
                true,
                taken now s,
              ))
              (acquired_found now clock expected w (changed clock c r) held written
                (change r.id ∙ rw (===_refl r.id) refl))
              (ground arith)
              (
                stored-Agree r.id (changed clock c r) (taken now s) db w m history change refl
                    agrees agree,
                refl,
                agrees,
              )
      ]

-- `acquireExecution` throws the same, or gives the same answer and keeps the same runs.
pub acquire_execution-Agree :
    (now clock : ℕ) (id : String) (expected : List AgentLoopStatus) (db : Database) (m : Manager)
    → Agree db m
    → SameLease
        (acquire_execution now clock id expected db)
        (Memory.acquire_execution now id expected m)
unfolding acquire_execution Memory.acquire_execution
acquire_execution-Agree now clock id expected db m agree = elim (meet db m id agree) [
  | inl (a, b) ↦
      SameLease-by _ (err run_not_found) _ (err run_not_found) (ground arith) (ground arith) refl
  | inr (r, s, a, b, same, seen) ↦ rw (sym same) (
      acquire_execution_found db m agree r s (ap (λ k. lookup k db.runs) same ∙ a)
        (ap (λ k. lookup k m.runs) same ∙ b) seen now clock expected)
]

-- `getRun` finds the run on both sides or on none.
abbrev pub SameRun : Option RunState → Option RunState → Type 0
SameRun none none = Unit
SameRun none (some t) = ⊥
SameRun (some s) none = ⊥
SameRun (some s) (some t) = forget s ≡ forget t

pub get_run-Agree :
    (id : String) (db : Database) (m : Manager)
    → Agree db m
    → SameRun (get_run id db) (Memory.get_run id m)
unfolding get_run Memory.get_run view
get_run-Agree id db m agree = elim (meet db m id agree) [
  | inl (a, b) ↦ rw (get_run, Memory.get_run, a, b) tt
  | inr (r, s, a, b, same, seen) ↦ rw (get_run, Memory.get_run, a, b) seen
]
