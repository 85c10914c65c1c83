-- ===== src/Run/Repository/Trace.antt =====
-- Sequences of calls on RepositoryRunStateManager and on InMemoryRunStateManager.
use sun_pilot.Base.{ℕ, String, Option, none, some, List, [], ◌∷◌, ◌≡◌, lookup, Bool}
use sun_pilot.Run.State.{RunState, AgentLoopInput}
use sun_pilot.Run.Manager.{Manager, Result, ok, err}
use sun_pilot.Run.Manager as Memory
use sun_pilot.Run.Manager.Step.{
  Call, after, creates, marks, fails, completes, cancels, acquires, saves, step,
}
use sun_pilot.Run.Manager.Trace.{play}
use sun_pilot.Run.Store.{Database}
use sun_pilot.Run.Repository.{
  mark_status, mark_failed, mark_completed, mark_cancelled, acquire_execution, save_task_state,
  create_run, get_run,
}
use sun_pilot.Run.Repository.Refines.{Agree, SameResult}
use sun_pilot.Run.Repository.Operations.{
  mark_status-Agree, mark_failed-Agree, mark_completed-Agree, mark_cancelled-Agree,
}
use sun_pilot.Run.Repository.Leases.{SameLease, acquire_execution-Agree, SameRun, get_run-Agree}
use sun_pilot.Run.Repository.Creation.{create_run-Agree, SameRuns, save_task_state-Agree}

-- A call that throws is rolled back.
abbrev kept {ℓ} : {A : Type ℓ} → Database → (A → Database) → Result A → Database
kept db f (ok a) = f a
kept db f (err e) = db

abbrev kept_created : Database → Option (Database × RunState) → Database
kept_created db none = db
kept_created db (some p) = p.0

unfoldable pub stored_step : ℕ → ℕ → Call → Database → Database
unfolding create_run mark_status mark_failed mark_completed mark_cancelled acquire_execution
    save_task_state
stored_step now clock (creates input) db = kept_created db (create_run now input db)
stored_step now clock (marks r next reason) db =
    kept db (λ p. p.0) (mark_status now clock r next reason db)
stored_step now clock (fails r error) db = kept db (λ p. p.0) (mark_failed now clock r error db)
stored_step now clock (completes r) db = kept db (λ p. p.0) (mark_completed now clock r db)
stored_step now clock (cancels r reason) db =
    kept db (λ p. p.0) (mark_cancelled now clock r reason db)
stored_step now clock (acquires r expected) db =
    kept db (λ p. p.0) (acquire_execution now clock r expected db)
stored_step now clock (saves r task) db = kept db (λ d. d) (save_task_state clock r task db)

-- The call creates no run that is there.
abbrev pub IsFresh : Call → Manager → Type 0
IsFresh (creates input) m = lookup input.run_id m.runs ≡ none
IsFresh _ m = Unit

kept_same :
    (db : Database) (m : Manager) (p : Result (Database × RunState))
    (q : Result (Manager × RunState))
    → Agree db m
    → SameResult p q
    → Agree (kept db (λ x. x.0) p) (after m (λ x. x.0) q)
kept_same db m (err e) (err f) agree h = agree
kept_same db m (err e) (ok q) agree h = absurd h
kept_same db m (ok p) (err f) agree h = absurd h
kept_same db m (ok p) (ok q) agree h = h.0

kept_lease :
    (db : Database) (m : Manager) (p : Result (Database × Bool × RunState))
    (q : Result (Manager × Bool × RunState))
    → Agree db m
    → SameLease p q
    → Agree (kept db (λ x. x.0) p) (after m (λ x. x.0) q)
kept_lease db m (err e) (err f) agree h = agree
kept_lease db m (err e) (ok q) agree h = absurd h
kept_lease db m (ok p) (err f) agree h = absurd h
kept_lease db m (ok p) (ok q) agree h = h.0

kept_saved :
    (db : Database) (m : Manager) (p : Result Database) (q : Result Manager)
    → Agree db m
    → SameRuns p q
    → Agree (kept db (λ x. x) p) (after m (λ x. x) q)
kept_saved db m (err e) (err f) agree h = agree
kept_saved db m (err e) (ok q) agree h = absurd h
kept_saved db m (ok p) (err f) agree h = absurd h
kept_saved db m (ok p) (ok q) agree h = h

kept_created-Agree :
    (now : ℕ) (input : AgentLoopInput) (db : Database) (m : Manager)
    → Agree db m
    → lookup input.run_id m.runs ≡ none
    → Agree (kept_created db (create_run now input db)) (Memory.create_run now input m).0
kept_created-Agree now input db m agree fresh =
    let (w, s, e, same, seen) = create_run-Agree now input db m agree fresh in rw e same

-- Each call keeps the two managers in agreement.
pub stored_step-Agree :
    (now clock : ℕ) (c : Call) (db : Database) (m : Manager)
    → Agree db m
    → IsFresh c m
    → Agree (stored_step now clock c db) (step now c m)
unfolding stored_step step
stored_step-Agree now clock (creates input) db m agree fresh =
    kept_created-Agree now input db m agree fresh
stored_step-Agree now clock (marks r next reason) db m agree fresh =
    kept_same db m _ _ agree (mark_status-Agree now clock r next reason db m agree)
stored_step-Agree now clock (fails r error) db m agree fresh =
    kept_same db m _ _ agree (mark_failed-Agree now clock r error db m agree)
stored_step-Agree now clock (completes r) db m agree fresh =
    kept_same db m _ _ agree (mark_completed-Agree now clock r db m agree)
stored_step-Agree now clock (cancels r reason) db m agree fresh =
    kept_same db m _ _ agree (mark_cancelled-Agree now clock r reason db m agree)
stored_step-Agree now clock (acquires r expected) db m agree fresh =
    kept_lease db m _ _ agree (acquire_execution-Agree now clock r expected db m agree)
stored_step-Agree now clock (saves r task) db m agree fresh =
    kept_saved db m _ _ agree (save_task_state-Agree clock r task db m agree)

-- A call with the time that the method reads and the one that its statements read.
abbrev pub in_memory : List (ℕ × ℕ × Call) → List (ℕ × Call)
in_memory [] = []
in_memory ((now, clock, c) ∷ cs) = (now, c) ∷ in_memory cs

unfoldable pub play_stored : List (ℕ × ℕ × Call) → Database → Database
unfolding stored_step
play_stored [] db = db
play_stored ((now, clock, c) ∷ cs) db = play_stored cs (stored_step now clock c db)

-- No call creates a run that is there.
abbrev pub AreFresh : List (ℕ × ℕ × Call) → Manager → Type 0
AreFresh [] m = Unit
AreFresh ((now, clock, c) ∷ cs) m = IsFresh c m × AreFresh cs (step now c m)

play_stored-Agree :
    (cs : List (ℕ × ℕ × Call)) (db : Database) (m : Manager)
    → Agree db m
    → AreFresh cs m
    → Agree (play_stored cs db) (play (in_memory cs) m)
unfolding play_stored play
play_stored-Agree [] db m agree fresh = agree
play_stored-Agree ((now, clock, c) ∷ cs) db m agree fresh =
    play_stored-Agree cs (stored_step now clock c db) (step now c m)
      (stored_step-Agree now clock c db m agree fresh.0) fresh.1

abbrev pub no_rows : Database
no_rows = record { runs = []; status_rows = [] }

-- After any calls on empty tables that create each run once, `getRun` finds the run that the manager
-- in memory finds after the same calls, equal in all fields but `updatedAt` and `completedAt`.
pub same_runs :
    (cs : List (ℕ × ℕ × Call)) (id : String)
    → AreFresh cs Memory.new
    → SameRun
        (get_run id (play_stored cs no_rows))
        (Memory.get_run id (play (in_memory cs) Memory.new))
unfolding lookup
same_runs cs id fresh =
    get_run-Agree id (play_stored cs no_rows) (play (in_memory cs) Memory.new)
      (play_stored-Agree cs no_rows Memory.new (λ other. tt) fresh)
