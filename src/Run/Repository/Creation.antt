-- ===== src/Run/Repository/Creation.antt =====
-- `createRun` and `saveTaskState` of RepositoryRunStateManager against InMemoryRunStateManager.
use sun_pilot.Base.{
  ℕ, String, none, some, ◌≡◌, inl, inr, refl, ap, arith, ◌===◌, lookup, lookup-insert, insert,
  if◌then◌else◌,
}
use sun_pilot.Run.Status.{created}
use sun_pilot.Run.State.{RunState, AgentLoopInput, TaskState}
use sun_pilot.Run.Manager.{Manager, Result, ok, err, run_not_found, HistoryEntry}
use sun_pilot.Run.Manager as Memory
use sun_pilot.Run.Store.{
  RunRecord, Database, create, patched, ContextPatch, patch_context, with_run, append_row,
}
use sun_pilot.Run.Repository.{
  map_run_to_state, save_task_state, new_record, create_run, status_entry,
}
use sun_pilot.Run.Repository.Refines.{forget, view, Agree, meet, stored-Agree}

fresh_on_both :
    (db : Database) (m : Manager) (id : String)
    → Agree db m
    → lookup id m.runs ≡ none
    → lookup id db.runs ≡ none
fresh_on_both db m id agree fresh = elim (meet db m id agree) [
  | inl (a, b) ↦ a
  | inr (r, s, a, b, same, seen) ↦ ground arith
]

abbrev with_created : ℕ → AgentLoopInput → Database → Database
with_created now input db =
    append_row
      (record {
        run_id = input.run_id;
        entry = status_entry now none created "run created";
        error = none;
      })
      (with_run db input.run_id (new_record now input))

created_row :
    (now : ℕ) (input : AgentLoopInput) (db : Database)
    → lookup input.run_id db.runs ≡ none
    → create_run now input db
      ≡ some (with_created now input db, map_run_to_state (new_record now input))
unfolding create_run create new_record
created_row now input db fresh = rw (create_run, create, fresh) refl

-- `createRun` of a run that is not there keeps the same runs and returns the same run.
pub create_run-Agree :
    (now : ℕ) (input : AgentLoopInput) (db : Database) (m : Manager)
    → Agree db m
    → lookup input.run_id m.runs ≡ none
    → (w : Database) × (s : RunState) × (create_run now input db ≡ some (w, s))
      × Agree w (Memory.create_run now input m).0
      × (forget s ≡ forget (Memory.create_run now input m).1)
unfolding Memory.create_run new_record view forget map_run_to_state
create_run-Agree now input db m agree fresh = (
  with_created now input db,
  map_run_to_state (new_record now input),
  created_row now input db (fresh_on_both db m input.run_id agree fresh),
  stored-Agree input.run_id (new_record now input) (Memory.create_run now input m).1 db
      (with_created now input db) m (Memory.create_run now input m).0.history
      (λ other. lookup-insert input.run_id other (new_record now input) db.runs) refl refl agree,
  refl,
)

-- `INSERT` refuses an id that the table has.
pub create_run_taken :
    (now : ℕ) (input : AgentLoopInput) (db : Database) (r : RunRecord)
    → lookup input.run_id db.runs ≡ some r
    → create_run now input db ≡ none
unfolding create_run create new_record
create_run_taken now input db r taken = rw (create_run, create, taken) refl

-- What is thrown, or the runs kept.
abbrev pub SameRuns : Result Database → Result Manager → Type 0
SameRuns (err e) (err f) = e ≡ f
SameRuns (err e) (ok n) = ⊥
SameRuns (ok d) (err f) = ⊥
SameRuns (ok d) (ok n) = Agree d n

SameRuns-by :
    (a b : Result Database) (c d : Result Manager) → a ≡ b → c ≡ d → SameRuns b d → SameRuns a c
SameRuns-by a b c d e f h = rw (e, f) h

abbrev with_task : TaskState → ContextPatch
with_task task = record { agent_status = none; status_history = none; task_state = some task }

patch_context_found :
    (clock : ℕ) (id : String) (p : ContextPatch) (r : RunRecord) (db : Database)
    → lookup id db.runs ≡ some r
    → (other : String)
    → lookup other (patch_context clock id p db).runs
      ≡ (if id === other then some (patched clock p r) else lookup other db.runs)
unfolding patch_context
patch_context_found clock id p r db there other =
    rw (patch_context, there) (lookup-insert id other (patched clock p r) db.runs)

saved_found :
    (clock : ℕ) (id : String) (task : TaskState) (r : RunRecord) (db : Database)
    → lookup id db.runs ≡ some r
    → save_task_state clock id task db ≡ ok (patch_context clock id (with_task task) db)
unfolding save_task_state
saved_found clock id task r db there = ground arith

-- `saveTaskState` throws the same, or keeps the same runs.
pub save_task_state-Agree :
    (clock : ℕ) (id : String) (task : TaskState) (db : Database) (m : Manager)
    → Agree db m
    → SameRuns (save_task_state clock id task db) (Memory.save_task_state id task m)
unfolding save_task_state Memory.save_task_state view forget map_run_to_state patched
save_task_state-Agree clock id task db m agree = elim (meet db m id agree) [
  | inl (a, b) ↦
      SameRuns-by _ (err run_not_found) _ (err run_not_found) (ground arith) (ground arith) refl
  | inr (r, s, a, b, same, seen) ↦
      SameRuns-by _ _ _
        (ok (record m { runs = insert id (record s { task_state = some task }) m.runs }))
        (saved_found clock id task r db a) (ground arith)
        (stored-Agree id (patched clock (with_task task) r) (record s { task_state = some task }) db
          (patch_context clock id (with_task task) db) m m.history
          (patch_context_found clock id (with_task task) r db a) same
          (ap {A = RunState} (λ v. record v { task_state = some task }) seen) agree)
]
