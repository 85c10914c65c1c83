-- ===== src/Run/Repository.antt =====
-- RepositoryRunStateManager of agent-kernel/persistence/repository-run-state-manager.ts over the tables
-- of Run.Store, whose repository has all optional methods and transactions. A method reads the run and
-- then writes in one transaction; `now` is the time that it reads, and `clock` that of the statements.
pub mod Writes
pub mod Refines
pub mod Operations
pub mod Leases
pub mod Creation
pub mod Trace
pub mod Races
use sun_pilot.Base.{
  ℕ, ◌-◌, String, Bool, true, false, Option, none, some, List, [], ◌∷◌, ◌++◌, ltb, not,
  if◌then◌else◌, length, drop, lookup, take,
}
use sun_pilot.Text.Units.{units}
use sun_pilot.Text.Pattern.{is_space}
use sun_pilot.Text.Trim.{trim}
use sun_pilot.Run.Status.{
  AgentLoopStatus, created, running, completed, cancelled, failed, same_status, includes,
  legal_transitions, is_terminal,
}
use sun_pilot.Run.State.{
  RunState, AgentLoopInput, TaskState, Thrown, or_else, input_snapshot, agent_error,
}
use sun_pilot.Run.Manager.{Result, ok, err, run_not_found, state_conflict, ◌>>=◌}
use sun_pilot.Run.Store.{
  StatusEntry, RunRecord, StatusRow, Database, StatusUpdate, ContextPatch, create,
  update_status_if_current, update_status_if_in_set, patch_context, append_row,
}

-- `replace(/\s+/g, " ")`
collapse : Bool → List ℕ → List ℕ
collapse in_space [] = []
collapse in_space (c ∷ s) =
    let rest = collapse (is_space c) s in
    if is_space c then (if in_space then rest else 32 ∷ rest) else c ∷ rest

abbrev title_or : List ℕ → List ℕ
title_or [] = units "Agent run"
title_or (c ∷ s) = c ∷ s

unfoldable pub title_from_goal : String → List ℕ
unfolding collapse
title_from_goal goal = title_or (take 80 (collapse false (trim (units goal))))

abbrev pub max_status_history : ℕ
max_status_history = 1000

unfoldable pub truncate_status_history : List StatusEntry → List StatusEntry
truncate_status_history history =
    if ltb max_status_history (length history)
    then drop (length history - max_status_history) history
    else history

-- `history.at(-1)?.previousStatus`
unfoldable pub last_previous : List StatusEntry → Option AgentLoopStatus
last_previous [] = none
last_previous (e ∷ []) = e.previous_status
last_previous (e ∷ f ∷ es) = last_previous (f ∷ es)

-- What is stored was written by the manager, so `normalizeInputSnapshot` and `normalizeError` leave
-- it as it is.
unfoldable pub map_run_to_state : RunRecord → RunState
unfolding last_previous
map_run_to_state r = record {
  run_id = r.id;
  conversation_id = or_else r.conversation_id "";
  status = r.status;
  previous_status = last_previous r.context.status_history;
  mode = r.mode;
  goal = r.goal;
  input = r.input;
  error = r.error;
  task_state = r.context.task_state;
  created_at = r.created_at;
  updated_at = r.updated_at;
  completed_at = r.completed_at;
  cancelled_at = r.cancelled_at;
}

abbrev pub status_entry : ℕ → Option AgentLoopStatus → AgentLoopStatus → String → StatusEntry
status_entry now previous next reason = record {
  previous_status = previous;
  next_status = next;
  reason = reason;
  created_at = now;
}

unfoldable pub new_record : ℕ → AgentLoopInput → RunRecord
unfolding title_from_goal input_snapshot
new_record now input = record {
  id = input.run_id;
  title = title_from_goal input.message;
  status = created;
  mode = input.mode;
  conversation_id = some input.conversation_id;
  user_id = input.user_id;
  goal = some input.message;
  error = none;
  created_at = now;
  updated_at = now;
  completed_at = none;
  cancelled_at = none;
  input = some (input_snapshot input);
  context = record {
    agent_status = created;
    status_history = status_entry now none created "run created" ∷ [];
    task_state = none;
  };
}

-- `none` where the table has the id.
unfoldable pub create_run : ℕ → AgentLoopInput → Database → Option (Database × RunState)
unfolding new_record map_run_to_state
create_run now input db = elim (create (new_record now input) db) [
  | none ↦ none
  | some stored ↦ some (
    append_row
        (record {
          run_id = input.run_id;
          entry = status_entry now none created "run created";
          error = none;
        })
        stored,
    map_run_to_state (new_record now input),
  )
]

-- `requireRun`
abbrev pub require_run : String → Database → Result RunRecord
require_run id db = elim (lookup id db.runs) [ none ↦ err run_not_found | some r ↦ ok r ]

-- What a method carries into its transaction: the run, the status that it read, and what it writes.
pub record Change : Type 0 where
  pub run_id : String
  pub current : AgentLoopStatus
  pub update : StatusUpdate
  pub history : List StatusEntry
  pub row : StatusRow

abbrev pub next_history : RunRecord → StatusEntry → List StatusEntry
next_history r e = truncate_status_history (r.context.status_history ++ e ∷ [])

abbrev pub patch_of : Change → ContextPatch
patch_of c = record {
  agent_status = some c.update.status;
  status_history = some c.history;
  task_state = none;
}

-- `writeAll` of markStatus and markFailed: nothing is written if the status has changed since.
unfoldable pub write_change : ℕ → Change → Database → Result Database
write_change clock c db = elim (update_status_if_current c.run_id c.current c.update db) [
  | none ↦ err state_conflict
  | some updated ↦ ok (append_row c.row (patch_context clock c.run_id (patch_of c) updated))
]

abbrev pub when : Bool → ℕ → Option ℕ
when true n = some n
when false n = none

unfoldable pub status_change : ℕ → AgentLoopStatus → Option String → RunRecord → Change
status_change now next reason r =
    let e = status_entry now (some r.status) next (or_else reason "state transition") in
    record {
      run_id = r.id;
      current = r.status;
      update = record {
        status = next;
        updated_at = now;
        completed_at = when (is_terminal next) now;
        cancelled_at = when (same_status next cancelled) now;
        error = none;
      };
      history = next_history r e;
      row = record { run_id = r.id; entry = e; error = none };
    }

unfoldable pub failure_change : ℕ → Thrown → RunRecord → Change
unfolding agent_error
failure_change now error r =
    let e = status_entry now (some r.status) failed error.message in
    record {
      run_id = r.id;
      current = r.status;
      update = record {
        status = failed;
        updated_at = now;
        completed_at = some now;
        cancelled_at = none;
        error = some (agent_error error);
      };
      history = next_history r e;
      row = record { run_id = r.id; entry = e; error = some (agent_error error) };
    }

-- What markStatus does with the run that it read: nothing, a conflict, or a change.
unfoldable pub plan_status :
    ℕ → AgentLoopStatus → Option String → RunRecord → Result (Option Change)
unfolding status_change
plan_status now next reason r =
    if same_status r.status next
    then ok none
    else (if is_terminal r.status
        then ok none
        else (if includes (legal_transitions r.status) next
            then ok (some (status_change now next reason r))
            else err state_conflict))

unfoldable pub plan_failure : ℕ → Thrown → RunRecord → Result (Option Change)
unfolding failure_change
plan_failure now error r =
    if is_terminal r.status
    then ok none
    else (if includes (legal_transitions r.status) failed
        then ok (some (failure_change now error r))
        else err state_conflict)

-- The rest of a method after its plan.
unfoldable pub perform : ℕ → RunRecord → Option Change → Database → Result (Database × RunState)
unfolding write_change map_run_to_state
perform clock r none db = ok (db, map_run_to_state r)
perform clock r (some c) db = do
  written ← write_change clock c db
  fresh ← require_run c.run_id written
  ok (written, map_run_to_state fresh)

unfoldable pub mark_status :
    ℕ → ℕ → String → AgentLoopStatus → Option String → Database → Result (Database × RunState)
unfolding plan_status perform
mark_status now clock run_id next reason db = do
  r ← require_run run_id db
  plan ← plan_status now next reason r
  perform clock r plan db

unfoldable pub mark_failed : ℕ → ℕ → String → Thrown → Database → Result (Database × RunState)
unfolding plan_failure perform
mark_failed now clock run_id error db = do
  r ← require_run run_id db
  plan ← plan_failure now error r
  perform clock r plan db

unfoldable pub mark_completed : ℕ → ℕ → String → Database → Result (Database × RunState)
unfolding mark_status
mark_completed now clock run_id db =
    mark_status now clock run_id completed (some "run completed") db

unfoldable pub mark_cancelled :
    ℕ → ℕ → String → Option String → Database → Result (Database × RunState)
unfolding mark_status
mark_cancelled now clock run_id reason db =
    mark_status now clock run_id cancelled (some (or_else reason "user cancelled")) db

unfoldable pub acquisition : ℕ → RunRecord → Change
acquisition now r =
    let e = status_entry now (some r.status) running "acquireExecution" in
    record {
      run_id = r.id;
      current = r.status;
      update = record {
        status = running;
        updated_at = now;
        completed_at = none;
        cancelled_at = none;
        error = none;
      };
      history = next_history r e;
      row = record { run_id = r.id; entry = e; error = none };
    }

-- `writeAll` of acquireExecution, with whether the run was acquired.
unfoldable pub write_acquisition : ℕ → List AgentLoopStatus → Change → Database → Database × Bool
write_acquisition clock expected c db =
    elim (update_status_if_in_set c.run_id expected c.update db) [
      | none ↦ (db, false)
      | some updated ↦ (append_row c.row (patch_context clock c.run_id (patch_of c) updated), true)
    ]

unfoldable pub acquire_execution :
    ℕ → ℕ → String → List AgentLoopStatus → Database → Result (Database × Bool × RunState)
unfolding acquisition write_acquisition map_run_to_state
acquire_execution now clock run_id expected db = do
  r ← require_run run_id db
  let result = write_acquisition clock expected (acquisition now r) db
  if not (includes expected r.status)
      then ok (db, false, map_run_to_state r)
      else do fresh ← require_run run_id result.0; ok (result.0, result.1, map_run_to_state fresh)

unfoldable pub get_run : String → Database → Option RunState
unfolding map_run_to_state
get_run run_id db = elim (lookup run_id db.runs) [
  | none ↦ none
  | some r ↦ some (map_run_to_state r)
]

unfoldable pub save_task_state : ℕ → String → TaskState → Database → Result Database
save_task_state clock run_id task_state db = do
  r ← require_run run_id db
  ok (
      patch_context clock run_id
        (record { agent_status = none; status_history = none; task_state = some task_state }) db)
