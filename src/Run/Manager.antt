-- ===== src/Run/Manager.antt =====
-- InMemoryRunStateManager of agent-kernel/run-state-manager.ts. A method takes the time that
-- `new Date()` reads and the manager, and returns the new manager with its result, or what it
-- throws; each throw comes before the first write, so the manager is then as it was.
pub mod Step
pub mod Frame
pub mod Lease
pub mod Ran
pub mod Trace
pub mod History
pub mod Agreement
pub mod Outcome
use sun_pilot.Base.{
  ℕ, ◌-◌, String, Bool, true, false, Option, none, some, List, [], ◌∷◌, ◌++◌, ltb, ◌===◌, not,
  if◌then◌else◌, length, drop, filter, Dict, lookup, insert,
}
use sun_pilot.Run.Status.{
  AgentLoopStatus, created, running, completed, cancelled, failed, same_status, includes,
  legal_transitions, is_terminal,
}
use sun_pilot.Run.State.{
  RunState, AgentLoopInput, TaskState, Thrown, or_else, input_snapshot, agent_error,
}

pub data RunError : Type 0 where
  run_not_found state_conflict : RunError

pub data Result {ℓ} (A : Type ℓ) : Type ℓ where
  ok : A → Result A
  err : RunError → Result A

infixl 5 ◌>>=◌
abbrev pub ◌>>=◌ {ℓ κ} : {A : Type ℓ} {B : Type κ} → Result A → (A → Result B) → Result B
ok a >>= f = f a
err e >>= f = err e

-- The field `actor` is `system` in every entry and is left out.
pub record HistoryEntry : Type 0 where
  pub run_id : String
  pub previous_status : Option AgentLoopStatus
  pub next_status : AgentLoopStatus
  pub reason : String
  pub created_at : ℕ

pub record Manager : Type 0 where
  pub runs : Dict RunState
  pub history : List HistoryEntry

abbrev pub new : Manager
new = record { runs = []; history = [] }

abbrev pub max_history : ℕ
max_history = 1000

-- `splice(0, history.length - MAX_HISTORY)` drops the oldest entries.
unfoldable pub record_history :
    ℕ
    → String
    → Option AgentLoopStatus
    → AgentLoopStatus
    → String
    → List HistoryEntry
    → List HistoryEntry
record_history now run_id previous_status next_status reason history =
    let pushed = history ++ entry ∷ [] in
    if ltb max_history (length pushed) then drop (length pushed - max_history) pushed else pushed
  where
    entry : HistoryEntry
    entry = record {
      run_id = run_id;
      previous_status = previous_status;
      next_status = next_status;
      reason = reason;
      created_at = now;
    }

unfoldable pub create_run : ℕ → AgentLoopInput → Manager → Manager × RunState
unfolding input_snapshot
create_run now input m = (
  record {
    runs = insert input.run_id state m.runs;
    history = record_history now input.run_id none created "run created" m.history;
  },
  state,
)
  where
    state : RunState
    state = record {
      run_id = input.run_id;
      conversation_id = input.conversation_id;
      status = created;
      previous_status = none;
      mode = input.mode;
      goal = some input.message;
      input = some (input_snapshot input);
      error = none;
      task_state = none;
      created_at = now;
      updated_at = now;
      completed_at = none;
      cancelled_at = none;
    }

-- `this.runs.get(runId)` with the throw of AGENT_RUN_NOT_FOUND.
abbrev pub found : Option RunState → Result RunState
found none = err run_not_found
found (some current) = ok current

-- The record that a legal transition of `markStatus` stores.
unfoldable pub moved : ℕ → AgentLoopStatus → RunState → RunState
moved now next_status current = record current {
  status = next_status;
  previous_status = some current.status;
  updated_at = now;
  completed_at = if same_status next_status completed then some now else current.completed_at;
  cancelled_at = if same_status next_status cancelled then some now else current.cancelled_at;
}

unfoldable pub mark_status :
    ℕ → String → AgentLoopStatus → Option String → Manager → Result (Manager × RunState)
unfolding moved
mark_status now run_id next_status reason m = do
  current ← found (lookup run_id m.runs)
  let updated = moved now next_status current
  if same_status current.status next_status
      then ok (m, current)
      else (if is_terminal current.status
          then ok (m, current)
          else (if includes (legal_transitions current.status) next_status
              then ok (
                record {
                  runs = insert run_id updated m.runs;
                  history =
                      record_history now run_id (some current.status) next_status
                        (or_else reason "state transition") m.history;
                },
                updated,
              )
              else err state_conflict))

-- The record that `markFailed` stores.
unfoldable pub failed_with : ℕ → Thrown → RunState → RunState
unfolding agent_error
failed_with now error current = record current {
  status = failed;
  previous_status = some current.status;
  error = some (agent_error error);
  updated_at = now;
  completed_at = some now;
}

unfoldable pub mark_failed : ℕ → String → Thrown → Manager → Result (Manager × RunState)
unfolding failed_with
mark_failed now run_id error m = do
  current ← found (lookup run_id m.runs)
  let updated = failed_with now error current
  if is_terminal current.status
      then ok (m, current)
      else (if includes (legal_transitions current.status) failed
          then ok (
            record {
              runs = insert run_id updated m.runs;
              history =
                  record_history now run_id (some current.status) failed error.message m.history;
            },
            updated,
          )
          else err state_conflict)

unfoldable pub mark_completed : ℕ → String → Manager → Result (Manager × RunState)
unfolding mark_status
mark_completed now run_id m = mark_status now run_id completed (some "run completed") m

unfoldable pub mark_cancelled : ℕ → String → Option String → Manager → Result (Manager × RunState)
unfolding mark_status
mark_cancelled now run_id reason m =
    mark_status now run_id cancelled (some (or_else reason "user cancelled")) m

-- The record that `acquireExecution` stores.
unfoldable pub taken : ℕ → RunState → RunState
taken now current = record current {
  status = running;
  previous_status = some current.status;
  updated_at = now;
}

-- The Boolean is `acquired`.
unfoldable pub acquire_execution :
    ℕ → String → List AgentLoopStatus → Manager → Result (Manager × Bool × RunState)
unfolding taken
acquire_execution now run_id expected_statuses m = do
  current ← found (lookup run_id m.runs)
  let updated = taken now current
  if not (includes expected_statuses current.status)
      then ok (m, false, current)
      else ok (
        record {
          runs = insert run_id updated m.runs;
          history =
              record_history now run_id (some current.status) running "acquireExecution" m.history;
        },
        true,
        updated,
      )

unfoldable pub get_run : String → Manager → Option RunState
get_run run_id m = lookup run_id m.runs

unfoldable pub save_task_state : String → TaskState → Manager → Result Manager
save_task_state run_id task_state m = do
  current ← found (lookup run_id m.runs)
  ok (record m { runs = insert run_id (record current { task_state = some task_state }) m.runs })

unfoldable pub get_history : String → Manager → List HistoryEntry
get_history run_id m = filter (λ h. h.run_id === run_id) m.history
