-- ===== src/Run/Store.antt =====
-- The tables `runs` and `run_status_history`, with the statements of PostgresRunRepository
-- (packages/storage/src/postgres/postgres.run.repository.ts) and of
-- PostgresRunStatusHistoryRepository that the run state manager uses, and RunRecord of
-- packages/protocol/src/types.ts. `clock` is what `NOW()` reads in a statement.
use sun_pilot.Base.{
  ℕ, String, Option, none, some, List, [], ◌∷◌, ◌++◌, if◌then◌else◌, Dict, lookup, insert,
}
use sun_pilot.Run.Status.{AgentLoopStatus, same_status, includes}
use sun_pilot.Run.State.{RunMode, TaskState, InputSnapshot, AgentError}

-- An entry of `context.statusHistory`; its field `actor` is `system` in every entry.
pub record StatusEntry : Type 0 where
  pub previous_status : Option AgentLoopStatus
  pub next_status : AgentLoopStatus
  pub reason : String
  pub created_at : ℕ

pub record RunContext : Type 0 where
  pub agent_status : AgentLoopStatus
  pub status_history : List StatusEntry
  pub task_state : Option TaskState

-- The columns that the manager writes; `title` is a text of UTF-16 units.
pub record RunRecord : Type 0 where
  pub id : String
  pub title : List ℕ
  pub status : AgentLoopStatus
  pub mode : RunMode
  pub conversation_id : Option String
  pub user_id : Option String
  pub goal : Option String
  pub error : Option AgentError
  pub created_at : ℕ
  pub updated_at : ℕ
  pub completed_at : Option ℕ
  pub cancelled_at : Option ℕ
  pub input : Option InputSnapshot
  pub context : RunContext

pub record StatusRow : Type 0 where
  pub run_id : String
  pub entry : StatusEntry
  pub error : Option AgentError

pub record Database : Type 0 where
  pub runs : Dict RunRecord
  pub status_rows : List StatusRow

pub record StatusUpdate : Type 0 where
  pub status : AgentLoopStatus
  pub updated_at : ℕ
  pub completed_at : Option ℕ
  pub cancelled_at : Option ℕ
  pub error : Option AgentError

-- `COALESCE(new, old)`
abbrev pub coalesce {ℓ} : {A : Type ℓ} → Option A → Option A → Option A
coalesce none old = old
coalesce (some new) old = some new

-- The columns that an update sets.
unfoldable pub set_status : StatusUpdate → RunRecord → RunRecord
set_status u r = record r {
  status = u.status;
  updated_at = u.updated_at;
  completed_at = coalesce u.completed_at r.completed_at;
  cancelled_at = coalesce u.cancelled_at r.cancelled_at;
  error = coalesce u.error r.error;
}

abbrev pub with_run : Database → String → RunRecord → Database
with_run db id r = record db { runs = insert id r db.runs }

-- `INSERT`: the id is the primary key.
unfoldable pub create : RunRecord → Database → Option Database
create r db = elim (lookup r.id db.runs) [ some old ↦ none | none ↦ some (with_run db r.id r) ]

-- `UPDATE … WHERE id = … AND status = …`; `none` if no row was updated.
unfoldable pub update_status_if_current :
    String → AgentLoopStatus → StatusUpdate → Database → Option Database
unfolding set_status
update_status_if_current id expected u db = elim (lookup id db.runs) [
  | none ↦ none
  | some r ↦ if same_status r.status expected then some (with_run db id (set_status u r)) else none
]

-- `UPDATE … WHERE id = … AND status = ANY(…)`
unfoldable pub update_status_if_in_set :
    String → List AgentLoopStatus → StatusUpdate → Database → Option Database
unfolding set_status
update_status_if_in_set id expected u db = elim (lookup id db.runs) [
  | none ↦ none
  | some r ↦ if includes expected r.status then some (with_run db id (set_status u r)) else none
]

-- `context || patch`
pub record ContextPatch : Type 0 where
  pub agent_status : Option AgentLoopStatus
  pub status_history : Option (List StatusEntry)
  pub task_state : Option TaskState

abbrev over {ℓ} : {A : Type ℓ} → Option A → A → A
over none old = old
over (some new) old = new

unfoldable pub patched : ℕ → ContextPatch → RunRecord → RunRecord
patched clock p r = record r {
  updated_at = clock;
  context = record {
    agent_status = over p.agent_status r.context.agent_status;
    status_history = over p.status_history r.context.status_history;
    task_state = coalesce p.task_state r.context.task_state;
  };
}

-- No row is updated where the run is missing.
unfoldable pub patch_context : ℕ → String → ContextPatch → Database → Database
unfolding patched
patch_context clock id p db = elim (lookup id db.runs) [
  | none ↦ db
  | some r ↦ with_run db id (patched clock p r)
]

abbrev pub append_row : StatusRow → Database → Database
append_row row db = record db { status_rows = db.status_rows ++ row ∷ [] }
