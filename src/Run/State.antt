-- ===== src/Run/State.antt =====
-- The records of a run: loop-types.ts (AgentLoopInput, AttachmentRef) and RunState of
-- run-state-manager.ts. A time is the number of milliseconds that `new Date()` reads.
use sun_pilot.Base.{ℕ, String, Bool, Option, none, some, List, []}
use sun_pilot.Json.{Json}
use sun_pilot.Run.Status.{AgentLoopStatus}

pub data PermissionMode : Type 0 where
  ask auto full : PermissionMode

pub data RunMode : Type 0 where
  chat agent : RunMode

pub data ChatModelId : Type 0 where
  dp seed : ChatModelId

pub data ClientSource : Type 0 where
  web cli api : ClientSource

pub data Provider : Type 0 where
  aliyun_oss s3 minio local : Provider

pub record AttachmentRef : Type 0 where
  pub id : String
  pub name : String
  pub type : String
  pub size_bytes : Option ℕ
  pub url : Option String
  pub data_url : Option String
  pub storage_key : Option String
  pub provider : Option Provider
  pub checksum : Option String

pub record Client : Type 0 where
  pub source : ClientSource
  pub connection_id : Option String

pub record AgentLoopInput : Type 0 where
  pub run_id : String
  pub conversation_id : String
  pub user_message_id : String
  pub user_id : Option String
  pub message : String
  pub mode : RunMode
  pub permission_mode : Option PermissionMode
  pub model_id : Option ChatModelId
  pub attachments : Option (List AttachmentRef)
  pub client : Client

-- `version: 1` is the same in every snapshot and is left out.
pub record InputSnapshot : Type 0 where
  pub message : String
  pub attachments : List AttachmentRef
  pub client : Client
  pub permission_mode : PermissionMode
  pub model_id : Option ChatModelId
  pub mode : RunMode
  pub user_message_id : String

pub record AgentError : Type 0 where
  pub code : String
  pub message : String
  pub category : String
  pub retryable : Bool

pub record TaskState : Type 0 where
  pub goal : String
  pub completed_steps : List String
  pub pending_steps : List String
  pub gathered_facts : Json
  pub open_questions : List String
  pub iteration : ℕ

pub record RunState : Type 0 where
  pub run_id : String
  pub conversation_id : String
  pub status : AgentLoopStatus
  pub previous_status : Option AgentLoopStatus
  pub mode : RunMode
  pub goal : Option String
  pub input : Option InputSnapshot
  pub error : Option AgentError
  pub task_state : Option TaskState
  pub created_at : ℕ
  pub updated_at : ℕ
  pub completed_at : Option ℕ
  pub cancelled_at : Option ℕ

-- What is thrown, where it is not null or undefined: `message` is `err.message`, or `String(error)` of
-- what is no Error.
pub record Thrown : Type 0 where
  pub code : Option String
  pub message : String
  pub category : Option String
  pub retryable : Option Bool

-- `a ?? b`
abbrev pub or_else {ℓ} : {A : Type ℓ} → Option A → A → A
or_else none b = b
or_else (some a) b = a

unfoldable pub input_snapshot : AgentLoopInput → InputSnapshot
input_snapshot input = record {
  message = input.message;
  attachments = or_else input.attachments [];
  client = input.client;
  permission_mode = or_else input.permission_mode auto;
  model_id = input.model_id;
  mode = input.mode;
  user_message_id = input.user_message_id;
}

-- The record that `markFailed` stores for a thrown value.
unfoldable pub agent_error : Thrown → AgentError
agent_error error = record {
  code = or_else error.code "AGENT_INTERNAL_ERROR";
  message = error.message;
  category = or_else error.category "internal";
  retryable = or_else error.retryable Bool.false;
}
