-- ===== src/React/Session.antt =====
-- The state of the loop of react-loop/react-loop-runner.ts, with the types of react-loop/react-types.ts.
-- A round of the loop makes one model call, so what the outside does in a round (the model, the tools,
-- the clock, the abort signal and random ids) is a function of the number of model calls made so far.
use sun_pilot.Base.{ℕ, String, Bool, Option, List, [], ◌∷◌, ◌++◌, Dict}
use sun_pilot.Run.State.{PermissionMode}
use sun_pilot.Tools.Validator.{Platform}
use sun_pilot.React.Calls.{ToolCall, SkillSummary, PlannedToolCall, ToolCallSummary, ArtifactRef}
use sun_pilot.React.Counts.{Counts}
use sun_pilot.React.Limits.{ReactLoopLimits}
use sun_pilot.React.Transcript.{ChatMessage}

pub data FinishReason : Type 0 where
  stop tool_calls : FinishReason

pub record ReactModelTurnResult : Type 0 where
  pub text : List ℕ
  pub tool_calls : List ToolCall
  pub finish_reason : FinishReason
  pub text_part_id : Option String
  pub first_token_ms : ℕ
  pub model_call_id : String
  pub protocol_error : Option String

pub data LoopError : Type 0 where
  aborted_error : LoopError
  deadline_error : ℕ → LoopError
  invalid_output : String → LoopError
  disabled_tools_called : LoopError
  scope_mismatch : LoopError
  inner_error : String → LoopError

-- What an awaited operation does: it returns, or throws, and then its deadline may have passed and
-- the run may have been aborted.
pub data Awaited {ℓ} (A : Type ℓ) : Type ℓ where
  returned : A → Awaited A
  threw : (timed_out aborted : Bool) → String → Awaited A

-- The input of a model turn that depends on the loop.
pub record ModelRequest : Type 0 where
  pub messages : List ChatMessage
  pub is_final : Bool
  pub disable_tools : Bool
  pub max_tokens : Option ℕ

pub record ToolExecution : Type 0 where
  pub summaries : List ToolCallSummary
  pub artifacts : List ArtifactRef

pub record World : Type 0 where
  pub is_aborted : ℕ → Bool
  pub elapsed_ms : ℕ → ℕ
  pub model : ℕ → ModelRequest → Awaited ReactModelTurnResult
  pub execute : ℕ → List PlannedToolCall → Awaited ToolExecution
  pub execution_ms : ℕ → ℕ
  pub uuid : ℕ → ℕ → String

-- What stays the same in a run of the loop. `guard_chars` is the limit of the guard's own builder.
pub record Session : Type 0 where
  pub run_id : String
  pub conversation_id : String
  pub message_id : String
  pub permission_mode : PermissionMode
  pub limits : ReactLoopLimits
  pub name_map : Dict String
  pub all_skills : List SkillSummary
  pub candidate_tool_ids : List String
  pub tool_retrieval_ms : ℕ
  pub guard_chars : ℕ
  pub platform : Platform

-- Of a checkpoint what the loop computes and reads back; the time, the request and the parts of the
-- message that it also holds are copies.
pub record ReactCheckpoint : Type 0 where
  pub run_id : String
  pub conversation_id : String
  pub message_id : String
  pub iteration : ℕ
  pub model_calls : ℕ
  pub transcript : List ChatMessage
  pub candidate_tool_ids : List String
  pub pending_tool_calls : List PlannedToolCall
  pub artifacts : List ArtifactRef
  pub tool_call_summaries : List ToolCallSummary
  pub permission_mode : PermissionMode

-- The event `agent.react.turn.completed`.
pub record TurnCompleted : Type 0 where
  pub iteration : ℕ
  pub model_call_id : String
  pub finish_reason : FinishReason
  pub tool_call_count : ℕ
  pub executable_count : ℕ
  pub approval_count : ℕ
  pub rejected_count : ℕ
  pub execution_ms : ℕ
  pub observation_chars : ℕ
  pub accumulated_model_calls : ℕ

pub data TextRole : Type 0 where
  final user_prompt : TextRole

-- What the loop does to the outside, in order.
pub data Effect : Type 0 where
  asked : ModelRequest → Effect
  ran : List PlannedToolCall → Effect
  persisted : ReactCheckpoint → Effect
  emitted : TurnCompleted → Effect
  text_completed : String → Effect
  text_role : String → TextRole → Effect
  fallback_shown : List ℕ → Effect
  error_added : String → String → Option String → Effect
  rich_cards_set : List ArtifactRef → Effect

pub record LoopState : Type 0 where
  pub transcript : List ChatMessage
  pub artifacts : List ArtifactRef
  pub tool_call_summaries : List ToolCallSummary
  pub iteration : ℕ
  pub model_calls : ℕ
  pub total_tool_execution_ms : ℕ
  pub first_round_first_token_ms : ℕ
  pub seen_signatures : Counts
  pub force_finalization : Bool
  pub effects : List Effect

pub record ReactLoopTiming : Type 0 where
  pub tool_retrieval_ms : ℕ
  pub total_tool_execution_ms : ℕ
  pub first_round_first_token_ms : ℕ
  pub final_round_first_token_ms : ℕ

-- The results of `run`; the checkpoint holds the artifacts and the tool calls.
pub data ReactLoopResult : Type 0 where
  completed : (content : List ℕ) → ReactCheckpoint → ReactLoopTiming → ReactLoopResult
  waiting_user :
      (question : List ℕ) (missing_fields : List String) (prompt_text_part_id : Option String)
      → ReactCheckpoint
      → ReactLoopTiming
      → ReactLoopResult
  waiting_approval : List PlannedToolCall → ReactCheckpoint → ReactLoopTiming → ReactLoopResult
  thrown : LoopError → ReactLoopResult

-- A round leads to the next one, or ends the loop.
pub data Step : Type 0 where
  continues : LoopState → Step
  stops : ReactLoopResult → LoopState → Step

abbrev pub note : Effect → LoopState → LoopState
note e l = record l { effects = l.effects ++ e ∷ [] }
