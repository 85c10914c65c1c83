-- ===== src/React/Calls.antt =====
-- Tool calls, skills, observations and the results of tools: ToolCall of llm/llm.types.ts,
-- SkillSummary of tools/tool-types.ts, PlannedToolCall, ToolCallSummary and ArtifactRef of
-- loop-types.ts, ReactObservation of react-loop/react-types.ts, and how react-loop/tool-call-guard.ts
-- reads the arguments of a call. The text of a call's arguments stands as what `JSON.parse` makes of
-- it, and a text that only a model reads as the list of its UTF-16 units.
use sun_pilot.Base.{ℕ, String, Bool, false, ◌||◌, Option, List, ◌⊎◌, inl, inr, ◌===◌, if◌then◌else◌}
use sun_pilot.Json.{Json, null, bool, num, str, arr, obj, Items, nil, cons, Fields, end, field}
use sun_pilot.Safety.Types.{RiskLevel, Permission}
use sun_pilot.Safety.Policy.{RiskHints}

-- What `JSON.parse` does with the text: it throws with a message, or returns a value.
pub data Parsed : Type 0 where
  invalid : String → Parsed
  value : Json → Parsed

pub record ToolCall : Type 0 where
  pub id : String
  pub name : String
  pub arguments : Parsed

pub data SideEffects : Type 0 where
  no_effects readonly mutation network destructive : SideEffects

pub data Trust : Type 0 where
  local_trusted isolated : Trust

pub data OutputTrust : Type 0 where
  trusted untrusted : OutputTrust

pub record RetryPolicy : Type 0 where
  pub retryable : Bool
  pub max_retries : ℕ
  pub backoff_ms : ℕ

-- The fields of SkillSummary that the guard reads.
pub record SkillSummary : Type 0 where
  pub id : String
  pub name : String
  pub trust : Option Trust
  pub permissions : List Permission
  pub default_timeout_ms : ℕ
  pub max_timeout_ms : ℕ
  pub idempotent : Bool
  pub input_schema : Option Fields
  pub output_schema : Option Fields
  pub side_effects : Option SideEffects
  pub timeout_policy : Option RetryPolicy
  pub risk_hints : RiskHints
  pub projection_hints : Option Fields

-- `reason` is the same in every call; `argumentSources` names the arguments, each from the model.
pub record PlannedToolCall : Type 0 where
  pub id : String
  pub skill_id : String
  pub name : String
  pub arguments : Fields
  pub permissions : List Permission
  pub risk_level : RiskLevel
  pub requires_approval : Bool
  pub timeout_ms : ℕ
  pub idempotent : Bool
  pub side_effects : Option SideEffects
  pub timeout_policy : Option RetryPolicy
  pub risk_hints : RiskHints
  pub input_schema : Option Fields
  pub output_schema : Option Fields
  pub projection_hints : Option Fields
  pub argument_sources : List String
  pub output_trust : OutputTrust

pub data ObservationKind : Type 0 where
  tool_completed tool_failed tool_validation_failed permission_denied : ObservationKind
  approval_rejected duplicate_tool_call : ObservationKind
  model_protocol_error budget_exhausted : ObservationKind

pub record ReactObservation : Type 0 where
  pub kind : ObservationKind
  pub tool_call_id : Option String
  pub skill_id : Option String
  pub is_trusted : Bool
  pub display_summary : String
  pub model_content : List ℕ
  pub structured : Option Fields

pub data ToolStatus : Type 0 where
  completed failed cancelled timeout : ToolStatus

-- Of `metadata` the field `outputTrust`, which is all that the program reads of it.
pub record ToolCallSummary : Type 0 where
  pub id : String
  pub skill_id : String
  pub name : String
  pub status : ToolStatus
  pub summary : String
  pub content : Option (List ℕ)
  pub structured : Option Fields
  pub model_observation : Option (List ℕ)
  pub output_trust : Option OutputTrust
  pub artifact_ids : Option (List String)

pub record ArtifactRef : Type 0 where
  pub id : String
  pub name : String
  pub kind : String
  pub version : Option ℕ

abbrev is_unsafe_key : String → Bool
is_unsafe_key k = k === "__proto__" || k === "prototype" || k === "constructor"

unfoldable mutual
  pub contains_unsafe_object_key : Json → Bool
  contains_unsafe_object_key null = false
  contains_unsafe_object_key (bool b) = false
  contains_unsafe_object_key (num n) = false
  contains_unsafe_object_key (str s) = false
  contains_unsafe_object_key (arr xs) = items_unsafe xs
  contains_unsafe_object_key (obj fs) = fields_unsafe fs

  pub items_unsafe : Items → Bool
  items_unsafe nil = false
  items_unsafe (cons x xs) = contains_unsafe_object_key x || items_unsafe xs

  pub fields_unsafe : Fields → Bool
  fields_unsafe end = false
  fields_unsafe (field k v fs) = is_unsafe_key k || contains_unsafe_object_key v || fields_unsafe fs

-- The arguments as an object, or the message of what is thrown.
unfoldable pub object_arguments : Parsed → String ⊎ Fields
unfolding fields_unsafe
object_arguments (invalid message) = inl message
object_arguments (value (obj fs)) =
    if fields_unsafe fs then inl "arguments contain an unsafe object key" else inr fs
object_arguments (value null) = inl "arguments must be a JSON object"
object_arguments (value (bool b)) = inl "arguments must be a JSON object"
object_arguments (value (num n)) = inl "arguments must be a JSON object"
object_arguments (value (str s)) = inl "arguments must be a JSON object"
object_arguments (value (arr xs)) = inl "arguments must be a JSON object"
