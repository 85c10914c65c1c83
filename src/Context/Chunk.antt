-- ===== src/Context/Chunk.antt =====
-- ContextChunk and the tables of agent-kernel/context/context-types.ts. The content of a chunk is the
-- list of its UTF-16 code units, so that `length` and `slice` are those of the source.
use sun_pilot.Base.{ℕ, ◌+◌, ◌/◌, String, Bool, true, false, Option, List, length}
use sun_pilot.Json.{Fields}

pub data Source : Type 0 where
  system current_message conversation_history conversation_summary : Source
  memory artifact tool_result skill_catalog run_state safety_policy external : Source

pub data TrustLevel : Type 0 where
  system user memory tool external untrusted : TrustLevel

pub record ContextChunk : Type 0 where
  pub id : String
  pub source : Source
  pub title : String
  pub content : List ℕ
  pub priority : ℕ
  pub token_estimate : ℕ
  pub metadata : Fields
  pub created_at : Option String
  pub trust : Option TrustLevel
  pub source_uri : Option String
  pub generated_at : Option String
  pub expires_at : Option String
  pub blocked : Option Bool
  pub warning : Option String
  pub authority : Option ℕ

-- The place of a source in TRIM_ORDER, `trimPriority.get(source) ?? TRIM_ORDER.length`.
unfoldable pub trim_priority : Source → ℕ
trim_priority Source.memory = 0
trim_priority Source.tool_result = 1
trim_priority Source.artifact = 2
trim_priority Source.conversation_history = 3
trim_priority Source.conversation_summary = 4
trim_priority Source.skill_catalog = 5
trim_priority _ = 6

-- MANDATORY_SOURCES.has
unfoldable pub is_mandatory_source : Source → Bool
is_mandatory_source Source.system = true
is_mandatory_source Source.current_message = true
is_mandatory_source Source.safety_policy = true
is_mandatory_source Source.run_state = true
is_mandatory_source _ = false

-- `Math.ceil(text.length / 4)`
unfoldable pub estimate_tokens : List ℕ → ℕ
estimate_tokens text = (length text + 3) / 4
