-- ===== src/Tests/LoopTests.antt =====
-- Runs of the loop: the model reads once and answers, asks for an approval, or never stops.
use sun_pilot.Json.Print.{stringify, quoted}
use sun_pilot.Text.{after_last, starts_with, join}
use sun_pilot.Safety.Policy.{category_from_skill_id, assessed_risk, evaluate}
use sun_pilot.Safety.Risk.{classify_category, string_values, classify_risk}
use sun_pilot.Text.Pattern.{is_word, test, is_space}
use sun_pilot.React.Transcript.{collect_seen_signatures, user, plain, assistant_message}
use sun_pilot.React.Counts.{count_of}
use sun_pilot.Tools.Validator.{validate_tool_arguments}
use sun_pilot.React.Calls.{
  object_arguments, SkillSummary, ToolCall, value, PlannedToolCall, ToolCallSummary,
  completed as tool_ok, trusted,
}
use sun_pilot.React.Loop.{guard_input, round, loop}
use sun_pilot.React.Guard.{skill_of, is_blank, check}
use sun_pilot.React.Control.{parse_request_user_input}
use sun_pilot.Base.{
  inl, inr, ℕ, zero, suc, String, true, false, Option, none, some, List, [], ◌∷◌, ◌≡◌, refl, map,
  lookup, max, ◌≤◌, insert,
}
use sun_pilot.Json.{field, end, str, obj}
use sun_pilot.React.Transcript.Closed.{IsClosed, awaiting}
use sun_pilot.React.Session.{
  ReactCheckpoint, ReactLoopTiming, World, Session, ReactModelTurnResult, stop, returned, LoopState,
  ReactLoopResult, completed, waiting_approval, waiting_user, thrown, scope_mismatch,
}
use sun_pilot.React.Loop.Answered.{IsAnswered}
use sun_pilot.React.Loop.Approved.{AllSafe}
use sun_pilot.React.Loop.Run.{
  ApprovedTool, approved_batch_matches, resume_after_approved_tools, ReactContinuation, run,
  state_of,
}
use sun_pilot.React.Loop.Run.Approval.{unapproved_refused, IsUnapproved}
use sun_pilot.React.Loop.Run.Laws.{
  run-returns, run-bound, run-AllSafe, run-IsAnswered, resume_after_approved_tools-IsAnswered,
  resume_after_rejection-IsAnswered, resume_after_approved_tools-returns,
  resume_after_rejection-returns,
}
use sun_pilot.Text.Units.{units}
use sun_pilot.Run.State.{auto}
use sun_pilot.Safety.Types.{low, medium, Permission, shell_execute, filesystem_read, RiskLevel}
use sun_pilot.React.Limits.{default_react_loop_limits}
use sun_pilot.Json.Stable.{stable_stringify}
use mathlib.Core.List.Perm

abbrev skill : String → Permission → RiskLevel → SkillSummary
skill id permission risk = record {
  id = id;
  name = id;
  trust = none;
  permissions = permission ∷ [];
  default_timeout_ms = 1000;
  max_timeout_ms = 5000;
  idempotent = true;
  input_schema = none;
  output_schema = none;
  side_effects = none;
  timeout_policy = none;
  risk_hints = record { default_risk = some risk; destructive_args = none; external_hosts = none };
  projection_hints = none;
}

abbrev session : Session
session = record {
  run_id = "r";
  conversation_id = "c";
  message_id = "m";
  permission_mode = auto;
  limits = record default_react_loop_limits { max_model_calls = 3 };
  name_map = ("read", "fs:memory.read") ∷ ("run", "dev:shell.run") ∷ [];
  all_skills =
      skill "fs:memory.read" filesystem_read low ∷ skill "dev:shell.run" shell_execute medium ∷ [];
  candidate_tool_ids = "fs:memory.read" ∷ "dev:shell.run" ∷ [];
  tool_retrieval_ms = 0;
  guard_chars = 8000;
  platform = record { engine = λ pattern text. some true; precedes = λ a b. false };
}

abbrev call : String → ToolCall
call name = record { id = "1"; name = name; arguments = value (obj (field "q" (str "x") end)) }

abbrev turn : String → List ToolCall → ReactModelTurnResult
turn text calls = record {
  text = units text;
  tool_calls = calls;
  finish_reason = stop;
  text_part_id = none;
  first_token_ms = 1;
  model_call_id = "mc";
  protocol_error = none;
}

abbrev result_of : PlannedToolCall → ToolCallSummary
result_of p = record {
  id = p.id;
  skill_id = p.skill_id;
  name = p.name;
  status = tool_ok;
  summary = "ok";
  content = none;
  structured = none;
  model_observation = none;
  output_trust = none;
  artifact_ids = none;
}

-- The model calls the tool in its first turn, and answers in the second.
abbrev turns : String → ℕ → ReactModelTurnResult
turns name zero = turn "" (call name ∷ [])
turns name (suc n) = turn "done" []

abbrev world : String → World
world name = record {
  is_aborted = λ n. false;
  elapsed_ms = λ n. 0;
  model = λ n request. returned (turns name n);
  execute = λ n calls. returned (record { summaries = map result_of calls; artifacts = [] });
  execution_ms = λ n. 5;
  uuid = λ n i. "u";
}

abbrev fresh : ReactContinuation
fresh = record {
  transcript = plain user (units "hello") ∷ [];
  artifacts = [];
  tool_calls = [];
  iteration = 0;
  model_calls = 0;
}

-- How a run ended: its text, or the ids of the calls that wait.
abbrev ending : Option (ReactLoopResult × LoopState) → List ℕ × List String
ending none = ([], [])
ending (some (completed content c t, l)) = (content, [])
ending (some (waiting_approval calls c t, l)) = ([], map (λ p. p.id) calls)
ending (some (waiting_user question fields part c t, l)) = (question, [])
ending (some (thrown e, l)) = ([], [])

reads : ending (run session (world "read") fresh) ≡ (units "done", [])
unfolding run loop round parse_request_user_input check is_blank is_space skill_of lookup
    guard_input object_arguments validate_tool_arguments count_of collect_seen_signatures evaluate
    assessed_risk classify_risk test join string_values is_word classify_category
    category_from_skill_id starts_with after_last units
reads = refl

asks : ending (run session (world "run") fresh) ≡ ([], "1" ∷ [])
unfolding run loop round parse_request_user_input check is_blank is_space skill_of lookup
    guard_input object_arguments validate_tool_arguments count_of collect_seen_signatures evaluate
    assessed_risk classify_risk test join string_values is_word classify_category
    category_from_skill_id starts_with after_last units
asks = refl

run-returns_example :
    (r : ReactLoopResult × LoopState) × (run session (world "read") fresh ≡ some r)
run-returns_example = run-returns session (world "read") fresh

-- What the run of the first test ended with.
abbrev ended : ReactLoopResult × LoopState
ended = (run-returns session (world "read") fresh).0

run-bound_example : (ended.1.model_calls ≤ max 3 1) × (ended.1.iteration ≤ max 8 0)
run-bound_example =
    run-bound session (world "read") fresh ended.0 ended.1
      (run-returns session (world "read") fresh).1

run-AllSafe_example : AllSafe session ended.1
run-AllSafe_example =
    run-AllSafe session (world "read") fresh ended.0 ended.1
      (run-returns session (world "read") fresh).1

fresh-IsClosed : IsClosed fresh.transcript
unfolding awaiting
fresh-IsClosed = refl

run-IsAnswered_example : IsAnswered ended.0
run-IsAnswered_example =
    run-IsAnswered session (world "read") fresh ended.0 ended.1 fresh-IsClosed
      (run-returns session (world "read") fresh).1

abbrev planned : PlannedToolCall
planned = record {
  id = "1";
  skill_id = "dev:shell.run";
  name = "run";
  arguments = field "q" (str "x") end;
  permissions = shell_execute ∷ [];
  risk_level = medium;
  requires_approval = true;
  timeout_ms = 1000;
  idempotent = true;
  side_effects = none;
  timeout_policy = none;
  risk_hints = record {
    default_risk = some medium;
    destructive_args = none;
    external_hosts = none;
  };
  input_schema = none;
  output_schema = none;
  projection_hints = none;
  argument_sources = "q" ∷ [];
  output_trust = trusted;
}

abbrev paused : ReactCheckpoint
paused = record {
  run_id = "r";
  conversation_id = "c";
  message_id = "m";
  iteration = 0;
  model_calls = 1;
  transcript = plain user (units "hello") ∷ assistant_message [] (call "run" ∷ []) ∷ [];
  candidate_tool_ids = session.candidate_tool_ids;
  pending_tool_calls = planned ∷ [];
  artifacts = [];
  tool_call_summaries = [];
  permission_mode = auto;
}

abbrev no_time : ReactLoopTiming
no_time = record {
  tool_retrieval_ms = 0;
  total_tool_execution_ms = 0;
  first_round_first_token_ms = 0;
  final_round_first_token_ms = 0;
}

abbrev consent : List ApprovedTool
consent =
    record { tool_call_id = "1"; skill_id = "dev:shell.run"; arguments = field "q" (str "x") end }
    ∷ []

paused-IsAnswered : IsAnswered (waiting_approval (planned ∷ []) paused no_time)
unfolding awaiting
paused-IsAnswered = ("1" ∷ [], refl, Perm.refl _, refl)

matches : approved_batch_matches session.platform paused.pending_tool_calls consent ≡ true
unfolding approved_batch_matches lookup insert stable_stringify quoted stringify
matches = refl

goes_on :
    ending (resume_after_approved_tools session (world "run") paused consent) ≡ (units "done", [])
unfolding run loop round parse_request_user_input check is_blank is_space skill_of lookup
    guard_input object_arguments validate_tool_arguments count_of collect_seen_signatures evaluate
    assessed_risk classify_risk test join string_values is_word classify_category
    category_from_skill_id starts_with after_last units resume_after_approved_tools insert
    stable_stringify quoted stringify
goes_on = refl

-- An approval of the call's id for another skill.
abbrev misplaced : List ApprovedTool
misplaced =
    record { tool_call_id = "1"; skill_id = "fs:memory.read"; arguments = field "q" (str "x") end }
    ∷ []

misplaced-IsUnapproved : IsUnapproved session.platform misplaced planned
misplaced-IsUnapproved = (λ same fits. cc fits.0, tt)

unapproved_refused_example :
    resume_after_approved_tools session (world "run") paused misplaced
    ≡ some (thrown scope_mismatch, state_of session paused)
unapproved_refused_example =
    unapproved_refused session (world "run") paused misplaced
      (inr (inl (inl misplaced-IsUnapproved)))

abbrev resumed : ReactLoopResult × LoopState
resumed = (resume_after_approved_tools-returns session (world "run") paused consent).0

resume_after_approved_tools-IsAnswered_example : IsAnswered resumed.0
resume_after_approved_tools-IsAnswered_example =
    resume_after_approved_tools-IsAnswered session (world "run") (planned ∷ []) paused no_time
      resumed.0 resumed.1 consent paused-IsAnswered
      (resume_after_approved_tools-returns session (world "run") paused consent).1

abbrev rejected : ReactLoopResult × LoopState
rejected = (resume_after_rejection-returns session (world "run") paused none).0

resume_after_rejection-IsAnswered_example : IsAnswered rejected.0
resume_after_rejection-IsAnswered_example =
    resume_after_rejection-IsAnswered session (world "run") (planned ∷ []) paused no_time rejected.0
      rejected.1 none paused-IsAnswered
      (resume_after_rejection-returns session (world "run") paused none).1
