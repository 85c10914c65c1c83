-- ===== src/React/Loop.antt =====
-- ReactLoopRunner of react-loop/react-loop-runner.ts: one round of the loop of `run`, and the loop.
pub mod Run
pub mod View
pub mod Budget
pub mod Protocol
pub mod Answered
pub mod Approved
use sun_pilot.Base.{
  ℕ, zero, suc, ◌+◌, ◌*◌, ◌-◌, String, Bool, true, false, not, ◌&&◌, ◌||◌, Option, none, some, List,
  [], ◌∷◌, ◌++◌, ◌⊎◌, inl, inr, map, length, leb, ◌==◌, ◌===◌, any, if◌then◌else◌, Dict,
}
use sun_pilot.Text.Units.{units}
use sun_pilot.Run.State.{PermissionMode}
use sun_pilot.Tools.Validator.{Platform}
use sun_pilot.React.Calls.{
  ToolCall, SkillSummary, PlannedToolCall, ReactObservation, ToolCallSummary, ToolStatus,
  ArtifactRef, failed,
}
use sun_pilot.React.Observations.{
  from_tool_summary, to_tool_summary, validation_failure, protocol_failure, exhausted,
  merge_artifacts, is_completed,
}
use sun_pilot.React.Counts.{Counts}
use sun_pilot.React.Control.{
  RequestUserInputAction, RequestUserInputMatch, parse_request_user_input,
}
use sun_pilot.Text.Trim.{is_blank_text}
use sun_pilot.React.Limits.{ReactLoopLimits}
use sun_pilot.React.Transcript.{
  ChatMessage, ChatRole, system, user, assistant, tool, plain, assistant_message, truthy,
  inject_observations,
}
use sun_pilot.React.Guard.{GuardInput, Batch, check}
use sun_pilot.React.Session.{
  FinishReason, ReactModelTurnResult, LoopError, aborted_error, deadline_error, invalid_output,
  disabled_tools_called, inner_error, Awaited, returned, threw, ModelRequest, ToolExecution, World,
  Session, ReactCheckpoint, TurnCompleted, TextRole, final, user_prompt, Effect, asked, ran,
  persisted, emitted, text_completed, text_role, fallback_shown, error_added, rich_cards_set,
  LoopState, ReactLoopTiming, ReactLoopResult, completed, waiting_user, waiting_approval, thrown,
  Step, continues, stops, note,
}
use sun_pilot.React.Turn.{
  create_checkpoint, persist, emit_turn, summarize, refuse, protocol_observations, finish,
  wait_for_user, wait_for_approval, observation_char_limit,
}

unfoldable pub guard_input : Session → GuardInput
guard_input s = record {
  tool_name_map = s.name_map;
  available_skills = s.all_skills;
  permission_mode = s.permission_mode;
  max_repeated_tool_calls = s.limits.max_repeated_tool_calls;
  max_chars = s.guard_chars;
  platform = s.platform;
}

abbrev pub is_failed : ToolStatus → Bool
is_failed failed = true
is_failed _ = false

-- A summary is listed unless one with its id is, and shown as an error if it failed.
unfoldable pub list_summary : ToolCallSummary → LoopState → LoopState
list_summary summary l =
    let listed =
      if any (λ old. old.id === summary.id) l.tool_call_summaries
      then l
      else record l { tool_call_summaries = l.tool_call_summaries ++ summary ∷ [] } in
    if is_failed summary.status
    then note
        (error_added
          (if summary.skill_id === "agent.runtime"
            then "REACT_OBSERVATION"
            else "TOOL_ACTION_REJECTED")
          summary.summary (some summary.id))
        listed
    else listed

unfoldable pub list_summaries : List ToolCallSummary → LoopState → LoopState
unfolding list_summary
list_summaries [] l = l
list_summaries (summary ∷ rest) l = list_summaries rest (list_summary summary l)

abbrev pub processed : Session → List ToolCall → List ReactObservation → List ReactObservation
processed s calls [] =
    map
      (λ call.
        validation_failure (observation_char_limit s.limits) call.id none
          "The model produced a tool call that could not be processed" none)
      calls
processed s calls (o ∷ os) = o ∷ os

-- The end of a round whose calls were checked: the observations answer the calls.
unfoldable pub observe_round :
    Session
    → World
    → ReactModelTurnResult
    → Batch
    → ℕ
    → List ReactObservation
    → LoopState
    → LoopState
unfolding list_summaries summarize emit_turn persist
observe_round s w turn guarded ms found l =
    let observations = processed s turn.tool_calls found in
    let listed = list_summaries (summarize (w.uuid l.model_calls) 0 observations) l in
    persist s [] (
      emit_turn turn listed.iteration (length guarded.executable) 0 (length guarded.observations) ms
        observations
        (record listed {
          transcript = inject_observations listed.transcript turn.tool_calls observations;
          iteration = listed.iteration + 1;
        }))

-- What ends the loop when an awaited operation threw.
abbrev pub rethrown : Session → Bool → Bool → String → LoopError
rethrown s timed_out aborted message =
    if timed_out && not aborted
    then deadline_error s.limits.max_wall_clock_ms
    else inner_error message

-- The state after the tools ran.
unfoldable pub executed : World → ToolExecution → LoopState → LoopState
executed w execution l = record l {
  total_tool_execution_ms = l.total_tool_execution_ms + w.execution_ms l.model_calls;
  artifacts = merge_artifacts l.artifacts execution.artifacts;
  tool_call_summaries = l.tool_call_summaries ++ execution.summaries;
}

unfoldable pub run_tools : Session → World → ReactModelTurnResult → Batch → LoopState → Step
unfolding observe_round executed
run_tools s w turn guarded l =
    let running = note (ran guarded.executable) l in
    elim (w.execute l.model_calls guarded.executable) [
      | threw timed_out aborted message ↦
          stops (thrown (rethrown s timed_out aborted message)) running
      | returned execution ↦ continues (
          observe_round s w turn guarded (w.execution_ms l.model_calls)
            (guarded.observations
              ++ map (from_tool_summary (observation_char_limit s.limits)) execution.summaries)
            (executed w execution running))
    ]

abbrev pub is_empty {ℓ} : {A : Type ℓ} → List A → Bool
is_empty [] = true
is_empty (_ ∷ _) = false

-- The guard checks the calls; they wait for an approval as a whole, run, or are refused.
unfoldable pub act : Session → World → ReactModelTurnResult → LoopState → Step
unfolding run_tools observe_round wait_for_approval
act s w turn l =
    let guarded = check (guard_input s) turn.tool_calls l.seen_signatures in
    let counted = record l { seen_signatures = guarded.seen_signatures } in
    if not (is_empty guarded.approval_required)
    then wait_for_approval s turn guarded counted
    else (if is_empty guarded.executable
        then continues (observe_round s w turn guarded 0 guarded.observations counted)
        else run_tools s w turn guarded counted)

-- The observations on a call of the control tool that is malformed.
abbrev control_observations :
    Session → List ToolCall → RequestUserInputMatch → String → List ReactObservation
control_observations s calls match message =
    map
      (λ call.
        validation_failure (observation_char_limit s.limits) call.id
          (if call.id === match.call.id then some "agent.request_input" else none) message none)
      calls

unfoldable pub control :
    Session → World → ReactModelTurnResult → RequestUserInputMatch → LoopState → Step
unfolding refuse wait_for_user
control s w turn match l = elim match.outcome [
  | inr action ↦ wait_for_user s turn action l
  | inl message ↦
      let observations = control_observations s turn.tool_calls match message in
      continues
        (refuse s w turn "CONTROL_TOOL_VALIDATION_FAILED" (length observations) observations l)
]

-- A turn that follows the protocol: a final answer, a question for the user, or an action.
unfoldable pub follow : Session → World → ReactModelTurnResult → LoopState → Step
unfolding finish control act
follow s w turn l =
    if is_empty turn.tool_calls
    then finish s turn l
    else (if l.force_finalization
        then stops (thrown disabled_tools_called) l
        else elim (parse_request_user_input turn.tool_calls) [
          | none ↦ act s w turn l
          | some match ↦ control s w turn match l
        ])

abbrev pub text_of : Option String → String
text_of none = ""
text_of (some s) = s

-- What a model turn leads to.
unfoldable pub answer_turn : Session → World → ReactModelTurnResult → LoopState → Step
unfolding follow refuse protocol_observations
answer_turn s w turn l =
    let message = text_of turn.protocol_error in
    if truthy turn.protocol_error
    then (if l.force_finalization
        then stops (thrown (invalid_output message)) l
        else continues
            (refuse s w turn "MODEL_PROTOCOL_ERROR" 1 (protocol_observations s turn message) l))
    else follow s w turn l

abbrev pub note_completed : Option String → LoopState → LoopState
note_completed none l = l
note_completed (some part) l = if part === "" then l else note (text_completed part) l

-- The turn joins the transcript, which is persisted.
unfoldable pub receive : Session → ReactModelTurnResult → LoopState → LoopState
unfolding persist
receive s turn l =
    let calls = l.model_calls + 1 in
    persist s [] (
      note_completed turn.text_part_id (record l {
        model_calls = calls;
        first_round_first_token_ms =
            if calls == 1 then turn.first_token_ms else l.first_round_first_token_ms;
        transcript = l.transcript ++ assistant_message turn.text turn.tool_calls ∷ [];
      }))

-- The budgets: the last model call, and each one after the rounds are used up, is without tools.
unfoldable pub is_forced : Session → LoopState → Bool
is_forced s l =
    l.force_finalization
    || leb s.limits.max_tool_rounds l.iteration
    || leb (s.limits.max_model_calls - 1) l.model_calls

unfoldable pub prepare : Session → LoopState → LoopState
unfolding is_forced
prepare s l =
    if is_forced s l
    then record l {
      force_finalization = true;
      transcript = l.transcript ++ plain system exhausted.model_content ∷ [];
    }
    else l

unfoldable pub model_request : Session → LoopState → ModelRequest
model_request s l = record {
  messages = l.transcript;
  is_final = l.force_finalization;
  disable_tools = l.force_finalization;
  max_tokens = if l.force_finalization then some s.limits.finalization_reserve_tokens else none;
}

unfoldable pub ask : Session → World → LoopState → Step
unfolding receive answer_turn model_request
ask s w l =
    let request = model_request s l in
    let asking = note (asked request) l in
    elim (w.model l.model_calls request) [
      | threw timed_out aborted message ↦
          stops (thrown (rethrown s timed_out aborted message)) asking
      | returned turn ↦ answer_turn s w turn (receive s turn asking)
    ]

unfoldable pub round : Session → World → LoopState → Step
unfolding ask prepare
round s w l =
    if w.is_aborted l.model_calls
    then stops (thrown aborted_error) l
    else (if leb s.limits.max_wall_clock_ms (w.elapsed_ms l.model_calls)
        then stops (thrown (deadline_error s.limits.max_wall_clock_ms)) l
        else ask s w (prepare s l))

-- `while (true)`, on fuel.
unfoldable pub loop : ℕ → Session → World → LoopState → Option (ReactLoopResult × LoopState)
loop zero s w l = none
loop (suc f) s w l = elim (round s w l) [
  | stops result end ↦ some (result, end)
  | continues next ↦ loop f s w next
]
