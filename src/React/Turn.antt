-- ===== src/React/Turn.antt =====
-- Parts of a round of react-loop/react-loop-runner.ts: checkpoints, the event of a turn, a round that
-- is refused, and the three ends of `run`.
use sun_pilot.Base.{
  ℕ, ◌+◌, ◌*◌, String, not, ◌&&◌, Option, none, some, List, [], ◌∷◌, ◌++◌, map, length, ◌===◌,
  if◌then◌else◌,
}
use sun_pilot.Text.Units.{units}
use sun_pilot.React.Calls.{ToolCall, PlannedToolCall, ReactObservation, ToolCallSummary}
use sun_pilot.React.Observations.{to_tool_summary, protocol_failure}
use sun_pilot.React.Control.{RequestUserInputAction}
use sun_pilot.Text.Trim.{is_blank_text}
use sun_pilot.React.Limits.{ReactLoopLimits}
use sun_pilot.React.Transcript.{ChatMessage, ChatRole, assistant, truthy, inject_observations}
use sun_pilot.React.Guard.{Batch}
use sun_pilot.React.Session.{
  ReactModelTurnResult, World, Session, ReactCheckpoint, TextRole, final, user_prompt, Effect,
  persisted, emitted, text_role, fallback_shown, error_added, rich_cards_set, LoopState,
  ReactLoopTiming, completed, waiting_user, waiting_approval, Step, stops, note,
}

unfoldable pub create_checkpoint : Session → List PlannedToolCall → LoopState → ReactCheckpoint
create_checkpoint s pending l = record {
  run_id = s.run_id;
  conversation_id = s.conversation_id;
  message_id = s.message_id;
  iteration = l.iteration;
  model_calls = l.model_calls;
  transcript = l.transcript;
  candidate_tool_ids = s.candidate_tool_ids;
  pending_tool_calls = pending;
  artifacts = l.artifacts;
  tool_call_summaries = l.tool_call_summaries;
  permission_mode = s.permission_mode;
}

unfoldable pub persist : Session → List PlannedToolCall → LoopState → LoopState
unfolding create_checkpoint
persist s pending l = note (persisted (create_checkpoint s pending l)) l

unfoldable pub timing : Session → ℕ → LoopState → ReactLoopTiming
timing s final_ms l = record {
  tool_retrieval_ms = s.tool_retrieval_ms;
  total_tool_execution_ms = l.total_tool_execution_ms;
  first_round_first_token_ms = l.first_round_first_token_ms;
  final_round_first_token_ms = final_ms;
}

-- `observationCharLimit`
abbrev pub observation_char_limit : ReactLoopLimits → ℕ
observation_char_limit limits = limits.max_observation_tokens * 4

abbrev total_chars : List ReactObservation → ℕ
total_chars [] = 0
total_chars (o ∷ os) = length o.model_content + total_chars os

-- `emitTurn`, with the iteration that the turn belongs to.
unfoldable pub emit_turn :
    ReactModelTurnResult → ℕ → ℕ → ℕ → ℕ → ℕ → List ReactObservation → LoopState → LoopState
emit_turn turn iteration executable approvals rejected ms observations l =
    note
      (emitted (record {
        iteration = iteration;
        model_call_id = turn.model_call_id;
        finish_reason = turn.finish_reason;
        tool_call_count = length turn.tool_calls;
        executable_count = executable;
        approval_count = approvals;
        rejected_count = rejected;
        execution_ms = ms;
        observation_chars = total_chars observations;
        accumulated_model_calls = l.model_calls;
      }))
      l

-- `toToolSummary` of each observation, the i-th with the i-th random id.
unfoldable pub summarize : (ℕ → String) → ℕ → List ReactObservation → List ToolCallSummary
summarize uuid i [] = []
summarize uuid i (o ∷ os) = to_tool_summary (uuid i) o ∷ summarize uuid (i + 1) os

abbrev pub add_errors : String → List ToolCallSummary → List Effect
add_errors code [] = []
add_errors code (s ∷ ss) = error_added code s.summary none ∷ add_errors code ss

-- A round without an action: its observations answer the calls, are listed as tool calls and shown
-- as errors, and the loop goes on.
unfoldable pub refuse :
    Session
    → World
    → ReactModelTurnResult
    → String
    → ℕ
    → List ReactObservation
    → LoopState
    → LoopState
unfolding summarize emit_turn persist
refuse s w turn code rejected observations l =
    let summaries = summarize (w.uuid l.model_calls) 0 observations in
    persist s [] (
      emit_turn turn l.iteration 0 0 rejected 0 observations (record l {
        transcript = inject_observations l.transcript turn.tool_calls observations;
        tool_call_summaries = l.tool_call_summaries ++ summaries;
        iteration = l.iteration + 1;
        effects = l.effects ++ add_errors code summaries;
      }))

-- The observations of a protocol error: one for each call, or one for none.
unfoldable pub protocol_observations :
    Session → ReactModelTurnResult → String → List ReactObservation
protocol_observations s turn message = per_call turn.tool_calls
  where
    failure : ReactObservation
    failure = protocol_failure (observation_char_limit s.limits) message

    per_call : List ToolCall → List ReactObservation
    per_call [] = failure ∷ []
    per_call (call ∷ calls) = map (λ c. record failure { tool_call_id = some c.id }) (call ∷ calls)

-- The text of the last message, which is the assistant's.
abbrev pub replace_last : List ℕ → List ChatMessage → List ChatMessage
replace_last content [] = []
replace_last content (m ∷ []) = replaced m.role
  where
    replaced : ChatRole → List ChatMessage
    replaced assistant = record m { content = content } ∷ []
    replaced _ = m ∷ []
replace_last content (m ∷ n ∷ ms) = m ∷ replace_last content (n ∷ ms)

abbrev pub fallback : List ℕ
fallback = units "本次模型没有返回可用内容，请重试。"

abbrev pub note_role : Option String → TextRole → LoopState → LoopState
note_role none role l = l
note_role (some part) role l = if part === "" then l else note (text_role part role) l

-- A turn without tool calls ends the run with its text.
unfoldable pub finish : Session → ReactModelTurnResult → LoopState → Step
unfolding emit_turn persist timing
finish s turn l =
    let shown = note_role turn.text_part_id final (emit_turn turn l.iteration 0 0 0 0 [] l) in
    let blank = is_blank_text turn.text in
    let done =
      if blank
      then note (fallback_shown fallback)
          (record shown { transcript = replace_last fallback shown.transcript })
      else shown in
    let last = note (rich_cards_set done.artifacts) done in
    stops
      (completed (if blank then fallback else turn.text) (create_checkpoint s [] last)
        (timing s turn.first_token_ms last))
      (persist s [] last)

-- The id of the text part that asks the user, if the model wrote a text.
unfoldable pub prompt_part : ReactModelTurnResult → Option String
prompt_part turn =
    if truthy turn.text_part_id && not (is_blank_text turn.text) then turn.text_part_id else none

unfoldable pub wait_for_user :
    Session → ReactModelTurnResult → RequestUserInputAction → LoopState → Step
unfolding emit_turn persist timing prompt_part
wait_for_user s turn action l =
    let asking =
      emit_turn turn l.iteration 0 0 0 0 [] (note_role (prompt_part turn) user_prompt l) in
    stops
      (waiting_user action.question action.missing_fields (prompt_part turn)
        (create_checkpoint s [] asking) (timing s 0 asking))
      (persist s [] asking)

unfoldable pub wait_for_approval : Session → ReactModelTurnResult → Batch → LoopState → Step
unfolding emit_turn persist timing
wait_for_approval s turn guarded l =
    let asking =
      emit_turn turn l.iteration 0 (length guarded.approval_required) (length guarded.observations)
        0 guarded.observations l in
    stops
      (waiting_approval guarded.approval_required
        (create_checkpoint s guarded.approval_required asking) (timing s 0 asking))
      (persist s guarded.approval_required asking)
