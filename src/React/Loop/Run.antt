-- ===== src/React/Loop/Run.antt =====
-- `run` of react-loop/react-loop-runner.ts, and the methods that go on with a run from a checkpoint.
pub mod Laws
pub mod Approval
pub mod Distinct
use sun_pilot.Base.{
  ℕ, suc, ◌+◌, String, Bool, false, ◌&&◌, Option, none, some, List, [], ◌∷◌, ◌++◌, map, length, ltb,
  ◌==◌, ◌===◌, if◌then◌else◌, all, find, take, Dict, lookup, insert,
}
use sun_pilot.Json.{Fields, obj}
use sun_pilot.Json.Stable.{stable_stringify}
use sun_pilot.Safety.Grants.{same_codes}
use sun_pilot.Run.State.{AttachmentRef}
use sun_pilot.Text.Units.{units}
use sun_pilot.Tools.Validator.{Platform}
use sun_pilot.React.Calls.{ToolCall, PlannedToolCall, ToolCallSummary, ArtifactRef}
use sun_pilot.React.Observations.{to_tool_summary, rejection, merge_artifacts}
use sun_pilot.React.Control.{is_control_call}
use sun_pilot.React.Transcript.{
  ChatMessage, user, plain, tool_message, append_summaries, close_unresolved_tool_calls,
  collect_seen_signatures, calls_of,
}
use sun_pilot.React.Session.{
  World, Session, ReactCheckpoint, LoopState, ReactLoopResult, thrown, inner_error, scope_mismatch,
  returned, threw,
}
use sun_pilot.React.Turn.{persist, observation_char_limit}
use sun_pilot.React.Loop.{loop}

-- Where a run starts: the fields of a continuation that the loop reads.
pub record ReactContinuation : Type 0 where
  pub transcript : List ChatMessage
  pub artifacts : List ArtifactRef
  pub tool_calls : List ToolCallSummary
  pub iteration : ℕ
  pub model_calls : ℕ

unfoldable pub start_state : Session → ReactContinuation → LoopState
start_state s c = record {
  transcript = c.transcript;
  artifacts = c.artifacts;
  tool_call_summaries = c.tool_calls;
  iteration = c.iteration;
  model_calls = c.model_calls;
  total_tool_execution_ms = 0;
  first_round_first_token_ms = 0;
  seen_signatures = collect_seen_signatures s.platform.precedes c.transcript s.name_map;
  force_finalization = false;
  effects = [];
}

-- The loop, with fuel for as many rounds as there may be model calls.
unfoldable pub run : Session → World → ReactContinuation → Option (ReactLoopResult × LoopState)
unfolding start_state
run s w c = loop (suc s.limits.max_model_calls) s w (persist s [] (start_state s c))

pub record ApprovedTool : Type 0 where
  pub tool_call_id : String
  pub skill_id : String
  pub arguments : Fields

-- The entries of a `Map`, set one after the other.
unfoldable pub set_approved : Dict ApprovedTool → List ApprovedTool → Dict ApprovedTool
set_approved d [] = d
set_approved d (t ∷ ts) = set_approved (insert t.tool_call_id t d) ts

-- `new Map(approved.map(...))`
unfoldable pub approved_by_id : List ApprovedTool → Dict ApprovedTool
unfolding set_approved
approved_by_id tools = set_approved [] tools

-- The scope that was approved for the call is that of the call.
unfoldable pub is_approved : Platform → Dict ApprovedTool → PlannedToolCall → Bool
is_approved platform approved call = scope (lookup call.id approved)
  where
    scope : Option ApprovedTool → Bool
    scope none = false
    scope (some t) =
        t.skill_id === call.skill_id
        && same_codes (stable_stringify platform.precedes (obj t.arguments))
            (stable_stringify platform.precedes (obj call.arguments))

-- The test of `assertApprovedBatchMatchesCheckpoint`.
unfoldable pub approved_batch_matches : Platform → List PlannedToolCall → List ApprovedTool → Bool
unfolding approved_by_id is_approved
approved_batch_matches platform pending approved =
    let by_id = approved_by_id approved in
    ltb 0 (length pending)
    && length by_id == length pending
    && all (is_approved platform by_id) pending

-- The state in which a checkpoint is left, for results before the loop starts.
unfoldable pub state_of : Session → ReactCheckpoint → LoopState
unfolding start_state
state_of s c = start_state s (record {
  transcript = c.transcript;
  artifacts = c.artifacts;
  tool_calls = c.tool_call_summaries;
  iteration = c.iteration;
  model_calls = c.model_calls;
})

-- The ids of the calls that wait.
abbrev pub pending_ids : ReactCheckpoint → List String
pending_ids c = map (λ call. call.id) c.pending_tool_calls

unfoldable pub resume_after_approved_tools :
    Session → World → ReactCheckpoint → List ApprovedTool → Option (ReactLoopResult × LoopState)
unfolding approved_batch_matches run state_of
resume_after_approved_tools s w c approved =
    let chars = observation_char_limit s.limits in
    if approved_batch_matches s.platform c.pending_tool_calls approved
    then elim (w.execute c.model_calls c.pending_tool_calls) [
      | threw timed_out aborted message ↦ some (thrown (inner_error message), state_of s c)
      | returned execution ↦ run s w (record {
        transcript = append_summaries chars c.transcript (pending_ids c) execution.summaries;
        artifacts = merge_artifacts c.artifacts execution.artifacts;
        tool_calls = c.tool_call_summaries ++ execution.summaries;
        iteration = c.iteration + 1;
        model_calls = c.model_calls;
      })
    ]
    else some (thrown scope_mismatch, state_of s c)

-- A rejection has its call's id, so no random id is drawn.
abbrev pub rejected_summaries : ReactCheckpoint → Option String → List ToolCallSummary
rejected_summaries c reason =
    map (λ call. to_tool_summary "" (rejection call.id call.skill_id reason)) c.pending_tool_calls

unfoldable pub resume_after_rejection :
    Session → World → ReactCheckpoint → Option String → Option (ReactLoopResult × LoopState)
unfolding run
resume_after_rejection s w c reason =
    let summaries = rejected_summaries c reason in
    run s w (record {
      transcript =
          append_summaries (observation_char_limit s.limits) c.transcript (pending_ids c) summaries;
      artifacts = c.artifacts;
      tool_calls = c.tool_call_summaries ++ summaries;
      iteration = c.iteration + 1;
      model_calls = c.model_calls;
    })

-- `attachment.url?.slice(0, 4_096) ?? (attachment.dataUrl ? … : "unavailable")`
abbrev reference : Option String → Option String → List ℕ
reference (some url) data_url = take 4096 (units url)
reference none none = units "unavailable"
reference none (some data_url) =
    if data_url === "" then units "unavailable" else units "[inline data available to tools]"

abbrev attachment_line : AttachmentRef → List ℕ
attachment_line a =
    units "- "
    ++ units a.name
    ++ units " ("
    ++ units a.type
    ++ units ", id="
    ++ units a.id
    ++ units "): "
    ++ reference a.url a.data_url

-- `lines.join("\n")`
abbrev pub join_lines : List (List ℕ) → List ℕ
join_lines [] = []
join_lines (l ∷ []) = l
join_lines (l ∷ m ∷ ls) = l ++ 10 ∷ join_lines (m ∷ ls)

unfoldable pub user_message_with_attachments : List ℕ → List AttachmentRef → List ℕ
user_message_with_attachments content [] = content
user_message_with_attachments content (a ∷ rest) =
    content ++ units "\n\nAttachments:\n" ++ join_lines (map attachment_line (a ∷ rest))

-- The call of the control tool in the last message of the assistant with tool calls.
unfoldable pub control_call : List ChatMessage → Option ToolCall
control_call transcript = in_last [] transcript
  where
    latest : List ToolCall → List ToolCall → List ToolCall
    latest old [] = old
    latest old (c ∷ cs) = c ∷ cs

    in_last : List ToolCall → List ChatMessage → Option ToolCall
    in_last last [] = find is_control_call last
    in_last last (m ∷ ms) = in_last (latest last (calls_of m)) ms

abbrev supplied : List ℕ
supplied = units "The user supplied the requested information in the following message."

-- The transcript with the question answered, and the answer.
unfoldable pub with_user_input : List ChatMessage → List ℕ → List ChatMessage
with_user_input transcript content = elim (control_call transcript) [
  | none ↦ transcript ++ plain user content ∷ []
  | some call ↦ transcript ++ tool_message call.id supplied ∷ plain user content ∷ []
]

unfoldable pub resume_with_user_input :
    Session
    → World
    → ReactCheckpoint
    → List ℕ
    → List AttachmentRef
    → Option (ReactLoopResult × LoopState)
unfolding run with_user_input
resume_with_user_input s w c message attachments = run s w (record {
  transcript = with_user_input c.transcript (user_message_with_attachments message attachments);
  artifacts = c.artifacts;
  tool_calls = c.tool_call_summaries;
  iteration = c.iteration;
  model_calls = c.model_calls;
})

unfoldable pub resume_interrupted :
    Session → World → ReactCheckpoint → Option (ReactLoopResult × LoopState)
unfolding run
resume_interrupted s w c = run s w (record {
  transcript = close_unresolved_tool_calls c.transcript;
  artifacts = c.artifacts;
  tool_calls = c.tool_call_summaries;
  iteration = c.iteration;
  model_calls = c.model_calls;
})
