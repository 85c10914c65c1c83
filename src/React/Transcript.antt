-- ===== src/React/Transcript.antt =====
-- The messages of a run, and the functions of react-loop/react-loop-runner.ts that answer the tool
-- calls in them: injectObservations, appendSummariesToTranscript, closeUnresolvedToolCalls and
-- collectSeenSignatures.
pub mod Closed
pub mod Unresolved
use sun_pilot.Base.{
  ℕ, ◌+◌, String, Bool, true, false, not, Option, none, some, List, [], ◌∷◌, ◌++◌, map, ◌===◌,
  if◌then◌else◌, any, filter, Dict, lookup, insert, flat_map,
}
use sun_pilot.Json.{Json, null, bool, num, str, arr, obj, Fields}
use sun_pilot.Json.Stable.{stable_stringify}
use sun_pilot.Text.{codes}
use sun_pilot.Text.Units.{units}
use sun_pilot.React.Calls.{ToolCall, Parsed, invalid, value, ReactObservation, ToolCallSummary}
use sun_pilot.React.Observations.{from_tool_summary}
use sun_pilot.React.Counts.{Counts, count_of, set_count}

pub data ChatRole : Type 0 where
  system user assistant tool : ChatRole

-- A message without tool calls has the empty list.
pub record ChatMessage : Type 0 where
  pub role : ChatRole
  pub content : List ℕ
  pub tool_calls : List ToolCall
  pub tool_call_id : Option String

abbrev pub plain : ChatRole → List ℕ → ChatMessage
plain role content = record { role = role; content = content; tool_calls = []; tool_call_id = none }

abbrev pub assistant_message : List ℕ → List ToolCall → ChatMessage
assistant_message content calls = record {
  role = assistant;
  content = content;
  tool_calls = calls;
  tool_call_id = none;
}

abbrev pub tool_message : String → List ℕ → ChatMessage
tool_message id content = record {
  role = tool;
  content = content;
  tool_calls = [];
  tool_call_id = some id;
}

-- `if (value)` of an optional string.
abbrev pub truthy : Option String → Bool
truthy none = false
truthy (some s) = not (s === "")

-- The text for each call id; a later observation of an id takes the place of an earlier one.
unfoldable pub by_call_id : List ReactObservation → Dict (List ℕ)
by_call_id os = build [] os
  where
    put : Option String → List ℕ → Dict (List ℕ) → Dict (List ℕ)
    put none content d = d
    put (some id) content d = if id === "" then d else insert id content d

    build : Dict (List ℕ) → List ReactObservation → Dict (List ℕ)
    build d [] = d
    build d (o ∷ os) = build (put o.tool_call_id o.model_content d) os

abbrev pub content_or : List ℕ → Option (List ℕ) → List ℕ
content_or fallback none = fallback
content_or fallback (some content) = content

abbrev pub not_executed : List ℕ
not_executed = units "This tool action was not executed. Choose another action."

unfoldable pub inject_observations :
    List ChatMessage → List ToolCall → List ReactObservation → List ChatMessage
unfolding by_call_id
inject_observations transcript calls observations =
    transcript
    ++ map
        (λ call.
          tool_message call.id (content_or not_executed (lookup call.id (by_call_id observations))))
        calls
    ++ map (λ o. plain system o.model_content)
        (filter (λ o. not (truthy o.tool_call_id)) observations)

abbrev no_result : List ℕ
no_result = units "The approved tool action did not produce a result. Decide how to recover safely."

-- The text of the last summary with the id.
unfoldable pub summary_content : ℕ → String → List ToolCallSummary → List ℕ
summary_content max_chars id summaries = content_or no_result (lookup id (collect [] summaries))
  where
    collect : Dict (List ℕ) → List ToolCallSummary → Dict (List ℕ)
    collect d [] = d
    collect d (s ∷ ss) = collect (insert s.id (from_tool_summary max_chars s).model_content d) ss

unfoldable pub append_summaries :
    ℕ → List ChatMessage → List String → List ToolCallSummary → List ChatMessage
unfolding summary_content
append_summaries max_chars transcript expected_call_ids summaries =
    transcript
    ++ map (λ id. tool_message id (summary_content max_chars id summaries)) expected_call_ids

abbrev restarted : List ℕ
restarted =
    units "The runtime restarted before this action produced a durable observation. "
    ++ units "Its outcome is unknown; do not assume it succeeded and do not blindly repeat a side "
    ++ units "effect. Choose a safe recovery action or explain the uncertainty."

-- The ids that a message of a tool answers; the empty id counts as none.
abbrev pub answered_id : ChatMessage → List String
answered_id m = of_role m.role m.tool_call_id
  where
    of_id : Option String → List String
    of_id none = []
    of_id (some id) = if id === "" then [] else id ∷ []

    of_role : ChatRole → Option String → List String
    of_role tool id = of_id id
    of_role _ id = []

-- The tool calls of a message of the assistant.
abbrev pub calls_of : ChatMessage → List ToolCall
calls_of m = of_role m.role m.tool_calls
  where
    of_role : ChatRole → List ToolCall → List ToolCall
    of_role assistant calls = calls
    of_role _ calls = []

unfoldable pub unresolved : List ChatMessage → List ToolCall
unresolved transcript =
    let resolved = flat_map answered_id transcript in
    filter (λ call. not (any (λ id. id === call.id) resolved)) (flat_map calls_of transcript)

unfoldable pub close_unresolved_tool_calls : List ChatMessage → List ChatMessage
unfolding unresolved
close_unresolved_tool_calls transcript =
    transcript ++ map (λ call. tool_message call.id restarted) (unresolved transcript)

abbrev counted : List ℕ → Counts → Counts
counted signature counts = set_count signature (count_of signature counts + 1) counts

-- A call of a known tool with an object of arguments counts once.
unfoldable pub count_call : (String → String → Bool) → Dict String → ToolCall → Counts → Counts
count_call precedes name_map call counts = known (lookup call.name name_map) call.arguments
  where
    with_args : String → Parsed → Counts
    with_args skill_id (value (obj fs)) =
        counted (codes skill_id ++ b':' ∷ stable_stringify precedes (obj fs)) counts
    with_args skill_id _ = counts

    known : Option String → Parsed → Counts
    known none args = counts
    known (some skill_id) args = if skill_id === "" then counts else with_args skill_id args

unfoldable pub count_calls :
    (String → String → Bool) → Dict String → List ToolCall → Counts → Counts
unfolding count_call
count_calls precedes name_map [] counts = counts
count_calls precedes name_map (call ∷ calls) counts =
    count_calls precedes name_map calls (count_call precedes name_map call counts)

unfoldable pub collect_seen_signatures :
    (String → String → Bool) → List ChatMessage → Dict String → Counts
unfolding count_calls
collect_seen_signatures precedes transcript name_map =
    count_calls precedes name_map (flat_map calls_of transcript) []
