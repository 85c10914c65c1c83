-- ===== src/React/Guard.antt =====
-- ToolCallGuard of agent-kernel/react-loop/tool-call-guard.ts: a function for each stage of a round
-- of its loop, and the batch boundary after the loop.
pub mod Answers
pub mod Atomic
pub mod Counting
pub mod Plans
use sun_pilot.Base.{
  ℕ, ◌+◌, String, Bool, true, false, ◌&&◌, ◌||◌, Option, none, some, List, [], ◌∷◌, ◌++◌, ◌⊎◌, inl,
  inr, map, ◌===◌, leb, if◌then◌else◌, any, all, find, Dict, lookup, insert, min,
}
use sun_pilot.Json.{
  Json, null, bool, num, str, arr, obj, Items, nil, cons, Fields, end, field, keys,
}
use sun_pilot.Json.Stable.{stable_stringify}
use sun_pilot.Text.{codes, append, join}
use sun_pilot.Text.Pattern.{is_space}
use sun_pilot.Run.State.{PermissionMode}
use sun_pilot.Safety.Types.{RiskLevel, Permission, network_request, same_permission}
use sun_pilot.Safety.Policy.{RiskHints, evaluate}
use sun_pilot.React.Calls.{
  invalid, ToolCall, SideEffects, network, Trust, isolated, trusted, untrusted, SkillSummary,
  PlannedToolCall, ReactObservation, object_arguments,
}
use sun_pilot.React.Observations.{validation_failure, duplicate, denial}
use sun_pilot.Tools.Validator.{Platform, validate_tool_arguments}
use sun_pilot.React.Counts.{Counts, count_of, set_count, decrement_signature}

-- `!id.trim()`
unfoldable pub is_blank : String → Bool
is_blank id = all is_space (codes id)

-- The input of `check`, the limit of the builder of observations, and what the platform gives.
pub record GuardInput : Type 0 where
  pub tool_name_map : Dict String
  pub available_skills : List SkillSummary
  pub permission_mode : PermissionMode
  pub max_repeated_tool_calls : ℕ
  pub max_chars : ℕ
  pub platform : Platform

pub record Batch : Type 0 where
  pub executable : List PlannedToolCall
  pub approval_required : List PlannedToolCall
  pub observations : List ReactObservation
  pub accepted_signatures : Dict (List ℕ)
  pub seen_call_ids : List String
  pub seen_signatures : Counts

abbrev pub observe : ReactObservation → Batch → Batch
observe o b = record b { observations = b.observations ++ o ∷ [] }

-- The skill of the call; an empty id counts as none.
unfoldable pub skill_of : GuardInput → ToolCall → Option SkillSummary
skill_of input call = named (lookup call.name input.tool_name_map)
  where
    named : Option String → Option SkillSummary
    named none = none
    named (some id) = if id === "" then none else find (λ s. s.id === id) input.available_skills

abbrev pub is_network : Option SideEffects → Bool
is_network (some network) = true
is_network _ = false

abbrev pub is_isolated : Option Trust → Bool
is_isolated (some isolated) = true
is_isolated _ = false

unfoldable pub planned_call : ToolCall → SkillSummary → Fields → RiskLevel → Bool → PlannedToolCall
planned_call call skill args risk_level requires_approval = record {
  id = call.id;
  skill_id = skill.id;
  name = skill.name;
  arguments = args;
  permissions = skill.permissions;
  risk_level = risk_level;
  requires_approval = requires_approval;
  timeout_ms = min skill.default_timeout_ms skill.max_timeout_ms;
  idempotent = skill.idempotent;
  side_effects = skill.side_effects;
  timeout_policy = skill.timeout_policy;
  risk_hints = skill.risk_hints;
  input_schema = skill.input_schema;
  output_schema = skill.output_schema;
  projection_hints = skill.projection_hints;
  argument_sources = keys args;
  output_trust =
      if is_isolated skill.trust
        || any (same_permission network_request) skill.permissions
        || is_network skill.side_effects
      then untrusted
      else trusted;
}

unfoldable pub signature_of : GuardInput → String → Fields → List ℕ
signature_of input skill_id args =
    codes skill_id ++ b':' ∷ stable_stringify input.platform.precedes (obj args)

-- The policy's decision on a call whose signature was counted.
unfoldable pub decide : GuardInput → ToolCall → SkillSummary → Fields → Batch → Batch
unfolding planned_call
decide input call skill args b =
    let permission = evaluate (record {
      skill_id = skill.id;
      permissions = skill.permissions;
      arguments = args;
      permission_mode = some input.permission_mode;
      risk_hints = some skill.risk_hints;
    }) in
    let planned = planned_call call skill args permission.risk_level permission.requires_approval in
    if permission.allowed
    then (if permission.requires_approval
        then record b { approval_required = b.approval_required ++ planned ∷ [] }
        else record b { executable = b.executable ++ planned ∷ [] })
    else observe (denial call.id skill.id permission.reasons) b

-- The check for repetitions, with the two writes for an accepted signature.
unfoldable pub count_and_decide : GuardInput → ToolCall → SkillSummary → Fields → Batch → Batch
unfolding decide
count_and_decide input call skill args b =
    let signature = signature_of input skill.id args in
    let count = count_of signature b.seen_signatures in
    if leb input.max_repeated_tool_calls count
    then observe (duplicate call.id skill.id) b
    else decide input call skill args (record b {
      seen_signatures = set_count signature (count + 1) b.seen_signatures;
      accepted_signatures = insert call.id signature b.accepted_signatures;
    })

abbrev with_schema : Option Fields → Fields
with_schema (some schema) = field "schema" (obj schema) end
with_schema none = end

-- The observation for arguments that the schema of the skill refuses.
abbrev pub unacceptable :
    GuardInput → ToolCall → SkillSummary → Fields → List String → ReactObservation
unacceptable input call skill args errors =
    validation_failure input.max_chars call.id (some skill.id) (join "; " errors)
      (some (field "arguments" (obj args) (with_schema skill.input_schema)))

unfoldable pub check_arguments :
    GuardInput → ToolCall → SkillSummary → String ⊎ Fields → Batch → Batch
unfolding count_and_decide
check_arguments input call skill (inl message) b =
    observe (validation_failure input.max_chars call.id (some skill.id) message none) b
check_arguments input call skill (inr args) b =
    elim (validate_tool_arguments input.platform args skill.input_schema) [
      | [] ↦ count_and_decide input call skill args b
      | e ∷ es ↦ observe (unacceptable input call skill args (e ∷ es)) b
    ]

abbrev names : Dict String → Items
names [] = nil
names ((name, id) ∷ rest) = cons (str name) (names rest)

unfoldable pub check_skill : GuardInput → ToolCall → Option SkillSummary → Batch → Batch
unfolding check_arguments
check_skill input call none b =
    observe
      (validation_failure input.max_chars call.id none
        (append "Unknown or unavailable tool '" (append call.name "'"))
        (some (field "availableToolNames" (arr (names input.tool_name_map)) end)))
      b
check_skill input call (some skill) b =
    check_arguments input call skill (object_arguments call.arguments) b

-- One round of the loop over the calls.
unfoldable pub check_call : GuardInput → ToolCall → Batch → Batch
unfolding check_skill
check_call input call b =
    if is_blank call.id
    then observe
        (validation_failure input.max_chars call.id none "Tool call is missing a tool_call_id" none)
        b
    else (if any (λ id. id === call.id) b.seen_call_ids
        then observe
            (validation_failure input.max_chars call.id none
              (append "Duplicate tool_call_id '" (append call.id "' in the same model turn")) none)
            b
        else check_skill input call (skill_of input call)
            (record b { seen_call_ids = call.id ∷ b.seen_call_ids }))

unfoldable pub check_calls : GuardInput → List ToolCall → Batch → Batch
unfolding check_call
check_calls input [] b = b
check_calls input (call ∷ calls) b = check_calls input calls (check_call input call b)

abbrev forget : Option (List ℕ) → Counts → Counts
forget none counts = counts
forget (some signature) counts = decrement_signature signature counts

-- The loop that turns the planned calls of a refused batch into observations.
unfoldable pub freeze : ℕ → List PlannedToolCall → Batch → Batch
freeze max_chars [] b = b
freeze max_chars (call ∷ calls) b = freeze max_chars calls (record b {
  seen_signatures = forget (lookup call.id b.accepted_signatures) b.seen_signatures;
  observations =
      b.observations
      ++ validation_failure max_chars call.id (some call.skill_id)
          "The tool batch was not executed because another call in the same batch was invalid" none
        ∷ [];
})

abbrev pub is_empty {ℓ} : {A : Type ℓ} → List A → Bool
is_empty [] = true
is_empty (_ ∷ _) = false

-- A batch with an observation executes nothing, and one with an approval waits as a whole.
unfoldable pub close_batch : ℕ → Batch → Batch
unfolding freeze
close_batch max_chars b =
    if is_empty b.observations || is_empty (b.executable ++ b.approval_required)
    then (if is_empty b.approval_required
        then b
        else record b { approval_required = b.executable ++ b.approval_required; executable = [] })
    else record (freeze max_chars (b.executable ++ b.approval_required) b) {
      executable = [];
      approval_required = [];
    }

abbrev pub start : Counts → Batch
start seen_signatures = record {
  executable = [];
  approval_required = [];
  observations = [];
  accepted_signatures = [];
  seen_call_ids = [];
  seen_signatures = seen_signatures;
}

unfoldable pub check : GuardInput → List ToolCall → Counts → Batch
unfolding check_calls close_batch
check input calls seen_signatures =
    close_batch input.max_chars (check_calls input calls (start seen_signatures))
