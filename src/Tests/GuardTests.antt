-- ===== src/Tests/GuardTests.antt =====
-- Batches of tool calls that the guard checks.
use sun_pilot.Tools.Schema.{
  additional_schema, is_closed, property_schema, object_schemas, allowed_types,
  collect_property_names, string_list,
}
use sun_pilot.Tools.Validator.{
  results, any_of_errors, combined_errors, distinct, type_errors, node_errors, fields_errors,
  required_errors, value_errors, const_errors, enum_errors, all_of_errors, one_of_errors,
  validate_tool_arguments,
}
use sun_pilot.Json.{get_field, Fields, end, field, str, obj, arr, cons, nil}
use sun_pilot.Base.{
  ◌≤◌, String, true, false, none, some, List, [], ◌∷◌, ◌++◌, ◌≡◌, ◌⊎◌, refl, map, All, max, lookup,
  insert,
}
use mathlib.Core.List.{Perm}
use sun_pilot.Run.State.{auto}
use sun_pilot.Safety.Types.{medium, low, Permission, shell_execute, filesystem_read, RiskLevel}
use sun_pilot.React.Counts.{count_of, decrement_signature, set_count}
use sun_pilot.Text.{join, after_last, starts_with}
use sun_pilot.Text.Pattern.{is_space, test, is_word}
use sun_pilot.Json.Print.{quoted}
use sun_pilot.Json.Stable.{stable_stringify}
use sun_pilot.Safety.Policy.{evaluate, assessed_risk, category_from_skill_id}
use sun_pilot.Safety.Risk.{classify_risk, classify_category, string_values}
use sun_pilot.React.Calls.{Parsed, SkillSummary, ToolCall, object_arguments, value}
use sun_pilot.React.Guard.{is_blank, skill_of, planned_call, signature_of, GuardInput, check}
use sun_pilot.React.Guard.Atomic.{check-perm, check_atomic}
use sun_pilot.React.Guard.Counting.{check-bound}
use sun_pilot.React.Guard.Plans.{check-IsValid, check-unapproved, IsValid, IsFree, IsAllowed}

abbrev skill : String → Permission → RiskLevel → SkillSummary
skill id permission risk = record {
  id = id;
  name = id;
  trust = none;
  permissions = permission ∷ [];
  default_timeout_ms = 1000;
  max_timeout_ms = 5000;
  idempotent = true;
  input_schema = none;
  output_schema = none;
  side_effects = none;
  timeout_policy = none;
  risk_hints = record { default_risk = some risk; destructive_args = none; external_hosts = none };
  projection_hints = none;
}

-- The tool that reads requires the argument `q`.
abbrev schema : Fields
schema = field "required" (arr (cons (str "q") nil)) end

abbrev input : GuardInput
input = record {
  tool_name_map = ("read", "fs:memory.read") ∷ ("run", "dev:shell.run") ∷ [];
  available_skills =
      skill "fs:memory.read" filesystem_read low ∷ skill "dev:shell.run" shell_execute medium ∷ [];
  permission_mode = auto;
  max_repeated_tool_calls = 2;
  max_chars = 8000;
  platform = record { engine = λ pattern text. some true; precedes = λ a b. false };
}

abbrev strict : GuardInput
strict = record input {
  available_skills =
      record (skill "fs:memory.read" filesystem_read low) { input_schema = some schema }
      ∷ skill "dev:shell.run" shell_execute medium
      ∷ [];
}

abbrev call : String → String → Parsed → ToolCall
call id name arguments = record { id = id; name = name; arguments = arguments }

abbrev args : Parsed
args = value (obj (field "q" (str "x") end))

abbrev ids : List ToolCall → List String
ids cs = map (λ c. c.id) cs

reads : map (λ p. p.id) (check input (call "1" "read" args ∷ []) []).executable ≡ "1" ∷ []
unfolding check validate_tool_arguments is_blank is_space skill_of lookup object_arguments count_of
    evaluate assessed_risk classify_risk test join string_values after_last insert quoted
    stable_stringify decrement_signature set_count category_from_skill_id starts_with planned_call
    signature_of is_word classify_category
reads = refl

-- One call that needs an approval makes the whole batch wait.
waits :
    map
      (λ p. p.id)
      (check input (call "1" "run" args ∷ call "2" "read" args ∷ []) []).approval_required
    ≡ "2" ∷ "1" ∷ []
unfolding check validate_tool_arguments is_blank is_space skill_of lookup object_arguments count_of
    evaluate assessed_risk classify_risk test join string_values after_last insert quoted
    stable_stringify decrement_signature set_count category_from_skill_id starts_with planned_call
    signature_of is_word classify_category node_errors type_errors allowed_types get_field distinct
    combined_errors any_of_errors results object_schemas one_of_errors all_of_errors enum_errors
    const_errors value_errors required_errors fields_errors property_schema is_closed
    additional_schema
waits = refl

abbrev mixed : List ToolCall
mixed = call "1" "read" args ∷ call "2" "none" args ∷ call "1" "run" args ∷ []

-- Two bad calls stop the good one.
refuses :
    map (λ o. o.tool_call_id) (check input mixed []).observations
    ≡ some "2" ∷ some "1" ∷ some "1" ∷ []
unfolding check validate_tool_arguments is_blank is_space skill_of lookup object_arguments count_of
    evaluate assessed_risk classify_risk test join string_values after_last insert quoted
    stable_stringify decrement_signature set_count category_from_skill_id starts_with planned_call
    signature_of is_word classify_category
refuses = refl

check-perm_example :
    Perm
      (map (λ p. some p.id) (check input mixed []).executable
        ++ map (λ p. some p.id) (check input mixed []).approval_required
        ++ map (λ o. o.tool_call_id) (check input mixed []).observations)
      (map (λ c. some c.id) mixed)
check-perm_example = check-perm input mixed []

check_atomic_example :
    (((check input mixed []).observations ≡ [])
      ⊎ ((check input mixed []).executable ≡ []) × ((check input mixed []).approval_required ≡ []))
    × (((check input mixed []).executable ≡ []) ⊎ ((check input mixed []).approval_required ≡ []))
check_atomic_example = check_atomic input mixed []

check-bound_example :
    count_of [] (check input mixed []).seen_signatures
    ≤ max input.max_repeated_tool_calls (count_of [] [])
check-bound_example = check-bound input mixed [] []

-- A call that runs at once.
abbrev single : List ToolCall
single = call "1" "read" args ∷ []

check-unapproved_example :
    All (IsFree strict) (check strict single []).executable
    × All (IsAllowed strict) (check strict single []).approval_required
check-unapproved_example = check-unapproved strict single []

-- Two calls that wait for an approval.
abbrev pair : List ToolCall
pair = call "1" "run" args ∷ call "2" "read" args ∷ []

check-IsValid_example :
    All (IsValid strict) (check strict pair []).executable
    × All (IsValid strict) (check strict pair []).approval_required
check-IsValid_example = check-IsValid strict pair []

-- Without the required argument the call is refused.
refuses_missing :
    map
      (λ o. o.tool_call_id)
      (check strict (call "1" "read" (value (obj end)) ∷ []) []).observations
    ≡ some "1" ∷ []
unfolding check is_blank is_space skill_of lookup object_arguments validate_tool_arguments
    node_errors type_errors allowed_types get_field distinct combined_errors any_of_errors results
    object_schemas one_of_errors all_of_errors enum_errors const_errors value_errors required_errors
refuses_missing = refl

runs_single : map (λ p. p.id) (check strict single []).executable ≡ "1" ∷ []
unfolding check validate_tool_arguments is_blank is_space skill_of lookup object_arguments count_of
    evaluate assessed_risk classify_risk test join string_values after_last insert quoted
    stable_stringify decrement_signature set_count category_from_skill_id starts_with planned_call
    signature_of is_word classify_category node_errors type_errors allowed_types get_field distinct
    combined_errors any_of_errors results object_schemas one_of_errors all_of_errors enum_errors
    const_errors value_errors required_errors fields_errors property_schema is_closed
    collect_property_names string_list additional_schema
runs_single = refl

waits_pair : map (λ p. p.id) (check strict pair []).approval_required ≡ "2" ∷ "1" ∷ []
unfolding check validate_tool_arguments is_blank is_space skill_of lookup object_arguments count_of
    evaluate assessed_risk classify_risk test join string_values after_last insert quoted
    stable_stringify decrement_signature set_count category_from_skill_id starts_with planned_call
    signature_of is_word classify_category node_errors type_errors allowed_types get_field distinct
    combined_errors any_of_errors results object_schemas one_of_errors all_of_errors enum_errors
    const_errors value_errors required_errors fields_errors property_schema is_closed
    collect_property_names string_list additional_schema
waits_pair = refl
