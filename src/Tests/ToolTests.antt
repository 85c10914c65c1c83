-- ===== src/Tests/ToolTests.antt =====
-- Arguments of tools against schemas, and observations.
use sun_pilot.Tools.Schema.{
  fields_depth, property_schema, collect_property_names, is_closed, object_schemas, matches_type,
  allowed_types, string_list,
}
use sun_pilot.Tools.Validator.{
  fields_errors, required_errors, number_text, value_errors, const_errors, enum_errors,
  all_of_errors, one_of_errors, results, any_of_errors, combined_errors, distinct, type_errors,
  Platform, validate, validate_tool_arguments, node_errors, is_missing,
}
use sun_pilot.Base.{◌≡◌, String, true, false, none, some, [], ◌∷◌, refl, All}
use sun_pilot.Json.{Fields, field, end, str, num, bool, obj, arr, cons, nil, get_field}
use sun_pilot.Text.Units.{units}
use sun_pilot.Tools.Validator.Depth.{validate-eq-node_errors}
use sun_pilot.Tools.Validator.Laws.{accepted_lem, IsTyped, AllPermitted}
use sun_pilot.React.Calls.{ToolCallSummary, completed, ArtifactRef}
use sun_pilot.React.Observations.{from_tool_summary, merge_artifacts, truncate}

abbrev platform : Platform
platform = record { engine = λ pattern text. some true; precedes = λ a b. false }

-- { type: "object", required: ["path"], additionalProperties: false,
--   properties: { path: { type: "string", minLength: 2 }, depth: { type: "integer", maximum: 3 } } }
abbrev schema : Fields
schema = field "type" (str "object") (
    field "required" (arr (cons (str "path") nil)) (
      field "additionalProperties" (bool false) (
        field "properties"
          (obj (
            field "path" (obj (field "type" (str "string") (field "minLength" (num 2) end))) (
              field "depth" (obj (field "type" (str "integer") (field "maximum" (num 3) end)))
                end)))
          end)))

abbrev good : Fields
good = field "path" (str "ab") (field "depth" (num 3) end)

abbrev bad : Fields
bad = field "depth" (num 14) (field "mode" (str "x") end)

accepts : validate_tool_arguments platform good (some schema) ≡ []
unfolding validate_tool_arguments node_errors type_errors allowed_types get_field matches_type
    distinct combined_errors any_of_errors results object_schemas one_of_errors all_of_errors
    enum_errors const_errors value_errors required_errors fields_errors property_schema fields_depth
    units
accepts = refl

refuses :
    validate_tool_arguments platform bad (some schema)
    ≡ "Missing required field: path" ∷ "$.depth must be at most 3" ∷ "Unexpected field: mode" ∷ []
unfolding validate_tool_arguments node_errors type_errors allowed_types get_field matches_type
    distinct combined_errors any_of_errors results object_schemas one_of_errors all_of_errors
    enum_errors const_errors value_errors required_errors fields_errors property_schema fields_depth
    number_text is_closed collect_property_names
refuses = refl

accepted_lem_example :
    IsTyped (obj good) schema
    × All
        (λ name. is_missing true (get_field name good) ≡ false)
        (string_list (get_field "required" schema))
    × AllPermitted (validate platform true) schema "$" good
accepted_lem_example = accepted_lem platform good schema accepts

validate-eq-node_errors_example :
    validate platform true (obj bad) schema "$"
    ≡ node_errors platform (validate platform true) true (obj bad) schema "$"
validate-eq-node_errors_example = validate-eq-node_errors platform true (obj bad) schema "$"

abbrev file : String → String → ArtifactRef
file id name = record { id = id; name = name; kind = "file"; version = none }

-- A new artifact with an old id takes the old one's place.
merges :
    merge_artifacts (file "a" "old" ∷ []) (file "a" "new" ∷ file "b" "b" ∷ [])
    ≡ file "a" "new" ∷ file "b" "b" ∷ []
unfolding merge_artifacts
merges = refl

truncates : truncate 3 (units "abcdef") ≡ units "abc…[truncated 3 chars]"
unfolding units truncate sun_pilot.Json.Print.decimal
truncates = refl

abbrev external : ToolCallSummary
external = record {
  id = "call_external";
  skill_id = "web:fetch";
  name = "Fetch";
  status = completed;
  summary = "page";
  content = some (units "x");
  structured = none;
  model_observation = none;
  output_trust = none;
  artifact_ids = none;
}

shows_content : (from_tool_summary 1000 external).model_content ≡ units "x"
unfolding units truncate sun_pilot.React.Observations.labelled
shows_content = refl
