-- ===== src/React/Control.antt =====
-- `parseRequestUserInput` of react-loop/control-tools.ts: the tool call by which a model asks the user.
use sun_pilot.Base.{
  String, Bool, true, false, not, ◌&&◌, Option, none, some, List, [], ◌∷◌, ◌⊎◌, inl, inr, ◌===◌,
  if◌then◌else◌, find, filter, length, ◌==◌, ℕ,
}
use sun_pilot.Json.{Json, null, bool, num, str, arr, obj, Items, nil, cons, Fields, get_field, keys}
use sun_pilot.Text.{append, join}
use sun_pilot.Text.Units.{units}
use sun_pilot.Text.Trim.{is_blank_text, trim}
use sun_pilot.React.Calls.{ToolCall, Parsed, invalid, value}

abbrev pub request_user_input_tool_name : String
request_user_input_tool_name = "agent_request_input"

pub record RequestUserInputAction : Type 0 where
  pub question : List ℕ
  pub missing_fields : List String

-- The call, with an error or the action.
pub record RequestUserInputMatch : Type 0 where
  pub call : ToolCall
  pub outcome : String ⊎ RequestUserInputAction

unfoldable pub is_control_call : ToolCall → Bool
is_control_call call = call.name === request_user_input_tool_name

abbrev is_unexpected : String → Bool
is_unexpected key = not (key === "question") && not (key === "missingFields")

-- The items as strings, if all of them are.
unfoldable pub all_strings : Items → Option (List String)
all_strings nil = some []
all_strings (cons (str s) xs) = elim (all_strings xs) [ none ↦ none | some ss ↦ some (s ∷ ss) ]
all_strings (cons null xs) = none
all_strings (cons (bool b) xs) = none
all_strings (cons (num n) xs) = none
all_strings (cons (arr ys) xs) = none
all_strings (cons (obj fs) xs) = none

-- `undefined` stands for no missing fields, and any other value must be an array of strings.
unfoldable pub missing_fields : Option Json → Option (List String)
unfolding all_strings
missing_fields none = some []
missing_fields (some (arr xs)) = all_strings xs
missing_fields (some null) = none
missing_fields (some (bool b)) = none
missing_fields (some (num n)) = none
missing_fields (some (str s)) = none
missing_fields (some (obj fs)) = none

abbrev with_fields : List ℕ → Option (List String) → String ⊎ RequestUserInputAction
with_fields question none = inl "agent_request_input missingFields must be a string array"
with_fields question (some names) =
    inr (record { question = trim question; missing_fields = names })

unfoldable pub with_question : Fields → Option Json → String ⊎ RequestUserInputAction
unfolding trim is_blank_text missing_fields
with_question fs (some (str question)) =
    if is_blank_text (units question)
    then inl "agent_request_input requires a non-empty question"
    else with_fields (units question) (missing_fields (get_field "missingFields" fs))
with_question fs _ = inl "agent_request_input requires a non-empty question"

unfoldable pub parse_action : Parsed → String ⊎ RequestUserInputAction
unfolding with_question
parse_action (invalid message) =
    inl (append "agent_request_input arguments are invalid JSON: " message)
parse_action (value (obj fs)) =
    let unexpected = filter is_unexpected (keys fs) in
    if is_empty unexpected
    then with_question fs (get_field "question" fs)
    else inl (append "agent_request_input contains unexpected fields: " (join ", " unexpected))
  where
    is_empty : List String → Bool
    is_empty [] = true
    is_empty (_ ∷ _) = false
parse_action (value _) = inl "agent_request_input arguments must be a JSON object"

unfoldable pub parse_request_user_input : List ToolCall → Option RequestUserInputMatch
unfolding parse_action is_control_call
parse_request_user_input calls = elim (find is_control_call calls) [
  | none ↦ none
  | some call ↦ some (record {
    call = call;
    outcome =
        if length calls == 1
        then parse_action call.arguments
        else inl "agent_request_input must be the only tool call in its model turn";
  })
]
