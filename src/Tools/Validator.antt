-- ===== src/Tools/Validator.antt =====
-- tools/tool-argument-validator.ts: the errors of a value against a JSON schema. The engine of regular
-- expressions is a parameter: `engine pattern text` is `none` where `new RegExp` throws.
pub mod Depth
pub mod Laws
use sun_pilot.Base.{
  ℕ, zero, suc, ◌+◌, ◌/◌, ◌%◌, String, Bool, true, false, not, ◌||◌, ◌&&◌, Option, none, some, List,
  [], ◌∷◌, ◌++◌, map, ◌===◌, ◌==◌, ltb, if◌then◌else◌, any, filter, length, flat_map,
}
use sun_pilot.Json.{
  Json, null, bool, num, str, arr, obj, Items, nil, cons, Fields, end, field, get_field,
}
use sun_pilot.Json.Stable.{stable_stringify}
use sun_pilot.Safety.Grants.{same_codes}
use sun_pilot.Text.{append, join}
use sun_pilot.Text.Units.{units}
use sun_pilot.Tools.Schema.{
  object_schemas, string_list, allowed_types, matches_type, property_schema, is_closed,
  additional_schema, collect_property_names, fields_depth, as_schema,
}

-- What the validator calls: the regular expressions and `localeCompare`.
pub record Platform : Type 0 where
  pub engine : String → String → Option Bool
  pub precedes : String → String → Bool

-- `[...new Set(errors)]`
unfoldable pub distinct : List String → List String
distinct [] = []
distinct (e ∷ es) = e ∷ filter (λ f. not (f === e)) (distinct es)

unfoldable pub deep_equal : Platform → Json → Json → Bool
deep_equal platform a b =
    same_codes (stable_stringify platform.precedes a) (stable_stringify platform.precedes b)

digit_text : ℕ → String
digit_text d =
    if ltb d 5
    then (if d == 0
        then "0"
        else (if d == 1 then "1" else (if d == 2 then "2" else (if d == 3 then "3" else "4"))))
    else (if d == 5
        then "5"
        else (if d == 6 then "6" else (if d == 7 then "7" else (if d == 8 then "8" else "9"))))

number_onto : ℕ → ℕ → String → String
unfolding digit_text
number_onto zero n acc = acc
number_onto (suc f) n acc =
    let more = number_onto f (n / 10) (append (digit_text (n % 10)) acc) in
    if ltb n 10 then append (digit_text n) acc else more

-- A number in a template string; it has at most as many digits as the fuel `n + 1`.
unfoldable pub number_text : ℕ → String
unfolding number_onto
number_text n = number_onto (suc n) n ""

-- What checks a value against a smaller schema: the value, the schema and the path.
abbrev pub Check : Type 0
Check = Json → Fields → String → List String

abbrev pub is_nil {ℓ} : {A : Type ℓ} → List A → Bool
is_nil [] = true
is_nil (_ ∷ _) = false

abbrev pub errors_if : Bool → String → List String
errors_if true message = message ∷ []
errors_if false message = []

abbrev pub elements : Items → List Json
elements nil = []
elements (cons x xs) = x ∷ elements xs

-- What each branch says of the value.
unfoldable pub results : Check → Json → String → List Fields → List (List String)
results rec value path branches = map (λ branch. rec value branch path) branches

unfoldable pub any_of_errors : Check → Json → Fields → String → List String
any_of_errors rec value schema path =
    let found = results rec value path (object_schemas (get_field "anyOf" schema)) in
    errors_if (not (is_nil found) && not (any is_nil found))
      (append path " does not satisfy any allowed schema branch")

unfoldable pub one_of_errors : Check → Json → Fields → String → List String
one_of_errors rec value schema path =
    let found = results rec value path (object_schemas (get_field "oneOf" schema)) in
    errors_if (not (is_nil found) && not (length (filter is_nil found) == 1))
      (append path " must satisfy exactly one schema branch")

unfoldable pub all_of_errors : Check → Json → Fields → String → List String
all_of_errors rec value schema path =
    flat_map (λ es. es) (results rec value path (object_schemas (get_field "allOf" schema)))

unfoldable pub enum_errors : Platform → Json → Fields → String → List String
unfolding deep_equal
enum_errors platform value schema path = allowed (get_field "enum" schema)
  where
    allowed : Option Json → List String
    allowed (some (arr xs)) =
        errors_if (not (any (λ item. deep_equal platform item value) (elements xs)))
          (append path " must be one of the allowed values")
    allowed _ = []

unfoldable pub const_errors : Platform → Json → Fields → String → List String
unfolding deep_equal
const_errors platform value schema path = required (get_field "const" schema)
  where
    required : Option Json → List String
    required (some constant) =
        errors_if (not (deep_equal platform constant value))
          (append path " must equal the required constant")
    required none = []

unfoldable pub type_errors : Json → Fields → String → List String
type_errors value schema path =
    let types = allowed_types (get_field "type" schema) in
    errors_if (not (is_nil types) && not (any (matches_type value) types))
      (append path (append " must be " (join " or " types)))

-- `size < limit` or `limit < size`, with the text of the limit.
abbrev below_limit : Option Json → ℕ → (ℕ → String) → List String
below_limit (some (num limit)) size message = errors_if (ltb size limit) (message limit)
below_limit _ size message = []

abbrev above_limit : Option Json → ℕ → (ℕ → String) → List String
above_limit (some (num limit)) size message = errors_if (ltb limit size) (message limit)
above_limit _ size message = []

abbrev limit_text : String → String → String → ℕ → String
limit_text path before after n = append path (append before (append (number_text n) after))

abbrev pattern_errors : Platform → String → Option Json → String → List String
pattern_errors platform text (some (str pattern)) path = elim (platform.engine pattern text) [
  | none ↦ append path " uses an invalid schema pattern" ∷ []
  | some found ↦ errors_if (not found) (append path " does not match the required pattern")
]
pattern_errors platform text _ path = []

abbrev holds : Option Json → Bool
holds (some (bool true)) = true
holds _ = false

-- Whether two items have the same text.
abbrev repeats : Platform → List Json → Bool
repeats platform [] = false
repeats platform (x ∷ xs) = any (deep_equal platform x) xs || repeats platform xs

-- The items of an array, each at its index.
abbrev pub item_errors : Check → List Json → Option Fields → ℕ → String → List String
item_errors rec [] schema i path = []
item_errors rec (x ∷ xs) none i path = []
item_errors rec (x ∷ xs) (some s) i path =
    rec x s (append path (append "[" (append (number_text i) "]")))
    ++ item_errors rec xs (some s) (i + 1) path

abbrev pub is_missing : Bool → Option Json → Bool
is_missing reject_empty none = true
is_missing reject_empty (some null) = true
is_missing reject_empty (some (str s)) = reject_empty && s === ""
is_missing reject_empty (some _) = false

unfoldable pub required_errors : Bool → Fields → List String → List String
required_errors reject_empty fs [] = []
required_errors reject_empty fs (name ∷ names) =
    errors_if (is_missing reject_empty (get_field name fs)) (append "Missing required field: " name)
    ++ required_errors reject_empty fs names

abbrev pub checked : Check → Json → String → Option Fields → List String
checked rec value path none = []
checked rec value path (some s) = rec value s path

abbrev pub is_known : Fields → String → Bool
is_known schema name = any (λ known. known === name) (collect_property_names schema)

abbrev pub is_some {ℓ} : {A : Type ℓ} → Option A → Bool
is_some none = false
is_some (some _) = true

-- One field of an object against the schema of its name, or against that for the other names.
unfoldable pub field_errors : Check → Fields → String → String → Json → List String
field_errors rec schema path name child =
    let inside = append path (append "." name) in
    if is_some (property_schema schema name)
    then checked rec child inside (property_schema schema name)
    else (if is_closed schema && not (is_known schema name)
        then append "Unexpected field: " name ∷ []
        else checked rec child inside (additional_schema schema))

unfoldable pub fields_errors : Check → Fields → String → Fields → List String
unfolding field_errors
fields_errors rec schema path end = []
fields_errors rec schema path (field name child fs) =
    field_errors rec schema path name child ++ fields_errors rec schema path fs

-- The checks that depend on what the value is.
unfoldable pub value_errors : Platform → Check → Bool → Json → Fields → String → List String
value_errors platform rec reject_empty (str s) schema path =
    below_limit (get_field "minLength" schema) (length (units s))
      (limit_text path " must contain at least " " characters")
    ++ above_limit (get_field "maxLength" schema) (length (units s))
        (limit_text path " must contain at most " " characters")
    ++ pattern_errors platform s (get_field "pattern" schema) path
value_errors platform rec reject_empty (num n) schema path =
    below_limit (get_field "minimum" schema) n (limit_text path " must be at least " "")
    ++ above_limit (get_field "maximum" schema) n (limit_text path " must be at most " "")
value_errors platform rec reject_empty (arr xs) schema path =
    below_limit (get_field "minItems" schema) (length (elements xs))
      (limit_text path " must contain at least " " items")
    ++ above_limit (get_field "maxItems" schema) (length (elements xs))
        (limit_text path " must contain at most " " items")
    ++ errors_if (holds (get_field "uniqueItems" schema) && repeats platform (elements xs))
        (append path " items must be unique")
    ++ item_errors rec (elements xs) (as_schema (get_field "items" schema)) 0 path
value_errors platform rec reject_empty (obj fs) schema path =
    required_errors reject_empty fs (string_list (get_field "required" schema))
    ++ fields_errors rec schema path fs
value_errors platform rec reject_empty null schema path = []
value_errors platform rec reject_empty (bool b) schema path = []

-- The checks before that of the type.
unfoldable pub combined_errors : Platform → Check → Json → Fields → String → List String
combined_errors platform rec value schema path =
    any_of_errors rec value schema path
    ++ one_of_errors rec value schema path
    ++ all_of_errors rec value schema path
    ++ enum_errors platform value schema path
    ++ const_errors platform value schema path

-- The body of `validateNode`; `rec` is its recursive call. A value of the wrong type ends the check.
unfoldable pub node_errors : Platform → Check → Bool → Json → Fields → String → List String
node_errors platform rec reject_empty value schema path =
    let own = type_errors value schema path in
    if is_nil own
    then distinct (
        combined_errors platform rec value schema path
        ++ value_errors platform rec reject_empty value schema path)
    else combined_errors platform rec value schema path ++ own

-- `validateNode`, with fuel for how deep it descends into the schema.
unfoldable pub validate_node : ℕ → Platform → Bool → Check
validate_node zero platform reject_empty value schema path = []
validate_node (suc f) platform reject_empty value schema path =
    node_errors platform (validate_node f platform reject_empty) reject_empty value schema path

-- The fuel is one more than the depth of the schema.
unfoldable pub validate : Platform → Bool → Check
unfolding validate_node
validate platform reject_empty value schema path =
    validate_node (suc (fields_depth schema)) platform reject_empty value schema path

unfoldable pub validate_json_schema_value : Platform → Json → Option Fields → List String
unfolding validate
validate_json_schema_value platform value none = []
validate_json_schema_value platform value (some schema) = validate platform true value schema "$"

unfoldable pub validate_tool_arguments : Platform → Fields → Option Fields → List String
unfolding validate_json_schema_value
validate_tool_arguments platform args schema = validate_json_schema_value platform (obj args) schema
