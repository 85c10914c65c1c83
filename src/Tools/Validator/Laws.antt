-- ===== src/Tools/Validator/Laws.antt =====
-- What the arguments of a tool satisfy that the validator accepts.
use sun_pilot.Base.{
  String, Bool, true, false, not, none, some, List, [], ◌∷◌, ◌++◌, ◌≡◌, ◌⊎◌, inl, inr, refl, All,
  any, Bool-cases, Option-cases, sym, ◌∙◌, ◌≢◌,
}
use sun_pilot.Json.{Json, obj, Fields, end, field, get_field}
use sun_pilot.Text.{append}
use sun_pilot.Tools.Schema.{
  string_list, allowed_types, matches_type, property_schema, additional_schema, is_closed,
}
use sun_pilot.Tools.Validator.{
  Platform, Check, is_nil, is_known, is_missing, errors_if, checked, distinct, combined_errors,
  value_errors, type_errors, required_errors, field_errors, fields_errors, node_errors, validate,
  validate_json_schema_value, validate_tool_arguments,
}
use sun_pilot.Tools.Validator.Depth.{validate-eq-node_errors}

nil-append {ℓ} : {A : Type ℓ} (xs ys : List A) → xs ++ ys ≡ [] → (xs ≡ []) × (ys ≡ [])
nil-append [] ys e = (refl, e)
nil-append (x ∷ xs) ys e = cc

is_nil-nil {ℓ} : {A : Type ℓ} (xs : List A) → is_nil xs ≡ true → xs ≡ []
is_nil-nil [] e = refl
is_nil-nil (x ∷ xs) e = cc

is_nil-cons {ℓ} : {A : Type ℓ} (xs : List A) → is_nil xs ≡ false → xs ≢ []
is_nil-cons [] e h = cc
is_nil-cons (x ∷ xs) e h = cc

distinct-nil : (es : List String) → distinct es ≡ [] → es ≡ []
unfolding distinct
distinct-nil [] h = refl
distinct-nil (e ∷ es) h = cc

errors_if-false : (b : Bool) (message : String) → errors_if b message ≡ [] → b ≡ false
errors_if-false false message h = refl
errors_if-false true message h = cc

-- A node without errors: its type, the combined checks and those of its value have none.
node-nil :
    (platform : Platform) (rec : Check) (reject_empty : Bool) (value : Json) (schema : Fields)
    (path : String)
    → node_errors platform rec reject_empty value schema path ≡ []
    → (type_errors value schema path ≡ [])
      × (combined_errors platform rec value schema path ≡ [])
      × (value_errors platform rec reject_empty value schema path ≡ [])
unfolding node_errors
node-nil platform rec reject_empty value schema path h =
    elim (Bool-cases (is_nil (type_errors value schema path))) [
      | inl typed ↦
          let (c, v) = nil-append _ _ (distinct-nil _ (rw typed at h)) in (is_nil-nil _ typed, c, v)
      | inr mistyped ↦
          let (c, t) =
            nil-append (combined_errors platform rec value schema path) _ (rw mistyped at h) in
          absurd (is_nil-cons _ mistyped t)
    ]

-- The value has an allowed type, where the schema names one.
abbrev pub IsTyped : Json → Fields → Type 0
IsTyped value schema =
    (allowed_types (get_field "type" schema) ≡ [])
    ⊎ (any (matches_type value) (allowed_types (get_field "type" schema)) ≡ true)

type_errors-IsTyped :
    (value : Json) (schema : Fields) (path : String)
    → type_errors value schema path ≡ []
    → IsTyped value schema
unfolding type_errors
type_errors-IsTyped value schema path h =
    elim (Bool-cases (is_nil (allowed_types (get_field "type" schema)))) [
      | inl free ↦ inl (is_nil-nil _ free)
      | inr typed ↦ let e = errors_if-false _ _ h in inr (accepted _ (rw typed at e))
    ]
  where
    accepted : (b : Bool) → not b ≡ false → b ≡ true
    accepted true e = refl
    accepted false e = cc

-- The schemas of a field: it has one of its own, or it may bear its name, or any name may stand, and
-- then it meets the schema for the other names, if there is one.
pub data IsPermitted (rec : Check) (schema : Fields) (path name : String) (child : Json)
    : Type 0 where
  by_property :
      (s : Fields)
      → property_schema schema name ≡ some s
      → rec child s (append path (append "." name)) ≡ []
      → IsPermitted rec schema path name child
  by_name :
      property_schema schema name ≡ none
      → is_known schema name ≡ true
      → checked rec child (append path (append "." name)) (additional_schema schema) ≡ []
      → IsPermitted rec schema path name child
  by_rest :
      property_schema schema name ≡ none
      → is_closed schema ≡ false
      → checked rec child (append path (append "." name)) (additional_schema schema) ≡ []
      → IsPermitted rec schema path name child

field_errors-IsPermitted :
    (rec : Check) (schema : Fields) (path name : String) (child : Json)
    → field_errors rec schema path name child ≡ []
    → IsPermitted rec schema path name child
unfolding field_errors
field_errors-IsPermitted rec schema path name child h =
    elim (Option-cases (property_schema schema name)) [
      | inr (s, own) ↦ by_property s own (rw own at h)
      | inl none_own ↦ elim (Bool-cases (is_closed schema)) [
        | inr free ↦ by_rest none_own free (rw (none_own, free) at h)
        | inl closed ↦ elim (Bool-cases (is_known schema name)) [
          | inl known ↦ by_name none_own known (rw (none_own, closed, known) at h)
          | inr unknown ↦ cc (rw (none_own, closed, unknown) at h)
        ]
      ]
    ]

abbrev pub AllPermitted : Check → Fields → String → Fields → Type 0
AllPermitted rec schema path end = Unit
AllPermitted rec schema path (field name child fs) =
    IsPermitted rec schema path name child × AllPermitted rec schema path fs

fields_errors-AllPermitted :
    (rec : Check) (schema : Fields) (path : String) (fs : Fields)
    → fields_errors rec schema path fs ≡ []
    → AllPermitted rec schema path fs
unfolding fields_errors
fields_errors-AllPermitted rec schema path end h = tt
fields_errors-AllPermitted rec schema path (field name child fs) h =
    let (p, q) = nil-append (field_errors rec schema path name child) _ h in
    (
      field_errors-IsPermitted rec schema path name child p,
      fields_errors-AllPermitted rec schema path fs q,
    )

required_errors-nil :
    (reject_empty : Bool) (fs : Fields) (names : List String)
    → required_errors reject_empty fs names ≡ []
    → All (λ name. is_missing reject_empty (get_field name fs) ≡ false) names
unfolding required_errors
required_errors-nil reject_empty fs [] h = tt
required_errors-nil reject_empty fs (name ∷ names) h =
    let (p, q) = nil-append (errors_if (is_missing reject_empty (get_field name fs)) _) _ h in
    (errors_if-false _ _ p, required_errors-nil reject_empty fs names q)

-- Arguments that are accepted under a schema have an allowed type, hold each required field with a
-- value that is neither null nor the empty text, and hold only fields that the schema permits, each
-- of them accepted in turn under the schema for it.
pub accepted_lem :
    (platform : Platform) (args schema : Fields)
    → validate_tool_arguments platform args (some schema) ≡ []
    → IsTyped (obj args) schema
      × All
          (λ name. is_missing true (get_field name args) ≡ false)
          (string_list (get_field "required" schema))
      × AllPermitted (validate platform true) schema "$" args
unfolding validate_tool_arguments validate_json_schema_value value_errors
accepted_lem platform args schema h =
    let (t, c, v) =
      node-nil platform (validate platform true) true (obj args) schema "$"
        (sym (validate-eq-node_errors platform true (obj args) schema "$") ∙ h) in
    let (r, p) =
      nil-append (required_errors true args (string_list (get_field "required" schema))) _ v in
    (
      type_errors-IsTyped (obj args) schema "$" t,
      required_errors-nil true args _ r,
      fields_errors-AllPermitted (validate platform true) schema "$" args p,
    )
