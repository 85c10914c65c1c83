-- ===== src/Tools/Schema.antt =====
-- The parts of a JSON schema that tools/tool-argument-validator.ts reads. A schema is the object that
-- `JSON.parse` made of it.
use sun_pilot.Base.{
  ℕ, suc, ◌+◌, String, Bool, true, false, ◌||◌, Option, none, some, List, [], ◌∷◌, ◌++◌, ◌===◌, max,
  if◌then◌else◌,
}
use sun_pilot.Json.{
  Json, null, bool, num, str, arr, obj, Items, nil, cons, Fields, end, field, get_field, keys,
}
use sun_pilot.Json.Print.{decimal}
use sun_pilot.Safety.Grants.{same_codes}
use sun_pilot.Text.{codes}

abbrev pub objects_of : Items → List Fields
objects_of nil = []
objects_of (cons (obj s) xs) = s ∷ objects_of xs
objects_of (cons _ xs) = objects_of xs

unfoldable pub object_schemas : Option Json → List Fields
object_schemas (some (arr xs)) = objects_of xs
object_schemas _ = []

-- The strings of an array.
abbrev strings_of : Items → List String
strings_of nil = []
strings_of (cons (str s) xs) = s ∷ strings_of xs
strings_of (cons _ xs) = strings_of xs

-- `Array.isArray(schema.required) ? schema.required.filter(isString) : []`
unfoldable pub string_list : Option Json → List String
string_list (some (arr xs)) = strings_of xs
string_list _ = []

unfoldable pub allowed_types : Option Json → List String
unfolding string_list
allowed_types (some (str t)) = t ∷ []
allowed_types other = string_list other

abbrev is_string : Json → Bool
is_string (str s) = true
is_string _ = false

abbrev is_number : Json → Bool
is_number (num n) = true
is_number _ = false

abbrev is_boolean : Json → Bool
is_boolean (bool b) = true
is_boolean _ = false

abbrev is_array : Json → Bool
is_array (arr xs) = true
is_array _ = false

abbrev is_object : Json → Bool
is_object (obj fs) = true
is_object _ = false

abbrev is_null : Json → Bool
is_null null = true
is_null _ = false

-- A type that the validator does not know matches every value.
unfoldable pub matches_type : Json → String → Bool
matches_type value expected =
    if expected === "string"
    then is_string value
    else (if expected === "number" || expected === "integer"
        then is_number value
        else (if expected === "boolean"
            then is_boolean value
            else (if expected === "array"
                then is_array value
                else (if expected === "object"
                    then is_object value
                    else (if expected === "null" then is_null value else true)))))

-- An array indexed by the text of a property name.
abbrev pub item_at : String → ℕ → Items → Option Json
item_at name i nil = none
item_at name i (cons x xs) =
    let rest = item_at name (i + 1) xs in
    if same_codes (decimal i) (codes name) then some x else rest

-- `properties[field]`, where the property names of an array are its indices.
abbrev pub property : Option Json → String → Option Json
property (some (obj ps)) name = get_field name ps
property (some (arr xs)) name = item_at name 0 xs
property _ name = none

abbrev pub as_schema : Option Json → Option Fields
as_schema (some (obj s)) = some s
as_schema _ = none

-- The schema of a field, if `schema.properties` has an object for it.
unfoldable pub property_schema : Fields → String → Option Fields
property_schema schema name = as_schema (property (get_field "properties" schema) name)

-- `schema.additionalProperties === false`
unfoldable pub is_closed : Fields → Bool
is_closed schema = closes (get_field "additionalProperties" schema)
  where
    closes : Option Json → Bool
    closes (some (bool false)) = true
    closes _ = false

-- The schema of the fields that `properties` does not name, if there is one.
unfoldable pub additional_schema : Fields → Option Fields
additional_schema schema = as_schema (get_field "additionalProperties" schema)

abbrev is_combinator : String → Bool
is_combinator k = k === "anyOf" || k === "oneOf" || k === "allOf"

-- The keys of an object are different, so each keyword is met once.
unfoldable mutual
  pub collect_property_names : Fields → List String
  collect_property_names end = []
  collect_property_names (field k v fs) = keyword_names k v ++ collect_property_names fs

  pub keyword_names : String → Json → List String
  keyword_names k (obj ps) = if k === "properties" then keys ps else []
  keyword_names k (arr xs) = if is_combinator k then branch_names xs else []
  keyword_names k null = []
  keyword_names k (bool b) = []
  keyword_names k (num n) = []
  keyword_names k (str s) = []

  pub branch_names : Items → List String
  branch_names nil = []
  branch_names (cons x xs) = object_names x ++ branch_names xs

  pub object_names : Json → List String
  object_names (obj s) = collect_property_names s
  object_names null = []
  object_names (bool b) = []
  object_names (num n) = []
  object_names (str s) = []
  object_names (arr xs) = []

-- How deep values nest, which bounds how deep the validator descends into a schema.
unfoldable mutual
  pub depth : Json → ℕ
  depth null = 0
  depth (bool b) = 0
  depth (num n) = 0
  depth (str s) = 0
  depth (arr xs) = items_depth xs
  depth (obj fs) = suc (fields_depth fs)

  pub items_depth : Items → ℕ
  items_depth nil = 0
  items_depth (cons x xs) = max (depth x) (items_depth xs)

  pub fields_depth : Fields → ℕ
  fields_depth end = 0
  fields_depth (field k v fs) = max (depth v) (fields_depth fs)
