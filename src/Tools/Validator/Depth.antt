-- ===== src/Tools/Validator/Depth.antt =====
-- The validator's descent into a schema ends: its fuel is enough.
use sun_pilot.Base.{
  ℕ, zero, suc, ◌+◌, ◌≤◌, ◌<◌, String, Bool, Option, none, some, List, [], ◌∷◌, ◌≡◌, refl, arith,
  All,
}
use sun_pilot.Json.{
  Json, null, bool, num, str, arr, obj, Items, nil, cons, Fields, end, field, get_field,
}
use sun_pilot.Tools.Schema.{
  depth, items_depth, fields_depth, objects_of, object_schemas, as_schema, item_at, property,
  property_schema, additional_schema,
}
use sun_pilot.Tools.Validator.{
  Platform, Check, results, checked, item_errors, elements, any_of_errors, one_of_errors,
  all_of_errors, combined_errors, field_errors, fields_errors, value_errors, node_errors,
  validate_node, validate,
}

get_field-depth :
    (k : String) (fs : Fields) {v : Json} → get_field k fs ≡ some v → depth v ≤ fields_depth fs
unfolding get_field fields_depth
get_field-depth k end {v} h = cc
get_field-depth k (field j w fs) {v} h = ground (arith, get_field-depth k fs {v = v})

item_at-depth :
    (k : String) (i : ℕ) (xs : Items) {v : Json}
    → item_at k i xs ≡ some v
    → depth v ≤ items_depth xs
unfolding items_depth
item_at-depth k i nil {v} h = cc
item_at-depth k i (cons w xs) {v} h = ground (arith, item_at-depth k (i + 1) xs {v = v})

-- The schemas that are nested in a schema are less deep.
abbrev Below : ℕ → List Fields → Type 0
Below n ss = All (λ s. fields_depth s < n) ss

objects_of-Below : (n : ℕ) (xs : Items) → items_depth xs ≤ n → Below n (objects_of xs)
unfolding items_depth depth
objects_of-Below n nil h = tt
objects_of-Below n (cons (obj s) xs) h = (omega arith, objects_of-Below n xs (omega arith))
objects_of-Below n (cons null xs) h = objects_of-Below n xs (omega arith)
objects_of-Below n (cons (bool b) xs) h = objects_of-Below n xs (omega arith)
objects_of-Below n (cons (num k) xs) h = objects_of-Below n xs (omega arith)
objects_of-Below n (cons (str t) xs) h = objects_of-Below n xs (omega arith)
objects_of-Below n (cons (arr ys) xs) h = objects_of-Below n xs (omega arith)

object_schemas-Below :
    (n : ℕ) (o : Option Json) → ((v : Json) → o ≡ some v → depth v ≤ n) → Below n (object_schemas o)
unfolding object_schemas depth
object_schemas-Below n none h = tt
object_schemas-Below n (some (arr xs)) h = objects_of-Below n xs (h (arr xs) refl)
object_schemas-Below n (some null) h = tt
object_schemas-Below n (some (bool b)) h = tt
object_schemas-Below n (some (num k)) h = tt
object_schemas-Below n (some (str s)) h = tt
object_schemas-Below n (some (obj s)) h = tt

as_schema-lt :
    (n : ℕ) (o : Option Json)
    → ((v : Json) → o ≡ some v → depth v ≤ n)
    → (s : Fields) → as_schema o ≡ some s
    → fields_depth s < n
unfolding depth
as_schema-lt n none h s e = cc
as_schema-lt n (some (obj t)) h s e = ground (arith, h (obj t) refl)
as_schema-lt n (some null) h s e = cc
as_schema-lt n (some (bool b)) h s e = cc
as_schema-lt n (some (num k)) h s e = cc
as_schema-lt n (some (str t)) h s e = cc
as_schema-lt n (some (arr xs)) h s e = cc

property-depth :
    (o : Option Json) (name : String) (n : ℕ)
    → ((v : Json) → o ≡ some v → depth v ≤ n)
    → (v : Json) → property o name ≡ some v
    → depth v ≤ n
unfolding depth
property-depth none name n h v e = cc
property-depth (some (obj ps)) name n h v e =
    omega (arith, get_field-depth name ps e, h (obj ps) refl)
property-depth (some (arr xs)) name n h v e =
    omega (arith, item_at-depth name 0 xs e, h (arr xs) refl)
property-depth (some null) name n h v e = cc
property-depth (some (bool b)) name n h v e = cc
property-depth (some (num k)) name n h v e = cc
property-depth (some (str t)) name n h v e = cc

-- Two checks that say the same of every schema less deep than `n`.
module _ (n : ℕ) (rec other : Check)
    (agree : (value : Json) (s : Fields) (path : String)
      → fields_depth s < n
      → rec value s path ≡ other value s path) where
  results-agree :
      (value : Json) (path : String) (ss : List Fields)
      → Below n ss
      → results rec value path ss ≡ results other value path ss
  unfolding results
  results-agree value path [] h = refl
  results-agree value path (s ∷ ss) (h, hs) =
      rw (agree value s path h, results-agree value path ss hs) refl

  checked-agree :
      (value : Json) (path : String) (o : Option Fields)
      → ((s : Fields) → o ≡ some s → fields_depth s < n)
      → checked rec value path o ≡ checked other value path o
  checked-agree value path none h = refl
  checked-agree value path (some s) h = agree value s path (h s refl)

  item_errors-agree :
      (xs : List Json) (o : Option Fields) (i : ℕ) (path : String)
      → ((s : Fields) → o ≡ some s → fields_depth s < n)
      → item_errors rec xs o i path ≡ item_errors other xs o i path
  item_errors-agree [] o i path h = refl
  item_errors-agree (x ∷ xs) none i path h = refl
  item_errors-agree (x ∷ xs) (some s) i path h =
      rw (agree x s _ (h s refl), item_errors-agree xs (some s) (i + 1) path h) refl

module _ (schema : Fields) (rec other : Check)
    (agree : (value : Json) (s : Fields) (path : String)
      → fields_depth s < fields_depth schema
      → rec value s path ≡ other value s path) where
  branches-agree :
      (value : Json) (path keyword : String)
      → results rec value path (object_schemas (get_field keyword schema))
        ≡ results other value path (object_schemas (get_field keyword schema))
  branches-agree value path keyword =
      results-agree (fields_depth schema) rec other agree value path _
        (object_schemas-Below _ (get_field keyword schema) (λ v. get_field-depth keyword schema))

  combined-agree :
      (platform : Platform) (value : Json) (path : String)
      → combined_errors platform rec value schema path
        ≡ combined_errors platform other value schema path
  unfolding combined_errors any_of_errors one_of_errors all_of_errors
  combined-agree platform value path =
      rw
        (
          branches-agree value path "anyOf",
          branches-agree value path "oneOf",
          branches-agree value path "allOf",
        )
        refl

  field_errors-agree :
      (path name : String) (child : Json)
      → field_errors rec schema path name child ≡ field_errors other schema path name child
  unfolding field_errors property_schema additional_schema
  field_errors-agree path name child =
      rw
        (
          checked-agree (fields_depth schema) rec other agree child _ (property_schema schema name)
              (as_schema-lt _ _ (
                property-depth (get_field "properties" schema) name _
                  (λ v. get_field-depth "properties" schema))),
          checked-agree (fields_depth schema) rec other agree child _ (additional_schema schema) (
              as_schema-lt _ (get_field "additionalProperties" schema)
                (λ v. get_field-depth "additionalProperties" schema)),
        )
        refl

  fields_errors-agree :
      (path : String) (fs : Fields)
      → fields_errors rec schema path fs ≡ fields_errors other schema path fs
  unfolding fields_errors
  fields_errors-agree path end = refl
  fields_errors-agree path (field name child fs) =
      rw (field_errors-agree path name child, fields_errors-agree path fs) refl

  value_errors-agree :
      (platform : Platform) (reject_empty : Bool) (value : Json) (path : String)
      → value_errors platform rec reject_empty value schema path
        ≡ value_errors platform other reject_empty value schema path
  unfolding value_errors
  value_errors-agree platform reject_empty null path = refl
  value_errors-agree platform reject_empty (bool b) path = refl
  value_errors-agree platform reject_empty (num k) path = refl
  value_errors-agree platform reject_empty (str s) path = refl
  value_errors-agree platform reject_empty (obj fs) path = rw (fields_errors-agree path fs) refl
  value_errors-agree platform reject_empty (arr xs) path =
      rw
        (item_errors-agree (fields_depth schema) rec other agree (elements xs)
          (as_schema (get_field "items" schema)) 0 path
          (as_schema-lt _ (get_field "items" schema) (λ v. get_field-depth "items" schema)))
        refl

  node_errors-agree :
      (platform : Platform) (reject_empty : Bool) (value : Json) (path : String)
      → node_errors platform rec reject_empty value schema path
        ≡ node_errors platform other reject_empty value schema path
  unfolding node_errors
  node_errors-agree platform reject_empty value path =
      rw (combined-agree platform value path, value_errors-agree platform reject_empty value path)
        refl

validate_node-agree :
    (f g : ℕ) (platform : Platform) (reject_empty : Bool) (value : Json) (schema : Fields)
    (path : String)
    → fields_depth schema < f
    → fields_depth schema < g
    → validate_node f platform reject_empty value schema path
      ≡ validate_node g platform reject_empty value schema path
unfolding validate_node
validate_node-agree zero g platform reject_empty value schema path h k = absurd (omega arith)
validate_node-agree (suc f) zero platform reject_empty value schema path h k = absurd (omega arith)
validate_node-agree (suc f) (suc g) platform reject_empty value schema path h k =
    node_errors-agree schema _ _
      (λ v s p below.
        validate_node-agree f g platform reject_empty v s p (omega arith) (omega arith))
      platform reject_empty value path

-- The validator's result is that of its body with the validator itself as the recursive call: its
-- descent into the schema ends before the fuel does, whatever the value, the schema and the platform.
pub validate-eq-node_errors :
    (platform : Platform) (reject_empty : Bool) (value : Json) (schema : Fields) (path : String)
    → validate platform reject_empty value schema path
      ≡ node_errors platform (validate platform reject_empty) reject_empty value schema path
unfolding validate validate_node
validate-eq-node_errors platform reject_empty value schema path =
    node_errors-agree schema _ _
      (λ v s p below.
        validate_node-agree (fields_depth schema) (suc (fields_depth s)) platform reject_empty v s p
          below (omega arith))
      platform reject_empty value path
