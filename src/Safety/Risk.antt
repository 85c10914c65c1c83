-- ===== src/Safety/Risk.antt =====
-- `classifyRisk` of agent-kernel/safety/safety-types.ts.
pub mod Env
use sun_pilot.Base.{
  ℕ, String, Bool, false, ◌||◌, Option, none, some, List, [], ◌∷◌, ◌===◌, if◌then◌else◌, find,
}
use sun_pilot.Json.{Json, null, bool, num, str, arr, obj, Fields, end, field, get_field}
use sun_pilot.Text.{codes, append, join, starts_with, contains}
use sun_pilot.Text.Pattern.{Pattern, boundary, letter, chr, spaces, maybe, either, word, test, ◌⋅◌}
use sun_pilot.Safety.Types.{RiskLevel, low, medium, high, critical}

-- A pattern with the text of its source.
pub record NamedPattern : Type 0 where
  pub source : String
  pub pattern : Pattern

abbrev named : String → Pattern → NamedPattern
named source pattern = record { source = source; pattern = pattern }

abbrev pub destructive_command_patterns : List NamedPattern
destructive_command_patterns =
    named "\\brm\\s+-rf?\\b"
      (boundary ⋅ word (codes "rm") ⋅ spaces ⋅ word (codes "-r") ⋅ maybe (chr b'f') ⋅ boundary)
    ∷ named "\\brmdir\\b" (boundary ⋅ word (codes "rmdir") ⋅ boundary)
    ∷ named "\\bdel\\s+\\/f\\b"
        (boundary ⋅ word (codes "del") ⋅ spaces ⋅ word (codes "/f") ⋅ boundary)
    ∷ named "\\bchmod\\s+777\\b"
        (boundary ⋅ word (codes "chmod") ⋅ spaces ⋅ word (codes "777") ⋅ boundary)
    ∷ named "\\bchown\\s+-R\\b"
        (boundary ⋅ word (codes "chown") ⋅ spaces ⋅ word (codes "-R") ⋅ boundary)
    ∷ named "\\bmkfs\\b" (boundary ⋅ word (codes "mkfs") ⋅ boundary)
    ∷ named "\\bdd\\s+if=" (boundary ⋅ word (codes "dd") ⋅ spaces ⋅ word (codes "if="))
    ∷ named "\\bformat\\s+(c:|[a-z]:)"
        (boundary ⋅ word (codes "format") ⋅ spaces ⋅ either (word (codes "c:")) (letter ⋅ chr b':'))
    ∷ named "\\b>\\/dev\\/sd[a-z]\\b" (boundary ⋅ word (codes ">/dev/sd") ⋅ letter ⋅ boundary)
    ∷ named "\\bDROP\\s+(TABLE|DATABASE)\\b" (
        boundary
        ⋅ word (codes "DROP")
        ⋅ spaces
        ⋅ either (word (codes "TABLE")) (word (codes "DATABASE"))
        ⋅ boundary)
    ∷ named "\\bTRUNCATE\\b" (boundary ⋅ word (codes "TRUNCATE") ⋅ boundary)
    ∷ []

-- `[_\s]?`
abbrev gap : Pattern
gap = maybe (either (chr b'_') Pattern.space)

abbrev pub env_pattern : Pattern
env_pattern = boundary ⋅ word (codes ".env") ⋅ boundary

abbrev pub secret_patterns : List NamedPattern
secret_patterns =
    named "\\bAPI[_\\s]?KEY\\b"
      (boundary ⋅ word (codes "API") ⋅ gap ⋅ word (codes "KEY") ⋅ boundary)
    ∷ named "\\bSECRET[_\\s]?KEY\\b"
        (boundary ⋅ word (codes "SECRET") ⋅ gap ⋅ word (codes "KEY") ⋅ boundary)
    ∷ named "\\bPRIVATE[_\\s]?KEY\\b"
        (boundary ⋅ word (codes "PRIVATE") ⋅ gap ⋅ word (codes "KEY") ⋅ boundary)
    ∷ named "\\bPASSWORD\\b" (boundary ⋅ word (codes "PASSWORD") ⋅ boundary)
    ∷ named "\\bTOKEN\\b" (boundary ⋅ word (codes "TOKEN") ⋅ boundary)
    ∷ named "\\b\\.env\\b" env_pattern
    ∷ named "\\bCREDENTIALS\\b" (boundary ⋅ word (codes "CREDENTIALS") ⋅ boundary)
    ∷ []

-- `/\b(DELETE|DROP|TRUNCATE|UPDATE|INSERT)\b/i`
abbrev write_query_pattern : Pattern
write_query_pattern =
    boundary
    ⋅ either (word (codes "DELETE")) (
        either (word (codes "DROP")) (
          either (word (codes "TRUNCATE"))
            (either (word (codes "UPDATE")) (word (codes "INSERT")))))
    ⋅ boundary

-- `Object.values(args).filter((v) => typeof v === "string")`
unfoldable pub string_values : Fields → List String
string_values end = []
string_values (field k (str s) fs) = s ∷ string_values fs
string_values (field k null fs) = string_values fs
string_values (field k (bool b) fs) = string_values fs
string_values (field k (num n) fs) = string_values fs
string_values (field k (arr xs) fs) = string_values fs
string_values (field k (obj o) fs) = string_values fs

-- A field that is a string.
abbrev pub string_field : Option Json → Option String
string_field (some (str s)) = some s
string_field _ = none

pub record Classification : Type 0 where
  pub risk_level : RiskLevel
  pub reasons : List String

abbrev pub classified : RiskLevel → String → Classification
classified level reason = record { risk_level = level; reasons = reason ∷ [] }

-- `args.path && typeof args.path === "string"` with the tests on the path.
unfoldable pub is_system_path : Option String → Bool
is_system_path none = false
is_system_path (some path) =
    contains (codes path) (codes "/etc/")
    || contains (codes path) (codes "/home/")
    || starts_with (codes path) (codes "/")

abbrev is_text : Option String → String → Bool
is_text none t = false
is_text (some s) t = s === t

-- The `switch` on the category.
unfoldable pub classify_category : String → Fields → Classification
unfolding is_system_path
classify_category category args =
    if category === "filesystem"
    then (if is_system_path (string_field (get_field "path" args))
        then classified high "Filesystem operation on system path"
        else (if operation_is "delete" || operation_is "rm"
            then classified high "File deletion operation"
            else classified low "Standard filesystem operation"))
    else (if category === "shell"
        then classified high "Shell execution always requires caution"
        else (if category === "network"
            then classified medium "Network operations"
            else (if category === "database"
                then (if writes (string_field (get_field "query" args))
                    then classified high "Database write operation"
                    else classified medium "Database operation")
                else (if category === "memory"
                    then classified low "Memory operation"
                    else (if category === "artifact"
                        then classified low "Artifact operation"
                        else classified low "Unknown skill category")))))
  where
    operation_is : String → Bool
    operation_is t = is_text (string_field (get_field "operation" args)) t

    writes : Option String → Bool
    writes none = false
    writes (some query) = test write_query_pattern (codes query)

-- The first pattern of the list that the text matches.
unfoldable pub first_match : List ℕ → List NamedPattern → Option NamedPattern
first_match s = find (λ p. test p.pattern s)

unfoldable pub classify_risk : String → Fields → Classification
unfolding first_match
classify_risk category args =
    let arg_strings = codes (join " " (string_values args)) in
    elim (first_match arg_strings destructive_command_patterns) [
      | some p ↦ classified critical (append "Destructive command detected: " p.source)
      | none ↦ elim (first_match arg_strings secret_patterns) [
        | some p ↦ classified critical (append "Potential secret access: " p.source)
        | none ↦ classify_category category args
      ]
    ]

-- APPROVAL_EXPIRY_MINUTES
unfoldable pub approval_expiry_minutes : RiskLevel → ℕ
approval_expiry_minutes low = 60
approval_expiry_minutes medium = 30
approval_expiry_minutes high = 15
approval_expiry_minutes critical = 0
