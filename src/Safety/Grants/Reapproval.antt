-- ===== src/Safety/Grants/Reapproval.antt =====
-- shouldReapproveForArgs of TaskScopedPermissionManager. The two arguments come from two calls, so an
-- object or array of the one is never the same reference as one of the other.
use sun_pilot.Base.{String, Bool, true, false, not, ◌||◌, ◌==◌, ◌===◌, Option, none, some}
use sun_pilot.Json.{Json, null, bool, num, str, Fields, get_field}

-- `!==`
same_bool : Bool → Bool → Bool
same_bool true b = b
same_bool false b = not b

unfoldable pub differs : Json → Json → Bool
unfolding same_bool
differs null null = false
differs (bool a) (bool b) = not (same_bool a b)
differs (num m) (num n) = not (m == n)
differs (str a) (str b) = not (a === b)
differs v w = true

-- `a ?? b`
abbrev or_null : Option Json → Option Json → Option Json
or_null none b = b
or_null (some null) b = b
or_null (some v) b = some v

abbrev first_of : String → String → String → Fields → Option Json
first_of a b c args = or_null (get_field a args) (or_null (get_field b args) (get_field c args))

abbrev both_differ : Option Json → Option Json → Bool
both_differ none w = false
both_differ (some v) none = false
both_differ (some v) (some w) = differs v w

unfoldable pub should_reapprove_for_args : Fields → Fields → Bool
unfolding differs
should_reapprove_for_args original new =
    both_differ (first_of "path" "target" "file" original) (first_of "path" "target" "file" new)
    || both_differ (first_of "url" "domain" "host" original) (first_of "url" "domain" "host" new)
