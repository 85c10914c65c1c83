-- ===== src/Safety/Grants.antt =====
-- TaskScopedPermissionManager of agent-kernel/safety/task-scoped-permission-manager.ts. A time is
-- in milliseconds; `now` is what the `new Date()` of a call reads.
pub mod Args
pub mod Laws
pub mod Reapproval
use Prim.Native.Nat.{Ordering}
use Prim.Native.String.{compare}
use sun_pilot.Base.{
  ℕ, ◌+◌, ◌*◌, String, Bool, true, false, not, ◌&&◌, ◌||◌, Option, none, some, List, [], ◌∷◌, ltb,
  ◌==◌, ◌===◌, same_id, if◌then◌else◌, filter, find, any, all, length,
}
use sun_pilot.Json.{Json, Fields, get_field, keys}
use sun_pilot.Json.Print.{stringify}
use sun_pilot.Text.{codes, append, contains}
use sun_pilot.Run.State.{PermissionMode, ask, auto, full, or_else}
use sun_pilot.Safety.Types.{
  RiskLevel, low, medium, high, critical, same_risk, Permission, same_permission,
}

pub data TaskPermissionScope : Type 0 where
  this_tool_call_only this_plan_step this_run this_conversation : TaskPermissionScope

pub record TaskScopedPermission : Type 0 where
  pub permission : Permission
  pub run_id : String
  pub plan_step_id : Option String
  pub tool_call_id : Option String
  pub skill_id : String
  pub approved_args : Fields
  pub granted_at : ℕ
  pub expires_at : ℕ
  pub granted_by : String
  pub risk_level : RiskLevel
  pub scope : TaskPermissionScope

pub record TaskPermissionCheck : Type 0 where
  pub requested_permission : Permission
  pub run_id : String
  pub plan_step_id : Option String
  pub tool_call_id : Option String
  pub skill_id : String
  pub arguments : Fields
  pub existing_grants : List TaskScopedPermission
  pub permission_mode : PermissionMode
  pub risk_level : RiskLevel

pub record TaskPermissionDecision : Type 0 where
  pub granted : Bool
  pub needs_reapproval : Bool
  pub reason : String
  pub grant : Option TaskScopedPermission

-- A grant holds for 30 minutes.
unfoldable pub create_grant :
    ℕ
    → TaskPermissionCheck
    → TaskPermissionScope
    → Option RiskLevel
    → Option String
    → TaskScopedPermission
create_grant now params scope risk_level granted_by = record {
  permission = params.requested_permission;
  run_id = params.run_id;
  plan_step_id = params.plan_step_id;
  tool_call_id = params.tool_call_id;
  skill_id = params.skill_id;
  approved_args = params.arguments;
  granted_at = now;
  expires_at = now + 30 * 60 * 1000;
  granted_by = or_else granted_by "agent";
  risk_level = or_else risk_level medium;
  scope = scope;
}

abbrev below : String → String → Bool
below s t = elim (compare s t) [ Ordering.lt ↦ true | _ ↦ false ]

insert_sorted : String → List String → List String
insert_sorted s [] = s ∷ []
insert_sorted s (t ∷ ts) = if below t s then t ∷ insert_sorted s ts else s ∷ t ∷ ts

-- `keys.sort()`
sort : List String → List String
unfolding insert_sorted
sort [] = []
sort (s ∷ ss) = insert_sorted s (sort ss)

-- The lengths are equal, and so is each key and its partner.
same_keys : List String → List String → Bool
same_keys [] [] = true
same_keys [] (_ ∷ _) = false
same_keys (_ ∷ _) [] = false
same_keys (s ∷ ss) (t ∷ ts) = s === t && same_keys ss ts

abbrev pub same_codes : List ℕ → List ℕ → Bool
same_codes [] [] = true
same_codes [] (_ ∷ _) = false
same_codes (_ ∷ _) [] = false
same_codes (c ∷ s) (d ∷ t) = c == d && same_codes s t

-- `JSON.stringify(a) === JSON.stringify(b)`, which is `undefined` for an absent value.
abbrev pub same_text : Option Json → Option Json → Bool
same_text none none = true
same_text none (some _) = false
same_text (some _) none = false
same_text (some v) (some w) = same_codes (stringify v) (stringify w)

unfoldable pub args_match : Fields → Fields → Bool
unfolding sort same_keys
args_match approved requested =
    same_keys (sort (keys approved)) (sort (keys requested))
    && all (λ k. same_text (get_field k approved) (get_field k requested)) (sort (keys approved))

abbrev pub is_this_call : TaskPermissionScope → Bool
is_this_call this_tool_call_only = true
is_this_call _ = false

abbrev pub is_this_step : TaskPermissionScope → Bool
is_this_step this_plan_step = true
is_this_step _ = false

abbrev pub is_auto : PermissionMode → Bool
is_auto auto = true
is_auto _ = false

abbrev pub is_full : PermissionMode → Bool
is_full full = true
is_full _ = false

-- The predicate of `samePermissionGrants.find`, its early returns in order.
unfoldable pub is_valid_grant : ℕ → TaskPermissionCheck → TaskScopedPermission → Bool
is_valid_grant now params grant =
    if not (args_match grant.approved_args params.arguments)
    then false
    else (if not (same_risk grant.risk_level params.risk_level)
        then false
        else (if ltb grant.expires_at now
            then false
            else (if is_this_call grant.scope
                  && not (same_id grant.tool_call_id params.tool_call_id)
                then false
                else (if is_this_step grant.scope
                      && not (same_id grant.plan_step_id params.plan_step_id)
                    then false
                    else true))))

-- The three filters on the run, the skill and the permission.
unfoldable pub same_permission_grants : TaskPermissionCheck → List TaskScopedPermission
same_permission_grants params =
    filter (λ g. same_permission g.permission params.requested_permission)
      (filter (λ g. g.skill_id === params.skill_id)
        (filter (λ g. g.run_id === params.run_id) params.existing_grants))

abbrev granted_with : String → TaskScopedPermission → TaskPermissionDecision
granted_with reason grant = record {
  granted = true;
  needs_reapproval = false;
  reason = reason;
  grant = some grant;
}

abbrev refused : String → TaskPermissionDecision
refused reason = record { granted = false; needs_reapproval = true; reason = reason; grant = none }

abbrev scope_name : TaskPermissionScope → String
scope_name this_tool_call_only = "this_tool_call_only"
scope_name this_plan_step = "this_plan_step"
scope_name this_run = "this_run"
scope_name this_conversation = "this_conversation"

abbrev permission_name : Permission → String
permission_name Permission.filesystem_read = "filesystem.read"
permission_name Permission.filesystem_write = "filesystem.write"
permission_name Permission.filesystem_delete = "filesystem.delete"
permission_name Permission.shell_execute = "shell.execute"
permission_name Permission.network_request = "network.request"
permission_name Permission.database_read = "database.read"
permission_name Permission.database_write = "database.write"
permission_name Permission.secret_read = "secret.read"
permission_name Permission.artifact_write = "artifact.write"
permission_name Permission.memory_write = "memory.write"
permission_name Permission.external_send = "external.send"

-- No earlier grant for the run, the skill and the permission.
unfoldable pub check_first_use : ℕ → TaskPermissionCheck → TaskPermissionDecision
check_first_use now params =
    if is_auto params.permission_mode
    then granted_with "Auto permission mode — granting first-time use"
        (create_grant now params this_run (some params.risk_level) none)
    else (if same_risk params.risk_level low
        then granted_with "Low-risk permission — granting this tool call"
            (create_grant now params this_tool_call_only (some params.risk_level) none)
        else refused (
            append "No existing grant for " (
              append (permission_name params.requested_permission)
                (append " on " params.skill_id))))

unfoldable pub check_reuse :
    ℕ → TaskPermissionCheck → List TaskScopedPermission → TaskPermissionDecision
check_reuse now params grants = elim (find (is_valid_grant now params) grants) [
  | some grant ↦
      granted_with
        (append "Existing grant (" (append (scope_name grant.scope) ") covers this request")) grant
  | none ↦
      refused "Existing grants don't cover this specific operation — parameters or scope differ"
]

unfoldable pub check : ℕ → TaskPermissionCheck → TaskPermissionDecision
unfolding check_first_use check_reuse
check now params =
    if is_full params.permission_mode
    then granted_with "Full permission mode — all operations allowed"
        (create_grant now params this_run (some params.risk_level) none)
    else elim (same_permission_grants params) [
      | [] ↦ check_first_use now params
      | g ∷ gs ↦ check_reuse now params (g ∷ gs)
    ]

unfoldable pub create_approved_grant : ℕ → TaskPermissionCheck → String → TaskScopedPermission
create_approved_grant now params granted_by =
    create_grant now params this_tool_call_only (some params.risk_level) (some granted_by)

unfoldable pub requires_fresh_approval : String → RiskLevel → Bool
requires_fresh_approval skill_id risk_level =
    if same_risk risk_level critical
    then true
    else (if same_risk risk_level high
        then true
        else (if any (λ p. contains (codes skill_id) (codes p))
              ("filesystem.delete" ∷ "filesystem.write" ∷ "shell.execute" ∷ "external.send" ∷ [])
            then not (same_risk risk_level low)
            else false))
