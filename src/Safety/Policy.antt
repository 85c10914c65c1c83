-- ===== src/Safety/Policy.antt =====
-- PermissionPolicy of agent-kernel/safety/permission-policy.ts.
pub mod Laws
use sun_pilot.Base.{
  ℕ, String, Bool, true, false, ◌||◌, Option, none, some, List, [], ◌∷◌, ◌++◌, ltb, if◌then◌else◌,
}
use sun_pilot.Json.{Fields}
use sun_pilot.Text.{codes, append, join, starts_with, after_last}
use sun_pilot.Run.State.{PermissionMode, ask, auto, full, or_else}
use sun_pilot.Safety.Types.{
  RiskLevel, low, medium, high, critical, same_risk, Permission, PermissionDecision,
}
use sun_pilot.Safety.Risk.{Classification, classify_risk}

pub record RiskHints : Type 0 where
  pub default_risk : Option RiskLevel
  pub destructive_args : Option (List String)
  pub external_hosts : Option (List String)

-- The fields of the input that `evaluate` reads.
pub record PolicyInput : Type 0 where
  pub skill_id : String
  pub permissions : List Permission
  pub arguments : Fields
  pub permission_mode : Option PermissionMode
  pub risk_hints : Option RiskHints

unfoldable pub risk_order : RiskLevel → ℕ
risk_order low = 0
risk_order medium = 1
risk_order high = 2
risk_order critical = 3

-- The capability of a fully qualified id, `<skill-id>:<capability>`, gives the category.
unfoldable pub category_from_skill_id : String → String
category_from_skill_id skill_id =
    if has "filesystem"
    then "filesystem"
    else (if has "shell"
        then "shell"
        else (if has "network" || has "web"
            then "network"
            else (if has "database" || has "db"
                then "database"
                else (if has "memory"
                    then "memory"
                    else (if has "artifact" then "artifact" else "custom")))))
  where
    has : String → Bool
    has prefix =
        starts_with (or_else (after_last b':' (codes skill_id)) (codes skill_id)) (codes prefix)

-- The stricter of the classified risk and the manifest's default.
unfoldable pub stricter : Option RiskLevel → RiskLevel → RiskLevel
unfolding risk_order
stricter none base = base
stricter (some hint) base = if ltb (risk_order base) (risk_order hint) then hint else base

abbrev pub default_risk_of : Option RiskHints → Option RiskLevel
default_risk_of none = none
default_risk_of (some hints) = hints.default_risk

abbrev destructive_args_of : Option RiskHints → Option (List String)
destructive_args_of none = none
destructive_args_of (some hints) = hints.destructive_args

abbrev external_hosts_of : Option RiskHints → Option (List String)
external_hosts_of none = none
external_hosts_of (some hints) = hints.external_hosts

-- `list?.length ? [prefix + list.join(", ")] : []`
abbrev listed : String → Option (List String) → List String
listed prefix none = []
listed prefix (some []) = []
listed prefix (some (s ∷ ss)) = append prefix (join ", " (s ∷ ss)) ∷ []

abbrev mode_name : PermissionMode → String
mode_name ask = "ask"
mode_name auto = "auto"
mode_name full = "full"

abbrev decided : Bool → Bool → RiskLevel → List String → PermissionDecision
decided allowed requires_approval risk_level reasons = record {
  allowed = allowed;
  requires_approval = requires_approval;
  risk_level = risk_level;
  reasons = reasons;
}

-- The `switch` on the mode, for a risk that is not critical.
unfoldable pub decide_mode :
    PermissionMode → RiskLevel → List Permission → List String → PermissionDecision
decide_mode full risk permissions reasons =
    if same_risk risk high
    then decided true false high (reasons ++ "Full permission mode auto-allows high risk" ∷ [])
    else decided true false risk (reasons ++ "Full permission mode — auto-allowed" ∷ [])
decide_mode ask risk permissions reasons =
    if same_risk risk high
    then decided true true high (reasons ++ "Ask mode requires approval for high risk" ∷ [])
    else (if same_risk risk medium
        then decided true true medium
            (reasons ++ "Ask mode requires approval for medium+ risk" ∷ [])
        else decided true false low (reasons ++ "Ask mode auto-allows low risk" ∷ []))
decide_mode auto risk permissions reasons =
    if same_risk risk high
    then decided true true high (reasons ++ "Auto mode requires approval for high risk" ∷ [])
    else (if same_risk risk medium
        then elim permissions [
          | [] ↦ decided true true medium (
              reasons
              ++ "Auto mode: medium risk without explicit permissions requires approval" ∷ [])
          | _ ∷ _ ↦
              decided true false medium
                (reasons ++ "Auto mode: medium risk with explicit permissions" ∷ [])
        ]
        else decided true false low (reasons ++ "Auto mode auto-allows low risk" ∷ []))

-- The risk level that `evaluate` decides on.
unfoldable pub assessed_risk : PolicyInput → RiskLevel
unfolding stricter
assessed_risk input =
    stricter (default_risk_of input.risk_hints)
      (classify_risk (category_from_skill_id input.skill_id) input.arguments).risk_level

unfoldable pub evaluate : PolicyInput → PermissionDecision
unfolding decide_mode
evaluate input =
    let mode = or_else input.permission_mode auto in
    let base = classify_risk (category_from_skill_id input.skill_id) input.arguments in
    let reasons =
      base.reasons
      ++ (listed "Destructive arguments: " (destructive_args_of input.risk_hints)
          ++ (listed "External hosts: " (external_hosts_of input.risk_hints)
              ++ append "Permission mode: " (mode_name mode) ∷ [])) in
    if same_risk (assessed_risk input) critical
    then decided false false critical
        (reasons ++ "Critical risk actions are rejected by default" ∷ [])
    else decide_mode mode (assessed_risk input) input.permissions reasons
