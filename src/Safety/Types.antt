-- ===== src/Safety/Types.antt =====
-- The types of agent-kernel/safety/safety-types.ts.
use sun_pilot.Base.{ℕ, Bool, true, false, String, List, Option, ◌==◌}
use sun_pilot.Json.{Fields}

pub data RiskLevel : Type 0 where
  low medium high critical : RiskLevel

-- `===` of two risk levels.
abbrev pub same_risk : RiskLevel → RiskLevel → Bool
same_risk low low = true
same_risk medium medium = true
same_risk high high = true
same_risk critical critical = true
same_risk _ _ = false

pub data Permission : Type 0 where
  filesystem_read filesystem_write filesystem_delete shell_execute : Permission
  network_request database_read database_write secret_read : Permission
  artifact_write memory_write external_send : Permission

abbrev pub permission_rank : Permission → ℕ
permission_rank filesystem_read = 0
permission_rank filesystem_write = 1
permission_rank filesystem_delete = 2
permission_rank shell_execute = 3
permission_rank network_request = 4
permission_rank database_read = 5
permission_rank database_write = 6
permission_rank secret_read = 7
permission_rank artifact_write = 8
permission_rank memory_write = 9
permission_rank external_send = 10

-- `===` of two permissions.
abbrev pub same_permission : Permission → Permission → Bool
same_permission p q = permission_rank p == permission_rank q

pub record PermissionDecision : Type 0 where
  pub allowed : Bool
  pub requires_approval : Bool
  pub risk_level : RiskLevel
  pub reasons : List String

pub data ApprovalStatus : Type 0 where
  pending approved rejected expired : ApprovalStatus

pub record RequestedAction : Type 0 where
  pub skill_id : String
  pub arguments : Fields
  pub permissions : List Permission

pub record ApprovalRequest : Type 0 where
  pub id : String
  pub run_id : String
  pub step_id : Option String
  pub tool_call_id : Option String
  pub title : String
  pub description : String
  pub risk_level : RiskLevel
  pub requested_action : RequestedAction
  pub status : ApprovalStatus
  pub decided_by : Option String
  pub decided_at : Option ℕ
  pub created_at : ℕ
  pub expires_at : Option ℕ
