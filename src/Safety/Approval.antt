-- ===== src/Safety/Approval.antt =====
-- InMemoryApprovalGate of agent-kernel/safety/approval-gate.ts. A method takes the time that
-- `new Date()` reads; `crypto.randomUUID()` is an argument of `create_approval`.
pub mod Laws
use sun_pilot.Base.{
  ℕ, ◌+◌, ◌*◌, String, Bool, true, false, ◌&&◌, Option, none, some, List, [], ◌∷◌, map, ltb, leb,
  if◌then◌else◌, filter, Dict, lookup, insert, remove,
}
use sun_pilot.Text.{append}
use sun_pilot.Safety.Types.{
  RiskLevel, RequestedAction, ApprovalRequest, ApprovalStatus, pending, approved, rejected, expired,
}
use sun_pilot.Safety.Risk.{approval_expiry_minutes}

pub data ApprovalError : Type 0 where
  approval_not_found approval_already_decided : ApprovalError

pub data Result {ℓ} (A : Type ℓ) : Type ℓ where
  ok : A → Result A
  err : ApprovalError → Result A

-- `cleanup_timers` holds the time at which each timer is due.
pub record Gate : Type 0 where
  pub approvals : Dict ApprovalRequest
  pub cleanup_timers : Dict ℕ

abbrev pub decided_retention_ms : ℕ
decided_retention_ms = 30 * 60 * 1000

pub record ApprovalInput : Type 0 where
  pub run_id : String
  pub step_id : Option String
  pub tool_call_id : Option String
  pub title : String
  pub description : String
  pub risk_level : RiskLevel
  pub requested_action : RequestedAction

unfoldable pub expiry_time : ℕ → RiskLevel → Option ℕ
unfolding approval_expiry_minutes
expiry_time now risk_level =
    let minutes = approval_expiry_minutes risk_level in
    if ltb 0 minutes then some (now + minutes * 60000) else none

-- The record of a new request.
unfoldable pub requested : ℕ → String → ApprovalInput → ApprovalRequest
requested now id input = record {
  id = id;
  run_id = input.run_id;
  step_id = input.step_id;
  tool_call_id = input.tool_call_id;
  title = input.title;
  description = input.description;
  risk_level = input.risk_level;
  requested_action = input.requested_action;
  status = pending;
  decided_by = none;
  decided_at = none;
  created_at = now;
  expires_at = expiry_time now input.risk_level;
}

unfoldable pub create_approval : ℕ → String → ApprovalInput → Gate → Gate × String
create_approval now uuid input g =
    let id = append "approval_" uuid in
    (record g { approvals = insert id (requested now id input) g.approvals }, id)

abbrev pub is_pending : ApprovalStatus → Bool
is_pending pending = true
is_pending _ = false

-- The request with the id, if it may be decided.
abbrev pub pending_request : Option ApprovalRequest → Result ApprovalRequest
pending_request none = err approval_not_found
pending_request (some approval) =
    if is_pending approval.status then ok approval else err approval_already_decided

infixl 5 ◌>>=◌
abbrev pub ◌>>=◌ {ℓ κ} : {A : Type ℓ} {B : Type κ} → Result A → (A → Result B) → Result B
ok a >>= f = f a
err e >>= f = err e

-- A timer that is set again replaces the old one.
unfoldable pub schedule_cleanup : ℕ → String → Gate → Gate
schedule_cleanup now approval_id g = record g {
  cleanup_timers = insert approval_id (now + decided_retention_ms) g.cleanup_timers;
}

-- What `approve` returns.
pub record Approval : Type 0 where
  pub approval_id : String
  pub run_id : String
  pub decided_by : Option String
  pub title : String
  pub risk_level : RiskLevel
  pub requested_action : RequestedAction
  pub tool_call_id : Option String

unfoldable pub approved_by : ℕ → Option String → ApprovalRequest → ApprovalRequest
approved_by now decided_by approval = record approval {
  status = approved;
  decided_by = decided_by;
  decided_at = some now;
}

unfoldable pub approve : ℕ → String → Option String → Gate → Result (Gate × Approval)
unfolding schedule_cleanup
approve now approval_id decided_by g = do
  approval ← pending_request (lookup approval_id g.approvals)
  let decided = approved_by now decided_by approval
  ok (
    schedule_cleanup now approval_id
        (record g { approvals = insert approval_id decided g.approvals }),
    record {
      approval_id = approval_id;
      run_id = approval.run_id;
      decided_by = decided_by;
      title = approval.title;
      risk_level = approval.risk_level;
      requested_action = approval.requested_action;
      tool_call_id = approval.tool_call_id;
    },
  )

-- `reason ? … : description`; the empty reason counts as none.
abbrev pub with_reason : String → Option String → String
with_reason description none = description
with_reason description (some String.[]) = description
with_reason description (some reason) =
    append description (append " (rejected: " (append reason ")"))

unfoldable pub rejected_by : ℕ → Option String → Option String → ApprovalRequest → ApprovalRequest
rejected_by now decided_by reason approval = record approval {
  status = rejected;
  decided_by = decided_by;
  decided_at = some now;
  description = with_reason approval.description reason;
}

-- The result is the run of the approval.
unfoldable pub reject : ℕ → String → Option String → Option String → Gate → Result (Gate × String)
unfolding schedule_cleanup
reject now approval_id decided_by reason g = do
  approval ← pending_request (lookup approval_id g.approvals)
  let decided = rejected_by now decided_by reason approval
  ok (
    schedule_cleanup now approval_id
        (record g { approvals = insert approval_id decided g.approvals }),
    approval.run_id,
  )

-- The callback of the timer of `approval_id`.
unfoldable pub cleanup : String → Gate → Gate
cleanup approval_id g = record {
  approvals = remove approval_id g.approvals;
  cleanup_timers = remove approval_id g.cleanup_timers;
}

unfoldable pub list_pending : Gate → List ApprovalRequest
list_pending g = filter (λ a. is_pending a.status) (map (λ e. e.1) g.approvals)

unfoldable pub is_stale : ℕ → ApprovalRequest → Bool
is_stale now approval = is_pending approval.status && is_past approval.expires_at
  where
    is_past : Option ℕ → Bool
    is_past none = false
    is_past (some expires_at) = ltb expires_at now

-- The loop of `expireStale` over the entries; it returns the expired ids.
unfoldable pub expire_stale_from : ℕ → Dict ApprovalRequest → Dict ApprovalRequest × List String
expire_stale_from now [] = ([], [])
expire_stale_from now ((id, approval) ∷ rest) =
    let (kept, expired_ids) = expire_stale_from now rest in
    if is_stale now approval
    then ((id, record approval { status = expired }) ∷ kept, id ∷ expired_ids)
    else ((id, approval) ∷ kept, expired_ids)

unfoldable pub expire_stale : ℕ → Gate → Gate × List String
expire_stale now g =
    let (approvals, expired_ids) = expire_stale_from now g.approvals in
    (record g { approvals = approvals }, expired_ids)
