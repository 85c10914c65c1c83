-- ===== src/Tests/ApprovalTests.antt =====
-- Requests that the approval gate decides on.
use sun_pilot.Base.{
  ℕ, ◌<◌, Bool, true, false, not, Option, none, some, List, [], ◌∷◌, ◌≡◌, ◌⊎◌, inl, inr, refl,
  arith, lookup, map, filter, all,
}
use sun_pilot.Json.{end}
use sun_pilot.Safety.Types.{high, shell_execute, ApprovalRequest, pending}
use sun_pilot.Safety.Approval.{
  Gate, ApprovalInput, ok, err, approval_already_decided, create_approval, approve, approved_by,
  reject, requested, expire_stale, is_stale, is_pending, schedule_cleanup, Approval,
}
use sun_pilot.Safety.Approval.Laws.{
  Decides, decided_once, step_decided, step, expires, expire_stale_lem, Expires,
  approve_after_expiry, accepted,
}

abbrev approval_input : ApprovalInput
approval_input = record {
  run_id = "r1";
  step_id = none;
  tool_call_id = some "t1";
  title = "Run a command";
  description = "ls";
  risk_level = high;
  requested_action = record {
    skill_id = "dev:shell.run";
    arguments = end;
    permissions = shell_execute ∷ [];
  };
}

abbrev asked : ApprovalRequest
asked = requested 100 "approval_a1" approval_input

abbrev opened : Gate
opened = record { approvals = ("approval_a1", asked) ∷ []; cleanup_timers = [] }

opened-lookup : lookup "approval_a1" opened.approvals ≡ some asked
unfolding lookup
opened-lookup = refl

creates_opened :
    create_approval 100 "a1" approval_input (record { approvals = []; cleanup_timers = [] })
    ≡ (opened, "approval_a1")
unfolding create_approval sun_pilot.Base.insert
creates_opened = refl

abbrev decided : ApprovalRequest
decided = approved_by 200 (some "user") asked

abbrev granted : Gate
granted = record {
  approvals = ("approval_a1", decided) ∷ [];
  cleanup_timers = ("approval_a1", 1800200) ∷ [];
}

abbrev answer : Approval
answer = record {
  approval_id = "approval_a1";
  run_id = "r1";
  decided_by = some "user";
  title = "Run a command";
  risk_level = high;
  requested_action = approval_input.requested_action;
  tool_call_id = some "t1";
}

approves_asked : approve 200 "approval_a1" (some "user") opened ≡ ok (granted, answer)
unfolding approve lookup requested sun_pilot.Base.insert
approves_asked = refl

approved-Decides : Decides 200 "approval_a1" opened granted
approved-Decides = inl (some "user", answer, approves_asked)

decided_once_example :
    (approve 300 "approval_a1" none granted ≡ err approval_already_decided)
    × (reject 300 "approval_a1" none none granted ≡ err approval_already_decided)
decided_once_example = decided_once 200 300 "approval_a1" opened granted none none approved-Decides

granted-lookup : lookup "approval_a1" granted.approvals ≡ some decided
unfolding lookup
granted-lookup = refl

decided-not_pending : is_pending decided.status ≡ false
unfolding approved_by
decided-not_pending = refl

step_decided_example : lookup "approval_a1" (step 9000000 expires granted).approvals ≡ some decided
step_decided_example =
    step_decided 9000000 expires granted "approval_a1" decided tt decided-not_pending granted-lookup

expires_asked : (expire_stale 9000000 opened).1 ≡ "approval_a1" ∷ []
unfolding expire_stale sun_pilot.Safety.Approval.expire_stale_from is_stale requested
    sun_pilot.Safety.Approval.expiry_time
expires_asked = refl

expire_stale_lem_example :
    Expires 9000000 opened.approvals
      (expire_stale 9000000 opened).0.approvals
      (expire_stale 9000000 opened).1
expire_stale_lem_example = expire_stale_lem 9000000 opened

asked_expires : asked.expires_at ≡ some 900100
unfolding requested sun_pilot.Safety.Approval.expiry_time
asked_expires = refl

asked_pending : asked.status ≡ pending
unfolding requested
asked_pending = refl

approve_after_expiry_example :
    (is_stale 9000000 asked ≡ true) × (accepted (approve 9000000 "approval_a1" none opened) ≡ true)
approve_after_expiry_example =
    approve_after_expiry 9000000 900100 "approval_a1" none opened asked opened-lookup asked_pending
      asked_expires (omega arith)
