-- ===== src/Tests/SafetyTests.antt =====
-- Calls that the permission policy, the grants and the approval gate decide on.
use sun_pilot.Json.{get_field, Json, field, end, Fields, str}
use sun_pilot.Safety.Grants.Reapproval.{should_reapprove_for_args}
use sun_pilot.Base.{
  ℕ, ◌+◌, ◌≤◌, String, true, false, not, ltb, none, some, List, [], ◌∷◌, ◌≡◌, ◌≢◌, ◌⊎◌, inl, inr,
  refl, arith, ◌<◌,
}
use sun_pilot.Text.{codes}
use sun_pilot.Text.Pattern.{test, is_word, is_letter}
use sun_pilot.Run.State.{ask, auto, full, or_else}
use sun_pilot.Safety.Types.{low, medium, high, critical, shell_execute}
use sun_pilot.Safety.Risk.{classify_risk, env_pattern, string_values}
use sun_pilot.Safety.Risk.Env.{env_pattern_blind, DotsApart}
use sun_pilot.Safety.Policy.{
  PolicyInput, evaluate, assessed_risk, risk_order, category_from_skill_id,
}
use sun_pilot.Safety.Policy.Laws.{
  evaluate-matrix, verdict, matrix, is_explicit, reject, assessed_risk_bounds, evaluate_mono,
  in_mode, allowed_in_every_mode, dangerous_is_rejected, dangerous,
}
use sun_pilot.Safety.Grants.{
  TaskScopedPermission, TaskPermissionCheck, check, create_approved_grant, requires_fresh_approval,
  same_permission_grants, args_match,
}
use sun_pilot.Safety.Grants.Args.{SameArgs, args_match-SameArgs}
use sun_pilot.Safety.Grants.Laws.{
  Covers, IsGrantIn, check-Covers, create_approved_grant-check, requires_fresh_approval_mono,
}

abbrev shell_call : String → PolicyInput
shell_call command = record {
  skill_id = "dev:shell.run";
  permissions = shell_execute ∷ [];
  arguments = field "command" (str command) end;
  permission_mode = some full;
  risk_hints =
      some (record { default_risk = some medium; destructive_args = none; external_hosts = none });
}

removes_all : (evaluate (shell_call "sudo rm -rf /")).allowed ≡ false
unfolding evaluate assessed_risk classify_risk test sun_pilot.Text.join string_values
    sun_pilot.Text.Pattern.is_word
removes_all = refl

lists_files : (evaluate (shell_call "ls")).allowed ≡ true
unfolding evaluate assessed_risk classify_risk test sun_pilot.Text.join string_values
    sun_pilot.Text.Pattern.is_word sun_pilot.Safety.Risk.classify_category category_from_skill_id
    sun_pilot.Text.starts_with sun_pilot.Text.after_last
lists_files = refl

reads_env : (classify_risk "shell" (field "command" (str "cat .env") end)).risk_level ≡ high
unfolding classify_risk test sun_pilot.Text.join string_values sun_pilot.Text.Pattern.is_word
    sun_pilot.Safety.Risk.classify_category
reads_env = refl

rm_is_dangerous : dangerous (codes "rm -rf /tmp/x") ≡ true
unfolding test sun_pilot.Text.Pattern.is_word
rm_is_dangerous = refl

dangerous_is_rejected_example :
    (verdict (evaluate (shell_call "rm -rf /tmp/x")) ≡ reject)
    × ((evaluate (shell_call "rm -rf /tmp/x")).risk_level ≡ critical)
unfolding string_values
dangerous_is_rejected_example =
    dangerous_is_rejected (shell_call "rm -rf /tmp/x") "rm -rf /tmp/x" (inl refl) rm_is_dangerous

evaluate-matrix_example :
    (verdict (evaluate (shell_call "ls"))
      ≡ matrix
          (or_else (shell_call "ls").permission_mode auto)
          (assessed_risk (shell_call "ls"))
          (is_explicit (shell_call "ls").permissions))
    × ((evaluate (shell_call "ls")).risk_level ≡ assessed_risk (shell_call "ls"))
evaluate-matrix_example = evaluate-matrix (shell_call "ls")

assessed_risk_bounds_example :
    (risk_order
        (classify_risk
          (category_from_skill_id (shell_call "ls").skill_id)
          (shell_call "ls").arguments).risk_level
      ≤ risk_order (evaluate (shell_call "ls")).risk_level)
    × (risk_order medium ≤ risk_order (evaluate (shell_call "ls")).risk_level)
assessed_risk_bounds_example = assessed_risk_bounds (shell_call "ls") medium refl

auto_asks : (evaluate (in_mode auto (shell_call "ls"))).requires_approval ≡ true
unfolding evaluate assessed_risk classify_risk test sun_pilot.Text.join string_values
    sun_pilot.Text.Pattern.is_word sun_pilot.Safety.Risk.classify_category category_from_skill_id
    sun_pilot.Text.starts_with sun_pilot.Text.after_last
auto_asks = refl

evaluate_mono_example : (evaluate (in_mode ask (shell_call "ls"))).requires_approval ≡ true
evaluate_mono_example = evaluate_mono (shell_call "ls") ask auto (omega arith) auto_asks

allowed_in_every_mode_example :
    (evaluate (in_mode ask (shell_call "ls"))).allowed
    ≡ (evaluate (in_mode full (shell_call "ls"))).allowed
allowed_in_every_mode_example = allowed_in_every_mode (shell_call "ls") ask full

abbrev env_file : List ℕ
env_file = codes "cat .env"

no_dot : {c : ℕ} {P : Type 0} → (c < 46) ⊎ (46 < c) → (c ≢ b'.') ⊎ P
no_dot h = inl (λ e. omega arith)

env_file-DotsApart : DotsApart none env_file
unfolding is_word is_letter
env_file-DotsApart = (
  inr refl,
  (
    no_dot (omega arith),
    (
      no_dot (omega arith),
      (
        no_dot (omega arith),
        (inr refl, (no_dot (omega arith), (no_dot (omega arith), (no_dot (omega arith), tt)))),
      ),
    ),
  ),
)

env_pattern_blind_example : test env_pattern env_file ≡ false
env_pattern_blind_example = env_pattern_blind env_file env_file-DotsApart

abbrev asks_for : List TaskScopedPermission → TaskPermissionCheck
asks_for grants = record {
  requested_permission = shell_execute;
  run_id = "r1";
  plan_step_id = none;
  tool_call_id = some "t1";
  skill_id = "dev:shell.run";
  arguments = field "command" (str "ls") end;
  existing_grants = grants;
  permission_mode = ask;
  risk_level = high;
}

abbrev covered : TaskPermissionCheck
covered = asks_for (create_approved_grant 5 (asks_for []) "user" ∷ [])

covered-granted : (check 10 covered).granted ≡ true
unfolding check same_permission_grants create_approved_grant sun_pilot.Safety.Grants.create_grant
    sun_pilot.Safety.Grants.is_valid_grant args_match sun_pilot.Json.get_field
    sun_pilot.Json.Print.stringify
covered-granted = refl

check-Covers_example :
    ((same_permission_grants covered ≡ []) × ((ask ≡ auto) ⊎ (high ≡ low)))
    ⊎ ((g : TaskScopedPermission) × IsGrantIn g covered.existing_grants
        × Covers 10 covered g
        × ((check 10 covered).grant ≡ some g))
check-Covers_example = check-Covers 10 covered (λ e. ground arith) covered-granted

create_approved_grant-check_example :
    (check 1800006 covered).granted ≡ not (ltb (5 + 1800000) 1800006)
create_approved_grant-check_example = create_approved_grant-check 5 1800006 (asks_for []) "user"

same_match :
    args_match
      (field "a" (str "x") (field "b" (str "y") end))
      (field "b" (str "y") (field "a" (str "x") end))
    ≡ true
unfolding args_match sun_pilot.Json.get_field sun_pilot.Json.Print.stringify
same_match = refl

args_match-SameArgs_example :
    SameArgs
      (field "a" (str "x") (field "b" (str "y") end))
      (field "b" (str "y") (field "a" (str "x") end))
args_match-SameArgs_example =
    args_match-SameArgs (field "a" (str "x") (field "b" (str "y") end))
      (field "b" (str "y") (field "a" (str "x") end)) same_match

medium_shell : requires_fresh_approval "shell.execute" medium ≡ true
unfolding requires_fresh_approval sun_pilot.Text.contains
medium_shell = refl

medium_below_high : risk_order medium ≤ risk_order high
unfolding risk_order
medium_below_high = omega arith

requires_fresh_approval_mono_example : requires_fresh_approval "shell.execute" high ≡ true
requires_fresh_approval_mono_example =
    requires_fresh_approval_mono "shell.execute" medium high medium_below_high medium_shell

-- The names of a target stand for each other.
reapproval_test :
    should_reapprove_for_args (field "path" (Json.str "a") end) (field "target" (Json.str "b") end)
    ≡ true
unfolding should_reapprove_for_args get_field
reapproval_test = refl

reapproval_same :
    should_reapprove_for_args
      (field "path" (Json.str "a") (field "url" (Json.str "u") end))
      (field "file" (Json.str "a") (field "path" Json.null end))
    ≡ false
unfolding should_reapprove_for_args get_field
reapproval_same = refl
