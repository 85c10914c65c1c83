-- ===== src/Safety/Grants/Laws.antt =====
-- When the manager grants a permission, and by which grant.
use sun_pilot.Base.{
  ◌+◌, ℕ, ◌≤◌, String, Bool, true, not, Option, none, some, List, [], ◌∷◌, ◌≡◌, ◌≢◌, ◌⊎◌, inl, inr,
  refl, arith, eq_iff, find, filter, Option-cases, find-passes, same_id, ===_refl, ltb,
}
use sun_pilot.Run.State.{auto, full, ask}
use sun_pilot.Safety.Types.{RiskLevel, low, same_risk, Permission, same_permission}
use sun_pilot.Safety.Grants.{
  TaskScopedPermission, TaskPermissionCheck, this_tool_call_only, this_plan_step, is_valid_grant,
  same_permission_grants, args_match, check, check_first_use, check_reuse, requires_fresh_approval,
  create_approved_grant, create_grant, TaskPermissionScope,
}
use sun_pilot.Safety.Grants.Args.{SameArgs, args_match_refl, args_match-SameArgs}
use sun_pilot.Safety.Policy.{risk_order}

-- A grant that covers a request: it is for the same run, skill and permission, was given for the
-- same arguments at the same risk, has not expired, and its scope reaches the request.
pub record Covers (now : ℕ) (params : TaskPermissionCheck) (g : TaskScopedPermission) : Type 0 where
  pub run : g.run_id ≡ params.run_id
  pub skill : g.skill_id ≡ params.skill_id
  pub permission : g.permission ≡ params.requested_permission
  pub arguments : SameArgs g.approved_args params.arguments
  pub risk : g.risk_level ≡ params.risk_level
  pub unexpired : now ≤ g.expires_at
  pub call : (g.scope ≢ this_tool_call_only) ⊎ (g.tool_call_id ≡ params.tool_call_id)
  pub step : (g.scope ≢ this_plan_step) ⊎ (g.plan_step_id ≡ params.plan_step_id)

abbrev pub IsGrantIn : TaskScopedPermission → List TaskScopedPermission → Type 0
IsGrantIn g [] = ⊥
IsGrantIn g (h ∷ hs) = (g ≡ h) ⊎ IsGrantIn g hs

same_id-eq : (a b : Option String) → same_id a b ≡ true → a ≡ b
same_id-eq none none h = refl
same_id-eq none (some t) h = cc
same_id-eq (some s) none h = cc
same_id-eq (some s) (some t) h = ground (arith, eq_iff s t)

same_id_refl : (a : Option String) → same_id a a ≡ true
same_id_refl none = refl
same_id_refl (some s) = ===_refl s

same_permission_refl : (p : Permission) → same_permission p p ≡ true
same_permission_refl p = ground arith

same_risk_refl : (r : RiskLevel) → same_risk r r ≡ true
same_risk_refl r = ground arith

same_permission-eq : (p q : Permission) → same_permission p q ≡ true → p ≡ q
same_permission-eq p q h = ground arith

same_risk-eq : (r s : RiskLevel) → same_risk r s ≡ true → r ≡ s
same_risk-eq r s h = ground arith

filter-IsGrantIn :
    (p : TaskScopedPermission → Bool) (g : TaskScopedPermission) (gs : List TaskScopedPermission)
    → IsGrantIn g (filter p gs)
    → (p g ≡ true) × IsGrantIn g gs
filter-IsGrantIn p g [] i = absurd i
filter-IsGrantIn p g (h ∷ gs) i = ground (arith, filter-IsGrantIn p g gs)

find-IsGrantIn :
    (p : TaskScopedPermission → Bool) (gs : List TaskScopedPermission) {g : TaskScopedPermission}
    → find p gs ≡ some g
    → IsGrantIn g gs
find-IsGrantIn p [] h = cc
find-IsGrantIn p (x ∷ gs) {g} h = ground (arith, find-IsGrantIn p gs {g = g})

-- What the predicate of `find` tests.
valid_parts :
    (now : ℕ) (params : TaskPermissionCheck) (g : TaskScopedPermission)
    → is_valid_grant now params g ≡ true
    → (args_match g.approved_args params.arguments ≡ true)
      × (same_risk g.risk_level params.risk_level ≡ true)
      × (now ≤ g.expires_at)
      × (g.scope ≡ this_tool_call_only → same_id g.tool_call_id params.tool_call_id ≡ true)
      × (g.scope ≡ this_plan_step → same_id g.plan_step_id params.plan_step_id ≡ true)
unfolding is_valid_grant
valid_parts now params g h = ground arith

same_permission_grants-IsGrantIn :
    (params : TaskPermissionCheck) (g : TaskScopedPermission)
    → IsGrantIn g (same_permission_grants params)
    → (g.run_id ≡ params.run_id)
      × (g.skill_id ≡ params.skill_id)
      × (g.permission ≡ params.requested_permission)
      × IsGrantIn g params.existing_grants
unfolding same_permission_grants
same_permission_grants-IsGrantIn params g i =
    let (p, j) = filter-IsGrantIn _ g _ i in
    let (s, k) = filter-IsGrantIn _ g _ j in
    let (r, l) = filter-IsGrantIn _ g params.existing_grants k in
    (
      (eq_iff g.run_id params.run_id).0 r,
      (eq_iff g.skill_id params.skill_id).0 s,
      same_permission-eq g.permission params.requested_permission p,
      l,
    )

reached : {P : Type 0} (s t : TaskPermissionScope) → (s ≡ t → P) → (s ≢ t) ⊎ P
reached s t f = ground arith

found-Covers :
    (now : ℕ) (params : TaskPermissionCheck) (g : TaskScopedPermission)
    → find (is_valid_grant now params) (same_permission_grants params) ≡ some g
    → IsGrantIn g params.existing_grants × Covers now params g
found-Covers now params g h =
    let (r, s, p, i) =
      same_permission_grants-IsGrantIn params g
        (find-IsGrantIn _ (same_permission_grants params) h) in
    let (a, k, u, c, t) =
      valid_parts now params g (find-passes _ (same_permission_grants params) h) in
    (
      i,
      record {
        run = r;
        skill = s;
        permission = p;
        arguments = args_match-SameArgs g.approved_args params.arguments a;
        risk = same_risk-eq g.risk_level params.risk_level k;
        unexpired = u;
        call =
            reached g.scope this_tool_call_only
              (λ e. same_id-eq g.tool_call_id params.tool_call_id (c e));
        step =
            reached g.scope this_plan_step
              (λ e. same_id-eq g.plan_step_id params.plan_step_id (t e));
      },
    )

check_cases :
    (now : ℕ) (params : TaskPermissionCheck)
    → params.permission_mode ≢ full
    → ((same_permission_grants params ≡ []) × (check now params ≡ check_first_use now params))
      ⊎ (check now params ≡ check_reuse now params (same_permission_grants params))
unfolding check
check_cases now params h = ground arith

-- Outside full mode a permission is granted in two cases only: no grant for the run, the skill and
-- the permission exists, and the mode is auto or the risk is low; or an existing grant covers the
-- request, and that grant is the one returned.
pub check-Covers :
    (now : ℕ) (params : TaskPermissionCheck)
    → params.permission_mode ≢ full
    → (check now params).granted ≡ true
    → ((same_permission_grants params ≡ [])
        × ((params.permission_mode ≡ auto) ⊎ (params.risk_level ≡ low)))
      ⊎ ((g : TaskScopedPermission) × IsGrantIn g params.existing_grants
          × Covers now params g
          × ((check now params).grant ≡ some g))
unfolding check_first_use check_reuse
check-Covers now params h granted = elim (check_cases now params h) [
  | inl (none_yet, e) ↦ ground arith
  | inr e ↦
      rw e (elim (Option-cases (find (is_valid_grant now params) (same_permission_grants params))) [
        | inl missing ↦ ground arith
        | inr (g, hit) ↦ let (i, c) = found-Covers now params g hit in inr (g, i, c, ground arith)
      ])
]

-- A skill that needs a fresh approval at a risk needs one at every higher risk.
pub requires_fresh_approval_mono :
    (skill_id : String) (r s : RiskLevel)
    → risk_order r ≤ risk_order s
    → requires_fresh_approval skill_id r ≡ true
    → requires_fresh_approval skill_id s ≡ true
unfolding requires_fresh_approval risk_order
requires_fresh_approval_mono skill_id r s l h = ground arith

-- A grant that the user gave for a call lets the same call pass, in ask mode and at any risk, for
-- 30 minutes and no longer.
pub create_approved_grant-check :
    (now later : ℕ) (params : TaskPermissionCheck) (granted_by : String)
    → let asked = record params {
      existing_grants = create_approved_grant now params granted_by ∷ [];
      permission_mode = ask;
    } in
      (check later asked).granted ≡ not (ltb (now + 1800000) later)
unfolding check create_approved_grant create_grant check_reuse same_permission_grants is_valid_grant
create_approved_grant-check now later params granted_by = ground (
  arith,
  ===_refl params.run_id,
  ===_refl params.skill_id,
  args_match_refl params.arguments,
  same_id_refl params.tool_call_id,
  same_risk_refl params.risk_level,
  same_permission_refl params.requested_permission,
)
