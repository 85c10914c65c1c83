-- ===== src/React/Guard/Plans.antt =====
-- The calls that the guard plans: the policy's decision on them, and the schema of their skill, each
-- looked up anew among the skills.
use sun_pilot.Base.{
  ap, ◌∙◌, find, find-passes, eq_iff, lookup, ℕ, String, ◌||◌, Option, none, some, List, [], ◌∷◌,
  ◌++◌, ◌≡◌, ◌⊎◌, inl, inr, refl, All, All-append, any, leb, Bool-cases, ◌===◌, true, false,
}
use sun_pilot.Json.{Fields}
use sun_pilot.Safety.Policy.{evaluate}
use sun_pilot.Safety.Types.{PermissionDecision}
use sun_pilot.Tools.Validator.{validate_tool_arguments}
use sun_pilot.React.Counts.{Counts, count_of}
use sun_pilot.React.Calls.{PlannedToolCall, SkillSummary, ToolCall}
use sun_pilot.React.Guard.{
  GuardInput, Batch, observe, is_empty, start, planned_call, decide, count_and_decide,
  check_arguments, check_skill, check_call, check_calls, close_batch, check, skill_of, signature_of,
  is_blank, unacceptable,
}

module _ (input : GuardInput) where
  -- The skill of a plan, among those that are available.
  abbrev pub IsSkillOf : PlannedToolCall → SkillSummary → Type 0
  IsSkillOf p skill = find (λ s. s.id === p.skill_id) input.available_skills ≡ some skill

  -- What the policy decides on a skill with arguments.
  abbrev pub verdict : SkillSummary → Fields → PermissionDecision
  verdict skill args = evaluate (record {
    skill_id = skill.id;
    permissions = skill.permissions;
    arguments = args;
    permission_mode = some input.permission_mode;
    risk_hints = some skill.risk_hints;
  })

  -- The validator accepts the arguments under the skill's schema.
  abbrev pub IsValid : PlannedToolCall → Type 0
  IsValid p =
      (skill : SkillSummary) × IsSkillOf p skill
      × (validate_tool_arguments input.platform p.arguments skill.input_schema ≡ [])

  -- The policy allows the call.
  abbrev pub IsAllowed : PlannedToolCall → Type 0
  IsAllowed p =
      (skill : SkillSummary) × IsSkillOf p skill × ((verdict skill p.arguments).allowed ≡ true)

  -- The policy allows the call without an approval.
  abbrev pub IsFree : PlannedToolCall → Type 0
  IsFree p =
      (skill : SkillSummary) × IsSkillOf p skill
      × ((verdict skill p.arguments).allowed ≡ true)
      × ((verdict skill p.arguments).requires_approval ≡ false)

  abbrev IsSound : Batch → Type 0
  IsSound b =
      All (λ p. IsValid p × IsFree p) b.executable
      × All (λ p. IsValid p × IsAllowed p) b.approval_required

  decide-IsSound :
      (call : ToolCall) (skill : SkillSummary) (args : Fields) (b : Batch)
      → find (λ s. s.id === skill.id) input.available_skills ≡ some skill
      → validate_tool_arguments input.platform args skill.input_schema ≡ []
      → IsSound b
      → IsSound (decide input call skill args b)
  unfolding decide planned_call
  decide-IsSound call skill args b known valid (h, k) =
      elim (Bool-cases (verdict skill args).allowed) [
        | inl free ↦ elim (Bool-cases (verdict skill args).requires_approval) [
          | inl ask ↦
              rw (free, ask)
                (
                  h,
                  All-append _ b.approval_required (_ ∷ []) k
                      (((skill, known, valid), (skill, known, free)), tt),
                )
          | inr run ↦
              rw (free, run)
                (
                  All-append _ b.executable (_ ∷ []) h
                      (((skill, known, valid), (skill, known, free, run)), tt),
                  k,
                )
        ]
        | inr refused ↦ rw refused (h, k)
      ]

  count_and_decide-IsSound :
      (call : ToolCall) (skill : SkillSummary) (args : Fields) (b : Batch)
      → find (λ s. s.id === skill.id) input.available_skills ≡ some skill
      → validate_tool_arguments input.platform args skill.input_schema ≡ []
      → IsSound b
      → IsSound (count_and_decide input call skill args b)
  unfolding count_and_decide
  count_and_decide-IsSound call skill args b known valid h =
      elim (Bool-cases (
        leb input.max_repeated_tool_calls
          (count_of (signature_of input skill.id args) b.seen_signatures))) [
            | inl again ↦ rw again h
            | inr fresh ↦ rw fresh (decide-IsSound call skill args _ known valid h)
          ]

  check_arguments-IsSound :
      (call : ToolCall) (skill : SkillSummary) (args : String ⊎ Fields) (b : Batch)
      → find (λ s. s.id === skill.id) input.available_skills ≡ some skill
      → IsSound b
      → IsSound (check_arguments input call skill args b)
  unfolding check_arguments
  check_arguments-IsSound call skill (inl message) b known h = h
  check_arguments-IsSound call skill (inr args) b known h = by_errors _ refl
    where
      by_errors :
          (es : List String)
          → validate_tool_arguments input.platform args skill.input_schema ≡ es
          → IsSound (elim es as (λ _. Batch) [
            | [] ↦ count_and_decide input call skill args b
            | e ∷ es ↦ observe (unacceptable input call skill args (e ∷ es)) b
          ])
      by_errors [] valid = count_and_decide-IsSound call skill args b known valid h
      by_errors (e ∷ es) _ = h

  -- The skill of a call is the one that its id finds.
  abbrev IsKnown : Option SkillSummary → Type 0
  IsKnown none = Unit
  IsKnown (some skill) = find (λ s. s.id === skill.id) input.available_skills ≡ some skill

  found-IsKnown :
      (id : String) (o : Option SkillSummary)
      → find (λ s. s.id === id) input.available_skills ≡ o
      → IsKnown o
  found-IsKnown id none e = tt
  found-IsKnown id (some skill) e =
      let same : skill.id ≡ id =
        (eq_iff skill.id id).0 (find-passes (λ s. s.id === id) input.available_skills e) in
      ap (λ k. find (λ s. s.id === k) input.available_skills) same ∙ e

  skill_of-IsKnown : (call : ToolCall) → IsKnown (skill_of input call)
  unfolding skill_of
  skill_of-IsKnown call = by_name (lookup call.name input.tool_name_map) refl
    where
      by_name :
          (o : Option String)
          → lookup call.name input.tool_name_map ≡ o
          → IsKnown (skill_of input call)
      by_name none e = rw (skill_of, e) tt
      by_name (some id) e = elim (Bool-cases (id === "")) [
        | inl blank ↦ rw (skill_of, e, blank) tt
        | inr named ↦ rw (skill_of, e, named) (found-IsKnown id _ refl)
      ]

  check_skill-IsSound :
      (call : ToolCall) (skill : Option SkillSummary) (b : Batch)
      → IsKnown skill
      → IsSound b
      → IsSound (check_skill input call skill b)
  unfolding check_skill
  check_skill-IsSound call none b known h = h
  check_skill-IsSound call (some skill) b known h = check_arguments-IsSound call skill _ b known h

  check_call-IsSound : (call : ToolCall) (b : Batch) → IsSound b → IsSound (check_call input call b)
  unfolding check_call
  check_call-IsSound call b h = elim (Bool-cases (is_blank call.id)) [
    | inl blank ↦ rw blank h
    | inr named ↦ elim (Bool-cases (any (λ id. id === call.id) b.seen_call_ids)) [
      | inl again ↦ rw (named, again) h
      | inr fresh ↦
          rw (named, fresh)
            (check_skill-IsSound call (skill_of input call) _ (skill_of-IsKnown call) h)
    ]
  ]

  check_calls-IsSound :
      (calls : List ToolCall) (b : Batch) → IsSound b → IsSound (check_calls input calls b)
  unfolding check_calls
  check_calls-IsSound [] b h = h
  check_calls-IsSound (call ∷ calls) b h =
      check_calls-IsSound calls (check_call input call b) (check_call-IsSound call b h)

  waited :
      (ps : List PlannedToolCall)
      → All (λ p. IsValid p × IsFree p) ps
      → All (λ p. IsValid p × IsAllowed p) ps
  waited [] h = tt
  waited (p ∷ ps) h =
      let (skill, found, allowed, free) = h.0.1 in ((h.0.0, (skill, found, allowed)), waited ps h.1)

  close_batch-IsSound : (n : ℕ) (b : Batch) → IsSound b → IsSound (close_batch n b)
  unfolding close_batch
  close_batch-IsSound n b (h, k) =
      elim (Bool-cases
        (is_empty b.observations || is_empty (b.executable ++ b.approval_required))) [
          | inl closed ↦ elim (Bool-cases (is_empty b.approval_required)) [
            | inl none_waits ↦ rw (closed, none_waits) (h, k)
            | inr waiting ↦
                rw (closed, waiting) (tt, All-append _ b.executable _ (waited b.executable h) k)
          ]
          | inr refused ↦ rw refused (tt, tt)
        ]

  check-IsSound : (calls : List ToolCall) (seen : Counts) → IsSound (check input calls seen)
  unfolding check
  check-IsSound calls seen =
      close_batch-IsSound input.max_chars (check_calls input calls (start seen))
        (check_calls-IsSound calls (start seen) (tt, tt))

  firsts :
      (P Q : PlannedToolCall → Type 0) (ps : List PlannedToolCall)
      → All (λ p. P p × Q p) ps
      → All P ps
  firsts P Q [] h = tt
  firsts P Q (p ∷ ps) h = (h.0.0, firsts P Q ps h.1)

  seconds :
      (P Q : PlannedToolCall → Type 0) (ps : List PlannedToolCall)
      → All (λ p. P p × Q p) ps
      → All Q ps
  seconds P Q [] h = tt
  seconds P Q (p ∷ ps) h = (h.0.1, seconds P Q ps h.1)

  -- The arguments of every call that the guard gives out, to be executed or to wait for an approval,
  -- are accepted by the validator under the schema of the skill that the call names.
  pub check-IsValid :
      (calls : List ToolCall) (seen : Counts)
      → All IsValid (check input calls seen).executable
        × All IsValid (check input calls seen).approval_required
  check-IsValid calls seen =
      let (h, k) = check-IsSound calls seen in (firsts _ _ _ h, firsts _ _ _ k)

  -- Every call to execute is allowed by the policy without an approval, for the skill that the call
  -- names, its arguments and the mode, and every call that waits is allowed by the policy.
  pub check-unapproved :
      (calls : List ToolCall) (seen : Counts)
      → All IsFree (check input calls seen).executable
        × All IsAllowed (check input calls seen).approval_required
  check-unapproved calls seen =
      let (h, k) = check-IsSound calls seen in (seconds _ _ _ h, seconds _ _ _ k)
