-- ===== src/React/Guard/Counting.antt =====
-- The attempts that the guard counts: no signature is accepted more often than the limit allows.
use sun_pilot.Base.{
  ℕ, ◌≤◌, Option, none, some, List, [], ◌∷◌, ◌++◌, ◌≡◌, ◌⊎◌, inl, inr, refl, arith, String, any,
  leb, Bool-cases, lookup, ◌===◌, ◌||◌, max,
}
use sun_pilot.Json.{Fields}
use sun_pilot.Safety.Policy.{evaluate}
use sun_pilot.Safety.Types.{PermissionDecision}
use sun_pilot.React.Counts.{
  Counts, count_of, count_of-set_count, count_of-decrement_signature, same_codes-eq,
}
use sun_pilot.React.Calls.{PlannedToolCall, SkillSummary, ToolCall}
use sun_pilot.React.Guard.{
  GuardInput, Batch, observe, is_empty, start, decide, forget, count_and_decide, check_arguments,
  check_skill, check_call, check_calls, freeze, close_batch, check, skill_of, signature_of,
  is_blank, validate_tool_arguments, unacceptable,
}

decide-seen_signatures :
    (input : GuardInput) (call : ToolCall) (skill : SkillSummary) (args : Fields) (b : Batch)
    → (decide input call skill args b).seen_signatures ≡ b.seen_signatures
unfolding decide
decide-seen_signatures input call skill args b = elim (Bool-cases permission.allowed) [
  | inl free ↦ elim (Bool-cases permission.requires_approval) [
    | inl ask ↦ rw (free, ask) refl
    | inr run ↦ rw (free, run) refl
  ]
  | inr refused ↦ rw refused refl
]
  where
    permission : PermissionDecision
    permission = evaluate (record {
      skill_id = skill.id;
      permissions = skill.permissions;
      arguments = args;
      permission_mode = some input.permission_mode;
      risk_hints = some skill.risk_hints;
    })

module _ (input : GuardInput) (r : List ℕ) (k : ℕ)
    (within : input.max_repeated_tool_calls ≤ k) where
  count_and_decide-bound :
      (call : ToolCall) (skill : SkillSummary) (args : Fields) (b : Batch)
      → count_of r b.seen_signatures ≤ k
      → count_of r (count_and_decide input call skill args b).seen_signatures ≤ k
  unfolding count_and_decide
  count_and_decide-bound call skill args b h =
      elim (Bool-cases (leb input.max_repeated_tool_calls (count_of s b.seen_signatures))) [
        | inl again ↦ rw again h
        | inr fresh ↦ rw (fresh, decide-seen_signatures, count_of-set_count) (ground arith)
      ]
    where
      s : List ℕ
      s = signature_of input skill.id args

  check_arguments-bound :
      (call : ToolCall) (skill : SkillSummary) (args : String ⊎ Fields) (b : Batch)
      → count_of r b.seen_signatures ≤ k
      → count_of r (check_arguments input call skill args b).seen_signatures ≤ k
  unfolding check_arguments
  check_arguments-bound call skill (inl message) b h = h
  check_arguments-bound call skill (inr args) b h =
      elim (validate_tool_arguments input.platform args skill.input_schema)
        as (λ es.
          count_of r
            (elim es as (λ _. Batch) [
              | [] ↦ count_and_decide input call skill args b
              | e ∷ es ↦ observe (unacceptable input call skill args (e ∷ es)) b
            ]).seen_signatures
          ≤ k) [ [] ↦ count_and_decide-bound call skill args b h | e ∷ es ↦ h ]

  check_call-bound :
      (call : ToolCall) (b : Batch)
      → count_of r b.seen_signatures ≤ k
      → count_of r (check_call input call b).seen_signatures ≤ k
  unfolding check_call check_skill
  check_call-bound call b h = elim (Bool-cases (is_blank call.id)) [
    | inl blank ↦ rw blank h
    | inr named ↦ elim (Bool-cases (any (λ id. id === call.id) b.seen_call_ids)) [
      | inl again ↦ rw (named, again) h
      | inr fresh ↦ rw (named, fresh) (known (skill_of input call))
    ]
  ]
    where
      known :
          (skill : Option SkillSummary)
          → count_of r
              (check_skill input call skill
                (record b { seen_call_ids = call.id ∷ b.seen_call_ids })).seen_signatures
            ≤ k
      known none = h
      known (some skill) = check_arguments-bound call skill _ _ h

  check_calls-bound :
      (calls : List ToolCall) (b : Batch)
      → count_of r b.seen_signatures ≤ k
      → count_of r (check_calls input calls b).seen_signatures ≤ k
  unfolding check_calls
  check_calls-bound [] b h = h
  check_calls-bound (call ∷ calls) b h =
      check_calls-bound calls (check_call input call b) (check_call-bound call b h)

forget-le :
    (r : List ℕ) (signature : Option (List ℕ)) (counts : Counts)
    → count_of r (forget signature counts) ≤ count_of r counts
forget-le r none counts = omega arith
forget-le r (some s) counts =
    ground (arith, count_of-decrement_signature s r counts, same_codes-eq s r)

freeze-le :
    (n : ℕ) (r : List ℕ) (calls : List PlannedToolCall) (b : Batch)
    → count_of r (freeze n calls b).seen_signatures ≤ count_of r b.seen_signatures
unfolding freeze
freeze-le n r [] b = omega arith
freeze-le n r (call ∷ calls) b = omega (
  arith,
  freeze-le n r calls _,
  forget-le r (lookup call.id b.accepted_signatures) b.seen_signatures,
)

close_batch-le :
    (n : ℕ) (r : List ℕ) (b : Batch)
    → count_of r (close_batch n b).seen_signatures ≤ count_of r b.seen_signatures
unfolding close_batch
close_batch-le n r b =
    elim (Bool-cases (is_empty b.observations || is_empty (b.executable ++ b.approval_required))) [
      | inl closed ↦ elim (Bool-cases (is_empty b.approval_required)) [
        | inl none_waits ↦ rw (closed, none_waits) (omega arith)
        | inr waiting ↦ rw (closed, waiting) (omega arith)
      ]
      | inr refused ↦ rw refused (freeze-le n r (b.executable ++ b.approval_required) b)
    ]

-- No check raises the count of a signature beyond the limit: afterwards it is at most the limit, or
-- what it was before.
pub check-bound :
    (input : GuardInput) (calls : List ToolCall) (seen : Counts) (r : List ℕ)
    → count_of r (check input calls seen).seen_signatures
      ≤ max input.max_repeated_tool_calls (count_of r seen)
unfolding check
check-bound input calls seen r = omega (
  arith,
  close_batch-le input.max_chars r (check_calls input calls (start seen)),
  check_calls-bound input r (max input.max_repeated_tool_calls (count_of r seen)) (omega arith)
      calls (start seen) (omega arith),
)
