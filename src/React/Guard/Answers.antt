-- ===== src/React/Guard/Answers.antt =====
-- A round of the guard's loop answers one call.
use sun_pilot.Base.{
  ℕ, true, false, Option, none, some, List, [], ◌∷◌, ◌++◌, ◌≡◌, ◌⊎◌, inl, inr, refl, ◌===◌, String,
  any, leb, Bool-cases, sym, Dict,
}
use sun_pilot.Json.{Fields}
use sun_pilot.Safety.Policy.{evaluate}
use sun_pilot.Safety.Types.{PermissionDecision}
use sun_pilot.React.Counts.{Counts, count_of}
use sun_pilot.React.Calls.{PlannedToolCall, ReactObservation, SkillSummary, ToolCall}
use sun_pilot.React.Guard.{
  GuardInput, Batch, observe, decide, count_and_decide, check_arguments, check_skill, check_call,
  check_calls, planned_call, signature_of, is_blank, validate_tool_arguments, unacceptable,
}
use mathlib.Core.List.{append_assoc, map-append, Perm, perm_middle, perm_append_comm, map}
use mathlib.Core.List.Perm

-- One more call is answered: it is to be executed without approval, waits for one, or is observed.
pub data Answers (call : ToolCall) (b n : Batch) : Type 0 where
  executes :
      (p : PlannedToolCall)
      → p.id ≡ call.id
      → p.requires_approval ≡ false
      → n.executable ≡ b.executable ++ p ∷ []
      → n.approval_required ≡ b.approval_required
      → n.observations ≡ b.observations
      → Answers call b n
  waits :
      (p : PlannedToolCall)
      → p.id ≡ call.id
      → p.requires_approval ≡ true
      → n.executable ≡ b.executable
      → n.approval_required ≡ b.approval_required ++ p ∷ []
      → n.observations ≡ b.observations
      → Answers call b n
  observed :
      (o : ReactObservation)
      → o.tool_call_id ≡ some call.id
      → n.executable ≡ b.executable
      → n.approval_required ≡ b.approval_required
      → n.observations ≡ b.observations ++ o ∷ []
      → Answers call b n

decide-Answers :
    (input : GuardInput) (call : ToolCall) (skill : SkillSummary) (args : Fields) (b : Batch)
    → Answers call b (decide input call skill args b)
unfolding decide planned_call
decide-Answers input call skill args b = elim (Bool-cases permission.allowed) [
  | inl free ↦ elim (Bool-cases permission.requires_approval) [
    | inl ask ↦ rw (free, ask) (waits _ refl refl refl refl refl)
    | inr run ↦ rw (free, run) (executes _ refl refl refl refl refl)
  ]
  | inr refused ↦ rw refused (observed _ refl refl refl refl)
]
  where
    permission : PermissionDecision
    permission = evaluate (record {
      skill_id = skill.id;
      permissions = skill.permissions;
      arguments = args;
      permission_mode = some input.permission_mode;
      risk_hints = some skill.risk_hints;
    })

-- What is answered does not depend on what is counted and seen.
recounted :
    (call : ToolCall) (b n : Batch) (signatures : Dict (List ℕ)) (ids : List String)
    (counts : Counts)
    → Answers call
        (record b {
          accepted_signatures = signatures;
          seen_call_ids = ids;
          seen_signatures = counts;
        })
        n
    → Answers call b n
recounted call b n signatures ids counts (executes p i r x y z) = executes p i r x y z
recounted call b n signatures ids counts (waits p i r x y z) = waits p i r x y z
recounted call b n signatures ids counts (observed o i x y z) = observed o i x y z

count_and_decide-Answers :
    (input : GuardInput) (call : ToolCall) (skill : SkillSummary) (args : Fields) (b : Batch)
    → Answers call b (count_and_decide input call skill args b)
unfolding count_and_decide
count_and_decide-Answers input call skill args b =
    elim (Bool-cases (
      leb input.max_repeated_tool_calls
        (count_of (signature_of input skill.id args) b.seen_signatures))) [
          | inl again ↦ rw again (observed _ refl refl refl refl)
          | inr fresh ↦ rw fresh (recounted call b _ _ _ _ (decide-Answers input call skill args _))
        ]

check_arguments-Answers :
    (input : GuardInput) (call : ToolCall) (skill : SkillSummary) (args : String ⊎ Fields)
    (b : Batch)
    → Answers call b (check_arguments input call skill args b)
unfolding check_arguments
check_arguments-Answers input call skill (inl message) b = observed _ refl refl refl refl
check_arguments-Answers input call skill (inr args) b =
    elim (validate_tool_arguments input.platform args skill.input_schema)
      as (λ es. Answers call b (elim es [
        | [] ↦ count_and_decide input call skill args b
        | e ∷ es ↦ observe (unacceptable input call skill args (e ∷ es)) b
      ])) [
        | [] ↦ count_and_decide-Answers input call skill args b
        | e ∷ es ↦ observed _ refl refl refl refl
      ]

check_skill-Answers :
    (input : GuardInput) (call : ToolCall) (skill : Option SkillSummary) (b : Batch)
    → Answers call b (check_skill input call skill b)
unfolding check_skill
check_skill-Answers input call none b = observed _ refl refl refl refl
check_skill-Answers input call (some skill) b = check_arguments-Answers input call skill _ b

check_call-Answers :
    (input : GuardInput) (call : ToolCall) (b : Batch) → Answers call b (check_call input call b)
unfolding check_call
check_call-Answers input call b = elim (Bool-cases (is_blank call.id)) [
  | inl blank ↦ rw blank (observed _ refl refl refl refl)
  | inr named ↦ elim (Bool-cases (any (λ id. id === call.id) b.seen_call_ids)) [
    | inl again ↦ rw (named, again) (observed _ refl refl refl refl)
    | inr fresh ↦ rw (named, fresh) (recounted call b _ _ _ _ (check_skill-Answers input call _ _))
  ]
]

abbrev pub ids : List PlannedToolCall → List (Option String)
ids ps = map (λ p. some p.id) ps

-- The ids of the calls that a batch has answered, by a plan or by an observation.
abbrev pub answers : Batch → List (Option String)
answers b =
    (ids b.executable ++ ids b.approval_required) ++ map (λ o. o.tool_call_id) b.observations

Answers-perm :
    (call : ToolCall) (b n : Batch) → Answers call b n → Perm (answers n) (some call.id ∷ answers b)
Answers-perm call b n (executes p i r x y z) =
    rw
      (
        x,
        y,
        z,
        map-append,
        i,
        append_assoc (ids b.executable) (some call.id ∷ []) (ids b.approval_required),
      )
      (Perm.append_right _ (perm_middle (ids b.executable) (ids b.approval_required)))
Answers-perm call b n (waits p i r x y z) =
    rw (x, y, z, map-append, i)
      (rw (sym (append_assoc (ids b.executable) (ids b.approval_required) (some call.id ∷ [])))
        (rw append_assoc (perm_middle (ids b.executable ++ ids b.approval_required) _)))
Answers-perm call b n (observed o i x y z) =
    rw (x, y, z, map-append, i)
      (rw
        (sym (
          append_assoc (ids b.executable ++ ids b.approval_required)
            (map (λ o. o.tool_call_id) b.observations) (some call.id ∷ [])))
        (perm_append_comm (answers b) (some call.id ∷ [])))

pub check_calls-perm :
    (input : GuardInput) (calls : List ToolCall) (b : Batch)
    → Perm (answers (check_calls input calls b)) (map (λ c. some c.id) calls ++ answers b)
unfolding check_calls
check_calls-perm input [] b = Perm.refl _
check_calls-perm input (call ∷ calls) b =
    Perm.trans (check_calls-perm input calls (check_call input call b)) (
      Perm.trans (Perm.append_left _ (Answers-perm call b _ (check_call-Answers input call b)))
        (perm_middle (map (λ c. some c.id) calls) (answers b)))
