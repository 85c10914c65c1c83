-- ===== src/React/Guard/Atomic.antt =====
-- A batch of tool calls runs as a whole, waits as a whole, or is refused as a whole.
use sun_pilot.Base.{
  ◌||◌, true, List, [], ◌∷◌, ◌++◌, ◌≡◌, ◌⊎◌, inl, inr, refl, arith, Bool-cases, sym, ℕ, some,
}
use sun_pilot.React.Counts.{Counts}
use sun_pilot.React.Calls.{PlannedToolCall, ToolCall}
use sun_pilot.React.Guard.{
  GuardInput, Batch, is_empty, start, check_calls, freeze, close_batch, check,
}
use mathlib.Core.List.{append-nil, append_assoc, map-append, Perm, perm_append_comm, map}
use mathlib.Core.List.Perm
use sun_pilot.React.Guard.Answers.{ids, answers, check_calls-perm}

is_empty-nil {ℓ} : {A : Type ℓ} (xs : List A) → is_empty xs ≡ true → xs ≡ []
is_empty-nil [] e = refl
is_empty-nil (x ∷ xs) e = ground arith

is_empty-append {ℓ} :
    {A : Type ℓ} (xs ys : List A) → is_empty (xs ++ ys) ≡ true → (xs ≡ []) × (is_empty ys ≡ true)
is_empty-append [] ys e = (refl, e)
is_empty-append (x ∷ xs) ys e = ground arith

freeze-ids :
    (max_chars : ℕ) (calls : List PlannedToolCall) (b : Batch)
    → map (λ o. o.tool_call_id) (freeze max_chars calls b).observations
      ≡ map (λ o. o.tool_call_id) b.observations ++ ids calls
unfolding freeze
freeze-ids n [] b = sym (append-nil _)
freeze-ids n (p ∷ ps) b = rw (freeze-ids n ps _, map-append, append_assoc) refl

close_batch-perm : (n : ℕ) (b : Batch) → Perm (answers (close_batch n b)) (answers b)
unfolding close_batch
close_batch-perm n b =
    elim (Bool-cases (is_empty b.observations || is_empty (b.executable ++ b.approval_required))) [
      | inl closed ↦ elim (Bool-cases (is_empty b.approval_required)) [
        | inl none_waits ↦ rw (closed, none_waits) (Perm.refl (answers b))
        | inr waiting ↦ rw (closed, waiting, map-append) (Perm.refl (answers b))
      ]
      | inr refused ↦
          rw (refused, freeze-ids n (b.executable ++ b.approval_required) b, map-append)
            (perm_append_comm (map (λ o. o.tool_call_id) b.observations)
              (ids b.executable ++ ids b.approval_required))
    ]

-- What `close_batch` leaves runs as a whole, waits as a whole or is refused.
abbrev IsAtomic : Batch → Type 0
IsAtomic b =
    ((b.observations ≡ []) ⊎ (b.executable ≡ []) × (b.approval_required ≡ []))
    × ((b.executable ≡ []) ⊎ (b.approval_required ≡ []))

close_batch-IsAtomic : (n : ℕ) (b : Batch) → IsAtomic (close_batch n b)
unfolding close_batch
close_batch-IsAtomic n b = elim (Bool-cases (is_empty b.observations)) [
  | inl accepted ↦ elim (Bool-cases (is_empty b.approval_required)) [
    | inl none_waits ↦
        rw (accepted, none_waits) (inl (is_empty-nil _ accepted), inr (is_empty-nil _ none_waits))
    | inr waiting ↦ rw (accepted, waiting) (inl (is_empty-nil _ accepted), inl refl)
  ]
  | inr rejected ↦ elim (Bool-cases (is_empty (b.executable ++ b.approval_required))) [
    | inl idle ↦
        let (e, a) = is_empty-append b.executable b.approval_required idle in
        rw (rejected, idle, a) (inr (e, is_empty-nil _ a), inl e)
    | inr refused ↦ rw (rejected, refused) (inr (refl, refl), inl refl)
  ]
]

module _ (input : GuardInput) (calls : List ToolCall) (seen : Counts) where
  -- Every call of the turn is answered exactly once, under its id: by a call to execute, by a call
  -- that waits for approval, or by an observation.
  pub check-perm :
      let b = check input calls seen in
      Perm
        (map (λ p. some p.id) b.executable
          ++ map (λ p. some p.id) b.approval_required
          ++ map (λ o. o.tool_call_id) b.observations)
        (map (λ c. some c.id) calls)
  unfolding check
  check-perm =
      Perm.trans (close_batch-perm input.max_chars (check_calls input calls (start seen))) (
        rw (sym (append-nil (map (λ c. some c.id) calls)))
          (check_calls-perm input calls (start seen)))

  -- A batch with an observation executes nothing and waits for nothing, and a batch that waits for
  -- an approval executes nothing.
  pub check_atomic :
      let b = check input calls seen in
      ((b.observations ≡ []) ⊎ (b.executable ≡ []) × (b.approval_required ≡ []))
      × ((b.executable ≡ []) ⊎ (b.approval_required ≡ []))
  unfolding check
  check_atomic = close_batch-IsAtomic input.max_chars (check_calls input calls (start seen))
