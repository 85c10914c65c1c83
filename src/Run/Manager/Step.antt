-- ===== src/Run/Manager/Step.antt =====
-- Every method of the manager follows the table of legal transitions, and writes one run only.
use sun_pilot.Base.{
  ℕ, String, true, false, Option, none, some, List, [], ◌∷◌, ◌≡◌, ◌⊎◌, inl, inr, arith, ◌===◌, all,
  lookup, lookup-insert, insert, eq_iff, Option-cases,
}
use sun_pilot.Run.Status.{
  AgentLoopStatus, running, completed, cancelled, same_status, includes, can_transition,
}
use sun_pilot.Run.State.{RunState, AgentLoopInput, TaskState, Thrown, or_else}
use sun_pilot.Run.Manager.{
  Manager, Result, ok, err, create_run, moved, mark_status, mark_failed, mark_completed,
  mark_cancelled, failed_with, taken, acquire_execution, save_task_state,
}

pub data Call : Type 0 where
  creates : AgentLoopInput → Call
  marks : String → AgentLoopStatus → Option String → Call
  fails : String → Thrown → Call
  completes : String → Call
  cancels : String → Option String → Call
  acquires : String → List AgentLoopStatus → Call
  saves : String → TaskState → Call

-- A call that throws leaves the manager as it was.
abbrev pub after {ℓ} : {A : Type ℓ} → Manager → (A → Manager) → Result A → Manager
after m f (ok a) = f a
after m f (err e) = m

unfoldable pub step : ℕ → Call → Manager → Manager
unfolding create_run mark_status mark_failed mark_completed mark_cancelled acquire_execution
    save_task_state
step now (creates input) m = (create_run now input m).0
step now (marks r next reason) m = after m (λ p. p.0) (mark_status now r next reason m)
step now (fails r error) m = after m (λ p. p.0) (mark_failed now r error m)
step now (completes r) m = after m (λ p. p.0) (mark_completed now r m)
step now (cancels r reason) m = after m (λ p. p.0) (mark_cancelled now r reason m)
step now (acquires r expected) m = after m (λ p. p.0) (acquire_execution now r expected m)
step now (saves r task) m = after m (λ n. n) (save_task_state r task m)

-- The statuses that a caller of `acquireExecution` may expect: those from which the table allows
-- `running`.
abbrev pub CanRun : List AgentLoopStatus → Type 0
CanRun expected = all (λ s. can_transition s running) expected ≡ true

abbrev pub IsSanctioned : Call → Type 0
IsSanctioned (acquires r expected) = CanRun expected
IsSanctioned _ = Unit

-- The call does not create the run anew.
abbrev pub Spares : String → Call → Type 0
Spares r (creates input) = (input.run_id === r) ≡ false
Spares r _ = Unit

abbrev pub Follows : RunState → Option RunState → Type 0
Follows s none = ⊥
Follows s (some t) = can_transition s.status t.status ≡ true

pub same_status-eq : (s t : AgentLoopStatus) → same_status s t ≡ true → s ≡ t
same_status-eq s t h = ground arith

pub same_status_refl : (s : AgentLoopStatus) → same_status s s ≡ true
same_status_refl s = ground arith

pub includes-CanRun :
    (expected : List AgentLoopStatus) (s : AgentLoopStatus)
    → CanRun expected
    → includes expected s ≡ true
    → can_transition s running ≡ true
includes-CanRun [] s h i = cc
includes-CanRun (t ∷ expected) s h i =
    ground (arith, same_status-eq t s, includes-CanRun expected s)

-- What a method does to the run `k` that it finds: nothing, or it stores `v`, a legal successor.
abbrev pub Writes : Manager → String → RunState → RunState → Manager → Type 0
Writes m k c v n =
    (n ≡ m) ⊎ (can_transition c.status v.status ≡ true) × (n.runs ≡ insert k v m.runs)

module _ (now : ℕ) (k : String) (m : Manager) (c : RunState) (e : lookup k m.runs ≡ some c) where
  marks-Writes :
      (next : AgentLoopStatus) (reason : Option String)
      → Writes m k c (moved now next c) (step now (marks k next reason) m)
  unfolding step can_transition moved
  marks-Writes next reason = ground arith

  fails-Writes :
      (error : Thrown) → Writes m k c (failed_with now error c) (step now (fails k error) m)
  unfolding step can_transition failed_with
  fails-Writes error = ground arith

  acquires-Writes :
      (expected : List AgentLoopStatus)
      → CanRun expected
      → Writes m k c (taken now c) (step now (acquires k expected) m)
  unfolding step taken
  acquires-Writes expected h = ground (arith, includes-CanRun expected c.status h)

  saves-Writes :
      (task : TaskState)
      → Writes m k c (record c { task_state = some task }) (step now (saves k task) m)
  unfolding step can_transition
  saves-Writes task = ground (arith, same_status_refl c.status)

-- The run that a call is about.
abbrev pub target : Call → String
target (creates input) = input.run_id
target (marks r _ _) = r
target (fails r _) = r
target (completes r) = r
target (cancels r _) = r
target (acquires r _) = r
target (saves r _) = r

abbrev pub IsUpdate : Call → Type 0
IsUpdate (creates _) = ⊥
IsUpdate _ = Unit

-- A call about a run that is not there throws.
pub step_missing :
    (now : ℕ) (c : Call) (m : Manager)
    → IsUpdate c
    → lookup (target c) m.runs ≡ none
    → step now c m ≡ m
unfolding step
step_missing now (creates input) m u e = absurd u
step_missing now _ m u e = ground arith

-- The calls that update a run store a legal successor of its record, or nothing.
pub step-Writes :
    (now : ℕ) (c : Call) (m : Manager) (s : RunState)
    → IsUpdate c
    → IsSanctioned c
    → lookup (target c) m.runs ≡ some s
    → (v : RunState) × Writes m (target c) s v (step now c m)
unfolding step
step-Writes now (creates input) m s u h e = absurd u
step-Writes now (marks r next reason) m s u h e =
    (moved now next s, marks-Writes now r m s e next reason)
step-Writes now (fails r error) m s u h e =
    (failed_with now error s, fails-Writes now r m s e error)
step-Writes now (completes r) m s u h e =
    (moved now completed s, marks-Writes now r m s e completed (some "run completed"))
step-Writes now (cancels r reason) m s u h e = (
  moved now cancelled s,
  marks-Writes now r m s e cancelled (some (or_else reason "user cancelled")),
)
step-Writes now (acquires r expected) m s u h e =
    (taken now s, acquires-Writes now r m s e expected h)
step-Writes now (saves r task) m s u h e =
    (record s { task_state = some task }, saves-Writes now r m s e task)

Writes-Follows :
    (m n : Manager) (k r : String) (c v s : RunState)
    → lookup k m.runs ≡ some c
    → Writes m k c v n
    → lookup r m.runs ≡ some s
    → Follows s (lookup r n.runs)
unfolding can_transition
Writes-Follows m n k r c v s e w h =
    ground (arith, eq_iff k r, lookup-insert k r v m.runs, same_status_refl s.status)

update-Follows :
    (now : ℕ) (c : Call) (m : Manager) (r : String) (s : RunState)
    → IsUpdate c
    → IsSanctioned c
    → lookup r m.runs ≡ some s
    → Follows s (lookup r (step now c m).runs)
unfolding can_transition
update-Follows now c m r s u h l = elim (Option-cases (lookup (target c) m.runs)) [
  | inl e ↦ rw (step_missing now c m u e, l) (ground (arith, same_status_refl s.status))
  | inr (t, e) ↦
      let (v, w) = step-Writes now c m t u h e in
      Writes-Follows m (step now c m) (target c) r t v s e w l
]

-- Every call that does not create the run again leaves it in place, in a status that the table of
-- legal transitions reaches from its old one in at most one step; the calls of `acquireExecution`
-- are those that expect statuses from which the table allows `running`.
pub step-Follows :
    (now : ℕ) (c : Call) (m : Manager) (r : String) (s : RunState)
    → IsSanctioned c
    → Spares r c
    → lookup r m.runs ≡ some s
    → Follows s (lookup r (step now c m).runs)
unfolding step can_transition
step-Follows now (creates input) m r s h a l = ground (
  arith,
  λ (v : RunState). lookup-insert input.run_id r v m.runs,
  lookup-insert input.run_id r (create_run now input m).1 m.runs,
  same_status_refl s.status,
)
step-Follows now (marks k n reason) m r s h a l = update-Follows now (marks k n reason) m r s tt h l
step-Follows now c m r s h a l = update-Follows now c m r s tt h l
