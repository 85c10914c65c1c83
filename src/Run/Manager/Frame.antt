-- ===== src/Run/Manager/Frame.antt =====
-- A call of the manager changes one run only.
use sun_pilot.Base.{
  ℕ, String, false, some, ◌≡◌, ◌⊎◌, inl, inr, arith, ◌===◌, lookup, insert, lookup-insert,
  Option-cases,
}
use sun_pilot.Run.State.{RunState}
use sun_pilot.Run.Manager.{Manager, create_run, taken}
use sun_pilot.Run.Manager.Step.{
  Call, creates, acquires, marks, target, IsUpdate, step, step_missing, step-Writes,
}

Stores-frame :
    (m n : Manager) (k r : String) (v : RunState)
    → (k === r) ≡ false
    → (n ≡ m) ⊎ (n.runs ≡ insert k v m.runs)
    → lookup r n.runs ≡ lookup r m.runs
Stores-frame m n k r v a w = ground (arith, lookup-insert k r v m.runs)

-- `step-Writes` for a call that may expect any statuses.
step-Stores :
    (now : ℕ) (c : Call) (m : Manager) (s : RunState)
    → IsUpdate c
    → lookup (target c) m.runs ≡ some s
    → (v : RunState) × ((step now c m ≡ m) ⊎ ((step now c m).runs ≡ insert (target c) v m.runs))
unfolding step
step-Stores now (creates input) m s u e = absurd u
step-Stores now (acquires k expected) m s u e = (taken now s, ground arith)
step-Stores now (marks k n reason) m s u e =
    let (v, w) = step-Writes now (marks k n reason) m s u tt e in (v, ground arith)
step-Stores now c m s u e = let (v, w) = step-Writes now c m s u tt e in (v, ground arith)

update_frame :
    (now : ℕ) (c : Call) (m : Manager) (r : String)
    → IsUpdate c
    → (target c === r) ≡ false
    → lookup r (step now c m).runs ≡ lookup r m.runs
update_frame now c m r u a = elim (Option-cases (lookup (target c) m.runs)) [
  | inl e ↦ rw (step_missing now c m u e)
  | inr (t, e) ↦
      let (v, w) = step-Stores now c m t u e in Stores-frame m (step now c m) (target c) r v a w
]

-- A call of the manager changes no run but the one that it is about.
pub step_frame :
    (now : ℕ) (c : Call) (m : Manager) (r : String)
    → (target c === r) ≡ false
    → lookup r (step now c m).runs ≡ lookup r m.runs
unfolding step
step_frame now (creates input) m r a =
    ground (arith, lookup-insert input.run_id r (create_run now input m).1 m.runs)
step_frame now (marks k n reason) m r a = update_frame now (marks k n reason) m r tt a
step_frame now c m r a = update_frame now c m r tt a
