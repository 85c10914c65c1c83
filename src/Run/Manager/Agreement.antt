-- ===== src/Run/Manager/Agreement.antt =====
-- Every call keeps the history in agreement with the runs.
use sun_pilot.Base.{
  ℕ, String, Option, none, some, List, [], ◌∷◌, ◌≡◌, ◌⊎◌, inl, inr, refl, arith, lookup, insert,
  lookup-insert, eq_iff, Option-cases, length, ◌≤◌,
}
use sun_pilot.Run.Status.{AgentLoopStatus, completed, cancelled}
use sun_pilot.Run.State.{RunState, TaskState, Thrown, or_else}
use sun_pilot.Run.Manager.{
  Manager, new, record_history, create_run, moved, failed_with, taken, max_history,
}
use sun_pilot.Run.Manager.Step.{
  Call, creates, marks, fails, completes, cancels, acquires, saves, step, step_missing, IsUpdate,
  target,
}
use sun_pilot.Run.Manager.Trace.{play}
use sun_pilot.Run.Manager.History.{Agrees, Tells, last_status, stored-Agrees}

-- A call does nothing, or stores `v` with an entry of its status.
Records-Agrees :
    (now : ℕ) (k : String) (previous : Option AgentLoopStatus) (v : RunState) (reason : String)
    (m n : Manager)
    → Agrees m
    → (n ≡ m)
      ⊎ (n.runs ≡ insert k v m.runs)
        × (n.history ≡ record_history now k previous v.status reason m.history)
    → Agrees n
Records-Agrees now k previous v reason m n a (inl same) = rw same a
Records-Agrees now k previous v reason m n a (inr (e, h)) =
    stored-Agrees now k previous v reason m n a e h

Tells-saved :
    (r k : String) (o : Option AgentLoopStatus) (s : RunState) (task : TaskState) (m : Manager)
    → lookup k m.runs ≡ some s
    → Tells o (lookup r m.runs)
    → Tells o (lookup r (insert k (record s { task_state = some task }) m.runs))
Tells-saved r k o s task m e h =
    ground (arith, lookup-insert k r (record s { task_state = some task }) m.runs, eq_iff k r)

module _ (now : ℕ) (k : String) (m : Manager) (s : RunState) (e : lookup k m.runs ≡ some s) where
  marks-Agrees :
      (next : AgentLoopStatus) (reason : Option String)
      → Agrees m
      → Agrees (step now (marks k next reason) m)
  unfolding step moved
  marks-Agrees next reason a =
      Records-Agrees now k (some s.status) (moved now next s) (or_else reason "state transition") m
        _ a (ground arith)

  fails-Agrees : (error : Thrown) → Agrees m → Agrees (step now (fails k error) m)
  unfolding step failed_with
  fails-Agrees error a =
      Records-Agrees now k (some s.status) (failed_with now error s) error.message m _ a
        (ground arith)

  acquires-Agrees :
      (expected : List AgentLoopStatus) → Agrees m → Agrees (step now (acquires k expected) m)
  unfolding step taken
  acquires-Agrees expected a =
      Records-Agrees now k (some s.status) (taken now s) "acquireExecution" m _ a (ground arith)

  saves-Agrees : (task : TaskState) → Agrees m → Agrees (step now (saves k task) m)
  unfolding step
  saves-Agrees task a =
      rw (e, step)
        (record {
          bounded = a.bounded;
          current = λ r. Tells-saved r k (last_status r m.history) s task m e (a.current r);
        })

update-Agrees :
    (now : ℕ) (c : Call) (m : Manager) (s : RunState)
    → IsUpdate c
    → lookup (target c) m.runs ≡ some s
    → Agrees m
    → Agrees (step now c m)
unfolding step
update-Agrees now (creates input) m s u e a = absurd u
update-Agrees now (marks k next reason) m s u e a = marks-Agrees now k m s e next reason a
update-Agrees now (fails k error) m s u e a = fails-Agrees now k m s e error a
update-Agrees now (completes k) m s u e a =
    marks-Agrees now k m s e completed (some "run completed") a
update-Agrees now (cancels k reason) m s u e a =
    marks-Agrees now k m s e cancelled (some (or_else reason "user cancelled")) a
update-Agrees now (acquires k expected) m s u e a = acquires-Agrees now k m s e expected a
update-Agrees now (saves k task) m s u e a = saves-Agrees now k m s e task a

update_or_missing-Agrees :
    (now : ℕ) (c : Call) (m : Manager) → IsUpdate c → Agrees m → Agrees (step now c m)
update_or_missing-Agrees now c m u a = elim (Option-cases (lookup (target c) m.runs)) [
  | inl e ↦ rw (step_missing now c m u e) a
  | inr (s, e) ↦ update-Agrees now c m s u e a
]

step-Agrees : (now : ℕ) (c : Call) (m : Manager) → Agrees m → Agrees (step now c m)
unfolding step create_run
step-Agrees now (creates input) m a =
    stored-Agrees now input.run_id none (create_run now input m).1 "run created" m _ a refl refl
step-Agrees now (marks k n reason) m a = update_or_missing-Agrees now (marks k n reason) m tt a
step-Agrees now c m a = update_or_missing-Agrees now c m tt a

pub play-Agrees : (cs : List (ℕ × Call)) (m : Manager) → Agrees m → Agrees (play cs m)
unfolding play
play-Agrees [] m a = a
play-Agrees ((now, c) ∷ cs) m a = play-Agrees cs (step now c m) (step-Agrees now c m a)

pub new-Agrees : Agrees new
new-Agrees = record { bounded = omega arith; current = λ r. tt }

-- After any calls whatever on a new manager, the history has at most 1000 entries, and the last
-- entry of a run, if there is one, ends in the status that the run is stored with.
pub history_agrees :
    (cs : List (ℕ × Call)) (r : String)
    → let m = play cs new in
      (length m.history ≤ max_history) × Tells (last_status r m.history) (lookup r m.runs)
history_agrees cs r = let a = play-Agrees cs new new-Agrees in (a.bounded, a.current r)
