-- ===== src/Run/Manager/Lease.antt =====
-- `acquireExecution` as a lease.
use sun_pilot.Base.{
  none, ℕ, String, true, false, Option, some, List, ◌≡◌, refl, arith, lookup, lookup-insert,
  ===_refl, Option-cases, Bool-cases, inl, inr, insert, ◌⊎◌,
}
use sun_pilot.Run.Status.{AgentLoopStatus, running, cancelled, is_terminal, includes}
use sun_pilot.Run.State.{RunState}
use sun_pilot.Run.Manager.{
  record_history, Manager, ok, taken, moved, mark_cancelled, acquire_execution,
}
use sun_pilot.Run.Manager.Step.{Call, CanRun, same_status-eq}
use sun_pilot.Run.Manager.Trace.{
  settled_status, IsSettled, play-IsSettled, play, AreFor, terminal_cannot_run,
}

acquired_is_running :
    (now : ℕ) (r : String) (expected : List AgentLoopStatus) (m n : Manager) (t : RunState)
    → acquire_execution now r expected m ≡ ok (n, true, t)
    → (lookup r n.runs ≡ some t) × (t.status ≡ running)
unfolding acquire_execution
acquired_is_running now r expected m n t e = elim (Option-cases (lookup r m.runs)) [
  | inl missing ↦ ground arith
  | inr (s, there) ↦ ground (arith, lookup-insert r r (taken now s) m.runs, ===_refl r)
]

-- Execution of a run that is there is acquired exactly when its status is an expected one; the run
-- is then stored as running, and otherwise the manager is unchanged.
pub acquire_execution_lem :
    (now : ℕ) (r : String) (expected : List AgentLoopStatus) (m : Manager) (s : RunState)
    → lookup r m.runs ≡ some s
    → (n : Manager) × (t : RunState) × (acquire_execution now r expected m
        ≡ ok (n, includes expected s.status, t))
      × (lookup r n.runs ≡ some t)
      × ((includes expected s.status ≡ true) × (t.status ≡ running)
          ⊎ (includes expected s.status ≡ false) × (n ≡ m))
unfolding acquire_execution
acquire_execution_lem now r expected m s e = elim (Bool-cases (includes expected s.status)) [
  | inl hit ↦ (
    record {
      runs = insert r (taken now s) m.runs;
      history = record_history now r (some s.status) running "acquireExecution" m.history;
    },
    taken now s,
    ground arith,
    ground (arith, lookup-insert r r (taken now s) m.runs, ===_refl r),
    inl (hit, refl),
  )
  | inr miss ↦ (m, s, ground arith, e, inr (miss, refl))
]

-- Of two calls that acquire one run with no call between, only the first succeeds, if the second
-- does not expect `running`.
pub acquire_once :
    (now later : ℕ) (r : String) (expected others : List AgentLoopStatus) (m n : Manager)
    (t : RunState)
    → includes others running ≡ false
    → acquire_execution now r expected m ≡ ok (n, true, t)
    → acquire_execution later r others n ≡ ok (n, false, t)
unfolding acquire_execution
acquire_once now later r expected others m n t h e =
    let (l, q) = acquired_is_running now r expected m n t e in ground arith

cancelled_is_terminal :
    (now : ℕ) (r : String) (reason : Option String) (m n : Manager) (t : RunState)
    → mark_cancelled now r reason m ≡ ok (n, t)
    → (lookup r n.runs ≡ some t) × (is_terminal t.status ≡ true)
unfolding mark_cancelled moved is_terminal
cancelled_is_terminal now r reason m n t e = elim (Option-cases (lookup r m.runs)) [
  | inl missing ↦ ground arith
  | inr (s, there) ↦ ground (
    arith,
    lookup-insert r r (moved now cancelled s) m.runs,
    ===_refl r,
    same_status-eq s.status cancelled,
  )
]

settled_is_terminal :
    (s : RunState) (o : Option RunState)
    → is_terminal s.status ≡ true
    → IsSettled s o
    → (u : RunState) × (o ≡ some u) × (is_terminal u.status ≡ true)
settled_is_terminal s none q h = absurd h
settled_is_terminal s (some u) q h = (u, refl, rw (settled_status s u h) q)

-- Once `markCancelled` returned, and after any calls that do not create the run again and that
-- acquire from statuses that may run, `acquireExecution` does not acquire the run if all statuses
-- that it expects may run, and changes nothing.
pub cancelled_not_acquired :
    (now later : ℕ) (r : String) (reason : Option String) (expected : List AgentLoopStatus)
    (m n : Manager) (t : RunState) (cs : List (ℕ × Call))
    → CanRun expected
    → AreFor r cs
    → mark_cancelled now r reason m ≡ ok (n, t)
    → (u : RunState) × (acquire_execution later r expected (play cs n) ≡ ok (play cs n, false, u))
unfolding acquire_execution
cancelled_not_acquired now later r reason expected m n t cs h a e =
    let (l, q) = cancelled_is_terminal now r reason m n t e in
    let (u, there, k) = settled_is_terminal t _ q (play-IsSettled cs n r t a q l) in
    (u, ground (arith, terminal_cannot_run u.status expected k h))
