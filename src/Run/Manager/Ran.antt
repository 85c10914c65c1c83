-- ===== src/Run/Manager/Ran.antt =====
-- No run pauses, completes or is interrupted before it has been running.
use sun_pilot.Base.{
  ℕ, String, true, Option, none, some, List, [], ◌∷◌, ◌≡◌, ◌⊎◌, inl, inr, refl, sym, ap, ◌∙◌, arith,
  lookup, Option-cases,
}
use sun_pilot.Run.Status.{
  AgentLoopStatus, created, running, waiting_approval, waiting_user, completed, cancelled, failed,
  interrupted, can_transition, is_terminal,
}
use sun_pilot.Run.State.{RunState}
use sun_pilot.Run.Manager.{Manager}
use sun_pilot.Run.Manager.Step.{Call, step, step-Follows}
use sun_pilot.Run.Manager.Trace.{play, AreFor, play-IsSettled, settled_status}

-- A status that only a run that ran can have.
abbrev pub HasRun : AgentLoopStatus → Type 0
HasRun waiting_approval = Unit
HasRun waiting_user = Unit
HasRun completed = Unit
HasRun interrupted = Unit
HasRun _ = ⊥

abbrev IsRunning : Option RunState → Type 0
IsRunning none = ⊥
IsRunning (some t) = t.status ≡ running

-- The run is stored as running after one of the calls.
unfoldable pub Runs : String → List (ℕ × Call) → Manager → Type 0
unfolding step
Runs r [] m = ⊥
Runs r ((now, c) ∷ cs) m = IsRunning (lookup r (step now c m).runs) ⊎ Runs r cs (step now c m)

after_created :
    (t : AgentLoopStatus)
    → can_transition created t ≡ true
    → (t ≡ created) ⊎ (t ≡ running) ⊎ (is_terminal t ≡ true) × (HasRun t → ⊥)
unfolding can_transition is_terminal
after_created created h = inl refl
after_created running h = inr (inl refl)
after_created cancelled h = inr (inr (refl, λ x. x))
after_created failed h = inr (inr (refl, λ x. x))
after_created waiting_approval h = cc
after_created waiting_user h = cc
after_created completed h = cc
after_created interrupted h = cc

settled_not-HasRun :
    (cs : List (ℕ × Call)) (m : Manager) (r : String) (s t : RunState)
    → AreFor r cs
    → is_terminal s.status ≡ true
    → (HasRun s.status → ⊥)
    → lookup r m.runs ≡ some s
    → lookup r (play cs m).runs ≡ some t
    → HasRun t.status
    → ⊥
settled_not-HasRun cs m r s t h q idle e final had =
    let kept : t ≡ record s { task_state = t.task_state } =
      rw final at (play-IsSettled cs m r s h q e) in
    idle (rw (settled_status s t kept) at had)

-- A run that was just created and that waits, is completed or is interrupted after some calls was
-- stored as running after one of them, if none creates it anew and each acquires only from statuses
-- that may run.
pub ran_before :
    (cs : List (ℕ × Call)) (m : Manager) (r : String) (s t : RunState)
    → AreFor r cs
    → lookup r m.runs ≡ some s
    → s.status ≡ created
    → lookup r (play cs m).runs ≡ some t
    → HasRun t.status
    → Runs r cs m
unfolding play Runs
ran_before [] m r s t h e new final had =
    let same : s ≡ t = ground (arith, e, final) in rw (ap (λ x. x.status) (sym same) ∙ new) at had
ran_before ((now, c) ∷ cs) m r s t h e new final had =
    let f = step-Follows now c m r s h.0.0 h.0.1 e in
    elim (Option-cases (lookup r (step now c m).runs)) [
      | inl lost ↦ absurd (rw lost at f)
      | inr (u, e') ↦
          elim (after_created u.status
            (ap (λ x. can_transition x u.status) (sym new) ∙ (rw e' at f))) [
              | inl still ↦ inr (ran_before cs (step now c m) r u t h.1 e' still final had)
              | inr (inl runs) ↦ inl (rw e' runs)
              | inr (inr (over, idle)) ↦
                  absurd (settled_not-HasRun cs (step now c m) r u t h.1 over idle e' final had)
            ]
    ]
