-- ===== src/Run/Manager/Outcome.antt =====
-- What `markStatus` returns and when it throws.
use sun_pilot.Base.{
  ℕ, String, true, false, Option, none, some, ◌≡◌, ◌⊎◌, inl, inr, arith, lookup, lookup-insert,
  ===_refl, Option-cases,
}
use sun_pilot.Run.Status.{AgentLoopStatus, can_transition, is_terminal}
use sun_pilot.Run.State.{RunState}
use sun_pilot.Run.Manager.{
  Manager, RunError, run_not_found, state_conflict, ok, err, mark_status, moved,
}
use sun_pilot.Run.Manager.Step.{same_status-eq}

-- A run that `markStatus` returns is the one stored, and it has the status asked for unless it was
-- already completed, cancelled or failed.
pub mark_status_returns :
    (now : ℕ) (r : String) (next : AgentLoopStatus) (reason : Option String) (m n : Manager)
    (t : RunState)
    → mark_status now r next reason m ≡ ok (n, t)
    → (lookup r n.runs ≡ some t) × ((t.status ≡ next) ⊎ (is_terminal t.status ≡ true))
unfolding mark_status moved
mark_status_returns now r next reason m n t e = elim (Option-cases (lookup r m.runs)) [
  | inl missing ↦ ground arith
  | inr (s, there) ↦
      ground (
        arith,
        lookup-insert r r (moved now next s) m.runs,
        ===_refl r,
        same_status-eq s.status next,
      )
]

-- `markStatus` throws only if there is no such run, or if the run is not completed, cancelled or
-- failed and the table does not allow the transition.
pub mark_status_throws :
    (now : ℕ) (r : String) (next : AgentLoopStatus) (reason : Option String) (m : Manager)
    (e : RunError)
    → mark_status now r next reason m ≡ err e
    → ((e ≡ run_not_found) × (lookup r m.runs ≡ none))
      ⊎ ((e ≡ state_conflict)
          × (s : RunState) × (lookup r m.runs ≡ some s)
          × (can_transition s.status next ≡ false)
          × (is_terminal s.status ≡ false))
unfolding mark_status can_transition
mark_status_throws now r next reason m e h = elim (Option-cases (lookup r m.runs)) [
  | inl missing ↦ inl (ground arith, missing)
  | inr (s, there) ↦ inr (ground arith, s, there, ground arith, ground arith)
]
