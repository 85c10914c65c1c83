-- ===== src/Run/Manager/Trace.antt =====
-- What holds of a run over every sequence of calls.
use sun_pilot.Base.{
  ℕ, String, true, false, Option, none, some, List, [], ◌∷◌, All, ◌≡◌, inl, inr, refl, arith, ◌===◌,
  lookup, lookup-insert, eq_iff, Bool-cases, Option-cases,
}
use sun_pilot.Run.Status.{AgentLoopStatus, running, can_transition, is_terminal, includes}
use sun_pilot.Run.State.{RunState}
use sun_pilot.Run.Manager.{Manager}
use sun_pilot.Run.Manager.Step.{
  Call, creates, marks, acquires, saves, target, step, IsSanctioned, IsUpdate, Spares, CanRun,
  includes-CanRun,
}
use sun_pilot.Run.Manager.Frame.{step_frame}

unfoldable pub play : List (ℕ × Call) → Manager → Manager
unfolding step
play [] m = m
play ((now, c) ∷ cs) m = play cs (step now c m)

-- The calls are sanctioned, and none creates the run `r` anew.
abbrev pub AreFor : String → List (ℕ × Call) → Type 0
AreFor r = All (λ c. IsSanctioned c.1 × Spares r c.1)

-- The record is that of `s` but for its task state.
abbrev pub IsSettled : RunState → Option RunState → Type 0
IsSettled s none = ⊥
IsSettled s (some t) = t ≡ record s { task_state = t.task_state }

running_is_not_legal :
    (s : AgentLoopStatus) → is_terminal s ≡ true → can_transition s running ≡ false
unfolding is_terminal can_transition
running_is_not_legal s t = ground arith

pub terminal_cannot_run :
    (s : AgentLoopStatus) (expected : List AgentLoopStatus)
    → is_terminal s ≡ true
    → CanRun expected
    → includes expected s ≡ false
terminal_cannot_run s expected t h = elim (Bool-cases (includes expected s)) [
  | inl i ↦ cc (running_is_not_legal s t, includes-CanRun expected s h i)
  | inr e ↦ e
]

own_step-IsSettled :
    (now : ℕ) (c : Call) (m : Manager) (s : RunState)
    → IsUpdate c
    → IsSanctioned c
    → is_terminal s.status ≡ true
    → lookup (target c) m.runs ≡ some s
    → IsSettled s (lookup (target c) (step now c m).runs)
unfolding step
own_step-IsSettled now (creates input) m s u h t e = absurd u
own_step-IsSettled now (acquires k expected) m s u h t e =
    ground (arith, terminal_cannot_run s.status expected t h)
own_step-IsSettled now (saves k task) m s u h t e =
    ground (arith, lookup-insert k k (record s { task_state = some task }) m.runs, eq_iff k k)
own_step-IsSettled now (marks k n reason) m s u h t e = ground arith
own_step-IsSettled now c m s u h t e = ground arith

step-IsSettled :
    (now : ℕ) (c : Call) (m : Manager) (r : String) (s : RunState)
    → IsSanctioned c
    → Spares r c
    → is_terminal s.status ≡ true
    → lookup r m.runs ≡ some s
    → IsSettled s (lookup r (step now c m).runs)
step-IsSettled now c m r s h a t e = elim (Bool-cases (target c === r)) [
  | inl hit ↦ own c h a ((eq_iff (target c) r).0 hit)
  | inr miss ↦ rw (step_frame now c m r miss, e) refl
]
  where
    own :
        (c : Call)
        → IsSanctioned c
        → Spares r c
        → target c ≡ r
        → IsSettled s (lookup r (step now c m).runs)
    own (creates input) h a p = cc (a, (eq_iff input.run_id r).1 p)
    own (marks k n reason) h a p =
        rw (← p) (own_step-IsSettled now (marks k n reason) m s tt h t (rw p e))
    own c h a p = rw (← p) (own_step-IsSettled now c m s tt h t (rw p e))

pub settled_status :
    (s u : RunState) → u ≡ record s { task_state = u.task_state } → u.status ≡ s.status
settled_status s u g = ground arith

IsSettled-after :
    (s u : RunState) (o : Option RunState)
    → u ≡ record s { task_state = u.task_state }
    → IsSettled u o
    → IsSettled s o
IsSettled-after s u none g f = f
IsSettled-after s u (some v) g f = ground arith

-- Once a run is completed, cancelled or failed, no sequence of calls that do not create it again and
-- that acquire from statuses that may run changes its record but for the task state: the status, its
-- times and its error stay.
pub play-IsSettled :
    (cs : List (ℕ × Call)) (m : Manager) (r : String) (s : RunState)
    → AreFor r cs
    → is_terminal s.status ≡ true
    → lookup r m.runs ≡ some s
    → IsSettled s (lookup r (play cs m).runs)
unfolding play
play-IsSettled [] m r s h t e = rw e refl
play-IsSettled ((now, c) ∷ cs) m r s h t e =
    let f = step-IsSettled now c m r s h.0.0 h.0.1 t e in
    elim (Option-cases (lookup r (step now c m).runs)) [
      | inl lost ↦ absurd (rw lost at f)
      | inr (u, e') ↦
          let g : u ≡ record s { task_state = u.task_state } = rw e' at f in
          IsSettled-after s u _ g
            (play-IsSettled cs (step now c m) r u h.1 (rw (settled_status s u g) t) e')
    ]
