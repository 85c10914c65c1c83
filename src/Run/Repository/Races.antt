-- ===== src/Run/Repository/Races.antt =====
-- Transactions of callers that run at once: a method reads the run, and its transaction runs later, on
-- tables that others may have changed meanwhile.
use sun_pilot.Base.{
  ℕ, String, true, false, Option, some, List, ◌≡◌, inl, inr, refl, sym, ap, ◌∙◌, arith, lookup,
  Option-cases, Bool-cases, ===_refl,
}
use sun_pilot.Run.Status.{
  AgentLoopStatus, running, can_transition, same_status, includes, legal_transitions, is_terminal,
}
use sun_pilot.Run.Manager.{ok}
use sun_pilot.Run.Manager.Step.{same_status-eq}
use sun_pilot.Run.Store.{
  RunRecord, Database, update_status_if_current, update_status_if_in_set, patched, set_status,
}
use sun_pilot.Run.Repository.{
  Change, plan_status, write_change, write_acquisition, acquisition, status_change,
}
use sun_pilot.Run.Repository.Writes.{changed, write_change-IsChanged, write_acquisition-IsChanged}

-- A change is written only over the status that its method read.
pub write_change_current :
    (clock : ℕ) (c : Change) (db w : Database)
    → write_change clock c db ≡ ok w
    → (r : RunRecord) × (lookup c.run_id db.runs ≡ some r) × (r.status ≡ c.current)
unfolding write_change update_status_if_current
write_change_current clock c db w e = elim (Option-cases (lookup c.run_id db.runs)) [
  | inl missing ↦ ground arith
  | inr (r, there) ↦ elim (Bool-cases (same_status r.status c.current)) [
    | inl same ↦ (r, there, same_status-eq r.status c.current same)
    | inr other ↦ ground arith
  ]
]

write_change_written :
    (clock : ℕ) (c : Change) (db w : Database)
    → write_change clock c db ≡ ok w
    → (r : RunRecord) × (lookup c.run_id db.runs ≡ some r)
      × (r.status ≡ c.current)
      × (lookup c.run_id w.runs ≡ some (changed clock c r))
write_change_written clock c db w e =
    let (r, there, same) = write_change_current clock c db w e in
    let (w', e', change) = write_change-IsChanged clock c r db there same in
    let w_eq : w' ≡ w = ground (arith, e, e') in
    (
      r,
      there,
      same,
      ap (λ d. lookup c.run_id d.runs) (sym w_eq) ∙ change c.run_id ∙ rw (===_refl c.run_id) refl,
    )

planned_legal :
    (now : ℕ) (next : AgentLoopStatus) (reason : Option String) (old : RunRecord) (c : Change)
    → plan_status now next reason old ≡ ok (some c)
    → (can_transition old.status next ≡ true) × (status_change now next reason old ≡ c)
unfolding plan_status can_transition
planned_legal now next reason old c e = elim (Bool-cases (same_status old.status next)) [
  | inl there ↦ ground arith
  | inr away ↦ elim (Bool-cases (is_terminal old.status)) [
    | inl over ↦ ground arith
    | inr still ↦ elim (Bool-cases (includes (legal_transitions old.status) next)) [
      | inl legal ↦ (rw (legal, away) refl, ground arith)
      | inr illegal ↦ ground arith
    ]
  ]
]

-- Whatever others wrote since `markStatus` read the run, its transaction either throws or moves the
-- stored status along a legal transition.
pub mark_status_race :
    (now clock : ℕ) (next : AgentLoopStatus) (reason : Option String) (old : RunRecord) (c : Change)
    (db w : Database)
    → plan_status now next reason old ≡ ok (some c)
    → write_change clock c db ≡ ok w
    → (r : RunRecord) × (t : RunRecord) × (lookup old.id db.runs ≡ some r)
      × (lookup old.id w.runs ≡ some t)
      × (t.status ≡ next)
      × (can_transition r.status t.status ≡ true)
unfolding status_change patched set_status
mark_status_race now clock next reason old c db w e written =
    let (legal, same_change) = planned_legal now next reason old c e in
    let d = status_change now next reason old in
    let (r, there, same, after) =
      write_change_written clock d db w (ap (λ k. write_change clock k db) same_change ∙ written) in
    (r, changed clock d r, there, after, refl, ap (λ s. can_transition s next) same ∙ legal)

acquired_running :
    (clock : ℕ) (expected : List AgentLoopStatus) (c : Change) (db w : Database)
    → c.update.status ≡ running
    → write_acquisition clock expected c db ≡ (w, true)
    → (t : RunRecord) × (lookup c.run_id w.runs ≡ some t) × (t.status ≡ running)
unfolding write_acquisition update_status_if_in_set patched set_status
acquired_running clock expected c db w to_run e = elim (Option-cases (lookup c.run_id db.runs)) [
  | inl missing ↦ ground arith
  | inr (r, there) ↦ elim (Bool-cases (includes expected r.status)) [
    | inr out ↦ ground arith
    | inl within ↦
        let (w', e', change) = write_acquisition-IsChanged clock expected c r db there within in
        let w_eq : w' ≡ w = ap (λ p. p.0) (sym e' ∙ e) in
        (
          changed clock c r,
          ap (λ d. lookup c.run_id d.runs) (sym w_eq)
              ∙ change c.run_id
              ∙ rw (===_refl c.run_id) refl,
          to_run,
        )
  ]
]

-- Of two transactions of `acquireExecution` on one run, whatever the two read before, only the first
-- acquires it if the second does not expect `running`.
pub acquire_race :
    (clock later : ℕ) (expected others : List AgentLoopStatus) (now after : ℕ)
    (old stale : RunRecord) (db w : Database)
    → stale.id ≡ old.id
    → includes others running ≡ false
    → write_acquisition clock expected (acquisition now old) db ≡ (w, true)
    → write_acquisition later others (acquisition after stale) w ≡ (w, false)
unfolding write_acquisition acquisition update_status_if_in_set
acquire_race clock later expected others now after old stale db w same none_running e =
    let (t, there, runs) = acquired_running clock expected (acquisition now old) db w refl e in
    let found : lookup stale.id w.runs ≡ some t = ap (λ k. lookup k w.runs) same ∙ there in
    let refused : includes others t.status ≡ false =
      ap (λ s. includes others s) runs ∙ none_running in
    rw (write_acquisition, update_status_if_in_set, found, refused) refl
