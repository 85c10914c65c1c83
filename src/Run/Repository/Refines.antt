-- ===== src/Run/Repository/Refines.antt =====
-- RepositoryRunStateManager implements what InMemoryRunStateManager (Run.Manager) promises: the two
-- managers, started on the same runs, keep the same runs.
use sun_pilot.Base.{
  ℕ, String, Option, none, some, List, ◌≡◌, ◌⊎◌, inl, inr, refl, ap, ◌∙◌, arith, ◌===◌,
  if◌then◌else◌, lookup, lookup-insert, insert, eq_iff, Bool-cases, ===_refl,
}
use sun_pilot.Run.Status.{AgentLoopStatus, same_status, cancelled}
use sun_pilot.Run.State.{RunState, Thrown}
use sun_pilot.Run.Manager.{Manager, Result, ok, err, HistoryEntry, moved, failed_with, taken}
use sun_pilot.Run.Store.{patched, set_status, RunRecord, Database}
use sun_pilot.Run.Repository.{
  map_run_to_state, Change, status_change, failure_change, acquisition, perform, write_change,
}
use sun_pilot.Run.Repository.Writes.{changed, last_previous-truncate, write_change-IsChanged}

-- A state without the two times in which the managers differ: the database sets `updatedAt` with
-- each statement, and `completedAt` for every terminal status.
unfoldable pub forget : RunState → RunState
forget s = record s { updated_at = 0; completed_at = none }

unfoldable pub view : RunRecord → RunState
unfolding map_run_to_state forget
view r = forget (map_run_to_state r)

abbrev Matches : String → Option RunRecord → Option RunState → Type 0
Matches id none none = Unit
Matches id none (some s) = ⊥
Matches id (some r) none = ⊥
Matches id (some r) (some s) = (r.id ≡ id) × (view r ≡ forget s)

-- The tables hold the runs of the manager.
abbrev pub Agree : Database → Manager → Type 0
Agree db m = (id : String) → Matches id (lookup id db.runs) (lookup id m.runs)

-- Equal results: what is thrown, or the runs kept and the run returned.
abbrev pub SameResult : Result (Database × RunState) → Result (Manager × RunState) → Type 0
SameResult (err e) (err f) = e ≡ f
SameResult (err e) (ok q) = ⊥
SameResult (ok p) (err f) = ⊥
SameResult (ok p) (ok q) = Agree p.0 q.0 × (forget p.1 ≡ forget q.1)

pub view_status : (r : RunRecord) (s : RunState) → view r ≡ forget s → r.status ≡ s.status
unfolding view forget map_run_to_state
view_status r s e = ap (λ v. v.status) e

pub status_change-view :
    (now clock : ℕ) (next : AgentLoopStatus) (reason : Option String) (r : RunRecord)
    → view (changed clock (status_change now next reason r) r) ≡ forget (moved now next (view r))
unfolding view forget map_run_to_state status_change moved patched set_status
status_change-view now clock next reason r = elim (Bool-cases (same_status next cancelled)) [
  | inl held ↦ rw (held, last_previous-truncate r.context.status_history) refl
  | inr not_held ↦ rw (not_held, last_previous-truncate r.context.status_history) refl
]

pub failure_change-view :
    (now clock : ℕ) (error : Thrown) (r : RunRecord)
    → view (changed clock (failure_change now error r) r) ≡ forget (failed_with now error (view r))
unfolding view forget map_run_to_state failure_change failed_with patched set_status
failure_change-view now clock error r = rw (last_previous-truncate r.context.status_history) refl

pub acquisition-view :
    (now clock : ℕ) (r : RunRecord)
    → view (changed clock (acquisition now r) r) ≡ forget (taken now (view r))
unfolding view forget map_run_to_state acquisition taken patched set_status
acquisition-view now clock r = rw (last_previous-truncate r.context.status_history) refl

-- One run stored on either side.
pub stored-Agree :
    (id : String) (f : RunRecord) (u : RunState) (db w : Database) (m : Manager)
    (history : List HistoryEntry)
    → ((other : String)
        → lookup other w.runs ≡ (if id === other then some f else lookup other db.runs))
    → f.id ≡ id
    → view f ≡ forget u
    → Agree db m
    → Agree w (record { runs = insert id u m.runs; history = history })
stored-Agree id f u db w m history change same seen agree other = elim (Bool-cases (id === other)) [
  | inl here ↦
      rw (change other, lookup-insert id other u m.runs, here)
        (same ∙ (eq_iff id other).0 here, seen)
  | inr elsewhere ↦ rw (change other, lookup-insert id other u m.runs, elsewhere) (agree other)
]

-- A run is missing on both sides or kept on both.
pub meet :
    (db : Database) (m : Manager) (id : String)
    → Agree db m
    → ((lookup id db.runs ≡ none) × (lookup id m.runs ≡ none))
      ⊎ ((r : RunRecord) × (s : RunState) × (lookup id db.runs ≡ some r)
          × (lookup id m.runs ≡ some s)
          × (r.id ≡ id)
          × (view r ≡ forget s))
meet db m id agree = split (lookup id db.runs) (lookup id m.runs) refl refl (agree id)
  where
    split :
        (o : Option RunRecord) (p : Option RunState)
        → lookup id db.runs ≡ o
        → lookup id m.runs ≡ p
        → Matches id o p
        → ((lookup id db.runs ≡ none) × (lookup id m.runs ≡ none))
          ⊎ ((r : RunRecord) × (s : RunState) × (lookup id db.runs ≡ some r)
              × (lookup id m.runs ≡ some s)
              × (r.id ≡ id)
              × (view r ≡ forget s))
    split none none a b h = inl (a, b)
    split none (some s) a b h = absurd h
    split (some r) none a b h = absurd h
    split (some r) (some s) a b h = inr (r, s, a, b, h.0, h.1)

perform_found :
    (clock : ℕ) (c : Change) (r f : RunRecord) (db w : Database)
    → write_change clock c db ≡ ok w
    → lookup c.run_id w.runs ≡ some f
    → perform clock r (some c) db ≡ ok (w, map_run_to_state f)
unfolding perform
perform_found clock c r f db w written there = ground arith

-- A change written in a transaction against the one that the manager in memory makes.
pub perform-Agree :
    (clock : ℕ) (c : Change) (r : RunRecord) (db : Database) (m : Manager) (u : RunState)
    (history : List HistoryEntry)
    → lookup c.run_id db.runs ≡ some r
    → r.status ≡ c.current
    → r.id ≡ c.run_id
    → view (changed clock c r) ≡ forget u
    → Agree db m
    → SameResult
        (perform clock r (some c) db)
        (ok (record { runs = insert c.run_id u m.runs; history = history }, u))
unfolding view patched set_status
perform-Agree clock c r db m u history there current same seen agree =
    let (w, written, change) = write_change-IsChanged clock c r db there current in
    rw
      (perform_found clock c r (changed clock c r) db w written
        (rw (change c.run_id, ===_refl c.run_id) refl))
      (stored-Agree c.run_id (changed clock c r) u db w m history change same seen agree, seen)
