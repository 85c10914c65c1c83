-- ===== src/Run/Repository/Writes.antt =====
-- What a transaction of the repository-backed manager leaves in the table of runs.
use sun_pilot.Base.{
  ℕ, zero, suc, ◌-◌, ◌<◌, String, Bool, true, false, some, List, [], ◌∷◌, ◌++◌, ◌≡◌, inl, inr, refl,
  arith, Bool-cases, ◌===◌, if◌then◌else◌, ===_refl, length, drop, ltb, lookup, insert,
  lookup-insert, length-append, ◌∙◌,
}
use sun_pilot.Run.Status.{AgentLoopStatus, includes}
use sun_pilot.Run.Manager.{ok}
use sun_pilot.Run.Manager.Step.{same_status_refl}
use sun_pilot.Run.Store.{
  StatusEntry, RunRecord, Database, set_status, patched, update_status_if_current,
  update_status_if_in_set, patch_context, with_run, append_row, ContextPatch,
}
use sun_pilot.Run.Repository.{
  Change, patch_of, write_change, write_acquisition, truncate_status_history, last_previous,
  max_status_history,
}

last_previous-append :
    (es : List StatusEntry) (e : StatusEntry) → last_previous (es ++ e ∷ []) ≡ e.previous_status
unfolding last_previous
last_previous-append [] e = refl
last_previous-append (d ∷ []) e = refl
last_previous-append (d ∷ f ∷ es) e = last_previous-append (f ∷ es) e

last_previous-drop :
    (n : ℕ) (es : List StatusEntry) → n < length es → last_previous (drop n es) ≡ last_previous es
unfolding last_previous
last_previous-drop zero es h = refl
last_previous-drop (suc n) [] h = absurd (omega arith)
last_previous-drop (suc n) (e ∷ []) h = absurd (omega arith)
last_previous-drop (suc n) (e ∷ f ∷ es) h = last_previous-drop n (f ∷ es) (omega arith)

-- The cap on the history keeps its last entry.
pub last_previous-truncate :
    (es : List StatusEntry) (e : StatusEntry)
    → last_previous (truncate_status_history (es ++ e ∷ [])) ≡ e.previous_status
unfolding truncate_status_history
last_previous-truncate es e = elim (Bool-cases (ltb max_status_history (length (es ++ e ∷ [])))) [
  | inl long ↦ rw long (
      last_previous-drop (length (es ++ e ∷ []) - 1000) (es ++ e ∷ [])
        (ground (arith, length-append es (e ∷ [])))
      ∙ last_previous-append es e)
  | inr short ↦ rw short (last_previous-append es e)
]

lookup-insert_self {ℓ} :
    {V : Type ℓ} (key : String) (v : V) (d : List (String × V))
    → lookup key (insert key v d) ≡ some v
lookup-insert_self key v d = rw (lookup-insert, ===_refl) refl

module _ (clock : ℕ) (p : ContextPatch) (id : String) (r : RunRecord) (db : Database) where
  -- A row that was updated and patched.
  patch_context-lookup :
      (other : String)
      → lookup other (patch_context clock id p (with_run db id r)).runs
        ≡ (if id === other then some (patched clock p r) else lookup other db.runs)
  unfolding patch_context lookup patched
  patch_context-lookup other =
      rw
        (
          patch_context,
          lookup-insert_self id r db.runs,
          lookup-insert id other,
          lookup-insert id other,
        )
        (twice (id === other))
    where
      twice :
          (b : Bool)
          → (if b then some (patched clock p r) else (if b then some r else lookup other db.runs))
            ≡ (if b then some (patched clock p r) else lookup other db.runs)
      twice true = refl
      twice false = refl

-- The run that a change leaves.
abbrev pub changed : ℕ → Change → RunRecord → RunRecord
changed clock c r = patched clock (patch_of c) (set_status c.update r)

-- What the runs are after a change to one of them.
abbrev pub IsChanged : ℕ → Change → RunRecord → Database → Database → Type 0
IsChanged clock c r db w =
    (other : String)
    → lookup other w.runs
      ≡ (if c.run_id === other then some (changed clock c r) else lookup other db.runs)

pub write_change-IsChanged :
    (clock : ℕ) (c : Change) (r : RunRecord) (db : Database)
    → lookup c.run_id db.runs ≡ some r
    → r.status ≡ c.current
    → (w : Database) × (write_change clock c db ≡ ok w) × IsChanged clock c r db w
unfolding write_change patch_context update_status_if_current lookup
write_change-IsChanged clock c r db e same = (
  append_row c.row
      (patch_context clock c.run_id (patch_of c) (with_run db c.run_id (set_status c.update r))),
  rw (write_change, update_status_if_current, e, same, same_status_refl c.current) refl,
  patch_context-lookup clock (patch_of c) c.run_id (set_status c.update r) db,
)

pub write_acquisition-IsChanged :
    (clock : ℕ) (expected : List AgentLoopStatus) (c : Change) (r : RunRecord) (db : Database)
    → lookup c.run_id db.runs ≡ some r
    → includes expected r.status ≡ true
    → (w : Database) × (write_acquisition clock expected c db ≡ (w, true))
      × IsChanged clock c r db w
unfolding write_acquisition patch_context update_status_if_in_set lookup
write_acquisition-IsChanged clock expected c r db e within = (
  append_row c.row
      (patch_context clock c.run_id (patch_of c) (with_run db c.run_id (set_status c.update r))),
  rw (write_acquisition, update_status_if_in_set, e, within) refl,
  patch_context-lookup clock (patch_of c) c.run_id (set_status c.update r) db,
)
