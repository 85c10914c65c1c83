-- ===== src/Run/Manager/History.antt =====
-- The status history: at most `max_history` entries, the last of a run being its status.
use sun_pilot.Base.{
  ℕ, zero, suc, ◌+◌, ◌-◌, ◌≤◌, String, false, Option, none, some, List, [], ◌∷◌, ◌++◌, ◌≡◌, refl,
  arith, ◌===◌, ltb, if◌then◌else◌, length, length-append, length-drop, drop, lookup, lookup-insert,
  Bool-cases, Option-cases, inl, insert, inr,
}
use sun_pilot.Run.Status.{AgentLoopStatus}
use sun_pilot.Run.State.{RunState}
use sun_pilot.Run.Manager.{Manager, HistoryEntry, max_history, record_history}

-- The entry that `recordHistory` pushes.
abbrev pub entry : ℕ → String → Option AgentLoopStatus → AgentLoopStatus → String → HistoryEntry
entry now k previous next reason = record {
  run_id = k;
  previous_status = previous;
  next_status = next;
  reason = reason;
  created_at = now;
}

drop-append :
    (n : ℕ) (es : List HistoryEntry) (e : HistoryEntry)
    → n ≤ length es
    → drop n (es ++ e ∷ []) ≡ drop n es ++ e ∷ []
drop-append zero es e h = refl
drop-append (suc n) [] e h = absurd (omega arith)
drop-append (suc n) (x ∷ es) e h = drop-append n es e (omega arith)

-- The new entry comes last, and only the oldest ones go.
pub record_history_lem :
    (now : ℕ) (k : String) (previous : Option AgentLoopStatus) (next : AgentLoopStatus)
    (reason : String) (es : List HistoryEntry)
    → record_history now k previous next reason es
      ≡ drop (length es + 1 - max_history) es ++ entry now k previous next reason ∷ []
unfolding record_history
record_history_lem now k previous next reason es =
    elim (Bool-cases (ltb max_history (length (es ++ e ∷ [])))) [
      | inl over ↦ rw over (rw l (drop-append _ es e (omega arith)))
      | inr fits ↦ rw (fits, small fits)
    ]
  where
    e : HistoryEntry
    e = entry now k previous next reason

    l : length (es ++ e ∷ []) ≡ length es + 1
    l = length-append es (e ∷ [])

    small : ltb max_history (length (es ++ e ∷ [])) ≡ false → length es + 1 - max_history ≡ 0
    small fits = ground (arith, l)

pub record_history_bounded :
    (now : ℕ) (k : String) (previous : Option AgentLoopStatus) (next : AgentLoopStatus)
    (reason : String) (es : List HistoryEntry)
    → length (record_history now k previous next reason es) ≤ max_history
unfolding record_history
record_history_bounded now k previous next reason es = ground (
  arith,
  length-drop (length (es ++ entry now k previous next reason ∷ []) - max_history)
      (es ++ entry now k previous next reason ∷ []),
)

-- The status that the last entry of the run `r` ends in.
abbrev pub last_status : String → List HistoryEntry → Option AgentLoopStatus
last_status r [] = none
last_status r (e ∷ es) = elim (last_status r es) [
  | some s ↦ some s
  | none ↦ if e.run_id === r then some e.next_status else none
]

pub last_status-append :
    (r : String) (es : List HistoryEntry) (e : HistoryEntry)
    → last_status r (es ++ e ∷ [])
      ≡ (if e.run_id === r then some e.next_status else last_status r es)
last_status-append r [] e = ground arith
last_status-append r (x ∷ es) e = ground (arith, last_status-append r es e)

-- Older entries that are dropped leave the last one, or none at all.
pub last_status-drop :
    (r : String) (n : ℕ) (es : List HistoryEntry) {s : AgentLoopStatus}
    → last_status r (drop n es) ≡ some s
    → last_status r es ≡ some s
last_status-drop r zero es h = h
last_status-drop r (suc n) [] h = h
last_status-drop r (suc n) (e ∷ es) {s} h = ground (arith, last_status-drop r n es {s = s})

-- The last entry of a run tells its status.
abbrev pub Tells : Option AgentLoopStatus → Option RunState → Type 0
Tells none o = Unit
Tells (some s) none = ⊥
Tells (some s) (some t) = t.status ≡ s

pub record Agrees (m : Manager) : Type 0 where
  pub bounded : length m.history ≤ max_history
  pub current : (r : String) → Tells (last_status r m.history) (lookup r m.runs)

Tells-drop :
    (r : String) (n : ℕ) (es : List HistoryEntry) (o : Option RunState)
    → Tells (last_status r es) o
    → Tells (last_status r (drop n es)) o
Tells-drop r n es o h = elim (Option-cases (last_status r (drop n es))) [
  | inl gone ↦ rw gone tt
  | inr (s, kept) ↦ rw kept (rw (last_status-drop r n es kept) at h)
]

-- A run that is stored together with an entry of its new status.
pub stored-Agrees :
    (now : ℕ) (k : String) (previous : Option AgentLoopStatus) (v : RunState) (reason : String)
    (m n : Manager)
    → Agrees m
    → n.runs ≡ insert k v m.runs
    → n.history ≡ record_history now k previous v.status reason m.history
    → Agrees n
stored-Agrees now k previous v reason m n a e h = record {
  bounded = rw h (record_history_bounded now k previous v.status reason m.history);
  current = λ r. rw (e, h, record_history_lem, last_status-append, lookup-insert) (told r);
}
  where
    n_old : ℕ
    n_old = length m.history + 1 - max_history

    told :
        (r : String)
        → Tells
            (if k === r then some v.status else last_status r (drop n_old m.history))
            (if k === r then some v else lookup r m.runs)
    told r = elim (Bool-cases (k === r)) [
      | inl hit ↦ rw hit refl
      | inr miss ↦ rw miss (Tells-drop r n_old m.history (lookup r m.runs) (a.current r))
    ]
