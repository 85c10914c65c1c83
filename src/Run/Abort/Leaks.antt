-- ===== src/Run/Abort/Leaks.antt =====
-- No controller is lost: it is held by a run or aborted, unless `remove` was called.
use sun_pilot.Base.{
  ltb, ltb→lt, ℕ, ◌<◌, ◌===◌, eq_iff, String, true, none, some, List, [], ◌∷◌, ◌≡◌, ◌⊎◌, inl, inr,
  refl, arith, lookup, lookup-insert, lookup-remove, Option-cases, Bool-cases, ===_refl, All,
}
use sun_pilot.Run.Abort.{AbortRegistry, empty, is_aborted, abort, create}
use sun_pilot.Run.Abort.Laws.{Call, creates, aborts, removes, step, play}

-- The controller is aborted, or a run is held with it.
abbrev pub IsKept : ℕ → AbortRegistry → Type 0
IsKept c g = (is_aborted c g ≡ true) ⊎ ((r : String) × (lookup r g.controllers ≡ some c))

abbrev pub IsNoRemoval : Call → Type 0
IsNoRemoval (removes r) = ⊥
IsNoRemoval _ = Unit

abort-IsKept : (k : String) (g : AbortRegistry) (c : ℕ) → IsKept c g → IsKept c (abort k g).0
unfolding abort
abort-IsKept k g c kept = elim (Option-cases (lookup k g.controllers)) [
  | inl missing ↦ rw missing kept
  | inr (d, there) ↦ elim kept [
    | inl gone ↦ rw there (inl (ground arith))
    | inr (r, e) ↦ elim (Bool-cases (k === r)) [
      | inl same ↦ rw there (inl (ground (arith, eq_iff k r)))
      | inr other ↦ rw there (inr (r, ground (arith, lookup-remove k r g.controllers)))
    ]
  ]
]

abort-next :
    (k : String) (g : AbortRegistry)
    → ((abort k g).0.next ≡ g.next) × (lookup k (abort k g).0.controllers ≡ none)
unfolding abort
abort-next k g = elim (Option-cases (lookup k g.controllers)) [
  | inl missing ↦ rw missing (refl, missing)
  | inr (d, there) ↦ rw there (refl, ground (arith, lookup-remove k k g.controllers, ===_refl k))
]

create-IsKept :
    (k : String) (g : AbortRegistry)
    → ((c : ℕ) → c < g.next → IsKept c g)
    → (c : ℕ) → c < (create k g).0.next
    → IsKept c (create k g).0
unfolding create
create-IsKept k g all_kept c l =
    let h = (abort k g).0 in
    let (n, free) = abort-next k g in
    elim (Bool-cases (ltb c g.next)) [
      | inl old ↦ elim (abort-IsKept k g c (all_kept c (ltb→lt c g.next old))) [
        | inl gone ↦ inl gone
        | inr (r, e) ↦ inr (r, ground (arith, lookup-insert k r h.next h.controllers, eq_iff k r))
      ]
      | inr fresh ↦ inr (k, ground (arith, lookup-insert k k h.next h.controllers, ===_refl k))
    ]

step-IsKept :
    (a : Call) (g : AbortRegistry)
    → IsNoRemoval a
    → ((c : ℕ) → c < g.next → IsKept c g)
    → (c : ℕ) → c < (step a g).next
    → IsKept c (step a g)
unfolding step
step-IsKept (creates r) g h all_kept c l = create-IsKept r g all_kept c l
step-IsKept (aborts r) g h all_kept c l =
    abort-IsKept r g c (all_kept c (rw (← (abort-next r g).0) l))
step-IsKept (removes r) g h all_kept c l = absurd h

play-IsKept :
    (cs : List Call) (g : AbortRegistry)
    → All IsNoRemoval cs
    → ((c : ℕ) → c < g.next → IsKept c g)
    → (c : ℕ) → c < (play cs g).next
    → IsKept c (play cs g)
unfolding play
play-IsKept [] g h all_kept c l = all_kept c l
play-IsKept (a ∷ cs) g h all_kept c l =
    play-IsKept cs (step a g) h.1 (step-IsKept a g h.0 all_kept) c l

-- A controller that was made is aborted or still held by a run after any calls of `create` and
-- `abort` on an empty registry.
pub no_leak :
    (cs : List Call) (c : ℕ)
    → All IsNoRemoval cs
    → c < (play cs empty).next
    → (is_aborted c (play cs empty) ≡ true)
      ⊎ ((r : String) × (lookup r (play cs empty).controllers ≡ some c))
no_leak cs c h l = play-IsKept cs empty h (λ d k. absurd (omega arith)) c l
