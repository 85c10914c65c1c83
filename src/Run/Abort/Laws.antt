-- ===== src/Run/Abort/Laws.antt =====
-- The signals of the runs that the registry holds are live, and no other run's signal is aborted.
use sun_pilot.Base.{
  none, List, [], ◌∷◌, ◌⊎◌, refl, lookup-insert, ===_refl, ℕ, ◌<◌, ◌===◌, eq_iff, String, true,
  false, none, some, List, [], ◌∷◌, ◌≡◌, ◌⊎◌, inl, inr, refl, arith, lookup, lookup-insert,
  lookup-remove, Option-cases,
}
use sun_pilot.Run.Abort.{create, AbortRegistry, empty, is_aborted, abort, create, remove_run}

pub record IsSound (g : AbortRegistry) : Type 0 where
  pub made : (r : String) (c : ℕ) → lookup r g.controllers ≡ some c → c < g.next
  pub aborted_made : (c : ℕ) → is_aborted c g ≡ true → c < g.next
  pub live : (r : String) (c : ℕ) → lookup r g.controllers ≡ some c → is_aborted c g ≡ false
  pub apart :
      (r s : String) (c : ℕ)
      → lookup r g.controllers ≡ some c
      → lookup s g.controllers ≡ some c
      → (r === s) ≡ true

empty-IsSound : IsSound empty
unfolding lookup
empty-IsSound = record {
  made = λ r c e. ground arith;
  aborted_made = λ c e. ground arith;
  live = λ r c e. ground arith;
  apart = λ r s c e f. ground arith;
}

remove_run-IsSound : (k : String) (g : AbortRegistry) → IsSound g → IsSound (remove_run k g)
unfolding remove_run
remove_run-IsSound k g s = record {
  made = λ r c e. ground (arith, lookup-remove k r g.controllers, s.made r c);
  aborted_made = s.aborted_made;
  live = λ r c e. ground (arith, lookup-remove k r g.controllers, s.live r c);
  apart = λ r t c e f.
      ground
        (arith, lookup-remove k r g.controllers, lookup-remove k t g.controllers, s.apart r t c);
}

abort-IsSound : (k : String) (g : AbortRegistry) → IsSound g → IsSound (abort k g).0
unfolding abort
abort-IsSound k g s = elim (Option-cases (lookup k g.controllers)) [
  | inl missing ↦ rw missing s
  | inr (d, there) ↦ rw there (record {
    made = λ r c e. ground (arith, lookup-remove k r g.controllers, s.made r c);
    aborted_made = λ c e. ground (arith, s.aborted_made c, s.made k d there);
    live =
        λ r c e. ground (arith, lookup-remove k r g.controllers, s.live r c, s.apart k r d there);
    apart = λ r t c e f.
        ground
          (arith, lookup-remove k r g.controllers, lookup-remove k t g.controllers, s.apart r t c);
  })
]

create-IsSound : (k : String) (g : AbortRegistry) → IsSound g → IsSound (create k g).0
unfolding create
create-IsSound k g s =
    let h = (abort k g).0 in
    let t = abort-IsSound k g s in
    record {
      made = λ r c e. ground (arith, lookup-insert k r h.next h.controllers, t.made r c);
      aborted_made = λ c e. ground (arith, t.aborted_made c);
      live = λ r c e.
          ground (arith, lookup-insert k r h.next h.controllers, t.live r c, t.aborted_made c);
      apart = λ r q c e f. ground (
        arith,
        lookup-insert k r h.next h.controllers,
        lookup-insert k q h.next h.controllers,
        t.apart r q c,
        t.made r c,
        t.made q c,
        eq_iff k r,
        eq_iff k q,
        eq_iff r q,
      );
    }

pub data Call : Type 0 where
  creates aborts removes : String → Call

unfoldable pub step : Call → AbortRegistry → AbortRegistry
unfolding create abort remove_run
step (creates r) g = (create r g).0
step (aborts r) g = (abort r g).0
step (removes r) g = remove_run r g

unfoldable pub play : List Call → AbortRegistry → AbortRegistry
unfolding step
play [] g = g
play (c ∷ cs) g = play cs (step c g)

step-IsSound : (c : Call) (g : AbortRegistry) → IsSound g → IsSound (step c g)
unfolding step
step-IsSound (creates r) g s = create-IsSound r g s
step-IsSound (aborts r) g s = abort-IsSound r g s
step-IsSound (removes r) g s = remove_run-IsSound r g s

pub play-IsSound : (cs : List Call) (g : AbortRegistry) → IsSound g → IsSound (play cs g)
unfolding play
play-IsSound [] g s = s
play-IsSound (c ∷ cs) g s = play-IsSound cs (step c g) (step-IsSound c g s)

-- After any calls on an empty registry, no signal of a run that it holds is aborted.
pub signals_live :
    (cs : List Call) (r : String) (c : ℕ)
    → lookup r (play cs empty).controllers ≡ some c
    → is_aborted c (play cs empty) ≡ false
signals_live cs r c e = (play-IsSound cs empty empty-IsSound).live r c e

abort-others :
    (r other : String) (g : AbortRegistry)
    → (r === other) ≡ false
    → lookup other (abort r g).0.controllers ≡ lookup other g.controllers
unfolding abort
abort-others r other g n = elim (Option-cases (lookup r g.controllers)) [
  | inl missing ↦ rw missing refl
  | inr (d, there) ↦ rw there (ground (arith, lookup-remove r other g.controllers))
]

aborts_before :
    (r : String) (g : AbortRegistry)
    → (lookup r g.controllers ≡ none)
      ⊎ ((d : ℕ) × (lookup r g.controllers ≡ some d) × (is_aborted d (abort r g).0 ≡ true))
unfolding abort
aborts_before r g = elim (Option-cases (lookup r g.controllers)) [
  | inl missing ↦ inl missing
  | inr (d, there) ↦ inr (d, there, rw there (ground arith))
]

-- After any calls on an empty registry `create` returns a signal that is not aborted and that the
-- run is held with; the signal that the run was held with before is aborted, and every other run
-- keeps its signal.
pub create_lem :
    (cs : List Call) (r other : String)
    → (r === other) ≡ false
    → let g = play cs empty in
      let (h, c) = create r g in
      (lookup r h.controllers ≡ some c)
      × (is_aborted c h ≡ false)
      × ((lookup r g.controllers ≡ none)
          ⊎ ((d : ℕ) × (lookup r g.controllers ≡ some d) × (is_aborted d h ≡ true)))
      × (lookup other h.controllers ≡ lookup other g.controllers)
unfolding create
create_lem cs r other n =
    let g = play cs empty in
    let h = (abort r g).0 in
    let s = create-IsSound r g (play-IsSound cs empty empty-IsSound) in
    let e : lookup r (create r g).0.controllers ≡ some h.next =
      ground (arith, lookup-insert r r h.next h.controllers, ===_refl r) in
    (
      e,
      s.live r h.next e,
      aborts_before r g,
      ground (arith, lookup-insert r other h.next h.controllers, abort-others r other g n),
    )
