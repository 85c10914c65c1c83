-- ===== src/Tests/AbortTests.antt =====
-- Runs of the abort registry.
use sun_pilot.Base.{
  ◌===◌, String, true, false, none, some, ℕ, List, [], ◌∷◌, ◌≡◌, ◌⊎◌, refl, arith, lookup, All, ◌<◌,
}
use sun_pilot.Run.Abort.{empty, is_aborted, create, has, size}
use sun_pilot.Run.Abort.Laws.{Call, creates, aborts, removes, play, signals_live, create_lem}
use sun_pilot.Run.Abort.Leaks.{no_leak}

abbrev calls : List Call
calls = creates "r1" ∷ creates "r2" ∷ creates "r1" ∷ aborts "r2" ∷ []

holds_one : size (play calls empty) ≡ 1
unfolding play size lookup sun_pilot.Base.insert sun_pilot.Base.remove
holds_one = refl

not_held : has "r2" (play calls empty) ≡ false
unfolding play has lookup sun_pilot.Base.insert sun_pilot.Base.remove
not_held = refl

removes_quietly : is_aborted 0 (play (creates "r1" ∷ removes "r1" ∷ []) empty) ≡ false
unfolding play lookup
removes_quietly = refl

held : lookup "r1" (play calls empty).controllers ≡ some 2
unfolding play lookup sun_pilot.Base.insert sun_pilot.Base.remove
held = refl

signals_live_example : is_aborted 2 (play calls empty) ≡ false
signals_live_example = signals_live calls "r1" 2 held

create_lem_example :
    let g = play calls empty in
    let (h, c) = create "r1" g in
    (lookup "r1" h.controllers ≡ some c)
    × (is_aborted c h ≡ false)
    × ((lookup "r1" g.controllers ≡ none)
        ⊎ ((d : ℕ) × (lookup "r1" g.controllers ≡ some d) × (is_aborted d h ≡ true)))
    × (lookup "r2" h.controllers ≡ lookup "r2" g.controllers)
create_lem_example = create_lem calls "r1" "r2" refl

made : 1 < (play calls empty).next
unfolding play lookup sun_pilot.Base.insert sun_pilot.Base.remove
made = omega arith

no_leak_example :
    (is_aborted 1 (play calls empty) ≡ true)
    ⊎ ((r : String) × (lookup r (play calls empty).controllers ≡ some 1))
no_leak_example = no_leak calls 1 (tt, (tt, (tt, (tt, tt)))) made
