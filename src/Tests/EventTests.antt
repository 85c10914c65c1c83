-- ===== src/Tests/EventTests.antt =====
-- Runs of the delta throttle.
use sun_pilot.Events.Throttle.{push, new, Event, pushes, fires, play, flush, fire}
use sun_pilot.Base.{List, [], ◌∷◌, ◌≡◌, refl, arith, some}
use sun_pilot.Events.Throttle.Laws.{all_emitted, text_of, pushed}
use sun_pilot.Events.Throttle.Spacing.{AreSpaced, emitted_apart}

-- The first chunk goes out at once, two more wait for the timer.
abbrev chunks : List Event
chunks =
    pushes 100 100 (1 ∷ 2 ∷ [])
    ∷ pushes 120 120 (3 ∷ [])
    ∷ pushes 130 130 (4 ∷ [])
    ∷ fires 171
    ∷ pushes 180 180 (5 ∷ [])
    ∷ []

chunks_emitted : (play chunks (new 50)).emitted ≡ (100, 1 ∷ 2 ∷ []) ∷ (171, 3 ∷ 4 ∷ []) ∷ []
unfolding play
chunks_emitted = refl

chunks_waiting : (play chunks (new 50)).timer ≡ some 230
unfolding play
chunks_waiting = refl

all_emitted_example :
    (text_of (flush 190 (play chunks (new 50))).emitted ≡ pushed chunks)
    × (text_of (fire 190 (play chunks (new 50))).emitted ≡ pushed chunks)
all_emitted_example = all_emitted 50 190 chunks

emitted_apart_example : AreSpaced 50 (play chunks (new 50)).emitted
unfolding push
emitted_apart_example = emitted_apart 50 chunks (
  omega arith,
  omega arith,
  (
    omega arith,
    omega arith,
    (omega arith, omega arith, (omega arith, omega arith, (omega arith, omega arith, tt))),
  ),
)
