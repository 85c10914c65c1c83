-- ===== src/Events/Throttle/Spacing.antt =====
-- At most one text is emitted per interval.
use sun_pilot.Base.{
  ℕ, ◌+◌, ◌≤◌, Option, none, some, List, [], ◌∷◌, ◌++◌, leb, ◌≡◌, inl, inr, refl, arith, Bool-cases,
}
use sun_pilot.Events.Throttle.{
  Throttle, scheduled, new, emit_buffer, flush, push, fire, Event, pushes, flushes, fires, play,
}

-- Each text was emitted at least `k` after the one before.
unfoldable pub AreSpaced : ℕ → List (ℕ × List ℕ) → Type 0
AreSpaced k [] = Unit
AreSpaced k (e ∷ []) = Unit
AreSpaced k ((t, s) ∷ (u, d) ∷ es) = (t + k ≤ u) × AreSpaced k ((u, d) ∷ es)

unfoldable LastBy : ℕ → List (ℕ × List ℕ) → Type 0
LastBy n [] = Unit
LastBy n ((t, s) ∷ []) = t ≤ n
LastBy n (e ∷ f ∷ es) = LastBy n (f ∷ es)

AreSpaced-append :
    (k n now : ℕ) (es : List (ℕ × List ℕ)) (b : List ℕ)
    → AreSpaced k es
    → LastBy n es
    → n + k ≤ now
    → AreSpaced k (es ++ (now, b) ∷ []) × LastBy now (es ++ (now, b) ∷ [])
unfolding AreSpaced LastBy
AreSpaced-append k n now [] b spaced last h = (tt, omega arith)
AreSpaced-append k n now ((t, s) ∷ []) b spaced last h = ((omega arith, tt), omega arith)
AreSpaced-append k n now ((t, s) ∷ (u, d) ∷ es) b spaced last h =
    let rest = AreSpaced-append k n now ((u, d) ∷ es) b spaced.1 last h in
    ((spaced.0, rest.0), rest.1)

abbrev DueAfter : ℕ → Option ℕ → Type 0
DueAfter n none = Unit
DueAfter n (some due) = n ≤ due

abbrev pub DueBy : ℕ → Option ℕ → Type 0
DueBy now none = Unit
DueBy now (some due) = due ≤ now

-- What holds when the clock reads `clock`.
abbrev IsPaced : ℕ → ℕ → Throttle → Type 0
IsPaced k clock s =
    (s.interval_ms ≡ k)
    × (s.last_emit ≤ clock)
    × DueAfter (s.last_emit + k) s.timer
    × AreSpaced k s.emitted
    × LastBy s.last_emit s.emitted

flush-IsPaced :
    (k clock now : ℕ) (s : Throttle)
    → IsPaced k clock s
    → clock ≤ now
    → s.last_emit + k ≤ now
    → IsPaced k now (flush now s)
unfolding flush emit_buffer
flush-IsPaced k clock now s (same, before, due, spaced, last) later h = by_buffer s.buffer
  where
    by_buffer : (b : List ℕ) → IsPaced k now (emit_buffer now b (record s { timer = none }))
    by_buffer [] = (same, omega arith, tt, spaced, last)
    by_buffer (c ∷ cs) =
        let (p, q) = AreSpaced-append k s.last_emit now s.emitted (c ∷ cs) spaced last h in
        (same, omega arith, tt, p, q)

push-IsPaced :
    (k clock now later : ℕ) (delta : List ℕ) (s : Throttle)
    → IsPaced k clock s
    → clock ≤ now
    → now ≤ later
    → IsPaced k later (push now later delta s)
unfolding push
push-IsPaced k clock now later delta s (same, before, due, spaced, last) h g =
    elim (Bool-cases (leb (s.last_emit + s.interval_ms) now)) [
      | inl over ↦ rw over (
          flush-IsPaced k clock later (record s { buffer = s.buffer ++ delta })
            (same, before, due, spaced, last) (omega arith) (ground (arith, same)))
      | inr early ↦ rw early (same, omega arith, waits s.timer due, spaced, last)
    ]
  where
    waits :
        (t : Option ℕ)
        → DueAfter (s.last_emit + k) t
        → DueAfter (s.last_emit + k) (scheduled (now + s.interval_ms) t)
    waits none d = ground (arith, same)
    waits (some due) d = d

fire-IsPaced :
    (k clock now : ℕ) (s : Throttle)
    → IsPaced k clock s
    → clock ≤ now
    → DueBy now s.timer
    → IsPaced k now (fire now s)
unfolding fire
fire-IsPaced k clock now s (same, before, due, spaced, last) h over = by_timer s.timer refl due over
  where
    by_timer :
        (t : Option ℕ)
        → s.timer ≡ t
        → DueAfter (s.last_emit + k) t
        → DueBy now t
        → IsPaced k now (fire now s)
    by_timer none e after d = rw (fire, e) (same, omega arith, rw e tt, spaced, last)
    by_timer (some time) e after d =
        rw (fire, e) (flush-IsPaced k clock now s (same, before, due, spaced, last) h (omega arith))

-- The clock does not go back, a timer fires no earlier than it is due, and nobody calls `flush`.
abbrev pub AreTimed : ℕ → List Event → Throttle → Type 0
AreTimed clock [] s = Unit
AreTimed clock (pushes now later delta ∷ es) s =
    (clock ≤ now) × (now ≤ later) × AreTimed later es (push now later delta s)
AreTimed clock (flushes now ∷ es) s = ⊥
AreTimed clock (fires now ∷ es) s = (clock ≤ now) × DueBy now s.timer × AreTimed now es (fire now s)

play-IsPaced :
    (k clock : ℕ) (es : List Event) (s : Throttle)
    → IsPaced k clock s
    → AreTimed clock es s
    → AreSpaced k (play es s).emitted
unfolding play
play-IsPaced k clock [] s paced timed = paced.3
play-IsPaced k clock (pushes now later delta ∷ es) s paced timed =
    play-IsPaced k later es (push now later delta s)
      (push-IsPaced k clock now later delta s paced timed.0 timed.1) timed.2
play-IsPaced k clock (flushes now ∷ es) s paced timed = absurd timed
play-IsPaced k clock (fires now ∷ es) s paced timed =
    play-IsPaced k now es (fire now s) (fire-IsPaced k clock now s paced timed.0 timed.1) timed.2

-- While nobody calls `flush`, the clock does not go back and a timer fires no earlier than it is due,
-- a new throttle emits its texts at least one interval apart.
pub emitted_apart :
    (interval_ms : ℕ) (es : List Event)
    → AreTimed 0 es (new interval_ms)
    → AreSpaced interval_ms (play es (new interval_ms)).emitted
unfolding AreSpaced LastBy
emitted_apart interval_ms es timed =
    play-IsPaced interval_ms 0 es (new interval_ms) (refl, omega arith, tt, tt, tt) timed
