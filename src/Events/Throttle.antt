-- ===== src/Events/Throttle.antt =====
-- DeltaThrottle of agent-kernel/agent-event-bus.ts: the texts that a model streams are emitted together,
-- at most one per interval. A text is a list of its units. `emitted` is what the callback got, each with
-- the time at which `flush` read the clock; the callback neither throws nor calls the throttle. A timer
-- is the time at which it is due.
pub mod Laws
pub mod Spacing
use sun_pilot.Base.{ℕ, ◌+◌, Option, none, some, List, [], ◌∷◌, ◌++◌, leb, if◌then◌else◌}

pub record Throttle : Type 0 where
  pub buffer : List ℕ
  pub last_emit : ℕ
  pub timer : Option ℕ
  pub interval_ms : ℕ
  pub emitted : List (ℕ × List ℕ)

abbrev pub new : ℕ → Throttle
new interval_ms = record {
  buffer = [];
  last_emit = 0;
  timer = none;
  interval_ms = interval_ms;
  emitted = [];
}

unfoldable pub emit_buffer : ℕ → List ℕ → Throttle → Throttle
emit_buffer now [] s = s
emit_buffer now (c ∷ cs) s = record s {
  buffer = [];
  last_emit = now;
  emitted = s.emitted ++ (now, c ∷ cs) ∷ [];
}

unfoldable pub flush : ℕ → Throttle → Throttle
unfolding emit_buffer
flush now s = emit_buffer now s.buffer (record s { timer = none })

-- `else if (!this.timer)`
abbrev pub scheduled : ℕ → Option ℕ → Option ℕ
scheduled due none = some due
scheduled due (some t) = some t

-- `now` is what push reads, `later` what its flush reads.
unfoldable pub push : ℕ → ℕ → List ℕ → Throttle → Throttle
unfolding flush
push now later delta s =
    let added = record s { buffer = s.buffer ++ delta } in
    if leb (s.last_emit + s.interval_ms) now
    then flush later added
    else record added { timer = scheduled (now + s.interval_ms) s.timer }

-- The callback of the timer, where one is set.
unfoldable pub fire : ℕ → Throttle → Throttle
unfolding flush
fire now s = elim s.timer [ none ↦ s | some due ↦ flush now s ]

pub data Event : Type 0 where
  pushes : ℕ → ℕ → List ℕ → Event
  flushes fires : ℕ → Event

unfoldable pub step : Event → Throttle → Throttle
unfolding push flush fire
step (pushes now later delta) s = push now later delta s
step (flushes now) s = flush now s
step (fires now) s = fire now s

unfoldable pub play : List Event → Throttle → Throttle
unfolding step
play [] s = s
play (e ∷ es) s = play es (step e s)
