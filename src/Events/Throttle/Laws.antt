-- ===== src/Events/Throttle/Laws.antt =====
-- The throttle loses, repeats and reorders nothing, and holds no text without a timer.
use sun_pilot.Base.{
  ℕ, ◌+◌, Option, none, some, List, [], ◌∷◌, ◌++◌, leb, ◌≡◌, ◌⊎◌, inl, inr, refl, sym, ap, ◌∙◌,
  arith, Bool-cases,
}
use sun_pilot.Events.Throttle.{
  Throttle, scheduled, new, emit_buffer, flush, push, fire, Event, pushes, flushes, fires, step,
  play,
}

-- What was emitted, joined.
unfoldable pub text_of : List (ℕ × List ℕ) → List ℕ
text_of [] = []
text_of ((t, s) ∷ es) = s ++ text_of es

-- What was pushed, joined.
unfoldable pub pushed : List Event → List ℕ
pushed [] = []
pushed (pushes now later delta ∷ es) = delta ++ pushed es
pushed (flushes now ∷ es) = pushed es
pushed (fires now ∷ es) = pushed es

abbrev total : Throttle → List ℕ
total s = text_of s.emitted ++ s.buffer

append_assoc {ℓ} : {A : Type ℓ} (a b c : List A) → (a ++ b) ++ c ≡ a ++ (b ++ c)
append_assoc [] b c = refl
append_assoc (x ∷ a) b c = ap (λ l. x ∷ l) (append_assoc a b c)

append_nil {ℓ} : {A : Type ℓ} (a : List A) → a ++ [] ≡ a
append_nil [] = refl
append_nil (x ∷ a) = ap (λ l. x ∷ l) (append_nil a)

text_of-append :
    (es : List (ℕ × List ℕ)) (t : ℕ) (s : List ℕ) → text_of (es ++ (t, s) ∷ []) ≡ text_of es ++ s
unfolding text_of
text_of-append [] t s = append_nil s
text_of-append ((u, d) ∷ es) t s =
    ap (λ l. d ++ l) (text_of-append es t s) ∙ sym (append_assoc d (text_of es) s)

emit_buffer-total :
    (now : ℕ) (b : List ℕ) (s : Throttle)
    → total (emit_buffer now b (record s { buffer = b })) ≡ text_of s.emitted ++ b
unfolding emit_buffer
emit_buffer-total now [] s = refl
emit_buffer-total now (c ∷ cs) s =
    append_nil (text_of (s.emitted ++ (now, c ∷ cs) ∷ [])) ∙ text_of-append s.emitted now (c ∷ cs)

flush-total : (now : ℕ) (s : Throttle) → total (flush now s) ≡ total s
unfolding flush
flush-total now s = emit_buffer-total now s.buffer (record s { timer = none })

pushed_total :
    (delta : List ℕ) (s : Throttle) → text_of s.emitted ++ (s.buffer ++ delta) ≡ total s ++ delta
pushed_total delta s = sym (append_assoc (text_of s.emitted) s.buffer delta)

push-total :
    (now later : ℕ) (delta : List ℕ) (s : Throttle)
    → total (push now later delta s) ≡ total s ++ delta
unfolding push
push-total now later delta s = elim (Bool-cases (leb (s.last_emit + s.interval_ms) now)) [
  | inl due ↦
      rw due (flush-total later (record s { buffer = s.buffer ++ delta }) ∙ pushed_total delta s)
  | inr early ↦ rw early (pushed_total delta s)
]

fire-total : (now : ℕ) (s : Throttle) → total (fire now s) ≡ total s
unfolding fire
fire-total now s = by_timer s.timer refl
  where
    by_timer : (t : Option ℕ) → s.timer ≡ t → total (fire now s) ≡ total s
    by_timer none e = rw (fire, e) refl
    by_timer (some due) e = rw (fire, e) (flush-total now s)

-- A text waits only with a timer set.
abbrev IsLive : Throttle → Type 0
IsLive s = (s.buffer ≡ []) ⊎ ((due : ℕ) × (s.timer ≡ some due))

flush-empties : (now : ℕ) (s : Throttle) → (flush now s).buffer ≡ []
unfolding flush emit_buffer
flush-empties now s = by_buffer s.buffer refl
  where
    by_buffer : (b : List ℕ) → s.buffer ≡ b → (flush now s).buffer ≡ []
    by_buffer [] e = rw (flush, emit_buffer, e) refl
    by_buffer (c ∷ cs) e = rw (flush, emit_buffer, e) refl

fire-empties : (now : ℕ) (s : Throttle) → IsLive s → (fire now s).buffer ≡ []
unfolding fire
fire-empties now s live = by_timer s.timer refl live
  where
    by_timer : (t : Option ℕ) → s.timer ≡ t → IsLive s → (fire now s).buffer ≡ []
    by_timer (some due) e l = rw (fire, e) (flush-empties now s)
    by_timer none e (inl empty) = rw (fire, e) empty
    by_timer none e (inr (due, set)) = ground (arith, e, set)

push-IsLive : (now later : ℕ) (delta : List ℕ) (s : Throttle) → IsLive (push now later delta s)
unfolding push
push-IsLive now later delta s = elim (Bool-cases (leb (s.last_emit + s.interval_ms) now)) [
  | inl due ↦ rw due (inl (flush-empties later (record s { buffer = s.buffer ++ delta })))
  | inr early ↦ rw early (inr (waits s.timer))
]
  where
    waits : (t : Option ℕ) → (due : ℕ) × (scheduled (now + s.interval_ms) t ≡ some due)
    waits none = (now + s.interval_ms, refl)
    waits (some due) = (due, refl)

step-IsLive : (e : Event) (s : Throttle) → IsLive s → IsLive (step e s)
unfolding step
step-IsLive (pushes now later delta) s live = push-IsLive now later delta s
step-IsLive (flushes now) s live = inl (flush-empties now s)
step-IsLive (fires now) s live = inl (fire-empties now s live)

play-IsLive : (es : List Event) (s : Throttle) → IsLive s → IsLive (play es s)
unfolding play
play-IsLive [] s live = live
play-IsLive (e ∷ es) s live = play-IsLive es (step e s) (step-IsLive e s live)

play-total : (es : List Event) (s : Throttle) → total (play es s) ≡ total s ++ pushed es
unfolding play step pushed
play-total [] s = sym (append_nil (total s))
play-total (pushes now later delta ∷ es) s =
    play-total es (push now later delta s)
    ∙ rw (push-total now later delta s) (append_assoc (total s) delta (pushed es))
play-total (flushes now ∷ es) s = play-total es (flush now s) ∙ rw (flush-total now s) refl
play-total (fires now ∷ es) s = play-total es (fire now s) ∙ rw (fire-total now s) refl

emitted_all : (s : Throttle) (t : List ℕ) → s.buffer ≡ [] → total s ≡ t → text_of s.emitted ≡ t
emitted_all s t empty e =
    sym (append_nil (text_of s.emitted)) ∙ ap (λ b. text_of s.emitted ++ b) (sym empty) ∙ e

-- After any events on a new throttle, the next call of `flush` and also the next firing of the timer
-- leave that what was emitted, joined, is what was pushed, joined.
pub all_emitted :
    (interval_ms now : ℕ) (es : List Event)
    → (text_of (flush now (play es (new interval_ms))).emitted ≡ pushed es)
      × (text_of (fire now (play es (new interval_ms))).emitted ≡ pushed es)
unfolding text_of
all_emitted interval_ms now es =
    let s = play es (new interval_ms) in
    let live : IsLive s = play-IsLive es (new interval_ms) (inl refl) in
    (
      emitted_all (flush now s) (pushed es) (flush-empties now s)
          (flush-total now s ∙ play-total es (new interval_ms)),
      emitted_all (fire now s) (pushed es) (fire-empties now s live)
          (fire-total now s ∙ play-total es (new interval_ms)),
    )
