-- ===== src/Memory/Retry/Laws.antt =====
-- How often the wrapper tries, and what it returns.
use mathlib.Core.List.{append_assoc, append-nil}
use sun_pilot.Base.{
  ◌∙◌, flat_map, ◌++◌, ℕ, zero, suc, ◌+◌, ◌*◌, ◌^◌, ◌≤◌, ◌<◌, String, Option, none, some, List, [],
  ◌∷◌, ◌≡◌, refl, arith, ap,
}
use sun_pilot.Memory.Retry.{
  Attempt, returned, threw, MemoryWriteResult, retry_from, write_from_turn, merge_partial, joined,
  Report, or_nothing, failure_message, attempted,
}

-- The attempt throws.
abbrev pub Throws : Attempt → Type 0
Throws (returned r) = ⊥
Throws (threw message p) = Unit

-- The attempts from `attempt` on, `n` of them, throw.
abbrev pub AllThrow : (ℕ → Attempt) → ℕ → ℕ → Type 0
AllThrow inner zero attempt = Unit
AllThrow inner (suc n) attempt = Throws (inner attempt) × AllThrow inner n (attempt + 1)

-- After `n` attempts that throw the next one returns `r`.
abbrev pub Returns : (ℕ → Attempt) → ℕ → ℕ → MemoryWriteResult → Type 0
Returns inner zero attempt r = inner attempt ≡ returned r
Returns inner (suc n) attempt r = Throws (inner attempt) × Returns inner n (attempt + 1) r

-- The waits after `n` attempts, each twice as long as the one before.
abbrev pub backoffs : ℕ → ℕ → ℕ → List ℕ
backoffs base zero attempt = []
backoffs base (suc n) attempt = base * 2 ^ attempt ∷ backoffs base n (attempt + 1)

-- The partial results that `n` attempts from `attempt` on carry, in order.
abbrev partial_of : Attempt → List MemoryWriteResult
partial_of (returned r) = []
partial_of (threw message none) = []
partial_of (threw message (some p)) = p ∷ []

unfoldable pub partials : (ℕ → Attempt) → ℕ → ℕ → List MemoryWriteResult
partials inner zero attempt = []
partials inner (suc n) attempt = partial_of (inner attempt) ++ partials inner n (attempt + 1)

-- Results one after the other.
unfoldable pub in_order : List MemoryWriteResult → MemoryWriteResult
in_order ps = record {
  written = flat_map (λ p. p.written) ps;
  rejected = flat_map (λ p. p.rejected) ps;
  superseded = flat_map (λ p. p.superseded) ps;
}

-- What was gathered before, with results after it.
abbrev then_all : Option MemoryWriteResult → List MemoryWriteResult → MemoryWriteResult
then_all none ps = in_order ps
then_all (some last) ps = joined last (in_order ps)

then_all-merge :
    (last p : Option MemoryWriteResult) (message : String) (ps : List MemoryWriteResult)
    → then_all (merge_partial last p) ps ≡ then_all last (partial_of (threw message p) ++ ps)
unfolding merge_partial in_order
then_all-merge none none message ps = refl
then_all-merge (some last) none message ps = refl
then_all-merge none (some p) message ps = refl
then_all-merge (some last) (some p) message ps =
    rw (append_assoc last.written, append_assoc last.rejected, append_assoc last.superseded) refl

threw_cases :
    (a : Attempt)
    → Throws a
    → (message : String) × (p : Option MemoryWriteResult) × (a ≡ threw message p)
threw_cases (returned r) h = absurd h
threw_cases (threw message p) h = (message, p, refl)

retry_from_succeeds :
    (inner : ℕ → Attempt) (base max_retries left n attempt : ℕ) (r : MemoryWriteResult)
    (p : Option MemoryWriteResult) (last : String)
    → n < left
    → Returns inner n attempt r
    → retry_from inner base max_retries left attempt p last
      ≡ record { result = r; delays = backoffs base n attempt; attempts = suc n; emitted = none }
unfolding retry_from
retry_from_succeeds inner base max_retries zero n attempt r p last l h = absurd (omega arith)
retry_from_succeeds inner base max_retries (suc left) zero attempt r p last l h =
    rw (h, retry_from) refl
retry_from_succeeds inner base max_retries (suc zero) (suc n) attempt r p last l h =
    absurd (omega arith)
retry_from_succeeds inner base max_retries (suc (suc left)) (suc n) attempt r p last l (t, h) =
    let (message, q, e) = threw_cases (inner attempt) t in
    rw (e, retry_from)
      (ap (attempted (base * 2 ^ attempt ∷ [])) (
        retry_from_succeeds inner base max_retries (suc left) n (attempt + 1) r (merge_partial p q)
          message (omega arith) h))

-- If an attempt within the retries returns and those before it throw, the wrapper returns its result
-- and emits no error; it tried no further, and doubled the wait after each attempt that threw.
pub write_from_turn_succeeds :
    (inner : ℕ → Attempt) (base max_retries n : ℕ) (r : MemoryWriteResult)
    → n ≤ max_retries
    → Returns inner n 0 r
    → write_from_turn inner base max_retries
      ≡ record { result = r; delays = backoffs base n 0; attempts = suc n; emitted = none }
unfolding write_from_turn
write_from_turn_succeeds inner base max_retries n r l h =
    retry_from_succeeds inner base max_retries (suc max_retries) n 0 r none "undefined"
      (omega arith) h

-- The message of the last of `n` attempts that throw.
abbrev pub message_of : String → Attempt → String
message_of last (returned r) = last
message_of last (threw message p) = message

abbrev pub last_message : (ℕ → Attempt) → ℕ → ℕ → String → String
last_message inner zero attempt last = last
last_message inner (suc n) attempt last =
    last_message inner n (attempt + 1) (message_of last (inner attempt))

or_nothing-then_all : (o : Option MemoryWriteResult) → or_nothing o ≡ then_all o []
unfolding in_order
or_nothing-then_all none = refl
or_nothing-then_all (some last) =
    rw (append-nil last.written, append-nil last.rejected, append-nil last.superseded) refl

-- What is reported when no attempt is left.
abbrev failure : ℕ → String → List ℕ → ℕ → MemoryWriteResult → Report
failure max_retries message delays attempts result = record {
  result = result;
  delays = delays;
  attempts = attempts;
  emitted = some (failure_message max_retries message);
}

retry_from_fails :
    (inner : ℕ → Attempt) (base max_retries left attempt : ℕ) (p : Option MemoryWriteResult)
    (last : String)
    → AllThrow inner (suc left) attempt
    → retry_from inner base max_retries (suc left) attempt p last
      ≡ failure max_retries
          (last_message inner (suc left) attempt last)
          (backoffs base left attempt)
          (suc left)
          (then_all p (partials inner (suc left) attempt))
unfolding retry_from partials
retry_from_fails inner base max_retries zero attempt p last (t, h) =
    let (message, q, e) = threw_cases (inner attempt) t in
    rw (e, retry_from)
      (ap (failure max_retries message [] 1)
        (or_nothing-then_all (merge_partial p q) ∙ then_all-merge p q message []))
retry_from_fails inner base max_retries (suc left) attempt p last (t, h) =
    let (message, q, e) = threw_cases (inner attempt) t in
    rw (e, retry_from)
      (ap (attempted (base * 2 ^ attempt ∷ []))
          (retry_from_fails inner base max_retries left (attempt + 1) (merge_partial p q) message h)
        ∙ ap
            (failure max_retries (last_message inner (suc left) (attempt + 1) message)
              (backoffs base (suc left) attempt) (suc (suc left)))
            (then_all-merge p q message (partials inner (suc left) (attempt + 1))))

-- If all attempts throw, there are `max_retries + 1` of them, each wait between them twice as long as
-- the one before; each list of the result is the concatenation, in order, of those of the partial
-- results that the attempts carry, and an error with the message of the last attempt is emitted.
pub write_from_turn_fails :
    (inner : ℕ → Attempt) (base max_retries : ℕ)
    → AllThrow inner (suc max_retries) 0
    → write_from_turn inner base max_retries ≡ record {
      result = in_order (partials inner (suc max_retries) 0);
      delays = backoffs base max_retries 0;
      attempts = suc max_retries;
      emitted =
          some (failure_message max_retries (last_message inner (suc max_retries) 0 "undefined"));
    }
unfolding write_from_turn
write_from_turn_fails inner base max_retries h =
    retry_from_fails inner base max_retries max_retries 0 none "undefined" h
