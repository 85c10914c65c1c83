-- ===== src/Memory/Retry.antt =====
-- MemoryRetryWrapper.writeFromTurn of agent-kernel/memory/memory-retry.ts. What the attempts of the
-- inner writer do is an argument; the waiting times and the emitted error are part of the result.
pub mod Laws
use sun_pilot.Base.{ℕ, zero, suc, ◌+◌, ◌*◌, ◌^◌, String, Option, none, some, List, [], ◌∷◌, ◌++◌}
use sun_pilot.Json.Print.{decimal}
use sun_pilot.Text.{codes}

-- The three lists of MemoryWriteResult hold ids here.
pub record MemoryWriteResult : Type 0 where
  pub written : List String
  pub rejected : List String
  pub superseded : List String

-- An attempt of the inner writer returns, or throws an error that may carry a partial result.
pub data Attempt : Type 0 where
  returned : MemoryWriteResult → Attempt
  threw : String → Option MemoryWriteResult → Attempt

-- What the call returns, the waits between its attempts, how many attempts there were, and the
-- message of `agent.error` if it was emitted.
pub record Report : Type 0 where
  pub result : MemoryWriteResult
  pub delays : List ℕ
  pub attempts : ℕ
  pub emitted : Option (List ℕ)

abbrev pub nothing : MemoryWriteResult
nothing = record { written = []; rejected = []; superseded = [] }

abbrev pub joined : MemoryWriteResult → MemoryWriteResult → MemoryWriteResult
joined a b = record {
  written = a.written ++ b.written;
  rejected = a.rejected ++ b.rejected;
  superseded = a.superseded ++ b.superseded;
}

-- `lastPartial` after an error.
unfoldable pub merge_partial :
    Option MemoryWriteResult → Option MemoryWriteResult → Option MemoryWriteResult
merge_partial last none = last
merge_partial none (some partial) = some partial
merge_partial (some last) (some partial) = some (joined last partial)

abbrev pub or_nothing : Option MemoryWriteResult → MemoryWriteResult
or_nothing none = nothing
or_nothing (some r) = r

-- No wait follows the last attempt.
abbrev pub delay_after : ℕ → ℕ → ℕ → List ℕ
delay_after base zero attempt = []
delay_after base (suc left) attempt = base * 2 ^ attempt ∷ []

-- One more attempt, with the wait after it.
abbrev pub attempted : List ℕ → Report → Report
attempted ds r = record r { delays = ds ++ r.delays; attempts = suc r.attempts }

abbrev pub failure_message : ℕ → String → List ℕ
failure_message max_retries message =
    codes "Memory write failed after "
    ++ (decimal (max_retries + 1) ++ (codes " attempts: " ++ codes message))

-- The loop and what follows it, from the attempt `attempt` on with `left` attempts left.
unfoldable pub retry_from :
    (ℕ → Attempt) → ℕ → ℕ → ℕ → ℕ → Option MemoryWriteResult → String → Report
unfolding merge_partial
retry_from inner base max_retries zero attempt partial last = record {
  result = or_nothing partial;
  delays = [];
  attempts = 0;
  emitted = some (failure_message max_retries last);
}
retry_from inner base max_retries (suc left) attempt partial last = elim (inner attempt) [
  | returned r ↦ record { result = r; delays = []; attempts = 1; emitted = none }
  | threw message p ↦
      attempted (delay_after base left attempt)
        (retry_from inner base max_retries left (attempt + 1) (merge_partial partial p) message)
]

unfoldable pub write_from_turn : (ℕ → Attempt) → ℕ → ℕ → Report
unfolding retry_from
write_from_turn inner base max_retries =
    retry_from inner base max_retries (suc max_retries) 0 none "undefined"
