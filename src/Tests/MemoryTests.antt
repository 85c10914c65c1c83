-- ===== src/Tests/MemoryTests.antt =====
-- Memory writes that are tried again.
use sun_pilot.Base.{ℕ, zero, suc, String, none, some, [], ◌∷◌, ◌≡◌, refl, arith}
use sun_pilot.Memory.Retry.{
  Attempt, returned, threw, MemoryWriteResult, write_from_turn, failure_message,
}
use sun_pilot.Memory.Retry.Laws.{
  AllThrow, Returns, backoffs, in_order, partials, last_message, write_from_turn_succeeds,
  write_from_turn_fails,
}

abbrev writes : String → MemoryWriteResult
writes id = record { written = id ∷ []; rejected = []; superseded = [] }

-- The first attempt fails half-way, the second one returns.
abbrev recovers : ℕ → Attempt
recovers zero = threw "timeout" (some (writes "m1"))
recovers (suc n) = returned (writes "m2")

abbrev breaks : ℕ → Attempt
breaks zero = threw "timeout" (some (writes "m1"))
breaks (suc n) = threw "refused" (some (writes "m2"))

waits : (write_from_turn breaks 500 2).delays ≡ 500 ∷ 1000 ∷ []
unfolding write_from_turn
waits = refl

collects : (write_from_turn breaks 500 2).result.written ≡ "m1" ∷ "m2" ∷ "m2" ∷ []
unfolding write_from_turn
collects = refl

recovers-Returns : Returns recovers 1 0 (writes "m2")
recovers-Returns = (tt, refl)

write_from_turn_succeeds_example :
    write_from_turn recovers 500 2
    ≡ record { result = writes "m2"; delays = backoffs 500 1 0; attempts = suc 1; emitted = none }
write_from_turn_succeeds_example =
    write_from_turn_succeeds recovers 500 2 1 (writes "m2") (omega arith) recovers-Returns

breaks-AllThrow : AllThrow breaks 3 0
breaks-AllThrow = (tt, (tt, (tt, tt)))

write_from_turn_fails_example : write_from_turn breaks 500 2 ≡ record {
  result = in_order (partials breaks 3 0);
  delays = backoffs 500 2 0;
  attempts = 3;
  emitted = some (failure_message 2 (last_message breaks 3 0 "undefined"));
}
write_from_turn_fails_example = write_from_turn_fails breaks 500 2 breaks-AllThrow
