-- ===== src/Tests/ContextTests.antt =====
-- Chunks that the token budgeter trims.
use sun_pilot.Base.{
  ℕ, ◌+◌, ◌≤◌, ◌<◌, String, false, none, List, [], ◌∷◌, ◌++◌, ◌≡◌, refl, arith, map, filter, All,
}
use mathlib.Core.List.{Perm}
use sun_pilot.Json.{end}
use sun_pilot.Text.{codes}
use sun_pilot.Context.Chunk.{
  ContextChunk, Source, system, memory, conversation_history, tool_result,
}
use sun_pilot.Context.Budget.{
  apply, compress_chunk, compress_history_message, total_tokens, is_mandatory, take,
}
use sun_pilot.Context.Budget.Laws.{
  apply-perm, tokens_of, apply_within, apply_maximal, apply_mandatory, compress_chunk_le,
}

abbrev chunk : String → Source → ℕ → ℕ → ContextChunk
chunk id source priority tokens = record {
  id = id;
  source = source;
  title = id;
  content = codes "text";
  priority = priority;
  token_estimate = tokens;
  metadata = end;
  created_at = none;
  trust = none;
  source_uri = none;
  generated_at = none;
  expires_at = none;
  blocked = none;
  warning = none;
  authority = none;
}

abbrev chunks : List ContextChunk
chunks =
    chunk "old memory" memory 1 60
    ∷ chunk "rules" system 0 20
    ∷ chunk "result" tool_result 2 30
    ∷ chunk "memory" memory 0 40
    ∷ []

abbrev names : List ContextChunk → List String
names cs = map (λ c. c.id) cs

-- The tool result outranks the memories, and the second memory fits where the first does not.
trims : names (apply 150 50 chunks).included ≡ "rules" ∷ "result" ∷ "memory" ∷ []
unfolding apply total_tokens sun_pilot.Context.Chunk.is_mandatory_source compress_chunk
    sun_pilot.Context.Budget.fill sun_pilot.Context.Budget.sort
    sun_pilot.Context.Budget.insert_sorted sun_pilot.Context.Budget.comes_before
    sun_pilot.Context.Chunk.trim_priority
trims = refl

drops : names (apply 150 50 chunks).excluded ≡ "old memory" ∷ []
unfolding apply total_tokens sun_pilot.Context.Chunk.is_mandatory_source compress_chunk
    sun_pilot.Context.Budget.fill sun_pilot.Context.Budget.sort
    sun_pilot.Context.Budget.insert_sorted sun_pilot.Context.Budget.comes_before
    sun_pilot.Context.Chunk.trim_priority
drops = refl

too_small : (apply 30 20 chunks).total_tokens ≡ 20
unfolding apply total_tokens sun_pilot.Context.Chunk.is_mandatory_source compress_chunk
too_small = refl

first_sentence : compress_history_message (codes "One two. Three") 10 ≡ codes "One two.…"
unfolding compress_history_message sun_pilot.Context.Budget.last_stop
    sun_pilot.Context.Budget.last_index_of
first_sentence = refl

apply-perm_example :
    Perm
      ((apply 150 50 chunks).included ++ (apply 150 50 chunks).excluded)
      (map compress_chunk chunks)
apply-perm_example = apply-perm 150 50 chunks

mandatory_fit : tokens_of (filter is_mandatory (map compress_chunk chunks)) + 50 ≤ 150
unfolding tokens_of compress_chunk sun_pilot.Context.Chunk.is_mandatory_source
mandatory_fit = omega arith

apply_within_example :
    (tokens_of (apply 150 50 chunks).included + 50 ≤ 150)
    × ((apply 150 50 chunks).total_tokens ≡ tokens_of (apply 150 50 chunks).included)
apply_within_example = apply_within 150 50 chunks mandatory_fit

apply_maximal_example :
    All
      (λ c. 150 < tokens_of (apply 150 50 chunks).included + 50 + c.token_estimate)
      (apply 150 50 chunks).excluded
apply_maximal_example = apply_maximal 150 50 chunks

apply_mandatory_example : All (λ c. is_mandatory c ≡ false) (apply 150 50 chunks).excluded
apply_mandatory_example = apply_mandatory 150 50 chunks

abbrev history : ContextChunk
history = chunk "history" conversation_history 3 90

compress_chunk_le_example :
    ((compress_chunk history).token_estimate ≤ history.token_estimate)
    × ((compress_chunk history).source ≡ history.source)
compress_chunk_le_example = compress_chunk_le history
