-- ===== src/Context/Budget.antt =====
-- TokenBudgeter of agent-kernel/context/context-budgeter.ts.
pub mod Order
pub mod Fill
pub mod Laws
use sun_pilot.Base.{
  ℕ, zero, suc, ◌+◌, ◌-◌, ◌*◌, Bool, true, false, not, ◌&&◌, Option, none, some, List, [], ◌∷◌,
  ◌++◌, map, ltb, leb, ◌==◌, if◌then◌else◌, length, filter, max,
}
use sun_pilot.Json.{bool, set_field}
use sun_pilot.Context.Chunk.{
  ContextChunk, Source, trim_priority, is_mandatory_source, estimate_tokens,
}

pub record BudgetResult : Type 0 where
  pub included : List ContextChunk
  pub excluded : List ContextChunk
  pub total_tokens : ℕ
  pub budget_used : ℕ

abbrev pub take : ℕ → List ℕ → List ℕ
take zero s = []
take (suc n) [] = []
take (suc n) (c ∷ s) = c ∷ take n s

-- `s.lastIndexOf(c)`, `none` for -1.
unfoldable pub last_index_of : ℕ → List ℕ → Option ℕ
last_index_of c [] = none
last_index_of c (d ∷ s) = elim (last_index_of c s) [
  | some i ↦ some (suc i)
  | none ↦ if d == c then some 0 else none
]

abbrev pub max_index : Option ℕ → Option ℕ → Option ℕ
max_index none j = j
max_index (some i) none = some i
max_index (some i) (some j) = some (max i j)

-- The last of 。 . ! ? and the line feed.
unfoldable pub last_stop : List ℕ → Option ℕ
last_stop s = max_index (last_index_of 0x3002 s) (
    max_index (last_index_of b'.' s)
      (max_index (last_index_of b'!' s) (max_index (last_index_of b'?' s) (last_index_of 10 s))))

-- `i > maxChars * 0.5`, which fails at -1.
abbrev pub is_late : ℕ → Option ℕ → Bool
is_late max_chars none = false
is_late max_chars (some i) = ltb max_chars (i * 2)

abbrev pub stop_or_zero : Option ℕ → ℕ
stop_or_zero none = 0
stop_or_zero (some i) = i

-- 0x2026 is the ellipsis.
unfoldable pub compress_history_message : List ℕ → ℕ → List ℕ
compress_history_message content max_chars =
    let slice = take max_chars content in
    if leb (length content) max_chars
    then content
    else (if is_late max_chars (last_stop slice)
        then take (stop_or_zero (last_stop slice) + 1) slice ++ 0x2026 ∷ []
        else slice ++ 0x2026 ∷ [])

abbrev is_history : Source → Bool
is_history Source.conversation_history = true
is_history _ = false

-- One chunk of the pre-compression pass.
unfoldable pub compress_chunk : ContextChunk → ContextChunk
compress_chunk chunk =
    let compressed = compress_history_message chunk.content 300 in
    if is_history chunk.source && (ltb 300 (length chunk.content) && ltb 75 chunk.token_estimate)
    then record chunk {
      content = compressed;
      token_estimate = estimate_tokens compressed;
      metadata = set_field "preCompressed" (bool true) chunk.metadata;
    }
    else chunk

unfoldable pub total_tokens : List ContextChunk → ℕ
total_tokens [] = 0
total_tokens (c ∷ cs) = c.token_estimate + total_tokens cs

abbrev pub is_mandatory : ContextChunk → Bool
is_mandatory chunk = is_mandatory_source chunk.source

-- The comparator of the sort: `b` must stand before `a`.
unfoldable pub comes_before : ContextChunk → ContextChunk → Bool
comes_before b a =
    let trim_a = trim_priority a.source in
    let trim_b = trim_priority b.source in
    if trim_b == trim_a then ltb b.priority a.priority else ltb trim_a trim_b

unfoldable pub insert_sorted : ContextChunk → List ContextChunk → List ContextChunk
insert_sorted c [] = c ∷ []
insert_sorted c (d ∷ ds) = if comes_before d c then d ∷ insert_sorted c ds else c ∷ d ∷ ds

-- The stable sort of the optional chunks.
unfoldable pub sort : List ContextChunk → List ContextChunk
sort [] = []
sort (c ∷ cs) = insert_sorted c (sort cs)

-- The loop that fills the remaining budget: what is included, what is excluded, and the tokens used.
unfoldable pub fill : ℕ → ℕ → List ContextChunk → List ContextChunk × List ContextChunk × ℕ
fill remaining used [] = ([], [], used)
fill remaining used (c ∷ cs) =
    let fits = leb (used + c.token_estimate) remaining in
    let (included, excluded, final) =
      fill remaining (if fits then used + c.token_estimate else used) cs in
    if fits then (c ∷ included, excluded, final) else (included, c ∷ excluded, final)

-- `mandatoryTokens > availableTokens` is written without the difference, which may be negative.
unfoldable pub apply : ℕ → ℕ → List ContextChunk → BudgetResult
apply max_tokens reserved_for_output chunks =
    let compressed = map compress_chunk chunks in
    let mandatory = filter is_mandatory compressed in
    let optional = filter (λ c. not (is_mandatory c)) compressed in
    let mandatory_tokens = total_tokens mandatory in
    let (included, excluded, used) =
      fill (max_tokens - (mandatory_tokens + reserved_for_output)) 0 (sort optional) in
    if ltb max_tokens (mandatory_tokens + reserved_for_output)
    then record {
      included = mandatory;
      excluded = optional;
      total_tokens = mandatory_tokens;
      budget_used = mandatory_tokens;
    }
    else record {
      included = mandatory ++ included;
      excluded = excluded;
      total_tokens = mandatory_tokens + used;
      budget_used = mandatory_tokens + used;
    }
