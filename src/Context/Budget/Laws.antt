-- ===== src/Context/Budget/Laws.antt =====
-- What the budgeter keeps and what it drops.
use mathlib.Core.List.{Perm, append_assoc}
use mathlib.Core.List.Perm
use sun_pilot.Base.{
  refl, zero, suc, length-append, ℕ, ◌+◌, ◌-◌, ◌≤◌, ◌<◌, true, false, not, List, [], ◌∷◌, ◌++◌, map,
  ◌≡◌, arith, All, filter, ltb, Bool-cases, inl, inr, length,
}
use sun_pilot.Context.Chunk.{ContextChunk, estimate_tokens}
use sun_pilot.Context.Budget.{
  take, compress_history_message, compress_chunk, total_tokens, is_mandatory, sort, fill, apply,
  stop_or_zero, last_stop,
}
use sun_pilot.Context.Budget.Order.{sort-perm, filter-perm, fill-perm}
use sun_pilot.Context.Budget.Fill.{
  total_tokens-append, fill_total, fill_bound, All-imp, fill_maximal, sort-All, fill-All,
  optional-All,
}

-- The sum of the estimates, whatever the budgeter counts.
unfoldable pub tokens_of : List ContextChunk → ℕ
tokens_of [] = 0
tokens_of (c ∷ cs) = c.token_estimate + tokens_of cs

total_tokens-tokens_of : (cs : List ContextChunk) → total_tokens cs ≡ tokens_of cs
unfolding total_tokens tokens_of
total_tokens-tokens_of [] = refl
total_tokens-tokens_of (c ∷ cs) = omega (arith, total_tokens-tokens_of cs)

-- The parts of `apply`.
abbrev mandatory_of : List ContextChunk → List ContextChunk
mandatory_of chunks = filter is_mandatory (map compress_chunk chunks)

abbrev optional_of : List ContextChunk → List ContextChunk
optional_of chunks = filter (λ c. not (is_mandatory c)) (map compress_chunk chunks)

module _ (max_tokens reserved : ℕ) (chunks : List ContextChunk) where
  needed : ℕ
  needed = total_tokens (mandatory_of chunks) + reserved

  filled : List ContextChunk × List ContextChunk × ℕ
  filled = fill (max_tokens - needed) 0 (sort (optional_of chunks))

  -- Nothing is lost or made up: the included and the excluded chunks together are the compressed
  -- ones.
  pub apply-perm :
      let r = apply max_tokens reserved chunks in
      Perm (r.included ++ r.excluded) (map compress_chunk chunks)
  unfolding apply needed filled
  apply-perm = elim (Bool-cases (ltb max_tokens needed)) [
    | inl over ↦ rw (over, apply) split
    | inr fits ↦ rw (fits, apply) (rw append_assoc (Perm.trans (Perm.append_left _ kept) split))
  ]
    where
      split : Perm (mandatory_of chunks ++ optional_of chunks) (map compress_chunk chunks)
      split = filter-perm is_mandatory (map compress_chunk chunks)

      kept : Perm (filled.0 ++ filled.1) (optional_of chunks)
      kept =
          Perm.trans (fill-perm (max_tokens - needed) 0 (sort (optional_of chunks)))
            (sort-perm (optional_of chunks))

  apply_total : let r = apply max_tokens reserved chunks in r.total_tokens ≡ tokens_of r.included
  unfolding apply
  apply_total = ground (
    arith,
    fill_total (max_tokens - (total_tokens (mandatory_of chunks) + reserved)) 0
        (sort (optional_of chunks)),
    total_tokens-append (mandatory_of chunks)
        (fill (max_tokens - (total_tokens (mandatory_of chunks) + reserved)) 0
          (sort (optional_of chunks))).0,
    total_tokens-tokens_of (apply max_tokens reserved chunks).included,
  )

  total_within :
      total_tokens (mandatory_of chunks) + reserved ≤ max_tokens
      → (apply max_tokens reserved chunks).total_tokens + reserved ≤ max_tokens
  unfolding apply
  total_within fits = ground (
    arith,
    fill_bound (max_tokens - (total_tokens (mandatory_of chunks) + reserved)) 0
        (sort (optional_of chunks)),
  )

  -- If the estimates of the compressed mandatory chunks and the reserve fit within the limit, so do
  -- those of all included chunks and the reserve; the reported total is that of the included chunks.
  pub apply_within :
      let r = apply max_tokens reserved chunks in
      tokens_of (filter is_mandatory (map compress_chunk chunks)) + reserved ≤ max_tokens
      → (tokens_of r.included + reserved ≤ max_tokens) × (r.total_tokens ≡ tokens_of r.included)
  apply_within fits =
      let known = total_tokens-tokens_of (mandatory_of chunks) in
      let within = total_within (omega arith) in (omega (arith, apply_total), apply_total)

  total_maximal :
      let r = apply max_tokens reserved chunks in
      All (λ c. max_tokens < r.total_tokens + reserved + c.token_estimate) r.excluded
  unfolding apply needed filled
  total_maximal = elim (Bool-cases (ltb max_tokens needed)) [
    | inl over ↦ rw (over, apply) (everywhere over (optional_of chunks))
    | inr fits ↦
        rw (fits, apply)
          (All-imp _ _ filled.1 (λ c h. enough fits c h)
            (fill_maximal (max_tokens - needed) 0 (sort (optional_of chunks))))
  ]
    where
      everywhere :
          ltb max_tokens needed ≡ true
          → (cs : List ContextChunk)
          → All
              (λ c. max_tokens < total_tokens (mandatory_of chunks) + reserved + c.token_estimate)
              cs
      everywhere over [] = tt
      everywhere over (c ∷ cs) = (ground arith, everywhere over cs)

      enough :
          ltb max_tokens needed ≡ false
          → (c : ContextChunk) → max_tokens - needed < filled.2 + c.token_estimate
          → max_tokens < total_tokens (mandatory_of chunks) + filled.2 + reserved + c.token_estimate
      enough fits c h = ground arith

  -- No excluded chunk would fit within the limit beside the included ones and the reserve.
  pub apply_maximal :
      let r = apply max_tokens reserved chunks in
      All (λ c. max_tokens < tokens_of r.included + reserved + c.token_estimate) r.excluded
  apply_maximal =
      All-imp _ _ (apply max_tokens reserved chunks).excluded (λ c h. omega (arith, apply_total))
        total_maximal

  -- Chunks of a mandatory source are never excluded.
  pub apply_mandatory :
      All (λ c. is_mandatory c ≡ false) (apply max_tokens reserved chunks).excluded
  unfolding apply needed filled
  apply_mandatory = elim (Bool-cases (ltb max_tokens needed)) [
    | inl over ↦ rw (over, apply) (optional-All (map compress_chunk chunks))
    | inr fits ↦
        rw (fits, apply)
          (fill-All _ (max_tokens - needed) 0 (sort (optional_of chunks))
            (sort-All _ (optional_of chunks) (optional-All (map compress_chunk chunks))))
  ]

take_le : (n : ℕ) (s : List ℕ) → length (take n s) ≤ n
take_le zero s = omega arith
take_le (suc n) [] = omega arith
take_le (suc n) (c ∷ s) = omega (arith, take_le n s)

take-length_le : (n : ℕ) (s : List ℕ) → length (take n s) ≤ length s
take-length_le zero s = omega arith
take-length_le (suc n) [] = omega arith
take-length_le (suc n) (c ∷ s) = omega (arith, take-length_le n s)

compress_history_message_le :
    (content : List ℕ) (n : ℕ)
    → n < length content
    → length (compress_history_message content n) ≤ n + 1
unfolding compress_history_message
compress_history_message_le content n h =
    let slice = take n content in
    let stop = stop_or_zero (last_stop slice) + 1 in
    ground (
      arith,
      take_le n content,
      take-length_le stop slice,
      length-append (take stop slice) (0x2026 ∷ []),
      length-append slice (0x2026 ∷ []),
    )

-- The pre-compression never raises the estimate of a chunk, and keeps its source.
pub compress_chunk_le :
    (c : ContextChunk)
    → ((compress_chunk c).token_estimate ≤ c.token_estimate)
      × ((compress_chunk c).source ≡ c.source)
unfolding compress_chunk estimate_tokens
compress_chunk_le c = ground (arith, compress_history_message_le c.content 300)
