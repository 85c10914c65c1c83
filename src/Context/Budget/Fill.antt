-- ===== src/Context/Budget/Fill.antt =====
-- The greedy fill of the budget.

use sun_pilot.Base.{
  leb, ℕ, ◌+◌, ◌≤◌, ◌<◌, false, not, List, [], ◌∷◌, ◌++◌, ◌≡◌, arith, All, filter, Bool-cases, inl,
  inr, leb,
}
use sun_pilot.Context.Chunk.{ContextChunk}
use sun_pilot.Context.Budget.{total_tokens, is_mandatory, sort, insert_sorted, fill, comes_before}

pub total_tokens-append :
    (cs ds : List ContextChunk) → total_tokens (cs ++ ds) ≡ total_tokens cs + total_tokens ds
unfolding total_tokens
total_tokens-append [] ds = omega arith
total_tokens-append (c ∷ cs) ds = omega (arith, total_tokens-append cs ds)

pub fill_total :
    (remaining used : ℕ) (cs : List ContextChunk)
    → (fill remaining used cs).2 ≡ used + total_tokens (fill remaining used cs).0
unfolding fill total_tokens
fill_total remaining used [] = omega arith
fill_total remaining used (c ∷ cs) =
    ground (arith, fill_total remaining used cs, fill_total remaining (used + c.token_estimate) cs)

pub fill_bound :
    (remaining used : ℕ) (cs : List ContextChunk)
    → used ≤ remaining
    → (fill remaining used cs).2 ≤ remaining
unfolding fill
fill_bound remaining used [] h = h
fill_bound remaining used (c ∷ cs) h =
    ground
      (arith, fill_bound remaining used cs h, fill_bound remaining (used + c.token_estimate) cs)

pub All-imp :
    (P Q : ContextChunk → Type 0) (cs : List ContextChunk)
    → ((c : ContextChunk) → P c → Q c)
    → All P cs
    → All Q cs
All-imp P Q [] f h = tt
All-imp P Q (c ∷ cs) f h = (f c h.0, All-imp P Q cs f h.1)

-- No excluded chunk would still fit.
pub fill_maximal :
    (remaining used : ℕ) (cs : List ContextChunk)
    → All
        (λ c. remaining < (fill remaining used cs).2 + c.token_estimate)
        (fill remaining used cs).1
unfolding fill
fill_maximal remaining used [] = tt
fill_maximal remaining used (c ∷ cs) = elim (Bool-cases (leb (used + c.token_estimate) remaining)) [
  | inl b ↦ rw b (fill_maximal remaining (used + c.token_estimate) cs)
  | inr b ↦ rw b (grows b, fill_maximal remaining used cs)
]
  where
    grows :
        leb (used + c.token_estimate) remaining ≡ false
        → remaining < (fill remaining used cs).2 + c.token_estimate
    grows b = ground (arith, fill_total remaining used cs)

module _ (P : ContextChunk → Type 0) where
  insert_sorted-All :
      (c : ContextChunk) (cs : List ContextChunk) → P c → All P cs → All P (insert_sorted c cs)
  unfolding insert_sorted
  insert_sorted-All c [] h k = (h, tt)
  insert_sorted-All c (d ∷ cs) h k = elim (Bool-cases (comes_before d c)) [
    | inl b ↦ rw b (k.0, insert_sorted-All c cs h k.1)
    | inr b ↦ rw b (h, k)
  ]

  pub sort-All : (cs : List ContextChunk) → All P cs → All P (sort cs)
  unfolding sort
  sort-All [] h = tt
  sort-All (c ∷ cs) h = insert_sorted-All c (sort cs) h.0 (sort-All cs h.1)

  pub fill-All :
      (remaining used : ℕ) (cs : List ContextChunk) → All P cs → All P (fill remaining used cs).1
  unfolding fill
  fill-All remaining used [] h = tt
  fill-All remaining used (c ∷ cs) h = elim (Bool-cases (leb (used + c.token_estimate) remaining)) [
    | inl b ↦ rw b (fill-All remaining (used + c.token_estimate) cs h.1)
    | inr b ↦ rw b (h.0, fill-All remaining used cs h.1)
  ]

pub optional-All :
    (cs : List ContextChunk)
    → All (λ c. is_mandatory c ≡ false) (filter (λ c. not (is_mandatory c)) cs)
optional-All [] = tt
optional-All (c ∷ cs) = elim (Bool-cases (is_mandatory c)) [
  | inl b ↦ rw b (optional-All cs)
  | inr b ↦ rw b (b, optional-All cs)
]
