-- ===== src/Context/Budget/Order.antt =====
-- The sort of the optional chunks, and the split into mandatory and optional ones.
use mathlib.Core.List.{Perm, perm_middle}
use mathlib.Core.List.Perm
use sun_pilot.Base.{
  leb, All, ◌<◌, ◌≤◌, ◌⊎◌, ℕ, Bool, true, false, not, List, [], ◌∷◌, ◌++◌, ◌≡◌, arith, Bool-cases,
  inl, inr, filter, ◌+◌,
}
use sun_pilot.Context.Chunk.{ContextChunk, trim_priority}
use sun_pilot.Context.Budget.{insert_sorted, sort, comes_before, fill}

insert_sorted-perm :
    (c : ContextChunk) (cs : List ContextChunk) → Perm (insert_sorted c cs) (c ∷ cs)
unfolding insert_sorted
insert_sorted-perm c [] = Perm.refl (c ∷ [])
insert_sorted-perm c (d ∷ cs) = elim (Bool-cases (comes_before d c)) [
  | inl b ↦ rw b (Perm.trans (Perm.cons d (insert_sorted-perm c cs)) (Perm.swap c d cs))
  | inr b ↦ rw b (Perm.refl (c ∷ d ∷ cs))
]

pub sort-perm : (cs : List ContextChunk) → Perm (sort cs) cs
unfolding sort
sort-perm [] = Perm.nil
sort-perm (c ∷ cs) = Perm.trans (insert_sorted-perm c (sort cs)) (Perm.cons c (sort-perm cs))

pub filter-perm :
    (p : ContextChunk → Bool) (cs : List ContextChunk)
    → Perm (filter p cs ++ filter (λ c. not (p c)) cs) cs
filter-perm p [] = Perm.nil
filter-perm p (c ∷ cs) = elim (Bool-cases (p c)) [
  | inl b ↦ rw b (Perm.cons c (filter-perm p cs))
  | inr b ↦ rw b (Perm.trans (perm_middle (filter p cs) _) (Perm.cons c (filter-perm p cs)))
]

pub fill-perm :
    (remaining used : ℕ) (cs : List ContextChunk)
    → Perm ((fill remaining used cs).0 ++ (fill remaining used cs).1) cs
unfolding fill
fill-perm remaining used [] = Perm.nil
fill-perm remaining used (c ∷ cs) = elim (Bool-cases (leb (used + c.token_estimate) remaining)) [
  | inl b ↦ rw b (Perm.cons c (fill-perm remaining (used + c.token_estimate) cs))
  | inr b ↦ rw b (
      Perm.trans (perm_middle (fill remaining used cs).0 (fill remaining used cs).1)
        (Perm.cons c (fill-perm remaining used cs)))
]

-- The higher trim priority stands first, and of equal ones the lower priority number.
abbrev pub InOrder : ContextChunk → ContextChunk → Type 0
InOrder a b =
    (trim_priority b.source < trim_priority a.source)
    ⊎ (trim_priority b.source ≡ trim_priority a.source) × (a.priority ≤ b.priority)

InOrder-trans : (a b c : ContextChunk) → InOrder a b → InOrder b c → InOrder a c
InOrder-trans a b c h k = omega arith

comes_before-InOrder :
    (d c : ContextChunk)
    → (comes_before d c ≡ true → InOrder d c) × (comes_before d c ≡ false → InOrder c d)
unfolding comes_before
comes_before-InOrder d c = ground arith

abbrev pub IsSorted : List ContextChunk → Type 0
IsSorted [] = Unit
IsSorted (c ∷ cs) = All (InOrder c) cs × IsSorted cs

All-InOrder-trans :
    (a b : ContextChunk) (cs : List ContextChunk)
    → InOrder a b
    → All (InOrder b) cs
    → All (InOrder a) cs
All-InOrder-trans a b [] h k = tt
All-InOrder-trans a b (c ∷ cs) h k = (InOrder-trans a b c h k.0, All-InOrder-trans a b cs h k.1)

insert_sorted-All :
    (a c : ContextChunk) (cs : List ContextChunk)
    → InOrder a c
    → All (InOrder a) cs
    → All (InOrder a) (insert_sorted c cs)
unfolding insert_sorted
insert_sorted-All a c [] h k = (h, tt)
insert_sorted-All a c (d ∷ cs) h k = elim (Bool-cases (comes_before d c)) [
  | inl b ↦ rw b (k.0, insert_sorted-All a c cs h k.1)
  | inr b ↦ rw b (h, k)
]

insert_sorted-IsSorted :
    (c : ContextChunk) (cs : List ContextChunk) → IsSorted cs → IsSorted (insert_sorted c cs)
unfolding insert_sorted
insert_sorted-IsSorted c [] s = (tt, tt)
insert_sorted-IsSorted c (d ∷ cs) s = elim (Bool-cases (comes_before d c)) [
  | inl b ↦ rw b (
    insert_sorted-All d c cs ((comes_before-InOrder d c).0 b) s.0,
    insert_sorted-IsSorted c cs s.1,
  )
  | inr b ↦ let o = (comes_before-InOrder d c).1 b in rw b ((o, All-InOrder-trans c d cs o s.0), s)
]

pub sort-IsSorted : (cs : List ContextChunk) → IsSorted (sort cs)
unfolding sort
sort-IsSorted [] = tt
sort-IsSorted (c ∷ cs) = insert_sorted-IsSorted c (sort cs) (sort-IsSorted cs)
