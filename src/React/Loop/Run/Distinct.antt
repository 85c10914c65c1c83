-- ===== src/React/Loop/Run/Distinct.antt =====
-- Counting the ids that were approved: distinct ids that a map holds are no more than its entries.
use sun_pilot.Base.{
  suc, ◌≤◌, String, some, List, [], ◌∷◌, ◌≡◌, ◌⊎◌, inl, inr, refl, sym, ◌∙◌, ap, arith, ◌===◌,
  ===_refl, eq_iff, All, Any, map, length, Dict, lookup, insert, lookup-insert, Bool-cases,
}
use sun_pilot.React.Loop.Run.{ApprovedTool, set_approved}

abbrev pub AreDistinct : List String → Type 0
AreDistinct [] = Unit
AreDistinct (x ∷ xs) = All (λ y. ¬ (x ≡ y)) xs × AreDistinct xs

abbrev pub Holds : String → List String → Type 0
Holds id = Any (λ k. k ≡ id)

without : (id : String) (ks : List String) → Holds id ks → List String
without id [] h = absurd h
without id (k ∷ ks) (inl e) = ks
without id (k ∷ ks) (inr h) = k ∷ without id ks h

length-without :
    (id : String) (ks : List String) (h : Holds id ks) → suc (length (without id ks h)) ≡ length ks
unfolding without
length-without id [] h = absurd h
length-without id (k ∷ ks) (inl e) = refl
length-without id (k ∷ ks) (inr h) = ap suc (length-without id ks h)

Holds-without :
    (id other : String) (ks : List String) (h : Holds id ks)
    → ¬ (id ≡ other)
    → Holds other ks
    → Holds other (without id ks h)
unfolding without
Holds-without id other [] h apart o = absurd h
Holds-without id other (k ∷ ks) (inl e) apart (inl o) = absurd (apart (sym e ∙ o))
Holds-without id other (k ∷ ks) (inl e) apart (inr o) = o
Holds-without id other (k ∷ ks) (inr h) apart (inl o) = inl o
Holds-without id other (k ∷ ks) (inr h) apart (inr o) = inr (Holds-without id other ks h apart o)

pub distinct_le :
    (ids ks : List String) → AreDistinct ids → All (λ id. Holds id ks) ids → length ids ≤ length ks
distinct_le [] ks d h = omega arith
distinct_le (id ∷ ids) ks d h =
    omega
      (arith, length-without id ks h.0, distinct_le ids (without id ks h.0) d.1 (kept ids d.0 h.1))
  where
    kept :
        (others : List String)
        → All (λ y. ¬ (id ≡ y)) others
        → All (λ y. Holds y ks) others
        → All (λ y. Holds y (without id ks h.0)) others
    kept [] a b = tt
    kept (y ∷ ys) a b = (Holds-without id y ks h.0 a.0 b.0, kept ys a.1 b.1)

abbrev pub keys_of : Dict ApprovedTool → List String
keys_of d = map (λ e. e.0) d

pub length-keys_of : (d : Dict ApprovedTool) → length (keys_of d) ≡ length d
length-keys_of [] = refl
length-keys_of (e ∷ d) = ap suc (length-keys_of d)

pub lookup-Holds :
    (id : String) (t : ApprovedTool) (d : Dict ApprovedTool)
    → lookup id d ≡ some t
    → Holds id (keys_of d)
unfolding lookup
lookup-Holds id t [] h = cc
lookup-Holds id t ((k, v) ∷ d) h = elim (Bool-cases (k === id)) [
  | inl same ↦ inl ((eq_iff k id).0 same)
  | inr other ↦ inr (lookup-Holds id t d (rw other at h))
]

abbrev pub IsFound : String → Dict ApprovedTool → Type 0
IsFound id d = (t : ApprovedTool) × (lookup id d ≡ some t)

-- What was approved under an id is found under it.
pub approved-IsFound :
    (id : String) (d : Dict ApprovedTool) (ts : List ApprovedTool)
    → IsFound id d ⊎ Any (λ u. u.tool_call_id ≡ id) ts
    → IsFound id (set_approved d ts)
unfolding set_approved
approved-IsFound id d [] (inl f) = f
approved-IsFound id d [] (inr m) = absurd m
approved-IsFound id d (u ∷ ts) (inr (inr m)) =
    approved-IsFound id (insert u.tool_call_id u d) ts (inr m)
approved-IsFound id d (u ∷ ts) (inr (inl e)) =
    approved-IsFound id (insert u.tool_call_id u d) ts
      (inl (u, lookup-insert u.tool_call_id id u d ∙ rw (e, ===_refl id) refl))
approved-IsFound id d (u ∷ ts) (inl (t, f)) = elim (Bool-cases (u.tool_call_id === id)) [
  | inl same ↦
      approved-IsFound id (insert u.tool_call_id u d) ts
        (inl (u, lookup-insert u.tool_call_id id u d ∙ rw same refl))
  | inr other ↦
      approved-IsFound id (insert u.tool_call_id u d) ts
        (inl (t, lookup-insert u.tool_call_id id u d ∙ rw other f))
]
