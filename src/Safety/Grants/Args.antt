-- ===== src/Safety/Grants/Args.antt =====
-- `argsMatch` compares two argument records key by key.
use sun_pilot.Base.{
  ℕ, String, Bool, true, false, ◌||◌, none, List, [], ◌∷◌, ◌≡◌, refl, ap, arith, ◌===◌, eq_iff, any,
  all, Bool-cases, inl, inr, ◌∙◌, sym, ===_refl, Option, some,
}
use sun_pilot.Json.Print.{stringify}
use sun_pilot.Json.{Json, Fields, end, field, get_field, keys}
use sun_pilot.Safety.Grants.{same_text, same_codes, insert_sorted, sort, same_keys, args_match}

-- The two records have the same keys, and under each the same JSON text.
abbrev pub SameArgs : Fields → Fields → Type 0
SameArgs a b = (k : String) → same_text (get_field k a) (get_field k b) ≡ true

abbrev has : String → List String → Bool
has k ss = any (λ j. j === k) ss

has-insert_sorted :
    (k s : String) (ts : List String) → has k (insert_sorted s ts) ≡ ((s === k) || has k ts)
unfolding insert_sorted
has-insert_sorted k s [] = refl
has-insert_sorted k s (t ∷ ts) = ground (arith, has-insert_sorted k s ts)

has-sort : (k : String) (ss : List String) → has k (sort ss) ≡ has k ss
unfolding sort
has-sort k [] = refl
has-sort k (s ∷ ss) = ground (arith, has-insert_sorted k s (sort ss), has-sort k ss)

same_keys-eq : (ss ts : List String) → same_keys ss ts ≡ true → ss ≡ ts
unfolding same_keys
same_keys-eq [] [] h = refl
same_keys-eq [] (t ∷ ts) h = cc
same_keys-eq (s ∷ ss) [] h = cc
same_keys-eq (s ∷ ss) (t ∷ ts) h = ground (arith, eq_iff s t, same_keys-eq ss ts)

all-has :
    (p : String → Bool) (ss : List String) (k : String)
    → all p ss ≡ true
    → has k ss ≡ true
    → p k ≡ true
all-has p [] k h i = cc
all-has p (s ∷ ss) k h i = ground (arith, eq_iff s k, all-has p ss k)

get_field-absent : (k : String) (fs : Fields) → has k (keys fs) ≡ false → get_field k fs ≡ none
unfolding get_field
get_field-absent k end h = refl
get_field-absent k (field j v fs) h = ground (arith, get_field-absent k fs)

-- Arguments that match have the same keys, and under each key the same JSON text.
pub args_match-SameArgs : (a b : Fields) → args_match a b ≡ true → SameArgs a b
unfolding args_match
args_match-SameArgs a b h k = elim (Bool-cases (has k (keys a))) [
  | inl there ↦ all-has _ (sort (keys a)) k values (has-sort k (keys a) ∙ there)
  | inr absent ↦
      rw
        (
          get_field-absent k a absent,
          get_field-absent k b
              (sym (has-sort k (keys b)) ∙ ap (has k) (sym same) ∙ has-sort k (keys a) ∙ absent),
        )
        refl
]
  where
    same : sort (keys a) ≡ sort (keys b)
    same = same_keys-eq (sort (keys a)) (sort (keys b)) (ground arith)

    values : all (λ j. same_text (get_field j a) (get_field j b)) (sort (keys a)) ≡ true
    values = ground arith

same_keys_refl : (ss : List String) → same_keys ss ss ≡ true
unfolding same_keys
same_keys_refl [] = refl
same_keys_refl (s ∷ ss) = ground (arith, ===_refl s, same_keys_refl ss)

same_codes_refl : (s : List ℕ) → same_codes s s ≡ true
same_codes_refl [] = refl
same_codes_refl (c ∷ s) = ground (arith, same_codes_refl s)

same_text_refl : (v : Option Json) → same_text v v ≡ true
same_text_refl none = refl
same_text_refl (some v) = same_codes_refl (stringify v)

all-same_text :
    (a : Fields) (ks : List String) → all (λ k. same_text (get_field k a) (get_field k a)) ks ≡ true
all-same_text a [] = refl
all-same_text a (k ∷ ks) = ground (arith, same_text_refl (get_field k a), all-same_text a ks)

pub args_match_refl : (a : Fields) → args_match a a ≡ true
unfolding args_match
args_match_refl a = ground (arith, same_keys_refl (sort (keys a)), all-same_text a (sort (keys a)))
