-- ===== src/Safety/Risk/Env.antt =====
-- Where the pattern for `.env` files matches.
use sun_pilot.Base.{
  ℕ, Bool, true, false, Option, none, some, List, [], ◌∷◌, ◌≡◌, refl, arith, ◌==◌, ◌&&◌, ◌≢◌, ◌⊎◌,
  inl, inr,
}
use sun_pilot.Text.Pattern.{
  matches_then, search_from, test, is_word, is_letter, fold_case, is_word_end, differ,
}
use sun_pilot.Safety.Risk.{env_pattern}

-- No dot stands directly behind a word character.
abbrev pub DotsApart : Option ℕ → List ℕ → Type 0
DotsApart before [] = Unit
DotsApart before (c ∷ s) = ((c ≢ b'.') ⊎ (is_word_end before ≡ false)) × DotsApart (some c) s

folded_dot : (c : ℕ) → (fold_case c == fold_case b'.') ≡ true → c ≡ b'.'
unfolding fold_case
folded_dot c h = ground arith

dot_is_no_word : is_word b'.' ≡ false
unfolding is_word is_letter fold_case
dot_is_no_word = refl

and_false : (a b x : Bool) → (b ≡ true → a ≡ false) → (a && (b && x)) ≡ false
and_false a b x h = ground arith

unless_dot :
    (before : Option ℕ) (c : ℕ)
    → (c ≢ b'.') ⊎ (is_word_end before ≡ false)
    → c ≡ b'.'
    → is_word_end before ≡ false
unless_dot before c (inl n) e = absurd (n e)
unless_dot before c (inr h) e = h

env_not_here :
    (before : Option ℕ) (s : List ℕ) (k : Option ℕ → List ℕ → Bool)
    → DotsApart before s
    → matches_then env_pattern before s k ≡ false
unfolding matches_then
env_not_here before [] k h = ground arith
env_not_here before (c ∷ s) k h =
    and_false (differ (is_word_end before) (is_word c)) (fold_case c == fold_case b'.') _ at_dot
  where
    at_dot :
        (fold_case c == fold_case b'.') ≡ true → differ (is_word_end before) (is_word c) ≡ false
    at_dot e = rw (folded_dot c e, dot_is_no_word, unless_dot before c h.0 (folded_dot c e))

abbrev any_rest : Option ℕ → List ℕ → Bool
any_rest c u = true

env_not_found :
    (before : Option ℕ) (s : List ℕ) → DotsApart before s → search_from env_pattern before s ≡ false
unfolding search_from
env_not_found before [] h = env_not_here before [] any_rest h
env_not_found before (c ∷ s) h =
    rw (env_not_here before (c ∷ s) any_rest h) (env_not_found (some c) s h.1)

-- The pattern for `.env` matches no text in which every dot stands at the start or directly behind a
-- character that is no word character.
pub env_pattern_blind : (s : List ℕ) → DotsApart none s → test env_pattern s ≡ false
unfolding test
env_pattern_blind s h = env_not_found none s h
