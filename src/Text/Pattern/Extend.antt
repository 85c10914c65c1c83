-- ===== src/Text/Pattern/Extend.antt =====
-- A pattern that is found in a text is found in every longer text in which the text stands between
-- characters that are no word characters.
use mathlib.Core.List.{append-nil}
use text.Mathlib.TextLemmas.{nil-append, cons-append}
use Prim.Native.Char.{code}
use sun_pilot.Base.{
  ℕ, String, Bool, true, false, ◌||◌, ◌&&◌, Option, none, some, List, [], ◌∷◌, ◌++◌, ◌≡◌, ◌⊎◌, inl,
  inr, refl, ap, ◌∙◌, arith,
}
use sun_pilot.Text.{codes, append, join}
use sun_pilot.Text.Pattern.{
  Pattern, empty, boundary, space, letter, chr, spaces, maybe, either, seq, is_word_end, head_of,
  many_spaces, matches_then, search_from, test, is_word, is_letter, fold_case,
}

-- `k'` accepts with `t` behind what `k` accepts.
abbrev Extends : List ℕ → (Option ℕ → List ℕ → Bool) → (Option ℕ → List ℕ → Bool) → Type 0
Extends t k k' =
    (c c' : Option ℕ) (u : List ℕ)
    → is_word_end c ≡ is_word_end c'
    → k c u ≡ true
    → k' c' (u ++ t) ≡ true

-- No word character stands at the head.
abbrev IsOutside : List ℕ → Type 0
IsOutside t = is_word_end (head_of t) ≡ false

or_left : (a b : Bool) → a ≡ true → (a || b) ≡ true
or_left a b h = ground arith

or_right : (a b : Bool) → b ≡ true → (a || b) ≡ true
or_right a b h = ground arith

or_cases : (a b : Bool) → (a || b) ≡ true → (a ≡ true) ⊎ (b ≡ true)
or_cases a b h = ground arith

and_intro : (a b : Bool) → a ≡ true → b ≡ true → (a && b) ≡ true
and_intro a b h k = ground arith

and_parts : (a b : Bool) → (a && b) ≡ true → (a ≡ true) × (b ≡ true)
and_parts a b h = ground arith

many_spaces-append :
    (s t : List ℕ) (k k' : Option ℕ → List ℕ → Bool)
    → Extends t k k'
    → many_spaces s k ≡ true
    → many_spaces (s ++ t) k' ≡ true
unfolding many_spaces
many_spaces-append [] t k k' e h = cc
many_spaces-append (c ∷ s) t k k' e h =
    let (p, q) = and_parts _ _ h in
    and_intro _ _ p (elim (or_cases _ _ q) [
      | inl here ↦ or_left _ _ (e (some c) (some c) s refl here)
      | inr there ↦ or_right _ _ (many_spaces-append s t k k' e there)
    ])

matches_then-append :
    (p : Pattern) (b b' : Option ℕ) (s t : List ℕ) (k k' : Option ℕ → List ℕ → Bool)
    → IsOutside t
    → is_word_end b ≡ is_word_end b'
    → Extends t k k'
    → matches_then p b s k ≡ true
    → matches_then p b' (s ++ t) k' ≡ true
unfolding matches_then
matches_then-append empty b b' s t k k' o w e h = e b b' s w h
matches_then-append boundary b b' [] t k k' o w e h =
    let (p, q) = and_parts _ _ h in and_intro _ _ (rw (o, ← w) p) (e b b' [] w q)
matches_then-append boundary b b' (c ∷ s) t k k' o w e h =
    let (p, q) = and_parts _ _ h in and_intro _ _ (rw (← w) p) (e b b' (c ∷ s) w q)
matches_then-append space b b' [] t k k' o w e h = cc
matches_then-append space b b' (c ∷ s) t k k' o w e h =
    let (p, q) = and_parts _ _ h in and_intro _ _ p (e (some c) (some c) s refl q)
matches_then-append letter b b' [] t k k' o w e h = cc
matches_then-append letter b b' (c ∷ s) t k k' o w e h =
    let (p, q) = and_parts _ _ h in and_intro _ _ p (e (some c) (some c) s refl q)
matches_then-append (chr d) b b' [] t k k' o w e h = cc
matches_then-append (chr d) b b' (c ∷ s) t k k' o w e h =
    let (p, q) = and_parts _ _ h in and_intro _ _ p (e (some c) (some c) s refl q)
matches_then-append spaces b b' s t k k' o w e h = many_spaces-append s t k k' e h
matches_then-append (maybe p) b b' s t k k' o w e h = elim (or_cases _ _ h) [
  | inl with_p ↦ or_left _ _ (matches_then-append p b b' s t k k' o w e with_p)
  | inr without ↦ or_right _ _ (e b b' s w without)
]
matches_then-append (either p q) b b' s t k k' o w e h = elim (or_cases _ _ h) [
  | inl l ↦ or_left _ _ (matches_then-append p b b' s t k k' o w e l)
  | inr r ↦ or_right _ _ (matches_then-append q b b' s t k k' o w e r)
]
matches_then-append (seq p q) b b' s t k k' o w e h =
    matches_then-append p b b' s t (λ c u. matches_then q c u k) (λ c u. matches_then q c u k') o w
      (λ c c' u v g. matches_then-append q c c' u t k k' o v e g) h

abbrev any_rest : Option ℕ → List ℕ → Bool
any_rest c u = true

search_from-append :
    (p : Pattern) (b b' : Option ℕ) (s t : List ℕ)
    → IsOutside t
    → is_word_end b ≡ is_word_end b'
    → search_from p b s ≡ true
    → search_from p b' (s ++ t) ≡ true
unfolding search_from
search_from-append p b b' [] t o w h =
    at_start t (matches_then-append p b b' [] t any_rest any_rest o w (λ c c' u v g. refl) h)
  where
    at_start : (t : List ℕ) → matches_then p b' t any_rest ≡ true → search_from p b' t ≡ true
    at_start [] g = g
    at_start (d ∷ t) g = or_left _ _ g
search_from-append p b b' (c ∷ s) t o w h =
    elim (or_cases (matches_then p b (c ∷ s) any_rest) (search_from p (some c) s) h) [
      | inl here ↦
          or_left (matches_then p b' (c ∷ s ++ t) any_rest) (search_from p (some c) (s ++ t))
            (matches_then-append p b b' (c ∷ s) t any_rest any_rest o w (λ c c' u v g. refl) here)
      | inr there ↦
          or_right (matches_then p b' (c ∷ s ++ t) any_rest) (search_from p (some c) (s ++ t))
            (search_from-append p (some c) (some c) s t o refl there)
    ]

-- A text that is searched from its start may also stand behind a space.
search_from-behind :
    (p : Pattern) (b : Option ℕ) (u s : List ℕ)
    → search_from p none s ≡ true
    → search_from p b (u ++ 32 ∷ s) ≡ true
unfolding search_from is_word is_letter fold_case
search_from-behind p b [] s h = or_right _ _ (rw append-nil at after_space)
  where
    after_space : search_from p (some 32) (s ++ []) ≡ true
    after_space = search_from-append p none (some 32) s [] refl refl h
search_from-behind p b (c ∷ u) s h = or_right _ _ (search_from-behind p (some c) u s h)

codes-append : (s t : String) → codes (append s t) ≡ codes s ++ codes t
codes-append String.[] t = ap codes (nil-append t)
codes-append (String.◌∷◌ c s) t =
    ap codes (cons-append c s t) ∙ ap (λ (u : List ℕ). code c ∷ u) (codes-append s t)

-- The text is one of the list.
abbrev pub IsIn : String → List String → Type 0
IsIn s [] = ⊥
IsIn s (t ∷ ts) = (s ≡ t) ⊎ IsIn s ts

joined :
    (s t : String) (ts : List String)
    → codes (join " " (s ∷ t ∷ ts)) ≡ codes s ++ 32 ∷ codes (join " " (t ∷ ts))
unfolding join
joined s t ts = codes-append s _ ∙ ap (◌++◌ (codes s)) (codes-append " " (join " " (t ∷ ts)))

-- A pattern that one of the texts matches is found in the texts joined by spaces.
pub test-join :
    (p : Pattern) (s : String) (ss : List String)
    → IsIn s ss
    → test p (codes s) ≡ true
    → test p (codes (join " " ss)) ≡ true
unfolding test is_word is_letter fold_case
test-join p s [] i h = absurd i
test-join p s (t ∷ []) (inl e) h = rw (← e) (unfold join in h)
test-join p s (t ∷ []) (inr i) h = absurd i
test-join p s (t ∷ u ∷ ss) (inl e) h =
    rw (joined t u ss, ← e)
      (search_from-append p none none (codes s) (32 ∷ codes (join " " (u ∷ ss))) refl refl h)
test-join p s (t ∷ u ∷ ss) (inr i) h =
    rw (joined t u ss)
      (search_from-behind p none (codes t) (codes (join " " (u ∷ ss))) (test-join p s (u ∷ ss) i h))
