-- ===== src/Text/Pattern.antt =====
-- Regular expressions with the flag `i`, as far as the source's patterns use them: literals, classes,
-- `\s+`, `?`, alternatives and word boundaries, tried at every position of a text.
pub mod Extend
use sun_pilot.Base.{
  ℕ, ◌+◌, Bool, true, false, not, ◌&&◌, ◌||◌, Option, none, some, List, [], ◌∷◌, ◌==◌, leb, any,
  if◌then◌else◌,
}

pub data Pattern : Type 0 where
  empty boundary space letter : Pattern
  chr : ℕ → Pattern
  spaces : Pattern
  maybe : Pattern → Pattern
  either : Pattern → Pattern → Pattern
  seq : Pattern → Pattern → Pattern

-- Case is folded as the flag `i` folds it on ASCII.
unfoldable pub fold_case : ℕ → ℕ
fold_case c = if leb 65 c && leb c 90 then c + 32 else c

unfoldable pub is_letter : ℕ → Bool
unfolding fold_case
is_letter c = leb 97 (fold_case c) && leb (fold_case c) 122

-- `\w`
unfoldable pub is_word : ℕ → Bool
unfolding is_letter
is_word c = is_letter c || (leb 48 c && leb c 57) || c == 95

-- `\s`
unfoldable pub is_space : ℕ → Bool
is_space c =
    (leb 9 c && leb c 13)
    || (leb 8192 c && leb c 8202)
    || any (λ d. c == d) (32 ∷ 160 ∷ 5760 ∷ 8232 ∷ 8233 ∷ 8239 ∷ 8287 ∷ 12288 ∷ 65279 ∷ [])

abbrev pub is_word_end : Option ℕ → Bool
is_word_end none = false
is_word_end (some c) = is_word c

abbrev pub head_of : List ℕ → Option ℕ
head_of [] = none
head_of (c ∷ s) = some c

abbrev pub differ : Bool → Bool → Bool
differ true b = not b
differ false b = b

abbrev one : (ℕ → Bool) → List ℕ → (Option ℕ → List ℕ → Bool) → Bool
one p [] k = false
one p (c ∷ s) k = p c && k (some c) s

-- `\s+`
many_spaces : List ℕ → (Option ℕ → List ℕ → Bool) → Bool
unfolding is_space
many_spaces [] k = false
many_spaces (c ∷ s) k = is_space c && (k (some c) s || many_spaces s k)

-- Matches at the text `s` with `before` the character in front of it; `k` matches the rest.
unfoldable pub matches_then : Pattern → Option ℕ → List ℕ → (Option ℕ → List ℕ → Bool) → Bool
unfolding many_spaces
matches_then empty before s k = k before s
matches_then boundary before s k =
    differ (is_word_end before) (is_word_end (head_of s)) && k before s
matches_then space before s k = one is_space s k
matches_then letter before s k = one is_letter s k
matches_then (chr c) before s k = one (λ d. fold_case d == fold_case c) s k
matches_then spaces before s k = many_spaces s k
matches_then (maybe p) before s k = matches_then p before s k || k before s
matches_then (either p q) before s k = matches_then p before s k || matches_then q before s k
matches_then (seq p q) before s k = matches_then p before s (λ b t. matches_then q b t k)

unfoldable pub search_from : Pattern → Option ℕ → List ℕ → Bool
unfolding matches_then
search_from p before [] = matches_then p before [] (λ b t. true)
search_from p before (c ∷ s) =
    matches_then p before (c ∷ s) (λ b t. true) || search_from p (some c) s

-- `pattern.test(s)`
unfoldable pub test : Pattern → List ℕ → Bool
unfolding search_from
test p s = search_from p none s

infixr 60 ◌⋅◌
abbrev pub ◌⋅◌ : Pattern → Pattern → Pattern
p ⋅ q = seq p q

abbrev pub word : List ℕ → Pattern
word [] = empty
word (c ∷ s) = seq (chr c) (word s)
