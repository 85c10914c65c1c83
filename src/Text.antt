-- ===== src/Text.antt =====
-- The string methods that the source calls, over the code points of a text.
pub mod Pattern
pub mod Units
pub mod Trim
use Prim.Native.Char.{code}
use Prim.Native.String
use Prim.Native.String.{String}
use sun_pilot.Base.{
  ℕ, zero, suc, Bool, true, false, ◌&&◌, ◌||◌, Option, none, some, List, [], ◌∷◌, ◌==◌,
  if◌then◌else◌,
}

abbrev pub codes : String → List ℕ
codes String.[] = []
codes (String.◌∷◌ c s) = code c ∷ codes s

-- `a + b` of two strings.
abbrev pub append : String → String → String
append s t = String.◌++◌ s t

-- `parts.join(separator)`
unfoldable pub join : String → List String → String
join separator [] = ""
join separator (s ∷ []) = s
join separator (s ∷ t ∷ ss) = append s (append separator (join separator (t ∷ ss)))

unfoldable pub starts_with : List ℕ → List ℕ → Bool
starts_with s [] = true
starts_with [] (c ∷ prefix) = false
starts_with (d ∷ s) (c ∷ prefix) = d == c && starts_with s prefix

-- `s.includes(part)`
unfoldable pub contains : List ℕ → List ℕ → Bool
unfolding starts_with
contains [] part = starts_with [] part
contains (c ∷ s) part = starts_with (c ∷ s) part || contains s part

-- `s.slice(s.lastIndexOf(c) + 1)`, or `none` where `c` does not occur.
unfoldable pub after_last : ℕ → List ℕ → Option (List ℕ)
after_last c [] = none
after_last c (d ∷ s) = elim (after_last c s) [
  | some rest ↦ some rest
  | none ↦ if d == c then some s else none
]
