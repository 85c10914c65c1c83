-- ===== src/Text/Trim.antt =====
-- `String.prototype.trim`.
use sun_pilot.Base.{ℕ, Bool, List, [], ◌∷◌, all, if◌then◌else◌}
use sun_pilot.Text.Pattern.{is_space}

-- Whether the trimmed text is empty.
unfoldable pub is_blank_text : List ℕ → Bool
is_blank_text text = all is_space text

trim_start : List ℕ → List ℕ
trim_start [] = []
trim_start (c ∷ s) = let rest = trim_start s in if is_space c then rest else c ∷ s

-- The text without the spaces at its end.
trim_end : List ℕ → List ℕ
unfolding is_blank_text
trim_end [] = []
trim_end (c ∷ s) = let rest = trim_end s in if is_blank_text (c ∷ s) then [] else c ∷ rest

unfoldable pub trim : List ℕ → List ℕ
unfolding trim_start trim_end
trim s = trim_end (trim_start s)
