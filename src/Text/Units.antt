-- ===== src/Text/Units.antt =====
-- A JavaScript string as the list of its UTF-16 units, which its methods count.
use sun_pilot.Base.{ℕ, ◌+◌, ◌-◌, ◌/◌, ◌%◌, String, List, [], ◌∷◌, ltb, if◌then◌else◌}
use sun_pilot.Text.{codes}

-- A code point above 65535 is a surrogate pair.
unfoldable pub utf16 : List ℕ → List ℕ
utf16 [] = []
utf16 (c ∷ s) =
    let rest = utf16 s in
    if ltb c 65536
    then c ∷ rest
    else (55296 + (c - 65536) / 1024) ∷ (56320 + (c - 65536) % 1024) ∷ rest

unfoldable pub units : String → List ℕ
unfolding utf16
units s = utf16 (codes s)
