-- ===== src/Json/Print.antt =====
-- `JSON.stringify`, as the code points of the text.
use sun_pilot.Base.{
  ℕ, zero, suc, ◌+◌, ◌/◌, ◌%◌, String, true, false, List, [], ◌∷◌, ◌++◌, ltb, ◌==◌, if◌then◌else◌,
}
use sun_pilot.Json.{Json, null, bool, num, str, arr, obj, Items, nil, cons, Fields, end, field}
use sun_pilot.Text.{codes}

-- The digits of `n` in front of `acc`; a number has at most as many digits as the fuel `n + 1`.
digits_onto : ℕ → ℕ → List ℕ → List ℕ
digits_onto zero n acc = acc
digits_onto (suc f) n acc =
    let more = digits_onto f (n / 10) ((48 + n % 10) ∷ acc) in
    if ltb n 10 then (48 + n) ∷ acc else more

unfoldable pub decimal : ℕ → List ℕ
unfolding digits_onto
decimal n = digits_onto (suc n) n []

hex_digit : ℕ → ℕ
hex_digit d = if ltb d 10 then 48 + d else 87 + d

-- One character of a quoted text.
escaped : ℕ → List ℕ
unfolding hex_digit
escaped c =
    if c == 34
    then 92 ∷ 34 ∷ []
    else (if c == 92
        then 92 ∷ 92 ∷ []
        else (if c == 8
            then 92 ∷ 98 ∷ []
            else (if c == 9
                then 92 ∷ 116 ∷ []
                else (if c == 10
                    then 92 ∷ 110 ∷ []
                    else (if c == 12
                        then 92 ∷ 102 ∷ []
                        else (if c == 13
                            then 92 ∷ 114 ∷ []
                            else (if ltb c 32
                                then 92
                                  ∷ 117
                                  ∷ 48
                                  ∷ 48
                                  ∷ hex_digit (c / 16)
                                  ∷ hex_digit (c % 16)
                                  ∷ []
                                else c ∷ [])))))))

escaped_all : List ℕ → List ℕ
unfolding escaped
escaped_all [] = []
escaped_all (c ∷ s) = escaped c ++ escaped_all s

unfoldable pub quoted : String → List ℕ
unfolding escaped_all
quoted s = 34 ∷ (escaped_all (codes s) ++ 34 ∷ [])

unfoldable mutual
  unfolding decimal quoted

  pub stringify : Json → List ℕ
  stringify null = codes "null"
  stringify (bool true) = codes "true"
  stringify (bool false) = codes "false"
  stringify (num n) = decimal n
  stringify (str s) = quoted s
  stringify (arr xs) = b'[' ∷ stringify_items xs
  stringify (obj fs) = b'{' ∷ stringify_fields fs

  pub stringify_items : Items → List ℕ
  stringify_items nil = b']' ∷ []
  stringify_items (cons x xs) = stringify x ++ stringify_more xs

  pub stringify_more : Items → List ℕ
  stringify_more nil = b']' ∷ []
  stringify_more (cons x xs) = b',' ∷ (stringify x ++ stringify_more xs)

  pub stringify_fields : Fields → List ℕ
  stringify_fields end = b'}' ∷ []
  stringify_fields (field k v fs) = quoted k ++ b':' ∷ (stringify v ++ stringify_rest fs)

  pub stringify_rest : Fields → List ℕ
  stringify_rest end = b'}' ∷ []
  stringify_rest (field k v fs) = b',' ∷ (quoted k ++ b':' ∷ (stringify v ++ stringify_rest fs))
