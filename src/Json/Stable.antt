-- ===== src/Json/Stable.antt =====
-- `stableStringify` of react-loop/tool-call-guard.ts: `JSON.stringify` with the keys of every object
-- sorted. `precedes a b` is `a.localeCompare(b) < 0`, which depends on the locale of the process.
use sun_pilot.Base.{String, Bool, List, [], ◌∷◌, ◌++◌, if◌then◌else◌}
use sun_pilot.Json.{Json, null, bool, num, str, arr, obj, Items, nil, cons, Fields, end, field}
use sun_pilot.Json.Print.{stringify, quoted}
use sun_pilot.Base.{ℕ}

-- A stable insertion, as `Array.prototype.sort` is stable.
insert_entry :
    (String → String → Bool) → String × List ℕ → List (String × List ℕ) → List (String × List ℕ)
insert_entry precedes e [] = e ∷ []
insert_entry precedes e (d ∷ ds) =
    if precedes d.0 e.0 then d ∷ insert_entry precedes e ds else e ∷ d ∷ ds

sort_entries : (String → String → Bool) → List (String × List ℕ) → List (String × List ℕ)
unfolding insert_entry
sort_entries precedes [] = []
sort_entries precedes (e ∷ es) = insert_entry precedes e (sort_entries precedes es)

abbrev entry_text : String × List ℕ → List ℕ
entry_text e = quoted e.0 ++ b':' ∷ e.1

more_entries : List (String × List ℕ) → List ℕ
more_entries [] = b'}' ∷ []
more_entries (e ∷ es) = b',' ∷ (entry_text e ++ more_entries es)

render : List (String × List ℕ) → List ℕ
unfolding more_entries
render [] = b'{' ∷ b'}' ∷ []
render (e ∷ es) = b'{' ∷ (entry_text e ++ more_entries es)

unfoldable mutual
  unfolding render sort_entries

  pub stable_stringify : (String → String → Bool) → Json → List ℕ
  stable_stringify precedes null = stringify null
  stable_stringify precedes (bool b) = stringify (bool b)
  stable_stringify precedes (num n) = stringify (num n)
  stable_stringify precedes (str s) = stringify (str s)
  stable_stringify precedes (arr xs) = b'[' ∷ stable_items precedes xs
  stable_stringify precedes (obj fs) = render (sort_entries precedes (stable_entries precedes fs))

  pub stable_items : (String → String → Bool) → Items → List ℕ
  stable_items precedes nil = b']' ∷ []
  stable_items precedes (cons x xs) = stable_stringify precedes x ++ stable_more precedes xs

  pub stable_more : (String → String → Bool) → Items → List ℕ
  stable_more precedes nil = b']' ∷ []
  stable_more precedes (cons x xs) = b',' ∷ (stable_stringify precedes x ++ stable_more precedes xs)

  pub stable_entries : (String → String → Bool) → Fields → List (String × List ℕ)
  stable_entries precedes end = []
  stable_entries precedes (field k v fs) =
      (k, stable_stringify precedes v) ∷ stable_entries precedes fs
