-- ===== src/React/Counts.antt =====
-- The map `seenSignatures`: how often each signature was attempted. A missing entry counts 0.
use sun_pilot.Base.{ℕ, ◌-◌, true, List, [], ◌∷◌, ◌≡◌, refl, arith, if◌then◌else◌, leb}
use sun_pilot.Safety.Grants.{same_codes}

abbrev pub Counts : Type 0
Counts = List (List ℕ × ℕ)

-- `counts.get(signature) ?? 0`
unfoldable pub count_of : List ℕ → Counts → ℕ
count_of s [] = 0
count_of s ((t, n) ∷ m) = if same_codes t s then n else count_of s m

-- `counts.set(signature, n)`
unfoldable pub set_count : List ℕ → ℕ → Counts → Counts
set_count s n [] = (s, n) ∷ []
set_count s n ((t, k) ∷ m) = if same_codes t s then (t, n) ∷ m else (t, k) ∷ set_count s n m

-- `counts.delete(signature)`
unfoldable pub delete_count : List ℕ → Counts → Counts
delete_count s [] = []
delete_count s ((t, k) ∷ m) = if same_codes t s then delete_count s m else (t, k) ∷ delete_count s m

unfoldable pub decrement_signature : List ℕ → Counts → Counts
decrement_signature s m =
    if leb (count_of s m) 1 then delete_count s m else set_count s (count_of s m - 1) m

pub same_codes-eq : (s t : List ℕ) → same_codes s t ≡ true → s ≡ t
same_codes-eq [] [] h = refl
same_codes-eq [] (d ∷ t) h = cc
same_codes-eq (c ∷ s) [] h = cc
same_codes-eq (c ∷ s) (d ∷ t) h = ground (arith, same_codes-eq s t)

pub same_codes_self : (s : List ℕ) → same_codes s s ≡ true
same_codes_self [] = refl
same_codes_self (c ∷ s) = ground (arith, same_codes_self s)

pub count_of-set_count :
    (s r : List ℕ) (n : ℕ) (m : Counts)
    → count_of r (set_count s n m) ≡ (if same_codes s r then n else count_of r m)
unfolding count_of set_count
count_of-set_count s r n [] = refl
count_of-set_count s r n ((t, k) ∷ m) = ground (
  arith,
  same_codes-eq t s,
  same_codes-eq t r,
  same_codes-eq s r,
  same_codes_self s,
  same_codes_self t,
  count_of-set_count s r n m,
)

pub count_of-delete_count :
    (s r : List ℕ) (m : Counts)
    → count_of r (delete_count s m) ≡ (if same_codes s r then 0 else count_of r m)
unfolding count_of delete_count
count_of-delete_count s r [] = ground arith
count_of-delete_count s r ((t, k) ∷ m) = ground (
  arith,
  same_codes-eq t s,
  same_codes-eq t r,
  same_codes-eq s r,
  same_codes_self s,
  same_codes_self t,
  count_of-delete_count s r m,
)

-- One attempt less for the signature, and no change for the others.
pub count_of-decrement_signature :
    (s r : List ℕ) (m : Counts)
    → count_of r (decrement_signature s m)
      ≡ (if same_codes s r then count_of s m - 1 else count_of r m)
unfolding decrement_signature
count_of-decrement_signature s r m =
    ground (arith, count_of-set_count s r (count_of s m - 1) m, count_of-delete_count s r m)
