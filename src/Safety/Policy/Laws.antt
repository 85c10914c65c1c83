-- ===== src/Safety/Policy/Laws.antt =====
-- What the permission policy decides.
use sun_pilot.Base.{
  ◌||◌, none, ◌≢◌, ℕ, Bool, true, false, some, List, [], ◌∷◌, ◌≡◌, arith, ◌≤◌, any, String, ◌≢◌,
}
use sun_pilot.Run.State.{PermissionMode, ask, auto, full, or_else}
use sun_pilot.Safety.Types.{RiskLevel, low, medium, high, critical, Permission, PermissionDecision}
use sun_pilot.Safety.Risk.{
  classify_risk, first_match, NamedPattern, destructive_command_patterns, string_values,
  secret_patterns,
}
use sun_pilot.Safety.Policy.{
  PolicyInput, risk_order, stricter, default_risk_of, category_from_skill_id, assessed_risk,
  evaluate, codes, join,
}
use sun_pilot.Text.Pattern.{test}
use sun_pilot.Text.Pattern.Extend.{IsIn, test-join}

pub data Verdict : Type 0 where
  allow need_approval reject : Verdict

-- The strategy matrix of the class comment, a row for each mode and a column for each risk.
abbrev pub matrix : PermissionMode → RiskLevel → Bool → Verdict
matrix _ critical _ = reject
matrix ask low _ = allow
matrix ask _ _ = need_approval
matrix auto low _ = allow
matrix auto medium true = allow
matrix auto medium false = need_approval
matrix auto high _ = need_approval
matrix full _ _ = allow

abbrev pub verdict : PermissionDecision → Verdict
verdict d = verdict_of d.allowed d.requires_approval
  where
    verdict_of : Bool → Bool → Verdict
    verdict_of true false = allow
    verdict_of true true = need_approval
    verdict_of false _ = reject

abbrev pub is_explicit : List Permission → Bool
is_explicit [] = false
is_explicit (_ ∷ _) = true

-- The policy is the matrix: over the risk that it assesses and the mode, `auto` if none is given,
-- it allows, asks for approval or rejects as the matrix has it, and reports that risk.
pub evaluate-matrix :
    (input : PolicyInput)
    → let d = evaluate input in
      (verdict d
        ≡ matrix
            (or_else input.permission_mode auto)
            (assessed_risk input)
            (is_explicit input.permissions))
      × (d.risk_level ≡ assessed_risk input)
unfolding evaluate
evaluate-matrix input = ground arith

stricter_bounds :
    (hint base : RiskLevel)
    → (risk_order base ≤ risk_order (stricter (some hint) base))
      × (risk_order hint ≤ risk_order (stricter (some hint) base))
unfolding stricter
stricter_bounds hint base = ground arith

-- The reported risk is never below the classified one, nor below the default that the hints give.
pub assessed_risk_bounds :
    (input : PolicyInput) (hint : RiskLevel)
    → default_risk_of input.risk_hints ≡ some hint
    → (risk_order (classify_risk (category_from_skill_id input.skill_id) input.arguments).risk_level
        ≤ risk_order (evaluate input).risk_level)
      × (risk_order hint ≤ risk_order (evaluate input).risk_level)
unfolding assessed_risk
assessed_risk_bounds input hint h =
    rw ((evaluate-matrix input).1, assessed_risk, h) (stricter_bounds hint _)

-- How much a mode leaves to the user.
abbrev pub latitude : PermissionMode → ℕ
latitude ask = 0
latitude auto = 1
latitude full = 2

abbrev pub in_mode : PermissionMode → PolicyInput → PolicyInput
in_mode mode input = record input { permission_mode = some mode }

-- What asks for an approval in a freer mode asks for one in a stricter mode.
pub evaluate_mono :
    (input : PolicyInput) (strict free : PermissionMode)
    → latitude strict ≤ latitude free
    → (evaluate (in_mode free input)).requires_approval ≡ true
    → (evaluate (in_mode strict input)).requires_approval ≡ true
unfolding evaluate assessed_risk
evaluate_mono input strict free h asks = ground arith

-- The mode has no say in what is rejected.
pub allowed_in_every_mode :
    (input : PolicyInput) (m n : PermissionMode)
    → (evaluate (in_mode m input)).allowed ≡ (evaluate (in_mode n input)).allowed
unfolding evaluate assessed_risk
allowed_in_every_mode input m n = ground arith

-- The patterns of a call that is critical whatever its category.
abbrev pub dangerous : List ℕ → Bool
dangerous s =
    any (λ p. test p.pattern s) destructive_command_patterns
    || any (λ p. test p.pattern s) secret_patterns

find-join :
    (s : String) (ss : List String) (ps : List NamedPattern)
    → IsIn s ss
    → any (λ p. test p.pattern (codes s)) ps ≡ true
    → first_match (codes (join " " ss)) ps ≢ none
unfolding first_match
find-join s ss [] i h = cc
find-join s ss (p ∷ ps) i h = ground (arith, test-join p.pattern s ss i, find-join s ss ps i)

-- A call in which one string argument matches, by itself, a pattern of a destructive command or of a
-- secret is rejected as critical, whatever the mode, the tool, the other arguments and the hints are.
pub dangerous_is_rejected :
    (input : PolicyInput) (s : String)
    → IsIn s (string_values input.arguments)
    → dangerous (codes s) ≡ true
    → (verdict (evaluate input) ≡ reject) × ((evaluate input).risk_level ≡ critical)
unfolding evaluate assessed_risk classify_risk
dangerous_is_rejected input s i h = ground (
  arith,
  find-join s (string_values input.arguments) destructive_command_patterns i,
  find-join s (string_values input.arguments) secret_patterns i,
)
