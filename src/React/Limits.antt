-- ===== src/React/Limits.antt =====
-- react-loop/loop-limits.ts: the budgets of the loop.
use sun_pilot.Base.{ℕ, String, Option, none, some, List, [], ◌∷◌, ◌⊎◌, inl, inr, ltb, if◌then◌else◌}
use sun_pilot.Text.{append}

pub record ReactLoopLimits : Type 0 where
  pub max_tool_rounds : ℕ
  pub max_model_calls : ℕ
  pub max_wall_clock_ms : ℕ
  pub max_repeated_tool_calls : ℕ
  pub max_observation_tokens : ℕ
  pub finalization_reserve_tokens : ℕ
  pub tool_catalog_limit : ℕ

-- `Partial<ReactLoopLimits>`
pub record LimitOverrides : Type 0 where
  pub max_tool_rounds : Option ℕ
  pub max_model_calls : Option ℕ
  pub max_wall_clock_ms : Option ℕ
  pub max_repeated_tool_calls : Option ℕ
  pub max_observation_tokens : Option ℕ
  pub finalization_reserve_tokens : Option ℕ
  pub tool_catalog_limit : Option ℕ

abbrev pub default_react_loop_limits : ReactLoopLimits
default_react_loop_limits = record {
  max_tool_rounds = 8;
  max_model_calls = 10;
  max_wall_clock_ms = 600000;
  max_repeated_tool_calls = 1;
  max_observation_tokens = 2000;
  finalization_reserve_tokens = 1000;
  tool_catalog_limit = 12;
}

abbrev over : ℕ → Option ℕ → ℕ
over n none = n
over n (some m) = m

-- `{ ...DEFAULT_REACT_LOOP_LIMITS, ...overrides }`
abbrev merged : LimitOverrides → ReactLoopLimits
merged o =
    let d = default_react_loop_limits in
    record {
      max_tool_rounds = over d.max_tool_rounds o.max_tool_rounds;
      max_model_calls = over d.max_model_calls o.max_model_calls;
      max_wall_clock_ms = over d.max_wall_clock_ms o.max_wall_clock_ms;
      max_repeated_tool_calls = over d.max_repeated_tool_calls o.max_repeated_tool_calls;
      max_observation_tokens = over d.max_observation_tokens o.max_observation_tokens;
      finalization_reserve_tokens =
          over d.finalization_reserve_tokens o.finalization_reserve_tokens;
      tool_catalog_limit = over d.tool_catalog_limit o.tool_catalog_limit;
    }

abbrev entries : ReactLoopLimits → List (String × ℕ)
entries l =
    ("maxToolRounds", l.max_tool_rounds)
    ∷ ("maxModelCalls", l.max_model_calls)
    ∷ ("maxWallClockMs", l.max_wall_clock_ms)
    ∷ ("maxRepeatedToolCalls", l.max_repeated_tool_calls)
    ∷ ("maxObservationTokens", l.max_observation_tokens)
    ∷ ("finalizationReserveTokens", l.finalization_reserve_tokens)
    ∷ ("toolCatalogLimit", l.tool_catalog_limit)
    ∷ []

-- The message of the first limit that is zero; a limit is a natural number here.
invalid_limit : List (String × ℕ) → Option String
invalid_limit [] = none
invalid_limit ((name, n) ∷ rest) =
    if ltb 0 n
    then invalid_limit rest
    else some (append "Invalid ReAct loop limit " (append name ": 0"))

unfoldable pub resolve_react_loop_limits : LimitOverrides → String ⊎ ReactLoopLimits
unfolding invalid_limit
resolve_react_loop_limits overrides = elim (invalid_limit (entries (merged overrides))) [
  | some message ↦ inl message
  | none ↦
      if ltb (merged overrides).max_model_calls 2
      then inl "ReAct maxModelCalls must reserve at least one finalization call"
      else inr (merged overrides)
]
