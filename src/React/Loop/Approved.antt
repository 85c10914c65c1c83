-- ===== src/React/Loop/Approved.antt =====
-- The calls that the loop executes: the policy allows each without an approval, and the arguments of
-- each are acceptable.
use sun_pilot.React.Turn.{
  finish, wait_for_user, wait_for_approval, prompt_part, refuse, persist, emit_turn, note_role,
  add_errors, summarize,
}
use sun_pilot.React.Loop.{
  executed, guard_input, loop, round, observe_round, receive, prepare, note_completed, list_summary,
  list_summaries, is_failed, is_forced, processed, Step, is_blank_text, RequestUserInputAction,
  ReactLoopResult, continues, stops,
}
use sun_pilot.React.Session.{
  final, user_prompt, LoopState, World, Session, ReactModelTurnResult, TextRole, Effect, asked, ran,
  persisted, emitted, text_completed, text_role, fallback_shown, error_added, rich_cards_set,
}
use sun_pilot.React.Loop.View.{
  Answered, fails, refuses, finishes, asks_user, asks_approval, observes, tools_fail, runs,
  RoundView, early, model_fails, hears, round_view, running, counted, heard, guarded,
}
use sun_pilot.Base.{
  true, find, zero, suc, ℕ, String, false, Option, none, some, List, [], ◌∷◌, ◌++◌, ◌≡◌, Bool-cases,
  any, ◌===◌, All, All-append, inl, inr, sym,
}
use sun_pilot.React.Calls.{ReactObservation, ToolCallSummary, PlannedToolCall, SkillSummary}
use sun_pilot.React.Guard.{Batch}
use sun_pilot.Tools.Validator.{validate_tool_arguments}
use sun_pilot.React.Guard.Plans.{check-IsValid, check-unapproved}
use sun_pilot.Json.{Fields}
use sun_pilot.Safety.Policy.{evaluate}
use sun_pilot.Safety.Types.{PermissionDecision}

-- The validator accepts the arguments under the schema of the skill that the call names.
abbrev pub IsValidIn : Session → PlannedToolCall → Type 0
IsValidIn s p =
    (skill : SkillSummary) × (find (λ k. k.id === p.skill_id) s.all_skills ≡ some skill)
    × (validate_tool_arguments s.platform p.arguments skill.input_schema ≡ [])

-- What the policy decides on the skill and the arguments in the mode of the session.
abbrev pub decision : Session → SkillSummary → Fields → PermissionDecision
decision s skill args = evaluate (record {
  skill_id = skill.id;
  permissions = skill.permissions;
  arguments = args;
  permission_mode = some s.permission_mode;
  risk_hints = some skill.risk_hints;
})

-- The policy allows the call, and without an approval.
abbrev pub IsFreeIn : Session → PlannedToolCall → Type 0
IsFreeIn s p =
    (skill : SkillSummary) × (find (λ k. k.id === p.skill_id) s.all_skills ≡ some skill)
    × ((decision s skill p.arguments).allowed ≡ true)
    × ((decision s skill p.arguments).requires_approval ≡ false)

abbrev pub MayRun : Session → PlannedToolCall → Type 0
MayRun s p = IsValidIn s p × IsFreeIn s p

-- An effect that is no execution, or executes only calls that may run.
abbrev pub IsSafe : Session → Effect → Type 0
IsSafe s (ran calls) = All (MayRun s) calls
IsSafe s (asked request) = Unit
IsSafe s (persisted c) = Unit
IsSafe s (emitted e) = Unit
IsSafe s (text_completed part) = Unit
IsSafe s (text_role part role) = Unit
IsSafe s (fallback_shown text) = Unit
IsSafe s (error_added code message id) = Unit
IsSafe s (rich_cards_set artifacts) = Unit

abbrev pub AllSafe : Session → LoopState → Type 0
AllSafe s l = All (IsSafe s) l.effects

module _ (s : Session) where
  -- The state that a step leads to.
  abbrev Ends : Step → Type 0
  Ends (continues n) = AllSafe s n
  Ends (stops result end) = AllSafe s end

  noted :
      (es : List Effect) (e : Effect)
      → IsSafe s e
      → All (IsSafe s) es
      → All (IsSafe s) (es ++ e ∷ [])
  noted es e h k = All-append (IsSafe s) es (e ∷ []) k (h, tt)

  note_completed-AllSafe :
      (o : Option String) (l : LoopState) → AllSafe s l → AllSafe s (note_completed o l)
  note_completed-AllSafe none l h = h
  note_completed-AllSafe (some part) l h = elim (Bool-cases (part === "")) [
    | inl blank ↦ rw blank h
    | inr named ↦ rw named (noted l.effects (text_completed part) tt h)
  ]

  note_role-AllSafe :
      (o : Option String) (role : TextRole) (l : LoopState)
      → AllSafe s l
      → AllSafe s (note_role o role l)
  note_role-AllSafe none role l h = h
  note_role-AllSafe (some part) role l h = elim (Bool-cases (part === "")) [
    | inl blank ↦ rw blank h
    | inr named ↦ rw named (noted l.effects (text_role part role) tt h)
  ]

  list_summary-AllSafe :
      (summary : ToolCallSummary) (l : LoopState) → AllSafe s l → AllSafe s (list_summary summary l)
  unfolding list_summary
  list_summary-AllSafe summary l h =
      elim (Bool-cases (any (λ old. old.id === summary.id) l.tool_call_summaries)) [
        | inl listed ↦ elim (Bool-cases (is_failed summary.status)) [
          | inl bad ↦ rw (listed, bad) (noted l.effects _ tt h)
          | inr good ↦ rw (listed, good) h
        ]
        | inr new ↦ elim (Bool-cases (is_failed summary.status)) [
          | inl bad ↦ rw (new, bad) (noted l.effects _ tt h)
          | inr good ↦ rw (new, good) h
        ]
      ]

  list_summaries-AllSafe :
      (summaries : List ToolCallSummary) (l : LoopState)
      → AllSafe s l
      → AllSafe s (list_summaries summaries l)
  unfolding list_summaries
  list_summaries-AllSafe [] l h = h
  list_summaries-AllSafe (x ∷ xs) l h =
      list_summaries-AllSafe xs (list_summary x l) (list_summary-AllSafe x l h)

  add_errors-IsSafe :
      (code : String) (summaries : List ToolCallSummary)
      → All (IsSafe s) (add_errors code summaries)
  add_errors-IsSafe code [] = tt
  add_errors-IsSafe code (x ∷ xs) = (tt, add_errors-IsSafe code xs)

  prepare-AllSafe : (l : LoopState) → AllSafe s l → AllSafe s (prepare s l)
  unfolding prepare
  prepare-AllSafe l h = elim (Bool-cases (is_forced s l)) [
    | inl forced ↦ rw forced h
    | inr free ↦ rw free h
  ]

  heard-AllSafe :
      (turn : ReactModelTurnResult) (l : LoopState) → AllSafe s l → AllSafe s (heard s turn l)
  unfolding receive persist
  heard-AllSafe turn l h = noted _ _ tt (
      note_completed-AllSafe turn.text_part_id _
        (noted (prepare s l).effects _ tt (prepare-AllSafe l h)))

  refuse-AllSafe :
      (w : World) (turn : ReactModelTurnResult) (code : String) (rejected : ℕ)
      (os : List ReactObservation) (l : LoopState)
      → AllSafe s l
      → AllSafe s (refuse s w turn code rejected os l)
  unfolding refuse persist emit_turn
  refuse-AllSafe w turn code rejected os l h = noted _ _ tt (
      noted _ _ tt (
        All-append (IsSafe s) l.effects _ h
          (add_errors-IsSafe code (summarize (w.uuid l.model_calls) 0 os))))

  observe_round-AllSafe :
      (w : World) (turn : ReactModelTurnResult) (b : Batch) (ms : ℕ) (found : List ReactObservation)
      (l : LoopState)
      → AllSafe s l
      → AllSafe s (observe_round s w turn b ms found l)
  unfolding observe_round persist emit_turn
  observe_round-AllSafe w turn b ms found l h = noted _ _ tt (
      noted _ _ tt (
        list_summaries-AllSafe
          (summarize (w.uuid l.model_calls) 0 (processed s turn.tool_calls found)) l h))

  finish-AllSafe :
      (turn : ReactModelTurnResult) (l : LoopState) → AllSafe s l → Ends (finish s turn l)
  unfolding finish persist emit_turn
  finish-AllSafe turn l h = elim (Bool-cases (is_blank_text turn.text)) [
    | inl blank ↦ rw blank (noted _ _ tt (noted _ _ tt (noted _ _ tt shown)))
    | inr written ↦ rw written (noted _ _ tt (noted _ _ tt shown))
  ]
    where
      shown :
          AllSafe s (note_role turn.text_part_id final (emit_turn turn l.iteration 0 0 0 0 [] l))
      shown = note_role-AllSafe turn.text_part_id final _ (noted l.effects _ tt h)

  wait_for_user-AllSafe :
      (turn : ReactModelTurnResult) (action : RequestUserInputAction) (l : LoopState)
      → AllSafe s l
      → Ends (wait_for_user s turn action l)
  unfolding wait_for_user persist emit_turn
  wait_for_user-AllSafe turn action l h =
      noted _ _ tt (noted _ _ tt (note_role-AllSafe (prompt_part turn) user_prompt l h))

  guarded-MayRun :
      (turn : ReactModelTurnResult) (l : LoopState) → All (MayRun s) (guarded s turn l).executable
  unfolding guard_input
  guarded-MayRun turn l =
      both _ (check-IsValid (guard_input s) turn.tool_calls l.seen_signatures).0
        (check-unapproved (guard_input s) turn.tool_calls l.seen_signatures).0
    where
      both :
          (ps : List PlannedToolCall)
          → All (IsValidIn s) ps
          → All (IsFreeIn s) ps
          → All (MayRun s) ps
      both [] h k = tt
      both (p ∷ ps) (h, hs) (k, ks) = ((h, k), both ps hs ks)

  Answered-Ends :
      (w : World) (turn : ReactModelTurnResult) (l : LoopState) {step : Step}
      → AllSafe s l
      → Answered s w turn l step
      → Ends step
  unfolding wait_for_approval persist emit_turn executed guard_input
  Answered-Ends w turn l h (fails e) = h
  Answered-Ends w turn l h (refuses code rejected os free) =
      refuse-AllSafe w turn code rejected os l h
  Answered-Ends w turn l h (finishes silent) = finish-AllSafe turn l h
  Answered-Ends w turn l h (asks_user match action found e) = wait_for_user-AllSafe turn action l h
  Answered-Ends w turn l h (asks_approval waits) = noted _ _ tt (noted l.effects _ tt h)
  Answered-Ends w turn l h (observes free) = observe_round-AllSafe w turn _ _ _ (counted s turn l) h
  Answered-Ends w turn l h (tools_fail e waits) = noted l.effects _ (guarded-MayRun turn l) h
  Answered-Ends w turn l h (runs execution free waits) =
      observe_round-AllSafe w turn _ _ _ (executed w execution (running s turn l))
        (noted l.effects _ (guarded-MayRun turn l) h)

  round-Ends : (w : World) (l : LoopState) → AllSafe s l → Ends (round s w l)
  round-Ends w l h = viewed _ (round_view s w l)
    where
      viewed : (step : Step) → RoundView s w l step → Ends step
      viewed _ (early e) = h
      viewed _ (model_fails e) = noted (prepare s l).effects _ tt (prepare-AllSafe l h)
      viewed _ (hears turn answered) =
          Answered-Ends w turn (heard s turn l) (heard-AllSafe turn l h) answered

  -- Whatever the model asks for and the tools do, the loop executes only calls that need no approval
  -- and whose arguments the validator accepts under the schema of the skill.
  pub loop-AllSafe :
      (f : ℕ) (w : World) (l end : LoopState) (result : ReactLoopResult)
      → AllSafe s l
      → loop f s w l ≡ some (result, end)
      → AllSafe s end
  unfolding loop
  loop-AllSafe zero w l end result h e = cc
  loop-AllSafe (suc f) w l end result h e =
      by_step (λ next. loop-AllSafe f w next end result) (round s w l) (round-Ends w l h) e
    where
      by_step :
          ((next : LoopState)
            → AllSafe s next
            → loop f s w next ≡ some (result, end)
            → AllSafe s end)
          → (step : Step) → Ends step
          → (elim step as (λ _. Option (ReactLoopResult × LoopState)) [
            | stops result end ↦ some (result, end)
            | continues next ↦ loop f s w next
          ])
            ≡ some (result, end)
          → AllSafe s end
      by_step ih (stops r m) safe found = let same : m ≡ end = cc found in rw (sym same) safe
      by_step ih (continues next) safe found = ih next safe found
