-- ===== src/React/Loop/Budget.antt =====
-- The budgets of the loop: it ends, and makes no more model calls and rounds than its limits allow.
use sun_pilot.Base.{
  ℕ, zero, suc, ◌+◌, ◌-◌, ◌≤◌, ◌<◌, max, String, Bool, true, false, ◌||◌, Option, none, some, List,
  [], ◌∷◌, ◌≡◌, inl, inr, refl, arith, Bool-cases, leb, ◌===◌, any,
}
use sun_pilot.React.Calls.{ReactObservation, ToolCallSummary}
use sun_pilot.React.Control.{RequestUserInputAction}
use sun_pilot.Text.Trim.{is_blank_text}
use sun_pilot.React.Guard.{Batch}
use sun_pilot.React.Session.{
  LoopState, World, Session, Step, ReactModelTurnResult, stops, continues, ReactLoopResult,
}
use sun_pilot.React.Turn.{
  refuse, finish, wait_for_user, wait_for_approval, persist, emit_turn, note_role, prompt_part,
}
use sun_pilot.React.Loop.{
  observe_round, executed, receive, prepare, round, loop, note_completed, list_summary,
  list_summaries, is_failed, is_forced, summarize, TextRole, final, user_prompt, processed,
}
use sun_pilot.React.Loop.View.{
  heard, counted, running, Answered, fails, refuses, finishes, asks_user, asks_approval, observes,
  tools_fail, runs, RoundView, early, model_fails, hears, round_view,
}

-- `a` and `b` agree on what the budgets are about.
pub record SameBudget (a b : LoopState) : Type 0 where
  pub calls : b.model_calls ≡ a.model_calls
  pub rounds : b.iteration ≡ a.iteration
  pub forced : b.force_finalization ≡ a.force_finalization

note_completed-SameBudget : (o : Option String) (l : LoopState) → SameBudget l (note_completed o l)
note_completed-SameBudget none l = record { calls = refl; rounds = refl; forced = refl }
note_completed-SameBudget (some part) l = elim (Bool-cases (part === "")) [
  | inl blank ↦ rw blank (record { calls = refl; rounds = refl; forced = refl })
  | inr named ↦ rw named (record { calls = refl; rounds = refl; forced = refl })
]

list_summary-SameBudget :
    (summary : ToolCallSummary) (l : LoopState) → SameBudget l (list_summary summary l)
unfolding list_summary
list_summary-SameBudget summary l =
    elim (Bool-cases (any (λ old. old.id === summary.id) l.tool_call_summaries)) [
      | inl listed ↦ elim (Bool-cases (is_failed summary.status)) [
        | inl bad ↦ rw (listed, bad) (record { calls = refl; rounds = refl; forced = refl })
        | inr good ↦ rw (listed, good) (record { calls = refl; rounds = refl; forced = refl })
      ]
      | inr new ↦ elim (Bool-cases (is_failed summary.status)) [
        | inl bad ↦ rw (new, bad) (record { calls = refl; rounds = refl; forced = refl })
        | inr good ↦ rw (new, good) (record { calls = refl; rounds = refl; forced = refl })
      ]
    ]

list_summaries-SameBudget :
    (summaries : List ToolCallSummary) (l : LoopState) → SameBudget l (list_summaries summaries l)
unfolding list_summaries
list_summaries-SameBudget [] l = record { calls = refl; rounds = refl; forced = refl }
list_summaries-SameBudget (x ∷ xs) l =
    let a = list_summary-SameBudget x l in
    let b = list_summaries-SameBudget xs (list_summary x l) in
    record { calls = cc; rounds = cc; forced = cc }

or-false : (a b : Bool) → (a || b) ≡ false → (a ≡ false) × (b ≡ false)
or-false true b h = cc
or-false false b h = (refl, h)

leb-false : (a b : ℕ) → leb a b ≡ false → b < a
leb-false a b h = ground arith

is_forced-false :
    (s : Session) (l : LoopState)
    → is_forced s l ≡ false
    → (l.iteration < s.limits.max_tool_rounds) × (l.model_calls < s.limits.max_model_calls - 1)
unfolding is_forced
is_forced-false s l h =
    let (fr, c) = or-false (l.force_finalization || leb s.limits.max_tool_rounds l.iteration) _ h in
    let (f, r) = or-false l.force_finalization _ fr in (leb-false _ _ r, leb-false _ _ c)

-- The tools stay on only within the budgets.
pub prepare-free :
    (s : Session) (l : LoopState)
    → (prepare s l).force_finalization ≡ false
    → (prepare s l ≡ l)
      × (l.iteration < s.limits.max_tool_rounds)
      × (l.model_calls < s.limits.max_model_calls - 1)
unfolding prepare
prepare-free s l h = elim (Bool-cases (is_forced s l)) [
  | inl forced ↦ cc (rw forced at h)
  | inr free ↦ let (r, c) = is_forced-false s l free in (rw free refl, r, c)
]

prepare-calls : (s : Session) (l : LoopState) → (prepare s l).model_calls ≡ l.model_calls
unfolding prepare
prepare-calls s l = elim (Bool-cases (is_forced s l)) [
  | inl forced ↦ rw forced refl
  | inr free ↦ rw free refl
]

prepare-rounds : (s : Session) (l : LoopState) → (prepare s l).iteration ≡ l.iteration
unfolding prepare
prepare-rounds s l = elim (Bool-cases (is_forced s l)) [
  | inl forced ↦ rw forced refl
  | inr free ↦ rw free refl
]

-- A turn that was received counts as a model call, and nothing else.
pub record Heard (s : Session) (l h : LoopState) : Type 0 where
  pub calls : h.model_calls ≡ l.model_calls + 1
  pub rounds : h.iteration ≡ l.iteration
  pub forced : h.force_finalization ≡ (prepare s l).force_finalization

pub heard-Heard :
    (s : Session) (turn : ReactModelTurnResult) (l : LoopState) → Heard s l (heard s turn l)
unfolding receive persist
heard-Heard s turn l =
    let b = note_completed-SameBudget turn.text_part_id _ in
    record {
      calls = rw (b.calls, prepare-calls s l) refl;
      rounds = rw (b.rounds, prepare-rounds s l) refl;
      forced = b.forced;
    }

observe_round-calls :
    (s : Session) (w : World) (turn : ReactModelTurnResult) (b : Batch) (ms : ℕ)
    (found : List ReactObservation) (l : LoopState)
    → ((observe_round s w turn b ms found l).model_calls ≡ l.model_calls)
      × ((observe_round s w turn b ms found l).iteration ≡ l.iteration + 1)
      × ((observe_round s w turn b ms found l).force_finalization ≡ l.force_finalization)
unfolding observe_round emit_turn persist
observe_round-calls s w turn b ms found l =
    let k =
      list_summaries-SameBudget
        (summarize (w.uuid l.model_calls) 0 (processed s turn.tool_calls found)) l in
    (k.calls, rw k.rounds refl, k.forced)

-- A round goes on only within the budgets; it then used one model call and one round.
pub record Spends (s : Session) (l n : LoopState) : Type 0 where
  pub calls : n.model_calls ≡ l.model_calls + 1
  pub rounds : n.iteration ≡ l.iteration + 1
  pub within_calls : l.model_calls < s.limits.max_model_calls - 1
  pub within_rounds : l.iteration < s.limits.max_tool_rounds

-- What a step does to the budgets: it spends from them, or ends after at most one model call.
abbrev pub IsWithin : Session → LoopState → Step → Type 0
IsWithin s l (continues n) = Spends s l n
IsWithin s l (stops result end) =
    (end.iteration ≡ l.iteration) × (end.model_calls ≤ l.model_calls + 1)

note_role-SameBudget :
    (o : Option String) (role : TextRole) (l : LoopState) → SameBudget l (note_role o role l)
note_role-SameBudget none role l = record { calls = refl; rounds = refl; forced = refl }
note_role-SameBudget (some part) role l = elim (Bool-cases (part === "")) [
  | inl blank ↦ rw blank (record { calls = refl; rounds = refl; forced = refl })
  | inr named ↦ rw named (record { calls = refl; rounds = refl; forced = refl })
]

-- A step that ends the loop keeps the budgets of the state `l`.
abbrev IsEnd : LoopState → Step → Type 0
IsEnd l (continues n) = ⊥
IsEnd l (stops result end) = SameBudget l end

finish-IsEnd :
    (s : Session) (turn : ReactModelTurnResult) (l : LoopState) → IsEnd l (finish s turn l)
unfolding finish emit_turn persist
finish-IsEnd s turn l = elim (Bool-cases (is_blank_text turn.text)) [
  | inl blank ↦ rw blank (record { calls = k.calls; rounds = k.rounds; forced = k.forced })
  | inr written ↦ rw written (record { calls = k.calls; rounds = k.rounds; forced = k.forced })
]
  where
    k : SameBudget l (note_role turn.text_part_id final (emit_turn turn l.iteration 0 0 0 0 [] l))
    k =
        let n =
          note_role-SameBudget turn.text_part_id final (emit_turn turn l.iteration 0 0 0 0 [] l) in
        record { calls = n.calls; rounds = n.rounds; forced = n.forced }

wait_for_user-IsEnd :
    (s : Session) (turn : ReactModelTurnResult) (action : RequestUserInputAction) (l : LoopState)
    → IsEnd l (wait_for_user s turn action l)
unfolding wait_for_user emit_turn persist
wait_for_user-IsEnd s turn action l =
    let n = note_role-SameBudget (prompt_part turn) user_prompt l in
    record { calls = n.calls; rounds = n.rounds; forced = n.forced }

end-IsWithin :
    (s : Session) (l h : LoopState) (step : Step) → Heard s l h → IsEnd h step → IsWithin s l step
end-IsWithin s l h (continues n) heard end = absurd end
end-IsWithin s l h (stops result e) heard end = (cc, omega (arith, end.calls, heard.calls))

spends :
    (s : Session) (l h n : LoopState)
    → Heard s l h
    → h.force_finalization ≡ false
    → n.model_calls ≡ h.model_calls
    → n.iteration ≡ h.iteration + 1
    → Spends s l n
spends s l h n heard free c r =
    let (same, rounds, calls) = prepare-free s l (cc) in
    record {
      calls = cc;
      rounds = rw (r, heard.rounds) refl;
      within_calls = calls;
      within_rounds = rounds;
    }

Answered-IsWithin :
    (s : Session) (w : World) (turn : ReactModelTurnResult) (l h : LoopState) {step : Step}
    → Heard s l h
    → Answered s w turn h step
    → IsWithin s l step
unfolding refuse emit_turn persist wait_for_approval executed
Answered-IsWithin s w turn l h heard (fails e) = (heard.rounds, omega (arith, heard.calls))
Answered-IsWithin s w turn l h heard (refuses code rejected observations free) =
    spends s l h _ heard free refl refl
Answered-IsWithin s w turn l h heard (finishes silent) =
    end-IsWithin s l h _ heard (finish-IsEnd s turn h)
Answered-IsWithin s w turn l h heard (asks_user match action found e) =
    end-IsWithin s l h _ heard (wait_for_user-IsEnd s turn action h)
Answered-IsWithin s w turn l h heard (asks_approval waits) =
    (heard.rounds, omega (arith, heard.calls))
Answered-IsWithin s w turn l h heard (tools_fail e waits) =
    (heard.rounds, omega (arith, heard.calls))
Answered-IsWithin s w turn l h heard (observes free) =
    let (c, r, f) = observe_round-calls s w turn _ _ _ (counted s turn h) in
    spends s l h _ heard free c r
Answered-IsWithin s w turn l h heard (runs execution free waits) =
    let (c, r, f) = observe_round-calls s w turn _ _ _ (executed w execution (running s turn h)) in
    spends s l h _ heard free c r

round-IsWithin : (s : Session) (w : World) (l : LoopState) → IsWithin s l (round s w l)
round-IsWithin s w l = viewed _ (round_view s w l)
  where
    viewed : (step : Step) → RoundView s w l step → IsWithin s l step
    viewed _ (early e) = (refl, omega arith)
    viewed _ (model_fails e) = (prepare-rounds s l, omega (arith, prepare-calls s l))
    viewed _ (hears turn answered) =
        Answered-IsWithin s w turn l (heard s turn l) (heard-Heard s turn l) answered

-- The loop returns a result if its fuel exceeds the model calls that are left before the last one.
pub loop-returns :
    (f : ℕ) (s : Session) (w : World) (l : LoopState)
    → s.limits.max_model_calls - 1 - l.model_calls < f
    → (r : ReactLoopResult × LoopState) × (loop f s w l ≡ some r)
unfolding loop
loop-returns zero s w l h = elim h [ ]
loop-returns (suc f) s w l h =
    by_step (λ next. loop-returns f s w next) (round s w l) (round-IsWithin s w l)
  where
    by_step :
        ((next : LoopState)
          → s.limits.max_model_calls - 1 - next.model_calls < f
          → (r : ReactLoopResult × LoopState) × (loop f s w next ≡ some r))
        → (step : Step) → IsWithin s l step
        → (r : ReactLoopResult × LoopState) × ((elim step
              as (λ _. Option (ReactLoopResult × LoopState)) [
                | stops result end ↦ some (result, end)
                | continues next ↦ loop f s w next
              ])
            ≡ some r)
    by_step ih (stops result end) within = ((result, end), refl)
    by_step ih (continues next) within = ih next (omega (arith, within.calls, within.within_calls))

-- The loop ends with at most the model calls and the rounds that its limits allow, or with the one
-- model call that every run makes.
pub loop-bound :
    (f : ℕ) (s : Session) (w : World) (l end : LoopState) (result : ReactLoopResult)
    → loop f s w l ≡ some (result, end)
    → (end.model_calls ≤ max s.limits.max_model_calls (l.model_calls + 1))
      × (end.iteration ≤ max s.limits.max_tool_rounds l.iteration)
unfolding loop
loop-bound zero s w l end result e = cc
loop-bound (suc f) s w l end result e =
    by_step (λ next. loop-bound f s w next end result) (round s w l) (round-IsWithin s w l) e
  where
    by_step :
        ((next : LoopState)
          → loop f s w next ≡ some (result, end)
          → (end.model_calls ≤ max s.limits.max_model_calls (next.model_calls + 1))
            × (end.iteration ≤ max s.limits.max_tool_rounds next.iteration))
        → (step : Step) → IsWithin s l step
        → (elim step as (λ _. Option (ReactLoopResult × LoopState)) [
          | stops result end ↦ some (result, end)
          | continues next ↦ loop f s w next
        ])
          ≡ some (result, end)
        → (end.model_calls ≤ max s.limits.max_model_calls (l.model_calls + 1))
          × (end.iteration ≤ max s.limits.max_tool_rounds l.iteration)
    by_step ih (stops r m) (rounds, calls) found = ground arith
    by_step ih (continues next) within found =
        let (c, r) = ih next found in
        (
          omega (arith, within.calls, within.within_calls),
          omega (arith, within.rounds, within.within_rounds),
        )
