-- ===== src/React/Loop/Answered.antt =====
-- What the results of the loop leave unanswered.
use mathlib.Core.List.{Perm, map, append-nil}
use sun_pilot.React.Turn.{
  finish, wait_for_user, wait_for_approval, create_checkpoint, prompt_part, persist, emit_turn,
  fallback,
}
use sun_pilot.React.Control.{
  parse_request_user_input, RequestUserInputMatch, RequestUserInputAction, is_control_call,
}
use sun_pilot.Text.Trim.{is_blank_text}
use sun_pilot.Base.{
  ap, ◌⊎◌, inr, ℕ, String, Option, none, some, List, [], ◌∷◌, ◌≡◌, refl, Bool-cases, inl, zero, suc,
  map, find, Option-cases, arith, false, ◌≢◌, sym,
}
use sun_pilot.React.Calls.{ToolCall, completed, PlannedToolCall}
use sun_pilot.React.Guard.{Batch}
use sun_pilot.React.Transcript.Closed.{IsClosed, Awaits, call_ids, turn-Awaits}
use sun_pilot.React.Session.{
  LoopState, World, Session, ReactModelTurnResult, completed, waiting_user, waiting_approval,
  thrown, user_prompt,
}
use sun_pilot.React.Loop.{
  ReactLoopResult, Step, finish, parse_request_user_input, continues, create_checkpoint,
  waiting_user, stops, waiting_approval, thrown, is_empty, guard_input, loop, round, executed,
}
use sun_pilot.React.Loop.View.{
  heard, guarded, counted, running, Answered, fails, refuses, finishes, asks_user, asks_approval,
  observes, tools_fail, runs, RoundView, early, model_fails, hears, round_view,
}
use sun_pilot.React.Loop.Protocol.{
  Follows, Follows-Awaits, heard-Follows, replace_last-append, note_role-transcript,
  refuse-IsClosed, observe_round-IsClosed,
}
use sun_pilot.React.Guard.Atomic.{check-perm, check_atomic}
use mathlib.Core.List.Perm

-- What a result leaves open: nothing where the run completed, the call that asks where it waits for
-- the user, and exactly the pending calls where it waits for an approval.
abbrev pub IsAnswered : ReactLoopResult → Type 0
IsAnswered (completed content c t) = IsClosed c.transcript
IsAnswered (waiting_user question missing part c t) = (id : String) × Awaits c.transcript (id ∷ [])
IsAnswered (waiting_approval calls c t) =
    (ids : List String) × Awaits c.transcript ids
    × Perm ids (map (λ p. p.id) c.pending_tool_calls)
    × (c.pending_tool_calls ≡ calls)
IsAnswered (thrown e) = Unit

abbrev IsProper : Step → Type 0
IsProper (continues n) = IsClosed n.transcript
IsProper (stops result end) = IsAnswered result

finish-IsProper :
    (s : Session) (turn : ReactModelTurnResult) (l : LoopState)
    → turn.tool_calls ≡ []
    → Follows turn l
    → IsProper (finish s turn l)
unfolding finish emit_turn persist create_checkpoint
finish-IsProper s turn l silent (t, closed, e) = elim (Bool-cases (is_blank_text turn.text)) [
  | inl blank ↦
      rw (blank, note_role-transcript turn.text_part_id, e, silent, replace_last-append)
        (turn-Awaits t fallback [] closed)
  | inr written ↦
      rw (written, note_role-transcript turn.text_part_id, e, silent)
        (turn-Awaits t turn.text [] closed)
]

-- The control tool is called alone.
control-alone :
    (calls : List ToolCall) (match : RequestUserInputMatch) (action : RequestUserInputAction)
    → parse_request_user_input calls ≡ some match
    → match.outcome ≡ inr action
    → (id : String) × (call_ids calls ≡ id ∷ [])
unfolding parse_request_user_input
control-alone [] match action found e = cc
control-alone (c ∷ []) match action found e = (c.id, refl)
control-alone (c ∷ d ∷ cs) match action found e =
    elim (Option-cases (find is_control_call (c ∷ d ∷ cs))) [
      | inl missing ↦ cc (rw (parse_request_user_input, missing) at found)
      | inr (call, named) ↦
          let outcome = rw (parse_request_user_input, named) at found in ground arith
    ]

wait_for_user-IsProper :
    (s : Session) (turn : ReactModelTurnResult) (action : RequestUserInputAction) (l : LoopState)
    (match : RequestUserInputMatch)
    → parse_request_user_input turn.tool_calls ≡ some match
    → match.outcome ≡ inr action
    → Follows turn l
    → IsProper (wait_for_user s turn action l)
unfolding wait_for_user emit_turn persist create_checkpoint
wait_for_user-IsProper s turn action l match found e f =
    let (id, alone) = control-alone turn.tool_calls match action found e in
    (
      id,
      rw (note_role-transcript (prompt_part turn) user_prompt l, ← alone) (Follows-Awaits turn l f),
    )

abbrev bare : Option String → String
bare none = ""
bare (some id) = id

map-bare {ℓ} :
    {A : Type ℓ} (f : A → String) (xs : List A) → map bare (map (λ x. some (f x)) xs) ≡ map f xs
map-bare f [] = refl
map-bare f (x ∷ xs) = ap (λ rest. f x ∷ rest) (map-bare f xs)

is_empty-cons {ℓ} : {A : Type ℓ} (xs : List A) → is_empty xs ≡ false → xs ≢ []
is_empty-cons [] e h = cc
is_empty-cons (x ∷ xs) e h = cc

-- A guard's batch that waits for approvals has all calls of the turn.
waiting-perm :
    (s : Session) (turn : ReactModelTurnResult) (l : LoopState)
    → is_empty (guarded s turn l).approval_required ≡ false
    → Perm (call_ids turn.tool_calls) (map (λ p. p.id) (guarded s turn l).approval_required)
waiting-perm s turn l waits =
    by_atomic (check_atomic (guard_input s) turn.tool_calls l.seen_signatures)
  where
    b : Batch
    b = guarded s turn l

    only :
        b.executable ≡ []
        → b.observations ≡ []
        → Perm (call_ids turn.tool_calls) (map (λ p. p.id) b.approval_required)
    only none_runs none_seen =
        let p = check-perm (guard_input s) turn.tool_calls l.seen_signatures in
        let q = rw (none_runs, none_seen, append-nil) at p in
        let r = Perm.map bare q in
        Perm.symm
          (rw (map-bare (λ (p : PlannedToolCall). p.id), map-bare (λ (c : ToolCall). c.id)) at r)

    by_atomic :
        ((b.observations ≡ []) ⊎ (b.executable ≡ []) × (b.approval_required ≡ []))
          × ((b.executable ≡ []) ⊎ (b.approval_required ≡ []))
        → Perm (call_ids turn.tool_calls) (map (λ p. p.id) b.approval_required)
    by_atomic (inl seen, inl quiet) = only quiet seen
    by_atomic (inr (quiet, idle), _) = absurd (is_empty-cons _ waits idle)
    by_atomic (_, inr idle) = absurd (is_empty-cons _ waits idle)

Answered-IsProper :
    (s : Session) (w : World) (turn : ReactModelTurnResult) (l : LoopState) {step : Step}
    → Follows turn l
    → Answered s w turn l step
    → IsProper step
unfolding wait_for_approval emit_turn persist create_checkpoint executed
Answered-IsProper s w turn l f (fails e) = tt
Answered-IsProper s w turn l f (refuses code rejected os free) =
    refuse-IsClosed s w turn code rejected os l (Follows-Awaits turn l f)
Answered-IsProper s w turn l f (finishes silent) = finish-IsProper s turn l silent f
Answered-IsProper s w turn l f (asks_user match action found e) =
    wait_for_user-IsProper s turn action l match found e f
Answered-IsProper s w turn l f (asks_approval waits) =
    (call_ids turn.tool_calls, Follows-Awaits turn l f, waiting-perm s turn l waits, refl)
Answered-IsProper s w turn l f (observes free) =
    observe_round-IsClosed s w turn _ _ _ (counted s turn l) (Follows-Awaits turn l f)
Answered-IsProper s w turn l f (tools_fail e waits) = tt
Answered-IsProper s w turn l f (runs execution free waits) =
    observe_round-IsClosed s w turn _ _ _ (executed w execution (running s turn l))
      (Follows-Awaits turn l f)

round-IsProper :
    (s : Session) (w : World) (l : LoopState) → IsClosed l.transcript → IsProper (round s w l)
round-IsProper s w l h = viewed _ (round_view s w l)
  where
    viewed : (step : Step) → RoundView s w l step → IsProper step
    viewed _ (early e) = tt
    viewed _ (model_fails e) = tt
    viewed _ (hears turn answered) =
        Answered-IsProper s w turn (heard s turn l) (heard-Follows s turn l h) answered

-- From a transcript in which every tool call is answered, the loop ends with a result that leaves
-- open what `IsAnswered` says: a run that completed has every call answered, one that waits for the
-- user has only the call that asks unanswered, and one that waits for an approval exactly the
-- pending calls.
pub loop-IsAnswered :
    (f : ℕ) (s : Session) (w : World) (l end : LoopState) (result : ReactLoopResult)
    → IsClosed l.transcript
    → loop f s w l ≡ some (result, end)
    → IsAnswered result
unfolding loop
loop-IsAnswered zero s w l end result h e = cc
loop-IsAnswered (suc f) s w l end result h e =
    by_step (λ next. loop-IsAnswered f s w next end result) (round s w l) (round-IsProper s w l h) e
  where
    by_step :
        ((next : LoopState)
          → IsClosed next.transcript
          → loop f s w next ≡ some (result, end)
          → IsAnswered result)
        → (step : Step) → IsProper step
        → (elim step as (λ _. Option (ReactLoopResult × LoopState)) [
          | stops result end ↦ some (result, end)
          | continues next ↦ loop f s w next
        ])
          ≡ some (result, end)
        → IsAnswered result
    by_step ih (stops r m) proper found = let same : r ≡ result = cc found in rw (sym same) proper
    by_step ih (continues next) proper found = ih next proper found
