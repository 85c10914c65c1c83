-- ===== src/React/Loop/View.antt =====
-- The ways in which a round of the loop goes.
use sun_pilot.Base.{
  ℕ, String, Bool, true, false, Option, none, some, List, [], ◌∷◌, ◌++◌, ◌≡◌, ◌⊎◌, inl, inr, refl,
  Bool-cases, leb, map, if◌then◌else◌,
}
use sun_pilot.React.Calls.{ReactObservation}
use sun_pilot.React.Observations.{from_tool_summary}
use sun_pilot.React.Control.{
  RequestUserInputAction, RequestUserInputMatch, parse_request_user_input,
}
use sun_pilot.React.Transcript.{truthy}
use sun_pilot.React.Guard.{Batch, check}
use sun_pilot.React.Session.{
  LoopState, World, Session, Step, ReactModelTurnResult, ToolExecution, LoopError, thrown, stops,
  continues, note, asked, ran, disabled_tools_called, invalid_output, Awaited, returned, threw,
}
use sun_pilot.React.Turn.{
  refuse, finish, wait_for_user, wait_for_approval, protocol_observations, observation_char_limit,
}
use sun_pilot.React.Loop.{
  guard_input, observe_round, executed, run_tools, act, control, follow, answer_turn, receive,
  prepare, model_request, ask, round, is_empty, rethrown, text_of,
}

-- The states of a round: the model is asked, its turn is received, and the guard has counted.
abbrev pub asking : Session → LoopState → LoopState
asking s l = note (asked (model_request s (prepare s l))) (prepare s l)

abbrev pub heard : Session → ReactModelTurnResult → LoopState → LoopState
heard s turn l = receive s turn (asking s l)

abbrev pub guarded : Session → ReactModelTurnResult → LoopState → Batch
guarded s turn l = check (guard_input s) turn.tool_calls l.seen_signatures

abbrev pub counted : Session → ReactModelTurnResult → LoopState → LoopState
counted s turn l = record l { seen_signatures = (guarded s turn l).seen_signatures }

abbrev pub running : Session → ReactModelTurnResult → LoopState → LoopState
running s turn l = note (ran (guarded s turn l).executable) (counted s turn l)

-- What follows on a turn that was received in the state `l`.
pub data Answered (s : Session) (w : World) (turn : ReactModelTurnResult) (l : LoopState)
    : Step → Type 0 where
  fails : (e : LoopError) → Answered s w turn l (stops (thrown e) l)
  refuses :
      (code : String) (rejected : ℕ) (observations : List ReactObservation)
      → l.force_finalization ≡ false
      → Answered s w turn l (continues (refuse s w turn code rejected observations l))
  finishes : turn.tool_calls ≡ [] → Answered s w turn l (finish s turn l)
  asks_user :
      (match : RequestUserInputMatch) (action : RequestUserInputAction)
      → parse_request_user_input turn.tool_calls ≡ some match
      → match.outcome ≡ inr action
      → Answered s w turn l (wait_for_user s turn action l)
  asks_approval :
      is_empty (guarded s turn l).approval_required ≡ false
      → Answered s w turn l (wait_for_approval s turn (guarded s turn l) (counted s turn l))
  observes :
      l.force_finalization ≡ false
      → Answered s w turn l (
          continues (
            observe_round s w turn
              (guarded s turn l)
              0
              (guarded s turn l).observations
              (counted s turn l)))
  tools_fail :
      (e : LoopError)
      → (guarded s turn l).approval_required ≡ []
      → Answered s w turn l (stops (thrown e) (running s turn l))
  runs :
      (execution : ToolExecution)
      → l.force_finalization ≡ false
      → (guarded s turn l).approval_required ≡ []
      → Answered s w turn l (
          continues (
            observe_round s w turn
              (guarded s turn l)
              (w.execution_ms l.model_calls)
              ((guarded s turn l).observations
                ++ map (from_tool_summary (observation_char_limit s.limits)) execution.summaries)
              (executed w execution (running s turn l))))

module _ (s : Session) (w : World) (turn : ReactModelTurnResult) (l : LoopState) where
  run_tools-Answered :
      l.force_finalization ≡ false
      → (guarded s turn l).approval_required ≡ []
      → Answered s w turn l (run_tools s w turn (guarded s turn l) (counted s turn l))
  unfolding run_tools
  run_tools-Answered free waits =
      elim (w.execute l.model_calls (guarded s turn l).executable)
        as (λ a. Answered s w turn l (elim a [
          | threw timed_out aborted message ↦
              stops (thrown (rethrown s timed_out aborted message)) (running s turn l)
          | returned execution ↦ continues (
              observe_round s w turn (guarded s turn l) (w.execution_ms l.model_calls)
                ((guarded s turn l).observations
                  ++ map (from_tool_summary (observation_char_limit s.limits)) execution.summaries)
                (executed w execution (running s turn l)))
        ])) [
          | threw timed_out aborted message ↦ tools_fail _ waits
          | returned execution ↦ runs execution free waits
        ]

  is_empty-nil {ℓ} : {A : Type ℓ} (xs : List A) → is_empty xs ≡ true → xs ≡ []
  is_empty-nil [] e = refl
  is_empty-nil (x ∷ xs) e = cc

  act-Answered : l.force_finalization ≡ false → Answered s w turn l (act s w turn l)
  unfolding act
  act-Answered free = elim (Bool-cases (is_empty (guarded s turn l).approval_required)) [
    | inr waits ↦ rw waits (asks_approval waits)
    | inl none_waits ↦ elim (Bool-cases (is_empty (guarded s turn l).executable)) [
      | inl idle ↦ rw (none_waits, idle) (observes free)
      | inr busy ↦ rw (none_waits, busy) (run_tools-Answered free (is_empty-nil _ none_waits))
    ]
  ]

  control-Answered :
      (match : RequestUserInputMatch)
      → parse_request_user_input turn.tool_calls ≡ some match
      → l.force_finalization ≡ false
      → Answered s w turn l (control s w turn match l)
  unfolding control
  control-Answered match found free = by_outcome match.outcome refl
    where
      by_outcome :
          (o : String ⊎ RequestUserInputAction)
          → match.outcome ≡ o
          → Answered s w turn l (control s w turn match l)
      by_outcome (inl message) e = rw e (refuses _ _ _ free)
      by_outcome (inr action) e = rw e (asks_user match action found e)

  follow-Answered : Answered s w turn l (follow s w turn l)
  unfolding follow
  follow-Answered = elim (Bool-cases (is_empty turn.tool_calls)) [
    | inl silent ↦ rw silent (finishes (is_empty-nil _ silent))
    | inr calling ↦ rw calling (by_force l.force_finalization refl)
  ]
    where
      by_match :
          l.force_finalization ≡ false
          → (m : Option RequestUserInputMatch) → parse_request_user_input turn.tool_calls ≡ m
          → Answered s w turn l (elim (parse_request_user_input turn.tool_calls) as (λ _. Step) [
            | none ↦ act s w turn l
            | some match ↦ control s w turn match l
          ])
      by_match free none e = rw e (act-Answered free)
      by_match free (some match) e = rw e (control-Answered match e free)

      by_force :
          (b : Bool)
          → l.force_finalization ≡ b
          → Answered s w turn l (
              if b
              then stops (thrown disabled_tools_called) l
              else elim (parse_request_user_input turn.tool_calls) as (λ _. Step) [
                | none ↦ act s w turn l
                | some match ↦ control s w turn match l
              ])
      by_force true forced = fails _
      by_force false free = by_match free (parse_request_user_input turn.tool_calls) refl

  answer_turn-Answered : Answered s w turn l (answer_turn s w turn l)
  unfolding answer_turn
  answer_turn-Answered = elim (Bool-cases (truthy turn.protocol_error)) [
    | inr valid ↦ rw valid follow-Answered
    | inl broken ↦ rw broken (by_force l.force_finalization refl)
  ]
    where
      message : String
      message = text_of turn.protocol_error

      by_force :
          (b : Bool)
          → l.force_finalization ≡ b
          → Answered s w turn l (
              if b
              then stops (thrown (invalid_output message)) l
              else continues (
                  refuse s w turn "MODEL_PROTOCOL_ERROR" 1
                    (protocol_observations s turn message)
                    l))
      by_force true forced = fails _
      by_force false free = refuses _ _ _ free

-- A round ends before it asks the model, or when the model fails, or it goes on with a turn.
pub data RoundView (s : Session) (w : World) (l : LoopState) : Step → Type 0 where
  early : (e : LoopError) → RoundView s w l (stops (thrown e) l)
  model_fails : (e : LoopError) → RoundView s w l (stops (thrown e) (asking s l))
  hears :
      (turn : ReactModelTurnResult) {step : Step}
      → Answered s w turn (heard s turn l) step
      → RoundView s w l step

pub round_view : (s : Session) (w : World) (l : LoopState) → RoundView s w l (round s w l)
unfolding round ask
round_view s w l = elim (Bool-cases (w.is_aborted l.model_calls)) [
  | inl stopped ↦ rw stopped (early _)
  | inr live ↦ elim (Bool-cases (leb s.limits.max_wall_clock_ms (w.elapsed_ms l.model_calls))) [
    | inl late ↦ rw (live, late) (early _)
    | inr timely ↦
        rw (live, timely)
          (by_attempt (w.model (prepare s l).model_calls (model_request s (prepare s l))))
  ]
]
  where
    by_attempt :
        (a : Awaited ReactModelTurnResult)
        → RoundView s w l (elim a as (λ _. Step) [
          | threw timed_out aborted message ↦
              stops (thrown (rethrown s timed_out aborted message)) (asking s l)
          | returned turn ↦ answer_turn s w turn (heard s turn l)
        ])
    by_attempt (threw timed_out aborted message) = model_fails _
    by_attempt (returned turn) = hears turn (answer_turn-Answered s w turn (heard s turn l))
