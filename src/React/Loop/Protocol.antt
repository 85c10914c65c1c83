-- ===== src/React/Loop/Protocol.antt =====
-- The transcript of the loop: at the head of each round every tool call is answered.

use sun_pilot.React.Turn.{refuse, persist, emit_turn, note_role, replace_last}
use sun_pilot.Base.{
  ◌++◌, ap, inr, ℕ, String, Option, none, some, List, [], ◌∷◌, ◌≡◌, refl, Bool-cases, any, ◌===◌,
  ◌∙◌, inl,
}
use sun_pilot.React.Calls.{ReactObservation, ToolCallSummary, ToolCall}
use sun_pilot.React.Guard.{Batch}
use sun_pilot.React.Transcript.Closed.{
  IsClosed, Awaits, call_ids, inject_observations-IsClosed, turn-Awaits, plain-IsClosed,
}
use sun_pilot.React.Session.{LoopState, World, Session, ReactModelTurnResult, TextRole}
use sun_pilot.React.Loop.{
  observe_round, receive, prepare, note_completed, list_summary, list_summaries, is_failed,
  is_forced, ChatMessage, assistant_message,
}
use sun_pilot.React.Loop.View.{heard}

note_completed-transcript :
    (o : Option String) (l : LoopState) → (note_completed o l).transcript ≡ l.transcript
note_completed-transcript none l = refl
note_completed-transcript (some part) l = elim (Bool-cases (part === "")) [
  | inl blank ↦ rw blank refl
  | inr named ↦ rw named refl
]

pub note_role-transcript :
    (o : Option String) (role : TextRole) (l : LoopState)
    → (note_role o role l).transcript ≡ l.transcript
note_role-transcript none role l = refl
note_role-transcript (some part) role l = elim (Bool-cases (part === "")) [
  | inl blank ↦ rw blank refl
  | inr named ↦ rw named refl
]

list_summary-transcript :
    (summary : ToolCallSummary) (l : LoopState) → (list_summary summary l).transcript ≡ l.transcript
unfolding list_summary
list_summary-transcript summary l =
    elim (Bool-cases (any (λ old. old.id === summary.id) l.tool_call_summaries)) [
      | inl listed ↦ elim (Bool-cases (is_failed summary.status)) [
        | inl bad ↦ rw (listed, bad) refl
        | inr good ↦ rw (listed, good) refl
      ]
      | inr new ↦ elim (Bool-cases (is_failed summary.status)) [
        | inl bad ↦ rw (new, bad) refl
        | inr good ↦ rw (new, good) refl
      ]
    ]

pub list_summaries-transcript :
    (summaries : List ToolCallSummary) (l : LoopState)
    → (list_summaries summaries l).transcript ≡ l.transcript
unfolding list_summaries
list_summaries-transcript [] l = refl
list_summaries-transcript (x ∷ xs) l =
    list_summaries-transcript xs (list_summary x l) ∙ list_summary-transcript x l

prepare-IsClosed :
    (s : Session) (l : LoopState) → IsClosed l.transcript → IsClosed (prepare s l).transcript
unfolding prepare
prepare-IsClosed s l h = elim (Bool-cases (is_forced s l)) [
  | inl forced ↦ rw forced (plain-IsClosed l.transcript _ h)
  | inr free ↦ rw free h
]

-- The transcript ends with the turn, and was closed before.
abbrev pub Follows : ReactModelTurnResult → LoopState → Type 0
Follows turn l =
    (t : List ChatMessage) × IsClosed t
    × (l.transcript ≡ t ++ assistant_message turn.text turn.tool_calls ∷ [])

pub Follows-Awaits :
    (turn : ReactModelTurnResult) (l : LoopState)
    → Follows turn l
    → Awaits l.transcript (call_ids turn.tool_calls)
Follows-Awaits turn l (t, closed, e) = rw e (turn-Awaits t turn.text turn.tool_calls closed)

pub heard-Follows :
    (s : Session) (turn : ReactModelTurnResult) (l : LoopState)
    → IsClosed l.transcript
    → Follows turn (heard s turn l)
unfolding receive persist
heard-Follows s turn l h = (
  (prepare s l).transcript,
  prepare-IsClosed s l h,
  note_completed-transcript turn.text_part_id _,
)

pub refuse-IsClosed :
    (s : Session) (w : World) (turn : ReactModelTurnResult) (code : String) (rejected : ℕ)
    (os : List ReactObservation) (l : LoopState)
    → Awaits l.transcript (call_ids turn.tool_calls)
    → IsClosed (refuse s w turn code rejected os l).transcript
unfolding refuse emit_turn persist
refuse-IsClosed s w turn code rejected os l h =
    inject_observations-IsClosed l.transcript turn.tool_calls os h

pub observe_round-IsClosed :
    (s : Session) (w : World) (turn : ReactModelTurnResult) (b : Batch) (ms : ℕ)
    (found : List ReactObservation) (l : LoopState)
    → Awaits l.transcript (call_ids turn.tool_calls)
    → IsClosed (observe_round s w turn b ms found l).transcript
unfolding observe_round emit_turn persist
observe_round-IsClosed s w turn b ms found l h =
    rw (list_summaries-transcript) (inject_observations-IsClosed l.transcript turn.tool_calls _ h)

pub replace_last-append :
    (content text : List ℕ) (calls : List ToolCall) (t : List ChatMessage)
    → replace_last content (t ++ assistant_message text calls ∷ [])
      ≡ t ++ assistant_message content calls ∷ []
replace_last-append content text calls [] = refl
replace_last-append content text calls (m ∷ []) = refl
replace_last-append content text calls (m ∷ n ∷ t) =
    ap (λ rest. m ∷ rest) (replace_last-append content text calls (n ∷ t))
