-- ===== src/React/Transcript/Unresolved.antt =====
-- closeUnresolvedToolCalls answers every tool call.
use sun_pilot.Base.{
  Any, All-append, Option, none, some, eq_iff, ◌⊎◌, String, Bool, true, false, not, ◌||◌, List, [],
  ◌∷◌, ◌++◌, map, ◌===◌, ===_refl, any, filter, flat_map, All, ◌≡◌, refl, sym, ap, ◌∙◌, arith,
  Bool-cases, inl, inr,
}
use sun_pilot.React.Calls.{ToolCall}
use sun_pilot.React.Transcript.{
  ChatMessage, ChatRole, system, user, assistant, tool, tool_message, answered_id, calls_of,
  unresolved, close_unresolved_tool_calls, restarted,
}

abbrev has : String → List String → Bool
has s ids = any (λ id. id === s) ids

-- The answers that are added.
closing : List ToolCall → List ChatMessage
closing cs = map (λ call. tool_message call.id restarted) cs

abbrev is_open : List String → ToolCall → Bool
is_open resolved call = not (has call.id resolved)

has-append : (s : String) (xs ys : List String) → has s (xs ++ ys) ≡ (has s xs || has s ys)
has-append s [] ys = refl
has-append s (x ∷ xs) ys = ground (arith, has-append s xs ys)

or_weaken : (a b c : Bool) → (a || c) ≡ true → (a || (b || c)) ≡ true
or_weaken true b c h = refl
or_weaken false true c h = refl
or_weaken false false c h = h

weaken :
    (resolved ids : List String) (id : String) (cs : List ToolCall)
    → All (λ c. (has c.id resolved || has c.id ids) ≡ true) cs
    → All (λ c. (has c.id resolved || has c.id (id ∷ ids)) ≡ true) cs
weaken resolved ids id [] h = tt
weaken resolved ids id (c ∷ cs) h =
    (or_weaken (has c.id resolved) (id === c.id) (has c.id ids) h.0, weaken resolved ids id cs h.1)

abbrev AreCovered : List String → List ToolCall → List ToolCall → Type 0
AreCovered resolved cs l = All (λ d. (has d.id resolved || has d.id (map (λ k. k.id) l)) ≡ true) cs

covered_by :
    (resolved : List String) (cs l k : List ToolCall)
    → k ≡ l
    → AreCovered resolved cs l
    → AreCovered resolved cs k
covered_by resolved cs l k e h = rw e h

-- Each call is resolved or among the open ones.
covered :
    (resolved : List String) (cs : List ToolCall)
    → All
        (λ c.
          (has c.id resolved || has c.id (map (λ d. d.id) (filter (is_open resolved) cs))) ≡ true)
        cs
covered resolved [] = tt
covered resolved (c ∷ cs) = elim (Bool-cases (has c.id resolved)) [
  | inl held ↦ covered_by resolved (c ∷ cs) _ _ (kept_out held) (rw held refl, covered resolved cs)
  | inr open_call ↦ covered_by resolved (c ∷ cs) _ _ (kept_in open_call) (
    rw (open_call, ===_refl c.id) refl,
    weaken resolved (map (λ d. d.id) (filter (is_open resolved) cs)) c.id cs (covered resolved cs),
  )
]
  where
    kept_out :
        has c.id resolved ≡ true → filter (is_open resolved) (c ∷ cs) ≡ filter (is_open resolved) cs
    kept_out h = rw h refl

    kept_in :
        has c.id resolved ≡ false
        → filter (is_open resolved) (c ∷ cs) ≡ c ∷ filter (is_open resolved) cs
    kept_in h = rw h refl

-- A message of a tool has the id.
abbrev pub Answered : String → List ChatMessage → Type 0
Answered id = Any (λ m. (m.role ≡ tool) × (m.tool_call_id ≡ some id))

Any-append {ℓ} :
    {A : Type ℓ} (P : A → Type 0) (xs ys : List A) → Any P xs ⊎ Any P ys → Any P (xs ++ ys)
Any-append P [] ys (inl h) = absurd h
Any-append P [] ys (inr h) = h
Any-append P (x ∷ xs) ys (inl (inl h)) = inl h
Any-append P (x ∷ xs) ys (inl (inr h)) = inr (Any-append P xs ys (inl h))
Any-append P (x ∷ xs) ys (inr h) = inr (Any-append P xs ys (inr h))

or-true : (a b : Bool) → (a || b) ≡ true → (a ≡ true) ⊎ (b ≡ true)
or-true true b h = inl refl
or-true false b h = inr h

answers_itself :
    (id : String) (m : ChatMessage)
    → has id (answered_id m) ≡ true
    → (m.role ≡ tool) × (m.tool_call_id ≡ some id)
answers_itself id m = by_parts m.role m.tool_call_id
  where
    by_parts :
        (role : ChatRole) (o : Option String)
        → has id (answered_id (record m { role = role; tool_call_id = o })) ≡ true
        → (role ≡ tool) × (o ≡ some id)
    by_parts tool none h = cc
    by_parts tool (some k) h = elim (Bool-cases (k === "")) [
      | inl blank ↦ cc (rw blank at h)
      | inr named ↦ elim (or-true (k === id) false (rw named at h)) [
        | inl same ↦ (refl, ap (λ x. some x) ((eq_iff k id).0 same))
        | inr none_left ↦ cc
      ]
    ]
    by_parts system o h = cc
    by_parts user o h = cc
    by_parts assistant o h = cc

resolved-Answered :
    (id : String) (t : List ChatMessage) → has id (flat_map answered_id t) ≡ true → Answered id t
resolved-Answered id [] h = cc
resolved-Answered id (m ∷ ms) h =
    elim (or-true _ _ (sym (has-append id (answered_id m) (flat_map answered_id ms)) ∙ h)) [
      | inl here ↦ inl (answers_itself id m here)
      | inr later ↦ inr (resolved-Answered id ms later)
    ]

Answered-resolved :
    (id : String) (t : List ChatMessage)
    → (id === "") ≡ false
    → Answered id t
    → has id (flat_map answered_id t) ≡ true
Answered-resolved id [] named h = absurd h
Answered-resolved id (m ∷ ms) named (inl (is_tool, same)) =
    rw (is_tool, same, named, ===_refl id) refl
Answered-resolved id (m ∷ ms) named (inr h) =
    has-append id (answered_id m) (flat_map answered_id ms)
    ∙ or_right (has id (answered_id m)) _ (Answered-resolved id ms named h)
  where
    or_right : (a b : Bool) → b ≡ true → (a || b) ≡ true
    or_right true b h = refl
    or_right false b h = h

closing-Answered :
    (id : String) (cs : List ToolCall)
    → has id (map (λ c. c.id) cs) ≡ true
    → Answered id (closing cs)
unfolding closing
closing-Answered id [] h = cc
closing-Answered id (c ∷ cs) h = elim (or-true (c.id === id) _ h) [
  | inl same ↦ inl (refl, ap (λ x. some x) ((eq_iff c.id id).0 same))
  | inr later ↦ inr (closing-Answered id cs later)
]

-- What is resolved or to be closed is answered in the end.
covered-Answered :
    (t : List ChatMessage) (us cs : List ToolCall)
    → AreCovered (flat_map answered_id t) cs us
    → All (λ c. Answered c.id (t ++ closing us)) cs
covered-Answered t us [] h = tt
covered-Answered t us (c ∷ cs) h = (by_side (or-true _ _ h.0), covered-Answered t us cs h.1)
  where
    by_side :
        (has c.id (flat_map answered_id t) ≡ true) ⊎ (has c.id (map (λ k. k.id) us) ≡ true)
        → Answered c.id (t ++ closing us)
    by_side (inl before) = Any-append _ t _ (inl (resolved-Answered c.id t before))
    by_side (inr after) = Any-append _ t _ (inr (closing-Answered c.id us after))

-- Every call of a message of the assistant is answered in the transcript.
abbrev pub AllAnswered : List ChatMessage → List ChatMessage → Type 0
AllAnswered t = All (λ m. m.role ≡ assistant → All (λ c. Answered c.id t) m.tool_calls)

calls_of-assistant : (m : ChatMessage) → m.role ≡ assistant → calls_of m ≡ m.tool_calls
calls_of-assistant m e = rw e refl

All-split {ℓ κ} :
    {A : Type ℓ} (P : A → Type κ) (xs ys : List A) → All P (xs ++ ys) → All P xs × All P ys
All-split P [] ys h = (tt, h)
All-split P (x ∷ xs) ys h = let (k, l) = All-split P xs ys h.1 in ((h.0, k), l)

calls-AllAnswered :
    (t ms : List ChatMessage) → All (λ c. Answered c.id t) (flat_map calls_of ms) → AllAnswered t ms
calls-AllAnswered t [] h = tt
calls-AllAnswered t (m ∷ ms) h =
    let (here, later) = All-split _ (calls_of m) (flat_map calls_of ms) h in
    (λ e. rw (sym (calls_of-assistant m e)) here, calls-AllAnswered t ms later)

closing-AllAnswered : (t : List ChatMessage) (cs : List ToolCall) → AllAnswered t (closing cs)
unfolding closing
closing-AllAnswered t [] = tt
closing-AllAnswered t (c ∷ cs) = (λ e. cc, closing-AllAnswered t cs)

-- The message answers a call, and not one that has an answer in the transcript.
abbrev pub IsMissingIn : List ChatMessage → ChatMessage → Type 0
IsMissingIn t n =
    (n.role ≡ tool)
    × (id : String) × (n.tool_call_id ≡ some id)
    × ((id === "") ≡ false → ¬ Answered id t)

closing-AreMissing :
    (t : List ChatMessage) (cs : List ToolCall)
    → All (IsMissingIn t) (closing (filter (is_open (flat_map answered_id t)) cs))
unfolding closing
closing-AreMissing t [] = tt
closing-AreMissing t (c ∷ cs) = elim (Bool-cases (has c.id (flat_map answered_id t))) [
  | inl held ↦ rw held (closing-AreMissing t cs)
  | inr open_call ↦ rw open_call (
    (refl, c.id, refl, λ named a. cc (Answered-resolved c.id t named a)),
    closing-AreMissing t cs,
  )
]

-- After closeUnresolvedToolCalls every tool call of a message of the assistant is answered by a
-- message of a tool with its id; the messages of before stand first, and each one added is a tool's
-- and answers no id, but the empty one, that had an answer.
pub close_unresolved_tool_calls_lem :
    (transcript : List ChatMessage)
    → let closed = close_unresolved_tool_calls transcript in
      AllAnswered closed closed
      × (added : List ChatMessage) × (closed ≡ transcript ++ added)
      × All (IsMissingIn transcript) added
unfolding unresolved close_unresolved_tool_calls closing
close_unresolved_tool_calls_lem transcript =
    let resolved = flat_map answered_id transcript in
    let calls = flat_map calls_of transcript in
    let us = filter (is_open resolved) calls in
    let answered = covered-Answered transcript us calls (covered resolved calls) in
    (
      All-append _ transcript (closing us)
          (calls-AllAnswered (transcript ++ closing us) transcript answered)
          (closing-AllAnswered (transcript ++ closing us) us),
      closing us,
      refl,
      closing-AreMissing transcript calls,
    )
