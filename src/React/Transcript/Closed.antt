-- ===== src/React/Transcript/Closed.antt =====
-- The protocol of tool calls: what the calls of an assistant's message are answered by before
-- anything else is said.
use sun_pilot.Base.{
  lookup, ℕ, String, not, Option, none, some, List, [], ◌∷◌, ◌++◌, ◌≡◌, inl, inr, refl, map, ◌===◌,
  if◌then◌else◌, eq_iff, Bool-cases, Option-cases, sym, ◌∙◌, ap, filter,
}
use mathlib.Core.List.{Perm, Mem, mem-cons, mem-cons_self, not-mem-nil}
use mathlib.Core.List.Perm
use mathlib.Core.Logic.Or
use sun_pilot.React.Calls.{ToolCall, ReactObservation, ToolCallSummary}
use sun_pilot.React.Transcript.{
  ChatMessage, ChatRole, system, assistant, tool, plain, assistant_message, tool_message,
  inject_observations, append_summaries, summary_content, truthy, content_or, not_executed,
  by_call_id,
}

abbrev pub call_ids : List ToolCall → List String
call_ids calls = map (λ c. c.id) calls

-- The ids without one occurrence of `id`, if it occurs.
unfoldable pub strike : String → List String → Option (List String)
strike id [] = none
strike id (x ∷ xs) =
    let rest = strike id xs in
    if x === id then some xs else elim rest [ none ↦ none | some ys ↦ some (x ∷ ys) ]

abbrev strike_id : Option String → List String → Option (List String)
strike_id none ids = none
strike_id (some id) ids = strike id ids

abbrev only_done : List String → List String → Option (List String)
only_done new [] = some new
only_done new (id ∷ ids) = none

-- One message: a tool's answers one of the awaited ids, and any other may come once none is awaited.
abbrev hear : ChatRole → ChatMessage → List String → Option (List String)
hear tool m ids = strike_id m.tool_call_id ids
hear assistant m ids = only_done (call_ids m.tool_calls) ids
hear _ m ids = only_done [] ids

-- The ids that are awaited after the messages; `none` where the protocol is broken.
unfoldable pub awaiting : List String → List ChatMessage → Option (List String)
unfolding strike
awaiting ids [] = some ids
awaiting ids (m ∷ ms) = elim (hear m.role m ids) [ none ↦ none | some rest ↦ awaiting rest ms ]

-- A transcript that a model can be asked with: every tool call is answered.
abbrev pub IsClosed : List ChatMessage → Type 0
IsClosed transcript = awaiting [] transcript ≡ some []

-- A transcript that ends with calls whose ids are to be answered.
abbrev pub Awaits : List ChatMessage → List String → Type 0
Awaits transcript ids = awaiting [] transcript ≡ some ids

pub awaiting-append :
    (ids mid : List String) (t u : List ChatMessage)
    → awaiting ids t ≡ some mid
    → awaiting ids (t ++ u) ≡ awaiting mid u
unfolding awaiting
awaiting-append ids mid [] u h = ap (λ o. awaiting (or_nil o) u) h
  where
    or_nil : Option (List String) → List String
    or_nil none = []
    or_nil (some i) = i
awaiting-append ids mid (m ∷ ms) u h =
    by_answer (λ rest. awaiting-append rest mid ms u) (hear m.role m ids) h
  where
    by_answer :
        ((rest : List String)
          → awaiting rest ms ≡ some mid
          → awaiting rest (ms ++ u) ≡ awaiting mid u)
        → (o : Option (List String))
        → (elim o as (λ _. Option (List String)) [ none ↦ none | some rest ↦ awaiting rest ms ])
          ≡ some mid
        → (elim o as (λ _. Option (List String)) [
          | none ↦ none
          | some rest ↦ awaiting rest (ms ++ u)
        ])
          ≡ awaiting mid u
    by_answer ih none e = cc
    by_answer ih (some rest) e = ih rest e

strike-perm : (id : String) (xs ys : List String) → strike id xs ≡ some ys → Perm xs (id ∷ ys)
unfolding strike
strike-perm id [] ys h = cc
strike-perm id (x ∷ xs) ys h = elim (Bool-cases (x === id)) [
  | inl same ↦
      let e : some xs ≡ some ys = rw same at h in
      let t : xs ≡ ys = cc e in rw ((eq_iff x id).0 same, t) (Perm.refl _)
  | inr other ↦ elim (Option-cases (strike id xs)) [
    | inl missing ↦ cc (rw (other, missing) at h)
    | inr (zs, found) ↦
        let e : some (x ∷ zs) ≡ some ys = rw (other, found) at h in
        let t : x ∷ zs ≡ ys = cc e in
        rw (sym t) (Perm.trans (Perm.cons x (strike-perm id xs zs found)) (Perm.swap id x zs))
  ]
]

strike-none : (id : String) (xs : List String) → strike id xs ≡ none → Mem id xs → ⊥
unfolding strike
strike-none id [] h m = not-mem-nil m
strike-none id (x ∷ xs) h m = elim (Bool-cases (x === id)) [
  | inl same ↦ cc (rw same at h)
  | inr other ↦ elim (Option-cases (strike id xs)) [
    | inr (zs, found) ↦ cc (rw (other, found) at h)
    | inl missing ↦
        Or.elim (hlevel) (mem-cons.0 m) (λ e. cc ((eq_iff x id).1 (sym e)))
          (strike-none id xs missing)
  ]
]

-- The messages of tools for all awaited ids, in any order, leave none awaited.
pub awaiting-tools :
    (content : String → List ℕ) (ids pending : List String)
    → Perm ids pending
    → awaiting ids (map (λ id. tool_message id (content id)) pending) ≡ some []
unfolding awaiting
awaiting-tools content ids [] p = ap some (Perm.eq-nil p)
awaiting-tools content ids (id ∷ pending) p = elim (Option-cases (strike id ids)) [
  | inl missing ↦ absurd (strike-none id ids missing ((Perm.mem_iff p).1 mem-cons_self))
  | inr (rest, found) ↦
      rw (awaiting, found)
        (awaiting-tools content rest pending
          (Perm.cons_inv (Perm.trans (Perm.symm (strike-perm id ids rest found)) p)))
]

awaiting-systems :
    (os : List ReactObservation) → IsClosed (map (λ o. plain system o.model_content) os)
unfolding awaiting
awaiting-systems [] = refl
awaiting-systems (o ∷ os) = awaiting-systems os

-- Answers for the calls of a message close the transcript that awaits them.
pub inject_observations-IsClosed :
    (t : List ChatMessage) (calls : List ToolCall) (os : List ReactObservation)
    → Awaits t (call_ids calls)
    → IsClosed (inject_observations t calls os)
unfolding inject_observations
inject_observations-IsClosed t calls os h =
    awaiting-append [] [] (t ++ map (λ call. tool_message call.id (content call.id)) calls)
      (map (λ o. plain system o.model_content) (filter (λ o. not (truthy o.tool_call_id)) os))
      (awaiting-append [] (call_ids calls) t _ h ∙ answered)
    ∙ awaiting-systems (filter (λ o. not (truthy o.tool_call_id)) os)
  where
    content : String → List ℕ
    content id = content_or not_executed (lookup id (by_call_id os))

    by_ids :
        (cs : List ToolCall)
        → map (λ call. tool_message call.id (content call.id)) cs
          ≡ map (λ id. tool_message id (content id)) (call_ids cs)
    by_ids [] = refl
    by_ids (c ∷ cs) = rw (by_ids cs) refl

    answered :
        awaiting (call_ids calls) (map (λ call. tool_message call.id (content call.id)) calls)
        ≡ some []
    answered =
        ap (awaiting (call_ids calls)) (by_ids calls)
        ∙ awaiting-tools content (call_ids calls) (call_ids calls) (Perm.refl _)

-- So do the results of tools, or the rejections, for the awaited ids in any order.
pub append_summaries-IsClosed :
    (n : ℕ) (t : List ChatMessage) (ids pending : List String) (summaries : List ToolCallSummary)
    → Awaits t ids
    → Perm ids pending
    → IsClosed (append_summaries n t pending summaries)
unfolding append_summaries
append_summaries-IsClosed n t ids pending summaries h p =
    awaiting-append [] ids t _ h
    ∙ awaiting-tools (λ id. summary_content n id summaries) ids pending p

-- A turn of the assistant leaves the ids of its calls awaited.
pub turn-Awaits :
    (t : List ChatMessage) (content : List ℕ) (calls : List ToolCall)
    → IsClosed t
    → Awaits (t ++ assistant_message content calls ∷ []) (call_ids calls)
unfolding awaiting
turn-Awaits t content calls h = awaiting-append [] [] t (assistant_message content calls ∷ []) h

pub plain-IsClosed :
    (t : List ChatMessage) (content : List ℕ)
    → IsClosed t
    → IsClosed (t ++ plain system content ∷ [])
unfolding awaiting
plain-IsClosed t content h = awaiting-append [] [] t (plain system content ∷ []) h
