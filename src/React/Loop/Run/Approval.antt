-- ===== src/React/Loop/Run/Approval.antt =====
-- The approval of a batch of calls: what `assertApprovedBatchMatchesCheckpoint` accepts.
use sun_pilot.Base.{
  suc, ◌≤◌, ap, map, Any, String, ◌⊎◌, insert, lookup-insert, sym, ◌∙◌, if◌then◌else◌, Bool-cases,
  Bool, true, false, some, List, [], ◌∷◌, ◌≡◌, inl, inr, refl, All, ◌===◌, eq_iff, length, ltb,
  ◌==◌, all, lookup, Dict, ◌&&◌, Option-cases, arith,
}
use sun_pilot.Json.{obj}
use sun_pilot.Json.Stable.{stable_stringify}
use sun_pilot.Tools.Validator.{Platform}
use sun_pilot.React.Calls.{PlannedToolCall}
use sun_pilot.React.Counts.{same_codes-eq}
use sun_pilot.React.Loop.Run.Distinct.{
  AreDistinct, Holds, keys_of, length-keys_of, lookup-Holds, approved-IsFound, distinct_le,
}
use sun_pilot.React.Session.{World, Session, ReactCheckpoint, thrown, scope_mismatch}
use sun_pilot.React.Loop.Run.{
  ApprovedTool, approved_by_id, set_approved, is_approved, approved_batch_matches,
  resume_after_approved_tools, state_of,
}

and-true : (a b : Bool) → (a && b) ≡ true → (a ≡ true) × (b ≡ true)
and-true true b h = (refl, h)
and-true false b h = cc

-- The tool was approved for the call: under its id, for its skill, with arguments of the same text.
abbrev pub IsFor : Platform → PlannedToolCall → ApprovedTool → Type 0
IsFor platform call t =
    (t.skill_id ≡ call.skill_id)
    × (stable_stringify platform.precedes (obj t.arguments)
        ≡ stable_stringify platform.precedes (obj call.arguments))

is_approved-IsFor :
    (platform : Platform) (d : Dict ApprovedTool) (call : PlannedToolCall)
    → is_approved platform d call ≡ true
    → (t : ApprovedTool) × (lookup call.id d ≡ some t) × IsFor platform call t
unfolding is_approved
is_approved-IsFor platform d call h = elim (Option-cases (lookup call.id d)) [
  | inl missing ↦ cc (rw (is_approved, missing) at h)
  | inr (t, found) ↦
      let (skill, args) =
        and-true (t.skill_id === call.skill_id) _ (rw (is_approved, found) at h) in
      (t, found, ((eq_iff t.skill_id call.skill_id).0 skill, same_codes-eq _ _ args))
]

-- What is found under an id was approved under it.
found-Any :
    (id : String) (t : ApprovedTool) (d : Dict ApprovedTool) (ts : List ApprovedTool)
    → lookup id (set_approved d ts) ≡ some t
    → (lookup id d ≡ some t) ⊎ Any (λ u. (u ≡ t) × (u.tool_call_id ≡ id)) ts
unfolding set_approved
found-Any id t d [] h = inl h
found-Any id t d (u ∷ ts) h = elim (found-Any id t (insert u.tool_call_id u d) ts h) [
  | inr later ↦ inr (inr later)
  | inl kept ↦
      by_key (u.tool_call_id === id) refl (sym (lookup-insert u.tool_call_id id u d) ∙ kept)
]
  where
    by_key :
        (b : Bool)
        → (u.tool_call_id === id) ≡ b
        → (if b then some u else lookup id d) ≡ some t
        → (lookup id d ≡ some t) ⊎ Any (λ v. (v ≡ t) × (v.tool_call_id ≡ id)) (u ∷ ts)
    by_key true e k = inr (inl (cc k, (eq_iff u.tool_call_id id).0 e))
    by_key false e k = inl k

-- No tool that was approved under the call's id is for its skill and arguments.
abbrev pub IsUnapproved : Platform → List ApprovedTool → PlannedToolCall → Type 0
IsUnapproved platform approved call =
    All (λ t. t.tool_call_id ≡ call.id → ¬ IsFor platform call t) approved

none_fits :
    (platform : Platform) (call : PlannedToolCall) (t : ApprovedTool) (ts : List ApprovedTool)
    → IsUnapproved platform ts call
    → Any (λ u. (u ≡ t) × (u.tool_call_id ≡ call.id)) ts
    → ¬ IsFor platform call t
none_fits platform call t [] h m f = absurd m
none_fits platform call t (u ∷ ts) h (inl (same, id)) f = h.0 id (rw same f)
none_fits platform call t (u ∷ ts) h (inr m) f = none_fits platform call t ts h.1 m f

unapproved-false :
    (platform : Platform) (approved : List ApprovedTool) (call : PlannedToolCall)
    → IsUnapproved platform approved call
    → is_approved platform (approved_by_id approved) call ≡ false
unfolding approved_by_id lookup
unapproved-false platform approved call h =
    elim (Bool-cases (is_approved platform (approved_by_id approved) call)) [
      | inr no_scope ↦ no_scope
      | inl scoped ↦
          let (t, found, fits) = is_approved-IsFor platform (approved_by_id approved) call scoped in
          elim (found-Any call.id t [] approved found) [
            | inl early ↦ cc
            | inr m ↦ absurd (none_fits platform call t approved h m fits)
          ]
    ]

and_false : (a b : Bool) → b ≡ false → (a && b) ≡ false
and_false true b e = e
and_false false b e = refl

Any-all :
    (platform : Platform) (approved : List ApprovedTool) (calls : List PlannedToolCall)
    → Any (IsUnapproved platform approved) calls
    → all (is_approved platform (approved_by_id approved)) calls ≡ false
Any-all platform approved [] h = absurd h
Any-all platform approved (call ∷ calls) (inl h) =
    rw (unapproved-false platform approved call h) refl
Any-all platform approved (call ∷ calls) (inr h) =
    and_false (is_approved platform (approved_by_id approved) call) _
      (Any-all platform approved calls h)

abbrev ids_of : List PlannedToolCall → List String
ids_of calls = map (λ call. call.id) calls

length-ids_of : (calls : List PlannedToolCall) → length (ids_of calls) ≡ length calls
length-ids_of [] = refl
length-ids_of (call ∷ calls) = ap suc (length-ids_of calls)

-- The ids of the calls are distinct, and a tool was approved under none of them.
abbrev pub HasForeign : List PlannedToolCall → List ApprovedTool → Type 0
HasForeign calls approved =
    AreDistinct (map (λ call. call.id) calls)
    × Any (λ t. All (λ id. ¬ (t.tool_call_id ≡ id)) (map (λ call. call.id) calls)) approved

foreign_id :
    (ids : List String) (ts : List ApprovedTool)
    → Any (λ t. All (λ id. ¬ (t.tool_call_id ≡ id)) ids) ts
    → (k : String) × All (λ id. ¬ (k ≡ id)) ids × Any (λ u. u.tool_call_id ≡ k) ts
foreign_id ids [] h = absurd h
foreign_id ids (t ∷ ts) (inl h) = (t.tool_call_id, h, inl refl)
foreign_id ids (t ∷ ts) (inr h) = let (k, apart, m) = foreign_id ids ts h in (k, apart, inr m)

approved-Holds :
    (platform : Platform) (d : Dict ApprovedTool) (calls : List PlannedToolCall)
    → all (is_approved platform d) calls ≡ true
    → All (λ id. Holds id (keys_of d)) (ids_of calls)
approved-Holds platform d [] h = tt
approved-Holds platform d (call ∷ calls) h =
    let (here, later) = and-true (is_approved platform d call) _ h in
    let (t, found, fits) = is_approved-IsFor platform d call here in
    (lookup-Holds call.id t d found, approved-Holds platform d calls later)

foreign-false :
    (platform : Platform) (calls : List PlannedToolCall) (approved : List ApprovedTool)
    → HasForeign calls approved
    → approved_batch_matches platform calls approved ≡ false
unfolding approved_batch_matches approved_by_id
foreign-false platform calls approved (distinct, foreign) =
    elim (Bool-cases (approved_batch_matches platform calls approved)) [
      | inr refused ↦ refused
      | inl accepted ↦
          let d = approved_by_id approved in
          let (sizes, each) =
            and-true (ltb 0 (length calls) && length d == length calls) _ accepted in
          let (filled, same) = and-true (ltb 0 (length calls)) _ sizes in
          let equal : length d ≡ length calls = ground arith in
          let (k, apart, m) = foreign_id (ids_of calls) approved foreign in
          let (t, found) = approved-IsFound k [] approved (inr m) in
          let fewer : suc (length (ids_of calls)) ≤ length (keys_of d) =
            distinct_le (k ∷ ids_of calls) (keys_of d) (apart, distinct)
              (lookup-Holds k t d found, approved-Holds platform d calls each) in
          absurd (omega (arith, length-ids_of calls, length-keys_of d))
    ]

-- If no call waits, or one of those that wait was not approved under its id for its skill with
-- arguments of the same text, or the ids of those that wait are distinct and a tool was approved under
-- none of them, nothing is executed and no model is called: the method throws that the scope does not
-- match, whatever the outside does.
pub unapproved_refused :
    (s : Session) (w : World) (c : ReactCheckpoint) (approved : List ApprovedTool)
    → (c.pending_tool_calls ≡ [])
      ⊎ Any (IsUnapproved s.platform approved) c.pending_tool_calls
      ⊎ HasForeign c.pending_tool_calls approved
    → resume_after_approved_tools s w c approved ≡ some (thrown scope_mismatch, state_of s c)
unfolding resume_after_approved_tools approved_batch_matches
unapproved_refused s w c approved (inl none_waits) = rw none_waits refl
unapproved_refused s w c approved (inr (inr foreign)) =
    rw (foreign-false s.platform c.pending_tool_calls approved foreign) refl
unapproved_refused s w c approved (inr (inl m)) =
    rw (refused (Any-all s.platform approved c.pending_tool_calls m)) refl
  where
    refused :
        all (is_approved s.platform (approved_by_id approved)) c.pending_tool_calls ≡ false
        → approved_batch_matches s.platform c.pending_tool_calls approved ≡ false
    refused e =
        and_false
          (ltb 0 (length c.pending_tool_calls)
            && length (approved_by_id approved) == length c.pending_tool_calls)
          _ e
