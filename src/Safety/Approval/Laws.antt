-- ===== src/Safety/Approval/Laws.antt =====
-- An approval is decided once, and expires only by `expireStale`.
use mathlib.Core.Option
use sun_pilot.Base.{
  ℕ, ◌<◌, String, true, false, Option, some, [], ◌∷◌, ◌≡◌, ◌⊎◌, inl, inr, refl, arith, ◌===◌,
  ===_refl, eq_iff, Dict, lookup, lookup-insert, lookup-remove, Option-cases, if◌then◌else◌, Bool,
  List, Bool-cases,
}
use sun_pilot.Text.{append}
use sun_pilot.Safety.Types.{ApprovalRequest, pending, approved, rejected, expired}
use sun_pilot.Safety.Approval.{
  Gate, Result, ok, err, approval_already_decided, ApprovalInput, Approval, is_pending,
  create_approval, requested, approved_by, rejected_by, approve, reject, cleanup, is_stale,
  expire_stale_from, expire_stale,
}

approve_decides :
    (now : ℕ) (id : String) (by : Option String) (g h : Gate) (a : Approval)
    → approve now id by g ≡ ok (h, a)
    → (r : ApprovalRequest) × (lookup id h.approvals ≡ some r) × (r.status ≡ approved)
unfolding approve approved_by
approve_decides now id by g h a e = elim (Option-cases (lookup id g.approvals)) [
  | inl missing ↦ ground arith
  | inr (r, there) ↦ (
    approved_by now by r,
    ground (arith, lookup-insert id id (approved_by now by r) g.approvals, ===_refl id),
    refl,
  )
]

reject_decides :
    (now : ℕ) (id : String) (by why : Option String) (g h : Gate) (run : String)
    → reject now id by why g ≡ ok (h, run)
    → (r : ApprovalRequest) × (lookup id h.approvals ≡ some r) × (r.status ≡ rejected)
unfolding reject rejected_by
reject_decides now id by why g h run e = elim (Option-cases (lookup id g.approvals)) [
  | inl missing ↦ ground arith
  | inr (r, there) ↦ (
    rejected_by now by why r,
    ground (arith, lookup-insert id id (rejected_by now by why r) g.approvals, ===_refl id),
    refl,
  )
]

-- The decision went through, by `approve` or by `reject`.
abbrev pub Decides : ℕ → String → Gate → Gate → Type 0
Decides now id g h =
    ((by : Option String) × (a : Approval) × (approve now id by g ≡ ok (h, a)))
    ⊎ ((by : Option String) × (why : Option String) × (run : String) × (reject now id by why g
          ≡ ok (h, run)))

decided_status :
    (now : ℕ) (id : String) (g h : Gate)
    → Decides now id g h
    → (r : ApprovalRequest) × (lookup id h.approvals ≡ some r) × (is_pending r.status ≡ false)
decided_status now id g h (inl (by, a, e)) =
    let (r, l, s) = approve_decides now id by g h a e in (r, l, rw s refl)
decided_status now id g h (inr (by, why, run, e)) =
    let (r, l, s) = reject_decides now id by why g h run e in (r, l, rw s refl)

-- Right after a request was approved or rejected it can be neither approved nor rejected again: both
-- throw that it is decided already.
pub decided_once :
    (now later : ℕ) (id : String) (g h : Gate) (by why : Option String)
    → Decides now id g h
    → (approve later id by h ≡ err approval_already_decided)
      × (reject later id by why h ≡ err approval_already_decided)
unfolding approve reject
decided_once now later id g h by why d = let (r, l, s) = decided_status now id g h d in ground arith

pub data Call : Type 0 where
  creates : String → ApprovalInput → Call
  approves : String → Option String → Call
  rejects : String → Option String → Option String → Call
  cleans : String → Call
  expires : Call

abbrev after {ℓ} : {A : Type ℓ} → Gate → Result (Gate × A) → Gate
after g (ok (h, a)) = h
after g (err e) = g

unfoldable pub step : ℕ → Call → Gate → Gate
unfolding create_approval approve reject cleanup expire_stale
step now (creates uuid input) g = (create_approval now uuid input g).0
step now (approves id by) g = after g (approve now id by g)
step now (rejects id by why) g = after g (reject now id by why g)
step now (cleans id) g = cleanup id g
step now expires g = (expire_stale now g).0

-- The call neither evicts the request nor draws its id again.
abbrev pub Spares : String → Call → Type 0
Spares id (creates uuid input) = (append "approval_" uuid === id) ≡ false
Spares id (cleans k) = (k === id) ≡ false
Spares id _ = Unit

-- What `expireStale` makes of a request.
abbrev pub aged : ℕ → ApprovalRequest → ApprovalRequest
aged now a = if is_stale now a then record a { status = expired } else a

lookup-expire_stale_from :
    (now : ℕ) (id : String) (m : Dict ApprovalRequest)
    → lookup id (expire_stale_from now m).0 ≡ Option.map (aged now) (lookup id m)
unfolding expire_stale_from lookup
lookup-expire_stale_from now id [] = refl
lookup-expire_stale_from now id ((k, a) ∷ m) = ground (arith, lookup-expire_stale_from now id m)

decided_not_stale : (now : ℕ) (a : ApprovalRequest) → is_pending a.status ≡ false → aged now a ≡ a
unfolding is_stale
decided_not_stale now a h = ground arith

-- A call that writes a pending request leaves the others.
approves_other :
    (now : ℕ) (k id : String) (by : Option String) (g : Gate) (a : ApprovalRequest)
    → is_pending a.status ≡ false
    → lookup id g.approvals ≡ some a
    → lookup id (after g (approve now k by g)).approvals ≡ some a
unfolding approve
approves_other now k id by g a p l = elim (Option-cases (lookup k g.approvals)) [
  | inl missing ↦ ground arith
  | inr (r, there) ↦
      ground (arith, lookup-insert k id (approved_by now by r) g.approvals, eq_iff k id)
]

rejects_other :
    (now : ℕ) (k id : String) (by why : Option String) (g : Gate) (a : ApprovalRequest)
    → is_pending a.status ≡ false
    → lookup id g.approvals ≡ some a
    → lookup id (after g (reject now k by why g)).approvals ≡ some a
unfolding reject
rejects_other now k id by why g a p l = elim (Option-cases (lookup k g.approvals)) [
  | inl missing ↦ ground arith
  | inr (r, there) ↦
      ground (arith, lookup-insert k id (rejected_by now by why r) g.approvals, eq_iff k id)
]

-- A request that is no longer pending keeps its record through every call but the one that evicts it
-- and one that creates a request under its id.
pub step_decided :
    (now : ℕ) (c : Call) (g : Gate) (id : String) (a : ApprovalRequest)
    → Spares id c
    → is_pending a.status ≡ false
    → lookup id g.approvals ≡ some a
    → lookup id (step now c g).approvals ≡ some a
unfolding step
step_decided now (creates uuid input) g id a s p l = ground (
  arith,
  lookup-insert (append "approval_" uuid) id (requested now (append "approval_" uuid) input)
      g.approvals,
)
step_decided now (approves k by) g id a s p l = approves_other now k id by g a p l
step_decided now (rejects k by why) g id a s p l = rejects_other now k id by why g a p l
step_decided now (cleans k) g id a s p l = rw (lookup-remove k id g.approvals, s) l
step_decided now expires g id a s p l =
    rw (lookup-expire_stale_from now id g.approvals, l, decided_not_stale now a p)

-- A pending request whose time ended before now.
abbrev pub IsOver : ℕ → ApprovalRequest → Type 0
IsOver now a = (a.status ≡ pending) × (t : ℕ) × (a.expires_at ≡ some t) × (t < now)

is_stale-IsOver : (now : ℕ) (a : ApprovalRequest) → is_stale now a ≡ true → IsOver now a
unfolding is_stale
is_stale-IsOver now a h = elim (Option-cases a.expires_at) [
  | inl never ↦ ground arith
  | inr (t, e) ↦ (ground arith, t, e, ground arith)
]

IsOver-is_stale : (now : ℕ) (a : ApprovalRequest) → IsOver now a → is_stale now a ≡ true
unfolding is_stale
IsOver-is_stale now a (p, t, e, h) = ground arith

-- The entries before and after, and the ids that are returned: an entry whose time is over expires
-- and gives its id, and every other stays.
pub data Expires (now : ℕ)
    : Dict ApprovalRequest → Dict ApprovalRequest → List String → Type 0 where
  none_left : Expires now [] [] []
  expires_next :
      (k : String) (a : ApprovalRequest) {m n : Dict ApprovalRequest} {ids : List String}
      → IsOver now a
      → Expires now m n ids
      → Expires now ((k, a) ∷ m) ((k, record a { status = expired }) ∷ n) (k ∷ ids)
  keeps_next :
      (k : String) (a : ApprovalRequest) {m n : Dict ApprovalRequest} {ids : List String}
      → ¬ IsOver now a
      → Expires now m n ids
      → Expires now ((k, a) ∷ m) ((k, a) ∷ n) ids

expire_stale_from-Expires :
    (now : ℕ) (m : Dict ApprovalRequest)
    → Expires now m (expire_stale_from now m).0 (expire_stale_from now m).1
unfolding expire_stale_from
expire_stale_from-Expires now [] = none_left
expire_stale_from-Expires now ((k, a) ∷ m) = elim (Bool-cases (is_stale now a)) [
  | inl over ↦
      rw over (expires_next k a (is_stale-IsOver now a over) (expire_stale_from-Expires now m))
  | inr in_time ↦
      rw in_time
        (keeps_next k a (λ h. cc (IsOver-is_stale now a h)) (expire_stale_from-Expires now m))
]

-- `expireStale` goes through the requests in their order: one that is pending and whose time ended
-- before now becomes expired, with the rest of its record kept, and its id is returned; every other
-- stays as it is, and its id is not returned.
pub expire_stale_lem :
    (now : ℕ) (g : Gate)
    → Expires now g.approvals (expire_stale now g).0.approvals (expire_stale now g).1
unfolding expire_stale
expire_stale_lem now g = expire_stale_from-Expires now g.approvals

abbrev pub accepted {ℓ} : {A : Type ℓ} → Result A → Bool
accepted (ok a) = true
accepted (err e) = false

-- `approve` accepts a pending request whose time was over before the call, which `expireStale` would
-- expire.
pub approve_after_expiry :
    (now t : ℕ) (id : String) (by : Option String) (g : Gate) (a : ApprovalRequest)
    → lookup id g.approvals ≡ some a
    → a.status ≡ pending
    → a.expires_at ≡ some t
    → t < now
    → (is_stale now a ≡ true) × (accepted (approve now id by g) ≡ true)
unfolding approve is_stale
approve_after_expiry now t id by g a l p e h = ground arith
