-- ===== src/Run/Status.antt =====
-- agent-kernel/state/run-state-machine.ts and the statuses of a run (protocol/types.ts).
use sun_pilot.Base.{Bool, true, false, ◌||◌, List, [], ◌∷◌, any, length, ◌==◌}

pub data AgentLoopStatus : Type 0 where
  created running waiting_approval waiting_user : AgentLoopStatus
  completed cancelled failed interrupted : AgentLoopStatus

-- `===` of two statuses.
abbrev pub same_status : AgentLoopStatus → AgentLoopStatus → Bool
same_status created created = true
same_status running running = true
same_status waiting_approval waiting_approval = true
same_status waiting_user waiting_user = true
same_status completed completed = true
same_status cancelled cancelled = true
same_status failed failed = true
same_status interrupted interrupted = true
same_status _ _ = false

abbrev pub includes : List AgentLoopStatus → AgentLoopStatus → Bool
includes ss s = any (λ t. same_status t s) ss

unfoldable pub legal_transitions : AgentLoopStatus → List AgentLoopStatus
legal_transitions created = running ∷ cancelled ∷ failed ∷ []
legal_transitions running =
    waiting_approval ∷ waiting_user ∷ completed ∷ cancelled ∷ failed ∷ interrupted ∷ []
legal_transitions waiting_approval = running ∷ cancelled ∷ failed ∷ interrupted ∷ []
legal_transitions waiting_user = running ∷ cancelled ∷ failed ∷ interrupted ∷ []
legal_transitions completed = []
legal_transitions cancelled = []
legal_transitions failed = []
legal_transitions interrupted = running ∷ cancelled ∷ failed ∷ []

unfoldable pub can_transition : AgentLoopStatus → AgentLoopStatus → Bool
unfolding legal_transitions
can_transition from to = same_status from to || includes (legal_transitions from) to

unfoldable pub is_terminal : AgentLoopStatus → Bool
unfolding legal_transitions
is_terminal status = length (legal_transitions status) == 0
