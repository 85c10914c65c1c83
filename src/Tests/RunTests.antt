-- ===== src/Tests/RunTests.antt =====
-- Runs of the run state manager.
use sun_pilot.Base.{
  ℕ, true, false, Option, none, some, List, [], ◌∷◌, ◌≡◌, ◌⊎◌, refl, lookup, length, ◌≤◌, insert,
}
use sun_pilot.Run.Status.{
  AgentLoopStatus, created, running, waiting_approval, completed, cancelled, failed, interrupted,
  is_terminal, can_transition, includes,
}
use sun_pilot.Run.State.{RunState, AgentLoopInput, agent, web, auto}
use sun_pilot.Run.Manager.{
  Manager, new, ok, err, state_conflict, run_not_found, mark_status, mark_cancelled,
  acquire_execution, record_history, moved, taken, get_history, max_history,
}
use sun_pilot.Run.Manager.Step.{
  Call, creates, marks, completes, cancels, acquires, step, step-Follows, Follows, CanRun,
}
use sun_pilot.Run.Manager.Frame.{step_frame}
use sun_pilot.Run.Manager.Trace.{play, AreFor, play-IsSettled, IsSettled}
use sun_pilot.Run.Manager.Ran.{Runs, ran_before}
use sun_pilot.Run.Manager.Lease.{acquire_execution_lem, acquire_once, cancelled_not_acquired}
use sun_pilot.Run.Manager.History.{Tells, last_status}
use sun_pilot.Run.Manager.Agreement.{history_agrees}
use sun_pilot.Run.Manager.Outcome.{mark_status_returns, mark_status_throws}

abbrev request : AgentLoopInput
request = record {
  run_id = "r1";
  conversation_id = "c1";
  user_message_id = "m1";
  user_id = none;
  message = "hello";
  mode = agent;
  permission_mode = some auto;
  model_id = none;
  attachments = none;
  client = record { source = web; connection_id = none };
}

abbrev run_in : AgentLoopStatus → RunState
run_in status = record {
  run_id = "r1";
  conversation_id = "c1";
  status = status;
  previous_status = none;
  mode = agent;
  goal = some "hello";
  input = none;
  error = none;
  task_state = none;
  created_at = 1;
  updated_at = 1;
  completed_at = none;
  cancelled_at = none;
}

abbrev holding : AgentLoopStatus → Manager
holding status = record { runs = ("r1", run_in status) ∷ []; history = [] }

holding-lookup :
    (status : AgentLoopStatus) → lookup "r1" (holding status).runs ≡ some (run_in status)
unfolding lookup
holding-lookup status = refl

abbrev starters : List AgentLoopStatus
starters = created ∷ waiting_approval ∷ interrupted ∷ []

abbrev a_run : List (ℕ × Call)
a_run =
    (2, acquires "r1" starters)
    ∷ (3, marks "r1" waiting_approval (some "approval"))
    ∷ (4, acquires "r1" starters)
    ∷ (5, completes "r1")
    ∷ (6, cancels "r1" none)
    ∷ []

abbrev status_in : Option RunState → Option AgentLoopStatus
status_in none = none
status_in (some s) = some s.status

-- The cancellation that comes too late is ignored.
a_run_completes : status_in (lookup "r1" (play a_run (holding created)).runs) ≡ some completed
unfolding play step lookup insert is_terminal
a_run_completes = refl

a_run_history : length (get_history "r1" (play a_run (holding created))) ≡ 4
unfolding play step get_history lookup insert is_terminal record_history
a_run_history = refl

illegal : mark_status 2 "r1" completed none (holding created) ≡ err state_conflict
unfolding mark_status lookup is_terminal
illegal = refl

late : mark_status 2 "r1" running none (holding failed) ≡ ok (holding failed, run_in failed)
unfolding mark_status lookup is_terminal
late = refl

unknown : mark_status 2 "r2" running none (holding created) ≡ err run_not_found
unfolding mark_status lookup
unknown = refl

starters-CanRun : CanRun starters
unfolding can_transition
starters-CanRun = refl

step-Follows_example :
    Follows (run_in created) (lookup "r1" (step 2 (acquires "r1" starters) (holding created)).runs)
step-Follows_example =
    step-Follows 2 (acquires "r1" starters) (holding created) "r1" (run_in created) starters-CanRun
      tt (holding-lookup created)

step_frame_example :
    lookup "r2" (step 2 (completes "r1") (holding running)).runs
    ≡ lookup "r2" (holding running).runs
step_frame_example = step_frame 2 (completes "r1") (holding running) "r2" refl

a_run-AreFor : AreFor "r1" a_run
a_run-AreFor =
    ((starters-CanRun, tt), ((tt, tt), ((starters-CanRun, tt), ((tt, tt), ((tt, tt), tt)))))

-- The calls up to the one that completes the run.
abbrev to_completion : List (ℕ × Call)
to_completion = (2, acquires "r1" starters) ∷ (3, completes "r1") ∷ []

to_completion-AreFor : AreFor "r1" to_completion
to_completion-AreFor = ((starters-CanRun, tt), ((tt, tt), tt))

abbrev done_at_three : RunState
done_at_three = moved 3 completed (taken 2 (run_in created))

completes_run : lookup "r1" (play to_completion (holding created)).runs ≡ some done_at_three
unfolding play lookup insert is_terminal
completes_run = refl

ran_before_example : Runs "r1" to_completion (holding created)
unfolding moved
ran_before_example =
    ran_before to_completion (holding created) "r1" (run_in created) done_at_three
      to_completion-AreFor (holding-lookup created) refl completes_run tt

terminal_completed : is_terminal completed ≡ true
unfolding is_terminal
terminal_completed = refl

play-IsSettled_example :
    IsSettled (run_in completed) (lookup "r1" (play a_run (holding completed)).runs)
play-IsSettled_example =
    play-IsSettled a_run (holding completed) "r1" (run_in completed) a_run-AreFor terminal_completed
      (holding-lookup completed)

abbrev acquired : Manager
acquired = record {
  runs = ("r1", taken 2 (run_in created)) ∷ [];
  history = record_history 2 "r1" (some created) running "acquireExecution" [];
}

acquires_first :
    acquire_execution 2 "r1" starters (holding created)
    ≡ ok (acquired, true, taken 2 (run_in created))
unfolding acquire_execution lookup insert
acquires_first = refl

acquire_once_example :
    acquire_execution 3 "r1" starters acquired ≡ ok (acquired, false, taken 2 (run_in created))
acquire_once_example =
    acquire_once 2 3 "r1" starters starters (holding created) acquired (taken 2 (run_in created))
      refl acquires_first

acquire_execution_lem_example :
    (n : Manager) × (t : RunState) × (acquire_execution 2 "r1" starters (holding created)
      ≡ ok (n, includes starters created, t))
    × (lookup "r1" n.runs ≡ some t)
    × ((includes starters created ≡ true) × (t.status ≡ running)
        ⊎ (includes starters created ≡ false) × (n ≡ holding created))
acquire_execution_lem_example =
    acquire_execution_lem 2 "r1" starters (holding created) (run_in created)
      (holding-lookup created)

abbrev stopped : Manager
stopped = record {
  runs = ("r1", moved 2 cancelled (run_in running)) ∷ [];
  history = record_history 2 "r1" (some running) cancelled "user stopped" [];
}

cancels_running :
    mark_cancelled 2 "r1" (some "user stopped") (holding running)
    ≡ ok (stopped, moved 2 cancelled (run_in running))
unfolding mark_cancelled lookup is_terminal insert
cancels_running = refl

cancelled_not_acquired_example :
    (u : RunState) × (acquire_execution 7 "r1" starters (play a_run stopped)
      ≡ ok (play a_run stopped, false, u))
cancelled_not_acquired_example =
    cancelled_not_acquired 2 7 "r1" (some "user stopped") starters (holding running) stopped
      (moved 2 cancelled (run_in running)) a_run starters-CanRun a_run-AreFor cancels_running

history_agrees_example :
    (length (play ((1, creates request) ∷ a_run) new).history ≤ max_history)
    × Tells
        (last_status "r1" (play ((1, creates request) ∷ a_run) new).history)
        (lookup "r1" (play ((1, creates request) ∷ a_run) new).runs)
history_agrees_example = history_agrees ((1, creates request) ∷ a_run) "r1"

mark_status_returns_example :
    (lookup "r1" (holding failed).runs ≡ some (run_in failed))
    × ((failed ≡ running) ⊎ (is_terminal failed ≡ true))
mark_status_returns_example =
    mark_status_returns 2 "r1" running none (holding failed) (holding failed) (run_in failed) late

mark_status_throws_example :
    ((state_conflict ≡ run_not_found) × (lookup "r1" (holding created).runs ≡ none))
    ⊎ ((state_conflict ≡ state_conflict)
        × (s : RunState) × (lookup "r1" (holding created).runs ≡ some s)
        × (can_transition s.status completed ≡ false)
        × (is_terminal s.status ≡ false))
mark_status_throws_example =
    mark_status_throws 2 "r1" completed none (holding created) state_conflict illegal
