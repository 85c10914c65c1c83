-- ===== src/Tests/RepositoryTests.antt =====
-- Runs of the run state manager over the tables.
use sun_pilot.Run.Store.{
  update_status_if_in_set, patch_context, update_status_if_current, create, RunRecord, Database,
}
use sun_pilot.Base.{insert, ℕ, true, false, Option, none, some, List, [], ◌∷◌, ◌≡◌, refl, lookup}
use sun_pilot.Run.Status.{
  is_terminal, AgentLoopStatus, created, running, cancelled, waiting_approval, interrupted,
  can_transition,
}
use sun_pilot.Text.Pattern.{is_space}
use sun_pilot.Text.Trim.{trim}
use sun_pilot.Text.Units.{units}
use sun_pilot.Run.State.{RunState, AgentLoopInput, agent, web, auto}
use sun_pilot.Run.Manager.{Manager, Result, new, ok, err, run_not_found, state_conflict}
use sun_pilot.Run.Manager.Step.{Call, creates, marks, cancels, acquires}
use sun_pilot.Run.Manager.Trace.{play}
use sun_pilot.Run.Repository.{
  mark_status, get_run, title_from_goal, plan_status, status_change, write_change,
  write_acquisition, acquisition, truncate_status_history, new_record,
}
use sun_pilot.Run.Repository.Leases.{SameRun}
use sun_pilot.Run.Repository.Trace.{in_memory, play_stored, no_rows, same_runs}
use sun_pilot.Run.Repository.Races.{mark_status_race, acquire_race}
use sun_pilot.Run.Manager as Memory

abbrev request : AgentLoopInput
request = record {
  run_id = "r1";
  conversation_id = "c1";
  user_message_id = "m1";
  user_id = none;
  message = "  read\n\tthe   log ";
  mode = agent;
  permission_mode = some auto;
  model_id = none;
  attachments = none;
  client = record { source = web; connection_id = none };
}

title_test : title_from_goal request.message ≡ units "read the log"
unfolding units title_from_goal trim is_space
title_test = refl

title_empty : title_from_goal " " ≡ units "Agent run"
unfolding units title_from_goal trim is_space
title_empty = refl

abbrev calls : List (ℕ × ℕ × Call)
calls =
    (1, 2, creates request)
    ∷ (3, 4, acquires "r1" (created ∷ []))
    ∷ (5, 6, marks "r1" waiting_approval none)
    ∷ (7, 8, cancels "r1" (some "enough"))
    ∷ (9, 9, acquires "r1" (created ∷ interrupted ∷ []))
    ∷ []

abbrev status_in : Option RunState → Option AgentLoopStatus
status_in none = none
status_in (some s) = some s.status

stored_calls : status_in (get_run "r1" (play_stored calls no_rows)) ≡ some cancelled
unfolding get_run lookup play_stored create insert update_status_if_in_set patch_context is_terminal
    update_status_if_current
stored_calls = refl

abbrev completion_of : Option RunState → Option (Option ℕ)
completion_of none = none
completion_of (some s) = some s.completed_at

-- The table has a time of completion for a cancelled run, the manager in memory has none.
stored_completion : completion_of (get_run "r1" (play_stored calls no_rows)) ≡ some (some 7)
unfolding get_run lookup play_stored create insert update_status_if_in_set patch_context is_terminal
    update_status_if_current
stored_completion = refl

memory_completion : completion_of (Memory.get_run "r1" (play (in_memory calls) new)) ≡ some none
unfolding Memory.get_run lookup play insert is_terminal
memory_completion = refl

missing_run : mark_status 1 1 "r2" running none no_rows ≡ err run_not_found
unfolding mark_status lookup
missing_run = refl

same_runs_example :
    SameRun
      (get_run "r1" (play_stored calls no_rows))
      (Memory.get_run "r1" (play (in_memory calls) new))
unfolding lookup
same_runs_example = same_runs calls "r1" (refl, (tt, (tt, (tt, (tt, tt)))))

abbrev stored : Database
stored = record { runs = ("r1", new_record 1 request) ∷ []; status_rows = [] }

abbrev read : RunRecord
read = new_record 1 request

abbrev after_lease : Database
after_lease = (write_acquisition 6 (created ∷ []) (acquisition 5 read) stored).0

abbrev written : Result Database → Database
written (ok db) = db
written (err e) = no_rows

abbrev ended : Database
ended = written (write_change 6 (status_change 5 cancelled none read) stored)

mark_status_race_example :
    (r : RunRecord) × (t : RunRecord) × (lookup "r1" stored.runs ≡ some r)
    × (lookup "r1" ended.runs ≡ some t)
    × (t.status ≡ cancelled)
    × (can_transition r.status t.status ≡ true)
unfolding plan_status new_record is_terminal write_change update_status_if_current lookup
    write_acquisition update_status_if_in_set acquisition truncate_status_history insert
    patch_context
mark_status_race_example =
    mark_status_race 5 6 cancelled none read (status_change 5 cancelled none read) stored ended refl
      refl

acquire_race_example :
    write_acquisition 8 (created ∷ interrupted ∷ []) (acquisition 7 read) after_lease
    ≡ (after_lease, false)
unfolding write_acquisition update_status_if_in_set lookup acquisition new_record
acquire_race_example =
    acquire_race 6 8 (created ∷ []) (created ∷ interrupted ∷ []) 5 7 read read stored after_lease
      refl refl refl
