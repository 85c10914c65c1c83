-- ===== src/React/Loop/Run/Laws.antt =====
-- `run`: it returns, within the budgets, and what it executes and leaves unanswered.
use sun_pilot.Base.{
  refl, ◌++◌, suc, ◌+◌, ◌≤◌, max, String, Option, some, List, [], ◌≡◌, arith, Bool-cases, inl, inr,
  sym,
}
use sun_pilot.React.Observations.{merge_artifacts}
use sun_pilot.React.Calls.{PlannedToolCall}
use sun_pilot.React.Session.{
  World, Session, LoopState, ReactLoopResult, ReactCheckpoint, Awaited, returned, threw,
  ReactLoopTiming, waiting_approval, scope_mismatch, inner_error, thrown, ToolExecution,
}
use sun_pilot.React.Turn.{persist, observation_char_limit}
use sun_pilot.React.Transcript.{append_summaries}
use sun_pilot.React.Transcript.Closed.{IsClosed, append_summaries-IsClosed}
use sun_pilot.React.Loop.Budget.{loop-returns, loop-bound}
use sun_pilot.React.Loop.Answered.{IsAnswered, loop-IsAnswered}
use sun_pilot.React.Loop.Approved.{AllSafe, loop-AllSafe}
use sun_pilot.React.Loop.Run.{
  ReactContinuation, start_state, run, ApprovedTool, state_of, approved_batch_matches,
  resume_after_approved_tools, resume_after_rejection, pending_ids, rejected_summaries,
}

module _ (s : Session) (w : World) (c : ReactContinuation) where
  -- `run` returns a result, from every continuation and whatever the model, the tools and the clock do.
  pub run-returns : (r : ReactLoopResult × LoopState) × (run s w c ≡ some r)
  unfolding run
  run-returns =
      loop-returns (suc s.limits.max_model_calls) s w (persist s [] (start_state s c)) (omega arith)

  -- `run` ends with at most `maxModelCalls` model calls and `maxToolRounds` rounds, or with one model
  -- call more than it started with and the rounds that it started with.
  pub run-bound :
      (result : ReactLoopResult) (end : LoopState)
      → run s w c ≡ some (result, end)
      → (end.model_calls ≤ max s.limits.max_model_calls (c.model_calls + 1))
        × (end.iteration ≤ max s.limits.max_tool_rounds c.iteration)
  unfolding run persist
  run-bound result end e = loop-bound (suc s.limits.max_model_calls) s w _ end result e

  -- Whatever the model asks for and the tools do, `run` executes only calls of an available skill that
  -- the policy allows without an approval, for that skill, the arguments and the session's mode, and
  -- whose arguments the validator accepts under the schema of that skill.
  pub run-AllSafe :
      (result : ReactLoopResult) (end : LoopState) → run s w c ≡ some (result, end) → AllSafe s end
  unfolding run persist
  run-AllSafe result end e = loop-AllSafe s (suc s.limits.max_model_calls) w _ end result (tt, tt) e

  -- From a transcript in which every tool call is answered, `run` ends with a result that leaves open
  -- what `IsAnswered` says: a run that completed has every call answered, one that waits for the user
  -- has only the call that asks unanswered, and one that waits for an approval exactly the pending
  -- calls.
  pub run-IsAnswered :
      (result : ReactLoopResult) (end : LoopState)
      → IsClosed c.transcript
      → run s w c ≡ some (result, end)
      → IsAnswered result
  unfolding run persist
  run-IsAnswered result end h e =
      loop-IsAnswered (suc s.limits.max_model_calls) s w _ end result h e

module _ (s : Session) (w : World) (calls : List PlannedToolCall) (c : ReactCheckpoint)
    (t : ReactLoopTiming) (result : ReactLoopResult) (end : LoopState) where
  -- A run that waited for an approval goes on after it with every tool call answered, and ends as a
  -- run does, whatever the executor returns for the approved calls.
  pub resume_after_approved_tools-IsAnswered :
      (approved : List ApprovedTool)
      → IsAnswered (waiting_approval calls c t)
      → resume_after_approved_tools s w c approved ≡ some (result, end)
      → IsAnswered result
  unfolding resume_after_approved_tools
  resume_after_approved_tools-IsAnswered approved (ids, awaited, perm, same) e =
      elim (Bool-cases (approved_batch_matches s.platform c.pending_tool_calls approved)) [
        | inr refused ↦
            let ended : thrown scope_mismatch ≡ result = cc (rw refused at e) in rw (sym ended) tt
        | inl accepted ↦
            by_attempt (w.execute c.model_calls c.pending_tool_calls) (rw accepted at e)
      ]
    where
      resumed : ToolExecution → ReactContinuation
      resumed execution = record {
        transcript =
            append_summaries (observation_char_limit s.limits) c.transcript (pending_ids c)
              execution.summaries;
        artifacts = merge_artifacts c.artifacts execution.artifacts;
        tool_calls = c.tool_call_summaries ++ execution.summaries;
        iteration = c.iteration + 1;
        model_calls = c.model_calls;
      }

      by_attempt :
          (a : Awaited ToolExecution)
          → (elim a as (λ _. Option (ReactLoopResult × LoopState)) [
            | threw timed_out aborted message ↦ some (thrown (inner_error message), state_of s c)
            | returned execution ↦ run s w (resumed execution)
          ])
            ≡ some (result, end)
          → IsAnswered result
      by_attempt (threw timed_out aborted message) f =
          let ended : thrown (inner_error message) ≡ result = cc f in rw (sym ended) tt
      by_attempt (returned execution) f =
          run-IsAnswered s w (resumed execution) result end
            (append_summaries-IsClosed (observation_char_limit s.limits) c.transcript ids
              (pending_ids c) execution.summaries awaited perm)
            f

  -- So does a run whose calls the user rejected.
  pub resume_after_rejection-IsAnswered :
      (reason : Option String)
      → IsAnswered (waiting_approval calls c t)
      → resume_after_rejection s w c reason ≡ some (result, end)
      → IsAnswered result
  unfolding resume_after_rejection
  resume_after_rejection-IsAnswered reason (ids, awaited, perm, same) e =
      run-IsAnswered s w _ result end
        (append_summaries-IsClosed (observation_char_limit s.limits) c.transcript ids
          (pending_ids c) (rejected_summaries c reason) awaited perm)
        e

-- The two methods return a result.
pub resume_after_approved_tools-returns :
    (s : Session) (w : World) (c : ReactCheckpoint) (approved : List ApprovedTool)
    → (r : ReactLoopResult × LoopState) × (resume_after_approved_tools s w c approved ≡ some r)
unfolding resume_after_approved_tools
resume_after_approved_tools-returns s w c approved =
    elim (Bool-cases (approved_batch_matches s.platform c.pending_tool_calls approved)) [
      | inr refused ↦ ((thrown scope_mismatch, state_of s c), rw refused refl)
      | inl accepted ↦ rw accepted (by_attempt (w.execute c.model_calls c.pending_tool_calls))
    ]
  where
    resumed : ToolExecution → ReactContinuation
    resumed execution = record {
      transcript =
          append_summaries (observation_char_limit s.limits) c.transcript (pending_ids c)
            execution.summaries;
      artifacts = merge_artifacts c.artifacts execution.artifacts;
      tool_calls = c.tool_call_summaries ++ execution.summaries;
      iteration = c.iteration + 1;
      model_calls = c.model_calls;
    }

    by_attempt :
        (a : Awaited ToolExecution)
        → (r : ReactLoopResult × LoopState) × ((elim a
              as (λ _. Option (ReactLoopResult × LoopState)) [
                | threw timed_out aborted message ↦
                    some (thrown (inner_error message), state_of s c)
                | returned execution ↦ run s w (resumed execution)
              ])
            ≡ some r)
    by_attempt (threw timed_out aborted message) =
        ((thrown (inner_error message), state_of s c), refl)
    by_attempt (returned execution) = run-returns s w (resumed execution)

pub resume_after_rejection-returns :
    (s : Session) (w : World) (c : ReactCheckpoint) (reason : Option String)
    → (r : ReactLoopResult × LoopState) × (resume_after_rejection s w c reason ≡ some r)
unfolding resume_after_rejection
resume_after_rejection-returns s w c reason = run-returns s w _
