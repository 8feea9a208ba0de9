-- ===== src/Runner/Decision/Evidence.antt =====
-- research_loops/runner.py: what the runner reads when a process has ended, and the form of what it
-- decides from that.
use autonomous_research_loop.Prelude.{
  ℕ, String, Bool, Option, none, some, List, ◌==◌, if◌then◌else◌,
}
use autonomous_research_loop.Prelude.Int.{ℤ}
use autonomous_research_loop.Prelude.Texts.{strip, last_chars}
use autonomous_research_loop.Queue.Types.{Blocker}
use autonomous_research_loop.Queue.Records
use autonomous_research_loop.Queue.Records.{Failure}
use autonomous_research_loop.Queue.Finalize.{Outcome}
use autonomous_research_loop.Runner.Failure.{FailureKind, is_success}

-- The controls to which the runner stops the process.
pub data Control : Type 0 where
  global_paused paused restarted : Control

abbrev pub control_outcome : Control → Outcome
control_outcome Control.global_paused = Outcome.global_paused
control_outcome Control.paused = Outcome.paused
control_outcome Control.restarted = Outcome.restarted

-- What a fresh STOP file says: DONE, or its text.
pub data StopSignal : Type 0 where
  done : StopSignal
  message : String → StopSignal

-- How the completion command ended.
pub data Validation : Type 0 where
  no_command timed_out : Validation
  could_not_run : String → Validation
  exited : ℤ → String → Validation

pub data CompletionError : Type 0 where
  timed_out : CompletionError
  could_not_run : String → CompletionError
  printed : String → CompletionError
  failed : ℤ → CompletionError
  research_blocked : CompletionError

unfoldable pub completion_error : Validation → Option CompletionError
completion_error no_command = none
completion_error timed_out = some CompletionError.timed_out
completion_error (could_not_run e) = some (CompletionError.could_not_run e)
completion_error (exited code output) =
    if is_success code
    then none
    else if strip output == ""
    then some (failed code)
    else some (printed (last_chars 4000 (strip output)))

-- The record that the chassis leaves of an iteration.
pub record IterationResult : Type 0 where
  pub error_class : Option String
  pub semantic_valid : Bool
  pub signature_changed : Bool
  pub research_failures : List Failure
  pub research_ok : List String
  pub research_coverage : List (String × String)

pub record Iteration : Type 0 where
  pub control : Option Control
  pub exit_code : ℤ
  pub output : String
  pub result : Option IterationResult
  pub stop_signal : Option StopSignal
  pub contract_topic : Bool
  pub checkpoint_reason : Option String
  pub validation : Validation
  pub pause_seconds : ℕ
  pub ended_at : ℕ
  pub saturation_limit : Option ℕ
  -- what `update_research_blockers` returned
  pub research_blockers : List Blocker

-- The text that goes into the item's last error or its log.
pub data Message : Type 0 where
  research_blocked : Message
  saturated : ℕ → Message
  saturation_held : Message
  stop_text : String → Message
  invalid_completion : CompletionError → Message
  gate_disagrees : CompletionError → Message
  log_tail : String → Message
  process_exited : ℤ → Message

-- What the iteration asks the queue to record.
pub record Decision : Type 0 where
  pub outcome : Outcome
  pub error_kind : Option FailureKind
  pub message : Option Message
  pub next_eligible_at : Option ℕ
  pub consume_failure : Bool
  -- the iteration that is accounted for, and whether it deepens
  pub accounting : Option (Records.Iteration × Bool)
  -- whether the STOP file is removed
  pub discards_stop : Bool
  -- whether the coverage at completion is recorded
  pub records_coverage : Bool
  -- the streak that is recorded, if one is
  pub streak : Option ℕ
