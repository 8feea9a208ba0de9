-- ===== src/Runner/Decision.antt =====
-- research_loops/runner.py: what `run_once` makes of an iteration whose process has ended
-- (`run_once` from `control_outcome` to the call of `finalize_run`), in an unmanaged queue.
-- What the runner reads from the process, the files and the validator is the record `Iteration`.
pub mod Evidence
pub mod Completion
unfoldable pub use Evidence.*
use autonomous_research_loop.Prelude.{
  ℕ, ◌+◌, String, Bool, true, false, not, ◌&&◌, ◌||◌, Option, none, some, List, [], ◌∷◌, leb, ltb,
  nat_beq, ◌==◌, if◌then◌else◌,
}
use autonomous_research_loop.Prelude.Int.{ℤ, pos, negsuc}
use autonomous_research_loop.Prelude.Lists.{any, keep}
use autonomous_research_loop.Prelude.Texts.{strip, last_chars}
use autonomous_research_loop.Queue.Types.{Blocker, Item}
use autonomous_research_loop.Queue.Records
use autonomous_research_loop.Queue.Records.{Failure}
use autonomous_research_loop.Queue.Finalize.{Outcome}
use autonomous_research_loop.Runner.Failure.{
  FailureKind, is_success, kind_of_text, classify_failure, retry_delay,
}
use autonomous_research_loop.Runner.Saturation.{Verdict, is_nonempty, saturation_decision}

abbrev pub plain : Outcome → Decision
plain o = record {
  outcome = o;
  error_kind = none;
  message = none;
  next_eligible_at = none;
  consume_failure = true;
  accounting = none;
  discards_stop = false;
  records_coverage = false;
  streak = none;
}

abbrev pub attention : Message → Decision
attention m = record (plain Outcome.needs_attention) {
  error_kind = some FailureKind.configuration;
  message = some m;
}

abbrev pub again : Iteration → Decision
again e = record (plain Outcome.scheduled) {
  next_eligible_at = some (e.ended_at + e.pause_seconds);
}

-- [f for f in ... if f.get("key") and f.get("source")]
abbrev pub reported_failures : Option IterationResult → List Failure
reported_failures none = []
reported_failures (some r) =
    keep (λ (f : Failure). not (f.key == "") && not (f.source == "")) r.research_failures

abbrev pub blocked_this_pass : Iteration → Bool
blocked_this_pass e =
    any (λ (f : Failure). f.coverage == "provider_unavailable" || f.coverage == "auth_failed")
      (reported_failures e.result)

-- A topic's own claim to be done is discarded.
abbrev pub honoured_stop : Bool → Option StopSignal → Option StopSignal
honoured_stop contract_topic none = none
honoured_stop contract_topic (some done) = if contract_topic then none else some done
honoured_stop contract_topic (some (message t)) = some (message t)

-- A STOP file decides.
unfoldable pub decide_stop : Iteration → StopSignal → Decision
unfolding completion_error
decide_stop e (message t) = attention (stop_text t)
decide_stop e done = elim (completion_error e.validation) [
  | some x ↦ attention (invalid_completion x)
  | none ↦
      if is_nonempty e.research_blockers
      then attention (invalid_completion CompletionError.research_blocked)
      else record (plain Outcome.completed) { records_coverage = true }
]

-- item.get("saturation_limit") or DEFAULT_SATURATION_LIMIT
abbrev pub limit_or_default : Option ℕ → ℕ
limit_or_default none = 3
limit_or_default (some n) = if nat_beq n 0 then 3 else n

abbrev pub decide_verdict : Iteration → ℕ × Verdict → Decision
decide_verdict e (streak, Verdict.complete) = elim (completion_error e.validation) [
  | none ↦ record (plain Outcome.completed) {
    message = some (saturated streak);
    records_coverage = true;
  }
  | some x ↦ attention (gate_disagrees x)
]
decide_verdict e (streak, Verdict.held) = record (again e) {
  message = some saturation_held;
  streak = some streak;
}
decide_verdict e (streak, Verdict.continue) = record (again e) { streak = some streak }

unfoldable pub decide_pass : Iteration → Item → IterationResult → Decision
unfolding saturation_decision completion_error
decide_pass e item r = decide_verdict e (
    saturation_decision r.signature_changed item.saturation_streak
      (limit_or_default e.saturation_limit) (blocked_this_pass e) e.research_blockers)

abbrev pub decide_invalid : Iteration → Item → Decision
decide_invalid e item = record (again e) {
  streak = if nat_beq item.saturation_streak 0 then none else some 0;
}

-- The process returned normally, and no STOP file decides.
-- research_failures or research_ok or research_coverage
abbrev pub reports_research : Option IterationResult → Bool
reports_research none = false
reports_research (some r) =
    is_nonempty (reported_failures (some r))
    || is_nonempty r.research_ok
    || is_nonempty r.research_coverage

unfoldable pub decide_return : Iteration → Item → Decision
unfolding decide_pass
decide_return e item =
    if not e.contract_topic
    then (if is_nonempty e.research_blockers
        then attention research_blocked
        else record (plain Outcome.completed) { records_coverage = reports_research e.result })
    else elim e.checkpoint_reason [
      | some _ ↦ again e
      | none ↦ elim e.result [
        | none ↦ decide_invalid e item
        | some r ↦ if r.semantic_valid then decide_pass e item r else decide_invalid e item
      ]
    ]

abbrev pub is_subscription_limit : FailureKind → Bool
is_subscription_limit FailureKind.subscription_limit = true
is_subscription_limit _ = false

-- failures < max_attempts
abbrev pub under : ℕ → ℤ → Bool
under n (pos limit) = ltb n limit
under n (negsuc _) = false

-- The kind that the chassis recorded, if it is one.
unfoldable pub structured_failure_kind : Option IterationResult → Option FailureKind
structured_failure_kind none = none
structured_failure_kind (some r) = elim r.error_class [
  | none ↦ none
  | some hint ↦ kind_of_text hint
]

unfoldable pub failure_kind : (ℕ → Bool) → Iteration → FailureKind
unfolding structured_failure_kind classify_failure
failure_kind is_word e = elim (structured_failure_kind e.result) [
  | some kind ↦ kind
  | none ↦ classify_failure is_word e.exit_code e.output
]

abbrev pub failure_number : FailureKind → Item → ℕ
failure_number kind current =
    if is_subscription_limit kind
    then current.consecutive_failures
    else current.consecutive_failures + 1

abbrev failure_message : Iteration → Message
failure_message e =
    if e.output == "" then process_exited e.exit_code else log_tail (last_chars 4000 e.output)

-- The process failed: `current` is the item as it stands in the queue now.
unfoldable pub decide_failure : Iteration → Item → FailureKind → Decision
unfolding retry_delay
decide_failure e current kind = elim (retry_delay kind (failure_number kind current)) [
  | none ↦ record (plain Outcome.needs_attention) {
    error_kind = some kind;
    message = some (failure_message e);
    consume_failure = not (is_subscription_limit kind);
  }
  | some delay ↦
      if is_subscription_limit kind || under (failure_number kind current) current.max_attempts
      then record (plain Outcome.backoff) {
        error_kind = some kind;
        message = some (failure_message e);
        consume_failure = not (is_subscription_limit kind);
        next_eligible_at = some (e.ended_at + delay);
      }
      else record (plain Outcome.needs_attention) {
        error_kind = some kind;
        message = some (failure_message e);
        consume_failure = not (is_subscription_limit kind);
      }
]

-- iteration_result.get("semantic_valid") is True
abbrev pub is_valid : Option IterationResult → Bool
is_valid none = false
is_valid (some r) = r.semantic_valid

abbrev pub accounted : Iteration → Records.Iteration
accounted e = elim e.checkpoint_reason [
  | none ↦ Records.ordinary
  | some reason ↦ Records.checkpoint (some reason)
]

abbrev pub is_done_claim : Option StopSignal → Bool
is_done_claim (some done) = true
is_done_claim _ = false

-- What a process that returned normally is accounted for, whatever is decided.
abbrev pub with_accounting : Iteration → Decision → Decision
with_accounting e d = record d {
  accounting = some (accounted e, is_valid e.result);
  discards_stop = e.contract_topic && is_done_claim e.stop_signal;
}

-- `item` is the claim's record of the item, `current` the queue's when the process has ended.
unfoldable pub decide : (ℕ → Bool) → Iteration → Item → Item → Decision
unfolding decide_stop decide_return decide_failure failure_kind
decide is_word e item current = elim e.control [
  | some c ↦ plain (control_outcome c)
  | none ↦
      if is_success e.exit_code
      then elim (honoured_stop e.contract_topic e.stop_signal) [
        | some signal ↦ with_accounting e (decide_stop e signal)
        | none ↦ with_accounting e (decide_return e item)
      ]
      else decide_failure e current (failure_kind is_word e)
]
