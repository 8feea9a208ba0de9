-- ===== src/Runner/Tests.antt =====
-- Tests of what the runner concludes from an iteration.
use autonomous_research_loop.Prelude.{
  ℕ, ◌+◌, ◌≤◌, ◌≡◌, ◌↔◌, refl, Bool, true, false, not, none, some, List, [], ◌∷◌, ◌⊎◌,
}
use autonomous_research_loop.Prelude.Int.{pos}
use autonomous_research_loop.Prelude.Lists.{All, count_if}
use autonomous_research_loop.Prelude.Texts.{last_chars}
use autonomous_research_loop.Queue.Types.{Item, Definition, Status, DesiredState, by}
use autonomous_research_loop.Runner.Patterns.{finds, match, match_word}
use autonomous_research_loop.Runner.Failure.{
  FailureKind, scanned_kind, classify_failure, retry_delay,
}
use autonomous_research_loop.Runner.Failure.Retry.{
  retry_delay-bounds, retry_delay-monotone, classify_failure-codes, AsksOperator, Read,
}
use autonomous_research_loop.Runner.Saturation.{Verdict, saturation_decision}
use autonomous_research_loop.Runner.Saturation.Passes.{
  Pass, decide_pass, streak_after, unchanged_since, streak_after-count, streak_after-completes,
}
use autonomous_research_loop.Runner.Decision
use autonomous_research_loop.Runner.Decision.{
  Iteration, IterationResult, Validation, StopSignal, completion_error, decide_stop, decide_return,
  decide_failure, structured_failure_kind, failure_kind, is_subscription_limit, under, decide,
}
use autonomous_research_loop.Runner.Decision.Completion.{
  Saturates, decide-completed, decide-saturated, decide-backoff,
}

abbrev no_word : ℕ → Bool
no_word c = false

-- A log whose process was refused by its provider.
unavailable_log : classify_failure no_word (pos 1) "HTTP: Service Unavailable" ≡ FailureKind.outage
unfolding classify_failure scanned_kind finds match match_word last_chars
unavailable_log = refl

quota_log :
    classify_failure no_word (pos 1) "You have hit your weekly usage limit"
    ≡ FailureKind.subscription_limit
unfolding classify_failure scanned_kind finds match match_word last_chars
quota_log = refl

retry_delay-bounds_example : (60 ≤ 240) × (240 ≤ 3600)
unfolding retry_delay
retry_delay-bounds_example = retry_delay-bounds FailureKind.outage 3 240 refl

retry_delay-monotone_example : 2400 ≤ 3600
unfolding retry_delay
retry_delay-monotone_example = retry_delay-monotone FailureKind.rate_limit 4 2400 3600 refl refl

classify_failure-codes_example :
    (classify_failure no_word (pos 1) "timed out" ≡ FailureKind.no_failure ↔ pos 1 ≡ pos 0)
    × All
        (λ c.
          (classify_failure no_word c "timed out" ≡ FailureKind.configuration)
          × ((n : ℕ) → retry_delay (classify_failure no_word c "timed out") n ≡ none))
        (pos 3 ∷ pos 4 ∷ pos 64 ∷ pos 78 ∷ pos 126 ∷ pos 127 ∷ [])
    × ((pos 1 ≡ pos 0)
        ⊎ AsksOperator (pos 1)
        ⊎ Read
            (λ p. finds no_word p (last_chars 2000 "timed out"))
            (classify_failure no_word (pos 1) "timed out"))
classify_failure-codes_example = classify_failure-codes no_word (pos 1) "timed out"

abbrev quiet : Pass
quiet = record { signature_changed = false; blocked = false; blockers = [] }

-- The latest first: two quiet passes, a blocked one, a quiet one, and a change before them.
abbrev earlier : List Pass
earlier =
    quiet ∷ record quiet { blocked = true } ∷ quiet ∷ record quiet { signature_changed = true } ∷ []

streak_after-count_example :
    streak_after 3 (quiet ∷ earlier)
    ≡ count_if (λ p. not p.blocked) (unchanged_since (quiet ∷ earlier))
streak_after-count_example = streak_after-count 3 (quiet ∷ earlier)

streak_after-completes_example :
    (decide_pass 3 (streak_after 3 earlier) quiet).1 ≡ Verdict.complete
    ↔ (quiet.blocked ≡ false)
      × (quiet.blockers ≡ [])
      × (3 ≤ count_if (λ q. not q.blocked) (unchanged_since (quiet ∷ earlier)))
streak_after-completes_example = streak_after-completes 3 quiet earlier

abbrev definition : Definition
definition = record {
  title = "Lake sediments";
  cwd = "/topics/lakes";
  command = "run-topic" ∷ [];
  provider = none;
  usage_file = none;
  max_attempts = pos 3;
  stop_file = some "/topics/lakes/STOP";
  completion_command = none;
  depends_on = [];
  progress_command = none;
  on_completed_command = none;
  stall_limit = none;
  gap_policy = "propose";
  gap_auto_limit = pos 3;
  completion_lock = none;
  internal_citations = false;
  topic_refresh = "never";
  topic_refresh_mode = "recheck";
  lane = "research";
}

-- A topic whose signature stayed the same in two passes.
abbrev lakes : Item
lakes = record {
  id = "lakes";
  definition = definition;
  research_policy = none;
  research_blockers = [];
  research_coverage = [];
  research_resolutions = [];
  completion_coverage = none;
  refresh_due_at = none;
  refresh_count = 0;
  progress_signature = none;
  stall_count = 0;
  saturation_streak = 2;
  iterations_completed = 7;
  deepening_seen = true;
  last_checkpoint_iteration = none;
  deepening_checkpoint_done = true;
  status = Status.running;
  desired_state = DesiredState.running;
  attempts = 8;
  consecutive_failures = 1;
  subscription_limit_failures = 0;
  next_eligible_at = none;
  last_exit_code = none;
  last_error = none;
  last_error_kind = none;
  restart_generation = 0;
  created_at = 100;
  updated_at = 100;
  started_at = none;
  finished_at = none;
  last_pid = none;
  last_pid_fingerprint = none;
  claimed_by = by "station-1";
  reserved_for = none;
  accepted_by_workers = "station-1" ∷ [];
}

abbrev third_pass : Iteration
third_pass = record {
  control = none;
  exit_code = pos 0;
  output = "";
  result = some (record {
    error_class = none;
    semantic_valid = true;
    signature_changed = false;
    research_failures = [];
    research_ok = [];
    research_coverage = [];
  });
  stop_signal = some StopSignal.done;
  contract_topic = true;
  checkpoint_reason = none;
  validation = Validation.exited (pos 0) "";
  pause_seconds = 900;
  ended_at = 5000;
  saturation_limit = none;
  research_blockers = [];
}

decide-completed_example :
    (third_pass.control ≡ none)
    × (third_pass.exit_code ≡ pos 0)
    × (third_pass.research_blockers ≡ [])
unfolding decide decide_return Decision.decide_pass saturation_decision completion_error
decide-completed_example = decide-completed no_word third_pass lakes lakes refl

decide-saturated_example :
    Saturates third_pass lakes × (completion_error third_pass.validation ≡ none)
unfolding decide decide_return Decision.decide_pass saturation_decision completion_error
decide-saturated_example = decide-saturated no_word third_pass lakes lakes refl refl

abbrev failed_pass : Iteration
failed_pass = record third_pass { exit_code = pos 1; output = "provider outage"; result = none }

decide-backoff_example :
    ((is_subscription_limit (failure_kind no_word failed_pass) ≡ true)
      ⊎ (under (lakes.consecutive_failures + 1) lakes.max_attempts ≡ true))
    × (next : ℕ) × ((decide no_word failed_pass lakes lakes).next_eligible_at ≡ some next)
    × (failed_pass.ended_at + 60 ≤ next)
    × (next ≤ failed_pass.ended_at + 3600)
unfolding decide decide_failure failure_kind structured_failure_kind classify_failure scanned_kind
    finds match match_word last_chars retry_delay
decide-backoff_example = decide-backoff no_word failed_pass lakes lakes refl
