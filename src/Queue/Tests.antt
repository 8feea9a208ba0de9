-- ===== src/Queue/Tests.antt =====
-- Tests of the queue: a queue of two topics, the second of which waits for the first.
use autonomous_research_loop.Prelude.{
  ℕ, ◌+◌, String, ◌≡◌, ◌≢◌, refl, ap, true, false, none, some, List, [], ◌∷◌, arith, ◌⊎◌, inr,
  if◌then◌else◌,
}
use autonomous_research_loop.Prelude.Int.{pos}
use autonomous_research_loop.Prelude.Lists.{All, mem, lookup, insert, remove, distinct}
use autonomous_research_loop.Queue.Types.{
  Item, Definition, State, World, Status, DesiredState, null, by, Blocker, keyed,
}
use autonomous_research_loop.Queue.Store.{
  ◌>>=◌, Result, ok, locked-changed, find, modify, modify_first,
}
use autonomous_research_loop.Queue.Validate.{validate_lane, is_item_id}
use autonomous_research_loop.Queue.Claim.{
  Request, Claim, worker_policy, lane_limit, running_in, lane_capacity_ok, is_done,
  dependencies_from, eligible, accepted_workers, started_item, count_claim, grant_accepted, grant,
  station_interval_of,
}
use autonomous_research_loop.Queue.Claim.Select.{
  start_if_eligible, cascade, walk, candidate, after_walk, at_item, at_held, drop_reservation,
}
use autonomous_research_loop.Queue.Claim.Next.{
  claim_next, claim_from, claim_waiting, release_stray, validate_lanes,
}
use autonomous_research_loop.Queue.Claim.Startable.{Started}
use autonomous_research_loop.Queue.Claim.Promises.{claim_next-Started, claim_next-dependencies}
use autonomous_research_loop.Queue.Finalize.{
  Outcome, Report, keeps_going, finalized, actual_outcome, apply_outcome, graceful_stop, settle,
  refresh_due,
}
use autonomous_research_loop.Queue.Records.{
  Failure, is_blocking, blocker_of, blocking, current_blockers, clear_keys, set_defaults,
  updated_blockers,
}
use autonomous_research_loop.Queue.Records.Blockers.{
  or_else, lookup-updated_blockers, updated_blockers-origin,
}
use autonomous_research_loop.Queue.Records.Stall.{repeated, repeated-stall_count}
use autonomous_research_loop.Queue.Finalize.Outcomes.{finalized-status, finalized-stopping}
use autonomous_research_loop.Queue.Machine.{Call, run}
use autonomous_research_loop.Queue.Invariant.Runners.{SingleRunner}
use autonomous_research_loop.Queue.Invariant.History.{run-SingleRunner}

abbrev pub definition : Definition
definition = record {
  title = "Lake sediments";
  cwd = "/topics/lakes";
  command = "run-topic" ∷ [];
  provider = none;
  usage_file = none;
  max_attempts = pos 3;
  stop_file = some "/topics/lakes/STOP";
  completion_command = none;
  depends_on = [];
  progress_command = none;
  on_completed_command = none;
  stall_limit = none;
  gap_policy = "propose";
  gap_auto_limit = pos 3;
  completion_lock = none;
  internal_citations = false;
  topic_refresh = "never";
  topic_refresh_mode = "recheck";
  lane = "research";
}

abbrev pub lakes : Item
lakes = record {
  id = "lakes";
  definition = definition;
  research_policy = none;
  research_blockers = [];
  research_coverage = [];
  research_resolutions = [];
  completion_coverage = none;
  refresh_due_at = none;
  refresh_count = 0;
  progress_signature = none;
  stall_count = 0;
  saturation_streak = 0;
  iterations_completed = 0;
  deepening_seen = false;
  last_checkpoint_iteration = none;
  deepening_checkpoint_done = false;
  status = Status.completed;
  desired_state = DesiredState.running;
  attempts = 1;
  consecutive_failures = 0;
  subscription_limit_failures = 0;
  next_eligible_at = none;
  last_exit_code = none;
  last_error = none;
  last_error_kind = none;
  restart_generation = 0;
  created_at = 100;
  updated_at = 100;
  started_at = none;
  finished_at = none;
  last_pid = none;
  last_pid_fingerprint = none;
  claimed_by = null;
  reserved_for = none;
  accepted_by_workers = [];
}

abbrev pub rivers : Item
rivers = record lakes {
  id = "rivers";
  definition = record definition { title = "River deltas"; depends_on = "lakes" ∷ [] };
  status = Status.queued;
  attempts = 0;
}

abbrev two_topics : World
two_topics = record {
  state = record {
    revision = 4;
    paused = false;
    pause_reason = none;
    stopping = false;
    updated_at = 100;
    worker_policies = [];
    lane_limits = ("research", 1) ∷ [];
    items = lakes ∷ rivers ∷ [];
  };
  disk = [];
}

abbrev request : Request
request = record { worker = "station-1"; lanes = "research" ∷ []; stations = []; now = 200 }

abbrev started_rivers : Item
started_rivers = record rivers {
  accepted_by_workers = "station-1" ∷ [];
  status = Status.running;
  claimed_by = by "station-1";
  attempts = 1;
  started_at = some 200;
  finished_at = none;
  updated_at = 200;
}

abbrev after_claim : World
after_claim = record two_topics {
  state = record two_topics.state {
    revision = 5;
    updated_at = 200;
    items = lakes ∷ started_rivers ∷ [];
  };
}

abbrev scheduled_report : Report
scheduled_report = record {
  expected_restart_generation = 0;
  requested_control = none;
  outcome = Outcome.scheduled;
  exit_code = pos 0;
  error_kind = none;
  message = none;
  next_eligible_at = some 560;
  consume_failure = true;
}

abbrev left_rivers : Item
left_rivers = record started_rivers {
  status = Status.backoff;
  last_exit_code = some (pos 0);
  next_eligible_at = some 560;
  finished_at = some 260;
  updated_at = 260;
}

abbrev paused_rivers : Item
paused_rivers = record left_rivers {
  status = Status.paused;
  desired_state = DesiredState.paused;
  next_eligible_at = none;
  claimed_by = null;
}

abbrev body_claim : World → Result (Claim × World)
body_claim v = do (claim, s) ← claim_from request v.state; ok (claim, record v { state = s })

-- The station takes the second topic.
claims_rivers : claim_next request two_topics ≡ ok (some (started_rivers, false), after_claim)
unfolding claim_next validate_lanes validate_lane claim_from claim_waiting worker_policy
    release_stray cascade walk candidate after_walk at_item at_held drop_reservation
    start_if_eligible eligible dependencies_from is_done find is_item_id lane_capacity_ok lane_limit
    running_in lookup grant grant_accepted accepted_workers distinct mem started_item count_claim
    modify modify_first station_interval_of
claims_rivers =
    locked-changed body_claim 200 two_topics (some (started_rivers, false))
      (record two_topics {
        state = record two_topics.state { items = lakes ∷ started_rivers ∷ [] };
      })
      refl (λ e. let n : 1 ≡ 0 = ap (λ (s : State). running_in "research" s.items) e in cc)

claim_next-Started_example : Started request two_topics.state started_rivers
claim_next-Started_example =
    claim_next-Started request two_topics after_claim started_rivers claims_rivers

claim_next-dependencies_example :
    All (λ d. is_done two_topics.state.items d ≡ some true) started_rivers.depends_on
claim_next-dependencies_example =
    claim_next-dependencies request two_topics after_claim started_rivers claims_rivers

two_topics-single : SingleRunner two_topics.state
two_topics-single w = ground arith

-- The claim, a failed pause and the end of the run, at three times.
abbrev history : List (ℕ × Call)
history =
    (200, Call.claim request)
    ∷ (210, Call.pause_one "tides" none true)
    ∷ (260, Call.finalize "rivers" scheduled_report)
    ∷ []

run-SingleRunner_example : SingleRunner (run history two_topics).state
run-SingleRunner_example = run-SingleRunner history two_topics two_topics-single

finalized-status_example :
    (left_rivers.status ≡ Status.backoff)
    × (keeps_going Outcome.scheduled ≡ false → left_rivers.claimed_by ≡ null)
    × (left_rivers.last_pid ≡ none)
    × (Outcome.scheduled ≡ Outcome.completed
        → left_rivers.refresh_due_at ≡ refresh_due started_rivers.topic_refresh 260)
unfolding finalized actual_outcome apply_outcome graceful_stop settle
finalized-status_example =
    finalized-status false false scheduled_report 260 started_rivers Outcome.scheduled left_rivers
      refl

-- The same end of a run while the queue stops.
finalized-stopping_example :
    (paused_rivers.status ≢ Status.backoff)
    × (paused_rivers.claimed_by ≡ null)
    × ((false ≡ false)
          × (started_rivers.desired_state ≢ DesiredState.paused)
          × (started_rivers.restart_generation ≡ scheduled_report.expected_restart_generation)
          × (scheduled_report.requested_control ≡ none)
          × (keeps_going scheduled_report.outcome ≡ true)
        → (Outcome.paused ≡ Outcome.paused)
          × (paused_rivers.status ≡ Status.paused)
          × (paused_rivers.desired_state ≡ DesiredState.paused)
          × (paused_rivers.next_eligible_at ≡ none))
    × (paused_rivers.status ≡ Status.queued
        → ((Outcome.paused ≡ Outcome.global_paused) ⊎ (Outcome.paused ≡ Outcome.restarted))
          × (paused_rivers.desired_state ≡ started_rivers.desired_state))
unfolding finalized actual_outcome apply_outcome graceful_stop settle
finalized-stopping_example =
    finalized-stopping false true scheduled_report 260 started_rivers Outcome.paused paused_rivers
      (inr refl) refl

abbrev failure : Failure
failure = record {
  key = "k2";
  source = "crossref";
  request_type = some "find";
  subject = some "deltas";
  coverage = "auth_failed";
}

abbrev old_blocker : Blocker
old_blocker = record {
  key = "k1";
  source = "openalex";
  request_type = none;
  subject = none;
  coverage = "provider_unavailable";
  at = 10;
}

abbrev source_key : String → String
source_key source = source

lookup-updated_blockers_example :
    lookup "k1"
      (updated_blockers source_key 300 (failure ∷ []) ("k1" ∷ []) (keyed old_blocker ∷ []))
    ≡ or_else
        (if mem "k1" ("k1" ∷ [])
          then none
          else lookup "k1" (current_blockers source_key 300 (keyed old_blocker ∷ []) []))
        (lookup "k1" (blocking 300 (failure ∷ []) []))
lookup-updated_blockers_example =
    lookup-updated_blockers source_key 300 (failure ∷ []) ("k1" ∷ []) (keyed old_blocker ∷ []) "k1"

updated_blockers-origin_example :
    ((mem "k2" ("k1" ∷ []) ≡ false)
      × (lookup "k2" (current_blockers source_key 300 (keyed old_blocker ∷ []) [])
          ≡ some (blocker_of 300 failure)))
    ⊎ ((f : Failure) × (is_blocking f ≡ true)
        × (f.key ≡ "k2")
        × (blocker_of 300 failure ≡ blocker_of 300 f))
unfolding updated_blockers blocking current_blockers clear_keys set_defaults lookup insert remove
    mem
updated_blockers-origin_example =
    updated_blockers-origin source_key 300 (failure ∷ []) ("k1" ∷ []) (keyed old_blocker ∷ []) "k2"
      (blocker_of 300 failure) refl

repeated-stall_count_example :
    (((rivers.progress_signature ≡ some "a1")
        × ((repeated 2 (some "a1") 300 rivers).stall_count ≡ rivers.stall_count + 2))
      ⊎ ((rivers.progress_signature ≢ some "a1")
          × ((repeated 2 (some "a1") 300 rivers).stall_count ≡ 1)))
    × ((repeated 2 (some "a1") 300 rivers).progress_signature ≡ some "a1")
    × ((repeated 2 none 300 rivers).stall_count ≡ 0)
    × ((repeated 2 none 300 rivers).progress_signature ≡ none)
repeated-stall_count_example = repeated-stall_count 1 300 "a1" rivers
