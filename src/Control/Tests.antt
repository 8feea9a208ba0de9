-- ===== src/Control/Tests.antt =====
-- Tests of the station scheduler: two stations in use, and a queue of two topics.
use mathlib.Core.List.{Memᴰ}
use autonomous_research_loop.Prelude.{
  ℕ, zero, suc, ◌≤◌, String, ◌≡◌, ◌≢◌, refl, sym, ap, true, false, none, some, Option, List, [],
  ◌∷◌,
}
use autonomous_research_loop.Prelude.Int.{pos}
use autonomous_research_loop.Prelude.Texts.{strip}
use autonomous_research_loop.Queue.Types.{Definition, Item}
use autonomous_research_loop.Queue.Store.{empty_state}
use autonomous_research_loop.Queue.Add.{new_item}
use autonomous_research_loop.Control.Types.{
  research, station_1, Station, Configuration, Lease, Profile, Run, content, Pair, Logical,
}
use autonomous_research_loop.Control.Store.{ControlError, Outcome, raised, returned, stale_lease}
use autonomous_research_loop.Control.Configuration.{validate_state}
use autonomous_research_loop.Control.Schedule.{
  key, topics_after, executing_topics, candidates_of, assignment_of, station_ids, reconcile_state,
}
use autonomous_research_loop.Control.Station.{number, text, station_id}
use autonomous_research_loop.Control.Claim.{claim, claim_body, claim_desired}
use autonomous_research_loop.Control.Finalize.{finalize_body, finalize, confirm_launch}
use autonomous_research_loop.Control.Profiles.{resolve_station_pair, resolve_checkpoint_pair}
use autonomous_research_loop.Control.Machine.{
  Action, claiming, finalizing, confirming, reordering, transaction-changed, run,
}
use autonomous_research_loop.Control.Operator.{reorder_body, reorder}
use autonomous_research_loop.Control.Operator.Reordered.{Reordered, reorder-Reordered}
use autonomous_research_loop.Control.Runnable.Turns.{
  is_available, wish, candidate_at, available_stations, stations_before, reconcile_state-turn,
}
use autonomous_research_loop.Control.Exclusive.{Exclusive}
use autonomous_research_loop.Control.Exclusive.History.{run-Exclusive}
use autonomous_research_loop.Control.Claim.Justified.{Justified, claim-Justified}
use autonomous_research_loop.Control.Finalize.Ended.{finalize-ended}
use autonomous_research_loop.Control.Generation.{generation, run-generation}
use autonomous_research_loop.Control.Valid.Reviews.{IsStation, run-pairs}

abbrev definition : Definition
definition = record {
  title = "Lake sediments";
  cwd = "/topics/lakes";
  command = "run-topic" ∷ [];
  provider = none;
  usage_file = none;
  max_attempts = pos 3;
  stop_file = none;
  completion_command = none;
  depends_on = [];
  progress_command = none;
  on_completed_command = none;
  stall_limit = none;
  gap_policy = "review";
  gap_auto_limit = pos 3;
  completion_lock = none;
  internal_citations = false;
  topic_refresh = "off";
  topic_refresh_mode = "light";
  lane = "research";
}

abbrev lakes : Item
lakes = new_item (λ p. p) definition "lakes" [] none 0

abbrev rivers : Item
rivers = new_item (λ p. p) definition "rivers" [] none 0

abbrev station : ℕ → Station
station n = record {
  id = pos n;
  primary_profile = "opus";
  secondary_profile = "codex";
  interval_seconds = pos 60;
}

abbrev profile : Profile
profile = record { adapter = "cli"; model = "large"; executable = "/bin/agent"; argv = [] }

abbrev configuration : Configuration
configuration = record {
  schema_version = pos 1;
  active_count = pos 2;
  stations = station 1 ∷ station 2 ∷ station 3 ∷ station 4 ∷ station 5 ∷ [];
  checkpoints = record {
    enabled = true;
    every_research_iterations = pos 25;
    on_deepening_entry = true;
    agent_source = station_1;
    primary_profile = none;
    secondary_profile = none;
  };
}

abbrev pub start : Logical
start = record {
  revision = 0;
  configuration = configuration;
  queue = record (empty_state 0) { items = lakes ∷ rivers ∷ [] };
  work = record {
    topics = [];
    runs = [];
    triggers = [];
    episodes = [];
    proposals = [];
    decisions = [];
    decision_publications = [];
    assignments = [];
    capabilities = [];
    agent_profiles = ("opus", profile) ∷ ("codex", profile) ∷ [];
    state_operations = [];
    pruned_runs = [];
    intake_current = none;
  };
}

abbrev actions : List Action
actions =
    claiming (number (pos 1)) 10 "lease-1"
    ∷ claiming (text "station-2") 11 "lease-2"
    ∷ confirming (number (pos 1)) "lease-1" 12
    ∷ finalizing (number (pos 1)) "lease-1" (some 80) none 20
    ∷ reordering ("rivers" ∷ "lakes" ∷ []) 0 30
    ∷ claiming (number (pos 1)) 90 "lease-3"
    ∷ []

start-Exclusive : Exclusive start.work.assignments
unfolding Exclusive
start-Exclusive a b topic ha hb = cc

run-Exclusive_example : Exclusive (run actions start).work.assignments
run-Exclusive_example = run-Exclusive actions start start-Exclusive

run-generation_example : generation "1" start ≤ generation "1" (run actions start)
run-generation_example = run-generation "1" actions start

start-valid : validate_state start ≡ returned tt
unfolding validate_state strip
start-valid = refl

run-pairs_example :
    ((n : ℕ)
      → Memᴰ n station_ids
      → (r : Pair) × (resolve_station_pair n (run actions start) ≡ returned r))
    × ((o : Option ℕ)
        → IsStation o
        → (r : Pair) × (resolve_checkpoint_pair o (run actions start) ≡ returned r))
run-pairs_example = run-pairs actions start start-valid

empty-nonempty : {r : String × Run} {rs : List (String × Run)} → [] ≢ r ∷ rs
empty-nonempty h = cc

none-some : {l : Lease} → none ≢ some l
none-some h = cc

abbrev state_of : {A : Type 0} → Outcome (A × Logical) → Logical
state_of (returned (a, s)) = s
state_of (raised e) = start

abbrev first_lease : Lease
first_lease = record {
  topic_id = "lakes";
  execution_kind = research;
  station_id = 1;
  lease_id = "lease-1";
  lease_generation = 1;
  started_at = 10;
  configuration_revision = 0;
  launch_confirmed_at = none;
}

abbrev claimed : Logical
claimed = (claim_body 1 10 "lease-1" start).1

abbrev claimed_state : Logical
claimed_state = record claimed { revision = 1 }

first-claim :
    claim (number (pos 1)) 10 "lease-1" start
    ≡ returned (some (record { lease = first_lease; resumed = false }), claimed_state)
unfolding claim claim_body claim_desired reconcile_state validate_state strip empty_state new_item
first-claim =
    transaction-changed validate_state (λ v. returned (claim_body 1 10 "lease-1" v)) start claimed _
      refl (λ e. empty-nonempty (ap (λ (s : Logical). s.work.runs) (sym e))) refl

claim-Justified_example :
    (n : ℕ) × (station_id (number (pos 1)) ≡ returned n) × Justified n 10 start first_lease
claim-Justified_example =
    claim-Justified (number (pos 1)) 10 "lease-1" start claimed_state
      (record { lease = first_lease; resumed = false }) first-claim refl

abbrev ended : Logical
ended = state_of (finalize_body 1 "lease-1" (some 80) none 20 claimed_state)

abbrev ended_state : Logical
ended_state = record ended { revision = 2 }

first-end :
    finalize (number (pos 1)) "lease-1" (some 80) none 20 claimed_state
    ≡ returned (assignment_of "1" ended.work.assignments, ended_state)
unfolding claim_body claim_desired reconcile_state validate_state strip finalize finalize_body
    assignment_of empty_state new_item
first-end =
    transaction-changed validate_state (finalize_body 1 "lease-1" (some 80) none 20) claimed_state
      ended _ refl
      (λ e.
        none-some (ap (λ (s : Logical). content (assignment_of "1" s.work.assignments).current) e))
      refl

finalize-ended_example :
    (finalize (number (pos 1)) "lease-1" none none 21 ended_state ≡ raised stale_lease)
    × ((e : ControlError) × (confirm_launch (number (pos 1)) "lease-1" 21 ended_state ≡ raised e))
finalize-ended_example =
    finalize-ended (number (pos 1)) "lease-1" (some 80) none 20 claimed_state ended_state
      (assignment_of "1" ended.work.assignments) first-end "lease-1" none none 21

station_2-free : is_available (pos 2) 10 2 (assignment_of (key 2) []) ≡ true
unfolding assignment_of key
station_2-free = refl

-- Station 1 stands before station 2, and takes the first topic.
reconcile_state-turn_example :
    content (assignment_of (key 2) (reconcile_state 10 start).work.assignments).desired
    ≡ wish
        (topics_after (executing_topics []) start.queue.items [])
        (candidate_at (available_stations 10 start (stations_before 2)) (candidates_of 10 start))
unfolding empty_state
reconcile_state-turn_example =
    reconcile_state-turn 10 start 2 (Memᴰ.tail (Memᴰ.head refl)) refl station_2-free

abbrev rivers_first : List String
rivers_first = "rivers" ∷ "lakes" ∷ []

abbrev reordered : Logical
reordered = state_of (reorder_body rivers_first 0 30 start)

one-zero : suc zero ≢ zero
one-zero h = cc

first-reorder :
    reorder rivers_first 0 30 start ≡ returned (rivers_first, record reordered { revision = 1 })
unfolding reorder reorder_body reconcile_state validate_state strip empty_state new_item
first-reorder =
    transaction-changed validate_state (reorder_body rivers_first 0 30) start reordered rivers_first
      refl (λ e. one-zero (ap (λ (s : Logical). s.queue.revision) e)) refl

reorder-Reordered_example : Reordered rivers_first 0 start (record reordered { revision = 1 })
reorder-Reordered_example =
    reorder-Reordered rivers_first 0 30 start (record reordered { revision = 1 }) rivers_first
      first-reorder
