-- ===== src/Checkpoint/Completion.antt =====
-- research_loops/checkpoints/service.py: `accept_research_completion`, `trigger_stall_checkpoint`.
mod Triggers
unfoldable pub use Triggers.*
use Prim.Native.Nat.{◌%◌}
use autonomous_research_loop.Prelude.{
  ℕ, ◌+◌, String, Bool, true, false, not, ◌&&◌, ◌||◌, Option, none, some, List, [], ◌∷◌, ◌++◌, map,
  nat_beq, if◌then◌else◌, ◌==◌,
}
use autonomous_research_loop.Prelude.Int.{ℤ, pos}
use autonomous_research_loop.Prelude.Lists.{any, lookup, insert}
use autonomous_research_loop.Control.Types.{
  set, content, Lease, Assignment, DeepeningEntry, Topic, Accounting, Run, TriggerKind, cadence,
  deepening_entry, stall, Trigger, Checkpoints, Work, Logical,
}
use autonomous_research_loop.Control.Store.{
  Outcome, returned, ◌>>◌, require, transaction, validation_error, duplicate_request_conflict,
  revision_conflict,
}
use autonomous_research_loop.Control.Configuration.{blank, validate_state}
use autonomous_research_loop.Control.Station.{Operation}
use autonomous_research_loop.Checkpoint.Episodes.{
  known_topic, add_trigger, assign_triggers, coalesce_episode,
}

-- The run as it ends, before it is accounted for.
unfoldable pub ended_run : Completion → Option Run → ℕ → Run
ended_run c prior now = record {
  run_id = c.run_id;
  topic_id = c.topic_id;
  station_id = c.station_id;
  lease_generation = elim c.lease_generation [
    | some generation ↦ some generation
    | none ↦ elim prior [ none ↦ none | some r ↦ r.lease_generation ]
  ];
  execution_kind = elim prior [ none ↦ none | some r ↦ r.execution_kind ];
  state = "finished";
  started_at = elim prior [ none ↦ none | some r ↦ r.started_at ];
  ended_at = some now;
  accepted = set c.accepted;
  ordinal = none;
  completion_accounted = false;
  accounting_result = none;
  finalized_without_accounting = elim prior [
    | none ↦ none
    | some r ↦ r.finalized_without_accounting
  ];
}

abbrev pub with_work : Work → Logical → Logical
with_work w s = record s { work = w }

-- The end of both branches: the topic and the run, with its result, in the ledger.
unfoldable pub conclude : Completion → Topic → Run → Accounting → Work → Work
unfolding insert
conclude c t r result w = record w {
  topics = insert c.topic_id t w.topics;
  runs = insert c.run_id (record r { accounting_result = some result }) w.runs;
}

unfoldable pub refuse : Completion → Option Run → ℕ → Logical → Accounting × Logical
unfolding known_topic ended_run conclude
refuse c prior now s =
    let t = known_topic c.topic_id (some c.inventory_version) s.work.topics in
    let result : Accounting = record {
      topic_id = c.topic_id;
      run_id = c.run_id;
      accepted = false;
      ordinal = none;
      research_iterations_completed = t.research_iterations_completed;
      next_research_ordinal = t.next_research_ordinal;
      episode_id = t.active_episode_id;
      review_state = none;
    } in
    (result, with_work (conclude c t (ended_run c prior now) result s.work) s)

-- The topic with one research iteration more.
unfoldable pub counted : Checkpoints → Completion → Topic → Topic
unfolding entries_after
counted policy c t =
    let ordinal = t.research_iterations_completed + 1 in
    record t {
      research_iterations_completed = ordinal;
      next_research_ordinal = ordinal + 1;
      last_accepted_run_id = some c.run_id;
      row_revision = t.row_revision + 1;
      deepening_entries = entries_after policy c ordinal t.deepening_entries;
    }

abbrev pub accounted : Completion → ℕ → Topic → Accounting
accounted c ordinal t = record {
  topic_id = c.topic_id;
  run_id = c.run_id;
  accepted = true;
  ordinal = some ordinal;
  research_iterations_completed = ordinal;
  next_research_ordinal = ordinal + 1;
  episode_id = t.active_episode_id;
  review_state = some t.review_state;
}

-- The counted topic and the ledger, once the triggers of its new ordinal have fired.
unfoldable pub fire : Digest → Completion → String → Topic → Logical → Topic × Work
unfolding fired_kinds counted add_triggers opened
fire digest c fresh t s =
    let policy = s.configuration.checkpoints in
    let ordinal = t.research_iterations_completed + 1 in
    let kinds = fired_kinds policy c ordinal t in
    let ids = map (λ kind. digest c.topic_id kind ordinal c.inventory_version) kinds in
    opened fresh c.inventory_version kinds ids (counted policy c t)
      (record s.work { triggers = add_triggers digest c ordinal kinds s.work.triggers })

unfoldable pub count_run :
    Digest → Completion → Option Run → String → ℕ → Logical → Accounting × Logical
unfolding known_topic fire ended_run conclude
count_run digest c prior fresh now s =
    let t = known_topic c.topic_id (some c.inventory_version) s.work.topics in
    let ordinal = t.research_iterations_completed + 1 in
    let after = fire digest c fresh t s in
    let result = accounted c ordinal after.0 in
    let run = record (ended_run c prior now) {
      ordinal = some ordinal;
      completion_accounted = true;
    } in
    (result, with_work (conclude c after.0 run result after.1) s)

unfoldable pub account :
    Digest → Completion → Option Run → String → ℕ → Logical → Accounting × Logical
unfolding count_run refuse
account digest c prior fresh now s =
    if c.accepted then count_run digest c prior fresh now s else refuse c prior now s

-- int(work.get("pruned_runs", {}).get(topic_id, 0))
abbrev pub has_pruned : String → Work → Bool
unfolding lookup
has_pruned topic_id w = elim (lookup topic_id w.pruned_runs) [
  | none ↦ false
  | some n ↦ not (nat_beq n 0)
]

unfoldable pub accept_body : Digest → Completion → String → ℕ → Operation Accounting
unfolding lookup account current_lease
accept_body digest c fresh now s = elim (lookup c.run_id s.work.runs) [
  | some r ↦ do
    require (r.topic_id == c.topic_id) duplicate_request_conflict
    elim r.accounting_result [
      | some result ↦ returned (result, s)
      | none ↦ do
        require (r.state == "started") revision_conflict
        returned (account digest c (some r) fresh now s)
    ]
  | none ↦ do
    require
        (not (has_pruned c.topic_id s.work)
          || is_present (current_lease c.topic_id c.run_id s.work))
        revision_conflict
    returned (account digest c none fresh now s)
]

-- _require_string
abbrev pub require_string : String → Outcome (Unit {0})
require_string t = require (not (blank t)) validation_error

unfoldable pub accept_research_completion : Digest → Completion → String → ℕ → Operation Accounting
unfolding transaction validate_state accept_body
accept_research_completion digest c fresh now s = do
  require_string c.topic_id
  require_string c.run_id
  require_string c.inventory_version
  transaction validate_state (accept_body digest c fresh now) s

-- The stall trigger of the topic at its number of completed iterations.
unfoldable pub stall_body : Digest → String → String → String → Operation (String × String)
unfolding known_topic add_trigger coalesce_episode assign_triggers insert
stall_body digest topic_id version fresh s =
    let t = known_topic topic_id (some version) s.work.topics in
    let ordinal = t.research_iterations_completed in
    let trigger_id = digest topic_id stall ordinal version in
    let triggers = add_trigger topic_id stall ordinal version trigger_id s.work.triggers in
    let joined = coalesce_episode fresh t (trigger_id ∷ []) s.work.episodes in
    returned (
      (joined.episode_id, joined.topic.review_state),
      with_work
          (record s.work {
            topics = insert topic_id joined.topic s.work.topics;
            triggers = assign_triggers joined.episode_id (trigger_id ∷ []) triggers;
            episodes = joined.episodes;
          })
          s,
    )

unfoldable pub trigger_stall_checkpoint :
    Digest → String → String → String → Operation (String × String)
unfolding transaction validate_state stall_body
trigger_stall_checkpoint digest topic_id version fresh s = do
  require_string topic_id
  require_string version
  transaction validate_state (stall_body digest topic_id version fresh) s
