-- ===== src/Queue/Add.antt =====
-- research_loops/queue.py: `add`. The directory's `expanduser().resolve()` depends on the file system
-- and is a parameter, as is the random id of an item that comes without one.
use autonomous_research_loop.Prelude.{
  ℕ, String, Bool, true, false, not, ◌&&◌, Option, none, some, List, [], ◌∷◌, ◌++◌, ◌==◌,
}
use autonomous_research_loop.Prelude.Int.{below}
use autonomous_research_loop.Prelude.Lists.{any, mem, distinct}
use autonomous_research_loop.Prelude.Texts.{strip}
use autonomous_research_loop.Queue.Types.{
  DesiredState, queued, missing, Definition, PolicyValue, Item,
}
use autonomous_research_loop.Queue.Store.{
  Result, ok, ◌>>=◌, ◌>>◌, guard, Op, locked, duplicate_item, title_and_command_required,
  invalid_max_attempts, invalid_stall_limit, depends_on_itself, duplicate_dependencies,
}
use autonomous_research_loop.Queue.Validate.{
  validate_item_id, validate_item_ids, validate_gap_policy, validate_gap_auto_limit,
  validate_topic_refresh, validate_topic_refresh_mode, validate_lane, validate_completion_lock,
  validate_research_policy,
}

-- The arguments of a call: a definition as it is given, and what is no part of one.
pub record Addition : Type 0 where
  pub item_id : Option String
  pub given : Definition
  pub research_policy : Option (List (String × PolicyValue))

abbrev is_empty {ℓ} : {A : Type ℓ} → List A → Bool
is_empty [] = true
is_empty (_ ∷ _) = false

-- list(command) if command else None
abbrev non_empty : Option (List String) → Option (List String)
non_empty none = none
non_empty (some []) = none
non_empty (some (c ∷ cs)) = some (c ∷ cs)

abbrev or_id : Option String → String → String
or_id none generated = generated
or_id (some k) generated = k

-- The checks of the arguments, before the queue is opened: the id and the policy that they give.
unfoldable pub check_addition :
    String → Addition → Result (String × List String × Option (List (String × PolicyValue)))
check_addition generated a = do
  guard (not (strip a.given.title == "") && not (is_empty a.given.command))
      title_and_command_required
  guard (not (below a.given.max_attempts 1)) invalid_max_attempts
  guard (elim a.given.stall_limit [ none ↦ true | some z ↦ not (below z 1) ]) invalid_stall_limit
  _ ← validate_gap_policy a.given.gap_policy
  _ ← validate_gap_auto_limit a.given.gap_auto_limit
  _ ← validate_completion_lock a.given.completion_lock
  _ ← validate_topic_refresh a.given.topic_refresh
  _ ← validate_topic_refresh_mode a.given.topic_refresh_mode
  _ ← validate_lane a.given.lane
  policy ← validate_research_policy a.research_policy
  k ← validate_item_id (or_id a.item_id generated)
  dependencies ← validate_item_ids a.given.depends_on
  guard (not (mem k dependencies)) depends_on_itself
  guard (distinct dependencies) duplicate_dependencies
  ok (k, dependencies, policy)

unfoldable pub new_item :
    (String → String)
    → Definition
    → String
    → List String
    → Option (List (String × PolicyValue))
    → ℕ
    → Item
new_item resolve given k dependencies policy now = record {
  id = k;
  definition = record given {
    title = strip given.title;
    cwd = resolve given.cwd;
    completion_command = non_empty given.completion_command;
    depends_on = dependencies;
    progress_command = non_empty given.progress_command;
    on_completed_command = non_empty given.on_completed_command;
  };
  research_policy = policy;
  research_blockers = [];
  research_coverage = [];
  research_resolutions = [];
  completion_coverage = none;
  refresh_due_at = none;
  refresh_count = 0;
  progress_signature = none;
  stall_count = 0;
  saturation_streak = 0;
  iterations_completed = 0;
  deepening_seen = false;
  last_checkpoint_iteration = none;
  deepening_checkpoint_done = false;
  status = queued;
  desired_state = DesiredState.running;
  attempts = 0;
  consecutive_failures = 0;
  subscription_limit_failures = 0;
  next_eligible_at = none;
  last_exit_code = none;
  last_error = none;
  last_error_kind = none;
  restart_generation = 0;
  created_at = now;
  updated_at = now;
  started_at = none;
  finished_at = none;
  last_pid = none;
  last_pid_fingerprint = none;
  claimed_by = missing;
  reserved_for = none;
  accepted_by_workers = [];
}

unfoldable pub add : (String → String) → String → Addition → ℕ → Op Item
unfolding check_addition
add resolve generated a now w = do
  (k, dependencies, policy) ← check_addition generated a
  let item = new_item resolve a.given k dependencies policy now
  locked
      (λ v. do
        guard (not (any (λ (i : Item). i.id == k) v.state.items)) (duplicate_item k)
        ok (item, record v { state = record v.state { items = v.state.items ++ item ∷ [] } }))
      now w
