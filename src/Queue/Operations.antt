-- ===== src/Queue/Operations.antt =====
-- research_loops/queue.py: the operations on a queue, each under its lock. The operations that only
-- record research and progress are in Queue/Records.
use autonomous_research_loop.Prelude.{
  ℕ, ◌+◌, String, Bool, true, false, not, ◌&&◌, ◌||◌, Option, none, some, List, [], ◌∷◌, map, ◌==◌,
  leb, min, if◌then◌else◌,
}
use autonomous_research_loop.Prelude.Int.{ℤ, pos, below, clamp_zero}
use autonomous_research_loop.Prelude.Lists.{
  length, first, keep, insert_at, insert, remove as remove_key,
}
use autonomous_research_loop.Queue.Types.{
  ClaimedBy, releasing, by, Item, State, World, WorkerPolicy,
}
use autonomous_research_loop.Queue.Store.{
  Result, err, ok, err, ◌>>=◌, ◌>>◌, guard, Op, locked, find_item, modify, update,
  invalid_claim_limit, invalid_lane_limit, completion_lock_required, claimed_by_another,
  not_claimable, not_completed, remove_running,
}
use autonomous_research_loop.Queue.Validate.{
  validate_item_id, validate_lane, validate_completion_lock,
}
use autonomous_research_loop.Queue.Transitions.{
  is_running, is_waiting, is_completed, is_needs_attention, is_resumable, wants_running, owns,
  or_text, clear_stop_file, paused_item, resumed_item, heals_itself, auto_resumed_item,
  reopened_item, restart_requested, completed_item, pid_item, paused_after_stop,
  queued_after_global_pause, restarted_after_stop, scheduled_item, backoff_item,
  needs_attention_item,
}

abbrev pub set_items : World → List Item → World
set_items w items = record w { state = record w.state { items = items } }

unfoldable pub pause_all : Option String → Bool → ℕ → Op Unit
pause_all reason graceful = locked λ w. ok (
  tt,
  record w {
    state = record w.state {
      stopping = if graceful then true else w.state.stopping;
      paused = if graceful then w.state.paused else true;
      pause_reason = some (or_text reason "paused by operator");
    };
  },
)

unfoldable pub resume_all : ℕ → Op Unit
resume_all = locked λ w. ok (
  tt,
  record w { state = record w.state { paused = false; stopping = false; pause_reason = none } },
)

unfoldable pub pause_item : String → Option String → Bool → ℕ → Op Item
pause_item k reason graceful now = locked (update k (paused_item reason graceful now)) now

-- Resuming a parked or waiting item deletes its STOP file too.
unfoldable pub resume_item : String → ℕ → Op Item
resume_item k now =
    locked
      (λ w. do
        item ← find_item w.state k
        let disk = if is_resumable item.status then clear_stop_file item w.disk else w.disk
        update k (resumed_item now) (record w { disk = disk }))
      now

abbrev cooled_down : Option ℕ → ℕ → ℕ → Bool
cooled_down none cooldown now = false
cooled_down (some finished) cooldown now = leb (finished + cooldown) now

-- A parked item whose failure heals by itself and was long enough ago.
abbrev pub auto_resumable : ℕ → ℕ → Item → Bool
auto_resumable cooldown now i =
    is_needs_attention i.status
    && heals_itself i.last_error_kind
    && cooled_down i.finished_at cooldown now

-- The items as they are left; the records that the caller gets are those of `auto_resumable` items.
unfoldable pub auto_resume_transient : ℕ → ℕ → Op (List Item)
auto_resume_transient cooldown now =
    locked
      (λ w.
        if w.state.paused || w.state.stopping
        then ok ([], w)
        else ok (
          map (auto_resumed_item now) (keep (auto_resumable cooldown now) w.state.items),
          set_items w (
              map (λ i. if auto_resumable cooldown now i then auto_resumed_item now i else i)
                w.state.items),
        ))
      now

-- limits.pop(lane, None), or limits[lane] = limit
abbrev pub new_limits : String → Option ℤ → List (String × ℕ) → Result (List (String × ℕ))
new_limits lane none limits = ok (remove_key lane limits)
new_limits lane (some z) limits =
    if below z 1 then err invalid_lane_limit else ok (insert lane (clamp_zero z) limits)

unfoldable pub set_lane_limit : String → Option ℤ → ℕ → Op (List (String × ℕ))
set_lane_limit lane limit now w = do
  _ ← validate_lane lane
  limits ← new_limits lane limit w.state.lane_limits
  locked (λ v. ok (limits, record v { state = record v.state { lane_limits = limits } })) now w

unfoldable pub relocked_item : String → ℕ → Item → Item
relocked_item lock now i = record i {
  definition = record i.definition { completion_lock = some lock };
  updated_at = now;
}

-- The item after the change; the lock that it had is that of the store's item before the call.
unfoldable pub set_completion_lock : String → String → ℕ → Op Item
unfolding relocked_item
set_completion_lock k lock now w = do
  guard (not (lock == "")) completion_lock_required
  _ ← validate_completion_lock (some lock)
  locked (update k (relocked_item lock now)) now w

-- target.get("claimed_by") in (None, worker)
abbrev pub free_for : ClaimedBy → String → Bool
free_for (by h) worker = h == worker
free_for _ worker = true

abbrev released_by : ℕ → Item → Item
released_by now i = record i { desired_state = releasing; updated_at = now }

abbrev claimed_for : String → ℕ → Item → Item
claimed_for worker now i = record i { claimed_by = by worker; updated_at = now }

-- Gives the item that is being released, if any, and the target.
unfoldable pub reassign_worker : String → String → ℕ → Op (Option Item × Item)
reassign_worker worker k now =
    locked
      (λ w. do
        target ← find_item w.state k
        guard (free_for target.claimed_by worker) claimed_by_another
        guard (is_waiting target.status && wants_running target.desired_state) not_claimable
        let current =
            first (λ i. is_running i.status && owns i.claimed_by worker && not (i.id == k))
              w.state.items
        elim current [
          | none ↦ ok (
            (none, claimed_for worker now target),
            set_items w (modify k (λ _. claimed_for worker now target) w.state.items),
          )
          | some own ↦ ok (
            (some (released_by now own), claimed_for worker now target),
            set_items w (
                modify k (λ _. claimed_for worker now target)
                  (modify own.id (released_by now) w.state.items)),
          )
        ])
      now

-- A query: the id, the directory and the mode of each completed item whose refresh is due.
unfoldable pub due_refreshes : ℕ → State → List (String × String × String)
due_refreshes now s =
    map (λ i. (i.id, i.cwd, i.topic_refresh_mode))
      (keep
        (λ i.
          is_completed i.status && elim i.refresh_due_at [ none ↦ false | some due ↦ leb due now ])
        s.items)

unfoldable pub reopen_for_refresh : String → ℕ → Op Item
reopen_for_refresh k now =
    locked
      (λ w. do
        item ← find_item w.state k
        guard (is_completed item.status) not_completed
        update k (reopened_item now) (record w { disk = clear_stop_file item w.disk }))
      now

unfoldable pub request_restart : String → ℕ → Op Item
request_restart k now =
    locked
      (λ w. do
        item ← find_item w.state k
        let disk = if is_completed item.status then clear_stop_file item w.disk else w.disk
        update k (restart_requested now) (record w { disk = disk }))
      now

-- The first item with the id is taken out.
unfoldable pub without : String → List Item → List Item
without k [] = []
without k (i ∷ is) = if i.id == k then is else i ∷ without k is

unfoldable pub remove : String → ℕ → Op Item
remove k = locked λ w. do
  item ← find_item w.state k
  guard (not (is_running item.status)) remove_running
  ok (item, set_items w (without k w.state.items))

unfoldable pub move : String → ℤ → ℕ → Op Item
move k position now =
    locked
      (λ w. do
        item ← find_item w.state k
        let rest = without k w.state.items
        let moved = record item { updated_at = now }
        ok (moved, set_items w (insert_at (min (clamp_zero position) (length rest)) moved rest)))
      now

unfoldable pub mark_completed : String → ℤ → ℕ → Op Item
mark_completed k exit_code now = locked (update k (completed_item exit_code now)) now

unfoldable pub mark_pid : String → Option ℕ → Option String → ℕ → Op Item
mark_pid k pid fingerprint now = locked (update k (pid_item pid fingerprint now)) now

unfoldable pub mark_paused_after_stop : String → ℕ → Op Item
mark_paused_after_stop k now = locked (update k (paused_after_stop now)) now

unfoldable pub mark_queued_after_global_pause : String → ℕ → Op Item
mark_queued_after_global_pause k now = locked (update k (queued_after_global_pause now)) now

unfoldable pub mark_restarted_after_stop : String → ℕ → Op Item
mark_restarted_after_stop k now = locked (update k (restarted_after_stop now)) now

unfoldable pub mark_scheduled : String → ℕ → ℕ → Op Item
mark_scheduled k next_eligible_at now = locked (update k (scheduled_item next_eligible_at now)) now

unfoldable pub mark_backoff : String → ℤ → String → String → ℕ → ℕ → Op Item
mark_backoff k exit_code error_kind message next_eligible_at now =
    locked (update k (backoff_item exit_code error_kind message next_eligible_at now)) now

unfoldable pub mark_needs_attention : String → ℤ → String → String → Bool → ℕ → Op Item
mark_needs_attention k exit_code error_kind message consume_failure now =
    locked (update k (needs_attention_item exit_code error_kind message consume_failure now)) now

-- None, or an integer that is not negative
abbrev pub is_claim_limit : Option ℤ → Bool
is_claim_limit none = true
is_claim_limit (some z) = not (below z 0)

unfoldable pub configure_worker_policy : String → Option ℤ → ℕ → Op WorkerPolicy
configure_worker_policy worker limit now w = do
  worker' ← validate_item_id worker
  guard (is_claim_limit limit) invalid_claim_limit
  let policy : WorkerPolicy = record { claim_limit = limit; claims_used = pos 0 }
  locked
      (λ v. ok (
        policy,
        record v {
          state = record v.state {
            worker_policies = insert worker' policy v.state.worker_policies;
          };
        },
      ))
      now w
