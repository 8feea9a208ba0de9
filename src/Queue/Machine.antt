-- ===== src/Queue/Machine.antt =====
-- research_loops/queue.py: the queue as a machine that any sequence of calls drives. A call that
-- raises leaves the world as it was.
use autonomous_research_loop.Prelude.{String, ℕ, Bool, Option, List, [], ◌∷◌}
use autonomous_research_loop.Prelude.Int.{ℤ}
use autonomous_research_loop.Queue.Types.{PolicyValue, World}
use autonomous_research_loop.Queue.Store.{Result, ok, err}
use autonomous_research_loop.Queue.Claim.{Request}
use autonomous_research_loop.Queue.Claim.Next.{claim_next}
use autonomous_research_loop.Queue.Finalize.{Report, finalize_run}
use autonomous_research_loop.Queue.Add.{Addition, add}
use autonomous_research_loop.Queue.Definition.{Json, Entry}
use autonomous_research_loop.Queue.Sync.{sync}
use autonomous_research_loop.Queue.Configure.{Settings, configure_topic}
use autonomous_research_loop.Queue.Operations.{
  pause_all, resume_all, pause_item, resume_item, auto_resume_transient, set_lane_limit,
  set_completion_lock, reassign_worker, reopen_for_refresh, request_restart, remove, move,
  mark_completed, mark_pid, mark_paused_after_stop, mark_queued_after_global_pause,
  mark_restarted_after_stop, mark_scheduled, mark_backoff, mark_needs_attention,
  configure_worker_policy,
}
use autonomous_research_loop.Queue.Records.{
  reset_stall_guard, record_progress_signature, Iteration, record_iteration_accounting,
  record_saturation_streak, Failure, update_research_blockers, resolve_research_blockers,
  record_completion_coverage, set_research_policy,
}

-- The methods of `QueueStore` that write, with their arguments.
pub data Call : Type 0 where
  add_item : (String → String) → String → Addition → Call
  move_item : String → ℤ → Call
  remove_item : String → Call
  claim : Request → Call
  finalize : String → Report → Call
  pause_queue : Option String → Bool → Call
  resume_queue : Call
  auto_resume : ℕ → Call
  pause_one : String → Option String → Bool → Call
  resume_one reopen restart : String → Call
  limit_lane : String → Option ℤ → Call
  relock : String → String → Call
  reassign : String → String → Call
  completed : String → ℤ → Call
  pid : String → Option ℕ → Option String → Call
  paused_after_stop queued_after_global_pause restarted_after_stop : String → Call
  scheduled : String → ℕ → Call
  backoff : String → ℤ → String → String → ℕ → Call
  needs_attention : String → ℤ → String → String → Bool → Call
  worker_policy : String → Option ℤ → Call
  reset_stall : String → Call
  progress : String → Option String → Call
  accounting : String → Iteration → Bool → Call
  streak : String → ℕ → Call
  blockers : (String → String) → String → List Failure → List String → List (String × String) → Call
  resolve : String → String → List String → Call
  coverage : String → List (String × String) → Call
  policy : String → Option (List (String × PolicyValue)) → Call
  sync_with : (String → String) → (Json → String) → List Entry → Bool → Call
  configure : (String → String) → (Json → String) → String → Settings → Call

abbrev pub world_after : {A : Type 0} → Result (A × World) → World → World
world_after (ok (a, w')) w = w'
world_after (err e) w = w

-- One call at a time of the clock.
unfoldable pub exec : ℕ → Call → World → World
exec now (add_item resolved generated a) w = world_after (add resolved generated a now w) w
exec now (move_item k position) w = world_after (move k position now w) w
exec now (remove_item k) w = world_after (remove k now w) w
exec now (claim r) w = world_after (claim_next (record r { now = now }) w) w
exec now (finalize k r) w = world_after (finalize_run k r now w) w
exec now (pause_queue reason graceful) w = world_after (pause_all reason graceful now w) w
exec now resume_queue w = world_after (resume_all now w) w
exec now (auto_resume cooldown) w = world_after (auto_resume_transient cooldown now w) w
exec now (pause_one k reason graceful) w = world_after (pause_item k reason graceful now w) w
exec now (resume_one k) w = world_after (resume_item k now w) w
exec now (reopen k) w = world_after (reopen_for_refresh k now w) w
exec now (restart k) w = world_after (request_restart k now w) w
exec now (limit_lane lane limit) w = world_after (set_lane_limit lane limit now w) w
exec now (relock k lock) w = world_after (set_completion_lock k lock now w) w
exec now (reassign worker k) w = world_after (reassign_worker worker k now w) w
exec now (completed k code) w = world_after (mark_completed k code now w) w
exec now (pid k p fingerprint) w = world_after (mark_pid k p fingerprint now w) w
exec now (paused_after_stop k) w = world_after (mark_paused_after_stop k now w) w
exec now (queued_after_global_pause k) w = world_after (mark_queued_after_global_pause k now w) w
exec now (restarted_after_stop k) w = world_after (mark_restarted_after_stop k now w) w
exec now (scheduled k next) w = world_after (mark_scheduled k next now w) w
exec now (backoff k code kind message next) w =
    world_after (mark_backoff k code kind message next now w) w
exec now (needs_attention k code kind message consume) w =
    world_after (mark_needs_attention k code kind message consume now w) w
exec now (worker_policy worker limit) w = world_after (configure_worker_policy worker limit now w) w
exec now (reset_stall k) w = world_after (reset_stall_guard k now w) w
exec now (progress k signature) w = world_after (record_progress_signature k signature now w) w
exec now (accounting k iteration deepening) w =
    world_after (record_iteration_accounting k iteration deepening now w) w
exec now (streak k n) w = world_after (record_saturation_streak k n now w) w
exec now (blockers legacy_key k failures cleared seen) w =
    world_after (update_research_blockers legacy_key k failures cleared seen now w) w
exec now (resolve k reason sources) w =
    world_after (resolve_research_blockers k reason sources now w) w
exec now (coverage k seen) w = world_after (record_completion_coverage k seen now w) w
exec now (policy k p) w = world_after (set_research_policy k p now w) w
exec now (sync_with resolved shown entries prune) w =
    world_after (sync resolved shown entries prune now w) w
exec now (configure resolved shown k s) w = world_after (configure_topic resolved shown k s now w) w

-- A history: each call with the clock's value at which it was made.
unfoldable pub run : List (ℕ × Call) → World → World
run [] w = w
run ((now, c) ∷ cs) w = run cs (exec now c w)
