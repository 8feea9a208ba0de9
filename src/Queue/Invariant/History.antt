-- ===== src/Queue/Invariant/History.antt =====
-- What every history of calls keeps.
use autonomous_research_loop.Prelude.{
  ℕ, String, ◌≡◌, Bool, not, Option, some, List, [], ◌∷◌, arith, ◌==◌,
}
use autonomous_research_loop.Prelude.Int.{ℤ}
use autonomous_research_loop.Queue.Types.{PolicyValue, World}
use autonomous_research_loop.Queue.Store.{
  guard, invalid_claim_limit, completion_lock_required, reason_required, Ensures, Ensures-bind, Op,
  find_item,
}
use autonomous_research_loop.Prelude.Texts.{strip}
use autonomous_research_loop.Queue.Validate.{
  validate_lane, validate_item_id, validate_completion_lock, validate_research_policy,
}
use autonomous_research_loop.Queue.Transitions.{
  is_completed, reopened_item, resumed_item, restart_requested, completed_item, pid_item,
  paused_after_stop, queued_after_global_pause, restarted_after_stop, backoff_item,
  needs_attention_item,
}
use autonomous_research_loop.Queue.Operations.{
  resume_item, reopen_for_refresh, request_restart, set_lane_limit, new_limits, relocked_item,
  is_claim_limit, set_completion_lock, configure_worker_policy, pause_all, resume_all, pause_item,
  mark_completed, mark_pid, mark_paused_after_stop, mark_queued_after_global_pause,
  mark_restarted_after_stop, mark_scheduled, mark_backoff, mark_needs_attention,
}
use autonomous_research_loop.Queue.Records.{
  resolve_research_blockers, set_research_policy, reset_stall_guard, record_progress_signature,
  record_iteration_accounting, record_saturation_streak, update_research_blockers,
  record_completion_coverage, stall_reset, signed_item, accounted_item, Iteration, ordinary,
  checkpoint, blocked_item, resolved_item,
}
use autonomous_research_loop.Queue.Machine.{Call, exec, run, world_after}
use autonomous_research_loop.Queue.Invariant.Keeps.{Holds, Keeps, locked-Keeps, world_after-keeps}
use autonomous_research_loop.Queue.Invariant.Runners.{SingleRunner}
use autonomous_research_loop.Queue.Invariant.Synced.{sync-single, configure_topic-single}
use autonomous_research_loop.Queue.Invariant.Single.{
  Calm, SingleRunner-stable, update-single, locked-update-single, paused_item-Calm,
  resumed_item-Calm, restart_requested-Calm, scheduled_item-Calm, finalize_run-single, move-single,
  remove-single, add-single, claim_next-single, auto_resume_transient-single,
  reassign_worker-single,
}

-- An operation that leaves the items as they are.
abbrev SameItems : {A : Type 0} → Op A → Type 0
SameItems {A} op =
    (w : World) → Ensures (λ (out : A × World). out.1.state.items ≡ w.state.items) (op w)

resume_item-single : (k : String) (now : ℕ) → Keeps SingleRunner (resume_item k now)
unfolding resume_item
resume_item-single k now = locked-Keeps SingleRunner SingleRunner-stable _ now λ w h.
    Ensures-bind (Holds SingleRunner) (find_item w.state k) _
      λ item _. update-single k (resumed_item now) (resumed_item-Calm now) _ h

reopen_for_refresh-single : (k : String) (now : ℕ) → Keeps SingleRunner (reopen_for_refresh k now)
unfolding reopen_for_refresh reopened_item
reopen_for_refresh-single k now = locked-Keeps SingleRunner SingleRunner-stable _ now λ w h.
    Ensures-bind (Holds SingleRunner) (find_item w.state k) _ λ item _.
      Ensures-bind (Holds SingleRunner) (guard (is_completed item.status) _) _
        λ _ _. update-single k (reopened_item now) (λ v i. ground arith) _ h

request_restart-single : (k : String) (now : ℕ) → Keeps SingleRunner (request_restart k now)
unfolding request_restart
request_restart-single k now = locked-Keeps SingleRunner SingleRunner-stable _ now λ w h.
    Ensures-bind (Holds SingleRunner) (find_item w.state k) _
      λ item _. update-single k (restart_requested now) (restart_requested-Calm now) _ h

accounted_item-Calm : (i : Iteration) (d : Bool) (now : ℕ) → Calm (accounted_item i d now)
unfolding accounted_item
accounted_item-Calm ordinary d now w i h = h
accounted_item-Calm (checkpoint r) d now w i h = h

accounting-single :
    (k : String) (i : Iteration) (d : Bool) (now : ℕ)
    → Keeps SingleRunner (record_iteration_accounting k i d now)
unfolding record_iteration_accounting
accounting-single k i d now =
    locked-update-single k (accounted_item i d now) now (accounted_item-Calm i d now)

keep_single :
    {A : Type 0} (op : Op A) (w : World)
    → Keeps SingleRunner op
    → SingleRunner w.state
    → SingleRunner (world_after (op w) w).state
keep_single op w keep h = world_after-keeps SingleRunner (op w) w h (keep w h)

set_lane_limit-single :
    (lane : String) (limit : Option ℤ) (now : ℕ)
    → Keeps SingleRunner (set_lane_limit lane limit now)
unfolding set_lane_limit
set_lane_limit-single lane limit now w h =
    Ensures-bind (Holds SingleRunner) (validate_lane lane) _ λ _ _.
      Ensures-bind (Holds SingleRunner) (new_limits lane limit w.state.lane_limits) _
        λ limits _. locked-Keeps SingleRunner SingleRunner-stable _ now (λ v hv. hv) w h

set_completion_lock-single :
    (k lock : String) (now : ℕ) → Keeps SingleRunner (set_completion_lock k lock now)
unfolding set_completion_lock
set_completion_lock-single k lock now w h =
    Ensures-bind (Holds SingleRunner) (guard (not (lock == "")) completion_lock_required) _ λ _ _.
      Ensures-bind (Holds SingleRunner) (validate_completion_lock (some lock)) _
        λ _ _. locked-update-single k (relocked_item lock now) now (λ v i runs. runs) w h

configure_worker_policy-single :
    (worker : String) (limit : Option ℤ) (now : ℕ)
    → Keeps SingleRunner (configure_worker_policy worker limit now)
unfolding configure_worker_policy
configure_worker_policy-single worker limit now w h =
    Ensures-bind (Holds SingleRunner) (validate_item_id worker) _ λ worker' _.
      Ensures-bind (Holds SingleRunner) (guard (is_claim_limit limit) invalid_claim_limit) _
        λ _ _. locked-Keeps SingleRunner SingleRunner-stable _ now (λ v hv. hv) w h

resolve_research_blockers-single :
    (k reason : String) (sources : List String) (now : ℕ)
    → Keeps SingleRunner (resolve_research_blockers k reason sources now)
unfolding resolve_research_blockers resolved_item
resolve_research_blockers-single k reason sources now w h =
    Ensures-bind (Holds SingleRunner) (guard (not (strip reason == "")) reason_required) _
      λ _ _. locked-update-single k (resolved_item reason sources now) now (λ v i runs. runs) w h

set_research_policy-single :
    (k : String) (p : Option (List (String × PolicyValue))) (now : ℕ)
    → Keeps SingleRunner (set_research_policy k p now)
unfolding set_research_policy
set_research_policy-single k p now w h =
    Ensures-bind (Holds SingleRunner) (validate_research_policy p) _ λ checked _.
      locked-update-single k (λ i. record i { research_policy = checked; updated_at = now }) now
        (λ v i runs. runs) w h

exec-single :
    (now : ℕ) (c : Call) (w : World) → SingleRunner w.state → SingleRunner (exec now c w).state
unfolding exec pause_all resume_all pause_item mark_completed completed_item mark_pid pid_item
    mark_paused_after_stop paused_after_stop mark_queued_after_global_pause
    queued_after_global_pause mark_restarted_after_stop restarted_after_stop mark_scheduled
    mark_backoff backoff_item mark_needs_attention needs_attention_item reset_stall_guard
    stall_reset record_progress_signature signed_item record_saturation_streak
    update_research_blockers blocked_item record_completion_coverage
exec-single now (Call.add_item resolved generated a) w h =
    keep_single _ w (add-single resolved generated a now) h
exec-single now (Call.move_item k position) w h = keep_single _ w (move-single k position now) h
exec-single now (Call.remove_item k) w h = keep_single _ w (remove-single k now) h
exec-single now (Call.claim r) w h = keep_single _ w (claim_next-single _) h
exec-single now (Call.finalize k r) w h = keep_single _ w (finalize_run-single k r now) h
exec-single now (Call.auto_resume cooldown) w h =
    keep_single _ w (auto_resume_transient-single cooldown now) h
exec-single now (Call.resume_one k) w h = keep_single _ w (resume_item-single k now) h
exec-single now (Call.reopen k) w h = keep_single _ w (reopen_for_refresh-single k now) h
exec-single now (Call.restart k) w h = keep_single _ w (request_restart-single k now) h
exec-single now (Call.reassign worker k) w h =
    keep_single _ w (reassign_worker-single worker k now) h
exec-single now (Call.pause_queue reason graceful) w h =
    keep_single _ w (locked-Keeps SingleRunner SingleRunner-stable _ now (λ v hv. hv)) h
exec-single now Call.resume_queue w h =
    keep_single _ w (locked-Keeps SingleRunner SingleRunner-stable _ now (λ v hv. hv)) h
exec-single now (Call.pause_one k reason graceful) w h =
    keep_single _ w (locked-update-single k _ now (paused_item-Calm reason graceful now)) h
exec-single now (Call.limit_lane lane limit) w h =
    keep_single _ w (set_lane_limit-single lane limit now) h
exec-single now (Call.relock k lock) w h = keep_single _ w (set_completion_lock-single k lock now) h
exec-single now (Call.worker_policy worker limit) w h =
    keep_single _ w (configure_worker_policy-single worker limit now) h
exec-single now (Call.resolve k reason sources) w h =
    keep_single _ w (resolve_research_blockers-single k reason sources now) h
exec-single now (Call.policy k p) w h = keep_single _ w (set_research_policy-single k p now) h
exec-single now (Call.completed k code) w h =
    keep_single _ w (locked-update-single k _ now (λ v i. ground arith)) h
exec-single now (Call.pid k p fingerprint) w h =
    keep_single _ w (locked-update-single k _ now (λ v i runs. runs)) h
exec-single now (Call.paused_after_stop k) w h =
    keep_single _ w (locked-update-single k _ now (λ v i. ground arith)) h
exec-single now (Call.queued_after_global_pause k) w h =
    keep_single _ w (locked-update-single k _ now (λ v i. ground arith)) h
exec-single now (Call.restarted_after_stop k) w h =
    keep_single _ w (locked-update-single k _ now (λ v i. ground arith)) h
exec-single now (Call.scheduled k next) w h =
    keep_single _ w (locked-update-single k _ now (scheduled_item-Calm next now)) h
exec-single now (Call.backoff k code kind message next) w h =
    keep_single _ w (locked-update-single k _ now (λ v i. ground arith)) h
exec-single now (Call.needs_attention k code kind message consume) w h =
    keep_single _ w (locked-update-single k _ now (λ v i. ground arith)) h
exec-single now (Call.reset_stall k) w h =
    keep_single _ w (locked-update-single k _ now (λ v i runs. runs)) h
exec-single now (Call.progress k signature) w h =
    keep_single _ w (locked-update-single k _ now (λ v i runs. runs)) h
exec-single now (Call.accounting k iteration deepening) w h =
    keep_single _ w (accounting-single k iteration deepening now) h
exec-single now (Call.streak k n) w h =
    keep_single _ w (locked-update-single k _ now (λ v i runs. runs)) h
exec-single now (Call.blockers legacy_key k failures cleared seen) w h =
    keep_single _ w (locked-update-single k _ now (λ v i runs. runs)) h
exec-single now (Call.coverage k seen) w h =
    keep_single _ w (locked-update-single k _ now (λ v i runs. runs)) h
exec-single now (Call.sync_with resolve shown entries prune) w h =
    keep_single _ w (sync-single resolve shown entries prune now) h
exec-single now (Call.configure resolve shown k s) w h =
    keep_single _ w (configure_topic-single resolve shown k s now) h

-- Whatever calls are made, in whatever order and by whichever workers, no worker has two running
-- items, if none had two at the start.
pub run-SingleRunner :
    (history : List (ℕ × Call)) (w : World)
    → SingleRunner w.state
    → SingleRunner (run history w).state
unfolding run
run-SingleRunner [] w h = h
run-SingleRunner ((now, c) ∷ cs) w h = run-SingleRunner cs (exec now c w) (exec-single now c w h)
