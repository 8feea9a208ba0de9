-- ===== src/Queue/Finalize.antt =====
-- research_loops/queue.py: `finalize_run` of an unmanaged queue, the end of one iteration.
pub mod Outcomes
use autonomous_research_loop.Prelude.{
  ℕ, ◌+◌, ◌*◌, String, Bool, true, false, not, ◌&&◌, ◌||◌, Option, none, some, ◌==◌, nat_beq,
  if◌then◌else◌,
}
use autonomous_research_loop.Prelude.Int.{ℤ}
use autonomous_research_loop.Prelude.Texts.{last_chars}
use autonomous_research_loop.Queue.Types.{Status, DesiredState, null, Item}
use autonomous_research_loop.Queue.Store.{
  Result, ok, err, unknown_outcome, ◌>>=◌, Op, locked, find_item, modify,
}
use autonomous_research_loop.Queue.Transitions.{
  is_backoff, is_completed, is_stopping, is_releasing, wants_paused,
}

-- The texts that name an outcome; `other` is any other text.
pub data Outcome : Type 0 where
  global_paused paused restarted completed scheduled backoff needs_attention : Outcome
  other : String → Outcome

-- outcome in {"scheduled", "backoff"}
abbrev pub keeps_going : Outcome → Bool
keeps_going scheduled = true
keeps_going backoff = true
keeps_going _ = false

abbrev pub is_paused_request : Option Outcome → Bool
is_paused_request (some paused) = true
is_paused_request _ = false

-- requested_control or outcome
abbrev pub or_outcome : Option Outcome → Outcome → Outcome
or_outcome none outcome = outcome
or_outcome (some (other t)) outcome = if t == "" then outcome else other t
or_outcome (some requested) outcome = requested

-- The arguments of a call.
pub record Report : Type 0 where
  pub expected_restart_generation : ℕ
  pub requested_control : Option Outcome
  pub outcome : Outcome
  pub exit_code : ℤ
  pub error_kind : Option String
  pub message : Option String
  pub next_eligible_at : Option ℕ
  pub consume_failure : Bool

unfoldable pub actual_outcome : Bool → Item → Report → Outcome
actual_outcome queue_paused i r =
    if queue_paused
    then global_paused
    else if wants_paused i.desired_state
    then paused
    else if not (nat_beq i.restart_generation r.expected_restart_generation)
    then restarted
    else if is_paused_request r.requested_control
    then restarted
    else or_outcome r.requested_control r.outcome

abbrev message_text : Option String → String
message_text none = ""
message_text (some t) = t

-- What "backoff" and "needs_attention" share: the failure is counted and its error kept.
unfoldable pub failed_item : Report → Item → Item
failed_item r i = record i {
  consecutive_failures =
      if r.consume_failure then i.consecutive_failures + 1 else i.consecutive_failures;
  subscription_limit_failures =
      if r.consume_failure
      then i.subscription_limit_failures
      else i.subscription_limit_failures + 1;
  last_exit_code = some r.exit_code;
  last_error_kind = r.error_kind;
  last_error = some (last_chars 4000 (message_text r.message));
}

unfoldable pub apply_outcome : Outcome → Report → Item → Result Item
unfolding failed_item
apply_outcome global_paused r i = ok (record i { status = Status.queued })
apply_outcome paused r i = ok (record i { status = Status.paused })
apply_outcome restarted r i = ok (record i { status = Status.queued; next_eligible_at = none })
apply_outcome completed r i = ok (record i {
  status = Status.completed;
  desired_state = DesiredState.paused;
  last_exit_code = some r.exit_code;
})
apply_outcome scheduled r i = ok (record i {
  status = Status.backoff;
  consecutive_failures = 0;
  last_exit_code = some r.exit_code;
  last_error_kind = none;
  last_error = none;
  next_eligible_at = r.next_eligible_at;
})
apply_outcome backoff r i =
    ok (failed_item r (record i { status = Status.backoff; next_eligible_at = r.next_eligible_at }))
apply_outcome needs_attention r i = ok (
    failed_item r (record i {
      status = Status.needs_attention;
      desired_state = DesiredState.paused;
      next_eligible_at = none;
    }))
apply_outcome (other t) r i = err unknown_outcome

-- A graceful stop of the item or of the queue turns the next wait into a pause.
unfoldable pub graceful_stop : Bool → Outcome → Item → Outcome × Item
graceful_stop queue_stopping outcome i =
    if (is_stopping i.desired_state || queue_stopping) && keeps_going outcome && is_backoff i.status
    then (
      paused,
      record i {
        status = Status.paused;
        desired_state = DesiredState.paused;
        next_eligible_at = none;
      },
    )
    else (outcome, i)

-- TOPIC_REFRESH_DAYS.get(schedule), in seconds after `now`
unfoldable pub refresh_due : String → ℕ → Option ℕ
refresh_due schedule now =
    if schedule == "weekly"
    then some (now + 7 * 86400)
    else if schedule == "monthly"
    then some (now + 30 * 86400)
    else none

-- `reassign_worker`'s release, the end of ownership, and the date of the next refresh.
unfoldable pub settle : ℕ → Outcome → Item → Item
unfolding refresh_due
settle now outcome i =
    let released =
      if is_releasing i.desired_state && keeps_going outcome
      then record i { claimed_by = null; desired_state = DesiredState.running }
      else i in
    record released {
      last_pid = none;
      last_pid_fingerprint = none;
      claimed_by = if keeps_going outcome then released.claimed_by else null;
      refresh_due_at =
          if is_completed released.status
          then refresh_due released.topic_refresh now
          else released.refresh_due_at;
      finished_at = some now;
      updated_at = now;
    }

-- The outcome that is committed and the item as it is left.
unfoldable pub finalized : Bool → Bool → Report → ℕ → Item → Result (Outcome × Item)
unfolding actual_outcome apply_outcome graceful_stop settle
finalized queue_paused queue_stopping r now i = do
  let outcome = actual_outcome queue_paused i r
  applied ← apply_outcome outcome r i
  let (final, stopped) = graceful_stop queue_stopping outcome applied
  ok (final, settle now final stopped)

unfoldable pub finalize_run : String → Report → ℕ → Op (Outcome × Item)
finalize_run k r now =
    locked
      (λ w. do
        item ← find_item w.state k
        (final, left) ← finalized w.state.paused w.state.stopping r now item
        ok (
          (final, left),
          record w { state = record w.state { items = modify k (λ _. left) w.state.items } },
        ))
      now
