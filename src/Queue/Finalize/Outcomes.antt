-- ===== src/Queue/Finalize/Outcomes.antt =====
-- What `finalize_run` leaves of the item, for every outcome and every control of the operator.
use autonomous_research_loop.Prelude.{ℕ, ◌≡◌, ◌≢◌, Bool, true, false, none, arith, ◌⊎◌}
use autonomous_research_loop.Queue.Types.{Status, DesiredState, stopping, null, Item}
use autonomous_research_loop.Queue.Store.{ok}
use autonomous_research_loop.Queue.Finalize.{
  Outcome, global_paused, paused, restarted, completed, scheduled, backoff, needs_attention, other,
  keeps_going, Report, finalized, refresh_due,
}

-- The status that an outcome stands for.
abbrev pub status_of : Outcome → Status
status_of global_paused = Status.queued
status_of paused = Status.paused
status_of restarted = Status.queued
status_of completed = Status.completed
status_of scheduled = Status.backoff
status_of backoff = Status.backoff
status_of needs_attention = Status.needs_attention
status_of (other t) = Status.running

module _ (queue_paused queue_stopping : Bool) (r : Report) (now : ℕ) (i : Item) (o : Outcome)
    (left : Item) where
  -- The status that is left is that of the outcome that is reported; the item is held on only
  -- through a wait; its process is forgotten; and a completion dates the next refresh.
  pub finalized-status :
      finalized queue_paused queue_stopping r now i ≡ ok (o, left)
      → (left.status ≡ status_of o)
        × (keeps_going o ≡ false → left.claimed_by ≡ null)
        × (left.last_pid ≡ none)
        × (o ≡ completed → left.refresh_due_at ≡ refresh_due i.topic_refresh now)
  unfolding finalized
  finalized-status h = (ground arith, ground arith, ground arith, ground arith)

  -- After a graceful stop of the item or of the queue a run does not leave its item in back-off or
  -- in the hands of a worker. Where the operator has not intervened otherwise (the queue is not
  -- paused, the item is neither paused nor restarted, the run was asked for nothing) and the run
  -- reports a wait, whether for its next turn or after a failure, that is committed as a pause: the
  -- item is paused, is wanted paused, and has no time to go on. It is queued only if the queue is
  -- paused or the run counts as restarted, and then the item is still wanted as before.
  pub finalized-stopping :
      (i.desired_state ≡ stopping) ⊎ (queue_stopping ≡ true)
      → finalized queue_paused queue_stopping r now i ≡ ok (o, left)
      → (left.status ≢ Status.backoff)
        × (left.claimed_by ≡ null)
        × ((queue_paused ≡ false)
              × (i.desired_state ≢ DesiredState.paused)
              × (i.restart_generation ≡ r.expected_restart_generation)
              × (r.requested_control ≡ none)
              × (keeps_going r.outcome ≡ true)
            → (o ≡ paused)
              × (left.status ≡ Status.paused)
              × (left.desired_state ≡ DesiredState.paused)
              × (left.next_eligible_at ≡ none))
        × (left.status ≡ Status.queued
            → ((o ≡ global_paused) ⊎ (o ≡ restarted)) × (left.desired_state ≡ i.desired_state))
  unfolding finalized
  finalized-stopping h e =
      (ground arith, ground arith, λ free. ground (arith, free), λ q. ground (arith, q))
