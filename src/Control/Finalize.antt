-- ===== src/Control/Finalize.antt =====
-- research_loops/control_store.py: `ControlScheduler.finalize` and `confirm_launch`.
pub mod Ended
use autonomous_research_loop.Prelude.{
  ℕ, String, Bool, true, false, not, Option, none, some, List, [], ◌∷◌, map, if◌then◌else◌, ◌==◌,
}
use autonomous_research_loop.Prelude.Int.{below}
use autonomous_research_loop.Queue.Types.{Item, DesiredState, ClaimedBy}
use autonomous_research_loop.Queue.Types.Status.{queued, paused}
use autonomous_research_loop.Queue.Store.{modify}
use autonomous_research_loop.Control.Types.{
  Cell, null, set, content, Kind, checkpoint, Lease, Assignment, Topic, Run, Capability, Logical,
}
use autonomous_research_loop.Control.Store.{
  raised, returned, ◌>>=◌, ◌>>◌, require, transaction, ensure_topic, stale_lease, capacity_disabled,
  lease_superseded,
}
use autonomous_research_loop.Control.Configuration.{validate_state}
use autonomous_research_loop.Control.Compact.{compact}
use autonomous_research_loop.Control.Schedule.{key, assignment_of, reconcile_state}
use autonomous_research_loop.Control.Station.{Reference, station_id, Operation, with_assignments}

-- The item whose lease ends: a checkpoint's goes back to the queue, or stays paused.
unfoldable pub release_item : Kind → ℕ → Item → Item
release_item kind now i =
    let freed = λ (j : Item). record j {
      claimed_by = ClaimedBy.null;
      last_pid = none;
      last_pid_fingerprint = none;
      updated_at = now;
    } in
    elim kind [
      | Kind.research ↦ freed i
      | checkpoint ↦ elim i.desired_state [
        | DesiredState.paused ↦
            freed (record i { status = paused; desired_state = DesiredState.paused })
        | DesiredState.stopping ↦
            freed (record i { status = paused; desired_state = DesiredState.paused })
        | _ ↦ freed (record i { status = queued })
      ]
    ]

-- setdefault("accepted", False), on a record in which null is a value
abbrev pub accepted_or_false : Cell Bool → Cell Bool
accepted_or_false Cell.absent = set false
accepted_or_false c = c

unfoldable pub finish_run : ℕ → Run → Run
finish_run now r =
    if r.state == "started"
    then record r {
      state = "finished";
      ended_at = some now;
      accepted = accepted_or_false r.accepted;
      finalized_without_accounting =
          some (elim r.accounting_result [ none ↦ true | some _ ↦ false ]);
    }
    else r

unfoldable pub update_entry {ℓ} :
    {V : Type ℓ} → String → (V → V) → List (String × V) → List (String × V)
update_entry k f [] = []
update_entry k f ((j, v) ∷ table) =
    if j == k then (j, f v) ∷ table else (j, v) ∷ update_entry k f table

abbrev pub revoke : String → String × Capability → String × Capability
revoke lease (digest, c) = (digest, if c.lease_id == lease then record c { revoked = true } else c)

abbrev pub or_keep : Option ℕ → Option ℕ → Option ℕ
or_keep none old = old
or_keep (some at) old = some at

abbrev pub end_topic : Option ℕ → Topic → Topic
end_topic retry t = record t {
  retry_not_before = or_keep retry t.retry_not_before;
  pacing_ready_at = none;
}

abbrev pub vacate : Option ℕ → Assignment → Assignment
vacate pacing r = record r {
  current = null;
  handoff_reason = null;
  draining = some false;
  rest_until = or_keep pacing r.rest_until;
}

-- What finalizing the station's lease does before the compaction.
unfoldable pub end_lease : ℕ → Lease → Option ℕ → Option ℕ → ℕ → Logical → Logical
unfolding key ensure_topic update_entry modify release_item finish_run
end_lease n lease pacing retry now s = record s {
  queue = record s.queue {
    items = modify lease.topic_id (release_item lease.execution_kind now) s.queue.items;
  };
  work = record s.work {
    topics =
        update_entry lease.topic_id (end_topic retry) (ensure_topic lease.topic_id s.work.topics);
    assignments = update_entry (key n) (vacate pacing) s.work.assignments;
    runs = update_entry lease.lease_id (finish_run now) s.work.runs;
    capabilities = map (revoke lease.lease_id) s.work.capabilities;
  };
}

abbrev pub current_is : String → Assignment → Option Lease
current_is lease_id r = elim (content r.current) [
  | none ↦ none
  | some l ↦ if l.lease_id == lease_id then some l else none
]

unfoldable pub finalize_body : ℕ → String → Option ℕ → Option ℕ → ℕ → Operation Assignment
unfolding assignment_of key end_lease compact reconcile_state
finalize_body n lease_id pacing retry now s =
    elim (current_is lease_id (assignment_of (key n) s.work.assignments)) [
      | none ↦ raised stale_lease
      | some lease ↦
          let after = reconcile_state now (compact (end_lease n lease pacing retry now s)) in
          returned (assignment_of (key n) after.work.assignments, after)
    ]

unfoldable pub finalize : Reference → String → Option ℕ → Option ℕ → ℕ → Operation Assignment
unfolding station_id transaction validate_state finalize_body
finalize station lease_id pacing retry now s = do
  n ← station_id station
  transaction validate_state (finalize_body n lease_id pacing retry now) s

unfoldable pub confirm_body : ℕ → String → ℕ → Operation Lease
unfolding assignment_of key update_entry
confirm_body n lease_id now s = do
  require (not (below s.configuration.active_count n)) capacity_disabled
  elim (current_is lease_id (assignment_of (key n) s.work.assignments)) [
    | none ↦ raised lease_superseded
    | some lease ↦
        let confirmed = record lease { launch_confirmed_at = some now } in
        returned (
          confirmed,
          with_assignments
              (update_entry (key n) (λ (r : Assignment). record r { current = set confirmed })
                s.work.assignments)
              s,
        )
  ]

unfoldable pub confirm_launch : Reference → String → ℕ → Operation Lease
unfolding station_id transaction validate_state confirm_body
confirm_launch station lease_id now s = do
  n ← station_id station
  transaction validate_state (confirm_body n lease_id now) s
