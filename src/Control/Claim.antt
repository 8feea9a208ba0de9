-- ===== src/Control/Claim.antt =====
-- research_loops/control_store.py: `ControlScheduler.claim`. `now` is what the clock gives, and `fresh`
-- the new id that `uuid.uuid4()` gives.
pub mod Cases
pub mod Justified
use autonomous_research_loop.Prelude.{
  ℕ, ◌+◌, String, Bool, true, false, not, ◌&&◌, Option, none, some, if◌then◌else◌, ◌==◌,
}
use autonomous_research_loop.Prelude.Int.{below}
use autonomous_research_loop.Prelude.Lists.{any, insert}
use autonomous_research_loop.Control.Types.{
  null, set, content, Desired, Lease, Assignment, Run, Logical,
}
use autonomous_research_loop.Control.Store.{returned, ◌>>=◌, transaction, ensure_topic, topic_of}
use autonomous_research_loop.Control.Configuration.{validate_state}
use autonomous_research_loop.Control.Schedule.{
  Assignments, key, assignment_of, is_future, reconcile_state,
}
use autonomous_research_loop.Control.Station.{
  Reference, station_id, Operation, with_assignments, ensure_assignment,
}

-- A lease that a call returns, and `_resumed`, which is never stored.
pub record Claimed : Type 0 where
  pub lease : Lease
  pub resumed : Bool

abbrev pub lease_topic : Assignment → Option String
lease_topic r = elim (content r.current) [ none ↦ none | some l ↦ some l.topic_id ]

abbrev pub holds_topic : String → Assignment → Bool
holds_topic t r = elim (content r.current) [ none ↦ false | some l ↦ l.topic_id == t ]

-- Whether another station's record holds a lease of the topic.
abbrev pub held_elsewhere : String → String → Assignments → Bool
held_elsewhere k t = any (λ e. not (e.0 == k) && holds_topic t e.1)

abbrev pub generation_of : Assignment → ℕ
generation_of r = elim r.lease_generation [ none ↦ 0 | some n ↦ n ]

abbrev pub mint : Desired → ℕ → String → ℕ → Logical → Assignment → Lease
mint d n fresh now s r = record {
  topic_id = d.topic_id;
  execution_kind = d.execution_kind;
  station_id = n;
  lease_id = fresh;
  lease_generation = generation_of r + 1;
  started_at = now;
  configuration_revision = s.revision;
  launch_confirmed_at = none;
}

abbrev pub started_run : Lease → Run
started_run l = record {
  run_id = l.lease_id;
  topic_id = l.topic_id;
  station_id = l.station_id;
  lease_generation = some l.lease_generation;
  execution_kind = some l.execution_kind;
  state = "started";
  started_at = some l.started_at;
  ended_at = none;
  accepted = null;
  ordinal = none;
  completion_accounted = false;
  accounting_result = none;
  finalized_without_accounting = none;
}

abbrev pub hold : Lease → Assignment → Assignment
hold l r = record r {
  lease_generation = some l.lease_generation;
  current = set l;
  draining = some false;
}

-- The lease and its run, stored.
unfoldable pub grant : ℕ → Lease → Logical → Logical
unfolding insert key assignment_of
grant n l s = record s {
  work = record s.work {
    assignments =
        insert (key n) (hold l (assignment_of (key n) s.work.assignments)) s.work.assignments;
    runs = insert l.lease_id (started_run l) s.work.runs;
  };
}

abbrev pub with_topic : String → Logical → Logical
with_topic t s = record s { work = record s.work { topics = ensure_topic t s.work.topics } }

-- The claim of a station that neither is off nor rests, after the reconciliation.
unfoldable pub claim_desired : ℕ → ℕ → String → Logical → Option Claimed × Logical
unfolding assignment_of key ensure_topic topic_of grant
claim_desired n now fresh s =
    let r = assignment_of (key n) s.work.assignments in
    elim (content r.current) [
      | some lease ↦ elim (content r.desired) [
        | none ↦ (none, s)
        | some d ↦
            if d.topic_id == lease.topic_id
            then (some (record { lease = lease; resumed = true }), s)
            else (none, s)
      ]
      | none ↦ elim (content r.desired) [
        | none ↦ (none, s)
        | some d ↦
            let known = with_topic d.topic_id s in
            if is_future (topic_of d.topic_id known.work.topics).retry_not_before now
            then (none, known)
            else if held_elsewhere (key n) d.topic_id s.work.assignments
            then (none, known)
            else (let lease = mint d n fresh now s r in
                (some (record { lease = lease; resumed = false }), grant n lease known))
      ]
    ]

unfoldable pub claim_body : ℕ → ℕ → String → Logical → Option Claimed × Logical
unfolding ensure_assignment assignment_of key reconcile_state claim_desired
claim_body n now fresh s =
    let seated = with_assignments (ensure_assignment (key n) s.work.assignments) s in
    if below s.configuration.active_count n
    then (none, s)
    else if is_future (assignment_of (key n) seated.work.assignments).rest_until now
    then (none, seated)
    else claim_desired n now fresh (reconcile_state now seated)

unfoldable pub claim : Reference → ℕ → String → Operation (Option Claimed)
unfolding station_id transaction validate_state claim_body
claim station now fresh s = do
  n ← station_id station
  transaction validate_state (λ v. returned (claim_body n now fresh v)) s
