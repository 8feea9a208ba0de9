-- ===== src/Checkpoint/Delegate/Launch.antt =====
-- research_loops/checkpoints/service.py: what the launch of a delegate requires and takes.
use autonomous_research_loop.Prelude.{
  ℕ, ◌-◌, String, Bool, true, false, not, ◌&&◌, Option, none, some, List, leb, ltb, nat_beq,
  if◌then◌else◌, ◌==◌,
}
use autonomous_research_loop.Prelude.Int.{ℤ, pos}
use autonomous_research_loop.Prelude.Lists.{any, lookup, insert}
use autonomous_research_loop.Control.Types.{
  Resolved, Pair, EpisodeState, checkpoint_running, Role, preparation, counter, repair_response,
  repair_assessment, RepairPhase, response_reserved, response_finished, assessment_reserved,
  Invocation, Episode, Work,
}
use autonomous_research_loop.Control.Store.{
  Outcome, raised, returned, ◌>>=◌, ◌>>◌, require, validation_error, revision_conflict,
  budget_exhausted,
}
use autonomous_research_loop.Checkpoint.Completion.{current_lease}

-- The role that a caller names.
abbrev pub role_named : String → Option Role
role_named t =
    if t == "preparation"
    then some preparation
    else if t == "counter"
    then some counter
    else if t == "repair_response"
    then some repair_response
    else if t == "repair_assessment"
    then some repair_assessment
    else none

abbrev pub role_beq : Role → Role → Bool
role_beq preparation preparation = true
role_beq counter counter = true
role_beq repair_response repair_response = true
role_beq repair_assessment repair_assessment = true
role_beq _ _ = false

-- The profile of the seat that plays a role.
abbrev pub seat_profile : Role → Pair → Resolved
seat_profile preparation p = p.secondary
seat_profile counter p = p.primary
seat_profile repair_response p = p.secondary
seat_profile repair_assessment p = p.primary

abbrev pub is_running : EpisodeState → Bool
is_running checkpoint_running = true
is_running _ = false

abbrev pub is_text : String → Option String → Bool
is_text t none = false
is_text t (some u) = u == t

-- Its status is "reserved".
abbrev pub is_reserved : Invocation → Bool
is_reserved i = elim i.exit_code [ none ↦ true | some _ ↦ false ]

abbrev pub is_zero : Option ℤ → Bool
is_zero (some (pos n)) = nat_beq n 0
is_zero _ = false

abbrev pub is_success : Role → String × Invocation → Bool
is_success role (id, i) = role_beq i.role role && is_zero i.exit_code

-- successful(role)
abbrev pub has_success : Role → List (String × Invocation) → Bool
has_success role invocations = any (is_success role) invocations

abbrev pub is_in_flight : String × Invocation → Bool
is_in_flight (id, i) = is_reserved i

abbrev pub is_response_finished : Option RepairPhase → Bool
is_response_finished (some response_finished) = true
is_response_finished _ = false

-- The capability and the lease, checked again in the transaction that spends the slot.
unfoldable pub check_capability : Option String → String → String → Work → Outcome (Unit {0})
unfolding lookup current_lease
check_capability none topic_id lease_id w = returned tt
check_capability (some digest) topic_id lease_id w = elim (lookup digest w.capabilities) [
  | none ↦ raised revision_conflict
  | some c ↦ do
    require (not c.revoked && c.lease_id == lease_id) revision_conflict
    elim (current_lease topic_id lease_id w) [
      | none ↦ raised revision_conflict
      | some l ↦ require (nat_beq l.lease_generation c.lease_generation) revision_conflict
    ]
]

-- What the role of a call requires of the episode, and what it takes from it.
unfoldable pub enter_role : Role → Episode → Outcome Episode
enter_role repair_response e = do
  require (not (has_success repair_assessment e.invocations)) revision_conflict
  require
      (has_success counter e.invocations
        && leb 2 e.remaining_budgets.delegate_launches
        && ltb 0 e.remaining_budgets.repair_exchanges)
      budget_exhausted
  returned (record e {
    remaining_budgets = record e.remaining_budgets {
      repair_exchanges = e.remaining_budgets.repair_exchanges - 1;
    };
    repair_phase = some response_reserved;
  })
enter_role repair_assessment e = do
  require (is_response_finished e.repair_phase && leb 1 e.remaining_budgets.delegate_launches)
      revision_conflict
  returned (record e { repair_phase = some assessment_reserved })
enter_role _ e = returned e

abbrev pub reservation : String → String → Role → Resolved → ℕ → Invocation
reservation invocation_id lease_id role profile now = record {
  invocation_id = invocation_id;
  role = role;
  profile = profile;
  lease_id = lease_id;
  reserved_at = now;
  finished_at = none;
  exit_code = none;
  output_reference = none;
  delegate_result = none;
  infra_refund = false;
}

-- A slot less, and the reserved call among the invocations.
unfoldable pub spend : String → Invocation → Episode → Episode
unfolding insert
spend invocation_id i e = record e {
  remaining_budgets = record e.remaining_budgets {
    delegate_launches = e.remaining_budgets.delegate_launches - 1;
  };
  invocations = insert invocation_id i e.invocations;
}

unfoldable pub launch : String → String → Role → ℕ → Episode → Outcome (Invocation × Episode)
unfolding enter_role spend
launch lease_id invocation_id role now e = do
  require (not (any is_in_flight e.invocations)) revision_conflict
  require (ltb 0 e.remaining_budgets.delegate_launches) budget_exhausted
  require (not (has_success role e.invocations)) revision_conflict
  entered ← enter_role role e
  elim e.resolved_agent_pair [
    | none ↦ raised validation_error
    | some pair ↦
        let i = reservation invocation_id lease_id role (seat_profile role pair) now in
        returned (i, spend invocation_id i entered)
  ]
