-- ===== src/Checkpoint/Delegate.antt =====
-- research_loops/checkpoints/service.py: `reserve_delegate_launch` and `record_delegate_result`.
mod Launch
unfoldable pub use Launch.*
use autonomous_research_loop.Prelude.{
  ℕ, ◌+◌, ◌-◌, String, Bool, true, false, not, ◌&&◌, ◌||◌, Option, none, some, List, leb, ltb,
  nat_beq, if◌then◌else◌, ◌==◌,
}
use autonomous_research_loop.Prelude.Int.{ℤ, pos, negsuc}
use autonomous_research_loop.Prelude.Lists.{any, lookup, insert}
use autonomous_research_loop.Queue.Validate.{is_item_id}
use autonomous_research_loop.Control.Types.{
  Resolved, Pair, EpisodeState, checkpoint_running, Role, preparation, counter, repair_response,
  repair_assessment, RepairPhase, response_reserved, response_finished, response_failed,
  assessment_reserved, assessment_finished, assessment_failed, DelegateResult, Invocation, Budgets,
  Episode, Work, Logical,
}
use autonomous_research_loop.Control.Store.{
  Outcome, raised, returned, ◌>>=◌, ◌>>◌, require, transaction, validation_error,
  duplicate_request_conflict, revision_conflict, awaiting_operator, budget_exhausted,
}
use autonomous_research_loop.Control.Configuration.{validate_state}
use autonomous_research_loop.Control.Station.{Operation}
use autonomous_research_loop.Checkpoint.Completion.{current_lease, require_string, with_work}

abbrev pub with_episode : String → Episode → Logical → Logical
unfolding insert
with_episode id e s = with_work (record s.work { episodes = insert id e s.work.episodes }) s

-- The invocation, and whether this call reserved it.
unfoldable pub reserve_body :
    String → String → String → Role → Option String → ℕ → Operation (Invocation × Bool)
unfolding lookup check_capability launch
reserve_body episode_id lease_id invocation_id role capability now s =
    elim (lookup episode_id s.work.episodes) [
      | none ↦ raised awaiting_operator
      | some e ↦ do
        require (is_running e.state) awaiting_operator
        require (is_text lease_id e.run_id) revision_conflict
        check_capability capability e.topic_id lease_id s.work
        elim (lookup invocation_id e.invocations) [
          | some i ↦ do
            require (role_beq i.role role) duplicate_request_conflict
            returned ((i, false), s)
          | none ↦ do
            (i, e') ← launch lease_id invocation_id role now e
            returned ((i, true), with_episode episode_id e' s)
        ]
    ]

unfoldable pub reserve_delegate_launch :
    String → String → String → String → Option String → ℕ → Operation (Invocation × Bool)
unfolding transaction validate_state reserve_body
reserve_delegate_launch episode_id lease_id invocation_id role capability now s = do
  require_string episode_id
  require_string lease_id
  require_string invocation_id
  require (is_item_id invocation_id) validation_error
  elim (role_named role) [
    | none ↦ raised validation_error
    | some r ↦
        transaction validate_state (reserve_body episode_id lease_id invocation_id r capability now)
          s
  ]

-- _INFRA_EXIT_CODES
abbrev pub is_infra : ℤ → Bool
is_infra (pos n) = nat_beq n 70 || nat_beq n 124
is_infra (negsuc n) = false

abbrev pub is_exit_zero : ℤ → Bool
is_exit_zero (pos n) = nat_beq n 0
is_exit_zero (negsuc n) = false

-- The phase of the repair after a call of the role has ended.
abbrev pub phase_after : Role → ℤ → Option RepairPhase → Option RepairPhase
phase_after repair_response code phase =
    some (if is_exit_zero code then response_finished else response_failed)
phase_after repair_assessment code phase =
    some (if is_exit_zero code then assessment_finished else assessment_failed)
phase_after _ code phase = phase

abbrev pub refunds : Option ℕ → ℕ
refunds none = 0
refunds (some n) = n

-- The slot of a failure of the infrastructure is given back, with the exchange that it reserved.
abbrev pub refunded_budgets : Role → Budgets → Budgets
refunded_budgets role b = record b {
  infra_refunds_remaining = some (refunds b.infra_refunds_remaining - 1);
  delegate_launches = b.delegate_launches + 1;
  repair_exchanges = elim role [
    | repair_response ↦ b.repair_exchanges + 1
    | _ ↦ b.repair_exchanges
  ];
}

abbrev pub refunded_phase : Role → Option RepairPhase → Option RepairPhase
refunded_phase repair_response phase = none
refunded_phase repair_assessment phase = some response_finished
refunded_phase _ phase = phase

unfoldable pub finished : ℤ → Option String → Option DelegateResult → ℕ → Invocation → Invocation
finished code output result now i = record i {
  exit_code = some code;
  output_reference = output;
  finished_at = some now;
  delegate_result = elim result [ none ↦ i.delegate_result | some r ↦ some r ];
}

-- The call as it ends and the episode with it.
unfoldable pub settle :
    String
    → ℤ
    → Option String
    → Option DelegateResult
    → ℕ
    → Invocation
    → Episode
    → Invocation × Episode
unfolding insert finished
settle invocation_id code output result now i e =
    let i' = finished code output result now i in
    let phase = phase_after i.role code e.repair_phase in
    if is_infra code && ltb 0 (refunds e.remaining_budgets.infra_refunds_remaining)
    then (
      record i' { infra_refund = true },
      record e {
        remaining_budgets = refunded_budgets i.role e.remaining_budgets;
        repair_phase = refunded_phase i.role phase;
        invocations = insert invocation_id (record i' { infra_refund = true }) e.invocations;
      },
    )
    else (
      i',
      record e { repair_phase = phase; invocations = insert invocation_id i' e.invocations },
    )

unfoldable pub result_body :
    String → String → ℤ → Option String → Option DelegateResult → ℕ → Operation Invocation
unfolding lookup settle
result_body episode_id invocation_id code output result now s =
    elim (lookup episode_id s.work.episodes) [
      | none ↦ raised validation_error
      | some e ↦ elim (lookup invocation_id e.invocations) [
        | none ↦ raised validation_error
        | some i ↦
            if is_reserved i
            then (let after = settle invocation_id code output result now i e in
                returned (after.0, with_episode episode_id after.1 s))
            else returned (i, s)
      ]
    ]

unfoldable pub record_delegate_result :
    String → String → ℤ → Option String → Option DelegateResult → ℕ → Operation Invocation
unfolding transaction validate_state result_body
record_delegate_result episode_id invocation_id code output result now =
    transaction validate_state (result_body episode_id invocation_id code output result now)
