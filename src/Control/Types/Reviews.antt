-- ===== src/Control/Types/Reviews.antt =====
-- research_loops/checkpoints/service.py: the records that it keeps in the ledger for the reviews.
use autonomous_research_loop.Prelude.{ℕ, String, Bool, Option, List}
use autonomous_research_loop.Prelude.Int.{ℤ}
use autonomous_research_loop.Control.Proposals.{Proposal, CheckpointResult}

pub data TriggerKind : Type 0 where
  cadence deepening_entry stall : TriggerKind

pub record Trigger : Type 0 where
  pub trigger_id : String
  pub topic_id : String
  pub kind : TriggerKind
  pub research_ordinal : ℕ
  pub inventory_version : String
  pub episode_id : Option String
  pub handled : Bool

pub record Profile : Type 0 where
  pub adapter : String
  pub model : String
  pub executable : String
  pub argv : List String

-- A profile with its id, and the two profiles that a station or a review resolves to.
pub record Resolved : Type 0 where
  pub id : String
  pub profile : Profile

pub record Pair : Type 0 where
  pub primary : Resolved
  pub secondary : Resolved

pub data EpisodeState : Type 0 where
  due checkpoint_running retry_wait awaiting_operator publishing_decision needs_attention :
      EpisodeState
  complete_without_proposals complete_with_decisions : EpisodeState

pub data Role : Type 0 where
  preparation counter repair_response repair_assessment : Role

pub data RepairPhase : Type 0 where
  response_reserved response_finished response_failed : RepairPhase
  assessment_reserved assessment_finished assessment_failed : RepairPhase

-- An answer of a delegate that `execute_delegate` has found well formed; its status is "complete".
pub record DelegateResult : Type 0 where
  pub findings : List String
  pub limitations : List String

-- A call of a delegate; it is "reserved" until it has an exit code, and then "finished".
pub record Invocation : Type 0 where
  pub invocation_id : String
  pub role : Role
  pub profile : Resolved
  pub lease_id : String
  pub reserved_at : ℕ
  pub finished_at : Option ℕ
  pub exit_code : Option ℤ
  pub output_reference : Option String
  pub delegate_result : Option DelegateResult
  pub infra_refund : Bool

pub record Budgets : Type 0 where
  pub delegate_launches : ℕ
  pub final_proposals : ℕ
  pub repair_exchanges : ℕ
  pub infra_refunds_remaining : Option ℕ

pub record Attempt : Type 0 where
  pub run_id : String
  pub station_id : ℕ
  pub started_at : ℕ

pub record Episode : Type 0 where
  pub episode_id : String
  pub topic_id : String
  pub triggered_after_research_iteration : ℕ
  pub trigger_ids : List String
  pub inventory_version : String
  pub state : EpisodeState
  pub run_id : Option String
  pub station_id : Option ℕ
  pub resolved_agent_pair : Option Pair
  pub configuration_revision : Option ℕ
  pub attempt_history : List Attempt
  pub remaining_budgets : Budgets
  pub delegate_invocation_ids : List (Role × String)
  pub invocations : List (String × Invocation)
  pub repair_phase : Option RepairPhase
  pub material_context_digest : Option String
  pub prior_review_reference : Option String
  pub result_reference : Option String
  pub results : List (String × CheckpointResult)
  pub failure_reason : List String

pub data DecisionAction : Type 0 where
  approve approve_with_edits reject : DecisionAction

-- A proposal in the ledger: pending until a decision resolves it.
pub record Held : Type 0 where
  pub proposal : Proposal
  pub episode_id : String
  pub topic_id : String
  pub inventory_version : String
  pub resolution : Option DecisionAction

pub record DecisionResult : Type 0 where
  pub topic_id : String
  pub episode_id : String
  pub remaining_proposal_ids : List String
  pub next_research_ordinal : ℕ
  pub revision : ℕ

pub record Decision : Type 0 where
  pub payload : String
  pub result : DecisionResult
  pub actor : String

-- What an operator has decided and is to be published: the proposals with the actions, and the
-- completion locks that publishing them has given.
pub record Intent : Type 0 where
  pub payload : String
  pub topic_id : String
  pub episode_id : String
  pub selected : List (String × DecisionAction)
  pub prepared : Option String
  pub state : String
  pub publications : List String
  pub actor : String
