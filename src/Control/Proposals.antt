-- ===== src/Control/Proposals.antt =====
-- research_loops/checkpoints/runner.py: what a review proposes and reports.
use autonomous_research_loop.Prelude.{String, Bool, Option, List}
use autonomous_research_loop.Prelude.Int.{ℤ}

pub record Anchor : Type 0 where
  pub locator : String
  pub observation : String
  pub inference : String

-- `null_case` is the field "null".
pub record EvidenceTarget : Type 0 where
  pub route : String
  pub support : String
  pub complication : String
  pub null_case : String
  pub unresolved : String

pub record NearestReference : Type 0 where
  pub reference : String
  pub non_duplication : String

pub record Addition : Type 0 where
  pub text : String
  pub source_ref : String

pub record Amendment : Type 0 where
  pub target_id : String
  pub current_text : String
  pub proposed_text : String
  pub framing_defect : String
  pub implications : String

pub record ScopeRequest : Type 0 where
  pub requested_mission : String
  pub rationale : String

-- The kind of a proposal, with the content that it must have.
pub data Content : Type 0 where
  addition : Addition → Content
  amendment : Amendment → Content
  scope_request : ScopeRequest → Content

pub record Proposal : Type 0 where
  pub proposal_id : String
  pub proposal_version : ℤ
  pub anchors : List Anchor
  pub evidence_target : EvidenceTarget
  pub nearest_reference : NearestReference
  pub consequence : String
  pub counterargument : String
  pub dependencies : List String
  pub content : Content

pub record CheckpointResult : Type 0 where
  pub episode_id : String
  pub run_id : String
  pub inventory_version : String
  pub trigger_ids : List String
  pub complete : Bool
  pub findings : List String
  pub limitations : List String
  pub protocol_evidence_refs : List String
  pub reuse_of : Option String
  pub proposals : List Proposal
