-- ===== src/Checkpoint/Result.antt =====
-- research_loops/checkpoints/runner.py: `validate_checkpoint_result`, on a result whose fields have
-- the types that they must have.
use autonomous_research_loop.Prelude.{
  String, Bool, true, not, ◌&&◌, ◌||◌, none, some, List, [], ◌∷◌, map, leb, ◌==◌,
}
use autonomous_research_loop.Prelude.Int.{below}
use autonomous_research_loop.Prelude.Lists.{length, any, all, distinct}
use autonomous_research_loop.Control.Proposals.{
  Anchor, EvidenceTarget, NearestReference, Content, addition, amendment, scope_request, Proposal,
  CheckpointResult,
}
use autonomous_research_loop.Control.Store.{Outcome, ◌>>◌, require, result_invalid}
use autonomous_research_loop.Control.Configuration.{blank}

abbrev is_empty : String → Bool
is_empty t = t == ""

abbrev no_blank : List String → Bool
no_blank ts = not (any blank ts)

abbrev is_anchor : Anchor → Bool
is_anchor a = no_blank (a.locator ∷ a.observation ∷ a.inference ∷ [])

abbrev is_target : EvidenceTarget → Bool
is_target t = no_blank (t.route ∷ t.support ∷ t.complication ∷ t.null_case ∷ t.unresolved ∷ [])

abbrev is_reference : NearestReference → Bool
is_reference r = no_blank (r.reference ∷ r.non_duplication ∷ [])

abbrev is_content : Content → Bool
is_content (addition a) = no_blank (a.text ∷ a.source_ref ∷ [])
is_content (amendment a) =
    no_blank
      (a.target_id ∷ a.current_text ∷ a.proposed_text ∷ a.framing_defect ∷ a.implications ∷ [])
is_content (scope_request r) = no_blank (r.requested_mission ∷ r.rationale ∷ [])

abbrev some_of {ℓ} : {A : Type ℓ} → List A → Bool
some_of xs = leb 1 (length xs)

abbrev pub is_proposal : Proposal → Bool
is_proposal p =
    not (is_empty p.proposal_id)
    && not (below p.proposal_version 1)
    && some_of p.anchors
    && all is_anchor p.anchors
    && is_target p.evidence_target
    && is_reference p.nearest_reference
    && no_blank (p.consequence ∷ p.counterargument ∷ [])
    && no_blank p.dependencies
    && is_content p.content

abbrev pub proposal_id_of : Proposal → String
proposal_id_of p = p.proposal_id

abbrev is_reuse_allowed : CheckpointResult → Bool
is_reuse_allowed r = elim r.reuse_of [
  | none ↦ true
  | some id ↦ not (is_empty id) && r.complete && not (some_of r.proposals)
]

unfoldable pub validate_checkpoint_result : CheckpointResult → Outcome (Unit {0})
unfolding distinct
validate_checkpoint_result r = do
  require (not (any is_empty (r.episode_id ∷ r.run_id ∷ r.inventory_version ∷ []))) result_invalid
  require (no_blank r.findings && no_blank r.limitations && no_blank r.protocol_evidence_refs)
      result_invalid
  require (r.complete || some_of r.limitations) result_invalid
  require (r.complete || not (some_of r.proposals)) result_invalid
  require (is_reuse_allowed r) result_invalid
  require (leb (length r.proposals) 2) result_invalid
  require (some_of r.trigger_ids && not (any is_empty r.trigger_ids) && distinct r.trigger_ids)
      result_invalid
  require (all is_proposal r.proposals && distinct (map proposal_id_of r.proposals)) result_invalid
