-- ===== src/Checkpoint/Decision/Selection.antt =====
-- research_loops/checkpoints/service.py: the checks of the decisions of a payload.
use autonomous_research_loop.Prelude.{
  ℕ, String, Bool, true, false, not, ◌&&◌, Option, none, some, List, [], ◌∷◌, map, nat_beq,
  if◌then◌else◌, ◌==◌,
}
use autonomous_research_loop.Prelude.Int.{ℤ, pos, negsuc}
use autonomous_research_loop.Prelude.Lists.{length, mem, lookup}
use autonomous_research_loop.Control.Types.{
  EpisodeState, DecisionAction, approve, approve_with_edits, reject, Held,
}
use autonomous_research_loop.Control.Store.{
  Outcome, raised, returned, ◌>>=◌, ◌>>◌, require, validation_error, revision_conflict,
  publication_pending,
}
use autonomous_research_loop.Checkpoint.Completion.{is_present, require_string}

-- One decision of a payload. `edits` is the text of the edits.
pub record Choice : Type 0 where
  pub proposal_id : String
  pub proposal_version : ℤ
  pub action : String
  pub reason : String
  pub edits : Option String

pub record Payload : Type 0 where
  pub schema_version : ℤ
  pub request_id : String
  pub expected_revision : ℤ
  pub topic_id : String
  pub episode_id : String
  pub decisions : List Choice

-- The controller's publisher of contracts: `prepare_bundle`, and `publish_prepared`, which gives the
-- completion lock of each publication.
pub record Publisher : Type 0 where
  pub is_recoverable : Bool
  pub prepare_bundle : List (Held × Option String) → Outcome String
  pub publish_prepared : String → Outcome (List (Option String))

abbrev pub is_number : ℤ → ℕ → Bool
is_number (pos k) n = nat_beq k n
is_number (negsuc k) n = false

abbrev pub int_beq : ℤ → ℤ → Bool
int_beq (pos k) (pos n) = nat_beq k n
int_beq (negsuc k) (negsuc n) = nat_beq k n
int_beq _ _ = false

abbrev pub action_named : String → Option DecisionAction
action_named t =
    if t == "approve"
    then some approve
    else if t == "approve_with_edits"
    then some approve_with_edits
    else if t == "reject"
    then some reject
    else none

abbrev pub is_reject : DecisionAction → Bool
is_reject reject = true
is_reject _ = false

abbrev pub has_edits : DecisionAction → Bool
has_edits approve_with_edits = true
has_edits _ = false

abbrev bool_beq : Bool → Bool → Bool
bool_beq true b = b
bool_beq false b = not b

-- A decision with the proposal that it is about.
pub record Selected : Type 0 where
  pub held : Held
  pub action : DecisionAction
  pub edits : Option String

abbrev pub is_pending : Held → Bool
is_pending p = not (is_present p.resolution)

unfoldable pub select_one : String → List String → List (String × Held) → Choice → Outcome Selected
unfolding lookup mem
select_one episode_id seen proposals c = do
  require_string c.proposal_id
  require (not (mem c.proposal_id seen)) validation_error
  elim (lookup c.proposal_id proposals) [
    | none ↦ raised revision_conflict
    | some p ↦ do
      require (p.episode_id == episode_id && is_pending p) revision_conflict
      require (int_beq c.proposal_version p.proposal.proposal_version) revision_conflict
      elim (action_named c.action) [
        | none ↦ raised validation_error
        | some action ↦ do
          require_string c.reason
          require (bool_beq (has_edits action) (is_present c.edits)) validation_error
          returned (record { held = p; action = action; edits = c.edits })
      ]
  ]

-- The loop over the decisions of the payload.
unfoldable pub select :
    String → List (String × Held) → List String → List Choice → Outcome (List Selected)
unfolding select_one
select episode_id proposals seen [] = returned []
select episode_id proposals seen (c ∷ cs) = do
  first ← select_one episode_id seen proposals c
  rest ← select episode_id proposals (c.proposal_id ∷ seen) cs
  returned (first ∷ rest)

abbrev pub is_approval : Selected → Bool
is_approval d = not (is_reject d.action)

abbrev pub bundle_entry : Selected → Held × Option String
bundle_entry d = (d.held, d.edits)

abbrev pub choice_of : Selected → String × DecisionAction
choice_of d = (d.held.proposal.proposal_id, d.action)

-- The prepared bundle of the approvals, if there are any.
unfoldable pub prepare : Option Publisher → List Selected → Outcome (Option String)
prepare none approved = require (nat_beq (length approved) 0) publication_pending >> returned none
prepare (some p) [] = returned none
prepare (some p) (d ∷ ds) = do
  require p.is_recoverable publication_pending
  prepared ← p.prepare_bundle (map bundle_entry (d ∷ ds))
  returned (some prepared)

abbrev pub is_awaiting : EpisodeState → Bool
is_awaiting EpisodeState.awaiting_operator = true
is_awaiting _ = false
