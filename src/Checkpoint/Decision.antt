-- ===== src/Checkpoint/Decision.antt =====
-- research_loops/checkpoints/service.py: `apply_decision` and what completes its publication.
mod Selection
unfoldable pub use Selection.*
use autonomous_research_loop.Prelude.{
  ℕ, ◌+◌, String, Bool, true, false, not, ◌&&◌, Option, none, some, List, [], ◌∷◌, map, leb,
  nat_beq, if◌then◌else◌, ◌==◌,
}
use autonomous_research_loop.Prelude.Int.{ℤ, pos, negsuc}
use autonomous_research_loop.Prelude.Lists.{length, keep, mem, lookup, insert}
use autonomous_research_loop.Queue.Types.{Item}
use autonomous_research_loop.Control.Types.{
  EpisodeState, publishing_decision, complete_with_decisions, Episode, DecisionAction, approve,
  approve_with_edits, reject, Held, DecisionResult, Decision, Intent, Logical,
}
use autonomous_research_loop.Control.Store.{
  Outcome, raised, returned, ◌>>=◌, ◌>>◌, require, transaction, missing_key, validation_error,
  duplicate_request_conflict, revision_conflict, awaiting_operator, publication_pending,
}
use autonomous_research_loop.Control.Configuration.{validate_state}
use autonomous_research_loop.Control.Station.{Operation}
use autonomous_research_loop.Checkpoint.Episodes.{known_topic}
use autonomous_research_loop.Checkpoint.Completion.{is_present, require_string, with_work}

-- The recorded answer of a request, or the conflict with another content.
abbrev pub replay : {A : Type 0} → String → Decision → (DecisionResult → A) → Outcome A
replay canonical d f =
    require (d.payload == canonical) duplicate_request_conflict >> returned (f d.result)

-- The intent of the decision is written; `none` is returned where the decision was there already.
unfoldable pub intend_body :
    String → Payload → String → Option Publisher → Operation (Option DecisionResult)
unfolding lookup insert select prepare known_topic
intend_body canonical p actor publisher s = elim (lookup p.request_id s.work.decisions) [
  | some d ↦ replay canonical d (λ result. (some result, s))
  | none ↦ do
    require (is_number p.expected_revision s.revision) revision_conflict
    elim (lookup p.episode_id s.work.episodes) [
      | none ↦ raised awaiting_operator
      | some e ↦ do
        require (e.topic_id == p.topic_id && is_awaiting e.state) awaiting_operator
        selected ← select p.episode_id s.work.proposals [] p.decisions
        prepared ← prepare publisher (keep is_approval selected)
        let t = known_topic p.topic_id none s.work.topics
        let intent : Intent = record {
          payload = canonical;
          topic_id = p.topic_id;
          episode_id = p.episode_id;
          selected = map choice_of selected;
          prepared = prepared;
          state = "pending";
          publications = [];
          actor = actor;
        }
        let after = record s.work {
          topics =
              insert p.topic_id (record t { review_state = "publishing_decision" }) s.work.topics;
          episodes = insert p.episode_id (record e { state = publishing_decision }) s.work.episodes;
          decision_publications = insert p.request_id intent s.work.decision_publications;
        }
        returned (none, with_work after s)
    ]
]

-- Each selected proposal is resolved; the code raises a KeyError for one that is not there.
unfoldable pub resolve_proposals :
    List (String × DecisionAction) → List (String × Held) → Outcome (List (String × Held))
unfolding lookup insert
resolve_proposals [] proposals = returned proposals
resolve_proposals ((id, action) ∷ selected) proposals = elim (lookup id proposals) [
  | none ↦ raised missing_key
  | some p ↦
      resolve_proposals selected (insert id (record p { resolution = some action }) proposals)
]

abbrev pub is_pending_of : String → String × Held → Bool
is_pending_of episode_id (id, p) = p.episode_id == episode_id && is_pending p

abbrev pub pending_id : String × Held → String
pending_id (id, p) = p.proposal.proposal_id

-- publications[-1]["completion_lock"]
abbrev pub last_lock : List String → Option String
last_lock [] = none
last_lock (lock ∷ []) = some lock
last_lock (lock ∷ locks) = last_lock locks

abbrev set_lock : String → String → Item → Item
set_lock topic_id lock i =
    if i.id == topic_id
    then record i { definition = record i.definition { completion_lock = some lock } }
    else i

-- _commit_decision, where the episode is there; and the intent as published.
unfoldable pub commit_decision : Intent → String → List String → Episode → Operation DecisionResult
unfolding known_topic resolve_proposals lookup insert
commit_decision intent request_id locks e s = do
  proposals ← resolve_proposals intent.selected s.work.proposals
  let pending = map pending_id (keep (is_pending_of intent.episode_id) proposals)
  let t = known_topic intent.topic_id (last_lock locks) s.work.topics
  let items : List Item = elim (last_lock locks) [
    | none ↦ s.queue.items
    | some lock ↦ map (set_lock intent.topic_id lock) s.queue.items
  ]
  let result : DecisionResult = record {
    topic_id = intent.topic_id;
    episode_id = intent.episode_id;
    remaining_proposal_ids = pending;
    next_research_ordinal = t.next_research_ordinal;
    revision = s.revision + 1;
  }
  let resolved : Bool = nat_beq (length pending) 0
  let decision : Decision = record {
    payload = intent.payload;
    result = result;
    actor = intent.actor;
  }
  returned (
    result,
    record s {
      queue = record s.queue { items = items };
      work = record s.work {
        topics =
            insert intent.topic_id
              (if resolved
                then record t { active_episode_id = none; review_state = "eligible" }
                else record t { review_state = "awaiting_operator" })
              s.work.topics;
        episodes =
            insert intent.episode_id
              (record e {
                state =
                    if resolved then complete_with_decisions else EpisodeState.awaiting_operator;
              })
              s.work.episodes;
        proposals = proposals;
        decisions = insert request_id decision s.work.decisions;
        decision_publications =
            insert request_id (record intent { state = "published"; publications = locks })
              s.work.decision_publications;
      };
    },
  )

unfoldable pub commit_body : String → List String → Operation DecisionResult
unfolding lookup commit_decision
commit_body request_id locks s = elim (lookup request_id s.work.decision_publications) [
  | none ↦ raised missing_key
  | some intent ↦ elim (lookup request_id s.work.decisions) [
    | some d ↦ returned (d.result, s)
    | none ↦ elim (lookup intent.episode_id s.work.episodes) [
      | none ↦ raised missing_key
      | some e ↦ commit_decision intent request_id locks e s
    ]
  ]
]

unfoldable pub locks_of : List (Option String) → Outcome (List String)
locks_of [] = returned []
locks_of (none ∷ ps) = raised publication_pending
locks_of (some lock ∷ ps) = do locks ← locks_of ps; returned (lock ∷ locks)

unfoldable pub publish : Option String → Option Publisher → Outcome (List String)
unfolding locks_of
publish none publisher = returned []
publish (some prepared) none = raised publication_pending
publish (some prepared) (some p) = do
  publications ← p.publish_prepared prepared
  locks_of publications

-- _complete_decision_publication_locked
unfoldable pub complete_publication : String → Option Publisher → Operation DecisionResult
unfolding lookup publish transaction validate_state commit_body
complete_publication request_id publisher s =
    elim (lookup request_id s.work.decision_publications) [
      | none ↦ raised validation_error
      | some intent ↦ elim (lookup request_id s.work.decisions) [
        | some d ↦ returned (d.result, s)
        | none ↦ do
          locks ← publish intent.prepared publisher
          transaction validate_state (commit_body request_id locks) s
      ]
    ]

-- The checks of the payload's fields.
unfoldable pub check_payload : Payload → Outcome (Unit {0})
check_payload p = do
  require (is_number p.schema_version 1) validation_error
  require_string p.request_id
  require_string p.topic_id
  require_string p.episode_id
  require (leb 1 (length p.decisions)) validation_error

-- What follows the intent's transaction.
abbrev after_intent :
    String → Option Publisher → Option DecisionResult × Logical → Outcome (DecisionResult × Logical)
unfolding complete_publication
after_intent request_id publisher (some result, s) = returned (result, s)
after_intent request_id publisher (none, s) = complete_publication request_id publisher s

unfoldable pub apply_decision :
    (Payload → String) → Payload → String → Option Publisher → Operation DecisionResult
unfolding check_payload lookup complete_publication transaction validate_state intend_body
apply_decision json p actor publisher s = do
  check_payload p
  elim (lookup p.request_id s.work.decisions) [
    | some d ↦ replay (json p) d (λ result. (result, s))
    | none ↦ elim (lookup p.request_id s.work.decision_publications) [
      | some intent ↦ do
        require (intent.payload == json p) duplicate_request_conflict
        complete_publication p.request_id publisher s
      | none ↦
          transaction validate_state (intend_body (json p) p actor publisher) s
          >>= after_intent p.request_id publisher
    ]
  ]
