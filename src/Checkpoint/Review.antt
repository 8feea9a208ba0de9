-- ===== src/Checkpoint/Review.antt =====
-- research_loops/checkpoints/service.py: `start_checkpoint` and `finish_checkpoint`.
mod Start
unfoldable pub use Start.*
use autonomous_research_loop.Prelude.{
  ℕ, ◌-◌, String, Bool, true, false, not, ◌&&◌, ◌||◌, Option, none, some, List, [], ◌∷◌, ◌++◌, map,
  leb, if◌then◌else◌, ◌==◌,
}
use autonomous_research_loop.Prelude.Lists.{length, first, any, all, mem, lookup, insert}
use autonomous_research_loop.Control.Proposals.{Proposal, CheckpointResult}
use autonomous_research_loop.Control.Types.{
  Topic, Trigger, Pair, EpisodeState, due, retry_wait, checkpoint_running, needs_attention,
  complete_without_proposals, complete_with_decisions, Role, preparation, counter, repair_response,
  repair_assessment, Invocation, Episode, Held, Logical,
}
use autonomous_research_loop.Control.Store.{
  Outcome, raised, returned, ◌>>=◌, ◌>>◌, require, transaction, missing_key, validation_error,
  duplicate_request_conflict, revision_conflict, awaiting_operator, budget_exhausted,
}
use autonomous_research_loop.Control.Configuration.{validate_state}
use autonomous_research_loop.Control.Profiles.{resolve_checkpoint_pair}
use autonomous_research_loop.Control.Station.{Operation}
use autonomous_research_loop.Checkpoint.Episodes.{known_topic}
use autonomous_research_loop.Checkpoint.Completion.{is_present, with_work}
use autonomous_research_loop.Checkpoint.Delegate.{
  role_beq, is_running, is_text, is_zero, with_episode,
}
use autonomous_research_loop.Checkpoint.Result.{proposal_id_of, validate_checkpoint_result}

-- What `finish_checkpoint` returns.
pub record Finished : Type 0 where
  pub episode_id : String
  pub state : EpisodeState
  pub replayed : Bool
  pub hold_reason : List String
  pub proposal_ids : List String
  pub next_research_ordinal : Option ℕ

abbrev pub same_set : List String → List String → Bool
unfolding mem
same_set xs ys = all (λ x. mem x ys) xs && all (λ y. mem y xs) ys

-- A successful call of the counter with its report and its answer.
abbrev pub is_counter_record : String × Invocation → Bool
is_counter_record (id, i) =
    role_beq i.role counter
    && is_zero i.exit_code
    && is_present i.output_reference
    && is_present i.delegate_result

-- The episode and its topic, in the ledger.
abbrev pub with_review : String → Episode → Topic → Logical → Logical
unfolding insert
with_review id e t s =
    with_work
      (record s.work {
        topics = insert e.topic_id t s.work.topics;
        episodes = insert id e s.work.episodes;
      })
      s

abbrev pub handle : List String → String × Trigger → String × Trigger
unfolding mem
handle ids (k, t) = (k, if mem k ids then record t { handled = true } else t)

abbrev pub held : Episode → Topic → Proposal → Held
held e t p = record {
  proposal = p;
  episode_id = e.episode_id;
  topic_id = t.topic_id;
  inventory_version = e.inventory_version;
  resolution = none;
}

unfoldable pub add_proposals :
    Episode → Topic → List Proposal → List (String × Held) → List (String × Held)
unfolding insert
add_proposals e t [] proposals = proposals
add_proposals e t (p ∷ ps) proposals =
    add_proposals e t ps (insert p.proposal_id (held e t p) proposals)

abbrev pub is_known : List (String × Held) → Proposal → Bool
unfolding lookup
is_known proposals p = is_present (lookup p.proposal_id proposals)

-- The review is over: its topic goes on, or waits for the operator.
unfoldable pub settle_review : CheckpointResult → Episode → Topic → Logical → Finished × Logical
unfolding add_proposals
settle_review r e t s =
    let reviewed = record e { result_reference = some r.run_id } in
    let handled = record s.work { triggers = map (handle e.trigger_ids) s.work.triggers } in
    let report : EpisodeState → Finished = λ state. record {
      episode_id = e.episode_id;
      state = state;
      replayed = false;
      hold_reason = [];
      proposal_ids = map proposal_id_of r.proposals;
      next_research_ordinal = some t.next_research_ordinal;
    } in
    elim r.proposals [
      | [] ↦ (
        report complete_without_proposals,
        with_review r.episode_id (record reviewed { state = complete_without_proposals })
            (record t { active_episode_id = none; review_state = "eligible" })
            (with_work handled s),
      )
      | p ∷ ps ↦
          let left = t.proposal_allowance_remaining - length r.proposals in
          (
            report EpisodeState.awaiting_operator,
            with_review r.episode_id
                (record reviewed {
                  state = EpisodeState.awaiting_operator;
                  remaining_budgets = record e.remaining_budgets { final_proposals = left };
                })
                (record t {
                  proposal_allowance_remaining = left;
                  review_state = "awaiting_operator";
                })
                (with_work
                  (record handled { proposals = add_proposals e t r.proposals s.work.proposals })
                  s),
          )
    ]

abbrev hold_report : Episode → EpisodeState → List String → Finished
hold_report e state reason = record {
  episode_id = e.episode_id;
  state = state;
  replayed = false;
  hold_reason = reason;
  proposal_ids = [];
  next_research_ordinal = none;
}

-- The review stops here, in a state and with a reason that are recorded.
unfoldable pub hold_review :
    CheckpointResult
    → EpisodeState
    → String
    → List String
    → Episode
    → Topic
    → Logical
    → Finished × Logical
hold_review r state review_state reason e t s = (
  hold_report e state reason,
  with_review r.episode_id (record e { state = state; failure_reason = reason })
      (record t { review_state = review_state }) s,
)

abbrev missing_counter : List String
missing_counter = "missing successful recorded counter invocation" ∷ []

abbrev pub is_reuse_of : CheckpointResult → Option String → Bool
is_reuse_of r reference = elim r.reuse_of [ none ↦ true | some id ↦ is_text id reference ]

unfoldable pub judge_complete : CheckpointResult → Episode → Topic → Operation Finished
unfolding hold_review settle_review lookup
judge_complete r e t s =
    if not (any is_counter_record e.invocations) && not (is_present r.reuse_of)
    then returned (hold_review r retry_wait "checkpoint_due" missing_counter e t s)
    else (do
      require (not (any (is_known s.work.proposals) r.proposals)) duplicate_request_conflict
      require (all (λ id. is_present (lookup id s.work.triggers)) e.trigger_ids) missing_key
      require (leb (length r.proposals) t.proposal_allowance_remaining) budget_exhausted
      returned (settle_review r e t s))

unfoldable pub judge : Context → CheckpointResult → Episode → Topic → Operation Finished
unfolding hold_review judge_complete
judge context r e t s =
    if not r.complete
    then returned (hold_review r needs_attention "needs_attention" r.limitations e t s)
    else (do
      require (is_reuse_of r e.prior_review_reference) revision_conflict
      require
          (not (is_present r.reuse_of) || is_text (context s e.topic_id) e.material_context_digest)
          revision_conflict
      judge_complete r e t s)

unfoldable pub finish_body : Context → CheckpointResult → Operation Finished
unfolding lookup insert known_topic judge
finish_body context r s = elim (lookup r.episode_id s.work.episodes) [
  | none ↦ raised validation_error
  | some e ↦
      if is_text r.run_id e.result_reference
      then returned (record (hold_report e e.state []) { replayed = true }, s)
      else (do
        require (is_running e.state && is_text r.run_id e.run_id) revision_conflict
        require (r.inventory_version == e.inventory_version && same_set r.trigger_ids e.trigger_ids)
            revision_conflict
        judge context r (record e { results = insert r.run_id r e.results })
            (known_topic e.topic_id none s.work.topics) s)
]

unfoldable pub finish_checkpoint : Context → CheckpointResult → Operation Finished
unfolding validate_checkpoint_result transaction validate_state finish_body
finish_checkpoint context r s = do
  validate_checkpoint_result r
  transaction validate_state (finish_body context r) s
