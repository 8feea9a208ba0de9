-- ===== src/Checkpoint/Review/Start.antt =====
-- research_loops/checkpoints/service.py: `start_checkpoint`.
use autonomous_research_loop.Prelude.{
  ℕ, String, Bool, true, false, ◌&&◌, Option, none, some, List, [], ◌∷◌, ◌++◌, map, if◌then◌else◌,
  ◌==◌,
}
use autonomous_research_loop.Prelude.Lists.{length, first, lookup}
use autonomous_research_loop.Control.Types.{
  Pair, EpisodeState, due, retry_wait, checkpoint_running, complete_without_proposals,
  complete_with_decisions, Role, preparation, counter, repair_response, repair_assessment,
  Invocation, Episode, Logical,
}
use autonomous_research_loop.Control.Store.{
  Outcome, raised, returned, ◌>>=◌, ◌>>◌, require, transaction, validation_error, awaiting_operator,
}
use autonomous_research_loop.Control.Configuration.{validate_state}
use autonomous_research_loop.Control.Profiles.{resolve_checkpoint_pair}
use autonomous_research_loop.Control.Station.{Operation}
use autonomous_research_loop.Checkpoint.Delegate.{
  role_beq, is_running, is_text, is_zero, with_episode,
}

-- `_material_context_digest`, a SHA-256 of the topic's files and records.
abbrev pub Context : Type 0
Context = Logical → String → String

-- f"{episode_id}-{role}-{n}"
abbrev pub Naming : Type 0
Naming = String → Role → ℕ → String

abbrev pub is_startable : EpisodeState → Bool
is_startable due = true
is_startable retry_wait = true
is_startable _ = false

abbrev is_complete : EpisodeState → Bool
is_complete complete_without_proposals = true
is_complete complete_with_decisions = true
is_complete _ = false

abbrev is_prior : String → String → String × Episode → Bool
is_prior topic_id digest (id, e) =
    e.topic_id == topic_id && is_complete e.state && is_text digest e.material_context_digest

-- The id of a completed review of the same material.
abbrev pub prior_review : String → String → List (String × Episode) → Option String
prior_review topic_id digest episodes = elim (first (is_prior topic_id digest) episodes) [
  | none ↦ none
  | some (id, e) ↦ some e.episode_id
]

abbrev roles : List Role
roles = preparation ∷ counter ∷ repair_response ∷ repair_assessment ∷ []

abbrev role_entry : Naming → String → ℕ → Role → Role × String
role_entry name episode_id n role = (role, name episode_id role n)

abbrev set_role : Role → String → Role × String → Role × String
set_role role id (r, named) = (r, if role_beq r role then id else named)

-- The calls that have succeeded are shown in place of new ones.
unfoldable pub replayable : List (String × Invocation) → List (Role × String) → List (Role × String)
replayable [] ids = ids
replayable ((k, i) ∷ invocations) ids =
    replayable invocations (if is_zero i.exit_code then map (set_role i.role k) ids else ids)

-- setdefault("infra_refunds_remaining", 2)
abbrev pub or_two : Option ℕ → Option ℕ
or_two none = some 2
or_two (some n) = some n

unfoldable pub started :
    Naming → Pair → String → ℕ → String → ℕ → ℕ → Option String → Episode → Episode
unfolding replayable
started name pair digest station_id run_id revision now prior e =
    let attempts =
      e.attempt_history
      ++ (record { run_id = run_id; station_id = station_id; started_at = now } ∷ []) in
    record e {
      remaining_budgets = record e.remaining_budgets {
        infra_refunds_remaining = or_two e.remaining_budgets.infra_refunds_remaining;
      };
      resolved_agent_pair = some pair;
      configuration_revision = some revision;
      material_context_digest = some digest;
      prior_review_reference = prior;
      state = checkpoint_running;
      run_id = some run_id;
      station_id = some station_id;
      attempt_history = attempts;
      delegate_invocation_ids =
          replayable e.invocations (map (role_entry name e.episode_id (length attempts)) roles);
    }

unfoldable pub pair_for : Episode → ℕ → Logical → Outcome Pair
unfolding resolve_checkpoint_pair
pair_for e station_id s = elim e.resolved_agent_pair [
  | some pair ↦ returned pair
  | none ↦ resolve_checkpoint_pair (some station_id) s
]

unfoldable pub start_body : Context → Naming → String → ℕ → String → ℕ → Operation Episode
unfolding lookup started pair_for
start_body context name episode_id station_id run_id now s =
    elim (lookup episode_id s.work.episodes) [
      | none ↦ raised validation_error
      | some e ↦ if is_running e.state && is_text run_id e.run_id then returned (e, s) else (do
        require (is_startable e.state) awaiting_operator
        pair ← pair_for e station_id s
        let digest = context s e.topic_id
        let after =
            started name pair digest station_id run_id s.revision now
              (prior_review e.topic_id digest s.work.episodes) e
        returned (after, with_episode episode_id after s))
    ]

unfoldable pub start_checkpoint : Context → Naming → String → ℕ → String → ℕ → Operation Episode
unfolding transaction validate_state start_body
start_checkpoint context name episode_id station_id run_id now =
    transaction validate_state (start_body context name episode_id station_id run_id now)
