-- ===== src/Checkpoint/Episodes.antt =====
-- research_loops/checkpoints/service.py: `_topic`, the triggers, and the episodes that they open.
use autonomous_research_loop.Prelude.{
  ℕ, String, Bool, true, false, Option, none, some, List, [], ◌∷◌, ◌++◌, min, if◌then◌else◌,
}
use autonomous_research_loop.Prelude.Lists.{mem, lookup, insert}
use autonomous_research_loop.Control.Types.{
  Topic, TriggerKind, Trigger, EpisodeState, due, checkpoint_running, retry_wait, awaiting_operator,
  publishing_decision, needs_attention, Episode,
}
use autonomous_research_loop.Control.Store.{default_topic_record}

-- The topic that `_topic` returns, which is then the one of the ledger.
abbrev or_default : String → Option String → Option Topic → Topic
or_default id version (some t) = t
or_default id none none = default_topic_record id (some "unknown")
or_default id (some version) none = default_topic_record id (some version)

abbrev at_version : Option String → Topic → Topic
at_version none t = t
at_version (some version) t = record t { inventory_version = some version }

unfoldable pub known_topic : String → Option String → List (String × Topic) → Topic
unfolding lookup
known_topic id version topics = at_version version (or_default id version (lookup id topics))

-- `setdefault` of a trigger that no episode has taken up
unfoldable pub add_trigger :
    String → TriggerKind → ℕ → String → String → List (String × Trigger) → List (String × Trigger)
unfolding lookup insert
add_trigger topic_id kind ordinal version trigger_id triggers = elim (lookup trigger_id triggers) [
  | some t ↦ triggers
  | none ↦
      insert trigger_id
        (record {
          trigger_id = trigger_id;
          topic_id = topic_id;
          kind = kind;
          research_ordinal = ordinal;
          inventory_version = version;
          episode_id = none;
          handled = false;
        })
        triggers
]

-- work["triggers"][trigger_id]["episode_id"] = episode_id
unfoldable pub assign_triggers :
    String → List String → List (String × Trigger) → List (String × Trigger)
unfolding mem
assign_triggers episode_id ids [] = []
assign_triggers episode_id ids ((k, t) ∷ triggers) =
    (k, if mem k ids then record t { episode_id = some episode_id } else t)
    ∷ assign_triggers episode_id ids triggers

abbrev pub is_open : EpisodeState → Bool
is_open due = true
is_open checkpoint_running = true
is_open retry_wait = true
is_open awaiting_operator = true
is_open publishing_decision = true
is_open needs_attention = true
is_open _ = false

unfoldable pub episode_for : String → Topic → List String → Episode
episode_for fresh t trigger_ids = record {
  episode_id = fresh;
  topic_id = t.topic_id;
  triggered_after_research_iteration = t.research_iterations_completed;
  trigger_ids = trigger_ids;
  inventory_version = elim t.inventory_version [ none ↦ "" | some version ↦ version ];
  state = due;
  run_id = none;
  station_id = none;
  resolved_agent_pair = none;
  configuration_revision = none;
  attempt_history = [];
  remaining_budgets = record {
    delegate_launches = 4;
    final_proposals = min 2 t.proposal_allowance_remaining;
    repair_exchanges = 1;
    infra_refunds_remaining = some 2;
  };
  delegate_invocation_ids = [];
  invocations = [];
  repair_phase = none;
  material_context_digest = none;
  prior_review_reference = none;
  result_reference = none;
  results = [];
  failure_reason = [];
}

-- The topic's active episode, if it is still open.
unfoldable pub open_episode : Topic → List (String × Episode) → Option Episode
unfolding lookup
open_episode t episodes = elim t.active_episode_id [
  | none ↦ none
  | some id ↦ elim (lookup id episodes) [
    | none ↦ none
    | some e ↦ if is_open e.state then some e else none
  ]
]

-- The trigger ids that are not yet among the episode's, after them.
unfoldable pub add_ids : List String → List String → List String
unfolding mem
add_ids ids [] = ids
add_ids ids (k ∷ ks) = add_ids (if mem k ids then ids else ids ++ (k ∷ [])) ks

-- An episode with the topic and the episodes that go with it.
pub record Coalesced : Type 0 where
  pub episode_id : String
  pub topic : Topic
  pub episodes : List (String × Episode)

unfoldable pub new_episode : String → Topic → List String → List (String × Episode) → Coalesced
unfolding insert episode_for
new_episode fresh t trigger_ids episodes = record {
  episode_id = fresh;
  topic = record t { active_episode_id = some fresh; review_state = "checkpoint_due" };
  episodes = insert fresh (episode_for fresh t trigger_ids) episodes;
}

unfoldable pub coalesce_episode : String → Topic → List String → List (String × Episode) → Coalesced
unfolding open_episode add_ids insert new_episode
coalesce_episode fresh t trigger_ids episodes = elim (open_episode t episodes) [
  | none ↦ new_episode fresh t trigger_ids episodes
  | some e ↦ record {
    episode_id = e.episode_id;
    topic = t;
    episodes =
        insert (elim t.active_episode_id [ none ↦ e.episode_id | some id ↦ id ])
          (record e { trigger_ids = add_ids e.trigger_ids trigger_ids }) episodes;
  }
]
