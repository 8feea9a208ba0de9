-- ===== src/Control/Store.antt =====
-- research_loops/control_store.py: the errors (with those of checkpoints/service.py), the transaction, `default_topic_record` and
-- `ensure_topic_work`.
use autonomous_research_loop.Prelude.{
  ◌≡◌, ◌+◌, String, Bool, true, false, Option, none, some, List, [],
}
use autonomous_research_loop.Prelude.Lists.{lookup, insert}
use autonomous_research_loop.Control.Types.{Topic, Logical, Logical-discrete}

pub data ControlError : Type 0 where
  -- Python's own KeyError and StopIteration
  missing_key no_station : ControlError
  schema_version_invalid active_count_invalid stations_not_five : ControlError
  station_ids_not_contiguous profile_blank interval_negative intervals_decreasing : ControlError
  cadence_invalid explicit_profiles_required explicit_profiles_forbidden : ControlError
  profile_id_invalid profile_field_blank unregistered_profile unknown_station : ControlError
  station_reference choose_selection interval_selection intervals_not_five : ControlError
  profile_argument_blank active_count_argument selection_invalid no_changes : ControlError
  queue_revision_conflict order_invalid stale_lease capacity_disabled lease_superseded :
      ControlError
  -- the codes of CheckpointError
  validation_error duplicate_request_conflict revision_conflict awaiting_operator : ControlError
  budget_exhausted publication_pending : ControlError
  -- CheckpointResultError
  result_invalid : ControlError

-- What an operation returns, or the error that it raises.
pub data Outcome {ℓ} (A : Type ℓ) : Type ℓ where
  raised : ControlError → Outcome A
  returned : A → Outcome A

infixl 5 ◌>>=◌
abbrev pub ◌>>=◌ {ℓ κ} : {A : Type ℓ} {B : Type κ} → Outcome A → (A → Outcome B) → Outcome B
raised e >>= next = raised e
returned a >>= next = next a

infixl 5 ◌>>◌
abbrev pub ◌>>◌ {ℓ} : {B : Type ℓ} → Outcome (Unit {0}) → Outcome B → Outcome B
check >> rest = check >>= λ _. rest

-- `if not test: raise error`
abbrev pub require : Bool → ControlError → Outcome (Unit {0})
require true e = returned tt
require false e = raised e

-- The end of a transaction: a state that differs is validated and written with the next revision.
abbrev pub commit :
    {A : Type 0} {before state : Logical}
    → Dec (state ≡ before)
    → Outcome (Unit {0})
    → A
    → Outcome (A × Logical)
commit {before = before} (yes same) valid result = returned (result, before)
commit {before = before} {state = state} (no differs) valid result =
    valid >> returned (result, record state { revision = before.revision + 1 })

-- BEGIN IMMEDIATE, the body, and the commit. An error leaves no new state.
unfoldable pub transaction :
    {A : Type 0}
    → (Logical → Outcome (Unit {0}))
    → (Logical → Outcome (A × Logical))
    → Logical
    → Outcome (A × Logical)
transaction validate_state body before = do
  (result, state) ← body before
  commit (Logical-discrete state before) (validate_state state) result

unfoldable pub default_topic_record : String → Option String → Topic
default_topic_record id version = record {
  topic_id = id;
  research_iterations_completed = 0;
  next_research_ordinal = 1;
  inventory_version = version;
  lifecycle_generation = 0;
  review_state = "eligible";
  active_episode_id = none;
  last_accepted_run_id = none;
  deepening_entries = [];
  proposal_allowance_remaining = 2;
  row_revision = 0;
  retry_not_before = none;
  pacing_ready_at = none;
}

-- The topics afterwards; the record returned is the one that they hold.
unfoldable pub ensure_topic : String → List (String × Topic) → List (String × Topic)
unfolding lookup insert default_topic_record
ensure_topic id topics = elim (lookup id topics) [
  | none ↦ insert id (default_topic_record id none) topics
  | some t ↦ topics
]

-- topics[id], which `ensure_topic` has put there.
unfoldable pub topic_of : String → List (String × Topic) → Topic
unfolding lookup default_topic_record
topic_of id topics = elim (lookup id topics) [ none ↦ default_topic_record id none | some t ↦ t ]
