-- ===== src/Control/Types.antt =====
-- research_loops/control_store.py: the logical state, its configuration, queue and work records.
-- A key that a record may lack is a `Cell` where the code tells an absent key from null when it
-- compares states, and is filled with the default that every reader gives it elsewhere.
mod Reviews
pub use Reviews.*
use native.Mathlib.Decide.{ℕ_discrete}
use mathlib.Core.Bool.{Bool-discrete}
use autonomous_research_loop.Prelude.{ℕ, String, Bool, Option, none, some, List}
use autonomous_research_loop.Prelude.Int.{ℤ, ℤ-discrete}
use autonomous_research_loop.Prelude.Texts.{String-discrete}
use autonomous_research_loop.Queue.Types.{State}

pub data Cell {ℓ} (A : Type ℓ) : Type ℓ where
  absent null : Cell A
  set : A → Cell A

abbrev pub content {ℓ} : {A : Type ℓ} → Cell A → Option A
content (set a) = some a
content _ = none

pub data Kind : Type 0 where
  research checkpoint : Kind

pub data AgentSource : Type 0 where
  station_1 executing_station explicit : AgentSource

pub record Station : Type 0 where
  pub id : ℤ
  pub primary_profile : String
  pub secondary_profile : String
  pub interval_seconds : ℤ

pub record Checkpoints : Type 0 where
  pub enabled : Bool
  pub every_research_iterations : ℤ
  pub on_deepening_entry : Bool
  pub agent_source : AgentSource
  pub primary_profile : Option String
  pub secondary_profile : Option String

pub record Configuration : Type 0 where
  pub schema_version : ℤ
  pub active_count : ℤ
  pub stations : List Station
  pub checkpoints : Checkpoints

pub record Desired : Type 0 where
  pub topic_id : String
  pub execution_kind : Kind

pub record Lease : Type 0 where
  pub topic_id : String
  pub execution_kind : Kind
  pub station_id : ℕ
  pub lease_id : String
  pub lease_generation : ℕ
  pub started_at : ℕ
  pub configuration_revision : ℕ
  pub launch_confirmed_at : Option ℕ

pub record Assignment : Type 0 where
  pub current : Cell Lease
  pub desired : Cell Desired
  pub draining : Option Bool
  pub handoff_reason : Cell String
  pub rest_until : Option ℕ
  pub lease_generation : Option ℕ

pub record DeepeningEntry : Type 0 where
  pub entered_after_ordinal : Option ℕ
  pub triggered : Bool

pub record Topic : Type 0 where
  pub topic_id : String
  pub research_iterations_completed : ℕ
  pub next_research_ordinal : ℕ
  pub inventory_version : Option String
  pub lifecycle_generation : ℕ
  pub review_state : String
  pub active_episode_id : Option String
  pub last_accepted_run_id : Option String
  pub deepening_entries : List (String × DeepeningEntry)
  pub proposal_allowance_remaining : ℕ
  pub row_revision : ℕ
  pub retry_not_before : Option ℕ
  pub pacing_ready_at : Option ℕ

-- What an accounted completion returned.
pub record Accounting : Type 0 where
  pub topic_id : String
  pub run_id : String
  pub accepted : Bool
  pub ordinal : Option ℕ
  pub research_iterations_completed : ℕ
  pub next_research_ordinal : ℕ
  pub episode_id : Option String
  pub review_state : Option String

pub record Run : Type 0 where
  pub run_id : String
  pub topic_id : String
  pub station_id : ℕ
  pub lease_generation : Option ℕ
  pub execution_kind : Option Kind
  pub state : String
  pub started_at : Option ℕ
  pub ended_at : Option ℕ
  pub accepted : Cell Bool
  pub ordinal : Option ℕ
  pub completion_accounted : Bool
  pub accounting_result : Option Accounting
  pub finalized_without_accounting : Option Bool

pub record Capability : Type 0 where
  pub lease_id : String
  pub lease_generation : ℕ
  pub revoked : Bool

pub record Work : Type 0 where
  pub topics : List (String × Topic)
  pub runs : List (String × Run)
  pub triggers : List (String × Trigger)
  pub episodes : List (String × Episode)
  pub proposals : List (String × Held)
  pub decisions : List (String × Decision)
  pub decision_publications : List (String × Intent)
  pub assignments : List (String × Assignment)
  pub capabilities : List (String × Capability)
  pub agent_profiles : List (String × Profile)
  pub state_operations : List (String × Option ℕ)
  pub pruned_runs : List (String × ℕ)
  -- the lease of the intake's assignment
  pub intake_current : Option Lease

pub record Logical : Type 0 where
  pub revision : ℕ
  pub configuration : Configuration
  pub queue : State
  pub work : Work

pub Logical-discrete : Discrete Logical
Logical-discrete = hlevel (ℕ_discrete, String-discrete, ℤ-discrete, Bool-discrete)
