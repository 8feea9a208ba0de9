-- ===== src/Queue/Types.antt =====
-- research_loops/queue.py: the queue state and its items, as `add` and `_empty_state` build them.
-- A time is a number of seconds. A key that an item may lack is filled with the default that every
-- reader gives it (`item.get(key, default)`); `claimed_by`, whose readers differ, keeps the case.
use native.Mathlib.Decide.{ℕ_discrete}
use mathlib.Core.Bool.{Bool-discrete}
use autonomous_research_loop.Prelude.{ℕ, String, Bool, Option, List}
use autonomous_research_loop.Prelude.Int.{ℤ, ℤ-discrete}
use autonomous_research_loop.Prelude.Texts.{String-discrete}

pub data Status : Type 0 where
  queued running backoff paused needs_attention completed : Status

pub data DesiredState : Type 0 where
  running paused stopping releasing : DesiredState

-- The key `claimed_by`: not set yet, null, or a worker's name.
pub data ClaimedBy : Type 0 where
  missing null : ClaimedBy
  by : String → ClaimedBy

-- The fields that an operator defines (`_DEFINITION_FIELDS`).
pub record Definition : Type 0 where
  pub title : String
  pub cwd : String
  pub command : List String
  pub provider : Option String
  pub usage_file : Option String
  pub max_attempts : ℤ
  pub stop_file : Option String
  pub completion_command : Option (List String)
  pub depends_on : List String
  pub progress_command : Option (List String)
  pub on_completed_command : Option (List String)
  pub stall_limit : Option ℤ
  pub gap_policy : String
  pub gap_auto_limit : ℤ
  pub completion_lock : Option String
  pub internal_citations : Bool
  pub topic_refresh : String
  pub topic_refresh_mode : String
  pub lane : String

-- A value of a research policy; `other` is a JSON value that is no boolean and no text.
pub data PolicyValue : Type 0 where
  flag : Bool → PolicyValue
  text : String → PolicyValue
  other : PolicyValue

pub record Blocker : Type 0 where
  pub key : String
  pub source : String
  pub request_type : Option String
  pub subject : Option String
  pub coverage : String
  pub at : ℕ

-- An entry of `research_blockers`: a source's name in older states, a record since.
pub data BlockerEntry : Type 0 where
  legacy : String → BlockerEntry
  keyed : Blocker → BlockerEntry

pub record Resolution : Type 0 where
  pub at : ℕ
  pub reason : String
  pub released : List String

-- The last coverage seen of a source.
pub record Coverage : Type 0 where
  pub coverage : String
  pub at : ℕ

pub record Item : Type 0 where
  pub id : String
  pub definition : Definition
  pub open definition use *
  pub research_policy : Option (List (String × PolicyValue))
  pub research_blockers : List BlockerEntry
  pub research_coverage : List (String × Coverage)
  pub research_resolutions : List Resolution
  pub completion_coverage : Option (List (String × String))
  pub refresh_due_at : Option ℕ
  pub refresh_count : ℕ
  pub progress_signature : Option String
  pub stall_count : ℕ
  pub saturation_streak : ℕ
  pub iterations_completed : ℕ
  pub deepening_seen : Bool
  pub last_checkpoint_iteration : Option ℕ
  pub deepening_checkpoint_done : Bool
  pub status : Status
  pub desired_state : DesiredState
  pub attempts : ℕ
  pub consecutive_failures : ℕ
  pub subscription_limit_failures : ℕ
  pub next_eligible_at : Option ℕ
  pub last_exit_code : Option ℤ
  pub last_error : Option String
  pub last_error_kind : Option String
  pub restart_generation : ℕ
  pub created_at : ℕ
  pub updated_at : ℕ
  pub started_at : Option ℕ
  pub finished_at : Option ℕ
  pub last_pid : Option ℕ
  pub last_pid_fingerprint : Option String
  pub claimed_by : ClaimedBy
  pub reserved_for : Option String
  pub accepted_by_workers : List String

-- How many new topics a worker may take on, and how many it took.
pub record WorkerPolicy : Type 0 where
  pub claim_limit : Option ℤ
  pub claims_used : ℤ

pub record State : Type 0 where
  pub revision : ℕ
  pub paused : Bool
  pub pause_reason : Option String
  pub stopping : Bool
  pub updated_at : ℕ
  pub worker_policies : List (String × WorkerPolicy)
  pub lane_limits : List (String × ℕ)
  pub items : List Item

-- What an operation works on: the state file, and the STOP files that exist, by path.
pub record World : Type 0 where
  pub state : State
  pub disk : List String

pub State-discrete : Discrete State
State-discrete = hlevel (ℕ_discrete, String-discrete, ℤ-discrete, Bool-discrete)

pub Definition-discrete : Discrete Definition
Definition-discrete = hlevel (ℕ_discrete, String-discrete, ℤ-discrete, Bool-discrete)
