-- ===== src/Queue/Definition.antt =====
-- research_loops/queue.py: `_definition_from`, the checks of a definition that comes as JSON.
-- A number is an integer; a float or an object is `other`. The texts of values that are no texts
-- (`str`) and the resolved directory are parameters.
use autonomous_research_loop.Prelude.{
  zero, String, Bool, true, false, not, ◌&&◌, Option, none, some, List, [], ◌∷◌, ◌==◌,
  if◌then◌else◌,
}
use autonomous_research_loop.Prelude.Int.{ℤ, pos, below}
use autonomous_research_loop.Prelude.Lists.{mem, distinct}
use autonomous_research_loop.Prelude.Texts.{strip}
use autonomous_research_loop.Queue.Types.{Definition}
use autonomous_research_loop.Queue.Store.{
  Result, ok, err, ◌>>=◌, ◌>>◌, guard, invalid_command, invalid_max_attempts, mechanics_field,
  invalid_lane, malformed_depends_on, depends_on_itself, duplicate_dependencies,
  invalid_stall_limit, invalid_gap_policy, invalid_gap_auto_limit, wrong_type,
  invalid_internal_citations, invalid_topic_refresh, invalid_topic_refresh_mode, missing_key, Error,
}
use autonomous_research_loop.Queue.Validate.{
  validate_item_ids, validate_gap_policy, validate_gap_auto_limit, validate_topic_refresh,
  validate_topic_refresh_mode, validate_lane, validate_completion_lock,
}

-- In an array `none` is an element that is no text.
pub data Json : Type 0 where
  null other : Json
  flag : Bool → Json
  number : ℤ → Json
  text : String → Json
  array : List (Option String) → Json

-- A manifest's entry; `none` is a key that is missing.
pub record Entry : Type 0 where
  pub id : Option Json
  pub title : Option Json
  pub cwd : Option Json
  pub command : Option Json
  pub max_attempts : Option Json
  pub repeat_seconds : Option Json
  pub agent_main : Option Json
  pub agent_secondary : Option Json
  pub lane : Option Json
  pub on_completed_command : Option Json
  pub progress_command : Option Json
  pub completion_command : Option Json
  pub depends_on : Option Json
  pub stall_limit : Option Json
  pub gap_policy : Option Json
  pub gap_auto_limit : Option Json
  pub completion_lock : Option Json
  pub internal_citations : Option Json
  pub topic_refresh : Option Json
  pub topic_refresh_mode : Option Json
  pub provider : Option String
  pub usage_file : Option String
  pub stop_file : Option String

-- str(value)
abbrev pub str : (Json → String) → Json → String
str shown (text t) = t
str shown j = shown j

-- entry.get(key, default)
abbrev pub get_or : Option Json → Json → Json
get_or none default = default
get_or (some j) default = j

abbrev is_blank : String → Bool
is_blank t = strip t == ""

-- The texts of an array, if each is one and none is blank.
unfoldable pub parts_of : List (Option String) → Option (List String)
parts_of [] = some []
parts_of (none ∷ ps) = none
parts_of (some p ∷ ps) = elim (parts_of ps) [
  | none ↦ none
  | some rest ↦ if is_blank p then none else some (p ∷ rest)
]

unfoldable pub command_from : Json → Result (List String)
unfolding parts_of
command_from (array (p ∷ ps)) = elim (parts_of (p ∷ ps)) [
  | none ↦ err invalid_command
  | some parts ↦ ok parts
]
command_from _ = err invalid_command

-- A command that an entry may leave out.
unfoldable pub optional_command : Option Json → Result (Option (List String))
unfolding command_from
optional_command none = ok none
optional_command (some null) = ok none
optional_command (some j) = do parts ← command_from j; ok (some parts)

-- An integer of at least one.
abbrev pub positive_from : Json → Error → Result ℤ
positive_from (number z) e = if below z 1 then err e else ok z
positive_from _ e = err e

-- value in (None, 0, "")
abbrev pub is_unset : Option Json → Bool
is_unset none = true
is_unset (some null) = true
is_unset (some (flag b)) = not b
is_unset (some (number (pos zero))) = true
is_unset (some (text t)) = t == ""
is_unset (some _) = false

-- entry.get("lane") or "research"
abbrev pub lane_or_default : Option Json → Json
lane_or_default none = text "research"
lane_or_default (some null) = text "research"
lane_or_default (some (flag b)) = if b then flag b else text "research"
lane_or_default (some (number (pos zero))) = text "research"
lane_or_default (some (text t)) = if t == "" then text "research" else text t
lane_or_default (some (array [])) = text "research"
lane_or_default (some j) = j

abbrev pub lane_from : Json → Result String
lane_from (text t) = validate_lane t
lane_from _ = err invalid_lane

unfoldable pub texts_of : List (Option String) → Option (List String)
texts_of [] = some []
texts_of (none ∷ ps) = none
texts_of (some p ∷ ps) = elim (texts_of ps) [ none ↦ none | some rest ↦ some (p ∷ rest) ]

unfoldable pub dependencies_list : Option Json → Result (List String)
unfolding texts_of
dependencies_list none = ok []
dependencies_list (some (array ps)) = elim (texts_of ps) [
  | none ↦ err malformed_depends_on
  | some ds ↦ ok ds
]
dependencies_list (some _) = err malformed_depends_on

-- entry["id"] in dependencies
abbrev pub is_among : Option Json → List String → Bool
is_among (some (text k)) ds = mem k ds
is_among _ ds = false

unfoldable pub stall_limit_from : Option Json → Result (Option ℤ)
stall_limit_from none = ok none
stall_limit_from (some null) = ok none
stall_limit_from (some j) = do z ← positive_from j invalid_stall_limit; ok (some z)

abbrev pub choice_from : (String → Result String) → Error → Json → Result String
choice_from check e (text t) = check t
choice_from check e _ = err e

abbrev pub gap_auto_limit_from : Json → Result ℤ
gap_auto_limit_from (number z) = validate_gap_auto_limit z
gap_auto_limit_from _ = err invalid_gap_auto_limit

-- A lock that is neither null nor a text makes the pattern raise.
unfoldable pub completion_lock_from : Option Json → Result (Option String)
completion_lock_from none = ok none
completion_lock_from (some null) = ok none
completion_lock_from (some (text t)) = validate_completion_lock (some t)
completion_lock_from (some _) = err wrong_type

abbrev pub internal_citations_from : Json → Result Bool
internal_citations_from (flag b) = ok b
internal_citations_from _ = err invalid_internal_citations

abbrev pub required : String → Option Json → Result Json
required key none = err (missing_key key)
required key (some j) = ok j

unfoldable pub definition_from : (String → String) → (Json → String) → Entry → Result Definition
unfolding optional_command dependencies_list stall_limit_from completion_lock_from
definition_from resolve shown e = do
  command ← command_from (get_or e.command null)
  max_attempts ← positive_from (get_or e.max_attempts (number (pos 5))) invalid_max_attempts
  guard (is_unset e.repeat_seconds && is_unset e.agent_main && is_unset e.agent_secondary)
      mechanics_field
  lane ← lane_from (lane_or_default e.lane)
  on_completed ← optional_command e.on_completed_command
  progress ← optional_command e.progress_command
  completion ← optional_command e.completion_command
  listed ← dependencies_list e.depends_on
  dependencies ← validate_item_ids listed
  _ ← required "id" e.id
  guard (not (is_among e.id dependencies)) depends_on_itself
  guard (distinct dependencies) duplicate_dependencies
  stall ← stall_limit_from e.stall_limit
  gap ← choice_from validate_gap_policy invalid_gap_policy (get_or e.gap_policy (text "review"))
  auto_limit ← gap_auto_limit_from (get_or e.gap_auto_limit (number (pos 0)))
  lock ← completion_lock_from e.completion_lock
  citations ← internal_citations_from (get_or e.internal_citations (flag false))
  refresh ←
      choice_from validate_topic_refresh invalid_topic_refresh (get_or e.topic_refresh (text "off"))
  mode ←
      choice_from validate_topic_refresh_mode invalid_topic_refresh_mode
        (get_or e.topic_refresh_mode (text "continue"))
  title ← required "title" e.title
  cwd ← required "cwd" e.cwd
  ok (record {
    title = strip (str shown title);
    cwd = resolve (str shown cwd);
    command = command;
    provider = e.provider;
    usage_file = e.usage_file;
    max_attempts = max_attempts;
    stop_file = e.stop_file;
    completion_command = completion;
    depends_on = dependencies;
    progress_command = progress;
    on_completed_command = on_completed;
    stall_limit = stall;
    gap_policy = gap;
    gap_auto_limit = auto_limit;
    completion_lock = lock;
    internal_citations = citations;
    topic_refresh = refresh;
    topic_refresh_mode = mode;
    lane = lane;
  })
