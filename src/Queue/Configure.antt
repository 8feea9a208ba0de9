-- ===== src/Queue/Configure.antt =====
-- research_loops/queue.py: `configure_topic`. `none` is a setting that is not among the arguments;
-- the settings that the method refuses are no arguments here.
use autonomous_research_loop.Prelude.{ℕ, String, Bool, true, false, Option, none, some, List, map}
use autonomous_research_loop.Queue.Types.{Definition, Definition-discrete, Item}
use autonomous_research_loop.Queue.Store.{ok, ◌>>=◌, Op, locked, find_item, modify}
use autonomous_research_loop.Queue.Definition.{
  Json, null, flag, number, text, array, Entry, definition_from,
}
use autonomous_research_loop.Queue.Sync.{decides}

pub record Settings : Type 0 where
  pub max_attempts : Option Json
  pub stall_limit : Option Json
  pub gap_policy : Option Json
  pub gap_auto_limit : Option Json
  pub internal_citations : Option Json
  pub topic_refresh : Option Json
  pub topic_refresh_mode : Option Json
  pub on_completed_command : Option Json

abbrev pub strings : List String → Json
strings ts = array (map (λ t. some t) ts)

abbrev pub or_null {ℓ} : {A : Type ℓ} → (A → Json) → Option A → Json
or_null f none = null
or_null f (some a) = f a

-- {**item, **settings}[key]
abbrev pub override : Option Json → Json → Option Json
override none stored = some stored
override (some given) stored = some given

abbrev pub candidate_entry : String → Item → Settings → Entry
candidate_entry k i s = record {
  id = some (text k);
  title = some (text i.title);
  cwd = some (text i.cwd);
  command = some (strings i.command);
  max_attempts = override s.max_attempts (number i.max_attempts);
  repeat_seconds = none;
  agent_main = none;
  agent_secondary = none;
  lane = some (text i.lane);
  on_completed_command = override s.on_completed_command (or_null strings i.on_completed_command);
  progress_command = some (or_null strings i.progress_command);
  completion_command = some (or_null strings i.completion_command);
  depends_on = some (strings i.depends_on);
  stall_limit = override s.stall_limit (or_null (λ n. number n) i.stall_limit);
  gap_policy = override s.gap_policy (text i.gap_policy);
  gap_auto_limit = override s.gap_auto_limit (number i.gap_auto_limit);
  completion_lock = some (or_null (λ t. text t) i.completion_lock);
  internal_citations = override s.internal_citations (flag i.internal_citations);
  topic_refresh = override s.topic_refresh (text i.topic_refresh);
  topic_refresh_mode = override s.topic_refresh_mode (text i.topic_refresh_mode);
  provider = i.provider;
  usage_file = i.usage_file;
  stop_file = i.stop_file;
}

-- item[field] = validated[field], if field in settings
abbrev pub where_given {ℓ} : {A : Type ℓ} → Option Json → A → A → A
where_given none validated stored = stored
where_given (some _) validated stored = validated

abbrev pub configured : Settings → Definition → Definition → Definition
configured s v d = record d {
  max_attempts = where_given s.max_attempts v.max_attempts d.max_attempts;
  stall_limit = where_given s.stall_limit v.stall_limit d.stall_limit;
  gap_policy = where_given s.gap_policy v.gap_policy d.gap_policy;
  gap_auto_limit = where_given s.gap_auto_limit v.gap_auto_limit d.gap_auto_limit;
  internal_citations = where_given s.internal_citations v.internal_citations d.internal_citations;
  topic_refresh = where_given s.topic_refresh v.topic_refresh d.topic_refresh;
  topic_refresh_mode = where_given s.topic_refresh_mode v.topic_refresh_mode d.topic_refresh_mode;
  on_completed_command =
      where_given s.on_completed_command v.on_completed_command d.on_completed_command;
}

abbrev pub stamped : Bool → ℕ → Definition → Item → Item
stamped true now d i = i
stamped false now d i = record i { definition = d; updated_at = now }

unfoldable pub configured_item : Settings → Definition → ℕ → Item → Item
configured_item s v now i =
    let d = configured s v i.definition in
    stamped (decides (Definition-discrete d i.definition)) now d i

unfoldable pub configure_topic :
    (String → String) → (Json → String) → String → Settings → ℕ → Op Item
unfolding definition_from configured_item
configure_topic resolve shown k s now =
    locked
      (λ v. do
        item ← find_item v.state k
        validated ← definition_from resolve shown (candidate_entry k item s)
        ok (
          configured_item s validated now item,
          record v {
            state = record v.state {
              items = modify k (configured_item s validated now) v.state.items;
            };
          },
        ))
      now
