-- ===== src/Control/Configuration.antt =====
-- research_loops/control_store.py: `validate_configuration`, `_validate_profile`, `_validate_state`.
-- The types of the model hold what the checks of a JSON value's shape hold.
use autonomous_research_loop.Prelude.{
  ℕ, suc, String, Bool, true, false, not, ◌&&◌, ◌||◌, Option, none, some, List, [], ◌∷◌, ◌++◌,
  nat_beq, leb, ltb, if◌then◌else◌, ◌==◌,
}
use autonomous_research_loop.Prelude.Int.{ℤ, pos, negsuc}
use autonomous_research_loop.Prelude.Texts.{strip}
use autonomous_research_loop.Prelude.Lists.{length, lookup, all}
use autonomous_research_loop.Queue.Validate.{is_item_id}
use autonomous_research_loop.Control.Types.{
  AgentSource, explicit, Station, Checkpoints, Configuration, Profile, Logical,
}
use autonomous_research_loop.Control.Store.{
  Outcome, returned, ◌>>◌, require, schema_version_invalid, active_count_invalid, stations_not_five,
  station_ids_not_contiguous, profile_blank, interval_negative, intervals_decreasing,
  cadence_invalid, explicit_profiles_required, explicit_profiles_forbidden, profile_id_invalid,
  profile_field_blank, unregistered_profile,
}

abbrev pub max_stations : ℕ
max_stations = 5

abbrev pub schema_version : ℕ
schema_version = 1

abbrev pub int_le : ℤ → ℤ → Bool
int_le (pos a) (pos b) = leb a b
int_le (pos a) (negsuc b) = false
int_le (negsuc a) (pos b) = true
int_le (negsuc a) (negsuc b) = leb b a

abbrev pub is_int : ℕ → ℤ → Bool
is_int n (pos k) = nat_beq k n
is_int n (negsuc k) = false

-- 0 <= value <= bound
abbrev pub up_to : ℕ → ℤ → Bool
up_to bound (pos k) = leb k bound
up_to bound (negsuc k) = false

abbrev pub natural : ℤ → Bool
natural (pos k) = true
natural (negsuc k) = false

abbrev pub positive : ℤ → Bool
positive (pos k) = ltb 0 k
positive (negsuc k) = false

abbrev pub blank : String → Bool
blank t = strip t == ""

-- sorted(stations, key=id)
unfoldable pub insert_station : Station → List Station → List Station
insert_station s [] = s ∷ []
insert_station s (t ∷ ts) = if int_le s.id t.id then s ∷ t ∷ ts else t ∷ insert_station s ts

unfoldable pub sorted_stations : List Station → List Station
unfolding insert_station
sorted_stations [] = []
sorted_stations (s ∷ ss) = insert_station s (sorted_stations ss)

-- The loop over the stations in the order of their ids, with the interval before.
unfoldable pub check_stations : Bool → ℕ → Option ℤ → List Station → Outcome (Unit {0})
check_stations require_profiles expected previous [] = returned tt
check_stations require_profiles expected previous (s ∷ ss) = do
  require (is_int expected s.id) station_ids_not_contiguous
  require (not (require_profiles && (blank s.primary_profile || blank s.secondary_profile)))
      profile_blank
  require (natural s.interval_seconds) interval_negative
  require (elim previous [ none ↦ true | some p ↦ int_le p s.interval_seconds ])
      intervals_decreasing
  check_stations require_profiles (suc expected) (some s.interval_seconds) ss

abbrev pub is_explicit : AgentSource → Bool
is_explicit explicit = true
is_explicit _ = false

abbrev pub is_named : Option String → Bool
is_named none = false
is_named (some t) = not (blank t)

abbrev pub is_given : Option String → Bool
is_given none = false
is_given (some _) = true

unfoldable pub check_checkpoints : Checkpoints → Outcome (Unit {0})
check_checkpoints c = do
  require (positive c.every_research_iterations) cadence_invalid
  require
      (not (is_explicit c.agent_source)
        || (is_named c.primary_profile && is_named c.secondary_profile))
      explicit_profiles_required
  require
      (is_explicit c.agent_source
        || not (is_given c.primary_profile || is_given c.secondary_profile))
      explicit_profiles_forbidden

unfoldable pub validate_configuration : Bool → Configuration → Outcome (Unit {0})
unfolding sorted_stations check_stations check_checkpoints
validate_configuration require_profiles c = do
  require (is_int schema_version c.schema_version) schema_version_invalid
  require (up_to max_stations c.active_count) active_count_invalid
  require (nat_beq (length c.stations) max_stations) stations_not_five
  check_stations require_profiles 1 none (sorted_stations c.stations)
  check_checkpoints c.checkpoints

-- `_PROFILE_ID` is the pattern of item ids.
unfoldable pub validate_profile : String → Profile → Outcome (Unit {0})
unfolding is_item_id
validate_profile id p = do
  require (is_item_id id) profile_id_invalid
  require (not (blank p.adapter || blank p.model || blank p.executable)) profile_field_blank

unfoldable pub validate_profiles : List (String × Profile) → Outcome (Unit {0})
unfolding validate_profile
validate_profiles [] = returned tt
validate_profiles ((id, p) ∷ ps) = do validate_profile id p; validate_profiles ps

abbrev pub station_profiles : List Station → List String
station_profiles [] = []
station_profiles (s ∷ ss) = s.primary_profile ∷ s.secondary_profile ∷ station_profiles ss

abbrev pub given : Option String → List String
given none = []
given (some t) = t ∷ []

unfoldable pub referenced_profiles : Configuration → List String
referenced_profiles c =
    let k = c.checkpoints in
    station_profiles c.stations
    ++ (if is_explicit k.agent_source
        then given k.primary_profile ++ given k.secondary_profile
        else [])

abbrev pub is_registered : List (String × Profile) → String → Bool
is_registered profiles id = elim (lookup id profiles) [ none ↦ false | some _ ↦ true ]

unfoldable pub validate_state : Logical → Outcome (Unit {0})
unfolding validate_configuration validate_profiles referenced_profiles lookup
validate_state s = do
  validate_configuration true s.configuration
  validate_profiles s.work.agent_profiles
  require (all (is_registered s.work.agent_profiles) (referenced_profiles s.configuration))
      unregistered_profile
