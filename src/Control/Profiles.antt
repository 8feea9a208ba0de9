-- ===== src/Control/Profiles.antt =====
-- research_loops/control_store.py: `resolve_profile`, `resolve_station_pair`,
-- `effective_checkpoint_profiles` and `resolve_checkpoint_pair`, on a snapshot of the state.
use autonomous_research_loop.Prelude.{ℕ, String, Option, none, some, if◌then◌else◌}
use autonomous_research_loop.Prelude.Lists.{first, lookup}
use autonomous_research_loop.Control.Types.{
  AgentSource, executing_station, Station, Configuration, Logical, Resolved, Pair,
}
use autonomous_research_loop.Control.Store.{
  Outcome, raised, returned, ◌>>=◌, ◌>>◌, unregistered_profile, unknown_station, missing_key,
  no_station,
}
use autonomous_research_loop.Control.Configuration.{is_int, is_explicit, validate_profile}

unfoldable pub resolve_profile : String → Logical → Outcome Resolved
unfolding lookup validate_profile
resolve_profile id s = elim (lookup id s.work.agent_profiles) [
  | none ↦ raised unregistered_profile
  | some p ↦ do validate_profile id p; returned (record { id = id; profile = p })
]

-- next((item for item in stations if item["id"] == station_id), None)
abbrev pub station_at : ℕ → Configuration → Option Station
station_at n c = first (λ (t : Station). is_int n t.id) c.stations

abbrev pub resolve_both : String → String → Logical → Outcome Pair
resolve_both primary secondary s = do
  p ← resolve_profile primary s
  q ← resolve_profile secondary s
  returned (record { primary = p; secondary = q })

unfoldable pub resolve_station_pair : ℕ → Logical → Outcome Pair
unfolding resolve_profile
resolve_station_pair n s = elim (station_at n s.configuration) [
  | none ↦ raised unknown_station
  | some t ↦ resolve_both t.primary_profile t.secondary_profile s
]

abbrev pub key_of : Option String → Outcome String
key_of none = raised missing_key
key_of (some t) = returned t

-- The station whose models a checkpoint uses, where the policy names none itself.
abbrev pub source_station : AgentSource → Option ℕ → ℕ
source_station executing_station (some n) = n
source_station _ _ = 1

unfoldable pub effective_checkpoint_profiles : Option ℕ → Configuration → Outcome (String × String)
effective_checkpoint_profiles station c =
    if is_explicit c.checkpoints.agent_source
    then (do
      p ← key_of c.checkpoints.primary_profile
      q ← key_of c.checkpoints.secondary_profile
      returned (p, q))
    else elim (station_at (source_station c.checkpoints.agent_source station) c) [
      | none ↦ raised no_station
      | some t ↦ returned (t.primary_profile, t.secondary_profile)
    ]

unfoldable pub resolve_checkpoint_pair : Option ℕ → Logical → Outcome Pair
unfolding effective_checkpoint_profiles resolve_profile
resolve_checkpoint_pair station s = do
  (p, q) ← effective_checkpoint_profiles station s.configuration
  resolve_both p q s
