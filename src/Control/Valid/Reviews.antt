-- ===== src/Control/Valid/Reviews.antt =====
-- research_loops/control_store.py: in a valid state the agent profiles of every review resolve.
use mathlib.Core.List.{Memᴰ}
use autonomous_research_loop.Prelude.{
  ℕ, String, ◌≡◌, refl, true, Option, none, some, List, [], ◌∷◌, ◌++◌, if◌then◌else◌, inl, inr,
  arith, Bool-cases, Option-cases,
}
use autonomous_research_loop.Prelude.Lists.{all}
use autonomous_research_loop.Control.Types.{
  Pair, AgentSource, station_1, executing_station, explicit, Station, Logical,
}
use autonomous_research_loop.Control.Store.{returned}
use autonomous_research_loop.Control.Configuration.{
  is_int, is_explicit, is_registered, station_profiles, given, check_checkpoints,
  referenced_profiles, validate_configuration, validate_state,
}
use autonomous_research_loop.Control.Schedule.{station_ids}
use autonomous_research_loop.Control.Machine.{Action, run}
use autonomous_research_loop.Control.Profiles.{
  source_station, resolve_station_pair, effective_checkpoint_profiles, resolve_checkpoint_pair,
}
use autonomous_research_loop.Control.Valid.{IsValid, run-IsValid}
use autonomous_research_loop.Control.Valid.Pairs.{
  parts, station-found, both-resolve, first-station_profiles, all-append-left, all-append-right,
  station-pair,
}

-- A station number, where one is given.
abbrev pub IsStation : Option ℕ → Type 0
IsStation none = Unit
IsStation (some n) = Memᴰ n station_ids

source-station_ids :
    (a : AgentSource) (o : Option ℕ) → IsStation o → Memᴰ (source_station a o) station_ids
source-station_ids station_1 o m = Memᴰ.head refl
source-station_ids explicit o m = Memᴰ.head refl
source-station_ids executing_station none m = Memᴰ.head refl
source-station_ids executing_station (some n) m = m

module _ (s : Logical) (valid : validate_state s ≡ returned tt) where
  explicit-named :
      is_explicit s.configuration.checkpoints.agent_source ≡ true
      → (p : String) × (q : String) × (s.configuration.checkpoints.primary_profile ≡ some p)
        × (s.configuration.checkpoints.secondary_profile ≡ some q)
  unfolding validate_configuration check_checkpoints
  explicit-named names =
      let k = s.configuration.checkpoints in
      let configured = (parts s valid).0 in
      elim (Option-cases k.primary_profile) [
        | inl missing ↦ absurd (ground (arith, configured, names, missing))
        | inr (p, hp) ↦ elim (Option-cases k.secondary_profile) [
          | inl missing ↦ absurd (ground (arith, configured, names, missing))
          | inr (q, hq) ↦ (p, q, hp, hq)
        ]
      ]

  pub checkpoint-pair :
      (o : Option ℕ) → IsStation o → (r : Pair) × (resolve_checkpoint_pair o s ≡ returned r)
  unfolding resolve_checkpoint_pair effective_checkpoint_profiles referenced_profiles
  checkpoint-pair o m =
      let registered = is_registered s.work.agent_profiles in
      let k = s.configuration.checkpoints in
      elim (Bool-cases (is_explicit k.agent_source)) [
        | inl names ↦
            let (p, q, hp, hq) = explicit-named names in
            let listed : all registered (p ∷ q ∷ []) ≡ true = ground (
              arith,
              names,
              hp,
              hq,
              all-append-right s valid registered (station_profiles s.configuration.stations)
                  (if is_explicit k.agent_source
                    then given k.primary_profile ++ given k.secondary_profile
                    else [])
                  (parts s valid).2,
            ) in
            let (r, both) =
              both-resolve s valid p q (ground (arith, listed)) (ground (arith, listed)) in
            (r, ground (arith, names, hp, hq, both))
        | inr plain ↦
            let n = source_station k.agent_source o in
            let (t, found) = station-found s valid n (source-station_ids k.agent_source o m) in
            let (hp, hq) =
              first-station_profiles registered (λ (u : Station). is_int n u.id)
                s.configuration.stations t
                (all-append-left s valid registered (station_profiles s.configuration.stations) _
                  (parts s valid).2)
                found in
            let (r, both) = both-resolve s valid t.primary_profile t.secondary_profile hp hq in
            (r, ground (arith, plain, found, both))
      ]

-- Over any sequence of the scheduler's operations from a valid state, the agent profiles of each of
-- the five stations resolve, and those of a review that one of them runs, or that none does yet.
pub run-pairs :
    (actions : List Action) (s : Logical)
    → IsValid s
    → ((n : ℕ)
        → Memᴰ n station_ids
        → (r : Pair) × (resolve_station_pair n (run actions s) ≡ returned r))
      × ((o : Option ℕ)
          → IsStation o
          → (r : Pair) × (resolve_checkpoint_pair o (run actions s) ≡ returned r))
run-pairs actions s valid = (
  station-pair (run actions s) (run-IsValid actions s valid),
  checkpoint-pair (run actions s) (run-IsValid actions s valid),
)
