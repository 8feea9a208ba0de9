-- ===== src/Control/Operator.antt =====
-- research_loops/control_store.py: what an operator asks of the controller: `update_stations`,
-- `reorder` and `register_profile`.
pub mod Reordered
use autonomous_research_loop.Prelude.{
  ℕ, ◌+◌, String, Bool, true, false, not, ◌&&◌, ◌||◌, Option, none, some, List, [], ◌∷◌, map,
  nat_beq, if◌then◌else◌,
}
use autonomous_research_loop.Prelude.Int.{ℤ}
use autonomous_research_loop.Prelude.Texts.{strip}
use autonomous_research_loop.Prelude.Lists.{length, mem, distinct, all, any, insert}
use autonomous_research_loop.Queue.Types.{Item}
use autonomous_research_loop.Control.Types.{Station, Checkpoints, Configuration, Profile}
use autonomous_research_loop.Control.Store.{
  Outcome, returned, ◌>>=◌, ◌>>◌, require, transaction, queue_revision_conflict, order_invalid,
  choose_selection, interval_selection, intervals_not_five, profile_argument_blank,
  active_count_argument, selection_invalid, no_changes,
}
use autonomous_research_loop.Control.Configuration.{
  max_stations, is_int, up_to, blank, validate_profile, validate_state,
}
use autonomous_research_loop.Control.Schedule.{station_ids, item_by_id, reconcile_state}
use autonomous_research_loop.Control.Station.{Reference, station_id, Operation}

abbrev pub eqb : Bool → Bool → Bool
eqb true b = b
eqb false b = not b

abbrev pub set_profile : (String → Station → Station) → Option String → Station → Station
set_profile assign none s = s
set_profile assign (some t) s = assign (strip t) s

-- The assignments to `_station(configuration, id)`, the first station with the id.
unfoldable pub modify_station : ℕ → (Station → Station) → List Station → List Station
modify_station n f [] = []
modify_station n f (s ∷ ss) = if is_int n s.id then f s ∷ ss else s ∷ modify_station n f ss

unfoldable pub modify_stations : List ℕ → (Station → Station) → List Station → List Station
unfolding modify_station
modify_stations [] f ss = ss
modify_stations (n ∷ ns) f ss = modify_stations ns f (modify_station n f ss)

-- zip(stations, intervals); a committed configuration has five of each
unfoldable pub set_intervals : List ℤ → List Station → List Station
set_intervals (v ∷ vs) (s ∷ ss) = record s { interval_seconds = v } ∷ set_intervals vs ss
set_intervals [] ss = ss
set_intervals (v ∷ vs) [] = []

-- The keyword arguments of `update_stations`.
pub record Update : Type 0 where
  pub station_ids : Option (List Reference)
  pub all_stations : Bool
  pub primary_profile : Option String
  pub secondary_profile : Option String
  pub intervals : Option (List ℤ)
  pub active_count : Option ℤ
  pub checkpoints : Option Checkpoints

abbrev pub given {ℓ} : {A : Type ℓ} → Option A → Bool
given none = false
given (some _) = true

abbrev pub not_blank : Option String → Bool
not_blank none = true
not_blank (some t) = not (blank t)

-- `all_stations`, which a change of the whole configuration implies.
abbrev pub selects_all : Update → Bool
selects_all u =
    u.all_stations
    || (not (given u.station_ids)
        && ((given u.checkpoints || given u.active_count || given u.intervals)
            && not (given u.primary_profile || given u.secondary_profile)))

unfoldable pub station_numbers : List Reference → Outcome (List ℕ)
unfolding station_id
station_numbers [] = returned []
station_numbers (r ∷ rs) = do n ← station_id r; rest ← station_numbers rs; returned (n ∷ rest)

abbrev pub is_station_among : ℕ → List ℕ → Bool
is_station_among n = any (λ m. nat_beq m n)

abbrev pub all_different : List ℕ → Bool
all_different [] = true
all_different (n ∷ ns) = not (is_station_among n ns) && all_different ns

unfoldable pub selected_stations : Update → Outcome (List ℕ)
unfolding station_numbers
selected_stations u = do
  require (not (eqb (selects_all u) (given u.station_ids))) choose_selection
  require (not (given u.intervals && given u.station_ids)) interval_selection
  require (elim u.intervals [ none ↦ true | some vs ↦ nat_beq (length vs) max_stations ])
      intervals_not_five
  require (not_blank u.primary_profile) profile_argument_blank
  require (not_blank u.secondary_profile) profile_argument_blank
  require (elim u.active_count [ none ↦ true | some n ↦ up_to max_stations n ])
      active_count_argument
  chosen ← elim u.station_ids [ none ↦ returned station_ids | some rs ↦ station_numbers rs ]
  require (all_different chosen && not (nat_beq (length chosen) 0)) selection_invalid
  require
      (given u.intervals
        || given u.primary_profile
        || given u.secondary_profile
        || given u.active_count
        || given u.checkpoints)
      no_changes
  returned chosen

unfoldable pub updated_configuration : Update → List ℕ → Configuration → Configuration
unfolding modify_stations set_intervals
updated_configuration u chosen c =
    let with_profiles =
      modify_stations chosen
        (λ s.
          set_profile (λ t (x : Station). record x { secondary_profile = t }) u.secondary_profile
            (set_profile (λ t (x : Station). record x { primary_profile = t }) u.primary_profile s))
        c.stations in
    record c {
      checkpoints = elim u.checkpoints [ none ↦ c.checkpoints | some k ↦ k ];
      stations = elim u.intervals [
        | none ↦ with_profiles
        | some vs ↦ set_intervals vs with_profiles
      ];
      active_count = elim u.active_count [ none ↦ c.active_count | some n ↦ n ];
    }

unfoldable pub update_body : Update → List ℕ → ℕ → Operation Configuration
unfolding updated_configuration reconcile_state
update_body u chosen now s =
    let c = updated_configuration u chosen s.configuration in
    returned (c, reconcile_state now (record s { configuration = c }))

unfoldable pub update_stations : Update → ℕ → Operation Configuration
unfolding selected_stations transaction validate_state update_body
update_stations u now s = do
  chosen ← selected_stations u
  transaction validate_state (update_body u chosen now) s

abbrev pub item_ids : List Item → List String
item_ids = map (λ (i : Item). i.id)

-- The two lists hold the same ids, each once.
abbrev pub is_reordering : List String → List String → Bool
is_reordering ordered current =
    nat_beq (length ordered) (length current)
    && (all (λ k. mem k current) ordered && all (λ k. mem k ordered) current)
    && distinct ordered

-- [by_id[k] for k in ordered]; the check before has found every id in the queue
unfoldable pub pick : List Item → List String → List Item
unfolding item_by_id
pick items [] = []
pick items (k ∷ ks) =
    let rest = pick items ks in elim (item_by_id k items) [ none ↦ rest | some i ↦ i ∷ rest ]

unfoldable pub reorder_body : List String → ℕ → ℕ → Operation (List String)
unfolding mem distinct pick reconcile_state
reorder_body ordered expected now s = do
  require (nat_beq s.queue.revision expected) queue_revision_conflict
  require (is_reordering ordered (item_ids s.queue.items)) order_invalid
  returned (
    ordered,
    reconcile_state now (record s {
      queue = record s.queue {
        items = pick s.queue.items ordered;
        revision = s.queue.revision + 1;
      };
    }),
  )

unfoldable pub reorder : List String → ℕ → ℕ → Operation (List String)
unfolding transaction validate_state reorder_body
reorder ordered expected now = transaction validate_state (reorder_body ordered expected now)

abbrev pub register_body : String → Profile → Operation Profile
register_body id p s =
    returned
      (p, record s { work = record s.work { agent_profiles = insert id p s.work.agent_profiles } })

unfoldable pub register_profile : String → Profile → Operation Profile
unfolding validate_profile transaction validate_state insert
register_profile id p s = do
  validate_profile id p
  transaction validate_state (register_body id p) s
