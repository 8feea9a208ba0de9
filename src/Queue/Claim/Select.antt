-- ===== src/Queue/Claim/Select.antt =====
-- research_loops/queue.py: how `claim_next` chooses an item for a worker that holds none: the walk
-- down the queue by the stations' cadence, then the first unclaimed item.
use autonomous_research_loop.Prelude.{
  String, Bool, true, false, not, ◌&&◌, ◌||◌, Option, none, some, List, [], ◌∷◌, map, ◌==◌, ltb,
  if◌then◌else◌,
}
use autonomous_research_loop.Prelude.Lists.{any}
use autonomous_research_loop.Queue.Types.{Status, by, Item, State, WorkerPolicy}
use autonomous_research_loop.Queue.Store.{Result, ok, ◌>>=◌}
use autonomous_research_loop.Queue.Transitions.{is_running, is_waiting, wants_running}
use autonomous_research_loop.Queue.Claim.{
  Request, in_lanes, holder, station_interval_of, lane_capacity_ok, dependencies_satisfied,
  eligible, Outcome, nothing, put, alter, grant,
}

abbrev pub is_reserved_for : String → Item → Bool
is_reserved_for worker i = elim i.reserved_for [ none ↦ false | some w ↦ w == worker ]

-- The reservations of the worker on items that do not run are dropped.
unfoldable pub drop_reservation : String → Item → Item
drop_reservation worker i =
    if is_reserved_for worker i && not (is_running i.status)
    then record i { reserved_for = none }
    else i

-- status in {"queued", "backoff", "running"}
abbrev pub is_active : Status → Bool
is_active s = is_waiting s || is_running s

-- How the walk ends: at an unclaimed item or the queue's end, at a running item of a slower station,
-- at a full lane, or at a waiting item of a slower station.
pub data Walk : Type 0 where
  unclaimed full_lane : Walk
  reserve take_over : Item → Walk

-- What the walk does at an item that some station holds.
unfoldable pub at_held : Request → State → String → Item → Result Walk → Result Walk
at_held r s h i rest =
    if h == r.worker
    then rest
    else if ltb (station_interval_of r r.worker) (station_interval_of r h)
    then (if is_running i.status
        then ok (reserve i)
        else if lane_capacity_ok s i
        then ok (take_over i)
        else ok full_lane)
    else rest

unfoldable pub at_item : Request → State → Item → Result Walk → Result Walk
unfolding at_held
at_item r s i rest =
    if is_active i.status && wants_running i.desired_state && in_lanes r i
    then (do
      satisfied ← dependencies_satisfied s i
      (if satisfied
          then elim (holder i.claimed_by) [ none ↦ ok unclaimed | some h ↦ at_held r s h i rest ]
          else rest))
    else rest

unfoldable pub walk : Request → State → List Item → Result Walk
unfolding at_item
walk r s [] = ok unclaimed
walk r s (i ∷ is) = let rest = walk r s is in at_item r s i rest

abbrev pub is_unclaimed : Item → Bool
is_unclaimed i = elim (holder i.claimed_by) [ none ↦ true | some _ ↦ false ]

-- The first unclaimed item that the worker could ever start.
unfoldable pub candidate : Request → State → List Item → Result (Option Item)
candidate r s [] = ok none
candidate r s (i ∷ is) =
    let rest = candidate r s is in
    if is_unclaimed i && is_waiting i.status && wants_running i.desired_state
    then (do
      satisfied ← dependencies_satisfied s i
      if satisfied && in_lanes r i then ok (some i) else rest)
    else rest

-- The item, if it is eligible now.
unfoldable pub start_if_eligible : Request → WorkerPolicy → State → Option Item → Outcome
start_if_eligible r policy s none = nothing s
start_if_eligible r policy s (some i) = do
  now_eligible ← eligible s r.now i
  if now_eligible then grant r policy s i else nothing s

abbrev pub reserved_item : Request → Item → Item
reserved_item r i = record i { reserved_for = some r.worker; updated_at = r.now }

abbrev pub taken_item : Request → Item → Item
taken_item r i = record i { claimed_by = by r.worker; next_eligible_at = none }

unfoldable pub after_walk : Request → WorkerPolicy → State → Walk → Outcome
unfolding start_if_eligible candidate
after_walk r policy s unclaimed = do
  found ← candidate r s s.items
  start_if_eligible r policy s found
after_walk r policy s full_lane = nothing s
after_walk r policy s (reserve i) = nothing (alter s i.id (reserved_item r))
after_walk r policy s (take_over i) = grant r policy (put s i.id (taken_item r i)) (taken_item r i)

unfoldable pub cascade : Request → WorkerPolicy → State → Outcome
unfolding drop_reservation walk after_walk
cascade r policy s =
    if any (λ i. is_reserved_for r.worker i && is_running i.status) s.items then nothing s else do
      let healed = record s { items = map (drop_reservation r.worker) s.items }
      end ← walk r healed healed.items
      after_walk r policy healed end
