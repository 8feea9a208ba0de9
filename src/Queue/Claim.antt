-- ===== src/Queue/Claim.antt =====
-- research_loops/queue.py: `claim_next` of an unmanaged queue, in the steps of its body.
pub mod Select
pub mod Next
pub mod Walk
pub mod Origin
pub mod Startable
pub mod Starts
pub mod Promises
use autonomous_research_loop.Prelude.{
  ℕ, ◌+◌, String, Bool, true, false, not, ◌&&◌, Option, none, some, List, [], ◌∷◌, ◌++◌, ◌==◌, leb,
  ltb, if◌then◌else◌,
}
use autonomous_research_loop.Prelude.Int.{ℤ, pos, negsuc, below}
use autonomous_research_loop.Prelude.Lists.{all, count_if, mem, distinct, lookup, insert}
use autonomous_research_loop.Queue.Types.{Status, ClaimedBy, by, Item, State, WorkerPolicy}
use autonomous_research_loop.Queue.Store.{
  Result, ok, err, depends_on_missing, malformed_accepted_by_workers, malformed_worker_policy,
  invalid_item_id, depends_on_itself, ◌>>=◌, find, modify,
}
use autonomous_research_loop.Queue.Validate.{is_item_id}
use autonomous_research_loop.Queue.Transitions.{
  is_running, is_waiting, is_completed, wants_running, claims,
}

-- i.get("claimed_by") where it is true
abbrev pub holder : ClaimedBy → Option String
holder (by h) = if h == "" then none else some h
holder _ = none

-- The arguments of a call and the stations' configuration: `none` is an interval that is absent or
-- no integer.
pub record Request : Type 0 where
  pub worker : String
  pub lanes : List String
  pub stations : List (String × Option ℤ)
  pub now : ℕ

abbrev pub in_lanes : Request → Item → Bool
in_lanes r i = mem i.lane r.lanes

abbrev interval_value : Option (Option ℤ) → ℕ
interval_value (some (some (pos n))) = n
interval_value _ = 0

unfoldable pub station_interval_of : Request → String → ℕ
station_interval_of r name = interval_value (lookup name r.stations)

-- The cap on the running items of a lane; `none` is no cap.
unfoldable pub lane_limit : State → String → Option ℕ
lane_limit s lane = elim (lookup lane s.lane_limits) [
  | some limit ↦ some limit
  | none ↦ if lane == "intake" then some 1 else none
]

abbrev pub runs_in : String → Item → Bool
runs_in lane i = is_running i.status && i.lane == lane

unfoldable pub running_in : String → List Item → ℕ
running_in lane items = count_if (runs_in lane) items

unfoldable pub lane_capacity_ok : State → Item → Bool
lane_capacity_ok s i = elim (lane_limit s i.lane) [
  | none ↦ true
  | some limit ↦ ltb (running_in i.lane s.items) limit
]

-- Whether the item with an id is completed, if there is one.
unfoldable pub is_done : List Item → String → Option Bool
is_done items k = elim (find k items) [ none ↦ none | some i ↦ some (is_completed i.status) ]

-- The loop of `dependencies_satisfied` over the ids that are left.
unfoldable pub dependencies_from : List Item → String → List String → Result Bool
dependencies_from items id [] = ok true
dependencies_from items id (d ∷ ds) =
    let rest = dependencies_from items id ds in
    if not (is_item_id d)
    then err invalid_item_id
    else if d == id
    then err depends_on_itself
    else elim (is_done items d) [
      | none ↦ err (depends_on_missing d)
      | some done ↦ if done then rest else ok false
    ]

abbrev pub dependencies_satisfied : State → Item → Result Bool
dependencies_satisfied s i = dependencies_from s.items i.id i.depends_on

abbrev pub is_due : Option ℕ → ℕ → Bool
is_due none now = true
is_due (some t) now = leb t now

unfoldable pub eligible : State → ℕ → Item → Result Bool
eligible s now i =
    if is_waiting i.status && wants_running i.desired_state && lane_capacity_ok s i
    then (do
      satisfied ← dependencies_satisfied s i
      ok (satisfied && is_due i.next_eligible_at now))
    else ok false

unfoldable pub accepted_workers : Item → Result (List String)
accepted_workers i =
    if all is_item_id i.accepted_by_workers && distinct i.accepted_by_workers
    then ok i.accepted_by_workers
    else err malformed_accepted_by_workers

abbrev is_count : Option ℤ → Bool
is_count none = true
is_count (some n) = not (below n 0)

unfoldable pub worker_policy : State → String → Result WorkerPolicy
worker_policy s worker = elim (lookup worker s.worker_policies) [
  | none ↦ ok (record { claim_limit = none; claims_used = pos 0 })
  | some policy ↦
      if is_count policy.claim_limit && is_count (some policy.claims_used)
      then ok policy
      else err malformed_worker_policy
]

-- What a claim gives: an item, and whether it was running already.
abbrev pub Claim : Type 0
Claim = Option (Item × Bool)

abbrev pub Outcome : Type 0
Outcome = Result (Claim × State)

abbrev pub nothing : State → Outcome
nothing s = ok (none, s)

abbrev pub put : State → String → Item → State
put s k i = record s { items = modify k (λ _. i) s.items }

abbrev pub alter : State → String → (Item → Item) → State
alter s k f = record s { items = modify k f s.items }

abbrev pub with_worker : String → List String → List String
with_worker worker accepted = if mem worker accepted then accepted else accepted ++ worker ∷ []

-- The worker's own running item is handed back to it.
unfoldable pub resume_running : Request → State → Item → Outcome
resume_running r s own = do
  accepted ← accepted_workers own
  let keep = λ (i : Item). record i { accepted_by_workers = with_worker r.worker accepted }
  ok (some (keep own, true), alter s own.id keep)

-- claims_used >= claim_limit
abbrev pub is_spent : WorkerPolicy → Bool
is_spent p = elim p.claim_limit [
  | none ↦ false
  | some limit ↦ elim limit [
    | negsuc _ ↦ true
    | pos l ↦ elim p.claims_used [ pos used ↦ leb l used | negsuc _ ↦ false ]
  ]
]

abbrev one_more : ℤ → ℤ
one_more (pos n) = pos (n + 1)
one_more (negsuc n) = negsuc n

unfoldable pub count_claim : State → String → WorkerPolicy → State
count_claim s worker p = elim p.claim_limit [
  | none ↦ s
  | some _ ↦ record s {
    worker_policies =
        insert worker (record p { claims_used = one_more p.claims_used }) s.worker_policies;
  }
]

unfoldable pub started_item : Request → List String → Item → Item
started_item r accepted i = record i {
  accepted_by_workers = with_worker r.worker accepted;
  status = Status.running;
  claimed_by = by r.worker;
  attempts = i.attempts + 1;
  started_at = some r.now;
  finished_at = none;
  updated_at = r.now;
}

-- A worker that neither holds the item nor accepted it before takes it as new work.
abbrev pub is_new_to : String → List String → Item → Bool
is_new_to worker accepted i = not (claims i.claimed_by worker) && not (mem worker accepted)

-- The item starts, unless it is new to a worker whose limit is spent.
unfoldable pub grant_accepted : Request → WorkerPolicy → State → Item → List String → Claim × State
unfolding count_claim started_item
grant_accepted r policy s i accepted =
    let started = started_item r accepted i in
    let counted = if is_new_to r.worker accepted i then count_claim s r.worker policy else s in
    if is_new_to r.worker accepted i && is_spent policy
    then (none, s)
    else (some (started, false), put counted i.id started)

-- The end of the body, for the selected item.
unfoldable pub grant : Request → WorkerPolicy → State → Item → Outcome
unfolding grant_accepted
grant r policy s i = do accepted ← accepted_workers i; ok (grant_accepted r policy s i accepted)
