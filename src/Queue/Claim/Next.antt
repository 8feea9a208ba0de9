-- ===== src/Queue/Claim/Next.antt =====
-- research_loops/queue.py: `claim_next` as a whole.
use autonomous_research_loop.Prelude.{
  ℕ, String, Bool, not, ◌&&◌, ◌||◌, none, some, List, [], ◌∷◌, if◌then◌else◌,
}
use autonomous_research_loop.Prelude.Lists.{first}
use autonomous_research_loop.Queue.Types.{null, Item, State}
use autonomous_research_loop.Queue.Store.{Result, ok, ◌>>=◌, Op, locked, modify_first}
use autonomous_research_loop.Queue.Validate.{validate_lane}
use autonomous_research_loop.Queue.Transitions.{is_running, is_waiting, wants_running, claims, owns}
use autonomous_research_loop.Queue.Claim.{
  Request, in_lanes, worker_policy, Claim, Outcome, nothing, resume_running,
}
use autonomous_research_loop.Queue.Claim.Select.{start_if_eligible, cascade}

-- for lane in lanes: _validate_lane(lane)
unfoldable pub validate_lanes : List String → Result (List String)
unfolding validate_lane
validate_lanes [] = ok []
validate_lanes (l ∷ ls) = do lane ← validate_lane l; rest ← validate_lanes ls; ok (lane ∷ rest)

abbrev pub runs_for : String → Item → Bool
runs_for worker i = is_running i.status && owns i.claimed_by worker

-- A waiting item of the worker in a lane that it no longer serves.
abbrev pub is_stray : Request → Item → Bool
is_stray r i = claims i.claimed_by r.worker && is_waiting i.status && not (in_lanes r i)

abbrev pub released_stray : ℕ → Item → Item
released_stray now i = record i { claimed_by = null; updated_at = now }

unfoldable pub release_stray : Request → State → State
release_stray r s = record s { items = modify_first (is_stray r) (released_stray r.now) s.items }

-- A waiting item of the worker that it is to go on with.
abbrev pub is_own : Request → Item → Bool
is_own r i =
    claims i.claimed_by r.worker
    && is_waiting i.status
    && wants_running i.desired_state
    && in_lanes r i

-- The worker runs nothing: its own waiting item, or a choice down the queue.
unfoldable pub claim_waiting : Request → State → Outcome
unfolding release_stray cascade start_if_eligible
claim_waiting r s = do
  policy ← worker_policy s r.worker
  let kept = release_stray r s
  elim (first (is_own r) kept.items) [
    | some own ↦ start_if_eligible r policy kept (some own)
    | none ↦ cascade r policy kept
  ]

unfoldable pub claim_from : Request → State → Outcome
unfolding claim_waiting resume_running
claim_from r s = if s.paused || s.stopping then nothing s else do
  _ ← worker_policy s r.worker
  elim (first (runs_for r.worker) s.items) [
    | some own ↦ resume_running r s own
    | none ↦ claim_waiting r s
  ]

unfoldable pub claim_next : Request → Op Claim
claim_next r w = do
  _ ← validate_lanes r.lanes
  locked (λ v. do (claim, s) ← claim_from r v.state; ok (claim, record v { state = s })) r.now w
