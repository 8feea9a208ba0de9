-- ===== src/Queue/Invariant/Runners.antt =====
-- No worker runs two items: how a claim changes the number of items that a worker runs.
use native.Mathlib.Nat.{le_trans}
use mathlib.Core.Path.{subst}
use autonomous_research_loop.Prelude.{
  ℕ, ◌+◌, ◌≤◌, String, ◌≡◌, false, ◌&&◌, ◌||◌, Option, none, some, List, map, arith, ◌==◌, eq_iff,
}
use autonomous_research_loop.Prelude.Lists.{any, count_if, first, count_if-first-none}
use autonomous_research_loop.Queue.Types.{Item, State, WorkerPolicy}
use autonomous_research_loop.Queue.Store.{
  Ensures, Ensures-bind, Ensures-if, Ensures-option, Ensures-map, Ensures-all, Ensures-elim,
}
use autonomous_research_loop.Queue.Transitions.{is_running}
use autonomous_research_loop.Queue.Claim.{
  Request, worker_policy, eligible, with_worker, Claim, put, count_claim, started_item,
  accepted_workers, grant_accepted, grant, resume_running,
}
use autonomous_research_loop.Queue.Claim.Select.{
  Walk, is_reserved_for, unclaimed, full_lane, reserve, take_over, drop_reservation, candidate,
  taken_item, reserved_item, start_if_eligible, after_walk, cascade, walk,
}
use autonomous_research_loop.Queue.Claim.Next.{
  runs_for, is_stray, is_own, released_stray, claim_from, claim_waiting, release_stray,
}
use autonomous_research_loop.Queue.Claim.Walk.{Ends, walk-Ends}
use autonomous_research_loop.Queue.Invariant.{
  one_if, count_if-modify_const, count_if-modify, count_if-map, count_if-modify_first,
}

-- How many items a worker runs.
abbrev pub runners : String → State → ℕ
runners worker s = count_if (runs_for worker) s.items

pub items-count_claim :
    (s : State) (worker : String) (p : WorkerPolicy) → (count_claim s worker p).items ≡ s.items
unfolding count_claim
items-count_claim s worker p = ground arith

grant_accepted-runners :
    (w : String) (r : Request) (p : WorkerPolicy) (s : State) (i : Item) (accepted : List String)
    → runners w (grant_accepted r p s i accepted).1 ≤ runners w s + one_if (r.worker == w)
unfolding grant_accepted
grant_accepted-runners w r p s i accepted = ground (
  arith,
  items-count_claim s r.worker p,
  count_if-modify_const (runs_for w) i.id (started_item r accepted i) s.items,
)

-- From `s`, the worker runs one item more at most, and any other worker none.
abbrev OneMore : String → String → State → Claim × State → Type 0
OneMore w worker s out = runners w out.1 ≤ runners w s + one_if (worker == w)

module _ (w : String) (r : Request) (p : WorkerPolicy) where
  grant-OneMore : (s : State) (i : Item) → Ensures (OneMore w r.worker s) (grant r p s i)
  unfolding grant
  grant-OneMore s i =
      Ensures-bind (OneMore w r.worker s) (accepted_workers i) _
        λ accepted _. grant_accepted-runners w r p s i accepted

  start_if_eligible-OneMore :
      (s : State) (o : Option Item) → Ensures (OneMore w r.worker s) (start_if_eligible r p s o)
  unfolding start_if_eligible
  start_if_eligible-OneMore s none = omega arith
  start_if_eligible-OneMore s (some i) =
      Ensures-bind (OneMore w r.worker s) (eligible s r.now i) _
        λ b _. Ensures-if (OneMore w r.worker s) b _ _ (λ _. grant-OneMore s i) (λ _. omega arith)

  -- An item that the walk takes over does not run, so the handover makes nobody run it.
  taken-runners :
      (s : State) (i : Item)
      → is_running i.status ≡ false
      → runners w (put s i.id (taken_item r i)) ≤ runners w s
  taken-runners s i h =
      ground (arith, count_if-modify_const (runs_for w) i.id (taken_item r i) s.items)

  healed-runners :
      (s : State) → count_if (runs_for w) (map (drop_reservation r.worker) s.items) ≤ runners w s
  unfolding drop_reservation
  healed-runners s =
      count_if-map (runs_for w) (drop_reservation r.worker) (λ i. ground arith) s.items

  after_walk-OneMore :
      (s : State) (end : Walk)
      → Ends r s end
      → Ensures (OneMore w r.worker s) (after_walk r p s end)
  unfolding after_walk
  after_walk-OneMore s unclaimed h =
      Ensures-bind (OneMore w r.worker s) (candidate r s s.items) _
        λ found _. start_if_eligible-OneMore s found
  after_walk-OneMore s full_lane h = omega arith
  after_walk-OneMore s (reserve i) h =
      omega
        (arith, count_if-modify (runs_for w) (reserved_item r) (λ _ counted. counted) i.id s.items)
  after_walk-OneMore s (take_over i) h =
      let s' = put s i.id (taken_item r i) in
      Ensures-map (OneMore w r.worker s') (OneMore w r.worker s) _
        (λ out bound. omega (arith, taken-runners s i h.idle)) (grant-OneMore s' (taken_item r i))

  cascade-OneMore : (s : State) → Ensures (OneMore w r.worker s) (cascade r p s)
  unfolding cascade
  cascade-OneMore s =
      Ensures-if (OneMore w r.worker s)
        (any (λ i. is_reserved_for r.worker i && is_running i.status) s.items) _ _
        (λ _. omega arith)
        λ _.
          let healed = record s { items = map (drop_reservation r.worker) s.items } in
          Ensures-bind (OneMore w r.worker s) (walk r healed healed.items) _ λ end e.
            Ensures-map (OneMore w r.worker healed) (OneMore w r.worker s) _
              (λ out bound. omega (arith, healed-runners s))
              (after_walk-OneMore healed end
                (Ensures-elim (Ends r healed) _ (walk-Ends r healed healed.items (λ _ m. m)) e))

module _ (w : String) (r : Request) where
  release_stray-runners : (s : State) → runners w (release_stray r s) ≤ runners w s
  unfolding release_stray
  release_stray-runners s =
      count_if-modify_first (runs_for w) (is_stray r) (released_stray r.now) (λ i. ground arith)
        s.items

  claim_waiting-OneMore : (s : State) → Ensures (OneMore w r.worker s) (claim_waiting r s)
  unfolding claim_waiting
  claim_waiting-OneMore s =
      let kept = release_stray r s in
      Ensures-bind (OneMore w r.worker s) (worker_policy s r.worker) _ λ p _.
        Ensures-map (OneMore w r.worker kept) (OneMore w r.worker s) _
          (λ out bound. omega (arith, release_stray-runners s))
          (Ensures-option (OneMore w r.worker kept) (first (is_own r) kept.items) _ _
            (λ _. cascade-OneMore w r p kept)
            (λ own _. start_if_eligible-OneMore w r p kept (some own)))

-- At most one running item for each worker.
abbrev pub SingleRunner : State → Type 0
SingleRunner s = (w : String) → runners w s ≤ 1

abbrev SingleRunnerAfter : Claim × State → Type 0
SingleRunnerAfter out = SingleRunner out.1

module _ (r : Request) (s : State) (single : SingleRunner s) where
  bound_after :
      first (runs_for r.worker) s.items ≡ none
      → (out : Claim × State) → ((w : String) → OneMore w r.worker s out)
      → SingleRunnerAfter out
  bound_after runs_none out more w = ground (
    arith,
    more w,
    single w,
    eq_iff r.worker w,
    λ (e : r.worker ≡ w).
        subst (λ v. runners v s ≡ 0) e (count_if-first-none (runs_for r.worker) s.items runs_none),
  )

  claim_waiting-SingleRunner :
      first (runs_for r.worker) s.items ≡ none → Ensures SingleRunnerAfter (claim_waiting r s)
  claim_waiting-SingleRunner runs_none =
      Ensures-map (λ out. (w : String) → OneMore w r.worker s out) SingleRunnerAfter _
        (bound_after runs_none)
        (Ensures-all (λ w. OneMore w r.worker s) (claim_waiting r s)
          (λ w. claim_waiting-OneMore w r s))

  resume_running-SingleRunner : (own : Item) → Ensures SingleRunnerAfter (resume_running r s own)
  unfolding resume_running
  resume_running-SingleRunner own =
      Ensures-bind SingleRunnerAfter (accepted_workers own) _ λ accepted _ w.
        le_trans
          (count_if-modify (runs_for w)
            (λ i. record i { accepted_by_workers = with_worker r.worker accepted }) (λ _ runs. runs)
            own.id s.items)
          (single w)

  -- A claim keeps the property that no worker runs two items.
  pub claim_from-SingleRunner : Ensures SingleRunnerAfter (claim_from r s)
  unfolding claim_from
  claim_from-SingleRunner =
      Ensures-if SingleRunnerAfter (s.paused || s.stopping) _ _ (λ _. single)
        λ _. Ensures-bind SingleRunnerAfter (worker_policy s r.worker) _ λ _ _.
          Ensures-option SingleRunnerAfter (first (runs_for r.worker) s.items) _ _
            claim_waiting-SingleRunner (λ own _. resume_running-SingleRunner own)
