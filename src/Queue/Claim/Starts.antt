-- ===== src/Queue/Claim/Starts.antt =====
-- `claim_next` starts only what the rules let the worker have.
use mathlib.Core.List.{Memᴰ}
use mathlib.Core.Path.{subst}
use autonomous_research_loop.Prelude.{
  ◌+◌, ◌≡◌, refl, ap, sym, ◌∙◌, Bool, true, false, ◌&&◌, ◌||◌, ◌⊎◌, inl, inr, Option, some, List,
  [], ◌∷◌, map, arith, and_right, Bool-cases,
}
use autonomous_research_loop.Prelude.Lists.{any, first, first-test}
use autonomous_research_loop.Queue.Types.{Item, State, WorkerPolicy}
use autonomous_research_loop.Queue.Store.{
  Ensures, Ensures-bind, Ensures-if, Ensures-option, Ensures-map, Ensures-elim, modify_first,
}
use autonomous_research_loop.Queue.Transitions.{is_running}
use autonomous_research_loop.Queue.Claim.{
  Request, in_lanes, lane_limit, lane_capacity_ok, accepted_workers, resume_running, worker_policy,
}
use autonomous_research_loop.Queue.Claim.Select.{is_reserved_for, drop_reservation, cascade, walk}
use autonomous_research_loop.Queue.Claim.Walk.{Ends, walk-Ends}
use autonomous_research_loop.Queue.Claim.Origin.{
  Unseen, dependencies_cong, is_done-map, running_in-map, is_done-modify_first,
  running_in-modify_first,
}
use autonomous_research_loop.Queue.Claim.Next.{
  is_own, is_stray, released_stray, release_stray, claim_waiting, claim_from, runs_for,
}
use autonomous_research_loop.Queue.Claim.Startable.{
  Fair, Startable, Started, Starts, Offered, Starts-none, some_eq, start_if_eligible-Starts,
  after_walk-Starts,
}

-- Where an element of a changed list comes from.
Mem-map :
    (f : Item → Item) (items : List Item) {i : Item}
    → Memᴰ i (map f items)
    → (j : Item) × Memᴰ j items × (i ≡ f j)
Mem-map f [] m = elim m [ ]
Mem-map f (j ∷ js) (Memᴰ.head e) = (j, Memᴰ.head refl, e)
Mem-map f (j ∷ js) (Memᴰ.tail m) = let (k, m', e) = Mem-map f js m in (k, Memᴰ.tail m', e)

Mem-cons : {i a : Item} {l : List Item} → Memᴰ i (a ∷ l) → (i ≡ a) ⊎ Memᴰ i l
Mem-cons (Memᴰ.head e) = inl e
Mem-cons (Memᴰ.tail m) = inr m

Mem-modify_first :
    (test : Item → Bool) (f : Item → Item) (items : List Item) {i : Item}
    → Memᴰ i (modify_first test f items)
    → Memᴰ i items ⊎ ((j : Item) × (test j ≡ true) × (i ≡ f j))
unfolding modify_first
Mem-modify_first test f [] m = elim m [ ]
Mem-modify_first test f (j ∷ js) {i} m = elim (Bool-cases (test j)) [
  | inl t ↦
      let m' : Memᴰ i (f j ∷ js) = rw t at m in
      elim (Mem-cons m') [ inl e ↦ inr (j, t, e) | inr k ↦ inl (Memᴰ.tail k) ]
  | inr t ↦
      let m' : Memᴰ i (j ∷ modify_first test f js) = rw t at m in
      elim (Mem-cons m') [
        | inl e ↦ inl (Memᴰ.head e)
        | inr k ↦ elim (Mem-modify_first test f js k) [
          | inl k' ↦ inl (Memᴰ.tail k')
          | inr found ↦ inr found
        ]
      ]
]

Mem-first : (p : Item → Bool) (items : List Item) {i : Item} → first p items ≡ some i → Memᴰ i items
Mem-first p [] h = cc
Mem-first p (j ∷ js) h = elim (Bool-cases (p j)) [
  | inl e ↦ Memᴰ.head (sym (some_eq (rw e at h)))
  | inr e ↦ Memᴰ.tail (Mem-first p js (rw e at h))
]

resumed_flag :
    {x y : Item} {A : Type 0}
    → ◌≡◌ {A = Option (Item × Bool)} (some (y, true)) (some (x, false))
    → A
resumed_flag h = cc

module _ (r : Request) (s : State) where
  abbrev healed : State
  healed = record s { items = map (drop_reservation r.worker) s.items }

  drop_reservation-Unseen : Unseen (drop_reservation r.worker)
  unfolding drop_reservation
  drop_reservation-Unseen = record {
    same_id = λ i. ground arith;
    same_definition = λ i. ground arith;
    same_status = λ i. ground arith;
  }

  drop_reservation-kept :
      (i : Item)
      → ((drop_reservation r.worker i).desired_state ≡ i.desired_state)
        × ((drop_reservation r.worker i).claimed_by ≡ i.claimed_by)
        × ((drop_reservation r.worker i).attempts ≡ i.attempts)
  unfolding drop_reservation
  drop_reservation-kept i = ground arith

  -- What may be started once the reservations are healed, may be started before.
  healed-Startable : (j : Item) → Startable r healed (drop_reservation r.worker j) → Startable r s j
  unfolding lane_capacity_ok lane_limit
  healed-Startable j h =
      let u = drop_reservation-Unseen in
      let (wanted, claimed, _) = drop_reservation-kept j in
      record {
        waiting = rw (u.same_status j) at (h.waiting);
        wanted = rw wanted at (h.wanted);
        served = rw (u.same_definition j) at (h.served);
        ready = cc (
          h.ready,
          u.same_id j,
          u.same_definition j,
          dependencies_cong healed.items s.items (is_done-map (drop_reservation r.worker) u s.items)
              j.id j.depends_on,
        );
        room = ground (
          arith,
          h.room,
          u.same_definition j,
          running_in-map (drop_reservation r.worker) u j.lane s.items,
        );
        fair = rw claimed at (h.fair);
      }

  healed-Started : (x : Item) → Started r healed x → Started r s x
  healed-Started x h =
      let u = drop_reservation-Unseen in
      let (j, m, e) = Mem-map (drop_reservation r.worker) s.items h.member in
      let (_, _, attempts) = drop_reservation-kept j in
      record {
        before = j;
        member = m;
        startable = healed-Startable j (subst (Startable r healed) e h.startable);
        same_id = h.same_id ∙ ap (λ (i : Item). i.id) e ∙ u.same_id j;
        same_definition =
            h.same_definition ∙ ap (λ (i : Item). i.definition) e ∙ u.same_definition j;
        counted = h.counted ∙ ap (λ (i : Item). i.attempts + 1) e ∙ ap (λ n. n + 1) attempts;
        runs = h.runs;
        held = h.held;
      }

  cascade-Starts : (p : WorkerPolicy) → Ensures (Starts r s) (cascade r p s)
  unfolding cascade
  cascade-Starts p =
      Ensures-if (Starts r s) (any (λ i. is_reserved_for r.worker i && is_running i.status) s.items)
        _ _ (λ _. Starts-none r s s)
        λ _. Ensures-bind (Starts r s) (walk r healed healed.items) _ λ end e.
          Ensures-map (Starts r healed) (Starts r s) _
            (λ out starts x h. healed-Started x (starts x h))
            (after_walk-Starts r p healed end
              (Ensures-elim (Ends r healed) _ (walk-Ends r healed healed.items (λ _ m. m)) e))

  released_stray-Unseen : Unseen (released_stray r.now)
  released_stray-Unseen = record {
    same_id = λ i. refl;
    same_definition = λ i. refl;
    same_status = λ i. refl;
  }

  -- A released stray is in no lane of the worker, so it is not what a claim starts.
  kept-Startable : (j : Item) → Startable r (release_stray r s) j → Startable r s j
  unfolding lane_capacity_ok lane_limit release_stray
  kept-Startable j h = record {
    waiting = h.waiting;
    wanted = h.wanted;
    served = h.served;
    ready = cc (
      h.ready,
      dependencies_cong (release_stray r s).items s.items
          (is_done-modify_first (released_stray r.now) released_stray-Unseen (is_stray r) s.items)
          j.id j.depends_on,
    );
    room = ground (
      arith,
      h.room,
      running_in-modify_first (released_stray r.now) released_stray-Unseen (is_stray r) j.lane
          s.items,
    );
    fair = h.fair;
  }

  kept-Started : (x : Item) → Started r (release_stray r s) x → Started r s x
  unfolding release_stray
  kept-Started x h = elim (Mem-modify_first (is_stray r) (released_stray r.now) s.items h.member) [
    | inl m ↦ record {
      before = h.before;
      member = m;
      startable = kept-Startable h.before h.startable;
      same_id = h.same_id;
      same_definition = h.same_definition;
      counted = h.counted;
      runs = h.runs;
      held = h.held;
    }
    | inr (j, stray, e) ↦
        let served : in_lanes r j ≡ true = sym (ap (in_lanes r) e) ∙ h.startable.served in
        absurd (ground (arith, served, stray))
  ]

  is_own-Offered :
      (p : WorkerPolicy) {own : Item}
      → first (is_own r) s.items ≡ some own
      → Offered r p s (some own)
  is_own-Offered p {own} e i h =
      let t = first-test (is_own r) s.items e in
      subst (λ (k : Item). Memᴰ k s.items × (in_lanes r k ≡ true) × Fair r k) (some_eq h)
        (Mem-first (is_own r) s.items e, and_right _ _ t, inr (inl (ground (arith, t))))

module _ (r : Request) (s : State) where
  claim_waiting-Starts : Ensures (Starts r s) (claim_waiting r s)
  unfolding claim_waiting
  claim_waiting-Starts =
      let kept = release_stray r s in
      Ensures-bind (Starts r s) (worker_policy s r.worker) _ λ p _.
        Ensures-map (Starts r kept) (Starts r s) _
          (λ out starts x h. kept-Started r s x (starts x h))
          (Ensures-option (Starts r kept) (first (is_own r) kept.items) _ _
            (λ _. cascade-Starts r kept p)
            (λ own e. start_if_eligible-Starts r p kept (some own) (is_own-Offered r kept p e)))

  resume_running-Starts : (own : Item) → Ensures (Starts r s) (resume_running r s own)
  unfolding resume_running
  resume_running-Starts own =
      Ensures-bind (Starts r s) (accepted_workers own) _ λ accepted _ x h. resumed_flag h

  -- What a claim starts stood waiting in the queue, in a lane of the worker, with its dependencies
  -- completed and room in its lane, held by nobody, by the worker, or by a slower station; and it
  -- runs now for the worker, as one attempt more.
  pub claim_from-Starts : Ensures (Starts r s) (claim_from r s)
  unfolding claim_from
  claim_from-Starts =
      Ensures-if (Starts r s) (s.paused || s.stopping) _ _ (λ _. Starts-none r s s)
        λ _. Ensures-bind (Starts r s) (worker_policy s r.worker) _ λ _ _.
          Ensures-option (Starts r s) (first (runs_for r.worker) s.items) _ _
            (λ _. claim_waiting-Starts) (λ own _. resume_running-Starts own)
