-- ===== src/Queue/Claim/Startable.antt =====
-- What `claim_next` starts: an item that stood in the queue and that the rules let the worker have.
use mathlib.Core.List.{Memᴰ}
use mathlib.Core.Path.{subst}
use autonomous_research_loop.Prelude.{
  ℕ, ◌+◌, String, ◌≡◌, refl, ap, ◌∙◌, true, false, ◌&&◌, ◌⊎◌, inl, inr, Option, none, some, List,
  [], ◌∷◌, arith, ltb, and_left, and_right,
}
use autonomous_research_loop.Queue.Types.{Item, State, WorkerPolicy, Status, by}
use autonomous_research_loop.Queue.Store.{ok, Ensures, Ensures-bind, Ensures-if, Ensures-elim}
use autonomous_research_loop.Queue.Transitions.{is_waiting, wants_running, claims}
use autonomous_research_loop.Queue.Claim.{
  Request, in_lanes, holder, station_interval_of, lane_capacity_ok, dependencies_satisfied,
  eligible, Claim, put, alter, accepted_workers, grant_accepted, grant,
}
use autonomous_research_loop.Queue.Claim.Select.{
  Walk, unclaimed, full_lane, reserve, take_over, candidate, is_unclaimed, start_if_eligible,
  taken_item, reserved_item, after_walk,
}
use autonomous_research_loop.Queue.Claim.Walk.{Ends}

-- Nobody holds the item, or the worker does, or a station with a longer interval.
abbrev pub Fair : Request → Item → Type 0
Fair r i =
    (is_unclaimed i ≡ true)
    ⊎ (claims i.claimed_by r.worker ≡ true)
    ⊎ ((h : String) × (holder i.claimed_by ≡ some h)
        × (ltb (station_interval_of r r.worker) (station_interval_of r h) ≡ true))

pub record Startable (r : Request) (s : State) (i : Item) : Type 0 where
  pub waiting : is_waiting i.status ≡ true
  pub wanted : wants_running i.desired_state ≡ true
  pub served : in_lanes r i ≡ true
  pub ready : dependencies_satisfied s i ≡ ok true
  pub room : lane_capacity_ok s i ≡ true
  pub fair : Fair r i

-- The item that a claim starts, and the item that it was before.
pub record Started (r : Request) (s : State) (x : Item) : Type 0 where
  pub before : Item
  pub member : Memᴰ before s.items
  pub startable : Startable r s before
  pub same_id : x.id ≡ before.id
  pub same_definition : x.definition ≡ before.definition
  pub counted : x.attempts ≡ before.attempts + 1
  pub runs : x.status ≡ Status.running
  pub held : x.claimed_by ≡ by r.worker

-- `false` marks a claim that starts an item, and does not hand back one that ran.
abbrev pub Starts : Request → State → Claim × State → Type 0
Starts r s out = (x : Item) → out.0 ≡ some (x, false) → Started r s x

pub Starts-none : (r : Request) (s s' : State) → Starts r s (none, s')
Starts-none r s s' x h = cc

pub some_eq : {A : Type 0} {a b : A} → some a ≡ some b → a ≡ b
some_eq h = cc

module _ (r : Request) (p : WorkerPolicy) (s : State) where
  -- The item `i` that is started, if it is `j` of the queue up to what `grant` overwrites.
  grant_accepted-Starts :
      (s' : State) (i j : Item) (accepted : List String)
      → Memᴰ j s.items
      → Startable r s j
      → i.id ≡ j.id
      → i.definition ≡ j.definition
      → i.attempts ≡ j.attempts
      → Starts r s (grant_accepted r p s' i accepted)
  unfolding grant_accepted
  grant_accepted-Starts s' i j accepted m ok_j e f g x h = record {
    before = j;
    member = m;
    startable = ok_j;
    same_id = ground arith;
    same_definition = ground arith;
    counted = ground arith;
    runs = ground arith;
    held = ground arith;
  }

  grant-Starts :
      (s' : State) (i j : Item)
      → Memᴰ j s.items
      → Startable r s j
      → i.id ≡ j.id
      → i.definition ≡ j.definition
      → i.attempts ≡ j.attempts
      → Ensures (Starts r s) (grant r p s' i)
  unfolding grant
  grant-Starts s' i j m ok_j e f g =
      Ensures-bind (Starts r s) (accepted_workers i) _
        λ accepted _. grant_accepted-Starts s' i j accepted m ok_j e f g

  eligible-Startable :
      (now : ℕ) (i : Item)
      → in_lanes r i ≡ true
      → Fair r i
      → eligible s now i ≡ ok true
      → Startable r s i
  unfolding eligible
  eligible-Startable now i served fair h = record {
    waiting = ground arith;
    wanted = ground arith;
    served = served;
    ready = ground arith;
    room = ground arith;
    fair = fair;
  }

  -- What a choice offers: an item of the queue that the worker serves and may fairly have.
  abbrev pub Offered : Option Item → Type 0
  Offered o = (i : Item) → o ≡ some i → Memᴰ i s.items × (in_lanes r i ≡ true) × Fair r i

  pub start_if_eligible-Starts :
      (o : Option Item) → Offered o → Ensures (Starts r s) (start_if_eligible r p s o)
  unfolding start_if_eligible
  start_if_eligible-Starts none offered = Starts-none r s s
  start_if_eligible-Starts (some i) offered =
      let (m, served, fair) = offered i refl in
      Ensures-bind (Starts r s) (eligible s r.now i) _ λ b e.
        Ensures-if (Starts r s) b _ _
          (λ t.
            grant-Starts s i i m (eligible-Startable r.now i served fair (e ∙ ap ok t)) refl refl
              refl)
          (λ _. Starts-none r s s)

  candidate-Offered :
      (items : List Item)
      → ((i : Item) → Memᴰ i items → Memᴰ i s.items)
      → Ensures Offered (candidate r s items)
  unfolding candidate
  candidate-Offered [] within = λ i h. cc
  candidate-Offered (i ∷ is) within =
      let rest = candidate-Offered is (λ j m. within j (Memᴰ.tail m)) in
      Ensures-if Offered (is_unclaimed i && is_waiting i.status && wants_running i.desired_state) _
        _
        (λ t. Ensures-bind Offered (dependencies_satisfied s i) _ λ satisfied _.
          Ensures-if Offered (satisfied && in_lanes r i) _ _
            (λ u j e.
              subst (λ (k : Item). Memᴰ k s.items × (in_lanes r k ≡ true) × Fair r k) (some_eq e)
                (within i (Memᴰ.head refl), and_right _ _ u, inl (and_left _ _ (and_left _ _ t))))
            (λ _. rest))
        (λ _. rest)

  pub after_walk-Starts : (end : Walk) → Ends r s end → Ensures (Starts r s) (after_walk r p s end)
  unfolding after_walk
  after_walk-Starts unclaimed h = Ensures-bind (Starts r s) (candidate r s s.items) _ λ found e.
      start_if_eligible-Starts found
        (Ensures-elim Offered _ (candidate-Offered s.items (λ i m'. m')) e)
  after_walk-Starts full_lane h = Starts-none r s s
  after_walk-Starts (reserve i) h = Starts-none r s (alter s i.id (reserved_item r))
  after_walk-Starts (take_over i) h =
      grant-Starts (put s i.id (taken_item r i)) (taken_item r i) i h.member
        (record {
          waiting = h.waiting;
          wanted = h.wanted;
          served = h.served;
          ready = h.ready;
          room = h.room;
          fair = inr (inr h.held);
        })
        refl refl refl
