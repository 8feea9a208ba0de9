-- ===== src/Queue/Claim/Walk.antt =====
-- What the walk down the queue ends at.
use mathlib.Core.List.{Memᴰ}
use autonomous_research_loop.Prelude.{
  String, ◌≡◌, refl, ap, ◌∙◌, true, false, ◌&&◌, some, List, [], ◌∷◌, arith, ltb, and_left,
  and_right, ◌==◌,
}
use autonomous_research_loop.Queue.Types.{Item, State}
use autonomous_research_loop.Queue.Store.{
  Result, ok, Ensures, Ensures-bind, Ensures-if, Ensures-option,
}
use autonomous_research_loop.Queue.Transitions.{is_running, is_waiting, wants_running}
use autonomous_research_loop.Queue.Claim.{
  Request, in_lanes, holder, station_interval_of, lane_capacity_ok, dependencies_satisfied,
}
use autonomous_research_loop.Queue.Claim.Select.{Walk, take_over, is_active, at_held, at_item, walk}

-- Why the walk takes an item from its holder.
pub record TakesOver (r : Request) (s : State) (i : Item) : Type 0 where
  pub member : Memᴰ i s.items
  pub idle : is_running i.status ≡ false
  pub waiting : is_waiting i.status ≡ true
  pub wanted : wants_running i.desired_state ≡ true
  pub served : in_lanes r i ≡ true
  pub ready : dependencies_satisfied s i ≡ ok true
  pub room : lane_capacity_ok s i ≡ true
  pub held :
      (h : String) × (holder i.claimed_by ≡ some h)
      × (ltb (station_interval_of r r.worker) (station_interval_of r h) ≡ true)

abbrev pub Ends : Request → State → Walk → Type 0
Ends r s (take_over i) = TakesOver r s i
Ends r s _ = Unit

module _ (r : Request) (s : State) (i : Item) (rest : Result Walk) (m : Memᴰ i s.items)
    (h : Ensures (Ends r s) rest) where
  at_held-Ends :
      (k : String)
      → is_active i.status ≡ true
      → wants_running i.desired_state ≡ true
      → in_lanes r i ≡ true
      → dependencies_satisfied s i ≡ ok true
      → holder i.claimed_by ≡ some k
      → Ensures (Ends r s) (at_held r s k i rest)
  unfolding at_held
  at_held-Ends k active wanted served ready held =
      Ensures-if (Ends r s) (k == r.worker) _ _ (λ _. h)
        λ _.
          Ensures-if (Ends r s) (ltb (station_interval_of r r.worker) (station_interval_of r k)) _ _
            (λ slower.
              Ensures-if (Ends r s) (is_running i.status) _ _ (λ _. tt)
                (λ idle.
                  Ensures-if (Ends r s) (lane_capacity_ok s i) _ _
                    (λ room. record {
                      member = m;
                      idle = idle;
                      waiting = ground arith;
                      wanted = wanted;
                      served = served;
                      ready = ready;
                      room = room;
                      held = (k, held, slower);
                    })
                    (λ _. tt)))
            (λ _. h)

  at_item-Ends : Ensures (Ends r s) (at_item r s i rest)
  unfolding at_item
  at_item-Ends =
      Ensures-if (Ends r s) (is_active i.status && wants_running i.desired_state && in_lanes r i) _
        _
        (λ t. Ensures-bind (Ends r s) (dependencies_satisfied s i) _ λ satisfied ready.
          Ensures-if (Ends r s) satisfied _ _
            (λ e.
              Ensures-option (Ends r s) (holder i.claimed_by) _ _ (λ _. tt)
                (λ k held.
                  at_held-Ends k (and_left _ _ (and_left _ _ t)) (and_right _ _ (and_left _ _ t))
                    (and_right _ _ t) (ready ∙ ap ok e) held))
            (λ _. h))
        (λ _. h)

pub walk-Ends :
    (r : Request) (s : State) (items : List Item)
    → ((i : Item) → Memᴰ i items → Memᴰ i s.items)
    → Ensures (Ends r s) (walk r s items)
unfolding walk
walk-Ends r s [] within = tt
walk-Ends r s (i ∷ is) within =
    at_item-Ends r s i (walk r s is) (within i (Memᴰ.head refl))
      (walk-Ends r s is (λ j m. within j (Memᴰ.tail m)))
