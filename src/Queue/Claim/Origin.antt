-- ===== src/Queue/Claim/Origin.antt =====
-- What a claim may start: the item as it stood in the queue before the claim.

use autonomous_research_loop.Prelude.{String, ◌≡◌, refl, Bool, List, [], ◌∷◌, map, arith}
use autonomous_research_loop.Queue.Types.{Item}
use autonomous_research_loop.Queue.Store.{find, modify_first}
use autonomous_research_loop.Queue.Claim.{running_in, is_done, dependencies_from}

-- A change of an item that the rules of a claim do not see.
pub record Unseen (f : Item → Item) : Type 0 where
  pub same_id : (i : Item) → (f i).id ≡ i.id
  pub same_definition : (i : Item) → (f i).definition ≡ i.definition
  pub same_status : (i : Item) → (f i).status ≡ i.status

-- Two queues in which the same ids are completed are the same to the dependencies.
pub dependencies_cong :
    (xs ys : List Item)
    → ((k : String) → is_done xs k ≡ is_done ys k)
    → (id : String) (ds : List String) → dependencies_from xs id ds ≡ dependencies_from ys id ds
unfolding dependencies_from
dependencies_cong xs ys h id [] = refl
dependencies_cong xs ys h id (d ∷ ds) = ground (arith, h d, dependencies_cong xs ys h id ds)

module _ (f : Item → Item) (u : Unseen f) where
  pub is_done-map : (items : List Item) (k : String) → is_done (map f items) k ≡ is_done items k
  unfolding is_done find
  is_done-map [] k = refl
  is_done-map (i ∷ is) k = ground (arith, u.same_id i, u.same_status i, is_done-map is k)

  pub running_in-map :
      (lane : String) (items : List Item) → running_in lane (map f items) ≡ running_in lane items
  unfolding running_in
  running_in-map lane [] = refl
  running_in-map lane (i ∷ is) =
      ground (arith, u.same_status i, u.same_definition i, running_in-map lane is)

  module _ (test : Item → Bool) where
    pub is_done-modify_first :
        (items : List Item) (k : String) → is_done (modify_first test f items) k ≡ is_done items k
    unfolding is_done find modify_first
    is_done-modify_first [] k = refl
    is_done-modify_first (i ∷ is) k =
        ground (arith, u.same_id i, u.same_status i, is_done-modify_first is k)

    pub running_in-modify_first :
        (lane : String) (items : List Item)
        → running_in lane (modify_first test f items) ≡ running_in lane items
    unfolding running_in modify_first
    running_in-modify_first lane [] = refl
    running_in-modify_first lane (i ∷ is) =
        ground (arith, u.same_status i, u.same_definition i, running_in-modify_first lane is)
