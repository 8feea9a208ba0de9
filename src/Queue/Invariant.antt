-- ===== src/Queue/Invariant.antt =====
-- Lemmas on the items of a queue: what `modify` and `map` keep, counted and for all items.
pub mod Runners
pub mod Keeps
pub mod Single
pub mod Synced
pub mod History
use autonomous_research_loop.Prelude.{
  ℕ, suc, ◌+◌, ◌≤◌, String, ◌≡◌, refl, Bool, true, false, inl, inr, List, [], ◌∷◌, map, arith, ◌==◌,
  if◌then◌else◌, Bool-cases,
}
use autonomous_research_loop.Prelude.Lists.{count_if, All}
use autonomous_research_loop.Queue.Types.{Item}
use autonomous_research_loop.Queue.Store.{modify, modify_first}

abbrev pub one_if : Bool → ℕ
one_if b = if b then 1 else 0

module _ (p : Item → Bool) where
  -- Writing an item over another adds one to a count at most, and only if the new item is counted.
  pub count_if-modify_const :
      (k : String) (x : Item) (items : List Item)
      → count_if p (modify k (λ _. x) items) ≤ count_if p items + one_if (p x)
  unfolding modify
  count_if-modify_const k x [] = omega arith
  count_if-modify_const k x (i ∷ is) = ground (arith, count_if-modify_const k x is)

  -- A change that makes no item count does not raise the count.
  pub count_if-modify :
      (f : Item → Item)
      → ((i : Item) → p (f i) ≡ true → p i ≡ true)
      → (k : String) (items : List Item) → count_if p (modify k f items) ≤ count_if p items
  unfolding modify
  count_if-modify f h k [] = omega arith
  count_if-modify f h k (i ∷ is) = ground (arith, count_if-modify f h k is, h i)

  pub count_if-map :
      (f : Item → Item)
      → ((i : Item) → p (f i) ≡ true → p i ≡ true)
      → (items : List Item) → count_if p (map f items) ≤ count_if p items
  count_if-map f h [] = omega arith
  count_if-map f h (i ∷ is) = ground (arith, count_if-map f h is, h i)

  pub count_if-modify_first :
      (test : Item → Bool) (f : Item → Item)
      → ((i : Item) → p (f i) ≡ true → p i ≡ true)
      → (items : List Item) → count_if p (modify_first test f items) ≤ count_if p items
  unfolding modify_first
  count_if-modify_first test f h [] = omega arith
  count_if-modify_first test f h (i ∷ is) = ground (arith, count_if-modify_first test f h is, h i)
