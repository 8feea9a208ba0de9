-- ===== src/Queue/Cycle.antt =====
-- research_loops/queue.py: `find_dependency_cycle`. The search is on fuel: the recursion of `visit`
-- goes no deeper than the ids of the graph, and one more.
pub mod Search
pub mod Decides
use autonomous_research_loop.Prelude.{
  ℕ, zero, suc, ◌+◌, String, Bool, true, false, Option, none, some, List, [], ◌∷◌, map,
  if◌then◌else◌, ◌==◌,
}
use autonomous_research_loop.Prelude.Lists.{length, mem, lookup}

-- A mapping of ids to the ids that they depend on.
abbrev pub Graph : Type 0
Graph = List (String × List String)

-- graph.get(item_id, [])
unfoldable pub depends : Graph → String → List String
unfolding lookup
depends g k = elim (lookup k g) [ none ↦ [] | some ds ↦ ds ]

abbrev pub keys : Graph → List String
keys [] = []
keys ((k, ds) ∷ g) = k ∷ keys g

-- The sets `visiting` and `visited`, the latest member first.
pub record Marks : Type 0 where
  pub visiting : List String
  pub visited : List String

-- visiting.remove(item_id)
unfoldable pub discard : String → List String → List String
discard k [] = []
discard k (x ∷ xs) = let rest = discard k xs in if x == k then rest else x ∷ rest

pub data Visit : Type 0 where
  cycle : String → Visit
  clear : Marks → Visit
  out_of_fuel : Visit

abbrev pub enter : String → Marks → Marks
enter k m = record m { visiting = k ∷ m.visiting }

unfoldable pub leave : String → Marks → Marks
unfolding discard
leave k m = record { visiting = discard k m.visiting; visited = k ∷ m.visited }

-- `visit` of each of the ids, until one finds a cycle.
unfoldable pub visit_all : ℕ → Graph → List String → Marks → Visit
unfolding mem depends leave
visit_all n g [] m = clear m
visit_all zero g (k ∷ ks) m = out_of_fuel
visit_all (suc n) g (k ∷ ks) m = elim (mem k m.visiting) [
  | true ↦ cycle k
  | false ↦ elim (mem k m.visited) [
    | true ↦ visit_all (suc n) g ks m
    | false ↦ elim (visit_all n g (depends g k) (enter k m)) [
      | clear left ↦ visit_all (suc n) g ks (leave k left)
      | cycle found ↦ cycle found
      | out_of_fuel ↦ out_of_fuel
    ]
  ]
]

abbrev pub start : Marks
start = record { visiting = []; visited = [] }

unfoldable pub search : Graph → Visit
unfolding visit_all
search g = visit_all (suc (length (keys g))) g (keys g) start

unfoldable pub find_dependency_cycle : Graph → Option String
unfolding search
find_dependency_cycle g = elim (search g) [ cycle k ↦ some k | clear m ↦ none | out_of_fuel ↦ none ]
