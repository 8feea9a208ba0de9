-- ===== src/Queue/Sync/Tests.antt =====
-- Tests of the cycle search and of the manifest's merge.
use autonomous_research_loop.Prelude.{String, ◌≡◌, ◌≢◌, ◌↔◌, refl, true, none, some, [], ◌∷◌}
use autonomous_research_loop.Queue.Types.{Definition, Item, Status}
use autonomous_research_loop.Queue.Transitions.{is_running}
use autonomous_research_loop.Queue.Cycle.{Graph, out_of_fuel, search, find_dependency_cycle}
use autonomous_research_loop.Queue.Cycle.Search.{Depends, search-fuel}
use autonomous_research_loop.Queue.Cycle.Decides.{find_dependency_cycle-decides}
use autonomous_research_loop.Queue.Sync.{merge}
use autonomous_research_loop.Queue.Sync.Items.{SameProtected, merge-history}
use autonomous_research_loop.Queue.Tests.{definition, rivers}

-- Two ids in a ring, and one that depends on them and on an id that is not there.
abbrev ring : Graph
ring = ("lakes", "rivers" ∷ []) ∷ ("deltas", "lakes" ∷ "seas" ∷ []) ∷ ("rivers", "lakes" ∷ []) ∷ []

search-fuel_example : search ring ≢ out_of_fuel
search-fuel_example = search-fuel ring

find_dependency_cycle-decides_example :
    ((k : String) → find_dependency_cycle ring ≡ some k → Depends ring k k)
    × ((find_dependency_cycle ring ≡ none) ↔ ((a : String) → ¬ Depends ring a a))
find_dependency_cycle-decides_example = find_dependency_cycle-decides ring

ring-cycle : find_dependency_cycle ring ≡ some "lakes"
unfolding find_dependency_cycle
ring-cycle = refl

abbrev running_rivers : Item
running_rivers = record rivers { status = Status.running }

-- A manifest that renames the running topic and drops its dependency.
abbrev renamed : Definition
renamed = record definition { title = "Rivers"; depends_on = [] }

merge-history_example :
    (record (merge renamed 500 running_rivers).item {
      definition = running_rivers.definition;
      updated_at = running_rivers.updated_at;
    }
      ≡ running_rivers)
    × (is_running Status.running ≡ true
        → SameProtected
            (merge renamed 500 running_rivers).item.definition
            running_rivers.definition)
merge-history_example = merge-history renamed 500 running_rivers
