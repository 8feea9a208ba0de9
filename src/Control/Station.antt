-- ===== src/Control/Station.antt =====
-- research_loops/control_store.py: `station_id`; what the scheduler's operations share.
use autonomous_research_loop.Prelude.{
  ℕ, String, not, ◌&&◌, ◌||◌, Option, none, some, nat_beq, if◌then◌else◌, ◌==◌,
}
use autonomous_research_loop.Prelude.Int.{ℤ, pos, negsuc, below}
use autonomous_research_loop.Prelude.Lists.{lookup, insert}
use autonomous_research_loop.Control.Types.{Logical}
use autonomous_research_loop.Control.Store.{Outcome, raised, returned, station_reference}
use autonomous_research_loop.Control.Schedule.{Assignments, blank_assignment}

-- The argument `station`, which names a station by its number or by a text.
pub data Reference : Type 0 where
  number : ℤ → Reference
  text : String → Reference

-- (?:station-)?([1-5])\Z
abbrev pub station_named : String → Option ℕ
station_named t =
    if t == "1" || t == "station-1"
    then some 1
    else if t == "2" || t == "station-2"
    then some 2
    else if t == "3" || t == "station-3"
    then some 3
    else if t == "4" || t == "station-4"
    then some 4
    else if t == "5" || t == "station-5"
    then some 5
    else none

unfoldable pub station_id : Reference → Outcome ℕ
station_id (number (pos n)) =
    if not (nat_beq n 0) && below (pos n) 6 then returned n else raised station_reference
station_id (number (negsuc n)) = raised station_reference
station_id (text t) = elim (station_named t) [
  | none ↦ raised station_reference
  | some n ↦ returned n
]

abbrev pub Operation : Type 0 → Type 0
Operation A = Logical → Outcome (A × Logical)

abbrev pub with_assignments : Assignments → Logical → Logical
with_assignments table s = record s { work = record s.work { assignments = table } }

-- assignments.setdefault(key, {})
unfoldable pub ensure_assignment : String → Assignments → Assignments
unfolding lookup insert
ensure_assignment k table = elim (lookup k table) [
  | none ↦ insert k blank_assignment table
  | some r ↦ table
]
