-- ===== src/Control/Records.antt =====
-- research_loops/control_store.py: the stations' records under the writes of the scheduler.
use autonomous_research_loop.Prelude.{
  ℕ, String, ◌≡◌, refl, sym, ap, ◌∙◌, Bool, true, false, List, [], ◌∷◌, ◌||◌, ◌==◌, eq_iff, arith,
  if◌then◌else◌, inl, inr, ◌⊎◌, Bool-cases,
}
use autonomous_research_loop.Prelude.Int.{ℤ}
use autonomous_research_loop.Prelude.Lists.{lookup, insert, lookup-insert}
use autonomous_research_loop.Queue.Types.{Item}
use autonomous_research_loop.Control.Types.{Assignment, Topic, Work, Logical}
use autonomous_research_loop.Control.Schedule.{
  Assignments, key, assignment_of, blank_assignment, leave_idle, clear_desired, drain, deal_station,
  deal, topics_after, executing_topics, candidates_of, station_ids, reconcile_state,
}
use autonomous_research_loop.Control.Compact.{prune_topics, referenced_runs, run_topics, compact}
use autonomous_research_loop.Control.Finalize.{update_entry}
use autonomous_research_loop.Control.Station.{ensure_assignment}

pub assignment_of-insert :
    (k j : String) (r : Assignment) (table : Assignments)
    → assignment_of j (insert k r table) ≡ (if k == j then r else assignment_of j table)
unfolding assignment_of
assignment_of-insert k j r table = ground (arith, lookup-insert k j r table)

pub assignment_of-ensure_assignment :
    (k j : String) (table : Assignments)
    → assignment_of j (ensure_assignment k table) ≡ assignment_of j table
unfolding assignment_of ensure_assignment
assignment_of-ensure_assignment k j table =
    ground (arith, lookup-insert k j blank_assignment table, eq_iff k j)

-- What a round of the deal leaves of a record: all but its desired topic and its drain marks.
pub deal_station-current :
    (active : ℤ) (now : ℕ) (topics : List (String × Topic)) (n : ℕ) (r : Assignment)
    (is : List Item)
    → ((deal_station active now topics n r is).0.current ≡ r.current)
      × ((deal_station active now topics n r is).0.lease_generation ≡ r.lease_generation)
unfolding deal_station drain
deal_station-current active now topics n r is = (ground arith, ground arith)

pub if-both {ℓ} :
    {A : Type ℓ} (P : A → Type 0) (test : Bool) {a b : A} → P a → P b → P (if test then a else b)
if-both P true yes_case no_case = yes_case
if-both P false yes_case no_case = no_case

-- What is seen of a record, where neither a round of the deal nor a cleared topic changes it.
module _ {X : Type 0} (seen : Assignment → X)
    (seen-round : (active : ℤ) (now : ℕ) (topics : List (String × Topic)) (n : ℕ) (r : Assignment)
        (is : List Item)
      → seen (deal_station active now topics n r is).0 ≡ seen r)
    (seen-idle : (r : Assignment) → seen (leave_idle r) ≡ seen r) (j : String) where
  pub seen-insert :
      (k : String) (r : Assignment) (table : Assignments)
      → seen r ≡ seen (assignment_of k table)
      → seen (assignment_of j (insert k r table)) ≡ seen (assignment_of j table)
  seen-insert k r table same =
      ap seen (assignment_of-insert k j r table) ∙ elim (Bool-cases (k == j)) [
        | inl e ↦ rw e (same ∙ ap (λ i. seen (assignment_of i table)) ((eq_iff k j).0 e))
        | inr e ↦ rw e refl
      ]

  seen-deal :
      (active : ℤ) (now : ℕ) (topics : List (String × Topic)) (ns : List ℕ) (is : List Item)
      (table : Assignments)
      → seen (assignment_of j (deal active now topics ns is table)) ≡ seen (assignment_of j table)
  unfolding deal
  seen-deal active now topics [] is table = refl
  seen-deal active now topics (n ∷ ns) is table =
      let round = deal_station active now topics n (assignment_of (key n) table) is in
      seen-deal active now topics ns round.1 (insert (key n) round.0 table)
      ∙ seen-insert (key n) round.0 table
          (seen-round active now topics n (assignment_of (key n) table) is)

  seen-clear :
      (table : Assignments)
      → seen (assignment_of j (clear_desired table)) ≡ seen (assignment_of j table)
  unfolding assignment_of lookup
  seen-clear [] = refl
  seen-clear ((k, r) ∷ table) = ground (arith, seen-clear table, seen-idle r)

  pub seen-reconcile_state :
      (now : ℕ) (s : Logical)
      → seen (assignment_of j (reconcile_state now s).work.assignments)
        ≡ seen (assignment_of j s.work.assignments)
  unfolding reconcile_state
  seen-reconcile_state now s =
      if-both
        (λ (v : Logical).
          seen (assignment_of j v.work.assignments) ≡ seen (assignment_of j s.work.assignments))
        (s.queue.paused || s.queue.stopping) (seen-clear s.work.assignments)
        (seen-deal s.configuration.active_count now
          (topics_after (executing_topics s.work.assignments) s.queue.items s.work.topics)
          station_ids (candidates_of now s) s.work.assignments)

-- The update of one record changes no other.
pub assignment_of-update_entry :
    (k j : String) (f : Assignment → Assignment) (table : Assignments)
    → (assignment_of j (update_entry k f table) ≡ assignment_of j table)
      ⊎ ((k ≡ j) × (assignment_of j (update_entry k f table) ≡ f (assignment_of j table)))
unfolding assignment_of lookup update_entry
assignment_of-update_entry k j f [] = inl refl
assignment_of-update_entry k j f ((i, r) ∷ table) = elim (Bool-cases (i == k)) [
  | inl e ↦ elim (Bool-cases (i == j)) [
    | inl e' ↦ inr (sym ((eq_iff i k).0 e) ∙ (eq_iff i j).0 e', ground (arith, e, e'))
    | inr e' ↦ inl (ground (arith, e, e'))
  ]
  | inr e ↦ elim (Bool-cases (i == j)) [
    | inl e' ↦ inl (ground (arith, e, e'))
    | inr e' ↦ elim (assignment_of-update_entry k j f table) [
      | inl same ↦ inl (ground (arith, e, e', same))
      | inr (here, new) ↦ inr (here, ground (arith, e, e', new))
    ]
  ]
]

prune_topics-assignments :
    (referenced ts : List String) (w : Work)
    → (prune_topics referenced ts w).assignments ≡ w.assignments
unfolding prune_topics
prune_topics-assignments referenced [] w = refl
prune_topics-assignments referenced (t ∷ ts) w = prune_topics-assignments referenced ts _

-- Compacting the ledgers leaves the stations' records.
pub compact-assignments : (s : Logical) → (compact s).work.assignments ≡ s.work.assignments
unfolding compact
compact-assignments s =
    prune_topics-assignments (referenced_runs s.work.episodes) (run_topics [] s.work.runs) s.work
