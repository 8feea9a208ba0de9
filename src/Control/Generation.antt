-- ===== src/Control/Generation.antt =====
-- research_loops/control_store.py: the generation of a station's lease, and a lease that has ended.
use mathlib.Core.Path.{subst}
use autonomous_research_loop.Prelude.{
  ℕ, ◌+◌, ◌≤◌, String, ◌≡◌, refl, sym, ap, not, nat_beq, Option, none, some, List, inl, inr, ◌==◌,
  eq_iff, arith, Bool-cases,
}
use autonomous_research_loop.Prelude.Int.{below}
use autonomous_research_loop.Prelude.Lists.{insert}
use autonomous_research_loop.Control.Types.{set, Assignment, Logical}
use autonomous_research_loop.Control.Store.{
  require, queue_revision_conflict, order_invalid, capacity_disabled,
}
use autonomous_research_loop.Control.Schedule.{
  Assignments, key, assignment_of, is_future, reconcile_state,
}
use autonomous_research_loop.Control.Compact.{compact}
use autonomous_research_loop.Control.Station.{with_assignments, ensure_assignment}
use autonomous_research_loop.Control.Claim.{
  Claimed, generation_of, hold, mint, grant, claim_desired, claim_body,
}
use autonomous_research_loop.Control.Claim.Cases.{claim_desired-cases}
use autonomous_research_loop.Control.Finalize.{
  update_entry, vacate, current_is, end_lease, finalize_body, confirm_body,
}
use autonomous_research_loop.Control.Operator.{
  Update, updated_configuration, is_reordering, item_ids, pick, update_body, reorder_body,
}
use autonomous_research_loop.Control.Machine.{
  Action, run, run-Holds, Holds, Holds->>=, Holds-option,
}
use autonomous_research_loop.Control.Records.{
  assignment_of-insert, assignment_of-ensure_assignment, assignment_of-update_entry,
  compact-assignments, deal_station-current, seen-reconcile_state, if-both,
}

abbrev pub generation : String → Logical → ℕ
generation k s = generation_of (assignment_of k s.work.assignments)

reconcile_state-generation :
    (k : String) (now : ℕ) (s : Logical) → generation k (reconcile_state now s) ≡ generation k s
reconcile_state-generation k now s =
    ap (λ g. elim g [ none ↦ 0 | some m ↦ m ])
      (seen-reconcile_state (λ r. r.lease_generation)
        (λ active at topics n r is. (deal_station-current active at topics n r is).1) (λ r. refl) k
        now s)

-- The record written for `i` has no smaller generation than the one before.
insert-grows-at :
    (k i : String) (r : Assignment) (table : Assignments)
    → generation_of (assignment_of i table) ≤ generation_of r
    → generation_of (assignment_of k table) ≤ generation_of (assignment_of k (insert i r table))
insert-grows-at k i r table h = elim (Bool-cases (i == k)) [
  | inl e ↦
      let new : assignment_of k (insert i r table) ≡ r =
        rw e at (assignment_of-insert i k r table) in
      subst (λ (x : Assignment). generation_of (assignment_of k table) ≤ generation_of x) (sym new)
        (subst (λ j. generation_of (assignment_of j table) ≤ generation_of r) ((eq_iff i k).0 e) h)
  | inr e ↦
      let old : assignment_of k (insert i r table) ≡ assignment_of k table =
        rw e at (assignment_of-insert i k r table) in
      subst (λ (x : Assignment). generation_of (assignment_of k table) ≤ generation_of x) (sym old)
        (omega arith)
]

module _ (k : String) (g : ℕ) where
  abbrev AtLeast : Logical → Type 0
  AtLeast s = g ≤ generation k s

  reconcile_state-AtLeast : (now : ℕ) (s : Logical) → AtLeast s → AtLeast (reconcile_state now s)
  reconcile_state-AtLeast now s = subst (λ n. g ≤ n) (sym (reconcile_state-generation k now s))

  claim_desired-AtLeast :
      (n now : ℕ) (fresh : String) (s : Logical)
      → AtLeast s
      → AtLeast (claim_desired n now fresh s).1
  unfolding grant
  claim_desired-AtLeast n now fresh s h = elim (claim_desired-cases n now fresh s) [
    | inl (same, _) ↦ subst (λ t. g ≤ generation_of (assignment_of k t)) (sym same) h
    | inr (d, free, wants, due, nowhere, made) ↦ subst AtLeast (sym (ap (λ x. x.1) made)) (
        omega (
          arith,
          h,
          insert-grows-at k (key n)
              (hold (mint d n fresh now s (assignment_of (key n) s.work.assignments))
                (assignment_of (key n) s.work.assignments))
              s.work.assignments (omega arith),
        ))
  ]

  claim_body-AtLeast :
      (n now : ℕ) (fresh : String) (s : Logical) → AtLeast s → AtLeast (claim_body n now fresh s).1
  unfolding claim_body
  claim_body-AtLeast n now fresh s h =
      let seated = with_assignments (ensure_assignment (key n) s.work.assignments) s in
      let h' : AtLeast seated =
        subst (λ (r : Assignment). g ≤ generation_of r)
          (sym (assignment_of-ensure_assignment (key n) k s.work.assignments)) h in
      if-both (λ (x : Option Claimed × Logical). AtLeast x.1) (below s.configuration.active_count n)
        h
        (if-both (λ (x : Option Claimed × Logical). AtLeast x.1)
          (is_future (assignment_of (key n) seated.work.assignments).rest_until now) h'
          (claim_desired-AtLeast n now fresh (reconcile_state now seated)
            (reconcile_state-AtLeast now seated h')))

  -- An update that leaves the generation of a record.
  update_entry-AtLeast :
      (i : String) (f : Assignment → Assignment) (table : Assignments)
      → ((r : Assignment) → generation_of (f r) ≡ generation_of r)
      → g ≤ generation_of (assignment_of k table)
      → g ≤ generation_of (assignment_of k (update_entry i f table))
  update_entry-AtLeast i f table same h = elim (assignment_of-update_entry i k f table) [
    | inl e ↦ subst (λ (r : Assignment). g ≤ generation_of r) (sym e) h
    | inr (_, e) ↦
        subst (λ (r : Assignment). g ≤ generation_of r) (sym e)
          (subst (λ x. g ≤ x) (sym (same (assignment_of k table))) h)
  ]

  finalize_body-AtLeast :
      (n : ℕ) (lease_id : String) (pacing retry : Option ℕ) (now : ℕ) (s : Logical)
      → AtLeast s
      → Holds AtLeast (finalize_body n lease_id pacing retry now s)
  unfolding finalize_body end_lease
  finalize_body-AtLeast n lease_id pacing retry now s h =
      Holds-option AtLeast (current_is lease_id (assignment_of (key n) s.work.assignments)) _ _ tt
        λ l found.
          let ended = end_lease n l pacing retry now s in
          reconcile_state-AtLeast now (compact ended) (
            subst (λ t. g ≤ generation_of (assignment_of k t)) (sym (compact-assignments ended))
              (update_entry-AtLeast (key n) (vacate pacing) s.work.assignments (λ r. refl) h))

  confirm_body-AtLeast :
      (n : ℕ) (lease_id : String) (now : ℕ) (s : Logical)
      → AtLeast s
      → Holds AtLeast (confirm_body n lease_id now s)
  unfolding confirm_body
  confirm_body-AtLeast n lease_id now s h =
      Holds->>= AtLeast (require (not (below s.configuration.active_count n)) capacity_disabled) _
        λ _.
          Holds-option AtLeast (current_is lease_id (assignment_of (key n) s.work.assignments)) _ _
            tt
            λ l found.
              update_entry-AtLeast (key n)
                (λ r. record r { current = set (record l { launch_confirmed_at = some now }) })
                s.work.assignments (λ r. refl) h

  update_body-AtLeast :
      (u : Update) (chosen : List ℕ) (now : ℕ) (s : Logical)
      → AtLeast s
      → Holds AtLeast (update_body u chosen now s)
  unfolding update_body
  update_body-AtLeast u chosen now s =
      reconcile_state-AtLeast now
        (record s { configuration = updated_configuration u chosen s.configuration })

  reorder_body-AtLeast :
      (ids : List String) (expected now : ℕ) (s : Logical)
      → AtLeast s
      → Holds AtLeast (reorder_body ids expected now s)
  unfolding reorder_body
  reorder_body-AtLeast ids expected now s h =
      Holds->>= AtLeast (require (nat_beq s.queue.revision expected) queue_revision_conflict) _ λ _.
        Holds->>= AtLeast (require (is_reordering ids (item_ids s.queue.items)) order_invalid) _
          λ _.
            reconcile_state-AtLeast now
              (record s {
                queue = record s.queue {
                  items = pick s.queue.items ids;
                  revision = s.queue.revision + 1;
                };
              })
              h

-- Over any sequence of the scheduler's operations the lease generation of no station decreases.
pub run-generation :
    (k : String) (actions : List Action) (s : Logical)
    → generation k s ≤ generation k (run actions s)
run-generation k actions s =
    let g = generation k s in
    run-Holds (AtLeast k g) (λ v n h. h) (claim_body-AtLeast k g) (finalize_body-AtLeast k g)
      (confirm_body-AtLeast k g) (update_body-AtLeast k g) (reorder_body-AtLeast k g)
      (λ id p v h. h) actions s (omega arith)
