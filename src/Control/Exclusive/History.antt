-- ===== src/Control/Exclusive/History.antt =====
-- research_loops/control_store.py: every operation of the scheduler keeps the leases exclusive.
use mathlib.Core.Path.{subst}
use autonomous_research_loop.Prelude.{
  not, nat_beq, ℕ, ◌+◌, String, ◌≡◌, refl, sym, ap, ◌∙◌, Option, none, some, List, inl, inr, arith,
  Option-cases,
}
use autonomous_research_loop.Prelude.Int.{below}
use autonomous_research_loop.Control.Types.{Cell, set, content, Lease, Assignment, Logical}
use autonomous_research_loop.Control.Store.{
  require, queue_revision_conflict, order_invalid, capacity_disabled,
}
use autonomous_research_loop.Control.Schedule.{key, assignment_of, is_future, reconcile_state}
use autonomous_research_loop.Control.Compact.{compact}
use autonomous_research_loop.Control.Station.{with_assignments, ensure_assignment}
use autonomous_research_loop.Control.Claim.{Claimed, lease_topic, grant, claim_desired, claim_body}
use autonomous_research_loop.Control.Claim.Cases.{claim_desired-cases}
use autonomous_research_loop.Control.Finalize.{
  update_entry, vacate, current_is, end_lease, finalize_body, confirm_body,
}
use autonomous_research_loop.Control.Operator.{
  Update, updated_configuration, is_reordering, item_ids, pick, update_body, reorder_body,
}
use autonomous_research_loop.Control.Machine.{
  Action, run, Holds, Holds->>=, Holds-option, run-Holds,
}
use autonomous_research_loop.Control.Records.{
  assignment_of-ensure_assignment, assignment_of-update_entry, compact-assignments,
  deal_station-current, seen-reconcile_state, if-both,
}
use autonomous_research_loop.Control.Exclusive.{Exclusive, Exclusive-kept, Exclusive-insert}

abbrev option_topic : Option Lease → Option String
option_topic none = none
option_topic (some l) = some l.topic_id

abbrev topic_in : Cell Lease → Option String
topic_in c = elim (content c) [ none ↦ none | some l ↦ some l.topic_id ]

abbrev Alone : Logical → Type 0
Alone s = Exclusive s.work.assignments

reconcile_state-Alone : (now : ℕ) (s : Logical) → Alone s → Alone (reconcile_state now s)
reconcile_state-Alone now s =
    Exclusive-kept s.work.assignments (reconcile_state now s).work.assignments λ j. inr (
      seen-reconcile_state lease_topic
        (λ active now topics n r is. ap topic_in (deal_station-current active now topics n r is).0)
        (λ r. refl) j now s)

ensure_assignment-Alone :
    (k : String) (s : Logical)
    → Alone s
    → Alone (with_assignments (ensure_assignment k s.work.assignments) s)
ensure_assignment-Alone k s =
    Exclusive-kept s.work.assignments (ensure_assignment k s.work.assignments)
      λ j. inr (ap lease_topic (assignment_of-ensure_assignment k j s.work.assignments))

claim_desired-Alone :
    (n now : ℕ) (fresh : String) (s : Logical) → Alone s → Alone (claim_desired n now fresh s).1
unfolding grant
claim_desired-Alone n now fresh s alone = elim (claim_desired-cases n now fresh s) [
  | inl (same, _) ↦ subst Exclusive (sym same) alone
  | inr (d, free, wanted, due, nowhere, same) ↦
      subst Alone (sym (ap (λ x. x.1) same))
        (Exclusive-insert (key n) d.topic_id _ s.work.assignments refl nowhere alone)
]

claim_body-Alone :
    (n now : ℕ) (fresh : String) (s : Logical) → Alone s → Alone (claim_body n now fresh s).1
unfolding claim_body
claim_body-Alone n now fresh s alone =
    let seated = with_assignments (ensure_assignment (key n) s.work.assignments) s in
    let alone' = ensure_assignment-Alone (key n) s alone in
    if-both (λ (x : Option Claimed × Logical). Alone x.1) (below s.configuration.active_count n)
      alone
      (if-both (λ (x : Option Claimed × Logical). Alone x.1)
        (is_future (assignment_of (key n) seated.work.assignments).rest_until now) alone'
        (claim_desired-Alone n now fresh (reconcile_state now seated)
          (reconcile_state-Alone now seated alone')))

end_lease-Alone :
    (n : ℕ) (l : Lease) (pacing retry : Option ℕ) (now : ℕ) (s : Logical)
    → Alone s
    → Alone (end_lease n l pacing retry now s)
unfolding end_lease
end_lease-Alone n l pacing retry now s =
    Exclusive-kept s.work.assignments (update_entry (key n) (vacate pacing) s.work.assignments) λ j.
      elim (assignment_of-update_entry (key n) j (vacate pacing) s.work.assignments) [
        | inl same ↦ inr (ap lease_topic same)
        | inr (_, new) ↦ inl (ap lease_topic new)
      ]

finalize_body-Alone :
    (n : ℕ) (lease_id : String) (pacing retry : Option ℕ) (now : ℕ) (s : Logical)
    → Alone s
    → Holds Alone (finalize_body n lease_id pacing retry now s)
unfolding finalize_body
finalize_body-Alone n lease_id pacing retry now s alone =
    Holds-option Alone (current_is lease_id (assignment_of (key n) s.work.assignments)) _ _ tt
      λ l found.
        let ended = end_lease n l pacing retry now s in
        reconcile_state-Alone now (compact ended) (
          subst Exclusive (sym (compact-assignments ended))
            (end_lease-Alone n l pacing retry now s alone))

-- The lease that `current_is` gives is the record's.
current_is-current :
    (k : String) (r : Assignment) {l : Lease} → current_is k r ≡ some l → content r.current ≡ some l
current_is-current k r h = elim (Option-cases (content r.current)) [
  | inl free ↦ absurd (ground (arith, free, h))
  | inr (l, has) ↦ ground (arith, has, h)
]

confirm_body-Alone :
    (n : ℕ) (lease_id : String) (now : ℕ) (s : Logical)
    → Alone s
    → Holds Alone (confirm_body n lease_id now s)
unfolding confirm_body
confirm_body-Alone n lease_id now s alone =
    Holds->>= Alone (require (not (below s.configuration.active_count n)) capacity_disabled) _ λ _.
      Holds-option Alone (current_is lease_id (assignment_of (key n) s.work.assignments)) _ _ tt
        λ l found.
          let confirmed = record l { launch_confirmed_at = some now } in
          let confirm = λ (r : Assignment). record r { current = set confirmed } in
          Exclusive-kept s.work.assignments (update_entry (key n) confirm s.work.assignments)
            (λ j. inr (elim (assignment_of-update_entry (key n) j confirm s.work.assignments) [
              | inl same ↦ ap lease_topic same
              | inr (here, new) ↦
                  ap lease_topic new
                  ∙ sym (
                      ap option_topic (
                        subst (λ i. content (assignment_of i s.work.assignments).current ≡ some l)
                          here
                          (current_is-current lease_id (assignment_of (key n) s.work.assignments)
                            found)))
            ]))
            alone

update_body-Alone :
    (u : Update) (chosen : List ℕ) (now : ℕ) (s : Logical)
    → Alone s
    → Holds Alone (update_body u chosen now s)
unfolding update_body
update_body-Alone u chosen now s alone =
    reconcile_state-Alone now
      (record s { configuration = updated_configuration u chosen s.configuration }) alone

reorder_body-Alone :
    (ids : List String) (expected now : ℕ) (s : Logical)
    → Alone s
    → Holds Alone (reorder_body ids expected now s)
unfolding reorder_body
reorder_body-Alone ids expected now s alone =
    Holds->>= Alone (require (nat_beq s.queue.revision expected) queue_revision_conflict) _ λ _.
      Holds->>= Alone (require (is_reordering ids (item_ids s.queue.items)) order_invalid) _ λ _.
        reconcile_state-Alone now
          (record s {
            queue = record s.queue {
              items = pick s.queue.items ids;
              revision = s.queue.revision + 1;
            };
          })
          alone

-- Over any sequence of the scheduler's operations, at any times, raised errors included, from a
-- state in which no two stations hold leases of one topic, none ever do.
pub run-Exclusive :
    (actions : List Action) (s : Logical)
    → Exclusive s.work.assignments
    → Exclusive (run actions s).work.assignments
run-Exclusive =
    run-Holds Alone (λ v n alone. alone) claim_body-Alone finalize_body-Alone confirm_body-Alone
      update_body-Alone reorder_body-Alone (λ id p s alone. alone)
