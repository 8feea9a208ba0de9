-- ===== src/Checkpoint/Accounting/Scheduled.antt =====
-- research_loops/control_store.py: the scheduler's operations number no run.
use mathlib.Core.Option.{some-injective}
use autonomous_research_loop.Prelude.{
  ℕ, ◌+◌, String, ◌≡◌, refl, sym, ap, ◌∙◌, true, false, not, ◌||◌, Option, none, some, List, [],
  ◌∷◌, arith, nat_beq, ◌==◌, inl, inr, Bool-cases,
}
use autonomous_research_loop.Prelude.Int.{below}
use autonomous_research_loop.Prelude.Lists.{
  keep, lookup, insert, remove, lookup-insert, lookup-remove,
}
use autonomous_research_loop.Control.Types.{Assignment, content, Run, Lease, Work, Logical}
use autonomous_research_loop.Control.Store.{
  Outcome, require, queue_revision_conflict, order_invalid, capacity_disabled, topic_of,
}
use autonomous_research_loop.Control.Schedule.{key, assignment_of, is_future, reconcile_state}
use autonomous_research_loop.Control.Compact.{
  delete_all, is_prunable, surplus_runs, prune_topics, compact, referenced_runs, run_topics,
  first_keys,
}
use autonomous_research_loop.Control.Finalize.{
  finish_run, update_entry, current_is, end_lease, finalize_body, confirm_body,
}
use autonomous_research_loop.Control.Station.{with_assignments, ensure_assignment}
use autonomous_research_loop.Control.Claim.{
  Claimed, mint, held_elsewhere, started_run, with_topic, grant, claim_desired, claim_body,
}
use autonomous_research_loop.Control.Operator.{
  updated_configuration, is_reordering, item_ids, pick, update_body, reorder_body,
}
use autonomous_research_loop.Control.Machine.{
  Action, exec, Holds, Holds->>=, Holds-option, Holds-map, exec-Holds,
}
use autonomous_research_loop.Control.Records.{if-both}
use autonomous_research_loop.Checkpoint.Scheduled.{option-both}
use autonomous_research_loop.Checkpoint.Accounting.{Runs, Fewer, Fewer-trans, Fewer-refl}

remove-Fewer : (k : String) (runs : Runs) → Fewer runs (remove k runs)
remove-Fewer k runs a r o found numbered = elim (Bool-cases (k == a)) [
  | inl e ↦ absurd (ground (arith, lookup-remove k a runs, e, found))
  | inr e ↦ (r, ground (arith, lookup-remove k a runs, e, found), refl, refl)
]

delete_all-Fewer : (ks : List String) (runs : Runs) → Fewer runs (delete_all ks runs)
unfolding delete_all
delete_all-Fewer [] runs = Fewer-refl runs
delete_all-Fewer (k ∷ ks) runs =
    Fewer-trans runs (remove k runs) _ (remove-Fewer k runs) (delete_all-Fewer ks (remove k runs))

prune_topics-Fewer :
    (referenced ts : List String) (w : Work) → Fewer w.runs (prune_topics referenced ts w).runs
unfolding prune_topics
prune_topics-Fewer referenced [] w = Fewer-refl w.runs
prune_topics-Fewer referenced (t ∷ ts) w =
    let gone = first_keys (keep (is_prunable referenced) (surplus_runs t w.runs)) in
    Fewer-trans w.runs (delete_all gone w.runs) _ (delete_all-Fewer gone w.runs)
      (prune_topics-Fewer referenced ts _)

compact-Fewer : (s : Logical) → Fewer s.work.runs (compact s).work.runs
unfolding compact
compact-Fewer s =
    prune_topics-Fewer (referenced_runs s.work.episodes) (run_topics [] s.work.runs) s.work

started-Fewer : (l : Lease) (runs : Runs) → Fewer runs (insert l.lease_id (started_run l) runs)
started-Fewer l runs a r o found numbered = elim (Bool-cases (l.lease_id == a)) [
  | inl e ↦
      absurd (ground (arith, lookup-insert l.lease_id a (started_run l) runs, e, found, numbered))
  | inr e ↦
      (r, ground (arith, lookup-insert l.lease_id a (started_run l) runs, e, found), refl, refl)
]

finish_run-kept :
    (now : ℕ) (r : Run)
    → ((finish_run now r).topic_id ≡ r.topic_id) × ((finish_run now r).ordinal ≡ r.ordinal)
unfolding finish_run
finish_run-kept now r = (ground arith, ground arith)

finished-Fewer :
    (lease : String) (now : ℕ) (runs : Runs) → Fewer runs (update_entry lease (finish_run now) runs)
unfolding update_entry lookup
finished-Fewer lease now [] a r o found numbered = cc
finished-Fewer lease now ((i, q) ∷ runs) a r o found numbered = elim (Bool-cases (i == lease)) [
  | inl e ↦ elim (Bool-cases (i == a)) [
    | inl e' ↦
        let same = some-injective (finish_run now q) r (rw (e, e') at (found)) in
        let (topic, ordinal) = finish_run-kept now q in
        (
          q,
          rw e' refl,
          sym topic ∙ ap (λ x. x.topic_id) same,
          sym ordinal ∙ ap (λ x. x.ordinal) same,
        )
    | inr e' ↦ (r, rw e' (rw (e, e') at (found)), refl, refl)
  ]
  | inr e ↦ elim (Bool-cases (i == a)) [
    | inl e' ↦ (r, rw e' (rw (e, e') at (found)), refl, refl)
    | inr e' ↦
        let (r', has, topic, ordinal) =
          finished-Fewer lease now runs a r o (rw (e, e') at (found)) numbered in
        (r', rw e' has, topic, ordinal)
  ]
]

abbrev Shrinks : Logical → Logical → Type 0
Shrinks s v = Fewer s.work.runs v.work.runs

reconcile_state-Shrinks : (now : ℕ) (s : Logical) → Shrinks s (reconcile_state now s)
unfolding reconcile_state
reconcile_state-Shrinks now s =
    if-both (Shrinks s) (s.queue.paused || s.queue.stopping) (Fewer-refl s.work.runs)
      (Fewer-refl s.work.runs)

claim_desired-Shrinks :
    (n now : ℕ) (fresh : String) (s : Logical) → Shrinks s (claim_desired n now fresh s).1
unfolding claim_desired grant
claim_desired-Shrinks n now fresh s =
    let r = assignment_of (key n) s.work.assignments in
    let P = λ (x : Option Claimed × Logical). Shrinks s x.1 in
    let same = Fewer-refl s.work.runs in
    option-both P (content r.current)
      (option-both P (content r.desired) same λ d.
        let known = with_topic d.topic_id s in
        let lease = mint d n fresh now s r in
        if-both P (is_future (topic_of d.topic_id known.work.topics).retry_not_before now)
          {a = (none, known)} same
          (if-both P (held_elsewhere (key n) d.topic_id s.work.assignments) {a = (none, known)}
            {b = (some (record { lease = lease; resumed = false }), grant n lease known)} same
            (started-Fewer lease s.work.runs)))
      (λ lease. option-both P (content r.desired) same λ d.
        if-both P (d.topic_id == lease.topic_id)
          {a = (some (record { lease = lease; resumed = true }), s)} {b = (none, s)} same same)

claim_body-Shrinks :
    (n now : ℕ) (fresh : String) (s : Logical) → Shrinks s (claim_body n now fresh s).1
unfolding claim_body
claim_body-Shrinks n now fresh s =
    let P = λ (x : Option Claimed × Logical). Shrinks s x.1 in
    let same = Fewer-refl s.work.runs in
    let seated = with_assignments (ensure_assignment (key n) s.work.assignments) s in
    let reconciled = reconcile_state now seated in
    if-both P (below s.configuration.active_count n) {a = (none, s)} same (
      if-both P (is_future (assignment_of (key n) seated.work.assignments).rest_until now)
        {a = (none, seated)} {b = claim_desired n now fresh reconciled} same
        (Fewer-trans s.work.runs reconciled.work.runs _ (reconcile_state-Shrinks now seated)
          (claim_desired-Shrinks n now fresh reconciled)))

finalize_body-Shrinks :
    (n : ℕ) (lease : String) (pacing retry : Option ℕ) (now : ℕ) (s : Logical)
    → Holds (Shrinks s) (finalize_body n lease pacing retry now s)
unfolding finalize_body end_lease
finalize_body-Shrinks n lease pacing retry now s =
    Holds-option (Shrinks s) (current_is lease (assignment_of (key n) s.work.assignments)) _ _ tt
      λ l _.
        let ended = end_lease n l pacing retry now s in
        Fewer-trans s.work.runs ended.work.runs _ (finished-Fewer l.lease_id now s.work.runs) (
          Fewer-trans ended.work.runs (compact ended).work.runs _ (compact-Fewer ended)
            (reconcile_state-Shrinks now (compact ended)))

confirm_body-Shrinks :
    (n : ℕ) (lease : String) (now : ℕ) (s : Logical)
    → Holds (Shrinks s) (confirm_body n lease now s)
unfolding confirm_body
confirm_body-Shrinks n lease now s =
    Holds->>= (Shrinks s) (require (not (below s.configuration.active_count n)) capacity_disabled) _
      λ _.
        Holds-option (Shrinks s) (current_is lease (assignment_of (key n) s.work.assignments)) _ _
          tt λ l _. Fewer-refl s.work.runs

reorder_body-Shrinks :
    (ids : List String) (expected now : ℕ) (s : Logical)
    → Holds (Shrinks s) (reorder_body ids expected now s)
unfolding reorder_body
reorder_body-Shrinks ids expected now s =
    Holds->>= (Shrinks s) (require (nat_beq s.queue.revision expected) queue_revision_conflict) _
      λ _.
        Holds->>= (Shrinks s) (require (is_reordering ids (item_ids s.queue.items)) order_invalid) _
          λ _. reconcile_state-Shrinks now (record s {
            queue = record s.queue {
              items = pick s.queue.items ids;
              revision = s.queue.revision + 1;
            };
          })

pub exec-Shrinks : (a : Action) (s : Logical) → Shrinks s (exec a s)
unfolding update_body
exec-Shrinks a s =
    let onward = λ (A : Type 0) (m : Outcome (A × Logical)) (v : Logical) (first : Shrinks s v).
      Holds-map (Shrinks v) (Shrinks s) m
        (λ u later. Fewer-trans s.work.runs v.work.runs u.work.runs first later) in
    exec-Holds (Shrinks s) (λ v n first. first)
      (λ n now fresh v first.
        Fewer-trans s.work.runs v.work.runs _ first (claim_body-Shrinks n now fresh v))
      (λ n lease pacing retry now v first.
        onward Assignment (finalize_body n lease pacing retry now v) v first
          (finalize_body-Shrinks n lease pacing retry now v))
      (λ n lease now v first.
        onward Lease (confirm_body n lease now v) v first (confirm_body-Shrinks n lease now v))
      (λ u chosen now v first. Fewer-trans s.work.runs v.work.runs _ first (
        reconcile_state-Shrinks now
          (record v { configuration = updated_configuration u chosen v.configuration })))
      (λ ids expected now v first.
        onward (List String) (reorder_body ids expected now v) v first
          (reorder_body-Shrinks ids expected now v))
      (λ id p v first. first) a s (Fewer-refl s.work.runs)
