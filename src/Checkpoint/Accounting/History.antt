-- ===== src/Checkpoint/Accounting/History.antt =====
-- research_loops/checkpoints/service.py: every operation keeps the ordinals of the accounted runs.
use mathlib.Core.Option.{some-injective}
use mathlib.Core.Path.{subst}
use autonomous_research_loop.Prelude.{
  ℕ, ◌+◌, ◌≤◌, String, ◌≡◌, refl, sym, ap, ◌∙◌, Bool, not, ◌||◌, Option, none, some, List, arith,
  ◌==◌, eq_iff, inl, inr, ◌⊎◌, Bool-cases,
}
use autonomous_research_loop.Prelude.Lists.{lookup, insert, lookup-insert}
use autonomous_research_loop.Control.Types.{
  Accounting, Run, Invocation, Episode, DecisionResult, Logical,
}
use autonomous_research_loop.Control.Store.{
  Outcome, raised, returned, topic_of, duplicate_request_conflict, revision_conflict,
}
use autonomous_research_loop.Control.Machine.{Holds, Holds-option, Holds-require, Holds-map, exec}
use autonomous_research_loop.Checkpoint.Completion.{
  Digest, Completion, has_pruned, is_present, current_lease, accept_body,
}
use autonomous_research_loop.Checkpoint.Review.{Context, Naming, Finished}
use autonomous_research_loop.Checkpoint.Machine.{Step, Anything, All-Admits, history, history-Holds}
use autonomous_research_loop.Checkpoint.Scheduled.{exec-Same}
use autonomous_research_loop.Checkpoint.Accounting.{
  completed, Fewer, Fewer-refl, Ordinals, Ordinals-step,
}
use autonomous_research_loop.Checkpoint.Accounting.Scheduled.{exec-Shrinks}
use autonomous_research_loop.Checkpoint.Accounting.Unrelated.{
  count_of, Same, stall_body-Same, start_body-Same, reserve_body-Same, result_body-Same,
  finish_body-Same, intend_body-Same, commit_body-Same,
}
use autonomous_research_loop.Checkpoint.Accounting.Counted.{Numbered, Effect, account-Effect}

-- A step that numbers no run and leaves the counts.
Ordinals-kept :
    (s v : Logical)
    → Fewer s.work.runs v.work.runs
    → ((k : String) → count_of (topic_of k v.work.topics) ≡ count_of (topic_of k s.work.topics))
    → Ordinals s
    → Ordinals v
Ordinals-kept s v fewer same h =
    Ordinals-step "" s v
      (λ k.
        let now : (topic_of k v.work.topics).next_research_ordinal
            ≡ (topic_of k s.work.topics).next_research_ordinal =
          ap (λ n. n.next) (same k) in
        let here : completed k v ≡ completed k s = ap (λ n. n.completed) (same k) in
        omega (arith, now, here, h.next k))
      (λ k.
        let here : completed k v ≡ completed k s = ap (λ n. n.completed) (same k) in
        omega (arith, here))
      (λ a r o found numbered. inl (fewer a r o found numbered)) h

-- The lookup in a table into which one run was written.
written-run :
    (k a : String) (new : Run) (runs : List (String × Run)) {r : Run}
    → lookup a (insert k new runs) ≡ some r
    → ((a ≡ k) × (new ≡ r)) ⊎ (lookup a runs ≡ some r)
written-run k a new runs found = elim (Bool-cases (k == a)) [
  | inl e ↦ inl (sym ((eq_iff k a).0 e), ground (arith, lookup-insert k a new runs, found, e))
  | inr e ↦ inr (ground (arith, lookup-insert k a new runs, found, e))
]

-- The counts after a numbered run: its topic's go on by one, the others stay.
module _ (c : Completion) (s : Logical) (r : Run) (v : Logical) (numbers : Numbered c s r v) where
  credited : completed c.topic_id v ≡ completed c.topic_id s + 1
  credited =
      let counts = numbers.2 c.topic_id in
      ap (λ n. n.completed) (rw ((eq_iff c.topic_id c.topic_id).1 refl) at (counts))

  numbered-next :
      Ordinals s
      → (k : String) → (topic_of k v.work.topics).next_research_ordinal ≡ completed k v + 1
  numbered-next h k = elim (Bool-cases (c.topic_id == k)) [
    | inl e ↦
        let counts = rw e at (numbers.2 k) in
        let now : completed k v ≡ completed c.topic_id s + 1 = ap (λ n. n.completed) counts in
        let later : (topic_of k v.work.topics).next_research_ordinal
            ≡ completed c.topic_id s + 1 + 1 =
          ap (λ n. n.next) counts in
        omega (arith, now, later)
    | inr e ↦
        let counts = rw e at (numbers.2 k) in
        let now : completed k v ≡ completed k s = ap (λ n. n.completed) counts in
        let later : (topic_of k v.work.topics).next_research_ordinal
            ≡ (topic_of k s.work.topics).next_research_ordinal =
          ap (λ n. n.next) counts in
        omega (arith, now, later, h.next k)
  ]

  numbered-grows : (k : String) → completed k s ≤ completed k v
  numbered-grows k = elim (Bool-cases (c.topic_id == k)) [
    | inl e ↦
        subst (λ i. completed i s ≤ completed i v) ((eq_iff c.topic_id k).0 e)
          (omega (arith, credited))
    | inr e ↦
        let now : completed k v ≡ completed k s = ap (λ n. n.completed) (rw e at (numbers.2 k)) in
        omega (arith, now)
  ]

account-Ordinals :
    (c : Completion) (s : Logical) (x : Accounting × Logical)
    → Effect c s x
    → Ordinals s
    → Ordinals x.1
account-Ordinals c s x effect h = elim effect.counts [
  | inr (flag, unnumbered, same) ↦
      Ordinals-kept s x.1
        (λ a r o found numbered.
          elim (written-run c.run_id a effect.run s.work.runs (rw effect.written at (found))) [
            | inl (here, new) ↦
                absurd (ground (arith, ap (λ q. q.ordinal) new, unnumbered, numbered))
            | inr old ↦ (r, old, refl, refl)
          ])
        same h
  | inl numbers ↦
      Ordinals-step c.run_id s x.1 (numbered-next c s effect.run x.1 numbers h)
        (numbered-grows c s effect.run x.1 numbers)
        (λ a r o found numbered.
          elim (written-run c.run_id a effect.run s.work.runs (rw effect.written at (found))) [
            | inr old ↦ inl (r, old, refl, refl)
            | inl (here, new) ↦
                let topic : r.topic_id ≡ c.topic_id =
                  sym (ap (λ q. q.topic_id) new) ∙ effect.topic in
                let value : o ≡ completed c.topic_id s + 1 =
                  some-injective o (completed c.topic_id s + 1)
                    (sym numbered ∙ sym (ap (λ q. q.ordinal) new) ∙ numbers.1) in
                inr (
                  here,
                  rw topic (omega (arith, value)),
                  rw topic (omega (arith, value, credited c s effect.run x.1 numbers)),
                )
          ])
        h
]

module _ (digest : Digest) where
  accept_body-Ordinals :
      (c : Completion) (fresh : String) (now : ℕ) (s : Logical)
      → Ordinals s
      → Holds Ordinals (accept_body digest c fresh now s)
  unfolding accept_body
  accept_body-Ordinals c fresh now s h =
      Holds-option Ordinals (lookup c.run_id s.work.runs) _ _
        (Holds-require Ordinals
          (not (has_pruned c.topic_id s.work)
            || is_present (current_lease c.topic_id c.run_id s.work))
          revision_conflict _
          λ _. account-Ordinals c s _ (account-Effect digest c none fresh now s) h)
        λ r _. Holds-require Ordinals (r.topic_id == c.topic_id) duplicate_request_conflict _ λ _.
          Holds-option Ordinals r.accounting_result _ _
            (Holds-require Ordinals (r.state == "started") revision_conflict _
              λ _. account-Ordinals c s _ (account-Effect digest c (some r) fresh now s) h)
            λ result _. h

-- An operation on reviews leaves the runs and the counts, and so the ordinals.
Same-Ordinals :
    {A : Type 0} (m : Outcome (A × Logical)) (s : Logical)
    → Holds (λ v. (k : String) → Same k s v) m
    → Ordinals s
    → Holds Ordinals m
Same-Ordinals m s same h =
    Holds-map (λ v. (k : String) → Same k s v) Ordinals m
      (λ v kept.
        Ordinals-kept s v
          (subst (Fewer s.work.runs) (sym (ap (λ x. x.runs) (kept ""))) (Fewer-refl s.work.runs))
          (λ k. ap (λ x. x.count) (kept k)) h)
      same

Holds-all :
    {A B S : Type 0} (P : B → S → Type 0) (m : Outcome (A × S))
    → ((b : B) → Holds (P b) m)
    → Holds (λ v. (b : B) → P b v) m
Holds-all P (raised e) h = tt
Holds-all P (returned (a, v)) h = h

-- Over any sequence of the operations of the reviews and of the scheduler, compactions of the ledger
-- and raised errors included, from a state that has the property: each topic's next ordinal is one
-- more than the number of its iterations, the ordinals of its accounted runs do not go beyond that
-- number, and no two of its runs have the same ordinal.
pub history-Ordinals :
    (digest : Digest) (context : Context) (naming : Naming) (steps : List Step) (s : Logical)
    → Ordinals s
    → Ordinals (history digest context naming steps s)
history-Ordinals digest context naming steps s =
    let same =
      λ (A : Type 0) (m : Outcome (A × Logical)) (v : Logical)
          (each : (k : String) → Holds (Same k v) m).
        Same-Ordinals m v (Holds-all (λ k. Same k v) m each) in
    history-Holds digest context naming Anything Ordinals
      (λ v n h. record { next = h.next; counted = h.counted; once = h.once })
      (λ a v _. Ordinals-kept v (exec a v) (exec-Shrinks a v) λ k.
        ap
          (λ x. record {
            completed = x.topic.research_iterations_completed;
            next = x.topic.next_research_ordinal;
          })
          (exec-Same k a v))
      (accept_body-Ordinals digest)
      (λ topic version fresh v.
        same (String × String) _ v (λ k. stall_body-Same k digest topic version fresh v))
      (λ episode station run now v.
        same Episode _ v (λ k. start_body-Same k context naming episode station run now v))
      (λ episode lease invocation role capability now v.
        same (Invocation × Bool) _ v
          (λ k. reserve_body-Same k episode lease invocation role capability now v))
      (λ episode invocation code output result now v.
        same Invocation _ v (λ k. result_body-Same k episode invocation code output result now v))
      (λ r v. same Finished _ v (λ k. finish_body-Same k context r v))
      (λ canonical p actor publisher v.
        same (Option DecisionResult) _ v (λ k. intend_body-Same k canonical p actor publisher v))
      (λ request locks v. same DecisionResult _ v (λ k. commit_body-Same k request locks v)) steps s
      (All-Admits steps)
