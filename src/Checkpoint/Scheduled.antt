-- ===== src/Checkpoint/Scheduled.antt =====
-- research_loops/control_store.py: what the scheduler's operations leave of the reviews' records.
use autonomous_research_loop.Prelude.{
  ℕ, String, not, false, true, ◌+◌, inl, inr, Bool-cases, nat_beq, ◌≡◌, refl, none, some, ◌==◌, ◌∙◌,
  Option, List, [], ◌∷◌, ◌||◌,
}
use autonomous_research_loop.Prelude.Int.{below}
use autonomous_research_loop.Prelude.Lists.{lookup}
use autonomous_research_loop.Queue.Types.{Item}
use autonomous_research_loop.Control.Runnable.{topic_of-ensure_topic}
use autonomous_research_loop.Control.Types.{
  Assignment, Configuration, content, Episode, Topic, Held, Lease, Work, Logical,
}
use autonomous_research_loop.Control.Store.{
  Outcome, require, ensure_topic, topic_of, queue_revision_conflict, order_invalid,
  capacity_disabled,
}
use autonomous_research_loop.Control.Schedule.{
  key, assignment_of, topics_after, executing_topics, is_considered, is_future, reconcile_state,
}
use autonomous_research_loop.Control.Compact.{compact, prune_topics, referenced_runs, run_topics}
use autonomous_research_loop.Control.Station.{with_assignments, ensure_assignment}
use autonomous_research_loop.Control.Claim.{
  Claimed, mint, held_elsewhere, with_topic, grant, claim_desired, claim_body,
}
use autonomous_research_loop.Control.Finalize.{
  update_entry, end_topic, current_is, end_lease, finalize_body, confirm_body,
}
use autonomous_research_loop.Control.Operator.{
  Update, updated_configuration, is_reordering, item_ids, pick, update_body, reorder_body,
}
use autonomous_research_loop.Control.Machine.{
  Action, exec, Holds, Holds->>=, Holds-option, Holds-map, exec-Holds,
}
use autonomous_research_loop.Control.Records.{if-both}

-- What the reviews and the accounting keep in a topic's record.
pub record TopicView : Type 0 where
  pub research_iterations_completed : ℕ
  pub next_research_ordinal : ℕ
  pub active_episode_id : Option String
  pub review_state : String
  pub proposal_allowance_remaining : ℕ

abbrev pub view : Topic → TopicView
view t = record {
  research_iterations_completed = t.research_iterations_completed;
  next_research_ordinal = t.next_research_ordinal;
  active_episode_id = t.active_episode_id;
  review_state = t.review_state;
  proposal_allowance_remaining = t.proposal_allowance_remaining;
}

-- The records of the reviews, with one topic's, which the scheduler's operations leave as they are.
pub record Reviews : Type 0 where
  pub episodes : List (String × Episode)
  pub proposals : List (String × Held)
  pub topic : TopicView

abbrev pub reviews : String → Logical → Reviews
reviews k s = record {
  episodes = s.work.episodes;
  proposals = s.work.proposals;
  topic = view (topic_of k s.work.topics);
}

pub option-both {ℓ} :
    {A B : Type 0} (P : B → Type ℓ) (o : Option A) {b : B} {f : A → B}
    → P b
    → ((a : A) → P (f a))
    → P (elim o [ none ↦ b | some a ↦ f a ])
option-both P none h k = h
option-both P (some a) h k = k a

pub list-both {ℓ} :
    {A B : Type 0} (P : B → Type ℓ) (xs : List A) {b : B} {f : A → List A → B}
    → P b
    → ((x : A) (rest : List A) → P (f x rest))
    → P (elim xs [ [] ↦ b | x ∷ rest ↦ f x rest ])
list-both P [] h k = h
list-both P (x ∷ xs) h k = k x xs

module _ (k : String) where
  abbrev Same : Logical → Logical → Type 0
  Same s v = reviews k v ≡ reviews k s

  topic_of-topics_after :
      (executing : List String) (is : List Item) (topics : List (String × Topic))
      → topic_of k (topics_after executing is topics) ≡ topic_of k topics
  unfolding topics_after
  topic_of-topics_after executing [] topics = refl
  topic_of-topics_after executing (i ∷ is) topics =
      topic_of-topics_after executing is _
      ∙ if-both (λ ts. topic_of k ts ≡ topic_of k topics) (is_considered executing i)
          (topic_of-ensure_topic i.id k topics) refl

  reconcile_state-Same : (now : ℕ) (s : Logical) → Same s (reconcile_state now s)
  unfolding reconcile_state
  reconcile_state-Same now s = if-both (Same s) (s.queue.paused || s.queue.stopping) refl (
      rw (topic_of-topics_after (executing_topics s.work.assignments) s.queue.items s.work.topics)
        refl)

  prune_topics-same :
      (referenced ts : List String) (w : Work)
      → ((prune_topics referenced ts w).episodes ≡ w.episodes)
        × ((prune_topics referenced ts w).proposals ≡ w.proposals)
        × ((prune_topics referenced ts w).topics ≡ w.topics)
  unfolding prune_topics
  prune_topics-same referenced [] w = (refl, refl, refl)
  prune_topics-same referenced (t ∷ ts) w = prune_topics-same referenced ts _

  compact-Same : (s : Logical) → Same s (compact s)
  unfolding compact
  compact-Same s =
      let (es, ps, ts) =
        prune_topics-same (referenced_runs s.work.episodes) (run_topics [] s.work.runs) s.work in
      rw (es) (rw (ps) (rw ts refl))

  with_topic-Same : (t : String) (s : Logical) → Same s (with_topic t s)
  with_topic-Same t s = rw (topic_of-ensure_topic t k s.work.topics) refl

  claim_desired-Same :
      (n now : ℕ) (fresh : String) (s : Logical) → Same s (claim_desired n now fresh s).1
  unfolding claim_desired grant
  claim_desired-Same n now fresh s =
      let r = assignment_of (key n) s.work.assignments in
      let P = λ (x : Option Claimed × Logical). Same s x.1 in
      option-both P (content r.current)
        (option-both P (content r.desired) refl λ d.
          let known = with_topic d.topic_id s in
          let same = with_topic-Same d.topic_id s in
          let lease = mint d n fresh now s r in
          if-both P (is_future (topic_of d.topic_id known.work.topics).retry_not_before now)
            {a = (none, known)} same
            (if-both P (held_elsewhere (key n) d.topic_id s.work.assignments) {a = (none, known)}
              {b = (some (record { lease = lease; resumed = false }), grant n lease known)} same
              same))
        (λ lease. option-both P (content r.desired) refl λ d.
          if-both P (d.topic_id == lease.topic_id)
            {a = (some (record { lease = lease; resumed = true }), s)} {b = (none, s)} refl refl)

  claim_body-Same : (n now : ℕ) (fresh : String) (s : Logical) → Same s (claim_body n now fresh s).1
  unfolding claim_body
  claim_body-Same n now fresh s =
      let P = λ (x : Option Claimed × Logical). Same s x.1 in
      let seated = with_assignments (ensure_assignment (key n) s.work.assignments) s in
      let reconciled = reconcile_state now seated in
      if-both P (below s.configuration.active_count n) {a = (none, s)} refl (
        if-both P (is_future (assignment_of (key n) seated.work.assignments).rest_until now)
          {a = (none, seated)} {b = claim_desired n now fresh reconciled} refl
          (claim_desired-Same n now fresh reconciled ∙ reconcile_state-Same now seated))

  topic_of-end_topic :
      (j : String) (retry : Option ℕ) (topics : List (String × Topic))
      → view (topic_of k (update_entry j (end_topic retry) topics)) ≡ view (topic_of k topics)
  unfolding topic_of update_entry lookup
  topic_of-end_topic j retry [] = refl
  topic_of-end_topic j retry ((i, t) ∷ topics) = elim (Bool-cases (i == j)) [
    | inl here ↦ elim (Bool-cases (i == k)) [
      | inl e ↦ rw (topic_of, here, e) refl
      | inr e ↦ rw (topic_of, here, e) refl
    ]
    | inr there ↦ elim (Bool-cases (i == k)) [
      | inl e ↦ rw (topic_of, there, e) refl
      | inr e ↦ rw (topic_of, there, e) (topic_of-end_topic j retry topics)
    ]
  ]

  end_lease-Same :
      (n : ℕ) (l : Lease) (pacing retry : Option ℕ) (now : ℕ) (s : Logical)
      → Same s (end_lease n l pacing retry now s)
  unfolding end_lease
  end_lease-Same n l pacing retry now s =
      rw (topic_of-end_topic l.topic_id retry (ensure_topic l.topic_id s.work.topics))
        (with_topic-Same l.topic_id s)

  finalize_body-Same :
      (n : ℕ) (lease : String) (pacing retry : Option ℕ) (now : ℕ) (s : Logical)
      → Holds (Same s) (finalize_body n lease pacing retry now s)
  unfolding finalize_body
  finalize_body-Same n lease pacing retry now s =
      Holds-option (Same s) (current_is lease (assignment_of (key n) s.work.assignments)) _ _ tt
        λ l _.
          let ended = end_lease n l pacing retry now s in
          reconcile_state-Same now (compact ended)
          ∙ compact-Same ended
          ∙ end_lease-Same n l pacing retry now s

  confirm_body-Same :
      (n : ℕ) (lease : String) (now : ℕ) (s : Logical) → Holds (Same s) (confirm_body n lease now s)
  unfolding confirm_body
  confirm_body-Same n lease now s =
      Holds->>= (Same s) (require (not (below s.configuration.active_count n)) capacity_disabled) _
        λ _.
          Holds-option (Same s) (current_is lease (assignment_of (key n) s.work.assignments)) _ _ tt
            λ l _. refl

  update_body-Same :
      (u : Update) (chosen : List ℕ) (now : ℕ) (s : Logical)
      → Holds (Same s) (update_body u chosen now s)
  unfolding update_body
  update_body-Same u chosen now s =
      reconcile_state-Same now
        (record s { configuration = updated_configuration u chosen s.configuration })

  reorder_body-Same :
      (ids : List String) (expected now : ℕ) (s : Logical)
      → Holds (Same s) (reorder_body ids expected now s)
  unfolding reorder_body
  reorder_body-Same ids expected now s =
      Holds->>= (Same s) (require (nat_beq s.queue.revision expected) queue_revision_conflict) _
        λ _.
          Holds->>= (Same s) (require (is_reordering ids (item_ids s.queue.items)) order_invalid) _
            λ _. reconcile_state-Same now (record s {
              queue = record s.queue {
                items = pick s.queue.items ids;
                revision = s.queue.revision + 1;
              };
            })

  pub exec-Same : (a : Action) (s : Logical) → Same s (exec a s)
  exec-Same a s =
      let onward = λ (A : Type 0) (m : Outcome (A × Logical)) (v : Logical) (same : Same s v).
        Holds-map (Same v) (Same s) m (λ u later. later ∙ same) in
      exec-Holds (Same s) (λ v n same. same)
        (λ n now fresh v same. claim_body-Same n now fresh v ∙ same)
        (λ n lease pacing retry now v same.
          onward Assignment (finalize_body n lease pacing retry now v) v same
            (finalize_body-Same n lease pacing retry now v))
        (λ n lease now v same.
          onward Lease (confirm_body n lease now v) v same (confirm_body-Same n lease now v))
        (λ u chosen now v same.
          onward Configuration (update_body u chosen now v) v same
            (update_body-Same u chosen now v))
        (λ ids expected now v same.
          onward (List String) (reorder_body ids expected now v) v same
            (reorder_body-Same ids expected now v))
        (λ id p v same. same) a s refl
