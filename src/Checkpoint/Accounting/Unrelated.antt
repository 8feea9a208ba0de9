-- ===== src/Checkpoint/Accounting/Unrelated.antt =====
-- research_loops/checkpoints/service.py: the operations on reviews leave what is accounted.
use autonomous_research_loop.Prelude.{
  ℕ, ◌-◌, String, ◌≡◌, refl, ap, ◌∙◌, not, ◌&&◌, ◌||◌, Option, none, some, List, [], ◌∷◌, map,
  arith, leb, nat_beq, if◌then◌else◌, ◌==◌, eq_iff, inl, inr, Bool-cases, Option-cases,
}
use autonomous_research_loop.Prelude.Int.{ℤ}
use autonomous_research_loop.Prelude.Lists.{length, any, all, keep, lookup, insert, lookup-insert}
use autonomous_research_loop.Control.Proposals.{CheckpointResult}
use autonomous_research_loop.Control.Types.{Topic, Role, DelegateResult, Episode, Logical, stall}
use autonomous_research_loop.Control.Store.{
  topic_of, awaiting_operator, revision_conflict, duplicate_request_conflict, missing_key,
  budget_exhausted,
}
use autonomous_research_loop.Control.Machine.{
  Holds, Holds->>=, Holds-option, Holds-require, Holds-if,
}
use autonomous_research_loop.Control.Records.{if-both}
use autonomous_research_loop.Checkpoint.Scheduled.{list-both}
use autonomous_research_loop.Checkpoint.Episodes.{
  known_topic, open_episode, new_episode, coalesce_episode,
}
use autonomous_research_loop.Checkpoint.Completion.{Digest, is_present, stall_body}
use autonomous_research_loop.Checkpoint.Delegate.{
  is_running, is_text, role_beq, is_reserved, check_capability, launch, reserve_body, result_body,
}
use autonomous_research_loop.Checkpoint.Review.{
  Context, Naming, is_startable, pair_for, start_body, Finished, is_reuse_of, is_counter_record,
  is_known, same_set, hold_review, settle_review, judge_complete, judge, finish_body,
}
use autonomous_research_loop.Checkpoint.Decision.{
  Payload, Publisher, is_number, is_awaiting, select, prepare, is_approval, intend_body, last_lock,
  pending_id, is_pending_of, resolve_proposals, commit_decision, commit_body,
}
use autonomous_research_loop.Checkpoint.Accounting.{Runs}

-- What a topic is credited with.
pub record Count : Type 0 where
  pub completed : ℕ
  pub next : ℕ

abbrev pub count_of : Topic → Count
count_of t = record { completed = t.research_iterations_completed; next = t.next_research_ordinal }

-- The runs of the ledger, with what one topic is credited with.
pub record Tally : Type 0 where
  pub runs : Runs
  pub count : Count

abbrev pub tally : String → Logical → Tally
tally k s = record { runs = s.work.runs; count = count_of (topic_of k s.work.topics) }

pub known_topic-count :
    (k : String) (version : Option String) (topics : List (String × Topic))
    → count_of (known_topic k version topics) ≡ count_of (topic_of k topics)
unfolding known_topic topic_of
known_topic-count k none topics = elim (Option-cases (lookup k topics)) [
  | inl e ↦ rw (known_topic, topic_of, e) refl
  | inr (t, e) ↦ rw (known_topic, topic_of, e) refl
]
known_topic-count k (some version) topics = elim (Option-cases (lookup k topics)) [
  | inl e ↦ rw (known_topic, topic_of, e) refl
  | inr (t, e) ↦ rw (known_topic, topic_of, e) refl
]

pub topic_of-insert :
    (j k : String) (t : Topic) (topics : List (String × Topic))
    → topic_of k (insert j t topics) ≡ (if j == k then t else topic_of k topics)
unfolding topic_of
topic_of-insert j k t topics = ground (arith, lookup-insert j k t topics)

-- A topic that is written with the counts that it had changes no counts.
pub count-insert :
    (j k : String) (t : Topic) (topics : List (String × Topic))
    → count_of t ≡ count_of (topic_of j topics)
    → count_of (topic_of k (insert j t topics)) ≡ count_of (topic_of k topics)
count-insert j k t topics same =
    ap count_of (topic_of-insert j k t topics) ∙ elim (Bool-cases (j == k)) [
      | inl e ↦ rw e (same ∙ ap (λ i. count_of (topic_of i topics)) ((eq_iff j k).0 e))
      | inr e ↦ rw e refl
    ]

pub coalesce_episode-count :
    (fresh : String) (t : Topic) (ids : List String) (episodes : List (String × Episode))
    → count_of (coalesce_episode fresh t ids episodes).topic ≡ count_of t
unfolding coalesce_episode new_episode
coalesce_episode-count fresh t ids episodes = elim (Option-cases (open_episode t episodes)) [
  | inl e ↦ rw (coalesce_episode, e) refl
  | inr (x, e) ↦ rw (coalesce_episode, e) refl
]

module _ (k : String) where
  abbrev pub Same : Logical → Logical → Type 0
  Same s v = tally k v ≡ tally k s

  written :
      (j : String) (t : Topic) (s : Logical)
      → count_of t ≡ count_of (topic_of j s.work.topics)
      → record { runs = s.work.runs; count = count_of (topic_of k (insert j t s.work.topics)) }
        ≡ tally k s
  written j t s same = rw (count-insert j k t s.work.topics same) refl

  pub stall_body-Same :
      (digest : Digest) (topic version fresh : String) (s : Logical)
      → Holds (Same s) (stall_body digest topic version fresh s)
  unfolding stall_body
  stall_body-Same digest topic version fresh s =
      let t = known_topic topic (some version) s.work.topics in
      let ids = digest topic stall t.research_iterations_completed version ∷ [] in
      written topic (coalesce_episode fresh t ids s.work.episodes).topic s (
        coalesce_episode-count fresh t ids s.work.episodes
        ∙ known_topic-count topic (some version) s.work.topics)

  pub start_body-Same :
      (context : Context) (naming : Naming) (episode : String) (station : ℕ) (run : String)
      (now : ℕ) (s : Logical)
      → Holds (Same s) (start_body context naming episode station run now s)
  unfolding start_body insert
  start_body-Same context naming episode station run now s =
      Holds-option (Same s) (lookup episode s.work.episodes) _ _ tt λ e _.
        Holds-if (Same s) (is_running e.state && is_text run e.run_id) _ _ (λ _. refl)
          λ _.
            Holds-require (Same s) (is_startable e.state) awaiting_operator _
              λ _. Holds->>= (Same s) (pair_for e station s) _ λ pair. refl

  pub reserve_body-Same :
      (episode lease invocation : String) (role : Role) (capability : Option String) (now : ℕ)
      (s : Logical)
      → Holds (Same s) (reserve_body episode lease invocation role capability now s)
  unfolding reserve_body
  reserve_body-Same episode lease invocation role capability now s =
      Holds-option (Same s) (lookup episode s.work.episodes) _ _ tt λ e _.
        Holds-require (Same s) (is_running e.state) awaiting_operator _ λ _.
          Holds-require (Same s) (is_text lease e.run_id) revision_conflict _ λ _.
            Holds->>= (Same s) (check_capability capability e.topic_id lease s.work) _ λ _.
              Holds-option (Same s) (lookup invocation e.invocations) _ _
                (Holds->>= (Same s) (launch lease invocation role now e) _ λ after. refl)
                λ i _.
                  Holds-require (Same s) (role_beq i.role role) duplicate_request_conflict _
                    λ _. refl

  pub result_body-Same :
      (episode invocation : String) (code : ℤ) (output : Option String)
      (result : Option DelegateResult) (now : ℕ) (s : Logical)
      → Holds (Same s) (result_body episode invocation code output result now s)
  unfolding result_body
  result_body-Same episode invocation code output result now s =
      Holds-option (Same s) (lookup episode s.work.episodes) _ _ tt λ e _.
        Holds-option (Same s) (lookup invocation e.invocations) _ _ tt
          λ i _. Holds-if (Same s) (is_reserved i) _ _ (λ _. refl) (λ _. refl)

  -- A review that stops writes its topic with the counts that it had.
  settle_review-Same :
      (r : CheckpointResult) (e : Episode) (t : Topic) (s : Logical)
      → count_of t ≡ count_of (topic_of e.topic_id s.work.topics)
      → Same s (settle_review r e t s).1
  unfolding settle_review insert
  settle_review-Same r e t s same =
      list-both (λ (x : Finished × Logical). Same s x.1) r.proposals
        (written e.topic_id (record t { active_episode_id = none; review_state = "eligible" }) s
          same)
        λ p ps.
          written e.topic_id
            (record t {
              proposal_allowance_remaining = t.proposal_allowance_remaining - length r.proposals;
              review_state = "awaiting_operator";
            })
            s same

  judge-Same :
      (context : Context) (r : CheckpointResult) (e : Episode) (t : Topic) (s : Logical)
      → count_of t ≡ count_of (topic_of e.topic_id s.work.topics)
      → Holds (Same s) (judge context r e t s)
  unfolding judge judge_complete hold_review insert
  judge-Same context r e t s same =
      Holds-if (Same s) (not r.complete) _ _
        (λ _. written e.topic_id (record t { review_state = "needs_attention" }) s same)
        λ _.
          Holds-require (Same s) (is_reuse_of r e.prior_review_reference) revision_conflict _ λ _.
            Holds-require (Same s)
              (not (is_present r.reuse_of)
                || is_text (context s e.topic_id) e.material_context_digest)
              revision_conflict _
              λ _.
                Holds-if (Same s)
                  (not (any is_counter_record e.invocations) && not (is_present r.reuse_of)) _ _
                  (λ _. written e.topic_id (record t { review_state = "checkpoint_due" }) s same)
                  λ _.
                    Holds-require (Same s) (not (any (is_known s.work.proposals) r.proposals))
                      duplicate_request_conflict _
                      λ _.
                        Holds-require (Same s)
                          (all (λ id. is_present (lookup id s.work.triggers)) e.trigger_ids)
                          missing_key _
                          λ _.
                            Holds-require (Same s)
                              (leb (length r.proposals) t.proposal_allowance_remaining)
                              budget_exhausted _ λ _. settle_review-Same r e t s same

  pub finish_body-Same :
      (context : Context) (r : CheckpointResult) (s : Logical)
      → Holds (Same s) (finish_body context r s)
  unfolding finish_body
  finish_body-Same context r s =
      Holds-option (Same s) (lookup r.episode_id s.work.episodes) _ _ tt λ e _.
        Holds-if (Same s) (is_text r.run_id e.result_reference) _ _ (λ _. refl)
          λ _.
            Holds-require (Same s) (is_running e.state && is_text r.run_id e.run_id)
              revision_conflict _
              λ _.
                Holds-require (Same s)
                  (r.inventory_version == e.inventory_version
                    && same_set r.trigger_ids e.trigger_ids)
                  revision_conflict _
                  λ _.
                    judge-Same context r (record e { results = insert r.run_id r e.results })
                      (known_topic e.topic_id none s.work.topics) s
                      (known_topic-count e.topic_id none s.work.topics)

  pub intend_body-Same :
      (canonical : String) (p : Payload) (actor : String) (publisher : Option Publisher)
      (s : Logical)
      → Holds (Same s) (intend_body canonical p actor publisher s)
  unfolding intend_body
  intend_body-Same canonical p actor publisher s =
      Holds-option (Same s) (lookup p.request_id s.work.decisions) _ _
        (Holds-require (Same s) (is_number p.expected_revision s.revision) revision_conflict _ λ _.
          Holds-option (Same s) (lookup p.episode_id s.work.episodes) _ _ tt λ e _.
            Holds-require (Same s) (e.topic_id == p.topic_id && is_awaiting e.state)
              awaiting_operator _
              λ _.
                Holds->>= (Same s) (select p.episode_id s.work.proposals [] p.decisions) _
                  λ selected.
                    Holds->>= (Same s) (prepare publisher (keep is_approval selected)) _ λ prepared.
                      written p.topic_id
                        (record (known_topic p.topic_id none s.work.topics) {
                          review_state = "publishing_decision";
                        })
                        s (known_topic-count p.topic_id none s.work.topics))
        λ d _.
          Holds-require (Same s) (d.payload == canonical) duplicate_request_conflict _ λ _. refl

  pub commit_body-Same :
      (request : String) (locks : List String) (s : Logical)
      → Holds (Same s) (commit_body request locks s)
  unfolding commit_body commit_decision
  commit_body-Same request locks s =
      Holds-option (Same s) (lookup request s.work.decision_publications) _ _ tt λ intent _.
        Holds-option (Same s) (lookup request s.work.decisions) _ _
          (Holds-option (Same s) (lookup intent.episode_id s.work.episodes) _ _ tt λ e _.
            Holds->>= (Same s) (resolve_proposals intent.selected s.work.proposals) _ λ proposals.
              let t = known_topic intent.topic_id (last_lock locks) s.work.topics in
              let resolved =
                nat_beq (length (map pending_id (keep (is_pending_of intent.episode_id) proposals)))
                  0 in
              written intent.topic_id
                (if resolved
                  then record t { active_episode_id = none; review_state = "eligible" }
                  else record t { review_state = "awaiting_operator" })
                s
                (if-both
                  (λ (x : Topic). count_of x ≡ count_of (topic_of intent.topic_id s.work.topics))
                  resolved {a = record t { active_episode_id = none; review_state = "eligible" }}
                  {b = record t { review_state = "awaiting_operator" }}
                  (known_topic-count intent.topic_id (last_lock locks) s.work.topics)
                  (known_topic-count intent.topic_id (last_lock locks) s.work.topics)))
          λ d _. refl
