-- ===== src/Checkpoint/Budget/History.antt =====
-- research_loops/checkpoints/service.py: every operation keeps the accounts of all episodes.
use autonomous_research_loop.Prelude.{
  ℕ, ◌-◌, String, ap, ◌&&◌, ◌||◌, Option, none, List, [], arith, not, leb, inl, inr, Option-cases,
  ◌==◌,
}
use autonomous_research_loop.Prelude.Int.{ℤ}
use autonomous_research_loop.Prelude.Lists.{length, any, keep, all, lookup, insert}
use autonomous_research_loop.Prelude.Tables.{
  AllValues, AllValues-lookup, AllValues-insert, AllValues-map,
}
use autonomous_research_loop.Control.Proposals.{CheckpointResult}
use autonomous_research_loop.Control.Types.{
  Topic, Role, DelegateResult, Invocation, Episode, publishing_decision, Logical, Budgets,
}
use autonomous_research_loop.Control.Store.{
  awaiting_operator, revision_conflict, duplicate_request_conflict, missing_key, budget_exhausted,
}
use autonomous_research_loop.Control.Machine.{
  Holds, Holds->>=, Holds-option, Holds-cases, Holds-require, Holds-chain, Holds-if,
}
use autonomous_research_loop.Checkpoint.Episodes.{known_topic}
use autonomous_research_loop.Checkpoint.Completion.{Digest, account, is_present}
use autonomous_research_loop.Checkpoint.Delegate.{
  is_running, is_text, role_beq, is_reserved, check_capability, launch, settle, reserve_body,
  result_body,
}
use autonomous_research_loop.Checkpoint.Review.{
  Context, Naming, or_two, is_startable, prior_review, pair_for, started, start_body, hold_review,
  Finished, is_reuse_of, is_counter_record, is_known, same_set, settle_review, judge_complete,
  judge, finish_body,
}
use autonomous_research_loop.Checkpoint.Decision.{
  Payload, Publisher, is_number, is_awaiting, select, prepare, is_approval, intend_body,
  resolve_proposals, commit_decision, commit_body,
}
use autonomous_research_loop.Checkpoint.Machine.{Step, Anything, All-Admits, history, history-Holds}
use autonomous_research_loop.Checkpoint.Scheduled.{list-both, exec-Same}
use autonomous_research_loop.Checkpoint.Budget.{
  InBudget, EpisodeInBudget, Bounded, InBudget-Bounded,
}
use autonomous_research_loop.Checkpoint.Budget.Spending.{launch-Holds, settle-InBudget}
use autonomous_research_loop.Checkpoint.Budget.Opened.{Kept, accept_body-Kept, stall_body-Kept}

-- An episode without the field for refunds gets it when it is started.
started-InBudget :
    {b : Budgets} {calls : List (String × Invocation)}
    → InBudget b calls
    → InBudget (record b { infra_refunds_remaining = or_two b.infra_refunds_remaining }) calls
started-InBudget {b = b} h = record {
  slots = h.slots;
  refunded = elim (Option-cases b.infra_refunds_remaining) [
    | inl e ↦ ground (arith, e, h.refunded)
    | inr (n, e) ↦ ground (arith, e, h.refunded)
  ];
  single = h.single;
  places = h.places;
  fresh = h.fresh;
}

start_body-Kept :
    (context : Context) (naming : Naming) (episode : String) (station : ℕ) (run : String) (now : ℕ)
    (s : Logical)
    → Kept s
    → Holds Kept (start_body context naming episode station run now s)
unfolding start_body started insert
start_body-Kept context naming episode station run now s h =
    Holds-option Kept (lookup episode s.work.episodes) _ _ tt λ e found.
      Holds-if Kept (is_running e.state && is_text run e.run_id) _ _ (λ _. h)
        λ _. Holds-require Kept (is_startable e.state) awaiting_operator _ λ _.
          Holds->>= Kept (pair_for e station s) _ λ pair.
            let digest = context s e.topic_id in
            AllValues-insert EpisodeInBudget episode
              (started naming pair digest station run s.revision now
                (prior_review e.topic_id digest s.work.episodes) e)
              s.work.episodes h
              (started-InBudget (AllValues-lookup EpisodeInBudget episode s.work.episodes h found))

reserve_body-Kept :
    (episode lease invocation : String) (role : Role) (capability : Option String) (now : ℕ)
    (s : Logical)
    → Kept s
    → Holds Kept (reserve_body episode lease invocation role capability now s)
unfolding reserve_body insert
reserve_body-Kept episode lease invocation role capability now s h =
    Holds-option Kept (lookup episode s.work.episodes) _ _ tt λ e found.
      Holds-require Kept (is_running e.state) awaiting_operator _ λ _.
        Holds-require Kept (is_text lease e.run_id) revision_conflict _ λ _.
          Holds->>= Kept (check_capability capability e.topic_id lease s.work) _ λ _.
            Holds-cases Kept (lookup invocation e.invocations) _ _
              (λ new.
                Holds-chain EpisodeInBudget Kept (launch lease invocation role now e) _
                  (launch-Holds lease invocation role now e new
                    (AllValues-lookup EpisodeInBudget episode s.work.episodes h found))
                  λ i e' _ account.
                    AllValues-insert EpisodeInBudget episode e' s.work.episodes h account)
              λ i _. Holds-require Kept (role_beq i.role role) duplicate_request_conflict _ λ _. h

result_body-Kept :
    (episode invocation : String) (code : ℤ) (output : Option String)
    (result : Option DelegateResult) (now : ℕ) (s : Logical)
    → Kept s
    → Holds Kept (result_body episode invocation code output result now s)
unfolding result_body insert
result_body-Kept episode invocation code output result now s h =
    Holds-option Kept (lookup episode s.work.episodes) _ _ tt λ e found.
      Holds-option Kept (lookup invocation e.invocations) _ _ tt λ i has.
        Holds-if Kept (is_reserved i) _ _
          (λ running.
            AllValues-insert EpisodeInBudget episode
              (settle invocation code output result now i e).1 s.work.episodes h
              (settle-InBudget invocation code output result now i e has running
                (AllValues-lookup EpisodeInBudget episode s.work.episodes h found)))
          λ _. h

-- A review that ends changes neither the slots nor the calls.
proposed-InBudget :
    {b : Budgets} {calls : List (String × Invocation)} (n : ℕ)
    → InBudget b calls
    → InBudget (record b { final_proposals = n }) calls
proposed-InBudget n h = record {
  slots = h.slots;
  refunded = h.refunded;
  single = h.single;
  places = h.places;
  fresh = h.fresh;
}

settle_review-Kept :
    (r : CheckpointResult) (e : Episode) (t : Topic) (s : Logical)
    → EpisodeInBudget e
    → Kept s
    → Kept (settle_review r e t s).1
unfolding settle_review insert
settle_review-Kept r e t s account h =
    list-both (λ (x : Finished × Logical). Kept x.1) r.proposals
      (AllValues-insert EpisodeInBudget r.episode_id _ s.work.episodes h account)
      λ p ps.
        AllValues-insert EpisodeInBudget r.episode_id _ s.work.episodes h
          (proposed-InBudget (t.proposal_allowance_remaining - length r.proposals) account)

judge-Kept :
    (context : Context) (r : CheckpointResult) (e : Episode) (t : Topic) (s : Logical)
    → EpisodeInBudget e
    → Kept s
    → Holds Kept (judge context r e t s)
unfolding judge judge_complete hold_review insert
judge-Kept context r e t s account h =
    let kept = λ (e' : Episode) (same : EpisodeInBudget e').
      AllValues-insert EpisodeInBudget r.episode_id e' s.work.episodes h same in
    Holds-if Kept (not r.complete) _ _ (λ _. kept _ account)
      λ _. Holds-require Kept (is_reuse_of r e.prior_review_reference) revision_conflict _ λ _.
        Holds-require Kept
          (not (is_present r.reuse_of) || is_text (context s e.topic_id) e.material_context_digest)
          revision_conflict _
          λ _.
            Holds-if Kept (not (any is_counter_record e.invocations) && not (is_present r.reuse_of))
              _ _ (λ _. kept _ account)
              λ _.
                Holds-require Kept (not (any (is_known s.work.proposals) r.proposals))
                  duplicate_request_conflict _
                  λ _.
                    Holds-require Kept
                      (all (λ id. is_present (lookup id s.work.triggers)) e.trigger_ids) missing_key
                      _
                      λ _.
                        Holds-require Kept (leb (length r.proposals) t.proposal_allowance_remaining)
                          budget_exhausted _ λ _. settle_review-Kept r e t s account h

finish_body-Kept :
    (context : Context) (r : CheckpointResult) (s : Logical)
    → Kept s
    → Holds Kept (finish_body context r s)
unfolding finish_body
finish_body-Kept context r s h =
    Holds-option Kept (lookup r.episode_id s.work.episodes) _ _ tt λ e found.
      Holds-if Kept (is_text r.run_id e.result_reference) _ _ (λ _. h)
        λ _.
          Holds-require Kept (is_running e.state && is_text r.run_id e.run_id) revision_conflict _
            λ _.
              Holds-require Kept
                (r.inventory_version == e.inventory_version && same_set r.trigger_ids e.trigger_ids)
                revision_conflict _
                λ _.
                  judge-Kept context r (record e { results = insert r.run_id r e.results })
                    (known_topic e.topic_id none s.work.topics) s
                    (AllValues-lookup EpisodeInBudget r.episode_id s.work.episodes h found) h

intend_body-Kept :
    (canonical : String) (p : Payload) (actor : String) (publisher : Option Publisher) (s : Logical)
    → Kept s
    → Holds Kept (intend_body canonical p actor publisher s)
unfolding intend_body
intend_body-Kept canonical p actor publisher s h =
    Holds-option Kept (lookup p.request_id s.work.decisions) _ _
      (Holds-require Kept (is_number p.expected_revision s.revision) revision_conflict _ λ _.
        Holds-option Kept (lookup p.episode_id s.work.episodes) _ _ tt λ e found.
          Holds-require Kept (e.topic_id == p.topic_id && is_awaiting e.state) awaiting_operator _
            λ _. Holds->>= Kept (select p.episode_id s.work.proposals [] p.decisions) _ λ selected.
              Holds->>= Kept (prepare publisher (keep is_approval selected)) _ λ prepared.
                AllValues-insert EpisodeInBudget p.episode_id
                  (record e { state = publishing_decision }) s.work.episodes h
                  (AllValues-lookup EpisodeInBudget p.episode_id s.work.episodes h found))
      λ d _. Holds-require Kept (d.payload == canonical) duplicate_request_conflict _ λ _. h

commit_body-Kept :
    (request : String) (locks : List String) (s : Logical)
    → Kept s
    → Holds Kept (commit_body request locks s)
unfolding commit_body commit_decision
commit_body-Kept request locks s h =
    Holds-option Kept (lookup request s.work.decision_publications) _ _ tt λ intent _.
      Holds-option Kept (lookup request s.work.decisions) _ _
        (Holds-option Kept (lookup intent.episode_id s.work.episodes) _ _ tt λ e found.
          Holds->>= Kept (resolve_proposals intent.selected s.work.proposals) _ λ proposals.
            AllValues-insert EpisodeInBudget intent.episode_id _ s.work.episodes h
              (AllValues-lookup EpisodeInBudget intent.episode_id s.work.episodes h found))
        λ d _. h

-- Over any sequence of the operations of the reviews and of the scheduler, at any times, raised
-- errors included, from a state in which each episode's account is in order, the delegate calls of
-- every episode are at most six, of which at most one is running, and each role has succeeded at
-- most once.
pub history-Bounded :
    (digest : Digest) (context : Context) (naming : Naming) (steps : List Step) (s : Logical)
    → AllValues EpisodeInBudget s.work.episodes
    → AllValues (λ e. Bounded e.invocations) (history digest context naming steps s).work.episodes
history-Bounded digest context naming steps s h =
    AllValues-map EpisodeInBudget (λ e. Bounded e.invocations)
      (history digest context naming steps s).work.episodes (λ e account. InBudget-Bounded account)
      (history-Holds digest context naming Anything Kept (λ v n kept. kept)
        (λ a v _ kept. rw (ap (λ x. x.episodes) (exec-Same "" a v)) kept) (accept_body-Kept digest)
        (stall_body-Kept digest) (start_body-Kept context naming) reserve_body-Kept result_body-Kept
        (finish_body-Kept context) intend_body-Kept commit_body-Kept steps s (All-Admits steps) h)
