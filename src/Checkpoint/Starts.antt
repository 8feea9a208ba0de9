-- ===== src/Checkpoint/Starts.antt =====
-- research_loops/checkpoints/service.py: a due review can be started.
use autonomous_research_loop.Prelude.{
  ℕ, ◌+◌, String, ◌≡◌, refl, sym, ap, ◌∙◌, true, false, some, inl, inr, Option-cases, eq_iff,
}
use autonomous_research_loop.Prelude.Lists.{lookup, insert, lookup-insert}
use autonomous_research_loop.Control.Types.{
  Pair, EpisodeState, checkpoint_running, Episode, Logical, Logical-discrete,
}
use autonomous_research_loop.Control.Store.{returned, commit, transaction}
use autonomous_research_loop.Control.Configuration.{validate_state}
use autonomous_research_loop.Control.Station.{Operation}
use autonomous_research_loop.Control.Valid.{IsValid}
use autonomous_research_loop.Control.Valid.Reviews.{IsStation, checkpoint-pair}
use autonomous_research_loop.Checkpoint.Delegate.{is_running, with_episode}
use autonomous_research_loop.Checkpoint.Review.{
  Context, Naming, is_startable, pair_for, prior_review, started, start_body, start_checkpoint,
}

-- A transaction whose body returns with a valid state returns that state, but for its revision.
transaction-returns :
    {A : Type 0} (body : Operation A) (s v : Logical) (a : A)
    → body s ≡ returned (a, v)
    → validate_state v ≡ returned tt
    → (w : Logical) × (transaction validate_state body s ≡ returned (a, w)) × (w.work ≡ v.work)
unfolding transaction
transaction-returns {A = A} body s v a ran valid = rw ran (decided (Logical-discrete v s))
  where
    decided :
        (same : Dec (v ≡ s))
        → (w : Logical) × (commit same (validate_state v) a ≡ returned (a, w)) × (w.work ≡ v.work)
    decided (yes same) = (s, refl, ap (λ x. x.work) (sym same))
    decided (no differs) = (record v { revision = s.revision + 1 }, rw valid refl, refl)

pair_for-resolves :
    (e : Episode) (n : ℕ) (s : Logical)
    → IsValid s
    → IsStation (some n)
    → (p : Pair) × (pair_for e n s ≡ returned p)
unfolding pair_for
pair_for-resolves e n s valid station = elim (Option-cases e.resolved_agent_pair) [
  | inr (p, e') ↦ (p, rw (pair_for, e') refl)
  | inl e' ↦
      let (p, resolved) = checkpoint-pair s valid (some n) station in
      (p, rw (pair_for, e') resolved)
]

startable-idle : (state : EpisodeState) → is_startable state ≡ true → is_running state ≡ false
startable-idle EpisodeState.due h = refl
startable-idle EpisodeState.retry_wait h = refl
startable-idle checkpoint_running h = cc
startable-idle EpisodeState.awaiting_operator h = cc
startable-idle EpisodeState.publishing_decision h = cc
startable-idle EpisodeState.needs_attention h = cc
startable-idle EpisodeState.complete_without_proposals h = cc
startable-idle EpisodeState.complete_with_decisions h = cc

-- In a valid state, each of the stations can start every episode that is due or waits for a retry:
-- the call returns, and the episode then runs for that run and station with a resolved pair.
pub start_checkpoint-starts :
    (context : Context) (naming : Naming) (id : String) (n : ℕ) (run : String) (now : ℕ)
    (s : Logical) (e : Episode)
    → IsValid s
    → IsStation (some n)
    → lookup id s.work.episodes ≡ some e
    → is_startable e.state ≡ true
    → (e' : Episode) × (w : Logical) × (start_checkpoint context naming id n run now s
        ≡ returned (e', w))
      × (lookup id w.work.episodes ≡ some e')
      × (e'.state ≡ checkpoint_running)
      × (e'.run_id ≡ some run)
      × (e'.station_id ≡ some n)
      × ((p : Pair) × (e'.resolved_agent_pair ≡ some p))
unfolding start_checkpoint start_body started insert
start_checkpoint-starts context naming id n run now s e valid station found ready =
    let (p, resolved) = pair_for-resolves e n s valid station in
    let digest = context s e.topic_id in
    let after =
      started naming p digest n run s.revision now (prior_review e.topic_id digest s.work.episodes)
        e in
    let body = start_body context naming id n run now in
    let ran : body s ≡ returned (after, with_episode id after s) =
      rw (start_body, found, startable-idle e.state ready, ready, resolved) refl in
    let (w, returns, same) = transaction-returns body s (with_episode id after s) after ran valid in
    (
      after,
      w,
      returns,
      ap (λ x. lookup id x.episodes) same
          ∙ lookup-insert id id after s.work.episodes
          ∙ rw ((eq_iff id id).1 refl) refl,
      refl,
      refl,
      refl,
      (p, refl),
    )
