-- ===== src/Checkpoint/Budget/Opened.antt =====
-- research_loops/checkpoints/service.py: completions and stalls keep the accounts of all episodes.
use mathlib.Core.Path.{subst}
use autonomous_research_loop.Prelude.{
  ℕ, ◌+◌, String, true, ◌≡◌, ap, ◌||◌, Option, none, some, List, [], ◌∷◌, map, arith, not, inl, inr,
  Bool-cases, Option-cases, ◌==◌,
}
use autonomous_research_loop.Prelude.Lists.{lookup}
use autonomous_research_loop.Prelude.Tables.{AllValues, AllValues-lookup, AllValues-insert}
use autonomous_research_loop.Control.Types.{
  Topic, Episode, Logical, TriggerKind, stall, Work, Run, Accounting,
}
use autonomous_research_loop.Control.Store.{revision_conflict, duplicate_request_conflict}
use autonomous_research_loop.Control.Machine.{Holds, Holds-option, Holds-require}
use autonomous_research_loop.Control.Records.{if-both}
use autonomous_research_loop.Checkpoint.Episodes.{
  is_open, open_episode, episode_for, add_ids, known_topic, new_episode, coalesce_episode,
}
use autonomous_research_loop.Checkpoint.Completion.{
  Digest, Completion, fired_kinds, counted, add_triggers, fire, account, count_run, refuse,
  conclude, opened, accept_body, stall_body, has_pruned, is_present, current_lease,
}
use autonomous_research_loop.Checkpoint.Budget.{EpisodeInBudget}

abbrev pub Kept : Logical → Type 0
Kept s = AllValues EpisodeInBudget s.work.episodes

-- The open episode of a topic is in the ledger.
open_episode-found :
    (t : Topic) (episodes : List (String × Episode)) {e : Episode}
    → open_episode t episodes ≡ some e
    → (id : String) × (t.active_episode_id ≡ some id)
      × (lookup id episodes ≡ some e)
      × (is_open e.state ≡ true)
unfolding open_episode
open_episode-found t episodes {e = e} h = elim (Option-cases t.active_episode_id) [
  | inl idle ↦ absurd (ground (arith, idle, h))
  | inr (id, active) ↦ elim (Option-cases (lookup id episodes)) [
    | inl gone ↦ absurd (ground (arith, active, gone, h))
    | inr (e', has) ↦ elim (Bool-cases (is_open e'.state)) [
      | inr closed ↦ absurd (ground (arith, active, has, closed, h))
      | inl open_now ↦
          let same : e' ≡ e = ground (arith, active, has, open_now, h) in
          (id, active, rw has (ap some same), subst (λ x. is_open x.state ≡ true) same open_now)
    ]
  ]
]

episode_for-InBudget :
    (fresh : String) (t : Topic) (ids : List String) → EpisodeInBudget (episode_for fresh t ids)
unfolding episode_for
episode_for-InBudget fresh t ids = record {
  slots = omega arith;
  refunded = omega arith;
  single = omega arith;
  places = λ role. omega arith;
  fresh = tt;
}

coalesce_episode-Kept :
    (fresh : String) (t : Topic) (ids : List String) (episodes : List (String × Episode))
    → AllValues EpisodeInBudget episodes
    → AllValues EpisodeInBudget (coalesce_episode fresh t ids episodes).episodes
unfolding coalesce_episode new_episode
coalesce_episode-Kept fresh t ids episodes h = elim (Option-cases (open_episode t episodes)) [
  | inl closed ↦
      rw (coalesce_episode, closed)
        (AllValues-insert EpisodeInBudget fresh (episode_for fresh t ids) episodes h
          (episode_for-InBudget fresh t ids))
  | inr (e, found) ↦
      let (id, active, has, open_now) = open_episode-found t episodes found in
      let account = AllValues-lookup EpisodeInBudget id episodes h has in
      rw (coalesce_episode, found)
        (AllValues-insert EpisodeInBudget _ (record e { trigger_ids = add_ids e.trigger_ids ids })
          episodes h account)
]

opened-Kept :
    (fresh version : String) (kinds : List TriggerKind) (ids : List String) (t : Topic) (w : Work)
    → AllValues EpisodeInBudget w.episodes
    → AllValues EpisodeInBudget (opened fresh version kinds ids t w).1.episodes
unfolding opened
opened-Kept fresh version kinds [] t w h = h
opened-Kept fresh version kinds (k ∷ ks) t w h = coalesce_episode-Kept fresh t (k ∷ ks) w.episodes h

module _ (digest : Digest) where
  fire-Kept :
      (c : Completion) (fresh : String) (t : Topic) (s : Logical)
      → Kept s
      → AllValues EpisodeInBudget (fire digest c fresh t s).1.episodes
  unfolding fire
  fire-Kept c fresh t s h =
      let policy = s.configuration.checkpoints in
      let ordinal = t.research_iterations_completed + 1 in
      let kinds = fired_kinds policy c ordinal t in
      opened-Kept fresh c.inventory_version kinds
        (map (λ kind. digest c.topic_id kind ordinal c.inventory_version) kinds)
        (counted policy c t)
        (record s.work { triggers = add_triggers digest c ordinal kinds s.work.triggers }) h

  account-Kept :
      (c : Completion) (prior : Option Run) (fresh : String) (now : ℕ) (s : Logical)
      → Kept s
      → Kept (account digest c prior fresh now s).1
  unfolding account count_run refuse conclude
  account-Kept c prior fresh now s h =
      if-both (λ (x : Accounting × Logical). Kept x.1) c.accepted
        {a = count_run digest c prior fresh now s} {b = refuse c prior now s}
        (fire-Kept c fresh (known_topic c.topic_id (some c.inventory_version) s.work.topics) s h) h

  pub accept_body-Kept :
      (c : Completion) (fresh : String) (now : ℕ) (s : Logical)
      → Kept s
      → Holds Kept (accept_body digest c fresh now s)
  unfolding accept_body
  accept_body-Kept c fresh now s h =
      Holds-option Kept (lookup c.run_id s.work.runs) _ _
        (Holds-require Kept
          (not (has_pruned c.topic_id s.work)
            || is_present (current_lease c.topic_id c.run_id s.work))
          revision_conflict _ λ _. account-Kept c none fresh now s h)
        λ r _. Holds-require Kept (r.topic_id == c.topic_id) duplicate_request_conflict _ λ _.
          Holds-option Kept r.accounting_result _ _
            (Holds-require Kept (r.state == "started") revision_conflict _
              λ _. account-Kept c (some r) fresh now s h)
            λ result _. h

  pub stall_body-Kept :
      (topic version fresh : String) (s : Logical)
      → Kept s
      → Holds Kept (stall_body digest topic version fresh s)
  unfolding stall_body
  stall_body-Kept topic version fresh s h =
      let t = known_topic topic (some version) s.work.topics in
      coalesce_episode-Kept fresh t
        (digest topic stall t.research_iterations_completed version ∷ []) s.work.episodes h
