-- ===== src/Checkpoint/Accounting/Counted.antt =====
-- research_loops/checkpoints/service.py: what an accounted completion writes.
use autonomous_research_loop.Prelude.{
  ℕ, ◌+◌, String, ◌≡◌, refl, ap, ◌∙◌, true, false, Option, none, some, List, [], ◌∷◌, map,
  if◌then◌else◌, ◌==◌, inl, inr, ◌⊎◌, Bool-cases,
}
use autonomous_research_loop.Prelude.Lists.{insert}
use autonomous_research_loop.Control.Types.{Topic, Accounting, Run, TriggerKind, Work, Logical}
use autonomous_research_loop.Control.Store.{topic_of}
use autonomous_research_loop.Control.Records.{if-both}
use autonomous_research_loop.Checkpoint.Episodes.{known_topic}
use autonomous_research_loop.Checkpoint.Completion.{
  Digest, Completion, accounted, ended_run, opened, fired_kinds, counted, add_triggers, fire,
  conclude, refuse, count_run, account,
}
use autonomous_research_loop.Checkpoint.Accounting.{completed}
use autonomous_research_loop.Checkpoint.Accounting.Unrelated.{
  count_of, known_topic-count, topic_of-insert, count-insert, coalesce_episode-count,
}

-- The run counts as its topic's next iteration, or the counts stay.
abbrev pub Numbered : Completion → Logical → Run → Logical → Type 0
Numbered c s r v =
    (r.completion_accounted ≡ true)
    × (r.ordinal ≡ some (completed c.topic_id s + 1))
    × ((k : String)
        → count_of (topic_of k v.work.topics) ≡ (
            if c.topic_id == k
            then record {
              completed = completed c.topic_id s + 1;
              next = completed c.topic_id s + 1 + 1;
            }
            else count_of (topic_of k s.work.topics)))

abbrev pub Unnumbered : Logical → Run → Logical → Type 0
Unnumbered s r v =
    (r.completion_accounted ≡ false)
    × (r.ordinal ≡ none)
    × ((k : String) → count_of (topic_of k v.work.topics) ≡ count_of (topic_of k s.work.topics))

-- One run is written, with the result that is returned.
pub record Effect (c : Completion) (s : Logical) (x : Accounting × Logical) : Type 0 where
  pub run : Run
  pub written : x.1.work.runs ≡ insert c.run_id run s.work.runs
  pub topic : run.topic_id ≡ c.topic_id
  pub result : run.accounting_result ≡ some x.0
  pub counts : Numbered c s run x.1 ⊎ Unnumbered s run x.1

opened-kept :
    (fresh version : String) (kinds : List TriggerKind) (ids : List String) (t : Topic) (w : Work)
    → ((opened fresh version kinds ids t w).1.runs ≡ w.runs)
      × ((opened fresh version kinds ids t w).1.topics ≡ w.topics)
      × (count_of (opened fresh version kinds ids t w).0 ≡ count_of t)
unfolding opened
opened-kept fresh version kinds [] t w = (refl, refl, refl)
opened-kept fresh version kinds (k ∷ ks) t w =
    (refl, refl, coalesce_episode-count fresh t (k ∷ ks) w.episodes)

module _ (digest : Digest) (c : Completion) (prior : Option Run) (fresh : String) (now : ℕ)
    (s : Logical) where
  fire-kept :
      (t : Topic)
      → ((fire digest c fresh t s).1.runs ≡ s.work.runs)
        × ((fire digest c fresh t s).1.topics ≡ s.work.topics)
        × (count_of (fire digest c fresh t s).0 ≡ record {
          completed = t.research_iterations_completed + 1;
          next = t.research_iterations_completed + 1 + 1;
        })
  unfolding fire counted
  fire-kept t =
      let policy = s.configuration.checkpoints in
      let ordinal = t.research_iterations_completed + 1 in
      let kinds = fired_kinds policy c ordinal t in
      opened-kept fresh c.inventory_version kinds
        (map (λ kind. digest c.topic_id kind ordinal c.inventory_version) kinds)
        (counted policy c t)
        (record s.work { triggers = add_triggers digest c ordinal kinds s.work.triggers })

  count_run-Effect : Effect c s (count_run digest c prior fresh now s)
  unfolding count_run conclude ended_run
  count_run-Effect =
      let t = known_topic c.topic_id (some c.inventory_version) s.work.topics in
      let (runs, topics, count) = fire-kept t in
      let same =
        ap (λ n. n.completed)
          (known_topic-count c.topic_id (some c.inventory_version) s.work.topics) in
      let after = fire digest c fresh t s in
      let result = accounted c (t.research_iterations_completed + 1) after.0 in
      record {
        run = record (ended_run c prior now) {
          ordinal = some (t.research_iterations_completed + 1);
          completion_accounted = true;
          accounting_result = some result;
        };
        written = ap (insert c.run_id _) runs;
        topic = refl;
        result = refl;
        counts = inl (
          refl,
          ap (λ n. some (n + 1)) same,
          λ k.
              ap count_of (topic_of-insert c.topic_id k after.0 after.1.topics)
              ∙ elim (Bool-cases (c.topic_id == k)) [
                | inl e ↦
                    rw e (count ∙ ap (λ n. record { completed = n + 1; next = n + 1 + 1 }) same)
                | inr e ↦ rw e (ap (λ ts. count_of (topic_of k ts)) topics)
              ],
        );
      }

  refuse-Effect : Effect c s (refuse c prior now s)
  unfolding refuse conclude ended_run
  refuse-Effect = record {
    run = record (ended_run c prior now) { accounting_result = some (refuse c prior now s).0 };
    written = refl;
    topic = refl;
    result = refl;
    counts = inr (
      refl,
      refl,
      λ k.
          count-insert c.topic_id k
            (known_topic c.topic_id (some c.inventory_version) s.work.topics) s.work.topics
            (known_topic-count c.topic_id (some c.inventory_version) s.work.topics),
    );
  }

  pub account-Effect : Effect c s (account digest c prior fresh now s)
  unfolding account
  account-Effect =
      if-both (Effect c s) c.accepted {a = count_run digest c prior fresh now s}
        {b = refuse c prior now s} count_run-Effect refuse-Effect
