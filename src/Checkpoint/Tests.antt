-- ===== src/Checkpoint/Tests.antt =====
-- Tests of the reviews: a topic whose second research iteration opens an episode.
use autonomous_research_loop.Prelude.{
  ◌+◌, String, ◌≡◌, ◌≢◌, refl, sym, ap, true, false, none, some, List, [], ◌∷◌,
}
use autonomous_research_loop.Prelude.Int.{pos}
use autonomous_research_loop.Prelude.Texts.{strip}
use autonomous_research_loop.Prelude.Lists.{lookup}
use autonomous_research_loop.Prelude.Tables.{AllValues}
use autonomous_research_loop.Queue.Add.{new_item}
use autonomous_research_loop.Queue.Store.{empty_state}
use autonomous_research_loop.Control.Types.{
  Accounting, Run, Pair, checkpoint_running, Episode, Logical,
}
use autonomous_research_loop.Control.Store.{topic_of, default_topic_record, returned}
use autonomous_research_loop.Control.Configuration.{validate_state}
use autonomous_research_loop.Control.Station.{number}
use autonomous_research_loop.Control.Machine.{claiming, transaction-changed}
use autonomous_research_loop.Control.Tests.{start}
use mathlib.Core.List.{Memᴰ}
use autonomous_research_loop.Checkpoint.Episodes.{episode_for}
use autonomous_research_loop.Checkpoint.Starts.{start_checkpoint-starts}
use autonomous_research_loop.Checkpoint.Completion.{
  Digest, Completion, account, accept_body, accept_research_completion,
}
use autonomous_research_loop.Checkpoint.Review.{Context, Naming, start_checkpoint}
use autonomous_research_loop.Checkpoint.Machine.{
  Step, scheduling, accepting, starting, reserving, recording, history,
}
use autonomous_research_loop.Checkpoint.Budget.{Bounded}
use autonomous_research_loop.Checkpoint.Budget.History.{history-Bounded}
use autonomous_research_loop.Checkpoint.Accounting.{Ordinals, completed}
use autonomous_research_loop.Checkpoint.Accounting.History.{history-Ordinals}
use autonomous_research_loop.Checkpoint.Accounting.Once.{accept_research_completion-once}
use autonomous_research_loop.Checkpoint.Accounting.Balance.{Settled, credits, history-Balanced}

abbrev digest : Digest
digest topic kind ordinal version = topic

abbrev context : Context
context s topic = topic

abbrev naming : Naming
naming episode role n = episode

-- A review is due after every second iteration.
abbrev every_second : Logical
every_second = record start {
  configuration = record start.configuration {
    checkpoints = record start.configuration.checkpoints { every_research_iterations = pos 2 };
  };
}

abbrev completion : String → Completion
completion id = record {
  topic_id = "lakes";
  run_id = id;
  station_id = 1;
  inventory_version = "v1";
  accepted = true;
  deepening_entry = false;
  lease_generation = none;
}

abbrev steps : List Step
steps =
    accepting (completion "run-1") "episode-1" 10
    ∷ accepting (completion "run-1") "episode-1" 11
    ∷ accepting (completion "run-2") "episode-1" 12
    ∷ starting "episode-1" 1 "run-3" 13
    ∷ reserving "episode-1" "run-3" "call-1" "counter" none 14
    ∷ recording "episode-1" "call-1" (pos 124) none none 15
    ∷ reserving "episode-1" "run-3" "call-2" "counter" none 16
    ∷ []

abbrev after_one : Logical
after_one = (account digest (completion "run-1") none "episode-1" 10 every_second).1

abbrev first_result : Accounting
first_result = (account digest (completion "run-1") none "episode-1" 10 every_second).0

empty-nonempty : {r : String × Run} {rs : List (String × Run)} → [] ≢ r ∷ rs
empty-nonempty h = cc

first-completion :
    accept_research_completion digest (completion "run-1") "episode-1" 10 every_second
    ≡ returned (first_result, record after_one { revision = 1 })
unfolding accept_research_completion accept_body account validate_state strip empty_state new_item
    default_topic_record
first-completion =
    transaction-changed validate_state (accept_body digest (completion "run-1") "episode-1" 10)
      every_second after_one first_result refl
      (λ e. empty-nonempty (ap (λ (s : Logical). s.work.runs) (sym e))) refl

history-Bounded_example :
    AllValues
      (λ e. Bounded e.invocations)
      (history digest context naming steps every_second).work.episodes
history-Bounded_example = history-Bounded digest context naming steps every_second tt

-- A ledger without runs and topics.
every_second-Ordinals : Ordinals every_second
unfolding lookup topic_of default_topic_record
every_second-Ordinals = record {
  next = λ k. refl;
  counted = λ a r o found. cc;
  once = λ a b q r o apart found. cc;
}

history-Ordinals_example : Ordinals (
    history digest context naming
      (scheduling (claiming (number (pos 1)) 9 "run-0") ∷ steps)
      every_second)
history-Ordinals_example =
    history-Ordinals digest context naming
      (scheduling (claiming (number (pos 1)) 9 "run-0") ∷ steps) every_second every_second-Ordinals

accept_research_completion-once_example :
    accept_research_completion digest
      (record (completion "run-1") { accepted = false })
      "episode-2"
      20
      (history digest context naming
        (accepting (completion "run-2") "episode-1" 12 ∷ [])
        (record after_one { revision = 1 }))
    ≡ returned (
      first_result,
      history digest context naming
          (accepting (completion "run-2") "episode-1" 12 ∷ [])
          (record after_one { revision = 1 }),
    )
unfolding strip
accept_research_completion-once_example =
    accept_research_completion-once digest context naming (completion "run-1")
      (record (completion "run-1") { accepted = false }) "episode-1" "episode-2" 10 20 every_second
      (record after_one { revision = 1 }) first_result
      (accepting (completion "run-2") "episode-1" 12 ∷ []) first-completion refl refl refl (tt, tt)

every_second-Settled : Settled every_second
unfolding lookup
every_second-Settled a r found = cc

history-Balanced_example :
    completed "lakes" (history digest context naming steps every_second)
      + credits "lakes" every_second
    ≡ completed "lakes" every_second
      + credits "lakes" (history digest context naming steps every_second)
history-Balanced_example =
    history-Balanced "lakes" digest context naming steps every_second
      (tt, (tt, (tt, (tt, (tt, (tt, (tt, tt))))))) every_second-Settled

abbrev due_state : Logical
due_state = record every_second {
  work = record every_second.work {
    episodes =
        ("episode-1", episode_for "episode-1" (default_topic_record "lakes" (some "v1")) []) ∷ [];
  };
}

due_state-valid : validate_state due_state ≡ returned tt
unfolding validate_state strip
due_state-valid = refl

start_checkpoint-starts_example :
    (e' : Episode) × (w : Logical) × (start_checkpoint context naming "episode-1" 2 "run-3" 13
        due_state
      ≡ returned (e', w))
    × (lookup "episode-1" w.work.episodes ≡ some e')
    × (e'.state ≡ checkpoint_running)
    × (e'.run_id ≡ some "run-3")
    × (e'.station_id ≡ some 2)
    × ((p : Pair) × (e'.resolved_agent_pair ≡ some p))
unfolding lookup episode_for
start_checkpoint-starts_example =
    start_checkpoint-starts context naming "episode-1" 2 "run-3" 13 due_state
      (episode_for "episode-1" (default_topic_record "lakes" (some "v1")) []) due_state-valid
      (Memᴰ.tail (Memᴰ.head refl)) refl refl
