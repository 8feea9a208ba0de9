-- ===== src/Control/Compact/Tests.antt =====
-- Tests of the compaction: a ledger with a run that has started and one that has ended.
use autonomous_research_loop.Prelude.{◌≡◌, refl, false, none, some, [], ◌∷◌}
use autonomous_research_loop.Prelude.Lists.{lookup}
use autonomous_research_loop.Control.Types.{null, research, Run, Logical}
use autonomous_research_loop.Control.Compact.{compact}
use autonomous_research_loop.Control.Compact.Retained.{compact-Spared}
use autonomous_research_loop.Control.Tests.{start}

abbrev started : Run
started = record {
  run_id = "lease-1";
  topic_id = "lakes";
  station_id = 1;
  lease_generation = some 1;
  execution_kind = some research;
  state = "started";
  started_at = some 10;
  ended_at = none;
  accepted = null;
  ordinal = none;
  completion_accounted = false;
  accounting_result = none;
  finalized_without_accounting = none;
}

abbrev ended : Run
ended = record started { run_id = "lease-0"; state = "finished"; ended_at = some 5 }

abbrev ledger : Logical
ledger = record start {
  work = record start.work { runs = ("lease-0", ended) ∷ ("lease-1", started) ∷ [] };
}

compact-Spared_example :
    lookup "lease-1" (compact ledger).work.runs ≡ lookup "lease-1" ledger.work.runs
compact-Spared_example = compact-Spared "lease-1" ledger ((λ other. cc), ((λ same. refl), tt))
