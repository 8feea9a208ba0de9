-- ===== src/Gateway/Jobs/Retention.antt =====
-- gateway/research_gateway/core/alerts.py: the retention of ended jobs, a commit of `check_calls`.
use autonomous_research_loop.Prelude.{
  ℕ, ◌+◌, ◌*◌, max, Bool, true, false, not, ◌&&◌, none, some, ltb,
}
use autonomous_research_loop.Prelude.Lists.{keep}
use autonomous_research_loop.Gateway.Jobs.{JobStatus, Job, Database}

-- status IN ('done', 'failed')
abbrev pub has_ended : Job → Bool
has_ended j = elim j.status [ JobStatus.done ↦ true | JobStatus.failed ↦ true | _ ↦ false ]

-- coalesce(finished_at, created_at)
abbrev pub ended_at : Job → ℕ
ended_at j = elim j.finished_at [ none ↦ j.created_at | some t ↦ t ]

-- The retention of so many days, of one at least, is over.
abbrev pub is_expired : ℕ → ℕ → Job → Bool
is_expired days now j = has_ended j && ltb (ended_at j + max 1 days * 86400) now

-- DELETE FROM gateway.jobs WHERE ...
unfoldable pub delete_expired : ℕ → ℕ → Database → Database
delete_expired days now db = record db { jobs = keep (λ j. not (is_expired days now j)) db.jobs }
