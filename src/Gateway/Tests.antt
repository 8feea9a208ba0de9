-- ===== src/Gateway/Tests.antt =====
-- Tests of the gateway's job queue: a job that is claimed, lost and done by another worker.
use autonomous_research_loop.Prelude.{
  ℕ, ◌+◌, ◌≤◌, ◌≡◌, ◌≢◌, refl, if◌then◌else◌, true, false, none, some, List, [], ◌∷◌, arith, eq_iff,
}
use autonomous_research_loop.Prelude.Lists.{any, All}
use autonomous_research_loop.Gateway.Jobs.{
  is_queued, claim, reclaim_stale, JobStatus, given, Creation, Job, Database, finish, fail,
  enqueue_attempts,
}
use autonomous_research_loop.Gateway.Jobs.Final.{
  Step, claimed, finished, swept, purged, expires, exec, run, run-get,
}
use autonomous_research_loop.Gateway.Jobs.Rows.{get}
use autonomous_research_loop.Gateway.Jobs.Fencing.{finish-reclaim_stale}
use autonomous_research_loop.Gateway.Jobs.Order.{IsNext, claim-IsNext}
use autonomous_research_loop.Gateway.Jobs.Attempts.{attempts_of, times_back, run-times_back}
use autonomous_research_loop.Gateway.Jobs.Lifecycle.{Lives, run-Lives}
use autonomous_research_loop.Gateway.Jobs.Twins.{Unique, enqueue_attempts-Unique}

abbrev creation : Creation
creation = record {
  request_type = "find";
  payload = "{}";
  client_id = "station-1";
  priority = 5;
  topic_id = none;
  commercial = false;
  iteration = none;
  batch_entry = none;
  topic = none;
}

abbrev found_job : Job
found_job = record {
  id = 1;
  creation = creation;
  payload_hash = "ab";
  status = JobStatus.done;
  attempts = 1;
  claim_token = some "t2";
  created_at = 10;
  started_at = some 20;
  finished_at = some 30;
  result = some (given "{}");
  error_class = none;
}

-- It runs for the worker with the token "t3".
abbrev running_job : Job
running_job = record found_job {
  id = 2;
  status = JobStatus.running;
  claim_token = some "t3";
  finished_at = none;
  result = none;
}

-- A done job, and one that runs.
abbrev two_jobs : Database
two_jobs = record { next_id = 3; jobs = running_job ∷ found_job ∷ [] }

-- The lease of the running job ends, and another worker claims and finishes it; then the retention
-- comes, once before the done job's thirty days are over and once after.
abbrev history : List (ℕ × Step)
history =
    (5000, swept 30)
    ∷ (5001, claimed "t4")
    ∷ (5010, finished 2 (given "[]") (some "t4"))
    ∷ (5011, finished 1 (given "[]") none)
    ∷ (5012, purged 30)
    ∷ (2592031, purged 30)
    ∷ []

run-get_example :
    get 1 (run history two_jobs).jobs
    ≡ (if any (expires found_job) history then none else some found_job)
unfolding get
run-get_example =
    run-get history 1 two_jobs found_job (omega arith, (omega arith, tt)) refl refl refl

-- The lease of the running job has ended: it is queued again.
abbrev swept_jobs : Database
swept_jobs = record two_jobs {
  jobs =
      record found_job {
        id = 2;
        status = JobStatus.queued;
        attempts = 2;
        claim_token = none;
        started_at = none;
        finished_at = none;
        result = none;
      }
      ∷ found_job
      ∷ [];
}

-- Another worker claims it and finishes it.
abbrev takeover : List (ℕ × Step)
takeover =
    (5001, claimed "t4")
    ∷ (5010, finished 2 (given "[]") (some "t4"))
    ∷ (5011, finished 1 (given "[]") none)
    ∷ []

running_row : get 2 two_jobs.jobs ≡ some running_job
unfolding get
running_row = refl

finish-reclaim_stale_example :
    (finish 2 (given "[1]") (some "t3") 5020 (run takeover (reclaim_stale 30 5000 two_jobs).1)
      ≡ (false, run takeover (reclaim_stale 30 5000 two_jobs).1))
    × (fail 2 "outage" none (some "t3") 5020 (run takeover (reclaim_stale 30 5000 two_jobs).1)
        ≡ (false, run takeover (reclaim_stale 30 5000 two_jobs).1))
finish-reclaim_stale_example =
    finish-reclaim_stale 30 5000 2 two_jobs running_job 20 takeover "t3" 5020 (given "[1]") "outage"
      none (omega arith, (omega arith, tt)) running_row refl refl (omega arith)
      ((λ e. let c : false ≡ true = (eq_iff "t4" "t3").1 e in cc), (tt, (tt, tt)))

two_jobs-Unique : Unique two_jobs
two_jobs-Unique request_type hash = ground arith

enqueue_attempts-Unique_example :
    Unique (enqueue_attempts (λ _ d. d) 10 creation "ab" 6000 two_jobs).1
enqueue_attempts-Unique_example =
    enqueue_attempts-Unique (λ _ d. d) 10 creation "ab" 6000 two_jobs (λ _ _ h. h) two_jobs-Unique

claim-IsNext_example :
    ((claim "t4" 5001 swept_jobs).0 ≡ none
      → ((claim "t4" 5001 swept_jobs).1 ≡ swept_jobs)
        × All (λ j. is_queued j ≡ false) swept_jobs.jobs)
    × ((s : Job)
        → (claim "t4" 5001 swept_jobs).0 ≡ some s
        → (c : Job) × (get c.id swept_jobs.jobs ≡ some c)
          × (is_queued c ≡ true)
          × All (IsNext c) swept_jobs.jobs
          × (s ≡ record c {
            status = JobStatus.running;
            started_at = some 5001;
            claim_token = some "t4";
          })
          × (get c.id (claim "t4" 5001 swept_jobs).1.jobs ≡ some s)
          × ((k : ℕ) → k ≢ c.id → get k (claim "t4" 5001 swept_jobs).1.jobs ≡ get k swept_jobs.jobs)
          × ((claim "t4" 5001 swept_jobs).1.next_id ≡ swept_jobs.next_id))
claim-IsNext_example = claim-IsNext "t4" 5001 swept_jobs (omega arith, (omega arith, tt))

-- The running job has failed once: it can be put back once more.
run-times_back_example : attempts_of (get 2 two_jobs.jobs) + times_back 2 history two_jobs ≤ 2
unfolding get
run-times_back_example =
    run-times_back history 2 two_jobs (omega arith, (omega arith, tt)) (omega arith)

-- After the takeover the retention deletes the job that the other worker has done.
run-Lives_example :
    Lives
      (get 2 (run history two_jobs).jobs)
      (get 2 (exec 2700000 (purged 30) (run history two_jobs)).jobs)
run-Lives_example =
    run-Lives history 2700000 (purged 30) 2 two_jobs (omega arith, (omega arith, tt))
