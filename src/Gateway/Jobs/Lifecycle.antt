-- ===== src/Gateway/Jobs/Lifecycle.antt =====
-- gateway/research_gateway/core/queue.py, alerts.py: the states of a job.
use mathlib.Core.Path.{subst}
use autonomous_research_loop.Prelude.{
  ℕ, ◌≡◌, refl, String, Bool, true, false, not, Option, none, some, List, [], ◌∷◌, nat_beq,
  if◌then◌else◌, arith, Bool-cases, Option-cases, inl, inr,
}
use autonomous_research_loop.Gateway.Jobs.{
  JobStatus, is_queued, Job, Database, next_queued, started_job, claim, finish, finished_job, fail,
  failed_job, may_finish, may_fail, reclaim_stale, insert_job, requeued_job, abandoned_job,
  requeues, gives_up, update_where,
}
use autonomous_research_loop.Gateway.Jobs.Rows.{
  get, WellFormed, get-update_where, get-Below, get-keep, next_queued-get, get-id,
}
use autonomous_research_loop.Gateway.Jobs.Retention.{is_expired, delete_expired}
use autonomous_research_loop.Gateway.Jobs.Final.{
  Step, inserted, claimed, finished, refused, swept, purged, exec, run, exec-WellFormed,
}

-- The states that may follow one another. A job arrives queued. A queued one is started or fails. A
-- running one is queued again, done or failed. One that has ended can only be deleted.
abbrev pub may_follow : Option JobStatus → Option JobStatus → Bool
may_follow none none = true
may_follow none (some JobStatus.queued) = true
may_follow none (some _) = false
may_follow (some JobStatus.queued) (some JobStatus.queued) = true
may_follow (some JobStatus.queued) (some JobStatus.running) = true
may_follow (some JobStatus.queued) (some JobStatus.failed) = true
may_follow (some JobStatus.queued) _ = false
may_follow (some JobStatus.running) none = false
may_follow (some JobStatus.running) (some _) = true
may_follow (some JobStatus.done) none = true
may_follow (some JobStatus.done) (some JobStatus.done) = true
may_follow (some JobStatus.done) (some _) = false
may_follow (some JobStatus.failed) none = true
may_follow (some JobStatus.failed) (some JobStatus.failed) = true
may_follow (some JobStatus.failed) (some _) = false

abbrev pub status_in : Option Job → Option JobStatus
status_in none = none
status_in (some j) = some j.status

-- What was asked for stays, and when.
abbrev pub SameRequest : Option Job → Option Job → Type 0
SameRequest none later = Unit
SameRequest (some i) none = Unit
SameRequest (some i) (some j) =
    (j.creation ≡ i.creation) × (j.payload_hash ≡ i.payload_hash) × (j.created_at ≡ i.created_at)

abbrev pub Lives : Option Job → Option Job → Type 0
Lives i j = (may_follow (status_in i) (status_in j) ≡ true) × SameRequest i j

Lives-refl : (i : Option Job) → Lives i i
Lives-refl none = (refl, tt)
Lives-refl (some j) = (ground arith, (refl, refl, refl))

update-Lives :
    (test : Job → Bool) (set : Job → Job)
    → ((j : Job) → (set j).id ≡ j.id)
    → ((j : Job) → Lives (some j) (some (if test j then set j else j)))
    → (k : ℕ) (js : List Job) → Lives (get k js) (get k (update_where test set js))
update-Lives test set same each k js =
    let row = get-update_where test set same k js in
    elim (Option-cases (get k js)) [
      | inl gone ↦ rw (row, gone) (refl, tt)
      | inr (j, at) ↦ rw (row, at) (each j)
    ]

sweep-Lives :
    (after now k : ℕ) (db : Database)
    → Lives (get k db.jobs) (get k (reclaim_stale after now db).1.jobs)
unfolding reclaim_stale requeued_job abandoned_job
sweep-Lives after now k db =
    let first = get-update_where (requeues after now) requeued_job (λ _. refl) k db.jobs in
    let last =
      get-update_where (gives_up after now) (abandoned_job now) (λ _. refl) k
        (update_where (requeues after now) requeued_job db.jobs) in
    elim (Option-cases (get k db.jobs)) [
      | inl gone ↦ rw (last, first, gone) (refl, tt)
      | inr (j, at) ↦
          rw (last, first, at) (ground arith, (ground arith, ground arith, ground arith))
    ]

-- The row that is claimed was queued, and no other has its id.
started-Lives :
    (token : String) (now k : ℕ) (js : List Job) (c : Job)
    → get c.id js ≡ some c
    → is_queued c ≡ true
    → Lives (get k js) (get k (update_where (λ j. nat_beq j.id c.id) (started_job token now) js))
unfolding started_job
started-Lives token now k js c at waiting =
    let row = get-update_where (λ j. nat_beq j.id c.id) (started_job token now) (λ _. refl) k js in
    elim (Option-cases (get k js)) [
      | inl gone ↦ rw (row, gone) (refl, tt)
      | inr (j, here) ↦
          rw (row, here)
            (elim (Bool-cases (nat_beq j.id c.id)) [
              | inr other ↦ rw other (Lives-refl (some j))
              | inl e ↦
                  let same : c.id ≡ k = ground (arith, e, get-id k js j here) in
                  let again : get k js ≡ some c = subst (λ n. get n js ≡ some c) same at in
                  let queued : is_queued j ≡ true = ground (arith, here, again, waiting) in
                  rw e (ground (arith, queued), (refl, refl, refl))
            ])
    ]

claim-Lives :
    (token : String) (now k : ℕ) (db : Database)
    → WellFormed db
    → Lives (get k db.jobs) (get k (claim token now db).1.jobs)
unfolding claim started_job
claim-Lives token now k db b = elim (Option-cases (next_queued db.jobs)) [
  | inl idle ↦ rw (idle, claim) (Lives-refl (get k db.jobs))
  | inr (c, found) ↦
      let (at, waiting) = next_queued-get db.next_id db.jobs c b found in
      rw (found, claim) (started-Lives token now k db.jobs c at waiting)
]

exec-Lives :
    (now : ℕ) (s : Step) (k : ℕ) (db : Database)
    → WellFormed db
    → Lives (get k db.jobs) (get k (exec now s db).jobs)
unfolding exec finish finished_job fail failed_job delete_expired insert_job get
exec-Lives now (inserted c hash) k db b = elim (Option-cases (get k db.jobs)) [
  | inl gone ↦ rw gone (elim (Bool-cases (nat_beq db.next_id k)) [
    | inl e ↦ rw e (refl, tt)
    | inr e ↦ rw e (refl, tt)
  ])
  | inr (j, at) ↦
      let old = get-Below k db.next_id db.jobs j b at in
      let other : nat_beq db.next_id k ≡ false = ground (arith, old) in
      rw (other, at) (Lives-refl (some j))
]
exec-Lives now (claimed token) k db b = claim-Lives token now k db b
exec-Lives now (finished i result token) k db b =
    update-Lives (may_finish i token) (finished_job result now) (λ _. refl)
      (λ j. (ground arith, (ground arith, ground arith, ground arith))) k db.jobs
exec-Lives now (refused i class detail token) k db b =
    update-Lives (may_fail i token) (failed_job class detail now) (λ _. refl)
      (λ j. (ground arith, (ground arith, ground arith, ground arith))) k db.jobs
exec-Lives now (swept after) k db b = sweep-Lives after now k db
exec-Lives now (purged days) k db b =
    let row = get-keep (λ i. not (is_expired days now i)) k db.next_id db.jobs b in
    elim (Option-cases (get k db.jobs)) [
      | inl gone ↦ rw (row, gone) (refl, tt)
      | inr (j, at) ↦ elim (Bool-cases (is_expired days now j)) [
        | inl e ↦ rw (row, at, e) (ground (arith, e), tt)
        | inr e ↦ rw (row, at, e) (Lives-refl (some j))
      ]
    ]

run-WellFormed :
    (history : List (ℕ × Step)) (db : Database) → WellFormed db → WellFormed (run history db)
unfolding run
run-WellFormed [] db b = b
run-WellFormed ((now, s) ∷ ss) db b = run-WellFormed ss (exec now s db) (exec-WellFormed now s db b)

-- In a table whose ids fall from the next one, after any history of commits and for any further
-- commit, the states of a row before and after it follow one another: a job arrives queued, a queued
-- one is started or fails, a running one is queued again, done or failed, and one that has ended can
-- only be deleted. A row that stays keeps what was asked for and when.
pub run-Lives :
    (history : List (ℕ × Step)) (now : ℕ) (s : Step) (k : ℕ) (db : Database)
    → WellFormed db
    → Lives (get k (run history db).jobs) (get k (exec now s (run history db)).jobs)
run-Lives history now s k db b = exec-Lives now s k (run history db) (run-WellFormed history db b)
