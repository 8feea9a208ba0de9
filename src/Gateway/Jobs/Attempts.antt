-- ===== src/Gateway/Jobs/Attempts.antt =====
-- gateway/research_gateway/core/queue.py: how often a job is tried again (`MAX_ATTEMPTS`).
use autonomous_research_loop.Prelude.{
  ℕ, ◌+◌, ◌≤◌, suc, ◌≡◌, refl, String, Bool, false, ◌&&◌, Option, none, some, List, [], ◌∷◌,
  nat_beq, if◌then◌else◌, arith, Bool-cases, Option-cases, inl, inr, ◌⊎◌, ◌∙◌, not,
}
use autonomous_research_loop.Gateway.Jobs.{
  Creation, Job, Database, is_queued, is_running, next_queued, started_job, claim, finish,
  finished_job, fail, failed_job, may_finish, may_fail, reclaim_stale, insert_job, requeued_job,
  abandoned_job, requeues, gives_up, update_where,
}
use autonomous_research_loop.Gateway.Jobs.Rows.{
  get, WellFormed, get-update_where, get-Below, get-keep,
}
use autonomous_research_loop.Gateway.Jobs.Retention.{is_expired, delete_expired}
use autonomous_research_loop.Gateway.Jobs.Final.{
  Step, inserted, claimed, finished, refused, swept, purged, exec, exec-WellFormed, Absent,
  exec-Absent,
}

-- The row was running and is queued.
abbrev pub goes_back : Option Job → Option Job → Bool
goes_back none later = false
goes_back (some i) none = false
goes_back (some i) (some j) = is_running i && is_queued j

-- How many commits of the history put the job `k` back from running to queued.
abbrev pub times_back : ℕ → List (ℕ × Step) → Database → ℕ
times_back k [] db = 0
times_back k ((now, s) ∷ ss) db =
    let rest = times_back k ss (exec now s db) in
    if goes_back (get k db.jobs) (get k (exec now s db).jobs) then suc rest else rest

-- The attempts of the job `k` that failed so far, none if the table has no such row.
abbrev pub attempts_of : Option Job → ℕ
attempts_of none = 0
attempts_of (some j) = j.attempts

-- A commit counts each time that it puts a row back, and does so only below the limit.
abbrev Counts : Option Job → Option Job → Type 0
Counts i j =
    attempts_of i ≤ 2
    → (attempts_of j ≤ 2) × ((if goes_back i j then 1 else 0) + attempts_of i ≤ attempts_of j)

update-Counts :
    (test : Job → Bool) (set : Job → Job)
    → ((j : Job) → (set j).id ≡ j.id)
    → ((j : Job) → Counts (some j) (some (if test j then set j else j)))
    → (k : ℕ) (js : List Job) → Counts (get k js) (get k (update_where test set js))
update-Counts test set same each k js =
    let row = get-update_where test set same k js in
    elim (Option-cases (get k js)) [
      | inl gone ↦ λ low. ground (arith, row, gone)
      | inr (j, at) ↦ λ low. ground (arith, row, at, each j (rw at at low))
    ]

sweep-Counts :
    (after now k : ℕ) (db : Database)
    → Counts (get k db.jobs) (get k (reclaim_stale after now db).1.jobs)
unfolding reclaim_stale requeued_job abandoned_job
sweep-Counts after now k db =
    let first = get-update_where (requeues after now) requeued_job (λ _. refl) k db.jobs in
    let last =
      get-update_where (gives_up after now) (abandoned_job now) (λ _. refl) k
        (update_where (requeues after now) requeued_job db.jobs) in
    elim (Option-cases (get k db.jobs)) [
      | inl gone ↦ λ low. ground (arith, first, last, gone)
      | inr (j, at) ↦ λ low. ground (arith, first, last, at, low)
    ]

insert_job-Counts :
    (c : Creation) (hash : String) (now k : ℕ) (db : Database)
    → WellFormed db
    → Counts (get k db.jobs) (get k (insert_job c hash now db).jobs)
unfolding insert_job get
insert_job-Counts c hash now k db b = elim (Option-cases (get k db.jobs)) [
  | inl gone ↦ λ low. ground (arith, gone)
  | inr (j, at) ↦ λ low. ground (arith, at, get-Below k db.next_id db.jobs j b at)
]

claim-Counts :
    (token : String) (now k : ℕ) (db : Database)
    → Counts (get k db.jobs) (get k (claim token now db).1.jobs)
unfolding claim started_job
claim-Counts token now k db = elim (Option-cases (next_queued db.jobs)) [
  | inl idle ↦ rw (idle, claim) (λ low. ground (arith, low))
  | inr (c, found) ↦
      rw (found, claim)
        (update-Counts (λ j. nat_beq j.id c.id) (started_job token now) (λ _. refl)
          (λ j low. ground (arith, low)) k db.jobs)
]

-- A commit counts every return of the row, or the row is gone for good.
exec-Counts :
    (now : ℕ) (s : Step) (k : ℕ) (db : Database)
    → WellFormed db
    → Counts (get k db.jobs) (get k (exec now s db).jobs)
      ⊎ ((goes_back (get k db.jobs) (get k (exec now s db).jobs) ≡ false)
          × Absent k (exec now s db))
unfolding exec finish finished_job fail failed_job delete_expired
exec-Counts now (inserted c hash) k db b = inl (insert_job-Counts c hash now k db b)
exec-Counts now (claimed token) k db b = inl (claim-Counts token now k db)
exec-Counts now (finished i result token) k db b = inl (
    update-Counts (may_finish i token) (finished_job result now) (λ _. refl)
      (λ j low. ground (arith, low)) k db.jobs)
exec-Counts now (refused i class detail token) k db b = inl (
    update-Counts (may_fail i token) (failed_job class detail now) (λ _. refl)
      (λ j low. ground (arith, low)) k db.jobs)
exec-Counts now (swept after) k db b = inl (sweep-Counts after now k db)
exec-Counts now (purged days) k db b =
    let row = get-keep (λ i. not (is_expired days now i)) k db.next_id db.jobs b in
    elim (Option-cases (get k db.jobs)) [
      | inl gone ↦ inl (λ low. ground (arith, row, gone))
      | inr (j, at) ↦ elim (Bool-cases (is_expired days now j)) [
        | inl e ↦
            let out : get k (delete_expired days now db).jobs ≡ none = row ∙ rw (at, e) refl in
            inr (rw (at, out) refl, (out, get-Below k db.next_id db.jobs j b at))
        | inr e ↦
            let same : get k (delete_expired days now db).jobs ≡ some j = row ∙ rw (at, e) refl in
            inl (rw (at, same) (λ low. ground (arith, low)))
      ]
    ]

times_back-Absent :
    (history : List (ℕ × Step)) (k : ℕ) (db : Database)
    → WellFormed db
    → Absent k db
    → times_back k history db ≡ 0
times_back-Absent [] k db b h = refl
times_back-Absent ((now, s) ∷ ss) k db b h = rw h.0 (
    times_back-Absent ss k (exec now s db) (exec-WellFormed now s db b)
      (exec-Absent now s k db b h))

-- In a table whose ids fall from the next one, take an id of a row that has failed at most twice, or
-- of none. Over any history of commits that row is put back from running to queued at most so often
-- that its failed attempts and these returns are two together: a job that is yet to come is put back
-- at most twice.
pub run-times_back :
    (history : List (ℕ × Step)) (k : ℕ) (db : Database)
    → WellFormed db
    → attempts_of (get k db.jobs) ≤ 2
    → attempts_of (get k db.jobs) + times_back k history db ≤ 2
run-times_back [] k db b h = omega (arith, h)
run-times_back ((now, s) ∷ ss) k db b h =
    let wf = exec-WellFormed now s db b in
    elim (exec-Counts now s k db b) [
      | inl counts ↦ ground (arith, counts h, run-times_back ss k (exec now s db) wf (counts h).0)
      | inr (stays, out) ↦
          rw (stays, times_back-Absent ss k (exec now s db) wf out) (omega (arith, h))
    ]
