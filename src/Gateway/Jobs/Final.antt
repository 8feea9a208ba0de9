-- ===== src/Gateway/Jobs/Final.antt =====
-- gateway/research_gateway/core/queue.py, alerts.py: the commits on the job table, and what they
-- leave of a job that has ended.
use mathlib.Core.Path.{subst}
use autonomous_research_loop.Prelude.{
  ℕ, ◌+◌, ◌*◌, ◌<◌, max, ltb, ◌≡◌, ◌∙◌, refl, String, Bool, false, not, Option, none, some, List,
  [], ◌∷◌, nat_beq, if◌then◌else◌, arith, Bool-cases, Option-cases, inl, inr,
}
use autonomous_research_loop.Prelude.Lists.{any}
use autonomous_research_loop.Gateway.Jobs.{
  Document, Creation, Job, Database, is_queued, is_running, update_where, next_queued, started_job,
  claim, finish, finished_job, fail, failed_job, requeued_job, abandoned_job, reclaim_stale,
  insert_job, requeues, gives_up, may_finish, may_fail,
}
use autonomous_research_loop.Gateway.Jobs.Rows.{
  get, WellFormed, Below-update_where, Below-keep, get-update_where, get-Below, get-id, get-keep,
  kept, next_queued-get,
}
use autonomous_research_loop.Gateway.Jobs.Retention.{is_expired, delete_expired}

-- One commit on the table, by any connection.
pub data Step : Type 0 where
  inserted : Creation → String → Step
  claimed : String → Step
  finished : ℕ → Document → Option String → Step
  refused : ℕ → String → Option Document → Option String → Step
  swept : ℕ → Step
  purged : ℕ → Step

unfoldable pub exec : ℕ → Step → Database → Database
exec now (inserted c hash) db = insert_job c hash now db
exec now (claimed token) db = (claim token now db).1
exec now (finished k result token) db = (finish k result token now db).1
exec now (refused k class detail token) db = (fail k class detail token now db).1
exec now (swept after) db = (reclaim_stale after now db).1
exec now (purged days) db = delete_expired days now db

unfoldable pub run : List (ℕ × Step) → Database → Database
unfolding exec
run [] db = db
run ((now, s) ∷ ss) db = run ss (exec now s db)

-- Now is later than so many days, of one at least, after the job's end, or after its creation if it
-- has no end.
abbrev pub outlived : Job → ℕ → ℕ → Bool
outlived j days now = elim j.finished_at [
  | some t ↦ ltb (t + max 1 days * 86400) now
  | none ↦ ltb (j.created_at + max 1 days * 86400) now
]

-- The step is a commit of the retention that comes after the job's days.
abbrev pub expires : Job → ℕ × Step → Bool
expires j (now, purged days) = outlived j days now
expires j (now, _) = false

claim-get :
    (token : String) (now k : ℕ) (db : Database) (j : Job)
    → WellFormed db
    → get k db.jobs ≡ some j
    → is_queued j ≡ false
    → get k (claim token now db).1.jobs ≡ some j
unfolding claim started_job
claim-get token now k db j b h ended = elim (Option-cases (next_queued db.jobs)) [
  | inl idle ↦ ground (arith, idle, h)
  | inr (c, found) ↦
      let (at, waiting) = next_queued-get db.next_id db.jobs c b found in
      let other : nat_beq j.id c.id ≡ false = elim (Bool-cases (nat_beq j.id c.id)) [
        | inr e ↦ e
        | inl e ↦
            let same : c.id ≡ k = ground (arith, e, get-id k db.jobs j h) in
            let found_again : get k db.jobs ≡ some c =
              subst (λ n. get n db.jobs ≡ some c) same at in
            absurd (ground (arith, found_again, h, waiting, ended))
      ] in
      rw (found, claim)
        (ground (
          arith,
          get-update_where (λ i. nat_beq i.id c.id) (started_job token now) (λ _. refl) k db.jobs,
          h,
          other,
        ))
]

-- What an update leaves that does not match the row.
update_where-same :
    (test : Job → Bool) (set : Job → Job)
    → ((j : Job) → (set j).id ≡ j.id)
    → (k : ℕ) (js : List Job) (j : Job) → get k js ≡ some j
    → test j ≡ false
    → get k (update_where test set js) ≡ some j
update_where-same test set same k js j h no_match =
    ground (arith, get-update_where test set same k js, h, no_match)

expired-kept :
    (days now : ℕ) (j : Job)
    → is_queued j ≡ false
    → is_running j ≡ false
    → kept (λ i. not (is_expired days now i)) (some j)
      ≡ (if outlived j days now then none else some j)
expired-kept days now j q r = ground (arith, q, r)

exec-get :
    (now : ℕ) (s : Step) (k : ℕ) (db : Database) (j : Job)
    → WellFormed db
    → get k db.jobs ≡ some j
    → is_queued j ≡ false
    → is_running j ≡ false
    → get k (exec now s db).jobs ≡ (if expires j (now, s) then none else some j)
unfolding exec finish finished_job fail failed_job reclaim_stale insert_job get requeued_job
    abandoned_job delete_expired
exec-get now (inserted c hash) k db j b h q r =
    ground (arith, h, get-Below k db.next_id db.jobs j b h)
exec-get now (claimed token) k db j b h q r = claim-get token now k db j b h q
exec-get now (finished i result token) k db j b h q r =
    update_where-same (may_finish i token) _ (λ _. refl) k db.jobs j h (ground (arith, r))
exec-get now (refused i class detail token) k db j b h q r =
    update_where-same (may_fail i token) _ (λ _. refl) k db.jobs j h (ground (arith, q, r))
exec-get now (swept after) k db j b h q r =
    update_where-same (gives_up after now) _ (λ _. refl) k _ j
      (update_where-same (requeues after now) _ (λ _. refl) k db.jobs j h (ground (arith, r)))
      (ground (arith, r))
exec-get now (purged days) k db j b h q r =
    get-keep (λ i. not (is_expired days now i)) k db.next_id db.jobs b
    ∙ rw h (expired-kept days now j q r)

pub exec-WellFormed :
    (now : ℕ) (s : Step) (db : Database) → WellFormed db → WellFormed (exec now s db)
unfolding exec finish finished_job fail failed_job reclaim_stale insert_job claim started_job
    requeued_job abandoned_job delete_expired
exec-WellFormed now (inserted c hash) db b = (omega arith, b)
exec-WellFormed now (claimed token) db b = elim (Option-cases (next_queued db.jobs)) [
  | inl idle ↦ rw (idle, exec, claim) b
  | inr (c, found) ↦
      rw (found, exec, claim) (Below-update_where _ _ (λ _. refl) db.next_id db.jobs b)
]
exec-WellFormed now (finished i result token) db b =
    Below-update_where _ _ (λ _. refl) db.next_id db.jobs b
exec-WellFormed now (refused i class detail token) db b =
    Below-update_where _ _ (λ _. refl) db.next_id db.jobs b
exec-WellFormed now (swept after) db b =
    Below-update_where _ _ (λ _. refl) db.next_id _
      (Below-update_where _ _ (λ _. refl) db.next_id db.jobs b)
exec-WellFormed now (purged days) db b = Below-keep _ db.next_id db.jobs b

-- There is no job of that id, and there will be none.
abbrev pub Absent : ℕ → Database → Type 0
Absent k db = (get k db.jobs ≡ none) × (k < db.next_id)

update_where-none :
    (test : Job → Bool) (set : Job → Job)
    → ((j : Job) → (set j).id ≡ j.id)
    → (k : ℕ) (js : List Job) → get k js ≡ none
    → get k (update_where test set js) ≡ none
update_where-none test set same k js h = get-update_where test set same k js ∙ rw h refl

pub exec-Absent :
    (now : ℕ) (s : Step) (k : ℕ) (db : Database)
    → WellFormed db
    → Absent k db
    → Absent k (exec now s db)
unfolding exec finish finished_job fail failed_job reclaim_stale insert_job get claim started_job
    requeued_job abandoned_job delete_expired
exec-Absent now (inserted c hash) k db b (h, old) = (ground (arith, h, old), omega (arith, old))
exec-Absent now (claimed token) k db b (h, old) = elim (Option-cases (next_queued db.jobs)) [
  | inl idle ↦ rw (idle, exec, claim) (h, old)
  | inr (c, found) ↦ rw (found, exec, claim) (update_where-none _ _ (λ _. refl) k db.jobs h, old)
]
exec-Absent now (finished i result token) k db b (h, old) =
    (update_where-none _ _ (λ _. refl) k db.jobs h, old)
exec-Absent now (refused i class detail token) k db b (h, old) =
    (update_where-none _ _ (λ _. refl) k db.jobs h, old)
exec-Absent now (swept after) k db b (h, old) =
    (update_where-none _ _ (λ _. refl) k _ (update_where-none _ _ (λ _. refl) k db.jobs h), old)
exec-Absent now (purged days) k db b (h, old) = (get-keep _ k db.next_id db.jobs b ∙ rw h refl, old)

run-Absent :
    (history : List (ℕ × Step)) (k : ℕ) (db : Database)
    → WellFormed db
    → Absent k db
    → get k (run history db).jobs ≡ none
unfolding run
run-Absent [] k db b h = h.0
run-Absent ((now, s) ∷ ss) k db b h =
    run-Absent ss k (exec now s db) (exec-WellFormed now s db b) (exec-Absent now s k db b h)

exec-next_id :
    (now : ℕ) (s : Step) (k : ℕ) (db : Database) → k < db.next_id → k < (exec now s db).next_id
unfolding exec finish fail reclaim_stale insert_job claim delete_expired
exec-next_id now (inserted c hash) k db h = omega (arith, h)
exec-next_id now (claimed token) k db h = ground (arith, h)
exec-next_id now (finished i result token) k db h = h
exec-next_id now (refused i class detail token) k db h = h
exec-next_id now (swept after) k db h = h
exec-next_id now (purged days) k db h = h

-- In a table whose ids fall from the next one, a job that is neither queued nor running stays as it
-- is, its result included, through any history of commits of any connections, until a commit of the
-- retention finds that it has expired; from then on it is not in the table.
pub run-get :
    (history : List (ℕ × Step)) (k : ℕ) (db : Database) (j : Job)
    → WellFormed db
    → get k db.jobs ≡ some j
    → is_queued j ≡ false
    → is_running j ≡ false
    → get k (run history db).jobs ≡ (if any (expires j) history then none else some j)
unfolding run
run-get [] k db j b h q r = h
run-get ((now, s) ∷ ss) k db j b h q r =
    let wf = exec-WellFormed now s db b in
    let step = exec-get now s k db j b h q r in
    elim (Bool-cases (expires j (now, s))) [
      | inl gone ↦ rw gone (
          run-Absent ss k (exec now s db) wf
            (step ∙ rw gone refl, exec-next_id now s k db (get-Below k db.next_id db.jobs j b h)))
      | inr stays ↦ rw stays (run-get ss k (exec now s db) j wf (step ∙ rw stays refl) q r)
    ]
