-- ===== src/Gateway/Jobs/Fencing.antt =====
-- gateway/research_gateway/core/queue.py: what a worker can do that has lost its claim.
use mathlib.Core.Path.{subst}
use autonomous_research_loop.Prelude.{
  ℕ, ◌+◌, ◌*◌, ◌≤◌, ◌<◌, ◌≡◌, ◌≢◌, refl, sym, String, Bool, true, false, if◌then◌else◌, ◌&&◌,
  Option, some, List, [], ◌∷◌, nat_beq, eq_iff, arith, Bool-cases, Option-cases, inl, inr,
}
use autonomous_research_loop.Prelude.Lists.{any, All, keep-All}
use autonomous_research_loop.Gateway.Jobs.{
  Document, JobStatus, Job, Database, holds_token, may_finish, may_fail, update_where, next_queued,
  started_job, claim, finish, finished_job, fail, failed_job, requeued_job, abandoned_job,
  reclaim_stale, insert_job, requeues, gives_up, is_stale,
}
use autonomous_research_loop.Gateway.Jobs.Rows.{get, Below, WellFormed}
use autonomous_research_loop.Gateway.Jobs.Retention.{delete_expired}
use autonomous_research_loop.Gateway.Jobs.Final.{
  Step, inserted, claimed, finished, refused, swept, purged, exec, run,
}

-- The row is not the job `k` in the hands of `token`.
abbrev IsLost : ℕ → String → Job → Type 0
IsLost k token j = (nat_beq j.id k && holds_token (some token) j) ≡ false

-- No row is the job `k` in the hands of `token`.
abbrev Lost : ℕ → String → Database → Type 0
Lost k token db = All (IsLost k token) db.jobs

-- The step claims with another token.
abbrev pub OtherClaim : String → ℕ × Step → Type 0
OtherClaim token (now, claimed t) = t ≢ token
OtherClaim token (now, _) = Unit

All-update_where :
    (P : Job → Type 0) (test : Job → Bool) (set : Job → Job)
    → ((j : Job) → P j → P (set j))
    → (js : List Job) → All P js
    → All P (update_where test set js)
unfolding update_where
All-update_where P test set keeps [] h = tt
All-update_where P test set keeps (j ∷ js) h = elim (Bool-cases (test j)) [
  | inl e ↦ rw e (keeps j h.0, All-update_where P test set keeps js h.1)
  | inr e ↦ rw e (h.0, All-update_where P test set keeps js h.1)
]

any-none : (test : Job → Bool) (js : List Job) → All (λ j. test j ≡ false) js → any test js ≡ false
any-none test [] h = refl
any-none test (j ∷ js) h = ground (arith, h, any-none test js)

update_where-none :
    (test : Job → Bool) (set : Job → Job) (js : List Job)
    → All (λ j. test j ≡ false) js
    → update_where test set js ≡ js
unfolding update_where
update_where-none test set [] h = refl
update_where-none test set (j ∷ js) h = ground (arith, h, update_where-none test set js)

-- An update that matches no row.
update-none :
    (test : Job → Bool) (set : Job → Job) (db : Database)
    → All (λ j. test j ≡ false) db.jobs
    → ◌≡◌ {A = Bool × Database}
        (any test db.jobs, record db { jobs = update_where test set db.jobs })
        (false, db)
update-none test set db h =
    λ i. (any-none test db.jobs h i, record db { jobs = update_where-none test set db.jobs h i })

exec-Lost :
    (now : ℕ) (s : Step) (k : ℕ) (token : String) (db : Database)
    → OtherClaim token (now, s)
    → Lost k token db
    → Lost k token (exec now s db)
unfolding exec finish finished_job fail failed_job reclaim_stale insert_job claim started_job
    requeued_job abandoned_job delete_expired
exec-Lost now (inserted c hash) k token db other h = (ground arith, h)
exec-Lost now (claimed t) k token db other h = elim (Option-cases (next_queued db.jobs)) [
  | inl idle ↦ rw (idle, exec, claim) h
  | inr (c, found) ↦
      rw (found, exec, claim)
        (All-update_where (IsLost k token) (λ j. nat_beq j.id c.id) (started_job t now)
          (λ j lost. ground (arith, other, eq_iff t token)) db.jobs h)
]
exec-Lost now (finished i result t) k token db other h =
    All-update_where (IsLost k token) _ _ (λ j lost. lost) db.jobs h
exec-Lost now (refused i class detail t) k token db other h =
    All-update_where (IsLost k token) _ _ (λ j lost. lost) db.jobs h
exec-Lost now (swept after) k token db other h =
    All-update_where (IsLost k token) (gives_up after now) (abandoned_job now)
      (λ j lost. ground arith) _
      (All-update_where (IsLost k token) (requeues after now) requeued_job (λ j lost. ground arith)
        db.jobs h)
exec-Lost now (purged days) k token db other h = keep-All (IsLost k token) _ db.jobs h

run-Lost :
    (history : List (ℕ × Step)) (k : ℕ) (token : String) (db : Database)
    → All (OtherClaim token) history
    → Lost k token db
    → Lost k token (run history db)
unfolding run
run-Lost [] k token db others h = h
run-Lost ((now, s) ∷ ss) k token db others h =
    run-Lost ss k token (exec now s db) others.1 (exec-Lost now s k token db others.0 h)

All-weaken : {P Q : Job → Type 0} (js : List Job) → ((j : Job) → P j → Q j) → All P js → All Q js
All-weaken [] f h = tt
All-weaken (j ∷ js) f h = (f j h.0, All-weaken js f h.1)

finish-Lost :
    (history : List (ℕ × Step)) (k : ℕ) (token : String) (db : Database) (now : ℕ)
    (result : Document) (class : String) (detail : Option Document)
    → All (OtherClaim token) history
    → Lost k token db
    → (finish k result (some token) now (run history db) ≡ (false, run history db))
      × (fail k class detail (some token) now (run history db) ≡ (false, run history db))
unfolding finish fail
finish-Lost history k token db now result class detail others lost =
    let still = run-Lost history k token db others lost in
    (
      update-none (may_finish k (some token)) _ (run history db)
          (All-weaken (run history db).jobs (λ j e. ground (arith, e)) still),
      update-none (may_fail k (some token)) _ (run history db)
          (All-weaken (run history db).jobs (λ j e. ground (arith, e)) still),
    )

All-updated :
    (P : Job → Type 0) (test : Job → Bool) (set : Job → Job) (js : List Job)
    → All (λ j. P (if test j then set j else j)) js
    → All P (update_where test set js)
unfolding update_where
All-updated P test set [] h = tt
All-updated P test set (j ∷ js) h = (h.0, All-updated P test set js h.1)

All-Below :
    (P : Job → Type 0) (k n : ℕ)
    → ((i : Job) → nat_beq i.id k ≡ false → P i)
    → (js : List Job) → Below n js
    → n ≤ k
    → All P js
All-Below P k n others [] b h = tt
All-Below P k n others (j ∷ js) b h =
    (others j (ground (arith, b, h)), All-Below P k j.id others js b.1 (omega (arith, b, h)))

-- What holds of the row of an id, and of all rows of other ids.
All-get :
    (P : Job → Type 0) (k n : ℕ) (j : Job)
    → ((i : Job) → nat_beq i.id k ≡ false → P i)
    → P j
    → (js : List Job) → Below n js
    → get k js ≡ some j
    → All P js
unfolding get
All-get P k n j others it [] b h = tt
All-get P k n j others it (i ∷ is) b h = elim (Bool-cases (nat_beq i.id k)) [
  | inl e ↦
      let same : i ≡ j = ground (arith, e, h) in
      (subst P (sym same) it, All-Below P k i.id others is b.1 (ground (arith, e)))
  | inr e ↦ (others i e, All-get P k i.id j others it is b.1 (rw e at h))
]

-- A sweep takes a job whose lease has ended from every token.
reclaim_stale-Lost :
    (after now k : ℕ) (token : String) (db : Database) (j : Job)
    → WellFormed db
    → get k db.jobs ≡ some j
    → is_stale after now j ≡ true
    → Lost k token (reclaim_stale after now db).1
unfolding reclaim_stale requeued_job abandoned_job
reclaim_stale-Lost after now k token db j b h stale =
    All-updated (IsLost k token) (gives_up after now) (abandoned_job now) _ (
      All-updated _ (requeues after now) requeued_job db.jobs (
        All-get _ k db.next_id j (λ i other. ground (arith, other)) (ground (arith, stale)) db.jobs
          b h))

-- In a table whose ids fall from the next one, let the lease of a running job have ended, by the
-- minutes since its start. Once a sweep has been committed, whether the job was queued again or
-- given up, neither finishing nor failing it with a token succeeds or changes the table, after any
-- history of commits in which no claim gets that token.
pub finish-reclaim_stale :
    (after swept_at k : ℕ) (db : Database) (j : Job) (started : ℕ) (history : List (ℕ × Step))
    (token : String) (now : ℕ) (result : Document) (class : String) (detail : Option Document)
    → WellFormed db
    → get k db.jobs ≡ some j
    → j.status ≡ JobStatus.running
    → j.started_at ≡ some started
    → started + after * 60 < swept_at
    → All (OtherClaim token) history
    → (finish k result (some token) now (run history (reclaim_stale after swept_at db).1)
        ≡ (false, run history (reclaim_stale after swept_at db).1))
      × (fail k class detail (some token) now (run history (reclaim_stale after swept_at db).1)
          ≡ (false, run history (reclaim_stale after swept_at db).1))
finish-reclaim_stale after swept_at k db j started history token now result class detail b h runs
      since ends others =
    finish-Lost history k token (reclaim_stale after swept_at db).1 now result class detail others
      (reclaim_stale-Lost after swept_at k token db j b h (ground (arith, runs, since, ends)))
