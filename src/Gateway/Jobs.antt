-- ===== src/Gateway/Jobs.antt =====
-- gateway/research_gateway/core/queue.py: the job queue of the gateway, a table of a Postgres
-- database (gateway/research_gateway/registry/schema.sql). Each function commits once, so it is one
-- step on the table; the latest row stands first. A JSON document is a value of `Document`.
pub mod Rows
pub mod Retention
pub mod Final
pub mod Fencing
pub mod Twins
pub mod Order
pub mod Attempts
pub mod Lifecycle
use autonomous_research_loop.Prelude.{
  ℕ, zero, suc, ◌+◌, ◌*◌, String, Bool, true, false, not, ◌&&◌, ◌||◌, Option, none, some, List, [],
  ◌∷◌, leb, ltb, nat_beq, ◌==◌, if◌then◌else◌,
}
use autonomous_research_loop.Prelude.Lists.{any, count_if, mem}
use autonomous_research_loop.Prelude.Texts.{first_chars}

pub data JobStatus : Type 0 where
  queued running done failed : JobStatus

pub data Document : Type 0 where
  given : String → Document
  no_handler error : String → Document
  abandoned empty_object : Document

-- What the creator of a job gives.
pub record Creation : Type 0 where
  pub request_type : String
  pub payload : String
  pub client_id : String
  pub priority : ℕ
  pub topic_id : Option String
  pub commercial : Bool
  pub iteration : Option String
  pub batch_entry : Option ℕ
  pub topic : Option String

pub record Job : Type 0 where
  pub id : ℕ
  pub creation : Creation
  pub open creation use *
  pub payload_hash : String
  pub status : JobStatus
  pub attempts : ℕ
  pub claim_token : Option String
  pub created_at : ℕ
  pub started_at : Option ℕ
  pub finished_at : Option ℕ
  pub result : Option Document
  pub error_class : Option String

-- The table and the sequence of its primary key.
pub record Database : Type 0 where
  pub next_id : ℕ
  pub jobs : List Job

abbrev pub is_queued : Job → Bool
is_queued j = elim j.status [ JobStatus.queued ↦ true | _ ↦ false ]

abbrev pub is_running : Job → Bool
is_running j = elim j.status [ JobStatus.running ↦ true | _ ↦ false ]

-- UPDATE gateway.jobs SET ... WHERE ...
unfoldable pub update_where : (Job → Bool) → (Job → Job) → List Job → List Job
update_where test set [] = []
update_where test set (j ∷ js) = (if test j then set j else j) ∷ update_where test set js

-- An identical job in flight, which the unique index admits once.
abbrev pub is_twin : String → String → Job → Bool
is_twin request_type hash j =
    j.request_type == request_type && j.payload_hash == hash && (is_queued j || is_running j)

unfoldable pub in_flight : String → String → List Job → Option ℕ
in_flight request_type hash [] = none
in_flight request_type hash (j ∷ js) =
    if is_twin request_type hash j then some j.id else in_flight request_type hash js

-- INSERT INTO gateway.jobs (...) RETURNING id
unfoldable pub insert_job : Creation → String → ℕ → Database → Database
insert_job c hash now db = record {
  next_id = suc db.next_id;
  jobs =
      record {
        id = db.next_id;
        creation = c;
        payload_hash = hash;
        status = JobStatus.queued;
        attempts = 0;
        claim_token = none;
        created_at = now;
        started_at = none;
        finished_at = none;
        result = none;
        error_class = none;
      }
      ∷ db.jobs;
}

-- The job's id and whether it was created, or the error.
pub data Enqueued : Type 0 where
  enqueued : ℕ → Bool → Enqueued
  contention unknown_request_type : Enqueued

-- The loop with `n` attempts left. Between its read and its insert in an attempt the others make
-- of the table what `others` says; a twin that they add makes the insert fail.
unfoldable pub enqueue_attempts :
    (ℕ → Database → Database) → ℕ → Creation → String → ℕ → Database → Enqueued × Database
unfolding in_flight insert_job
enqueue_attempts others zero c hash now db = (contention, db)
enqueue_attempts others (suc n) c hash now db =
    let between = others n db in
    let again = enqueue_attempts others n c hash now between in
    elim (in_flight c.request_type hash db.jobs) [
      | some k ↦ (enqueued k false, db)
      | none ↦ elim (in_flight c.request_type hash between.jobs) [
        | some _ ↦ again
        | none ↦ (enqueued between.next_id true, insert_job c hash now between)
      ]
    ]

-- `payload_hash` is the digest of the job's identity.
unfoldable pub enqueue :
    (String → String → Bool → String → String)
    → (ℕ → Database → Database)
    → Creation
    → ℕ
    → Database
    → Enqueued × Database
unfolding enqueue_attempts mem
enqueue payload_hash others c now db =
    if mem c.request_type ("find" ∷ "resolve" ∷ "enrich" ∷ "fetch" ∷ "data" ∷ "catalog" ∷ [])
    then enqueue_attempts others 10 c
        (payload_hash c.request_type c.payload c.commercial c.client_id) now db
    else (unknown_request_type, db)

-- ORDER BY priority, created_at
abbrev pub comes_before : Job → Job → Bool
comes_before i j =
    ltb i.priority j.priority || (nat_beq i.priority j.priority && ltb i.created_at j.created_at)

abbrev pub better : Job → Option Job → Option Job
better j none = if is_queued j then some j else none
better j (some i) = if is_queued j && comes_before j i then some j else some i

unfoldable pub next_queued : List Job → Option Job
next_queued [] = none
next_queued (j ∷ js) = better j (next_queued js)

unfoldable pub started_job : String → ℕ → Job → Job
started_job token now j = record j {
  status = JobStatus.running;
  started_at = some now;
  claim_token = some token;
}

unfoldable pub claim : String → ℕ → Database → Option Job × Database
unfolding next_queued started_job update_where
claim token now db = elim (next_queued db.jobs) [
  | none ↦ (none, db)
  | some c ↦ (
    some (started_job token now c),
    record db { jobs = update_where (λ j. nat_beq j.id c.id) (started_job token now) db.jobs },
  )
]

-- %s::text IS NULL OR claim_token = %s
abbrev pub holds_token : Option String → Job → Bool
holds_token none j = true
holds_token (some token) j = elim j.claim_token [ none ↦ false | some t ↦ t == token ]

abbrev pub may_finish : ℕ → Option String → Job → Bool
may_finish k token j = nat_beq j.id k && is_running j && holds_token token j

unfoldable pub finished_job : Document → ℕ → Job → Job
finished_job result now j = record j {
  status = JobStatus.done;
  finished_at = some now;
  result = some result;
}

unfoldable pub finish : ℕ → Document → Option String → ℕ → Database → Bool × Database
unfolding update_where finished_job
finish k result token now db = (
  any (may_finish k token) db.jobs,
  record db { jobs = update_where (may_finish k token) (finished_job result now) db.jobs },
)

abbrev pub may_fail : ℕ → Option String → Job → Bool
may_fail k token j = nat_beq j.id k && (is_queued j || is_running j) && holds_token token j

abbrev or_empty : Option Document → Document
or_empty none = empty_object
or_empty (some d) = d

unfoldable pub failed_job : String → Option Document → ℕ → Job → Job
failed_job error_class detail now j = record j {
  status = JobStatus.failed;
  finished_at = some now;
  error_class = some error_class;
  result = some (or_empty detail);
}

unfoldable pub fail : ℕ → String → Option Document → Option String → ℕ → Database → Bool × Database
unfolding update_where failed_job
fail k error_class detail token now db = (
  any (may_fail k token) db.jobs,
  record db { jobs = update_where (may_fail k token) (failed_job error_class detail now) db.jobs },
)

-- Running since before the lease of so many minutes.
abbrev pub is_stale : ℕ → ℕ → Job → Bool
is_stale after_minutes now j =
    is_running j && elim j.started_at [ none ↦ false | some t ↦ ltb (t + after_minutes * 60) now ]

abbrev pub requeues : ℕ → ℕ → Job → Bool
requeues after_minutes now j = is_stale after_minutes now j && ltb j.attempts 2

abbrev pub gives_up : ℕ → ℕ → Job → Bool
gives_up after_minutes now j = is_stale after_minutes now j && leb 2 j.attempts

unfoldable pub requeued_job : Job → Job
requeued_job j = record j {
  status = JobStatus.queued;
  started_at = none;
  claim_token = none;
  attempts = j.attempts + 1;
}

unfoldable pub abandoned_job : ℕ → Job → Job
abandoned_job now j = record j {
  status = JobStatus.failed;
  finished_at = some now;
  error_class = some "outage";
  claim_token = none;
  result = some abandoned;
}

unfoldable pub reclaim_stale : ℕ → ℕ → Database → (ℕ × ℕ) × Database
unfolding update_where requeued_job abandoned_job
reclaim_stale after_minutes now db =
    let requeued = update_where (requeues after_minutes now) requeued_job db.jobs in
    (
      (
        count_if (requeues after_minutes now) db.jobs,
        count_if (gives_up after_minutes now) requeued,
      ),
      record db { jobs = update_where (gives_up after_minutes now) (abandoned_job now) requeued },
    )

-- What the handler of a job's request type does, if there is one.
pub data Handled : Type 0 where
  missing : Handled
  raised : String → Handled
  returned : String → Handled

unfoldable pub settle_job : Job → Handled → String → ℕ → Database → Database
unfolding finish fail
settle_job j missing token now db =
    (fail j.id "refused" (some (no_handler j.request_type)) (some token) now db).1
settle_job j (raised e) token now db =
    (fail j.id "outage" (some (error (first_chars 500 e))) (some token) now db).1
settle_job j (returned r) token now db = (finish j.id (given r) (some token) now db).1

-- `others` is what other connections make of the database while the handler runs, until `later`.
unfoldable pub run_once :
    String → ℕ → ℕ → (Job → Handled) → (Database → Database) → Database → Bool × Database
unfolding claim settle_job
run_once token now later handle others db = elim ((claim token now db).0) [
  | none ↦ (false, db)
  | some j ↦ (true, settle_job j (handle j) token later (others (claim token now db).1))
]
