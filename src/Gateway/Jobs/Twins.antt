-- ===== src/Gateway/Jobs/Twins.antt =====
-- gateway/research_gateway/core/queue.py: identical requests in flight share one job.
use autonomous_research_loop.Prelude.{
  ℕ, zero, suc, ◌≤◌, ◌≡◌, refl, String, none, List, [], ◌∷◌, eq_iff, arith, Bool-cases,
  Option-cases, inl, inr,
}
use autonomous_research_loop.Prelude.Lists.{count_if}
use autonomous_research_loop.Gateway.Jobs.{
  Creation, Job, Database, is_twin, in_flight, insert_job, enqueue_attempts,
}

abbrev pub twins : String → String → Database → ℕ
twins request_type hash db = count_if (is_twin request_type hash) db.jobs

-- The unique index: of each request at most one job is in flight.
abbrev pub Unique : Database → Type 0
Unique db = (request_type hash : String) → twins request_type hash db ≤ 1

in_flight-none :
    (request_type hash : String) (js : List Job)
    → in_flight request_type hash js ≡ none
    → count_if (is_twin request_type hash) js ≡ 0
unfolding in_flight
in_flight-none request_type hash [] h = refl
in_flight-none request_type hash (j ∷ js) h = elim (Bool-cases (is_twin request_type hash j)) [
  | inl e ↦ absurd (ground (arith, e, h))
  | inr e ↦ rw e (in_flight-none request_type hash js (rw e at h))
]

insert_job-Unique :
    (c : Creation) (hash : String) (now : ℕ) (db : Database)
    → in_flight c.request_type hash db.jobs ≡ none
    → Unique db
    → Unique (insert_job c hash now db)
unfolding insert_job
insert_job-Unique c hash now db free h t g = ground (
  arith,
  h t g,
  in_flight-none c.request_type hash db.jobs free,
  eq_iff c.request_type t,
  eq_iff hash g,
)

-- Whatever the other connections do between the reads and the inserts, if they keep to the unique
-- index and the table did, then the table that an enqueue leaves keeps to it, for any number of
-- attempts.
pub enqueue_attempts-Unique :
    (others : ℕ → Database → Database) (n : ℕ) (c : Creation) (hash : String) (now : ℕ)
    (db : Database)
    → ((m : ℕ) (d : Database) → Unique d → Unique (others m d))
    → Unique db
    → Unique (enqueue_attempts others n c hash now db).1
unfolding enqueue_attempts
enqueue_attempts-Unique others zero c hash now db keep h = h
enqueue_attempts-Unique others (suc n) c hash now db keep h =
    elim (Option-cases (in_flight c.request_type hash db.jobs)) [
      | inr (k, found) ↦ rw (found, enqueue_attempts) h
      | inl free ↦
          let h' = keep n db h in
          elim (Option-cases (in_flight c.request_type hash (others n db).jobs)) [
            | inr (k, found) ↦
                rw (free, found, enqueue_attempts)
                  (enqueue_attempts-Unique others n c hash now (others n db) keep h')
            | inl still ↦
                rw (free, still, enqueue_attempts)
                  (insert_job-Unique c hash now (others n db) still h')
          ]
    ]
