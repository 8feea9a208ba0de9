-- ===== src/Gateway/Jobs/Order.antt =====
-- gateway/research_gateway/core/queue.py: which job is claimed.
use mathlib.Core.Path.{subst}
use autonomous_research_loop.Prelude.{
  ℕ, ◌≡◌, ◌≢◌, refl, sym, nat_beq, String, true, false, ◌&&◌, none, some, List, [], ◌∷◌, arith,
  Bool-cases, Option-cases, and_right, inl, inr,
}
use autonomous_research_loop.Prelude.Lists.{All}
use autonomous_research_loop.Gateway.Jobs.{
  JobStatus, Job, Database, is_queued, comes_before, next_queued, started_job, claim, update_where,
}
use autonomous_research_loop.Gateway.Jobs.Rows.{
  get, WellFormed, get-id, get-update_where, next_queued-get,
}

-- No queued job comes before `c`.
abbrev pub IsNext : Job → Job → Type 0
IsNext c j = is_queued j ≡ true → comes_before j c ≡ false

IsNext-trans : (i j c : Job) → comes_before j i ≡ true → IsNext i c → IsNext j c
IsNext-trans i j c before h queued_c = ground (arith, before, h queued_c)

All-IsNext :
    (i j : Job) (js : List Job) → comes_before j i ≡ true → All (IsNext i) js → All (IsNext j) js
All-IsNext i j [] before h = tt
All-IsNext i j (k ∷ ks) before h = (IsNext-trans i j k before h.0, All-IsNext i j ks before h.1)

next_queued-none : (js : List Job) → next_queued js ≡ none → All (λ j. is_queued j ≡ false) js
unfolding next_queued
next_queued-none [] h = tt
next_queued-none (j ∷ js) h = elim (Option-cases (next_queued js)) [
  | inl idle ↦ (ground (arith, idle, h), next_queued-none js idle)
  | inr (i, found) ↦ absurd (ground (arith, found, h))
]

All-idle : (c : Job) (js : List Job) → All (λ j. is_queued j ≡ false) js → All (IsNext c) js
All-idle c [] h = tt
All-idle c (j ∷ js) h = ((λ q. ground (arith, q, h.0)), All-idle c js h.1)

next_queued-IsNext :
    (js : List Job) (c : Job) → next_queued js ≡ some c → (is_queued c ≡ true) × All (IsNext c) js
unfolding next_queued
next_queued-IsNext [] c h = cc
next_queued-IsNext (j ∷ js) c h = elim (Option-cases (next_queued js)) [
  | inl idle ↦ (
    ground (arith, idle, h),
    ((λ q. ground (arith, idle, h)), All-idle c js (next_queued-none js idle)),
  )
  | inr (i, found) ↦
      let (waiting, least) = next_queued-IsNext js i found in
      elim (Bool-cases (is_queued j && comes_before j i)) [
        | inl e ↦
            let same : j ≡ c = ground (arith, found, e, h) in
            (
              ground (arith, e, same),
              (
                (λ q. ground (arith, same)),
                subst (λ d. All (IsNext d) js) same (All-IsNext i j js (and_right _ _ e) least),
              ),
            )
        | inr e ↦
            let same : i ≡ c = ground (arith, found, e, h) in
            (
              ground (arith, waiting, same),
              (
                subst (λ d. IsNext d j) same (λ q. ground (arith, q, e)),
                subst (λ d. All (IsNext d) js) same least,
              ),
            )
      ]
]

-- A claim of one id leaves the rows of the others.
started_others :
    (token : String) (now : ℕ) (c : Job) (k : ℕ) (js : List Job)
    → k ≢ c.id
    → get k (update_where (λ j. nat_beq j.id c.id) (started_job token now) js) ≡ get k js
unfolding started_job
started_others token now c k js other =
    let row = get-update_where (λ j. nat_beq j.id c.id) (started_job token now) (λ _. refl) k js in
    elim (Option-cases (get k js)) [
      | inl gone ↦ ground (arith, row, gone)
      | inr (j, at) ↦ ground (arith, row, at, get-id k js j at, other)
    ]

-- In a table whose ids fall from the next one, a claim that gives no job leaves the table, in which
-- no job is queued. A claim that gives a job gives a queued row of the table that no queued row comes
-- before, by priority and then by age, as running since now in the hands of the token. That is its
-- row from then on, and all other rows stay, as does the next id.
pub claim-IsNext :
    (token : String) (now : ℕ) (db : Database)
    → WellFormed db
    → ((claim token now db).0 ≡ none
        → ((claim token now db).1 ≡ db) × All (λ j. is_queued j ≡ false) db.jobs)
      × ((s : Job)
          → (claim token now db).0 ≡ some s
          → (c : Job) × (get c.id db.jobs ≡ some c)
            × (is_queued c ≡ true)
            × All (IsNext c) db.jobs
            × (s ≡ record c {
              status = JobStatus.running;
              started_at = some now;
              claim_token = some token;
            })
            × (get c.id (claim token now db).1.jobs ≡ some s)
            × ((k : ℕ) → k ≢ c.id → get k (claim token now db).1.jobs ≡ get k db.jobs)
            × ((claim token now db).1.next_id ≡ db.next_id))
unfolding claim started_job
claim-IsNext token now db b = elim (Option-cases (next_queued db.jobs)) [
  | inl idle ↦ (
    λ _. (ground (arith, idle), next_queued-none db.jobs idle),
    λ s h. absurd (ground (arith, idle, h)),
  )
  | inr (c, found) ↦ (
    λ h. absurd (ground (arith, found, h)),
    λ s h.
        let (waiting, least) = next_queued-IsNext db.jobs c found in
        let (at, _) = next_queued-get db.next_id db.jobs c b found in
        let started : started_job token now c ≡ s = ground (arith, found, h) in
        let row = get-update_where (λ j. nat_beq j.id c.id) (started_job token now) (λ _. refl) in
        (
          c,
          at,
          waiting,
          least,
          sym started,
          rw (found, claim) (ground (arith, row c.id db.jobs, at, started)),
          (λ k other. rw (found, claim) (started_others token now c k db.jobs other)),
          rw (found, claim) refl,
        ),
  )
]
