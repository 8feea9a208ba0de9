-- ===== src/Gateway/Jobs/Rows.antt =====
-- The rows of the job table by their ids, and what an update and a deletion leave of them.
use autonomous_research_loop.Prelude.{
  ℕ, ◌<◌, ◌≤◌, ◌≡◌, refl, Bool, true, Option, none, some, List, [], ◌∷◌, nat_beq, if◌then◌else◌,
  arith, Bool-cases, Option-cases, inl, inr,
}
use autonomous_research_loop.Prelude.Lists.{keep}
use autonomous_research_loop.Gateway.Jobs.{Job, Database, is_queued, update_where, next_queued}

-- SELECT ... FROM gateway.jobs WHERE id = %s
unfoldable pub get : ℕ → List Job → Option Job
get k [] = none
get k (j ∷ js) = if nat_beq j.id k then some j else get k js

-- The ids fall from `n`: no two rows share one.
abbrev pub Below : ℕ → List Job → Type 0
Below n [] = Unit
Below n (j ∷ js) = (j.id < n) × Below j.id js

abbrev pub WellFormed : Database → Type 0
WellFormed db = Below db.next_id db.jobs

pub Below-update_where :
    (test : Job → Bool) (set : Job → Job)
    → ((j : Job) → (set j).id ≡ j.id)
    → (n : ℕ) (js : List Job) → Below n js
    → Below n (update_where test set js)
unfolding update_where
Below-update_where test set same n [] h = tt
Below-update_where test set same n (j ∷ js) h = elim (Bool-cases (test j)) [
  | inl e ↦ ground (arith, e, same j, h, Below-update_where test set same j.id js h.1)
  | inr e ↦ ground (arith, e, h, Below-update_where test set same j.id js h.1)
]

pub get-Below : (k n : ℕ) (js : List Job) (j : Job) → Below n js → get k js ≡ some j → k < n
unfolding get
get-Below k n [] j b h = cc
get-Below k n (i ∷ is) j b h = elim (Bool-cases (nat_beq i.id k)) [
  | inl e ↦ ground (arith, e, b)
  | inr e ↦ ground (arith, get-Below k i.id is j b.1 (rw e at h), b)
]

-- The job that is claimed is the row with its id.
pub next_queued-get :
    (n : ℕ) (js : List Job) (c : Job)
    → Below n js
    → next_queued js ≡ some c
    → (get c.id js ≡ some c) × (is_queued c ≡ true)
unfolding next_queued get
next_queued-get n [] c b h = cc
next_queued-get n (j ∷ js) c b h = elim (Option-cases (next_queued js)) [
  | inl idle ↦ ground (arith, idle, h)
  | inr (i, found) ↦
      let (at, waiting) = next_queued-get j.id js i b.1 found in
      ground (arith, found, h, at, waiting, get-Below i.id j.id js i b.1 at)
]

pub get-id : (k : ℕ) (js : List Job) (j : Job) → get k js ≡ some j → j.id ≡ k
unfolding get
get-id k [] j h = cc
get-id k (i ∷ is) j h = elim (Bool-cases (nat_beq i.id k)) [
  | inl e ↦ ground (arith, e, h)
  | inr e ↦ get-id k is j (rw e at h)
]

-- The row after an update.
abbrev pub updated : (Job → Bool) → (Job → Job) → Option Job → Option Job
updated test set none = none
updated test set (some j) = some (if test j then set j else j)

pub get-update_where :
    (test : Job → Bool) (set : Job → Job)
    → ((j : Job) → (set j).id ≡ j.id)
    → (k : ℕ) (js : List Job) → get k (update_where test set js) ≡ updated test set (get k js)
unfolding get update_where
get-update_where test set same k [] = refl
get-update_where test set same k (i ∷ is) = elim (Bool-cases (test i)) [
  | inl e ↦ ground (arith, e, same i, get-update_where test set same k is)
  | inr e ↦ ground (arith, e, get-update_where test set same k is)
]

Below-mono : (m n : ℕ) (js : List Job) → m ≤ n → Below m js → Below n js
Below-mono m n [] h b = tt
Below-mono m n (j ∷ js) h b = (omega arith, b.1)

pub Below-keep : (p : Job → Bool) (n : ℕ) (js : List Job) → Below n js → Below n (keep p js)
Below-keep p n [] b = tt
Below-keep p n (j ∷ js) b = elim (Bool-cases (p j)) [
  | inl e ↦ rw e (b.0, Below-keep p j.id js b.1)
  | inr e ↦ rw e (Below-mono j.id n (keep p js) (omega arith) (Below-keep p j.id js b.1))
]

pub get_above : (k n : ℕ) (js : List Job) → Below n js → n ≤ k → get k js ≡ none
unfolding get
get_above k n [] b h = refl
get_above k n (j ∷ js) b h = ground (arith, get_above k j.id js b.1)

-- The row after a deletion of the others than `p` admits.
abbrev pub kept : (Job → Bool) → Option Job → Option Job
kept p none = none
kept p (some j) = if p j then some j else none

pub get-keep :
    (p : Job → Bool) (k n : ℕ) (js : List Job) → Below n js → get k (keep p js) ≡ kept p (get k js)
unfolding get
get-keep p k n [] b = refl
get-keep p k n (j ∷ js) b = elim (Bool-cases (p j)) [
  | inl e ↦ ground (arith, e, get-keep p k j.id js b.1)
  | inr e ↦ elim (Bool-cases (nat_beq j.id k)) [
    | inl same ↦ ground (arith, e, same, get-keep p k j.id js b.1, get_above k j.id js b.1)
    | inr other ↦ ground (arith, e, other, get-keep p k j.id js b.1)
  ]
]
