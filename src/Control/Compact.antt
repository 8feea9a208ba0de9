-- ===== src/Control/Compact.antt =====
-- research_loops/control_store.py: `compact`, which bounds the runtime ledgers.
pub mod Retained
mod Tests
use autonomous_research_loop.Prelude.{
  ℕ, zero, suc, ◌+◌, ◌-◌, String, Bool, false, not, ◌&&◌, ◌||◌, Option, none, some, List, [], ◌∷◌,
  ◌++◌, map, leb, nat_beq, if◌then◌else◌, ◌==◌,
}
use autonomous_research_loop.Prelude.Lists.{length, mem, lookup, insert, remove, keep, any}
use autonomous_research_loop.Control.Types.{
  Lease, content, Assignment, Run, Attempt, Episode, Capability, Work, Logical,
}

abbrev pub runs_retained_per_topic : ℕ
runs_retained_per_topic = 200

abbrev pub state_operations_retained : ℕ
state_operations_retained = 500

-- list.sort(key=stamp): stable
unfoldable pub insert_by {ℓ} : {A : Type ℓ} → (A → ℕ) → A → List A → List A
insert_by stamp a [] = a ∷ []
insert_by stamp a (b ∷ bs) =
    if leb (stamp a) (stamp b) then a ∷ b ∷ bs else b ∷ insert_by stamp a bs

unfoldable pub sort_by {ℓ} : {A : Type ℓ} → (A → ℕ) → List A → List A
unfolding insert_by
sort_by stamp [] = []
sort_by stamp (a ∷ as') = insert_by stamp a (sort_by stamp as')

-- xs[:n]
abbrev pub take {ℓ} : {A : Type ℓ} → ℕ → List A → List A
take zero xs = []
take (suc n) [] = []
take (suc n) (x ∷ xs) = x ∷ take n xs

-- A time that may be missing, before all that are not.
abbrev pub stamp_of : Option ℕ → ℕ
stamp_of none = 0
stamp_of (some t) = suc t

-- started_at or ended_at or ""
abbrev pub run_stamp : String × Run → ℕ
run_stamp (id, r) = elim r.started_at [ some t ↦ suc t | none ↦ stamp_of r.ended_at ]

abbrev pub option_list : Option String → List String
option_list none = []
option_list (some t) = t ∷ []

abbrev pub first_keys {ℓ} : {V : Type ℓ} → List (String × V) → List String
first_keys [] = []
first_keys ((k, v) ∷ table) = k ∷ first_keys table

unfoldable pub referenced_runs : List (String × Episode) → List String
referenced_runs [] = []
referenced_runs ((id, e) ∷ es) =
    option_list e.run_id
    ++ (map (λ (a : Attempt). a.run_id) e.attempt_history
        ++ (first_keys e.results ++ referenced_runs es))

-- The topics that have runs, each once, in the order in which they first appear.
unfoldable pub run_topics : List String → List (String × Run) → List String
unfolding mem
run_topics seen [] = []
run_topics seen ((id, r) ∷ rs) =
    let rest = run_topics (r.topic_id ∷ seen) rs in
    if mem r.topic_id seen then rest else r.topic_id ∷ rest

abbrev pub of_topic : String → String × Run → Bool
of_topic t (id, r) = r.topic_id == t

-- run_ids[:-RUNS_RETAINED_PER_TOPIC], oldest first
unfoldable pub surplus_runs : String → List (String × Run) → List (String × Run)
unfolding sort_by
surplus_runs t runs =
    let own = sort_by run_stamp (keep (of_topic t) runs) in
    take (length own - runs_retained_per_topic) own

abbrev pub is_prunable : List String → String × Run → Bool
is_prunable referenced (id, r) = not (r.state == "started") && not (mem id referenced)

-- The runs without those of the ids, and their number added to the topic's tombstone.
unfoldable pub delete_all {ℓ} : {V : Type ℓ} → List String → List (String × V) → List (String × V)
unfolding remove
delete_all [] table = table
delete_all (k ∷ ks) table = delete_all ks (remove k table)

unfoldable pub add_pruned : String → ℕ → List (String × ℕ) → List (String × ℕ)
unfolding lookup insert
add_pruned t n counts =
    if nat_beq n 0
    then counts
    else insert t (elim (lookup t counts) [ none ↦ 0 | some k ↦ k ] + n) counts

unfoldable pub prune_topics : List String → List String → Work → Work
unfolding surplus_runs delete_all add_pruned mem
prune_topics referenced [] w = w
prune_topics referenced (t ∷ ts) w =
    let gone = first_keys (keep (is_prunable referenced) (surplus_runs t w.runs)) in
    prune_topics referenced ts (record w {
      runs = delete_all gone w.runs;
      pruned_runs = add_pruned t (length gone) w.pruned_runs;
    })

abbrev pub operation_stamp : String × Option ℕ → ℕ
operation_stamp (id, at) = stamp_of at

unfoldable pub prune_operations : List (String × Option ℕ) → List (String × Option ℕ)
unfolding sort_by delete_all
prune_operations ops =
    delete_all
      (first_keys (take (length ops - state_operations_retained) (sort_by operation_stamp ops))) ops

abbrev pub is_capability_of : Capability → Lease → Bool
is_capability_of c lease =
    lease.lease_id == c.lease_id && nat_beq lease.lease_generation c.lease_generation

abbrev pub held_by : Capability → Option Lease → Bool
held_by c none = false
held_by c (some lease) = is_capability_of c lease

abbrev pub is_alive : Work → String × Capability → Bool
is_alive w (digest, c) =
    not c.revoked
    && (any (λ (e : String × Assignment). held_by c (content e.1.current)) w.assignments
        || held_by c w.intake_current)

unfoldable pub compact : Logical → Logical
unfolding prune_topics run_topics referenced_runs prune_operations
compact s =
    let w = prune_topics (referenced_runs s.work.episodes) (run_topics [] s.work.runs) s.work in
    record s {
      work = record w {
        state_operations = prune_operations w.state_operations;
        capabilities = keep (is_alive w) w.capabilities;
      };
    }
