-- ===== src/Checkpoint/Accounting.antt =====
-- research_loops/checkpoints/service.py: the research iterations that a topic is credited with.
pub mod Scheduled
pub mod Unrelated
pub mod Counted
pub mod History
pub mod Once
pub mod Balance
use autonomous_research_loop.Prelude.{
  ℕ, ◌+◌, ◌≤◌, ◌<◌, String, ◌≡◌, ◌≢◌, Option, none, some, List, inl, inr, ◌⊎◌, arith, refl, sym,
  ◌∙◌, ap, Option-cases,
}
use autonomous_research_loop.Prelude.Lists.{lookup}
use autonomous_research_loop.Control.Types.{Topic, Run, Logical}
use autonomous_research_loop.Control.Store.{topic_of}

abbrev pub Runs : Type 0
Runs = List (String × Run)

abbrev pub completed : String → Logical → ℕ
completed k s = (topic_of k s.work.topics).research_iterations_completed

-- The run with this id, its topic and its ordinal stood so in the table.
abbrev pub Old : Runs → String → Run → Type 0
Old runs a r =
    (r' : Run) × (lookup a runs ≡ some r') × (r'.topic_id ≡ r.topic_id) × (r'.ordinal ≡ r.ordinal)

-- The numbered runs of the second table were in the first one.
abbrev pub Fewer : Runs → Runs → Type 0
Fewer before after =
    (a : String) (r : Run) (o : ℕ) → lookup a after ≡ some r → r.ordinal ≡ some o → Old before a r

pub Fewer-trans : (u v w : Runs) → Fewer u v → Fewer v w → Fewer u w
Fewer-trans u v w first then_ a r o found numbered =
    let (r', has, topic, ordinal) = then_ a r o found numbered in
    let (q, has', topic', ordinal') = first a r' o has (ordinal ∙ numbered) in
    (q, has', topic' ∙ topic, ordinal' ∙ ordinal)

pub Fewer-refl : (u : Runs) → Fewer u u
Fewer-refl u a r o found numbered = (r, found, refl, refl)

-- The research ordinals of the runs are those that the topics count, each given once.
pub record Ordinals (s : Logical) : Type 0 where
  pub next : (k : String) → (topic_of k s.work.topics).next_research_ordinal ≡ completed k s + 1
  pub counted :
      (a : String) (r : Run) (o : ℕ)
      → lookup a s.work.runs ≡ some r
      → r.ordinal ≡ some o
      → o ≤ completed r.topic_id s
  pub once :
      (a b : String) (q r : Run) (o : ℕ)
      → a ≢ b
      → lookup a s.work.runs ≡ some q
      → lookup b s.work.runs ≡ some r
      → q.topic_id ≡ r.topic_id
      → q.ordinal ≡ some o
      → r.ordinal ≢ some o

-- What a step may add: a run with this id and a number that its topic has just reached.
abbrev pub New : String → Logical → Logical → String → Run → ℕ → Type 0
New id s v a r o = (a ≡ id) × (completed r.topic_id s < o) × (o ≤ completed r.topic_id v)

pub Ordinals-step :
    (id : String) (s v : Logical)
    → ((k : String) → (topic_of k v.work.topics).next_research_ordinal ≡ completed k v + 1)
    → ((k : String) → completed k s ≤ completed k v)
    → ((a : String) (r : Run) (o : ℕ)
        → lookup a v.work.runs ≡ some r
        → r.ordinal ≡ some o
        → Old s.work.runs a r ⊎ New id s v a r o)
    → Ordinals s
    → Ordinals v
Ordinals-step id s v next grows added h = record {
  next = next;
  counted = λ a r o found numbered. elim (added a r o found numbered) [
    | inr (here, above, below) ↦ below
    | inl (q, has, topic, ordinal) ↦
        let old = h.counted a q o has (ordinal ∙ numbered) in
        let old' : o ≤ completed r.topic_id s = rw topic at (old) in
        omega (arith, old', grows r.topic_id)
  ];
  once = λ a b q r o apart found found' same numbered numbered'. elim (added a q o found numbered) [
    | inl (q', has, topic, ordinal) ↦ elim (added b r o found' numbered') [
      | inl (r', has', topic', ordinal') ↦
          h.once a b q' r' o apart has has' (topic ∙ same ∙ sym topic') (ordinal ∙ numbered)
            (ordinal' ∙ numbered')
      | inr (here, above, below) ↦
          let old = h.counted a q' o has (ordinal ∙ numbered) in
          let old' : o ≤ completed r.topic_id s = rw (topic ∙ same) at (old) in
          omega (arith, old', above)
    ]
    | inr (here, above, below) ↦ elim (added b r o found' numbered') [
      | inl (r', has', topic', ordinal') ↦
          let old = h.counted b r' o has' (ordinal' ∙ numbered') in
          let old' : o ≤ completed q.topic_id s = rw (topic' ∙ sym same) at (old) in
          omega (arith, old', above)
      | inr (here', _, _) ↦ apart (here ∙ sym here')
    ]
  ];
}
