-- ===== src/Control/Runnable.antt =====
-- research_loops/control_store.py: what `reconcile_state` deals to a station is runnable.
pub mod Dealt
pub mod Turns
use mathlib.Core.List.{Memᴰ}
use autonomous_research_loop.Prelude.{
  ℕ, String, ◌≡◌, ◌≢◌, refl, sym, ap, ◌∙◌, Bool, true, false, not, ◌||◌, ◌&&◌, Option, none, some,
  List, [], ◌∷◌, ◌++◌, inl, inr, ◌==◌, eq_iff, arith, Bool-cases, Option-cases, and_left, and_right,
  if◌then◌else◌,
}
use autonomous_research_loop.Prelude.Lists.{
  All, keep-All, all, keep, mem, lookup, insert, lookup-insert,
}
use autonomous_research_loop.Queue.Types.{Item}
use autonomous_research_loop.Queue.Transitions.{is_running, is_waiting, wants_running}
use autonomous_research_loop.Control.Types.{content, Topic, Logical}
use autonomous_research_loop.Control.Store.{ensure_topic, topic_of, default_topic_record}
use autonomous_research_loop.Control.Schedule.{
  Assignments, assignment_of, executing_topics, is_done, is_future, is_runnable, is_considered,
  held_reviews, topics_after, collect, is_review_due, reviews_first, candidates_of,
}
use autonomous_research_loop.Control.Exclusive.{held}

-- A topic's item that a station may be dealt.
pub record Runnable (now : ℕ) (s : Logical) (i : Item) : Type 0 where
  pub member : Memᴰ i s.queue.items
  pub research_lane : i.lane ≡ "research"
  pub unheld : (k : String) → held k s.work.assignments ≢ some i.id
  pub ready : all (is_done s.queue.items) i.depends_on ≡ true
  pub due : is_future (topic_of i.id s.work.topics).retry_not_before now ≡ false
  pub waiting : (is_waiting i.status || is_running i.status) ≡ true
  pub wanted : wants_running i.desired_state ≡ true
  pub unreviewed : mem (topic_of i.id s.work.topics).review_state held_reviews ≡ false

-- Making sure of a topic changes no topic's record, since a missing one reads as the new one.
pub topic_of-ensure_topic :
    (j k : String) (topics : List (String × Topic))
    → topic_of k (ensure_topic j topics) ≡ topic_of k topics
unfolding topic_of ensure_topic
topic_of-ensure_topic j k topics =
    ground (arith, lookup-insert j k (default_topic_record j none) topics, eq_iff j k)

executing_topics-held :
    (topic k : String) (table : Assignments)
    → mem topic (executing_topics table) ≡ false
    → held k table ≢ some topic
unfolding mem assignment_of lookup
executing_topics-held topic k [] free h = cc
executing_topics-held topic k ((j, r) ∷ table) free h = elim (Option-cases (content r.current)) [
  | inl none_here ↦
      executing_topics-held topic k table (ground (arith, free, none_here))
        (ground (arith, h, none_here))
  | inr (l, here) ↦
      executing_topics-held topic k table (ground (arith, free, here))
        (ground (arith, h, here, free, eq_iff l.topic_id topic))
]

if-All :
    {A : Type 0} (P : A → Type 0) (test : Bool) (x : A) (rest : List A)
    → (test ≡ true → P x)
    → All P rest
    → All P (if test then x ∷ rest else rest)
if-All P true x rest px ps = (px refl, ps)
if-All P false x rest px ps = ps

module _ (now : ℕ) (s : Logical) where
  abbrev Table : Type 0
  Table = List (String × Topic)

  is_runnable-Runnable :
      (i : Item) (topics : Table)
      → topic_of i.id topics ≡ topic_of i.id s.work.topics
      → Memᴰ i s.queue.items
      → is_considered (executing_topics s.work.assignments) i ≡ true
      → is_runnable now s.queue.items (topic_of i.id topics) i ≡ true
      → Runnable now s i
  unfolding is_runnable
  is_runnable-Runnable i topics same m considered runs = record {
    member = m;
    research_lane = (eq_iff i.lane "research").0 (ground (arith, considered));
    unheld = λ k. executing_topics-held i.id k s.work.assignments (ground (arith, considered));
    ready = ground (arith, runs);
    due = ground (arith, runs, same);
    waiting = ground (arith, runs);
    wanted = ground (arith, runs);
    unreviewed = ground (arith, runs, same);
  }

  collect-Runnable :
      (is : List Item) (topics : Table)
      → ((k : String) → topic_of k topics ≡ topic_of k s.work.topics)
      → ((i : Item) → Memᴰ i is → Memᴰ i s.queue.items)
      → All
          (Runnable now s)
          (collect now (executing_topics s.work.assignments) s.queue.items is topics)
  unfolding collect
  collect-Runnable [] topics same members = tt
  collect-Runnable (i ∷ is) topics same members =
      let executing = executing_topics s.work.assignments in
      let next = if is_considered executing i then ensure_topic i.id topics else topics in
      let same_next : (k : String) → topic_of k next ≡ topic_of k s.work.topics = λ k.
        elim (Bool-cases (is_considered executing i)) [
          | inl e ↦ rw e (topic_of-ensure_topic i.id k topics ∙ same k)
          | inr e ↦ rw e (same k)
        ] in
      if-All (Runnable now s)
        (is_considered executing i && is_runnable now s.queue.items (topic_of i.id next) i) i
        (collect now executing s.queue.items is next)
        (λ t.
          is_runnable-Runnable i next (same_next i.id) (members i (Memᴰ.head refl))
            (and_left (is_considered executing i)
              (is_runnable now s.queue.items (topic_of i.id next) i) t)
            (and_right (is_considered executing i)
              (is_runnable now s.queue.items (topic_of i.id next) i) t))
        (collect-Runnable is next same_next (λ j m. members j (Memᴰ.tail m)))

append-All : {A : Type 0} (P : A → Type 0) (xs ys : List A) → All P xs → All P ys → All P (xs ++ ys)
append-All P [] ys ps qs = qs
append-All P (x ∷ xs) ys (px, ps) qs = (px, append-All P xs ys ps qs)

-- Every candidate is runnable.
pub candidates_of-Runnable : (now : ℕ) (s : Logical) → All (Runnable now s) (candidates_of now s)
unfolding candidates_of reviews_first
candidates_of-Runnable now s =
    let all_of = collect-Runnable now s s.queue.items s.work.topics (λ k. refl) (λ i m. m) in
    append-All (Runnable now s) _ _ (keep-All (Runnable now s) _ _ all_of)
      (keep-All (Runnable now s) _ _ all_of)
