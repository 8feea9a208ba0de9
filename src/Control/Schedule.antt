-- ===== src/Control/Schedule.antt =====
-- research_loops/control_store.py: `ControlScheduler.reconcile_state`, which deals topics to stations.
use autonomous_research_loop.Prelude.{
  ℕ, String, Bool, true, false, not, ◌&&◌, ◌||◌, Option, none, some, List, [], ◌∷◌, ◌++◌, map, ltb,
  nat_beq, if◌then◌else◌, ◌==◌,
}
use autonomous_research_loop.Prelude.Int.{ℤ, below}
use autonomous_research_loop.Prelude.Lists.{mem, all, lookup, insert, keep}
use autonomous_research_loop.Queue.Types.{Item}
use autonomous_research_loop.Queue.Transitions.{is_running, is_waiting, is_completed, wants_running}
use autonomous_research_loop.Control.Types.{
  absent, null, set, content, Kind, research, checkpoint, Lease, Assignment, Topic, Logical,
}
use autonomous_research_loop.Control.Store.{ensure_topic, topic_of}

abbrev pub Assignments : Type 0
Assignments = List (String × Assignment)

-- str(station_id), for the stations 1 to 5
unfoldable pub key : ℕ → String
key n =
    if nat_beq n 1
    then "1"
    else if nat_beq n 2
    then "2"
    else if nat_beq n 3
    then "3"
    else if nat_beq n 4
    then "4"
    else "5"

-- range(1, MAX_STATIONS + 1)
abbrev pub station_ids : List ℕ
station_ids = 1 ∷ 2 ∷ 3 ∷ 4 ∷ 5 ∷ []

-- setdefault(key, {})
abbrev pub blank_assignment : Assignment
blank_assignment = record {
  current = absent;
  desired = absent;
  draining = none;
  handoff_reason = absent;
  rest_until = none;
  lease_generation = none;
}

unfoldable pub assignment_of : String → Assignments → Assignment
unfolding lookup
assignment_of k table = elim (lookup k table) [ none ↦ blank_assignment | some r ↦ r ]

abbrev pub executing_topics : Assignments → List String
executing_topics [] = []
executing_topics ((k, r) ∷ table) = elim (content r.current) [
  | none ↦ executing_topics table
  | some lease ↦ lease.topic_id ∷ executing_topics table
]

-- {item["id"]: item}: the last of two items with one id
unfoldable pub item_by_id : String → List Item → Option Item
item_by_id k [] = none
item_by_id k (i ∷ is) = elim (item_by_id k is) [
  | some later ↦ some later
  | none ↦ if i.id == k then some i else none
]

abbrev pub is_done : List Item → String → Bool
is_done items k = elim (item_by_id k items) [ none ↦ false | some i ↦ is_completed i.status ]

abbrev pub is_future : Option ℕ → ℕ → Bool
is_future none now = false
is_future (some at) now = ltb now at

abbrev pub held_reviews : List String
held_reviews =
    "awaiting_operator" ∷ "publishing_decision" ∷ "checkpoint_running" ∷ "retry_wait"
    ∷ "needs_attention" ∷ []

unfoldable pub is_runnable : ℕ → List Item → Topic → Item → Bool
unfolding mem item_by_id
is_runnable now items topic i =
    all (is_done items) i.depends_on
    && not (is_future topic.retry_not_before now)
    && (is_waiting i.status || is_running i.status)
    && wants_running i.desired_state
    && not (mem topic.review_state held_reviews)

-- Whether the loop looks at the item's topic at all.
abbrev pub is_considered : List String → Item → Bool
is_considered executing i = i.lane == "research" && not (mem i.id executing)

-- The topics that the loop makes sure of, and its candidates, in queue order.
unfoldable pub topics_after :
    List String → List Item → List (String × Topic) → List (String × Topic)
unfolding mem ensure_topic
topics_after executing [] topics = topics
topics_after executing (i ∷ is) topics =
    topics_after executing is
      (if is_considered executing i then ensure_topic i.id topics else topics)

unfoldable pub collect : ℕ → List String → List Item → List Item → List (String × Topic) → List Item
unfolding mem ensure_topic topic_of is_runnable
collect now executing items [] topics = []
collect now executing items (i ∷ is) topics =
    let next = if is_considered executing i then ensure_topic i.id topics else topics in
    let rest = collect now executing items is next in
    if is_considered executing i && is_runnable now items (topic_of i.id next) i
    then i ∷ rest
    else rest

unfoldable pub is_review_due : List (String × Topic) → Item → Bool
unfolding topic_of
is_review_due topics i = (topic_of i.id topics).review_state == "checkpoint_due"

-- candidates.sort(key=0 if due else 1): stable, so the due ones and then the others
unfoldable pub reviews_first : List (String × Topic) → List Item → List Item
unfolding is_review_due
reviews_first topics items =
    keep (is_review_due topics) items ++ keep (λ i. not (is_review_due topics i)) items

abbrev pub kind_of : List (String × Topic) → Item → Kind
kind_of topics i = if is_review_due topics i then checkpoint else research

-- What the loop over the stations does to one record that is not dealt a topic, and to one that is.
unfoldable pub drain : Assignment → Assignment
drain r = elim (content r.current) [
  | none ↦ record r { desired = null }
  | some _ ↦ record r {
    desired = null;
    draining = some true;
    handoff_reason = set "active_count_decreased";
  }
]

abbrev pub serve : Lease → Assignment → Assignment
serve lease r = record r {
  desired = set (record { topic_id = lease.topic_id; execution_kind = lease.execution_kind });
}

abbrev pub deal_to : List (String × Topic) → Item → Assignment → Assignment
deal_to topics i r = record r {
  desired = set (record { topic_id = i.id; execution_kind = kind_of topics i });
}

abbrev pub leave_idle : Assignment → Assignment
leave_idle r = record r { desired = null }

-- One round: the station's record and the candidates that are left.
unfoldable pub deal_station :
    ℤ → ℕ → List (String × Topic) → ℕ → Assignment → List Item → Assignment × List Item
unfolding drain is_review_due
deal_station active now topics n r candidates =
    if below active n then (drain r, candidates) else elim (content r.current) [
      | some lease ↦ (serve lease r, candidates)
      | none ↦
          if is_future r.rest_until now
          then (leave_idle r, candidates)
          else elim candidates [ [] ↦ (leave_idle r, []) | i ∷ rest ↦ (deal_to topics i r, rest) ]
    ]

unfoldable pub deal : ℤ → ℕ → List (String × Topic) → List ℕ → List Item → Assignments → Assignments
unfolding deal_station assignment_of key insert
deal active now topics [] candidates table = table
deal active now topics (n ∷ ns) candidates table =
    let (r, rest) = deal_station active now topics n (assignment_of (key n) table) candidates in
    deal active now topics ns rest (insert (key n) r table)

abbrev pub clear_desired : Assignments → Assignments
clear_desired = map (λ e. (e.0, leave_idle e.1))

-- The candidates in the order in which they are dealt.
unfoldable pub candidates_of : ℕ → Logical → List Item
unfolding topics_after collect reviews_first
candidates_of now s =
    let executing = executing_topics s.work.assignments in
    reviews_first (topics_after executing s.queue.items s.work.topics)
      (collect now executing s.queue.items s.queue.items s.work.topics)

unfoldable pub reconcile_state : ℕ → Logical → Logical
unfolding topics_after candidates_of deal
reconcile_state now s =
    if s.queue.paused || s.queue.stopping
    then record s { work = record s.work { assignments = clear_desired s.work.assignments } }
    else (let topics =
          topics_after (executing_topics s.work.assignments) s.queue.items s.work.topics in
        record s {
          work = record s.work {
            topics = topics;
            assignments =
                deal s.configuration.active_count now topics station_ids (candidates_of now s)
                  s.work.assignments;
          };
        })
