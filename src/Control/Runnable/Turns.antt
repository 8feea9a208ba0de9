-- ===== src/Control/Runnable/Turns.antt =====
-- research_loops/control_store.py: which candidate the deal gives to which station.
use mathlib.Core.Path.{subst}
use mathlib.Core.List.{Memᴰ}
use autonomous_research_loop.Prelude.{
  ℕ, zero, suc, String, ◌≡◌, refl, sym, ap, ◌∙◌, Bool, true, false, not, ◌&&◌, ◌||◌, Option, none,
  some, List, [], ◌∷◌, ◌++◌, inl, inr, ◌==◌, ltb, eq_iff, arith, Bool-cases, if◌then◌else◌,
}
use autonomous_research_loop.Prelude.Int.{ℤ, below}
use autonomous_research_loop.Prelude.Lists.{All, keep, count_if, insert}
use autonomous_research_loop.Queue.Types.{Item}
use autonomous_research_loop.Control.Types.{content, Desired, Assignment, Topic, Logical}
use autonomous_research_loop.Control.Schedule.{
  Assignments, key, station_ids, assignment_of, is_future, drain, kind_of, deal_station, deal,
  executing_topics, topics_after, candidates_of, reconcile_state,
}
use autonomous_research_loop.Control.Records.{assignment_of-insert}

abbrev holds_none : Assignment → Bool
holds_none r = elim (content r.current) [ none ↦ true | some l ↦ false ]

-- A station that is in use, holds no lease and does not rest.
abbrev pub is_available : ℤ → ℕ → ℕ → Assignment → Bool
is_available active now n r =
    not (below active n) && (holds_none r && not (is_future r.rest_until now))

abbrev pub candidate_at : ℕ → List Item → Option Item
candidate_at n [] = none
candidate_at zero (i ∷ is) = some i
candidate_at (suc n) (i ∷ is) = candidate_at n is

abbrev pub wish : List (String × Topic) → Option Item → Option Desired
wish topics none = none
wish topics (some i) = some (record { topic_id = i.id; execution_kind = kind_of topics i })

-- Stations of other keys.
abbrev Apart : ℕ → List ℕ → Type 0
Apart n = All λ m. key m == key n ≡ false

module _ (active : ℤ) (now : ℕ) (topics : List (String × Topic)) where
  -- The candidates that a round leaves.
  abbrev left_after : Bool → List Item → List Item
  left_after false is = is
  left_after true [] = []
  left_after true (i ∷ is) = is

  deal_station-left :
      (n : ℕ) (r : Assignment) (is : List Item)
      → (deal_station active now topics n r is).1 ≡ left_after (is_available active now n r) is
  unfolding deal_station
  deal_station-left n r [] = ground arith
  deal_station-left n r (i ∷ is) = ground arith

  deal_station-wish :
      (n : ℕ) (r : Assignment) (is : List Item)
      → is_available active now n r ≡ true
      → content (deal_station active now topics n r is).0.desired ≡ wish topics (candidate_at 0 is)
  unfolding deal_station
  deal_station-wish n r [] h = ground (arith, h)
  deal_station-wish n r (i ∷ is) h = ground (arith, h)

  deal_station-available :
      (m n : ℕ) (r : Assignment) (is : List Item)
      → is_available active now m (deal_station active now topics n r is).0
        ≡ is_available active now m r
  unfolding deal_station drain
  deal_station-available m n r is = ground arith

  abbrev available_in : Assignments → ℕ → Bool
  available_in table m = is_available active now m (assignment_of (key m) table)

  available-insert :
      (m n : ℕ) (is : List Item) (table : Assignments)
      → available_in
          (insert
            (key n)
            (deal_station active now topics n (assignment_of (key n) table) is).0
            table)
          m
        ≡ available_in table m
  available-insert m n is table =
      let r = (deal_station active now topics n (assignment_of (key n) table) is).0 in
      elim (Bool-cases (key n == key m)) [
        | inl e ↦
            let new : assignment_of (key m) (insert (key n) r table) ≡ r =
              rw e at (assignment_of-insert (key n) (key m) r table) in
            ap (is_available active now m) new
            ∙ (deal_station-available m n (assignment_of (key n) table) is
                ∙ ap (λ k. is_available active now m (assignment_of k table))
                    ((eq_iff (key n) (key m)).0 e))
        | inr e ↦
            let old : assignment_of (key m) (insert (key n) r table) ≡ assignment_of (key m) table =
              rw e at (assignment_of-insert (key n) (key m) r table) in
            ap (is_available active now m) old
      ]

  count-available :
      (n : ℕ) (is : List Item) (table : Assignments) (ms : List ℕ)
      → count_if
          (available_in (
            insert
              (key n)
              (deal_station active now topics n (assignment_of (key n) table) is).0
              table))
          ms
        ≡ count_if (available_in table) ms
  count-available n is table [] = refl
  count-available n is table (m ∷ ms) =
      rw (available-insert m n is table)
        (ap (λ c. if available_in table m then suc c else c) (count-available n is table ms))

  deal-Apart :
      (n : ℕ) (ns : List ℕ) (is : List Item) (table : Assignments)
      → Apart n ns
      → assignment_of (key n) (deal active now topics ns is table) ≡ assignment_of (key n) table
  unfolding deal
  deal-Apart n [] is table far = refl
  deal-Apart n (m ∷ ms) is table (here, far) =
      let round = deal_station active now topics m (assignment_of (key m) table) is in
      deal-Apart n ms round.1 (insert (key m) round.0 table) far
      ∙ (rw here at (assignment_of-insert (key m) (key n) round.0 table))

  candidate-left :
      (b : Bool) (c : ℕ) (is : List Item)
      → candidate_at c (left_after b is) ≡ candidate_at (if b then suc c else c) is
  candidate-left false c is = refl
  candidate-left true c [] = refl
  candidate-left true c (i ∷ is) = refl

  deal-turn :
      (n : ℕ) (before after : List ℕ) (is : List Item) (table : Assignments)
      → Apart n before
      → Apart n after
      → available_in table n ≡ true
      → content
          (assignment_of (key n) (deal active now topics (before ++ (n ∷ after)) is table)).desired
        ≡ wish topics (candidate_at (count_if (available_in table) before) is)
  unfolding deal
  deal-turn n [] after is table far far' free =
      let r = assignment_of (key n) table in
      let round = deal_station active now topics n r is in
      let own : assignment_of (key n) (insert (key n) round.0 table) ≡ round.0 =
        rw ((eq_iff (key n) (key n)).1 refl) at
          (assignment_of-insert (key n) (key n) round.0 table) in
      ap (λ (x : Assignment). content x.desired)
        (deal-Apart n after round.1 (insert (key n) round.0 table) far' ∙ own)
      ∙ deal_station-wish n r is free
  deal-turn n (m ∷ ms) after is table (here, far) far' free =
      let round = deal_station active now topics m (assignment_of (key m) table) is in
      let later = insert (key m) round.0 table in
      let c = count_if (available_in table) ms in
      deal-turn n ms after round.1 later far far' (available-insert n m is table ∙ free)
      ∙ ap (wish topics) (
          ap (λ k. candidate_at k round.1) (count-available m is table ms)
          ∙ (ap (candidate_at c) (deal_station-left m (assignment_of (key m) table) is)
              ∙ candidate-left (available_in table m) c is))

-- The stations before one.
abbrev pub stations_before : ℕ → List ℕ
stations_before n = keep (λ m. ltb m n) station_ids

abbrev pub available_stations : ℕ → Logical → List ℕ → ℕ
available_stations now s =
    count_if λ m.
      is_available s.configuration.active_count now m (assignment_of (key m) s.work.assignments)

abbrev Turn : ℕ → Logical → ℕ → Type 0
Turn now s n =
    is_available s.configuration.active_count now n (assignment_of (key n) s.work.assignments)
      ≡ true
    → content (assignment_of (key n) (reconcile_state now s).work.assignments).desired
      ≡ wish (topics_after (executing_topics s.work.assignments) s.queue.items s.work.topics)
          (candidate_at (available_stations now s (stations_before n)) (candidates_of now s))

module _ (now : ℕ) (s : Logical) (moves : (s.queue.paused || s.queue.stopping) ≡ false) where
  turn :
      (n : ℕ) (after : List ℕ)
      → station_ids ≡ stations_before n ++ (n ∷ after)
      → Apart n (stations_before n)
      → Apart n after
      → Turn now s n
  unfolding reconcile_state
  turn n after split far far' free =
      let topics = topics_after (executing_topics s.work.assignments) s.queue.items s.work.topics in
      let dealt : content
            (assignment_of (key n) (
              deal s.configuration.active_count now topics station_ids (candidates_of now s)
                s.work.assignments)).desired
          ≡ wish topics
              (candidate_at (available_stations now s (stations_before n)) (candidates_of now s)) =
        subst
          (λ ids.
            content
              (assignment_of (key n) (
                deal s.configuration.active_count now topics ids (candidates_of now s)
                  s.work.assignments)).desired
            ≡ wish topics
                (candidate_at (available_stations now s (stations_before n)) (candidates_of now s)))
          (sym split)
          (deal-turn s.configuration.active_count now topics n (stations_before n) after
            (candidates_of now s) s.work.assignments far far' free) in
      rw moves dealt

  turns : (n : ℕ) → Memᴰ n station_ids → Turn now s n
  unfolding key
  turns n (Memᴰ.head e) =
      subst (Turn now s) (sym e)
        (turn 1 (2 ∷ 3 ∷ 4 ∷ 5 ∷ []) refl tt (refl, (refl, (refl, (refl, tt)))))
  turns n (Memᴰ.tail (Memᴰ.head e)) =
      subst (Turn now s) (sym e)
        (turn 2 (3 ∷ 4 ∷ 5 ∷ []) refl (refl, tt) (refl, (refl, (refl, tt))))
  turns n (Memᴰ.tail (Memᴰ.tail (Memᴰ.head e))) =
      subst (Turn now s) (sym e) (turn 3 (4 ∷ 5 ∷ []) refl (refl, (refl, tt)) (refl, (refl, tt)))
  turns n (Memᴰ.tail (Memᴰ.tail (Memᴰ.tail (Memᴰ.head e)))) =
      subst (Turn now s) (sym e) (turn 4 (5 ∷ []) refl (refl, (refl, (refl, tt))) (refl, tt))
  turns n (Memᴰ.tail (Memᴰ.tail (Memᴰ.tail (Memᴰ.tail (Memᴰ.head e))))) =
      subst (Turn now s) (sym e) (turn 5 [] refl (refl, (refl, (refl, (refl, tt)))) tt)
  turns n (Memᴰ.tail (Memᴰ.tail (Memᴰ.tail (Memᴰ.tail (Memᴰ.tail m))))) = elim m [ ]

-- While the queue is neither paused nor stopping, a reconciliation leaves a station that is in use,
-- holds no lease and does not rest to work on the candidate whose place in the order of the
-- candidates is the number of such stations before it, and on nothing only if there are no more.
pub reconcile_state-turn :
    (now : ℕ) (s : Logical) (n : ℕ)
    → Memᴰ n station_ids
    → (s.queue.paused || s.queue.stopping) ≡ false
    → is_available s.configuration.active_count now n (assignment_of (key n) s.work.assignments)
      ≡ true
    → content (assignment_of (key n) (reconcile_state now s).work.assignments).desired
      ≡ wish
          (topics_after (executing_topics s.work.assignments) s.queue.items s.work.topics)
          (candidate_at (available_stations now s (stations_before n)) (candidates_of now s))
reconcile_state-turn now s n m moves = turns now s moves n m
