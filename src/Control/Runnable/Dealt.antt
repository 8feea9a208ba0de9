-- ===== src/Control/Runnable/Dealt.antt =====
-- research_loops/control_store.py: the topic that the deal leaves a free station to work on.
use mathlib.Core.Path.{subst}
use mathlib.Core.List.{Memᴰ}
use autonomous_research_loop.Prelude.{
  ℕ, String, ◌≡◌, refl, sym, true, false, ◌||◌, none, some, List, [], ◌∷◌, inl, inr, ◌⊎◌, ◌==◌,
  eq_iff, arith, Bool-cases, Option-cases,
}
use autonomous_research_loop.Prelude.Int.{ℤ, below}
use autonomous_research_loop.Prelude.Lists.{All, lookup, insert}
use autonomous_research_loop.Queue.Types.{Item}
use autonomous_research_loop.Control.Types.{content, Desired, Assignment, Topic, Logical}
use autonomous_research_loop.Control.Schedule.{
  Assignments, key, station_ids, assignment_of, is_future, drain, kind_of, deal_station, deal,
  executing_topics, topics_after, candidates_of, clear_desired, reconcile_state,
}
use autonomous_research_loop.Control.Records.{assignment_of-insert}
use autonomous_research_loop.Control.Runnable.{Runnable, candidates_of-Runnable}

module _ (P : Item → Type 0) (active : ℤ) (now : ℕ) (topics : List (String × Topic)) where
  -- A free record that wants a topic wants that of an item with the property.
  abbrev Wants : Assignment → Type 0
  Wants r =
      (d : Desired)
      → content r.current ≡ none
      → content r.desired ≡ some d
      → (i : Item) × P i × (d.topic_id ≡ i.id) × (d.execution_kind ≡ kind_of topics i)

  deal_station-Wants :
      (n : ℕ) (r : Assignment) (is : List Item)
      → All P is
      → Wants (deal_station active now topics n r is).0
        × All P (deal_station active now topics n r is).1
  unfolding deal_station drain
  deal_station-Wants n r is ps = elim (Bool-cases (below active n)) [
    | inl off ↦ kept (ground (arith, off)) λ d free wants. absurd (ground (arith, off, free, wants))
    | inr on ↦ elim (Option-cases (content r.current)) [
      | inr (l, busy) ↦
          kept (ground (arith, on, busy))
            λ d free wants. absurd (ground (arith, on, busy, free, wants))
      | inl idle ↦ elim (Bool-cases (is_future r.rest_until now)) [
        | inl rests ↦
            kept (ground (arith, on, idle, rests))
              λ d free wants. absurd (ground (arith, on, idle, rests, free, wants))
        | inr ready ↦ dealt is ps on idle ready
      ]
    ]
  ]
    where
      kept :
          (deal_station active now topics n r is).1 ≡ is
          → Wants (deal_station active now topics n r is).0
          → Wants (deal_station active now topics n r is).0
            × All P (deal_station active now topics n r is).1
      kept same w = (w, subst (All P) (sym same) ps)

      dealt :
          (cs : List Item)
          → All P cs
          → below active n ≡ false
          → content r.current ≡ none
          → is_future r.rest_until now ≡ false
          → Wants (deal_station active now topics n r cs).0
            × All P (deal_station active now topics n r cs).1
      dealt [] qs on idle ready =
          let none_left : (deal_station active now topics n r []).1 ≡ [] =
            ground (arith, on, idle, ready) in
          (
            λ d free wants. absurd (ground (arith, on, idle, ready, wants)),
            subst (All P) (sym none_left) tt,
          )
      dealt (i ∷ rest) (q, qs) on idle ready =
          let left : (deal_station active now topics n r (i ∷ rest)).1 ≡ rest =
            ground (arith, on, idle, ready) in
          (
            λ d free wants. (
              i,
              q,
              ground (arith, on, idle, ready, wants),
              ground (arith, on, idle, ready, wants),
            ),
            subst (All P) (sym left) qs,
          )

  deal-Wants :
      (j : String) (ns : List ℕ) (is : List Item) (table : Assignments)
      → All P is
      → Wants (assignment_of j table) ⊎ ((n : ℕ) × Memᴰ n ns × (key n == j ≡ true))
      → Wants (assignment_of j (deal active now topics ns is table))
  unfolding deal
  deal-Wants j [] is table ps (inl h) = h
  deal-Wants j [] is table ps (inr (n, m, e)) = elim m [ ]
  deal-Wants j (n ∷ ns) is table ps h =
      let round = deal_station active now topics n (assignment_of (key n) table) is in
      let (new, rest) = deal_station-Wants n (assignment_of (key n) table) is ps in
      deal-Wants j ns round.1 (insert (key n) round.0 table) rest (elim (Bool-cases (key n == j)) [
        | inl e ↦
            inl (subst Wants (sym (rw e at (assignment_of-insert (key n) j round.0 table))) new)
        | inr e ↦ elim h [
          | inl old ↦
              inl (subst Wants (sym (rw e at (assignment_of-insert (key n) j round.0 table))) old)
          | inr (m, Memᴰ.head same, e') ↦
              absurd (ground (arith, e, subst (λ x. key x == j ≡ true) same e'))
          | inr (m, Memᴰ.tail later, e') ↦ inr (m, later, e')
        ]
      ])

clear_desired-desired :
    (j : String) (table : Assignments)
    → content (assignment_of j (clear_desired table)).desired ≡ none
unfolding assignment_of lookup
clear_desired-desired j [] = refl
clear_desired-desired j ((k, r) ∷ table) = ground (arith, clear_desired-desired j table)

-- What a free station is to work on after the reconciliation is the topic of a runnable item, and
-- the queue is neither paused nor stopping.
pub reconcile_state-Runnable :
    (now : ℕ) (s : Logical) (n : ℕ) (d : Desired)
    → Memᴰ n station_ids
    → content (assignment_of (key n) (reconcile_state now s).work.assignments).current ≡ none
    → content (assignment_of (key n) (reconcile_state now s).work.assignments).desired ≡ some d
    → ((s.queue.paused || s.queue.stopping) ≡ false)
      × ((i : Item) × Runnable now s i
          × (d.topic_id ≡ i.id)
          × (d.execution_kind
              ≡ kind_of
                  (topics_after (executing_topics s.work.assignments) s.queue.items s.work.topics)
                  i))
unfolding reconcile_state
reconcile_state-Runnable now s n d m free wants =
    elim (Bool-cases (s.queue.paused || s.queue.stopping)) [
      | inl still ↦
          absurd
            (ground (arith, clear_desired-desired (key n) s.work.assignments, rw still at wants))
      | inr moves ↦ (
        moves,
        deal-Wants (Runnable now s) s.configuration.active_count now
            (topics_after (executing_topics s.work.assignments) s.queue.items s.work.topics) (key n)
            station_ids (candidates_of now s) s.work.assignments (candidates_of-Runnable now s)
            (inr (n, m, (eq_iff (key n) (key n)).1 refl)) d (rw moves at free) (rw moves at wants),
      )
    ]
