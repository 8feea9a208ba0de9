-- ===== src/Queue/Invariant/Synced.antt =====
-- research_loops/queue.py: a sync with a manifest makes no worker run another item, nor do settings.
use native.Mathlib.Nat.{le_trans}
use autonomous_research_loop.Prelude.{
  ℕ, ◌≤◌, String, ◌≡◌, refl, ap, Bool, true, false, List, [], ◌∷◌, ◌++◌, inl, inr, arith,
  Option-cases,
}
use autonomous_research_loop.Prelude.Lists.{count_if, count_if-append, keep, lookup}
use autonomous_research_loop.Queue.Types.{Definition, Definition-discrete, Item}
use autonomous_research_loop.Queue.Store.{Ensures-bind, find_item}
use autonomous_research_loop.Queue.Definition.{Json, Entry, definition_from}
use autonomous_research_loop.Queue.Configure.{
  Settings, candidate_entry, configured, stamped, configured_item, configure_topic,
}
use autonomous_research_loop.Queue.Invariant.{count_if-modify}
use autonomous_research_loop.Queue.Add.{new_item}
use autonomous_research_loop.Queue.Claim.Next.{runs_for}
use autonomous_research_loop.Queue.Sync.{
  decides, Manifest, ids_of, merge, merge_item, synced_item, added_items, merged_items, items_of,
  is_kept, insert_item, sort_items, key_le, sort_key, present_items, synced_items, read_manifest,
  check_sync, sync,
}
use autonomous_research_loop.Queue.Sync.Items.{merge-history}
use autonomous_research_loop.Queue.Invariant.Keeps.{Holds, Keeps, locked-Keeps}
use autonomous_research_loop.Queue.Invariant.Runners.{SingleRunner}
use autonomous_research_loop.Queue.Invariant.Single.{SingleRunner-stable}

-- A sort by any order has the items that it is given.
count_if-insert_item :
    (p : Item → Bool) (le : Item → Item → Bool) (i : Item) (is : List Item)
    → count_if p (insert_item le i is) ≡ count_if p (i ∷ is)
unfolding insert_item
count_if-insert_item p le i [] = refl
count_if-insert_item p le i (j ∷ js) = ground (arith, count_if-insert_item p le i js)

pub count_if-sort_items :
    (p : Item → Bool) (le : Item → Item → Bool) (is : List Item)
    → count_if p (sort_items le is) ≡ count_if p is
unfolding sort_items
count_if-sort_items p le [] = refl
count_if-sort_items p le (i ∷ is) =
    ground (arith, count_if-insert_item p le i (sort_items le is), count_if-sort_items p le is)

count_if-keep : (p q : Item → Bool) (is : List Item) → count_if p (keep q is) ≤ count_if p is
count_if-keep p q [] = omega arith
count_if-keep p q (i ∷ is) = ground (arith, count_if-keep p q is)

module _ (worker : String) where
  runs_for-merge_item :
      (m : Manifest) (now : ℕ) (i : Item)
      → runs_for worker (merge_item m now i).item ≡ runs_for worker i
  unfolding merge_item
  runs_for-merge_item m now i = elim (Option-cases (lookup i.id m)) [
    | inl missing ↦ ground (arith, missing)
    | inr (d, found) ↦
        let same : runs_for worker (merge d now i).item ≡ runs_for worker i =
          ap (runs_for worker) (merge-history d now i).0 in
        ground (arith, found, same)
  ]

  count_if-merged_items :
      (m : Manifest) (now : ℕ) (is : List Item)
      → count_if (runs_for worker) (items_of (merged_items m now is))
        ≡ count_if (runs_for worker) is
  count_if-merged_items m now [] = refl
  count_if-merged_items m now (i ∷ is) =
      rw (runs_for-merge_item m now i, count_if-merged_items m now is) refl

  count_if-added_items :
      (existing : List String) (m : Manifest) (now : ℕ)
      → count_if (runs_for worker) (added_items existing m now) ≡ 0
  unfolding added_items synced_item new_item
  count_if-added_items existing [] now = refl
  count_if-added_items existing ((k, d) ∷ m) now =
      ground (arith, count_if-added_items existing m now)

  count_if-synced_items :
      (m : Manifest) (prune : Bool) (now : ℕ) (is : List Item)
      → count_if (runs_for worker) (synced_items m prune now is) ≤ count_if (runs_for worker) is
  unfolding synced_items present_items
  count_if-synced_items m prune now is =
      let present = present_items m prune now is in
      let all = items_of (merged_items m now is) ++ added_items (ids_of is) m now in
      omega (
        arith,
        count_if-sort_items (runs_for worker) (key_le (sort_key m present)) present,
        count_if-keep (runs_for worker) (is_kept prune m) all,
        count_if-append (runs_for worker) (items_of (merged_items m now is))
            (added_items (ids_of is) m now),
        count_if-merged_items m now is,
        count_if-added_items (ids_of is) m now,
      )

pub sync-single :
    (resolve : String → String) (shown : Json → String) (entries : List Entry) (prune : Bool)
    (now : ℕ)
    → Keeps SingleRunner (sync resolve shown entries prune now)
unfolding sync
sync-single resolve shown entries prune now w h =
    Ensures-bind (Holds SingleRunner) (read_manifest resolve shown [] entries) _ λ m _.
      locked-Keeps SingleRunner SingleRunner-stable _ now
        (λ v hv. Ensures-bind (Holds SingleRunner) (check_sync m v.state.items) _ λ _ _.
          λ worker. le_trans (count_if-synced_items worker m prune now v.state.items) (hv worker))
        w h

stamped-Calm :
    (same : Bool) (now : ℕ) (d : Definition) (w : String) (i : Item)
    → runs_for w (stamped same now d i) ≡ true
    → runs_for w i ≡ true
stamped-Calm true now d w i h = h
stamped-Calm false now d w i h = h

pub configure_topic-single :
    (resolve : String → String) (shown : Json → String) (k : String) (s : Settings) (now : ℕ)
    → Keeps SingleRunner (configure_topic resolve shown k s now)
unfolding configure_topic configured_item
configure_topic-single resolve shown k s now =
    locked-Keeps SingleRunner SingleRunner-stable _ now λ v hv.
      Ensures-bind (Holds SingleRunner) (find_item v.state k) _ λ item _.
        Ensures-bind (Holds SingleRunner) (definition_from resolve shown (candidate_entry k item s))
          _
          λ validated _ w.
            le_trans
              (count_if-modify (runs_for w) (configured_item s validated now)
                (λ i.
                  stamped-Calm
                    (decides
                      (Definition-discrete (configured s validated i.definition) i.definition))
                    now (configured s validated i.definition) w i)
                k v.state.items)
              (hv w)
