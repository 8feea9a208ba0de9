-- ===== src/Queue/Sync.antt =====
-- research_loops/queue.py: `sync`, which reconciles the queue with a manifest.
pub mod Items
mod Tests
use autonomous_research_loop.Prelude.{
  ℕ, zero, suc, ◌+◌, String, Bool, true, false, not, ◌&&◌, ◌||◌, Option, none, some, List, [], ◌∷◌,
  ◌++◌, map, ltb, leb, nat_beq, ◌==◌, if◌then◌else◌,
}
use autonomous_research_loop.Prelude.Lists.{length, mem, lookup, insert, keep}
use autonomous_research_loop.Prelude.Texts.{strip, String-discrete}
use autonomous_research_loop.Queue.Types.{Definition, Definition-discrete, Item, State, World}
use autonomous_research_loop.Queue.Store.{
  Result, ok, err, ◌>>=◌, ◌>>◌, guard, Op, locked, duplicate_manifest_item, title_required,
  depends_on_missing, dependency_cycle,
}
use autonomous_research_loop.Queue.Transitions.{is_running}
use autonomous_research_loop.Queue.Validate.{validate_item_id}
use autonomous_research_loop.Queue.Add.{new_item}
use autonomous_research_loop.Queue.Cycle.{Graph, keys, find_dependency_cycle}
use autonomous_research_loop.Queue.Definition.{Json, text, Entry, str, get_or, definition_from}

-- The ids of the manifest in order, with their definitions.
abbrev pub Manifest : Type 0
Manifest = List (String × Definition)

abbrev pub manifest_ids : Manifest → List String
manifest_ids [] = []
manifest_ids ((k, d) ∷ m) = k ∷ manifest_ids m

unfoldable pub read_manifest :
    (String → String) → (Json → String) → List String → List Entry → Result Manifest
unfolding definition_from mem
read_manifest resolve shown seen [] = ok []
read_manifest resolve shown seen (e ∷ es) = do
  k ← validate_item_id (str shown (get_or e.id (text "")))
  guard (not (mem k seen)) (duplicate_manifest_item k)
  guard (not (strip (str shown (get_or e.title (text ""))) == "")) title_required
  d ← definition_from resolve shown e
  rest ← read_manifest resolve shown (k ∷ seen) es
  ok ((k, d) ∷ rest)

abbrev pub ids_of : List Item → List String
ids_of = map (λ (i : Item). i.id)

-- if dependency not in available_ids: raise error
unfoldable pub check_known : List String → List String → Result (List String)
unfolding mem
check_known available [] = ok []
check_known available (d ∷ ds) = do
  guard (mem d available) (depends_on_missing d)
  check_known available ds

unfoldable pub check_dependencies : List String → Manifest → Result (List String)
unfolding check_known
check_dependencies available [] = ok []
check_dependencies available ((k, d) ∷ m) = do
  _ ← check_known available d.depends_on
  check_dependencies available m

-- definitions.get(item["id"], {}).get("depends_on", item.get("depends_on", []))
abbrev pub desired_dependencies : Manifest → Item → List String
desired_dependencies m i = elim (lookup i.id m) [ none ↦ i.depends_on | some d ↦ d.depends_on ]

unfoldable pub items_graph : Manifest → List Item → Graph → Graph
unfolding insert lookup
items_graph m [] g = g
items_graph m (i ∷ is) g = items_graph m is (insert i.id (desired_dependencies m i) g)

-- graph.update(...)
unfoldable pub manifest_graph : Manifest → Graph → Graph
unfolding insert
manifest_graph [] g = g
manifest_graph ((k, d) ∷ m) g = manifest_graph m (insert k d.depends_on g)

-- The labels of what a running item keeps.
pub data Label : Type 0 where
  command dependencies completion_lock : Label

-- An item as it is left, whether it is reported as updated, and what it keeps.
pub record Merged : Type 0 where
  pub item : Item
  pub updated : Bool
  pub skipped : List Label

abbrev pub decides {ℓ} : {A : Type ℓ} → Dec A → Bool
decides (yes _) = true
decides (no _) = false

abbrev pub Strings-discrete : Discrete (List String)
Strings-discrete = hlevel String-discrete

abbrev pub Lock-discrete : Discrete (Option String)
Lock-discrete = hlevel String-discrete

abbrev pub label_if : Bool → Label → List Label
label_if same l = if same then [] else l ∷ []

unfoldable pub protected_changes : Definition → Definition → List Label
protected_changes desired current =
    label_if (decides (Strings-discrete desired.command current.command)) command
    ++ (label_if (decides (Strings-discrete desired.depends_on current.depends_on)) dependencies
        ++ label_if (decides (Lock-discrete desired.completion_lock current.completion_lock))
            completion_lock)

-- for field, _ in protected_changes: desired[field] = current[field]
abbrev pub protect : Definition → Definition → Definition
protect desired current = record desired {
  command = current.command;
  depends_on = current.depends_on;
  completion_lock = current.completion_lock;
}

abbrev pub redefined : Definition → ℕ → Item → Item
redefined d now i = record i { definition = d; updated_at = now }

abbrev pub is_empty : List Label → Bool
is_empty [] = true
is_empty (_ ∷ _) = false

abbrev pub unchanged : Item → List Label → Merged
unchanged i labels = record { item = i; updated = false; skipped = labels }

unfoldable pub merge : Definition → ℕ → Item → Merged
unfolding protected_changes
merge desired now i =
    let changes = protected_changes desired i.definition in
    let kept = protect desired i.definition in
    if decides (Definition-discrete desired i.definition)
    then unchanged i []
    else if is_running i.status && not (is_empty changes)
    then (if decides (Definition-discrete kept i.definition)
        then unchanged i changes
        else record { item = redefined kept now i; updated = true; skipped = changes })
    else record { item = redefined desired now i; updated = true; skipped = [] }

unfoldable pub merge_item : Manifest → ℕ → Item → Merged
unfolding merge lookup
merge_item m now i = elim (lookup i.id m) [ none ↦ unchanged i [] | some d ↦ merge d now i ]

unfoldable pub synced_item : String → Definition → ℕ → Item
unfolding new_item
synced_item k d now = record (new_item (λ p. p) d k d.depends_on none now) { definition = d }

unfoldable pub added_items : List String → Manifest → ℕ → List Item
unfolding mem synced_item
added_items existing [] now = []
added_items existing ((k, d) ∷ m) now =
    let rest = added_items existing m now in
    if mem k existing then rest else synced_item k d now ∷ rest

-- What pruning keeps: the manifest's items, and those that run.
abbrev pub is_kept : Bool → Manifest → Item → Bool
is_kept prune m i = not prune || mem i.id (manifest_ids m) || is_running i.status

-- {id: index}
unfoldable pub positions : ℕ → List String → List (String × ℕ) → List (String × ℕ)
unfolding insert
positions n [] acc = acc
positions n (k ∷ ks) acc = positions (suc n) ks (insert k n acc)

-- order.get(key, len(order))
unfoldable pub rank : List (String × ℕ) → String → ℕ
unfolding lookup
rank order k = elim (lookup k order) [ none ↦ length order | some n ↦ n ]

-- The order of the sort's keys: two numbers.
abbrev pub key_le : (String → ℕ × ℕ) → Item → Item → Bool
key_le key i j =
    ltb (key i.id).0 (key j.id).0
    || (nat_beq (key i.id).0 (key j.id).0 && leb (key i.id).1 (key j.id).1)

unfoldable pub insert_item : (Item → Item → Bool) → Item → List Item → List Item
insert_item le i [] = i ∷ []
insert_item le i (j ∷ js) = if le i j then i ∷ j ∷ js else j ∷ insert_item le i js

-- list.sort: stable, by the keys
unfoldable pub sort_items : (Item → Item → Bool) → List Item → List Item
unfolding insert_item
sort_items le [] = []
sort_items le (i ∷ is) = insert_item le i (sort_items le is)

abbrev pub sort_key : Manifest → List Item → String → ℕ × ℕ
sort_key m items k =
    (rank (positions 0 (manifest_ids m) []) k, rank (positions 0 (ids_of items) []) k)

pub record SyncReport : Type 0 where
  pub added : List String
  pub updated : List String
  pub reordered : Bool
  pub pruned : List String
  pub skipped : List (String × List Label)
  -- running items that a prune leaves
  pub never_pruned : List String

abbrev pub merged_items : Manifest → ℕ → List Item → List Merged
merged_items m now = map (merge_item m now)

abbrev pub items_of : List Merged → List Item
items_of = map (λ (r : Merged). r.item)

abbrev pub skipped_of : List Merged → List (String × List Label)
skipped_of [] = []
skipped_of (r ∷ rs) =
    if is_empty r.skipped then skipped_of rs else (r.item.id, r.skipped) ∷ skipped_of rs

-- The items before the sort, and after it.
unfoldable pub present_items : Manifest → Bool → ℕ → List Item → List Item
unfolding merge_item added_items mem
present_items m prune now items =
    keep (is_kept prune m) (items_of (merged_items m now items) ++ added_items (ids_of items) m now)

unfoldable pub synced_items : Manifest → Bool → ℕ → List Item → List Item
unfolding present_items sort_items rank positions
synced_items m prune now items =
    let present = present_items m prune now items in
    sort_items (key_le (sort_key m present)) present

unfoldable pub sync_report : Manifest → Bool → ℕ → List Item → SyncReport
unfolding present_items synced_items
sync_report m prune now items =
    let merged = merged_items m now items in
    let all = items_of merged ++ added_items (ids_of items) m now in
    let present = keep (is_kept prune m) all in
    record {
      added = ids_of (added_items (ids_of items) m now);
      updated = ids_of (items_of (keep (λ (r : Merged). r.updated) merged));
      reordered =
          not
            (decides (Strings-discrete (ids_of (synced_items m prune now items)) (ids_of present)));
      pruned = ids_of (keep (λ i. not (is_kept prune m i)) all);
      skipped = skipped_of merged;
      never_pruned =
          if prune
          then ids_of (keep (λ i. not (mem i.id (manifest_ids m)) && is_running i.status) all)
          else [];
    }

-- What the manifest asks of the queue, checked before anything changes.
unfoldable pub check_sync : Manifest → List Item → Result (List String)
unfolding check_dependencies items_graph manifest_graph find_dependency_cycle
check_sync m items = do
  _ ← check_dependencies (ids_of items ++ manifest_ids m) m
  elim (find_dependency_cycle (manifest_graph m (items_graph m items []))) [
    | none ↦ ok []
    | some k ↦ err (dependency_cycle k)
  ]

unfoldable pub sync : (String → String) → (Json → String) → List Entry → Bool → ℕ → Op SyncReport
unfolding read_manifest check_sync synced_items sync_report
sync resolve shown entries prune now w = do
  m ← read_manifest resolve shown [] entries
  locked
      (λ v. do
        _ ← check_sync m v.state.items
        ok (
          sync_report m prune now v.state.items,
          record v { state = record v.state { items = synced_items m prune now v.state.items } },
        ))
      now w
