-- ===== src/Control/Operator/Reordered.antt =====
-- research_loops/control_store.py: what `reorder` leaves of the queue.
use mathlib.Core.Path.{subst}
use autonomous_research_loop.Prelude.{
  ℕ, ◌+◌, String, ◌≡◌, refl, sym, ap, ◌∙◌, Bool, true, false, nat_beq, ◌||◌, none, some, List, [],
  ◌∷◌, inl, inr, ◌==◌, eq_iff, arith, Bool-cases, Option-cases, if◌then◌else◌,
}
use autonomous_research_loop.Prelude.Lists.{mem, all}
use autonomous_research_loop.Queue.Types.{Item}
use autonomous_research_loop.Control.Types.{Logical}
use autonomous_research_loop.Control.Store.{returned, queue_revision_conflict, order_invalid}
use autonomous_research_loop.Control.Configuration.{validate_state}
use autonomous_research_loop.Control.Schedule.{item_by_id, reconcile_state}
use autonomous_research_loop.Control.Operator.{item_ids, is_reordering, pick, reorder_body, reorder}
use autonomous_research_loop.Control.Machine.{Holds, Holds-require, Holds-transaction}
use autonomous_research_loop.Control.Records.{if-both}

item_by_id-id : (k : String) (items : List Item) {i : Item} → item_by_id k items ≡ some i → i.id ≡ k
unfolding item_by_id
item_by_id-id k [] h = cc
item_by_id-id k (j ∷ js) h = elim (Option-cases (item_by_id k js)) [
  | inl gone ↦ ground (arith, gone, h, eq_iff j.id k)
  | inr (i, later) ↦ ground (arith, later, h, item_by_id-id k js later)
]

item_by_id-mem :
    (k : String) (items : List Item)
    → mem k (item_ids items) ≡ (elim (item_by_id k items) [ none ↦ false | some _ ↦ true ])
unfolding item_by_id mem
item_by_id-mem k [] = refl
item_by_id-mem k (j ∷ js) = ground (arith, item_by_id-mem k js)

all-mem :
    (p : String → Bool) (k : String) (xs : List String)
    → all p xs ≡ true
    → mem k xs ≡ true
    → p k ≡ true
unfolding mem
all-mem p k [] h m = cc
all-mem p k (x ∷ xs) h m = elim (Bool-cases (x == k)) [
  | inl e ↦ subst (λ y. p y ≡ true) ((eq_iff x k).0 e) (ground (arith, h))
  | inr e ↦ all-mem p k xs (ground (arith, h)) (ground (arith, m, e))
]

module _ (items : List Item) where
  pick-ids :
      (ks : List String)
      → all (λ k. mem k (item_ids items)) ks ≡ true
      → item_ids (pick items ks) ≡ ks
  unfolding pick
  pick-ids [] h = refl
  pick-ids (k ∷ ks) h = elim (Option-cases (item_by_id k items)) [
    | inl gone ↦ absurd (ground (arith, gone, h, item_by_id-mem k items))
    | inr (i, found) ↦
        let ids = pick-ids ks (ground (arith, h)) in
        let id = item_by_id-id k items found in ground (arith, found, ids, id)
  ]

  item_by_id-pick :
      (k : String) (ks : List String)
      → item_by_id k (pick items ks) ≡ (if mem k ks then item_by_id k items else none)
  unfolding pick item_by_id mem
  item_by_id-pick k [] = refl
  item_by_id-pick k (j ∷ ks) =
      let rest = item_by_id-pick k ks in
      elim (Option-cases (item_by_id j items)) [
        | inl gone ↦ elim (Bool-cases (j == k)) [
          | inl e ↦
              let gone_k : item_by_id k items ≡ none =
                subst (λ x. item_by_id x items ≡ none) ((eq_iff j k).0 e) gone in
              ground (arith, gone, rest, e, gone_k)
          | inr e ↦ ground (arith, gone, rest, e)
        ]
        | inr (i, found) ↦
            let id : i.id ≡ j = item_by_id-id j items found in
            elim (Bool-cases (j == k)) [
              | inl e ↦
                  let found_k : item_by_id k items ≡ some i =
                    subst (λ x. item_by_id x items ≡ some i) ((eq_iff j k).0 e) found in
                  let here : i.id == k ≡ true = (eq_iff i.id k).1 (id ∙ (eq_iff j k).0 e) in
                  ground (arith, found, rest, e, found_k, here)
              | inr e ↦
                  let away : i.id == k ≡ false = subst (λ x. x == k ≡ false) (sym id) e in
                  ground (arith, found, rest, e, away)
            ]
      ]

  -- With every id of the queue named, picking changes no item that an id finds.
  item_by_id-reordered :
      (k : String) (ks : List String)
      → all (λ j. mem j ks) (item_ids items) ≡ true
      → item_by_id k (pick items ks) ≡ item_by_id k items
  item_by_id-reordered k ks h = elim (Option-cases (item_by_id k items)) [
    | inl gone ↦ ground (arith, item_by_id-pick k ks, gone)
    | inr (i, found) ↦
        let listed : mem k (item_ids items) ≡ true =
          ground (arith, item_by_id-mem k items, found) in
        ground (arith, item_by_id-pick k ks, all-mem (λ j. mem j ks) k (item_ids items) h listed)
  ]

reconcile_state-queue : (now : ℕ) (s : Logical) → (reconcile_state now s).queue ≡ s.queue
unfolding reconcile_state
reconcile_state-queue now s =
    if-both (λ (v : Logical). v.queue ≡ s.queue) (s.queue.paused || s.queue.stopping) refl refl

-- The new queue: the ids in the order asked for, each with the item that it had, at the next
-- revision after the one expected.
abbrev pub Reordered : List String → ℕ → Logical → Logical → Type 0
Reordered ids expected s v =
    (s.queue.revision ≡ expected)
    × (v.queue.revision ≡ expected + 1)
    × (item_ids v.queue.items ≡ ids)
    × ((k : String) → item_by_id k v.queue.items ≡ item_by_id k s.queue.items)

nat_beq-eq : (a b : ℕ) → nat_beq a b ≡ true → a ≡ b
nat_beq-eq a b h = ground (arith, h)

reorder_body-Reordered :
    (ids : List String) (expected now : ℕ) (s : Logical)
    → Holds (Reordered ids expected s) (reorder_body ids expected now s)
unfolding reorder_body
reorder_body-Reordered ids expected now s =
    Holds-require (Reordered ids expected s) (nat_beq s.queue.revision expected)
      queue_revision_conflict _
      λ same.
        Holds-require (Reordered ids expected s) (is_reordering ids (item_ids s.queue.items))
          order_invalid _
          λ whole.
            let items = s.queue.items in
            let queue = record s.queue {
              items = pick items ids;
              revision = s.queue.revision + 1;
            } in
            let current = nat_beq-eq s.queue.revision expected same in
            let known : all (λ k. mem k (item_ids items)) ids ≡ true = ground (arith, whole) in
            let named : all (λ k. mem k ids) (item_ids items) ≡ true = ground (arith, whole) in
            subst
              (λ q.
                (s.queue.revision ≡ expected)
                × (q.revision ≡ expected + 1)
                × (item_ids q.items ≡ ids)
                × ((k : String) → item_by_id k q.items ≡ item_by_id k s.queue.items))
              (sym (reconcile_state-queue now (record s { queue = queue })))
              (
                current,
                ap (λ n. n + 1) current,
                pick-ids items ids known,
                λ k. item_by_id-reordered items k ids named,
              )

-- A reordering that returns was asked for at the queue's revision. It leaves the queue at the next
-- revision, with the ids in the order asked for, each with the item that it had.
pub reorder-Reordered :
    (ids : List String) (expected now : ℕ) (s s' : Logical) (r : List String)
    → reorder ids expected now s ≡ returned (r, s')
    → Reordered ids expected s s'
unfolding reorder
reorder-Reordered ids expected now s s' r h =
    let kept =
      Holds-transaction (Reordered ids expected s) validate_state (reorder_body ids expected now) s
        (λ v n q. q) (reorder_body-Reordered ids expected now s) in
    subst (Holds (Reordered ids expected s)) h kept
