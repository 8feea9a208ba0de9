-- ===== src/Control/Exclusive.antt =====
-- research_loops/control_store.py: tables in which no two stations hold leases of one topic.
pub mod History
use mathlib.Core.Path.{subst}
use autonomous_research_loop.Prelude.{
  not, nat_beq, ℕ, ◌+◌, String, ◌≡◌, refl, sym, ap, ◌∙◌, Bool, true, false, Option, none, some,
  List, [], ◌∷◌, inl, inr, ◌⊎◌, ◌==◌, eq_iff, arith, Bool-cases, Option-cases,
}
use autonomous_research_loop.Prelude.Int.{below}
use autonomous_research_loop.Prelude.Lists.{lookup, insert}
use autonomous_research_loop.Control.Types.{Cell, set, content, Lease, Assignment, Logical}
use autonomous_research_loop.Control.Store.{
  raised, returned, require, queue_revision_conflict, order_invalid, stale_lease, capacity_disabled,
  transaction,
}
use autonomous_research_loop.Control.Configuration.{validate_profile, validate_state}
use autonomous_research_loop.Control.Schedule.{
  Assignments, key, assignment_of, deal_station, is_future, reconcile_state,
}
use autonomous_research_loop.Control.Compact.{compact}
use autonomous_research_loop.Control.Station.{
  Reference, station_id, with_assignments, ensure_assignment,
}
use autonomous_research_loop.Control.Claim.{
  Claimed, lease_topic, holds_topic, held_elsewhere, mint, grant, with_topic, hold, claim_desired,
  claim_body, claim,
}
use autonomous_research_loop.Control.Claim.Cases.{claim_desired-cases}
use autonomous_research_loop.Control.Finalize.{
  update_entry, vacate, current_is, end_lease, finalize_body, finalize, confirm_body,
  confirm_launch,
}
use autonomous_research_loop.Control.Operator.{
  Update, updated_configuration, is_reordering, item_ids, pick, update_body, update_stations,
  reorder_body, reorder, register_body, register_profile, selected_stations,
}
use autonomous_research_loop.Control.Machine.{
  Action, claiming, finalizing, confirming, updating, reordering, registering, exec, run, Holds,
  Holds-after, Holds->>=, Holds-option, Holds-transaction,
}
use autonomous_research_loop.Control.Records.{
  assignment_of-insert, assignment_of-ensure_assignment, assignment_of-update_entry,
  compact-assignments, deal_station-current, seen-reconcile_state, if-both,
}

-- The topic of the lease that a station holds.
abbrev pub held : String → Assignments → Option String
held k table = lease_topic (assignment_of k table)

unfoldable pub Exclusive : Assignments → Type 0
unfolding assignment_of
Exclusive table =
    (a b topic : String) → held a table ≡ some topic → held b table ≡ some topic → a ≡ b

-- A table in which stations have kept their leases or lost them.
pub Exclusive-kept :
    (before after : Assignments)
    → ((j : String) → (held j after ≡ none) ⊎ (held j after ≡ held j before))
    → Exclusive before
    → Exclusive after
unfolding Exclusive
Exclusive-kept before after kept alone a b topic ha hb = elim (kept a) [
  | inl gone ↦ absurd (ground (arith, gone, ha))
  | inr same ↦ elim (kept b) [
    | inl gone ↦ absurd (ground (arith, gone, hb))
    | inr same' ↦ alone a b topic (sym same ∙ ha) (sym same' ∙ hb)
  ]
]

holds_topic-lease_topic :
    (r : Assignment) (topic : String) → lease_topic r ≡ some topic → holds_topic topic r ≡ true
holds_topic-lease_topic r topic h = elim (Option-cases (content r.current)) [
  | inl free ↦ absurd (ground (arith, free, h))
  | inr (l, has) ↦ ground (arith, has, h, eq_iff l.topic_id topic)
]

held_elsewhere-none :
    (k topic j : String) (table : Assignments)
    → held_elsewhere k topic table ≡ false
    → held j table ≡ some topic
    → j ≡ k
unfolding assignment_of lookup
held_elsewhere-none k topic j [] free holds = cc
held_elsewhere-none k topic j ((i, r) ∷ table) free holds = elim (Bool-cases (i == j)) [
  | inl e ↦ elim (Bool-cases (i == k)) [
    | inl e' ↦ sym ((eq_iff i j).0 e) ∙ (eq_iff i k).0 e'
    | inr e' ↦
        absurd
          (ground (arith, free, e', holds_topic-lease_topic r topic (ground (arith, holds, e))))
  ]
  | inr e ↦ held_elsewhere-none k topic j table (ground (arith, free)) (ground (arith, holds, e))
]

pub held-new :
    (k j : String) (r : Assignment) (table : Assignments)
    → k == j ≡ true
    → held j (insert k r table) ≡ lease_topic r
held-new k j r table e = ap lease_topic (rw e at (assignment_of-insert k j r table))

pub held-old :
    (k j : String) (r : Assignment) (table : Assignments)
    → k == j ≡ false
    → held j (insert k r table) ≡ held j table
held-old k j r table e = ap lease_topic (rw e at (assignment_of-insert k j r table))

some-injective : {a b : String} → some a ≡ some b → a ≡ b
some-injective h = cc

-- A lease of a topic that no other station holds.
pub Exclusive-insert :
    (k topic : String) (r : Assignment) (table : Assignments)
    → lease_topic r ≡ some topic
    → held_elsewhere k topic table ≡ false
    → Exclusive table
    → Exclusive (insert k r table)
unfolding Exclusive
Exclusive-insert k topic r table new free alone a b t ha hb =
    let same_topic : (j : String) → k == j ≡ true → held j (insert k r table) ≡ some t → topic ≡ t =
      λ j e h. some-injective (sym new ∙ sym (held-new k j r table e) ∙ h) in
    let at_most : (j i : String)
        → k == i ≡ true
        → held i (insert k r table) ≡ some t
        → k == j ≡ false
        → held j (insert k r table) ≡ some t
        → j ≡ k =
      λ j i e h e' h'.
        held_elsewhere-none k topic j table free
          (sym (held-old k j r table e') ∙ h' ∙ ap some (sym (same_topic i e h))) in
    elim (Bool-cases (k == a)) [
      | inl ea ↦ elim (Bool-cases (k == b)) [
        | inl eb ↦ sym ((eq_iff k a).0 ea) ∙ (eq_iff k b).0 eb
        | inr eb ↦ sym (at_most b a ea ha eb hb ∙ (eq_iff k a).0 ea)
      ]
      | inr ea ↦ elim (Bool-cases (k == b)) [
        | inl eb ↦ at_most a b eb hb ea ha ∙ (eq_iff k b).0 eb
        | inr eb ↦
            alone a b t (sym (held-old k a r table ea) ∙ ha) (sym (held-old k b r table eb) ∙ hb)
      ]
    ]
