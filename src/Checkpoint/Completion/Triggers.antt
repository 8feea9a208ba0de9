-- ===== src/Checkpoint/Completion/Triggers.antt =====
-- research_loops/checkpoints/service.py: the triggers that a completion fires; access.py, the lease
-- that speaks for a run.
use Prim.Native.Nat.{◌%◌}
use autonomous_research_loop.Prelude.{
  ℕ, String, Bool, true, false, not, ◌&&◌, Option, none, some, List, [], ◌∷◌, ◌++◌, nat_beq,
  if◌then◌else◌, ◌==◌,
}
use autonomous_research_loop.Prelude.Int.{ℤ, pos}
use autonomous_research_loop.Prelude.Lists.{any, lookup, insert}
use autonomous_research_loop.Control.Types.{
  content, Lease, Assignment, DeepeningEntry, Topic, TriggerKind, cadence, deepening_entry, Trigger,
  Checkpoints, Work,
}
use autonomous_research_loop.Checkpoint.Episodes.{add_trigger, assign_triggers, coalesce_episode}

-- The arguments of a completion.
pub record Completion : Type 0 where
  pub topic_id : String
  pub run_id : String
  pub station_id : ℕ
  pub inventory_version : String
  pub accepted : Bool
  pub deepening_entry : Bool
  pub lease_generation : Option ℕ

-- access.py, `current_lease`
abbrev pub is_lease : String → String → Lease → Bool
is_lease topic_id lease_id l = l.topic_id == topic_id && l.lease_id == lease_id

abbrev pub lease_in : String → String → Option Lease → Option Lease
lease_in topic_id lease_id none = none
lease_in topic_id lease_id (some l) = if is_lease topic_id lease_id l then some l else none

unfoldable pub lease_among :
    String → String → List (String × Assignment) → Option Lease → Option Lease
lease_among topic_id lease_id [] intake = lease_in topic_id lease_id intake
lease_among topic_id lease_id ((k, r) ∷ table) intake =
    elim (lease_in topic_id lease_id (content r.current)) [
      | some l ↦ some l
      | none ↦ lease_among topic_id lease_id table intake
    ]

unfoldable pub current_lease : String → String → Work → Option Lease
unfolding lease_among
current_lease topic_id lease_id w = lease_among topic_id lease_id w.assignments w.intake_current

abbrev is_cadence : ℤ → ℕ → Bool
is_cadence (pos every) ordinal = not (nat_beq every 0) && nat_beq (ordinal % every) 0
is_cadence _ ordinal = false

abbrev pub is_present {ℓ} : {A : Type ℓ} → Option A → Bool
is_present none = false
is_present (some a) = true

abbrev pub is_deepening : TriggerKind → Bool
is_deepening deepening_entry = true
is_deepening _ = false

-- The kinds of trigger that a completion with this ordinal fires.
unfoldable pub fired_kinds : Checkpoints → Completion → ℕ → Topic → List TriggerKind
unfolding lookup
fired_kinds policy c ordinal t =
    if policy.enabled
    then (if is_cadence policy.every_research_iterations ordinal then cadence ∷ [] else [])
      ++ (if c.deepening_entry
            && not (is_present (lookup c.inventory_version t.deepening_entries))
            && policy.on_deepening_entry
          then deepening_entry ∷ []
          else [])
    else []

-- entries.setdefault(inventory_version, ...)
unfoldable pub entries_after :
    Checkpoints → Completion → ℕ → List (String × DeepeningEntry) → List (String × DeepeningEntry)
unfolding lookup insert
entries_after policy c ordinal entries =
    if policy.enabled && c.deepening_entry && not (is_present (lookup c.inventory_version entries))
    then insert c.inventory_version
        (record { entered_after_ordinal = some ordinal; triggered = false }) entries
    else entries

-- entry["triggered"] = True
unfoldable pub mark_triggered :
    String → List (String × DeepeningEntry) → List (String × DeepeningEntry)
mark_triggered version [] = []
mark_triggered version ((k, d) ∷ entries) =
    if k == version
    then (k, record d { triggered = true }) ∷ entries
    else (k, d) ∷ mark_triggered version entries

-- What `_trigger_id` makes of a topic, a kind, an ordinal and a version: a part of their SHA-256.
abbrev pub Digest : Type 0
Digest = String → TriggerKind → ℕ → String → String

unfoldable pub add_triggers :
    Digest → Completion → ℕ → List TriggerKind → List (String × Trigger) → List (String × Trigger)
unfolding add_trigger
add_triggers digest c ordinal [] triggers = triggers
add_triggers digest c ordinal (kind ∷ kinds) triggers = add_triggers digest c ordinal kinds (
    add_trigger c.topic_id kind ordinal c.inventory_version
      (digest c.topic_id kind ordinal c.inventory_version) triggers)

-- The topic and the ledger once the fired triggers have opened an episode, or joined an open one.
unfoldable pub opened :
    String → String → List TriggerKind → List String → Topic → Work → Topic × Work
unfolding coalesce_episode assign_triggers mark_triggered
opened fresh version kinds [] t w = (t, w)
opened fresh version kinds (k ∷ ks) t w =
    let joined = coalesce_episode fresh t (k ∷ ks) w.episodes in
    let marked = record joined.topic {
      deepening_entries =
          if any is_deepening kinds
          then mark_triggered version joined.topic.deepening_entries
          else joined.topic.deepening_entries;
    } in
    (
      marked,
      record w {
        triggers = assign_triggers joined.episode_id (k ∷ ks) w.triggers;
        episodes = joined.episodes;
      },
    )
