-- ===== src/Queue/Records.antt =====
-- research_loops/queue.py: the operations that record progress, research coverage and blockers.
pub mod Blockers
pub mod Stall
use autonomous_research_loop.Prelude.{
  ℕ, ◌+◌, String, Bool, true, false, not, ◌&&◌, ◌||◌, Option, none, some, List, [], ◌∷◌, ◌++◌, map,
  ◌==◌, if◌then◌else◌,
}
use autonomous_research_loop.Prelude.Lists.{mem, keep, lookup, insert, remove}
use autonomous_research_loop.Prelude.Texts.{strip, str_le}
use autonomous_research_loop.Queue.Types.{
  Blocker, BlockerEntry, legacy, keyed, Coverage, PolicyValue, Item,
}
use autonomous_research_loop.Queue.Store.{◌>>=◌, ◌>>◌, guard, Op, locked, update, reason_required}
use autonomous_research_loop.Queue.Validate.{validate_research_policy}

unfoldable pub stall_reset : ℕ → Item → Item
stall_reset now i = record i { stall_count = 0; progress_signature = none; updated_at = now }

unfoldable pub reset_stall_guard : String → ℕ → Op Item
reset_stall_guard k now = locked (update k (stall_reset now)) now

-- signature is not None and signature == item["progress_signature"]
abbrev pub same_signature : Option String → Option String → Bool
same_signature none old = false
same_signature (some s) none = false
same_signature (some s) (some old) = s == old

unfoldable pub signed_item : Option String → ℕ → Item → Item
signed_item signature now i = record i {
  stall_count = if same_signature signature i.progress_signature then i.stall_count + 1 else 0;
  progress_signature = signature;
  updated_at = now;
}

unfoldable pub record_progress_signature : String → Option String → ℕ → Op Item
record_progress_signature k signature now = locked (update k (signed_item signature now)) now

-- Whether an iteration was a checkpoint, with the reason given for it.
pub data Iteration : Type 0 where
  ordinary : Iteration
  checkpoint : Option String → Iteration

abbrev is_deepening : Option String → Bool
is_deepening none = false
is_deepening (some reason) = reason == "deepening"

unfoldable pub accounted_item : Iteration → Bool → ℕ → Item → Item
accounted_item ordinary deepening now i = record i {
  iterations_completed = i.iterations_completed + 1;
  deepening_seen = i.deepening_seen || deepening;
  updated_at = now;
}
accounted_item (checkpoint reason) deepening now i = record i {
  last_checkpoint_iteration = some i.iterations_completed;
  deepening_checkpoint_done = i.deepening_checkpoint_done || is_deepening reason;
  deepening_seen = i.deepening_seen || deepening;
  updated_at = now;
}

unfoldable pub record_iteration_accounting : String → Iteration → Bool → ℕ → Op Item
record_iteration_accounting k iteration deepening now =
    locked (update k (accounted_item iteration deepening now)) now

unfoldable pub record_saturation_streak : String → ℕ → ℕ → Op Item
record_saturation_streak k streak now =
    locked (update k (λ i. record i { saturation_streak = streak; updated_at = now })) now

-- A request that failed in an iteration.
pub record Failure : Type 0 where
  pub key : String
  pub source : String
  pub request_type : Option String
  pub subject : Option String
  pub coverage : String

-- `coverage in BLOCKING_COVERAGE`, with a key and a source
abbrev pub is_blocking : Failure → Bool
is_blocking f =
    not (f.key == "")
    && not (f.source == "")
    && (f.coverage == "provider_unavailable" || f.coverage == "auth_failed")

abbrev pub blocker_of : ℕ → Failure → Blocker
blocker_of now f = record {
  key = f.key;
  source = f.source;
  request_type = f.request_type;
  subject = f.subject;
  coverage = f.coverage;
  at = now;
}

abbrev pub Blockers : Type 0
Blockers = List (String × Blocker)

-- The dict comprehension: of two failures with one key the later is kept.
unfoldable pub blocking : ℕ → List Failure → Blockers → Blockers
blocking now [] acc = acc
blocking now (f ∷ fs) acc =
    blocking now fs (if is_blocking f then insert f.key (blocker_of now f) acc else acc)

-- The key of a source's older entry: `json.dumps([source, "", ""])`, given by `legacy_key`.
abbrev migrated : (String → String) → ℕ → String → Blocker
migrated legacy_key now source = record {
  key = legacy_key source;
  source = source;
  request_type = some "";
  subject = some "";
  coverage = "provider_unavailable";
  at = now;
}

unfoldable pub current_blockers : (String → String) → ℕ → List BlockerEntry → Blockers → Blockers
current_blockers legacy_key now [] acc = acc
current_blockers legacy_key now (legacy source ∷ es) acc =
    current_blockers legacy_key now es
      (insert (legacy_key source) (migrated legacy_key now source) acc)
current_blockers legacy_key now (keyed b ∷ es) acc =
    current_blockers legacy_key now es (if b.key == "" then acc else insert b.key b acc)

-- for key in cleared: current.pop(key, None)
unfoldable pub clear_keys : List String → Blockers → Blockers
clear_keys [] m = m
clear_keys (k ∷ ks) m = clear_keys ks (remove k m)

abbrev pub is_some {ℓ} : {A : Type ℓ} → Option A → Bool
is_some none = false
is_some (some _) = true

-- for key, blocker in new.items(): current.setdefault(key, blocker)
unfoldable pub set_defaults : Blockers → Blockers → Blockers
set_defaults [] m = m
set_defaults ((k, b) ∷ new) m = set_defaults new (if is_some (lookup k m) then m else insert k b m)

unfoldable pub updated_blockers :
    (String → String) → ℕ → List Failure → List String → List BlockerEntry → Blockers
unfolding blocking current_blockers clear_keys set_defaults
updated_blockers legacy_key now failures cleared entries =
    set_defaults (blocking now failures [])
      (clear_keys cleared (current_blockers legacy_key now entries []))

-- sorted(blockers, key=lambda b: b["key"])
unfoldable pub insert_sorted : Blocker → List Blocker → List Blocker
insert_sorted b [] = b ∷ []
insert_sorted b (c ∷ cs) = if str_le b.key c.key then b ∷ c ∷ cs else c ∷ insert_sorted b cs

unfoldable pub sorted_by_key : List Blocker → List Blocker
unfolding insert_sorted
sorted_by_key [] = []
sorted_by_key (b ∷ bs) = insert_sorted b (sorted_by_key bs)

-- for source, cov in coverage.items(): accumulated[source] = ...
unfoldable pub fold_coverage :
    ℕ → List (String × String) → List (String × Coverage) → List (String × Coverage)
fold_coverage now [] m = m
fold_coverage now ((source, c) ∷ cs) m =
    fold_coverage now cs (insert source (record { coverage = c; at = now }) m)

unfoldable pub blocked_item :
    (String → String) → List Failure → List String → List (String × String) → ℕ → Item → Item
unfolding updated_blockers sorted_by_key fold_coverage
blocked_item legacy_key failures cleared coverage now i = record i {
  research_blockers = map keyed (
      sorted_by_key
        (map (λ e. e.1) (updated_blockers legacy_key now failures cleared i.research_blockers)));
  research_coverage = fold_coverage now coverage i.research_coverage;
  updated_at = now;
}

unfoldable pub update_research_blockers :
    (String → String) → String → List Failure → List String → List (String × String) → ℕ → Op Item
update_research_blockers legacy_key k failures cleared coverage now =
    locked (update k (blocked_item legacy_key failures cleared coverage now)) now

-- The entries that are records.
abbrev pub records_of : List BlockerEntry → List Blocker
records_of [] = []
records_of (legacy _ ∷ es) = records_of es
records_of (keyed b ∷ es) = b ∷ records_of es

-- `sources` is empty or null: all blockers are released.
abbrev pub is_released : List String → Blocker → Bool
is_released [] b = true
is_released (s ∷ ss) b = mem b.source (s ∷ ss)

unfoldable pub resolved_item : String → List String → ℕ → Item → Item
resolved_item reason sources now i =
    let blockers = records_of i.research_blockers in
    record i {
      research_blockers = map keyed (keep (λ b. not (is_released sources b)) blockers);
      research_resolutions =
          i.research_resolutions
          ++ (record {
            at = now;
            reason = strip reason;
            released = map (λ (b : Blocker). b.key) (keep (is_released sources) blockers);
          })
            ∷ [];
      updated_at = now;
    }

unfoldable pub resolve_research_blockers : String → String → List String → ℕ → Op Item
resolve_research_blockers k reason sources now w = do
  guard (not (strip reason == "")) reason_required
  locked (update k (resolved_item reason sources now)) now w

unfoldable pub record_completion_coverage : String → List (String × String) → ℕ → Op Item
record_completion_coverage k coverage now =
    locked (update k (λ i. record i { completion_coverage = some coverage; updated_at = now })) now

unfoldable pub set_research_policy : String → Option (List (String × PolicyValue)) → ℕ → Op Item
set_research_policy k policy now w = do
  checked ← validate_research_policy policy
  locked (update k (λ i. record i { research_policy = checked; updated_at = now })) now w
