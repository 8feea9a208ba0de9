-- ===== src/Queue/Store.antt =====
-- research_loops/queue.py: `_locked`, `_find` and `_empty_state`; the errors that operations raise.
-- An operation reads the clock once, as its argument `now`. An error leaves the lock's body before
-- the state file is written, so a failed operation has no new world.
use mathlib.Core.Logic.{ite, if_neg, ◌≢◌}
use mathlib.Core.Path.{subst}
use autonomous_research_loop.Prelude.{
  ℕ, ◌+◌, String, ◌≡◌, refl, ap, Bool, true, false, Option, none, some, List, [], ◌∷◌, ◌==◌,
  if◌then◌else◌,
}
use autonomous_research_loop.Queue.Types.{Item, State, World, State-discrete}

pub data Error : Type 0 where
  unknown_item duplicate_item depends_on_missing : String → Error
  malformed_depends_on malformed_accepted_by_workers malformed_worker_policy : Error
  title_and_command_required invalid_max_attempts invalid_stall_limit : Error
  invalid_item_id invalid_gap_policy invalid_gap_auto_limit invalid_topic_refresh : Error
  invalid_topic_refresh_mode invalid_lane invalid_completion_lock invalid_research_policy : Error
  depends_on_itself duplicate_dependencies invalid_claim_limit invalid_lane_limit : Error
  completion_lock_required reason_required claimed_by_another not_claimable : Error
  not_completed remove_running unknown_outcome : Error
  invalid_command invalid_internal_citations mechanics_field wrong_type title_required : Error
  missing_key duplicate_manifest_item dependency_cycle : String → Error

-- What an operation returns, or the error that it raises.
pub data Result {ℓ} (A : Type ℓ) : Type ℓ where
  err : Error → Result A
  ok : A → Result A

infixl 5 ◌>>=◌
abbrev pub ◌>>=◌ {ℓ κ} : {A : Type ℓ} {B : Type κ} → Result A → (A → Result B) → Result B
err raised >>= next = err raised
ok value >>= next = next value

-- The first part of a chain that returns, returns.
pub >>=-eq-ok {ℓ κ} :
    {A : Type ℓ} {B : Type κ} {final : B} (start : Result A) (next : A → Result B)
    → start >>= next ≡ ok final
    → (value : A) × (start ≡ ok value) × (next value ≡ ok final)
>>=-eq-ok (err raised) next h = cc
>>=-eq-ok (ok value) next h = (value, refl, h)

infixl 5 ◌>>◌
abbrev pub ◌>>◌ {ℓ} : {B : Type ℓ} → Result (Unit {0}) → Result B → Result B
check >> rest = check >>= λ _. rest

pub ok-injective {ℓ} : {A : Type ℓ} {a b : A} → ok a ≡ ok b → a ≡ b
ok-injective h = cc

-- `P` holds of the result, if there is one.
abbrev pub Ensures {ℓ} : {A : Type ℓ} → (A → Type 0) → Result A → Type 0
Ensures P (ok a) = P a
Ensures P (err e) = Unit

pub Ensures-bind {ℓ κ} :
    {A : Type ℓ} {B : Type κ} (P : B → Type 0) (m : Result A) (f : A → Result B)
    → ((a : A) → m ≡ ok a → Ensures P (f a))
    → Ensures P (m >>= f)
Ensures-bind P (ok a) f h = h a refl
Ensures-bind P (err e) f h = tt

pub Ensures-if {ℓ} :
    {A : Type ℓ} (P : A → Type 0) (test : Bool) (yes_case no_case : Result A)
    → (test ≡ true → Ensures P yes_case)
    → (test ≡ false → Ensures P no_case)
    → Ensures P (if test then yes_case else no_case)
Ensures-if P true m n h k = h refl
Ensures-if P false m n h k = k refl

pub Ensures-option {ℓ κ} :
    {A : Type ℓ} {B : Type κ} (P : A → Type 0) (o : Option B) (n : Result A) (f : B → Result A)
    → (o ≡ none → Ensures P n)
    → ((b : B) → o ≡ some b → Ensures P (f b))
    → Ensures P (elim o [ none ↦ n | some b ↦ f b ])
Ensures-option P none n f h k = h refl
Ensures-option P (some b) n f h k = k b refl

pub Ensures-map {ℓ} :
    {A : Type ℓ} (P Q : A → Type 0) (m : Result A)
    → ((a : A) → P a → Q a)
    → Ensures P m
    → Ensures Q m
Ensures-map P Q (ok a) f h = f a h
Ensures-map P Q (err e) f h = tt

pub Ensures-all {ℓ} :
    {A : Type ℓ} {B : Type 0} (P : B → A → Type 0) (m : Result A)
    → ((b : B) → Ensures (P b) m)
    → Ensures (λ a. (b : B) → P b a) m
Ensures-all P (ok a) h = h
Ensures-all P (err e) h = tt

pub Ensures-elim {ℓ} :
    {A : Type ℓ} (P : A → Type 0) (m : Result A) {a : A} → Ensures P m → m ≡ ok a → P a
Ensures-elim P (ok b) h e = subst P (ok-injective e) h
Ensures-elim P (err x) h e = cc

-- `if not test: raise error`
abbrev pub guard : Bool → Error → Result (Unit {0})
guard true e = ok tt
guard false e = err e

abbrev pub or_raise {ℓ} : {A : Type ℓ} → Option A → Error → Result A
or_raise none e = err e
or_raise (some a) e = ok a

abbrev pub Op : Type 0 → Type 0
Op A = World → Result (A × World)

unfoldable pub empty_state : ℕ → State
empty_state now = record {
  revision = 0;
  paused = false;
  pause_reason = none;
  stopping = false;
  updated_at = now;
  worker_policies = [];
  lane_limits = [];
  items = [];
}

-- The test `state != before`, and the write that follows it.
unfoldable pub commit : ℕ → State → State → State
commit now before after =
    ite (State-discrete after before) after
      (record after { revision = after.revision + 1; updated_at = now })

-- Read, run the body, and write back if it returned and changed the state.
unfoldable pub locked : {A : Type 0} → Op A → ℕ → Op A
unfolding commit
locked body now w = do (a, w') ← body w; ok (a, record w' { state = commit now w.state w'.state })

-- A body that changes the state is written back with the next revision.
pub locked-changed :
    {A : Type 0} (body : Op A) (now : ℕ) (w : World) (a : A) (w' : World)
    → body w ≡ ok (a, w')
    → w'.state ≢ w.state
    → locked body now w
      ≡ ok (
        a,
        record w' {
          state = record w'.state { revision = w'.state.revision + 1; updated_at = now };
        },
      )
unfolding locked commit
locked-changed body now w a w' returned changed = rw returned (
    ap (λ (s : State). ok (a, record w' { state = s }))
      (if_neg (State-discrete w'.state w.state) changed w'.state _))

-- The first item with the id.
unfoldable pub find : String → List Item → Option Item
find k [] = none
find k (i ∷ is) = if i.id == k then some i else find k is

-- The assignments to the fields of the item that `_find` returned.
unfoldable pub modify : String → (Item → Item) → List Item → List Item
modify k f [] = []
modify k f (i ∷ is) = if i.id == k then f i ∷ is else i ∷ modify k f is

-- The assignments to the fields of `next(item for item in items if test(item))`.
unfoldable pub modify_first : (Item → Bool) → (Item → Item) → List Item → List Item
modify_first test f [] = []
modify_first test f (i ∷ is) = if test i then f i ∷ is else i ∷ modify_first test f is

abbrev pub find_item : State → String → Result Item
find_item s k = or_raise (find k s.items) (unknown_item k)

-- An operation that finds one item, assigns to its fields, and returns a copy of it.
abbrev pub update : String → (Item → Item) → Op Item
update k f w = do
  item ← find_item w.state k
  ok (f item, record w { state = record w.state { items = modify k f w.state.items } })
