-- ===== src/Queue/Records/Blockers.antt =====
-- research_loops/queue.py: what `update_research_blockers` keeps of an item's blockers.
use autonomous_research_loop.Prelude.{
  ℕ, String, ◌≡◌, refl, ◌∙◌, ap, sym, true, false, ◌⊎◌, inl, inr, Bool-cases, Option, none, some,
  List, [], ◌∷◌, arith, if◌then◌else◌, ◌==◌, eq_iff,
}
use autonomous_research_loop.Prelude.Lists.{
  mem, lookup, insert, remove, lookup-insert, lookup-remove,
}
use autonomous_research_loop.Queue.Types.{Blocker, BlockerEntry}
use autonomous_research_loop.Queue.Records.{
  Failure, Blockers, is_blocking, blocker_of, blocking, current_blockers, clear_keys, set_defaults,
  updated_blockers,
}

-- The first of two options that holds something.
abbrev pub or_else : Option Blocker → Option Blocker → Option Blocker
or_else none b = b
or_else (some a) b = some a

lookup-clear_keys :
    (k : String) (cleared : List String) (m : Blockers)
    → lookup k (clear_keys cleared m) ≡ (if mem k cleared then none else lookup k m)
unfolding clear_keys mem
lookup-clear_keys k [] m = refl
lookup-clear_keys k (c ∷ cs) m =
    ground (arith, lookup-clear_keys k cs (remove c m), lookup-remove c k m, eq_iff c k)

lookup-set_defaults :
    (k : String) (new m : Blockers)
    → lookup k (set_defaults new m) ≡ or_else (lookup k m) (lookup k new)
unfolding set_defaults lookup
lookup-set_defaults k [] m = ground arith
lookup-set_defaults k ((j, b) ∷ new) m = ground (
  arith,
  lookup-set_defaults k new m,
  lookup-set_defaults k new (insert j b m),
  lookup-insert j k b m,
  eq_iff j k,
)

-- For every key: the blocker that the item had stays unless its key is cleared, and where there is
-- none left, the blocker of this iteration's failures with that key is taken. Nothing else is
-- blocked.
pub lookup-updated_blockers :
    (legacy_key : String → String) (now : ℕ) (failures : List Failure) (cleared : List String)
    (entries : List BlockerEntry) (k : String)
    → lookup k (updated_blockers legacy_key now failures cleared entries)
      ≡ or_else
          (if mem k cleared then none else lookup k (current_blockers legacy_key now entries []))
          (lookup k (blocking now failures []))
unfolding updated_blockers
lookup-updated_blockers legacy_key now failures cleared entries k =
    let current = current_blockers legacy_key now entries [] in
    lookup-set_defaults k (blocking now failures []) (clear_keys cleared current)
    ∙ ap (λ o. or_else o (lookup k (blocking now failures [])))
        (lookup-clear_keys k cleared current)

blocking-from :
    (now : ℕ) (failures : List Failure) (acc : Blockers) (k : String) (b : Blocker)
    → lookup k (blocking now failures acc) ≡ some b
    → (lookup k acc ≡ some b)
      ⊎ ((f : Failure) × (is_blocking f ≡ true) × (f.key ≡ k) × (b ≡ blocker_of now f))
unfolding blocking
blocking-from now [] acc k b h = inl h
blocking-from now (f ∷ fs) acc k b h = elim (blocking-from now fs _ k b h) [
  | inr found ↦ inr found
  | inl e ↦ elim (Bool-cases (is_blocking f)) [
    | inr u ↦ inl (rw u at e)
    | inl t ↦
        let e' : lookup k (insert f.key (blocker_of now f) acc) ≡ some b = rw t at e in
        let g : (if f.key == k then some (blocker_of now f) else lookup k acc) ≡ some b =
          sym (lookup-insert f.key k (blocker_of now f) acc) ∙ e' in
        elim (Bool-cases (f.key == k)) [
          | inr other ↦ inl (rw other at g)
          | inl same ↦ inr (f, t, ground (arith, same, eq_iff f.key k), ground (arith, same, g))
        ]
  ]
]

kept_or_new :
    (k : String) (cleared : List String) (old new : Option Blocker) {b : Blocker}
    → or_else (if mem k cleared then none else old) new ≡ some b
    → ((mem k cleared ≡ false) × (old ≡ some b)) ⊎ (new ≡ some b)
kept_or_new k cleared none new h = ground (arith, h)
kept_or_new k cleared (some a) new h = ground (arith, h)

-- A blocker that is left was on the item and its key is not cleared, or it records a failure of
-- this iteration that blocks research: one with a source, a key and a coverage that says that the
-- provider was unavailable or refused the credentials.
pub updated_blockers-origin :
    (legacy_key : String → String) (now : ℕ) (failures : List Failure) (cleared : List String)
    (entries : List BlockerEntry) (k : String) (b : Blocker)
    → lookup k (updated_blockers legacy_key now failures cleared entries) ≡ some b
    → ((mem k cleared ≡ false) × (lookup k (current_blockers legacy_key now entries []) ≡ some b))
      ⊎ ((f : Failure) × (is_blocking f ≡ true) × (f.key ≡ k) × (b ≡ blocker_of now f))
unfolding lookup
updated_blockers-origin legacy_key now failures cleared entries k b h =
    elim (kept_or_new k cleared _ _
      (sym (lookup-updated_blockers legacy_key now failures cleared entries k) ∙ h)) [
        | inl old ↦ inl old
        | inr new ↦ elim (blocking-from now failures [] k b new) [
          | inl e ↦ cc
          | inr found ↦ inr found
        ]
      ]
