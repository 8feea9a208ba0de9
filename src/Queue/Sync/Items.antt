-- ===== src/Queue/Sync/Items.antt =====
-- research_loops/queue.py: what `sync` makes of one item of the queue.
use mathlib.Core.Path.{subst}
use autonomous_research_loop.Prelude.{
  ℕ, ◌≡◌, refl, ap, sym, Bool, true, false, not, ◌&&◌, List, [], ◌∷◌, ◌++◌, inl, inr, ◌⊎◌, arith,
  Bool-cases,
}
use autonomous_research_loop.Queue.Types.{Definition, Definition-discrete, Item}
use autonomous_research_loop.Queue.Transitions.{is_running}
use autonomous_research_loop.Queue.Sync.{
  Label, command, dependencies, completion_lock, is_empty, label_if, Strings-discrete,
  Lock-discrete, decides, protected_changes, protect, redefined, merge,
}

pub decides-sound {ℓ} : {A : Type ℓ} (d : Dec A) → decides d ≡ true → A
decides-sound (yes a) h = a
decides-sound (no _) h = cc

pub decides-true {ℓ} : {A : Type ℓ} (d : Dec A) → A → decides d ≡ true
decides-true (yes _) a = refl
decides-true (no f) a = absurd (f a)

label_if-none :
    (same : Bool) (l : Label) (rest : List Label)
    → label_if same l ++ rest ≡ []
    → (same ≡ true) × (rest ≡ [])
label_if-none true l rest h = (refl, h)
label_if-none false l rest h = cc

label_if-last : (same : Bool) (l : Label) → label_if same l ≡ [] → same ≡ true
label_if-last true l h = refl
label_if-last false l h = cc

is_empty-none : (ls : List Label) → is_empty ls ≡ true → ls ≡ []
is_empty-none [] h = refl
is_empty-none (l ∷ ls) h = cc

-- What a running item keeps is the same in both definitions.
abbrev pub SameProtected : Definition → Definition → Type 0
SameProtected d c =
    (d.command ≡ c.command)
    × (d.depends_on ≡ c.depends_on)
    × (d.completion_lock ≡ c.completion_lock)

protected_changes-none : (d c : Definition) → protected_changes d c ≡ [] → SameProtected d c
unfolding protected_changes
protected_changes-none d c h =
    let last =
      label_if (decides (Lock-discrete d.completion_lock c.completion_lock)) completion_lock in
    let later =
      label_if (decides (Strings-discrete d.depends_on c.depends_on)) dependencies ++ last in
    let (one, rest) =
      label_if-none (decides (Strings-discrete d.command c.command)) command later h in
    let (two, end) =
      label_if-none (decides (Strings-discrete d.depends_on c.depends_on)) dependencies last rest in
    (
      decides-sound (Strings-discrete d.command c.command) one,
      decides-sound (Strings-discrete d.depends_on c.depends_on) two,
      decides-sound (Lock-discrete d.completion_lock c.completion_lock) (
          label_if-last (decides (Lock-discrete d.completion_lock c.completion_lock))
            completion_lock end),
    )

module _ (d : Definition) (now : ℕ) (i : Item) where
  merge-cases :
      (((merge d now i).item ≡ i) × ((merge d now i).updated ≡ false))
      ⊎ ((kept : Definition) × ((merge d now i).item ≡ redefined kept now i)
          × (is_running i.status ≡ true → SameProtected kept i.definition))
  unfolding merge
  merge-cases = elim (Bool-cases (decides (Definition-discrete d i.definition))) [
    | inl e ↦ inl (ground (arith, e), ground (arith, e))
    | inr e ↦
        elim (Bool-cases
          (is_running i.status && not (is_empty (protected_changes d i.definition)))) [
            | inr t ↦ inr (
              d,
              ground (arith, e, t),
              λ runs.
                  protected_changes-none d i.definition
                    (is_empty-none (protected_changes d i.definition) (ground (arith, t, runs))),
            )
            | inl t ↦
                elim (Bool-cases
                  (decides (Definition-discrete (protect d i.definition) i.definition))) [
                    | inl u ↦ inl (ground (arith, e, t, u), ground (arith, e, t, u))
                    | inr u ↦
                        inr
                          (protect d i.definition, ground (arith, e, t, u), λ _. (refl, refl, refl))
                  ]
          ]
  ]

  -- Nothing of an item changes but its definition and the time of the change; a running item keeps
  -- its command, its dependencies and its completion lock.
  pub merge-history :
      (record (merge d now i).item { definition = i.definition; updated_at = i.updated_at } ≡ i)
      × (is_running i.status ≡ true → SameProtected (merge d now i).item.definition i.definition)
  merge-history = elim merge-cases [
    | inl (same, _) ↦ (
      ap (λ (j : Item). record j { definition = i.definition; updated_at = i.updated_at }) same,
      λ _.
          subst (λ (j : Item). SameProtected j.definition i.definition) (sym same)
            (refl, refl, refl),
    )
    | inr (kept, same, protected) ↦ (
      ap (λ (j : Item). record j { definition = i.definition; updated_at = i.updated_at }) same,
      λ runs.
          subst (λ (j : Item). SameProtected j.definition i.definition) (sym same) (protected runs),
    )
  ]
