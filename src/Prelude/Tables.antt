-- ===== src/Prelude/Tables.antt =====
-- What an insertion does to the values of a dictionary, and to the number of them that pass a test.
use mathlib.Core.Path.{subst}
use mathlib.Core.Option.{some-injective}
use autonomous_research_loop.Prelude.{
  ℕ, ◌+◌, String, ◌≡◌, Bool, none, some, List, [], ◌∷◌, arith, ◌==◌, inl, inr, Bool-cases,
  if◌then◌else◌,
}
use autonomous_research_loop.Prelude.Lists.{count_if, All, lookup, insert}

abbrev pub one_if : Bool → ℕ
one_if b = if b then 1 else 0

module _ {ℓ} {V : Type ℓ} where
  -- A property of all values of a dictionary.
  abbrev pub AllValues {κ} : (V → Type κ) → List (String × V) → Type κ
  AllValues P = All (λ (e : String × V). P e.1)

  pub AllValues-lookup {κ} :
      (P : V → Type κ) (k : String) (table : List (String × V)) {v : V}
      → AllValues P table
      → lookup k table ≡ some v
      → P v
  unfolding lookup
  AllValues-lookup P k [] all found = cc
  AllValues-lookup P k ((j, w) ∷ table) {v = v} (here, rest) found = elim (Bool-cases (j == k)) [
    | inl e ↦ subst P (some-injective w v (rw e at found)) here
    | inr e ↦ AllValues-lookup P k table rest (rw e at found)
  ]

  pub AllValues-insert {κ} :
      (P : V → Type κ) (k : String) (v : V) (table : List (String × V))
      → AllValues P table
      → P v
      → AllValues P (insert k v table)
  unfolding insert
  AllValues-insert P k v [] all new = (new, tt)
  AllValues-insert P k v ((j, w) ∷ table) (here, rest) new = elim (Bool-cases (j == k)) [
    | inl e ↦ rw e (new, rest)
    | inr e ↦ rw e (here, AllValues-insert P k v table rest new)
  ]

  pub AllValues-map {κ ι} :
      (P : V → Type κ) (Q : V → Type ι) (table : List (String × V))
      → ((v : V) → P v → Q v)
      → AllValues P table
      → AllValues Q table
  AllValues-map P Q [] f all = tt
  AllValues-map P Q ((k, v) ∷ table) f (here, rest) = (f v here, AllValues-map P Q table f rest)

  -- The number of values that pass a test.
  abbrev pub count_values : (V → Bool) → List (String × V) → ℕ
  count_values p = count_if (λ (e : String × V). p e.1)

  pub count_values-insert-new :
      (p : V → Bool) (k : String) (v : V) (table : List (String × V))
      → lookup k table ≡ none
      → count_values p (insert k v table) ≡ count_values p table + one_if (p v)
  unfolding lookup insert
  count_values-insert-new p k v [] new = ground arith
  count_values-insert-new p k v ((j, w) ∷ table) new = elim (Bool-cases (j == k)) [
    | inl e ↦ absurd (ground (arith, e, new))
    | inr e ↦
        let rest = count_values-insert-new p k v table (rw e at new) in ground (arith, e, rest)
  ]

  pub count_values-insert-old :
      (p : V → Bool) (k : String) (v old : V) (table : List (String × V))
      → lookup k table ≡ some old
      → count_values p (insert k v table) + one_if (p old) ≡ count_values p table + one_if (p v)
  unfolding lookup insert
  count_values-insert-old p k v old [] has = cc
  count_values-insert-old p k v old ((j, w) ∷ table) has = elim (Bool-cases (j == k)) [
    | inl e ↦ let same : w ≡ old = ground (arith, e, has) in ground (arith, e, same)
    | inr e ↦
        let rest = count_values-insert-old p k v old table (rw e at has) in ground (arith, e, rest)
  ]
