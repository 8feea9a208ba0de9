-- ===== src/Prelude/Lists.antt =====
-- Lists measured by native numbers, and the searches and updates that the components share.
use autonomous_research_loop.Prelude.{
  ℕ, zero, suc, ◌+◌, String, ◌≡◌, refl, inl, inr, Bool, true, false, not, ◌&&◌, ◌||◌, Option, none,
  some, List, [], ◌∷◌, ◌++◌, arith, ◌==◌, eq_iff, if◌then◌else◌, Bool-cases,
}

module _ {ℓ} {A : Type ℓ} where
  abbrev pub length : List A → ℕ
  length [] = 0
  length (x ∷ xs) = suc (length xs)

  abbrev pub drop : ℕ → List A → List A
  drop zero xs = xs
  drop (suc n) [] = []
  drop (suc n) (x ∷ xs) = drop n xs

  -- list.insert(n, x) for 0 ≤ n ≤ len(list)
  abbrev pub insert_at : ℕ → A → List A → List A
  insert_at zero v xs = v ∷ xs
  insert_at (suc n) v [] = v ∷ []
  insert_at (suc n) v (x ∷ xs) = x ∷ insert_at n v xs

  -- next((x for x in xs if p(x)), None)
  abbrev pub first : (A → Bool) → List A → Option A
  first p [] = none
  first p (x ∷ xs) = if p x then some x else first p xs

  -- any(p(x) for x in xs)
  abbrev pub any : (A → Bool) → List A → Bool
  any p [] = false
  any p (x ∷ xs) = p x || any p xs

  abbrev pub all : (A → Bool) → List A → Bool
  all p [] = true
  all p (x ∷ xs) = p x && all p xs

  -- sum(1 for x in xs if p(x))
  abbrev pub count_if : (A → Bool) → List A → ℕ
  count_if p [] = 0
  count_if p (x ∷ xs) = let rest = count_if p xs in if p x then suc rest else rest

  -- [x for x in xs if p(x)]
  abbrev pub keep : (A → Bool) → List A → List A
  keep p [] = []
  keep p (x ∷ xs) = let rest = keep p xs in if p x then x ∷ rest else rest

  abbrev pub All {κ} : (A → Type κ) → List A → Type κ
  All P [] = Unit
  All P (x ∷ xs) = P x × All P xs

module _ {ℓ} {A : Type ℓ} where
  -- What `first` finds passes the test, and `first` finds something where an element passes.
  pub first-test : (p : A → Bool) (xs : List A) {a : A} → first p xs ≡ some a → p a ≡ true
  first-test p [] h = cc
  first-test p (x ∷ xs) h = elim (Bool-cases (p x)) [
    | inl e ↦ ground (arith, e, h)
    | inr e ↦ first-test p xs (rw e at h)
  ]

  pub count_if-first-none : (p : A → Bool) (xs : List A) → first p xs ≡ none → count_if p xs ≡ 0
  count_if-first-none p [] h = refl
  count_if-first-none p (x ∷ xs) h = ground (arith, count_if-first-none p xs)

  pub count_if-append :
      (p : A → Bool) (xs ys : List A) → count_if p (xs ++ ys) ≡ count_if p xs + count_if p ys
  count_if-append p [] ys = omega arith
  count_if-append p (x ∷ xs) ys = ground (arith, count_if-append p xs ys)

pub keep-All {ℓ κ} :
    {A : Type ℓ} (P : A → Type κ) (p : A → Bool) (xs : List A) → All P xs → All P (keep p xs)
keep-All P p [] ps = tt
keep-All P p (x ∷ xs) (px, ps) = elim (Bool-cases (p x)) [
  | inl e ↦ rw e (px, keep-All P p xs ps)
  | inr e ↦ rw e (keep-All P p xs ps)
]

-- x in xs, on texts
unfoldable pub mem : String → List String → Bool
mem a [] = false
mem a (x ∷ xs) = x == a || mem a xs

-- len(xs) == len(set(xs))
unfoldable pub distinct : List String → Bool
unfolding mem
distinct [] = true
distinct (x ∷ xs) = not (mem x xs) && distinct xs

-- A `dict` with text keys, as an association list: `d.get(k)`, `d[k] = v`, `d.pop(k, None)`.
module _ {ℓ} {V : Type ℓ} where
  unfoldable pub lookup : String → List (String × V) → Option V
  lookup key [] = none
  lookup key ((k, value) ∷ table) = if k == key then some value else lookup key table

  unfoldable pub insert : String → V → List (String × V) → List (String × V)
  insert key new [] = (key, new) ∷ []
  insert key new ((k, value) ∷ table) =
      if k == key then (key, new) ∷ table else (k, value) ∷ insert key new table

  unfoldable pub remove : String → List (String × V) → List (String × V)
  remove key [] = []
  remove key ((k, value) ∷ table) =
      let rest = remove key table in if k == key then rest else (k, value) ∷ rest

  pub lookup-insert :
      (key asked : String) (new : V) (table : List (String × V))
      → lookup asked (insert key new table)
        ≡ (if key == asked then some new else lookup asked table)
  unfolding insert lookup
  lookup-insert key asked new ((k, value) ∷ table) =
      ground
        (arith, lookup-insert key asked new table, eq_iff k asked, eq_iff k key, eq_iff key asked)
  lookup-insert key asked new [] = refl

  pub lookup-remove :
      (k j : String) (m : List (String × V))
      → lookup j (remove k m) ≡ (if k == j then none else lookup j m)
  unfolding lookup remove
  lookup-remove k j [] = ground arith
  lookup-remove k j ((i, w) ∷ m) =
      ground (arith, eq_iff k j, eq_iff i k, eq_iff i j, lookup-remove k j m)
