-- ===== src/Queue/Cycle/Search.antt =====
-- research_loops/queue.py: what the search of `find_dependency_cycle` comes to, on enough fuel.
use mathlib.Core.Path.{subst}
use autonomous_research_loop.Prelude.{
  ℕ, zero, suc, ◌+◌, ◌≤◌, String, ◌≡◌, ◌≢◌, refl, sym, ◌∙◌, true, false, not, List, [], ◌∷◌, inl,
  inr, ◌⊎◌, ◌==◌, eq_iff, arith, Bool-cases,
}
use autonomous_research_loop.Prelude.Lists.{length, mem, lookup, count_if}
use autonomous_research_loop.Queue.Cycle.{
  Graph, depends, keys, Marks, discard, Visit, cycle, clear, out_of_fuel, enter, leave, visit_all,
  start, search,
}

abbrev pub IsIn : String → List String → Type 0
IsIn k l = mem k l ≡ true

-- `a` depends on `b`, directly or through others.
pub data Depends (g : Graph) : String → String → Type 0 where
  direct : {a b : String} → IsIn b (depends g a) → Depends g a b
  through : {a b c : String} → Depends g a b → IsIn c (depends g b) → Depends g a c

-- Each of `xs` depends on each of `ys`.
abbrev Chain : Graph → List String → List String → Type 0
Chain g xs ys = (a b : String) → IsIn a xs → IsIn b ys → Depends g a b

discard-absent : (k : String) (l : List String) → mem k l ≡ false → discard k l ≡ l
unfolding discard mem
discard-absent k [] h = refl
discard-absent k (x ∷ xs) h = ground (arith, h, discard-absent k xs)

leave-visiting :
    (k : String) (m left : Marks)
    → mem k m.visiting ≡ false
    → left.visiting ≡ k ∷ m.visiting
    → (leave k left).visiting ≡ m.visiting
unfolding leave discard
leave-visiting k m left h e = rw e (ground (arith, eq_iff k k, discard-absent k m.visiting h))

-- A list in which the ids that an id depends on stand behind it.
abbrev pub Ordered : Graph → List String → Type 0
Ordered g [] = Unit
Ordered g (v ∷ vs) = ((d : String) → IsIn d (depends g v) → IsIn d vs) × Ordered g vs

-- The ids of the graph that are not in progress.
abbrev fresh : Graph → List String → ℕ
fresh g visiting = count_if (λ k. not (mem k visiting)) (keys g)

pub record Cleared (g : Graph) (ks : List String) (m left : Marks) : Type 0 where
  pub same : left.visiting ≡ m.visiting
  pub kept : (a : String) → IsIn a m.visited → IsIn a left.visited
  pub reached : (a : String) → IsIn a ks → IsIn a left.visited
  pub ordered : Ordered g left.visited

-- What the visits of `ks` from the marks `m` on fuel `n` come to.
abbrev pub Meets : ℕ → Graph → List String → Marks → Visit → Type 0
Meets n g ks m (cycle k) = Depends g k k
Meets n g ks m (clear left) = Cleared g ks m left
Meets n g ks m out_of_fuel = n ≤ fresh g m.visiting

abbrev pub Visit-cases :
    (v : Visit) → ((k : String) × (v ≡ cycle k)) ⊎ ((m : Marks) × (v ≡ clear m)) ⊎ (v ≡ out_of_fuel)
Visit-cases (cycle k) = inl (k, refl)
Visit-cases (clear m) = inr (inl (m, refl))
Visit-cases out_of_fuel = inr (inr refl)

IsIn-head : (k : String) (ks : List String) → IsIn k (k ∷ ks)
unfolding mem
IsIn-head k ks = ground (arith, eq_iff k k)

pub IsIn-tail : (k a : String) (ks : List String) → IsIn a ks → IsIn a (k ∷ ks)
unfolding mem
IsIn-tail k a ks h = ground (arith, h)

pub IsIn-cases : (k a : String) (ks : List String) → IsIn a (k ∷ ks) → (k ≡ a) ⊎ IsIn a ks
unfolding mem
IsIn-cases k a ks h = elim (Bool-cases (k == a)) [
  | inl e ↦ inl ((eq_iff k a).0 e)
  | inr e ↦ inr (rw e at h)
]

fresh_less :
    (k : String) (visiting ks : List String)
    → count_if (λ a. not (mem a (k ∷ visiting))) ks ≤ count_if (λ a. not (mem a visiting)) ks
unfolding mem
fresh_less k visiting [] = omega arith
fresh_less k visiting (x ∷ xs) = ground (arith, fresh_less k visiting xs)

-- An id with dependencies is a key, so it is fresh until it is entered.
fresh-enter :
    (g : Graph) (k d : String) (visiting : List String)
    → IsIn d (depends g k)
    → mem k visiting ≡ false
    → fresh g (k ∷ visiting) + 1 ≤ fresh g visiting
unfolding depends lookup mem
fresh-enter [] k d visiting h e = cc
fresh-enter ((j, ds) ∷ g) k d visiting h e = elim (Bool-cases (j == k)) [
  | inl t ↦ ground (arith, t, eq_iff j k, e, fresh_less k visiting (keys g))
  | inr t ↦
      ground (arith, t, eq_iff j k, fresh-enter g k d visiting (rw (t, depends, lookup) at h) e)
]

IsIn-first : (l : List String) → (l ≡ []) ⊎ ((d : String) × IsIn d l)
IsIn-first [] = inl refl
IsIn-first (d ∷ ds) = inr (d, IsIn-head d ds)

Chain-enter :
    (g : Graph) (k : String) (ks : List String) (m : Marks)
    → Chain g m.visiting (k ∷ ks)
    → Chain g (k ∷ m.visiting) (depends g k)
Chain-enter g k ks m h a b at_a at_b = elim (IsIn-cases k a m.visiting at_a) [
  | inl e ↦ subst (λ x. Depends g x b) e (Depends.direct at_b)
  | inr old ↦ Depends.through (h a k old (IsIn-head k ks)) at_b
]

module _ (g : Graph) where
  -- An id that was visited before.
  Meets-skip :
      (n : ℕ) (k : String) (ks : List String) (m : Marks) (v : Visit)
      → IsIn k m.visited
      → Meets n g ks m v
      → Meets n g (k ∷ ks) m v
  Meets-skip n k ks m (cycle c) old h = h
  Meets-skip n k ks m out_of_fuel old h = h
  Meets-skip n k ks m (clear left) old h = record {
    same = h.same;
    kept = h.kept;
    reached = λ a at. elim (IsIn-cases k a ks at) [
      | inl e ↦ subst (λ x. IsIn x left.visited) e (h.kept k old)
      | inr later ↦ h.reached a later
    ];
    ordered = h.ordered;
  }

  -- The ids after one whose visit left the marks `left`.
  Meets-leave :
      (n : ℕ) (k : String) (ks : List String) (m left : Marks) (v : Visit)
      → mem k m.visiting ≡ false
      → Cleared g (depends g k) (enter k m) left
      → Meets n g ks (leave k left) v
      → Meets n g (k ∷ ks) m v
  unfolding leave
  Meets-leave n k ks m left (cycle c) out inner h = h
  Meets-leave n k ks m left out_of_fuel out inner h =
      subst (λ l. n ≤ fresh g l) (leave-visiting k m left out inner.same) h
  Meets-leave n k ks m left (clear last) out inner h = record {
    same = h.same ∙ leave-visiting k m left out inner.same;
    kept = λ a at. h.kept a (IsIn-tail k a left.visited (inner.kept a at));
    reached = λ a at. elim (IsIn-cases k a ks at) [
      | inl e ↦ subst (λ x. IsIn x last.visited) e (h.kept k (IsIn-head k left.visited))
      | inr later ↦ h.reached a later
    ];
    ordered = h.ordered;
  }

  visit_all-Meets :
      (n : ℕ) (ks : List String) (m : Marks)
      → Chain g m.visiting ks
      → Ordered g m.visited
      → Meets n g ks m (visit_all n g ks m)
  unfolding visit_all leave
  visit_all-Meets n [] m chain ordered = record {
    same = refl;
    kept = λ _ h. h;
    reached = λ a h. cc;
    ordered = ordered;
  }
  visit_all-Meets zero (k ∷ ks) m chain ordered = omega arith
  visit_all-Meets (suc n) (k ∷ ks) m chain ordered = elim (Bool-cases (mem k m.visiting)) [
    | inl e ↦ rw (e, visit_all) (chain k k e (IsIn-head k ks))
    | inr e ↦ elim (Bool-cases (mem k m.visited)) [
      | inl old ↦
          rw (e, old, visit_all)
            (Meets-skip (suc n) k ks m _ old (
              visit_all-Meets (suc n) ks m (λ a b at_a at_b. chain a b at_a (IsIn-tail k b ks at_b))
                ordered))
      | inr new ↦
          let inner =
            visit_all-Meets n (depends g k) (enter k m) (Chain-enter g k ks m chain) ordered in
          elim (Visit-cases (visit_all n g (depends g k) (enter k m))) [
            | inl (c, r) ↦
                rw (e, new, r, visit_all) (subst (Meets n g (depends g k) (enter k m)) r inner)
            | inr (inl (left, r)) ↦
                let left_Cleared : Cleared g (depends g k) (enter k m) left =
                  subst (Meets n g (depends g k) (enter k m)) r inner in
                rw (e, new, r, visit_all)
                  (Meets-leave (suc n) k ks m left _ e left_Cleared (
                    visit_all-Meets (suc n) ks (leave k left)
                      (subst (λ l. Chain g l ks) (sym (leave-visiting k m left e left_Cleared.same))
                        (λ a b at_a at_b. chain a b at_a (IsIn-tail k b ks at_b)))
                      (left_Cleared.reached, left_Cleared.ordered)))
            | inr (inr r) ↦ elim (IsIn-first (depends g k)) [
              | inl none_left ↦
                  absurd (let r' : clear (enter k m) ≡ out_of_fuel = rw none_left at r in cc)
              | inr (d, at) ↦
                  let short : n ≤ fresh g (k ∷ m.visiting) =
                    subst (Meets n g (depends g k) (enter k m)) r inner in
                  rw (e, new, r, visit_all)
                    (omega (arith, short, fresh-enter g k d m.visiting at e))
            ]
          ]
    ]
  ]

  fresh-bound : (ks : List String) → count_if (λ k. not (mem k [])) ks ≤ length ks
  unfolding mem
  fresh-bound [] = omega arith
  fresh-bound (k ∷ ks) = ground (arith, fresh-bound ks)

  pub search-Meets : Meets (suc (length (keys g))) g (keys g) start (search g)
  unfolding search
  search-Meets = visit_all-Meets (suc (length (keys g))) (keys g) start (λ a b at_a at_b. cc) tt

  -- The fuel is enough: the search never stops for the want of it.
  pub search-fuel : search g ≢ out_of_fuel
  search-fuel r =
      let short : suc (length (keys g)) ≤ fresh g [] =
        subst (Meets (suc (length (keys g))) g (keys g) start) r search-Meets in
      omega (arith, short, fresh-bound (keys g))
