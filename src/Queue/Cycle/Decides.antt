-- ===== src/Queue/Cycle/Decides.antt =====
-- research_loops/queue.py: `find_dependency_cycle` decides whether an item depends on itself.
use mathlib.Core.Path.{subst}
use autonomous_research_loop.Prelude.{
  String, ◌≡◌, sym, true, false, none, some, List, [], ◌∷◌, inl, inr, ◌==◌, arith, Bool-cases, ◌↔◌,
}
use autonomous_research_loop.Prelude.Lists.{mem, lookup}
use autonomous_research_loop.Queue.Cycle.{
  Graph, depends, keys, start, search, find_dependency_cycle,
}
use autonomous_research_loop.Queue.Cycle.Search.{
  IsIn, Depends, Ordered, Cleared, Meets, Visit-cases, IsIn-tail, IsIn-cases, search-Meets,
  search-fuel,
}

module _ (g : Graph) where
  edge-Ordered :
      (vs : List String) (a d : String)
      → Ordered g vs
      → IsIn a vs
      → IsIn d (depends g a)
      → IsIn d vs
  unfolding mem
  edge-Ordered [] a d h at edge = cc
  edge-Ordered (v ∷ vs) a d h at edge = elim (IsIn-cases v a vs at) [
    | inl e ↦ IsIn-tail v d vs (h.0 d (subst (λ x. IsIn d (depends g x)) (sym e) edge))
    | inr later ↦ IsIn-tail v d vs (edge-Ordered vs a d h.1 later edge)
  ]

  -- What the head depends on stands behind it.
  behind-Ordered :
      (v : String) (vs : List String)
      → Ordered g (v ∷ vs)
      → (b : String) → Depends g v b
      → IsIn b vs
  behind-Ordered v vs h b (Depends.direct edge) = h.0 b edge
  behind-Ordered v vs h c (Depends.through {b = b} path edge) =
      edge-Ordered vs b c h.1 (behind-Ordered v vs h b path) edge

  Ordered-acyclic : (vs : List String) (a : String) → Ordered g vs → IsIn a vs → ¬ Depends g a a
  unfolding mem
  Ordered-acyclic [] a h at loop = absurd (let c : false ≡ true = at in cc)
  Ordered-acyclic (v ∷ vs) a h at loop = elim (IsIn-cases v a vs at) [
    | inl e ↦
        Ordered-acyclic vs a h.1 (behind-Ordered v vs h a (subst (λ x. Depends g x a) (sym e) loop))
          loop
    | inr later ↦ Ordered-acyclic vs a h.1 later loop
  ]

edge-key : (g : Graph) (a d : String) → IsIn d (depends g a) → IsIn a (keys g)
unfolding depends lookup mem
edge-key [] a d h = cc
edge-key ((j, ds) ∷ g) a d h = elim (Bool-cases (j == a)) [
  | inl t ↦ ground (arith, t)
  | inr t ↦ ground (arith, edge-key g a d (rw (t, depends, lookup) at h))
]

Depends-key : (g : Graph) (a b : String) → Depends g a b → IsIn a (keys g)
Depends-key g a b (Depends.direct edge) = edge-key g a b edge
Depends-key g a c (Depends.through {b = b} path edge) = Depends-key g a b path

-- The id that is found depends on itself, directly or through others; and none is found exactly
-- when no id does.
pub find_dependency_cycle-decides :
    (g : Graph)
    → ((k : String) → find_dependency_cycle g ≡ some k → Depends g k k)
      × ((find_dependency_cycle g ≡ none) ↔ ((a : String) → ¬ Depends g a a))
unfolding find_dependency_cycle
find_dependency_cycle-decides g = elim (Visit-cases (search g)) [
  | inl (c, r) ↦
      let loop : Depends g c c = subst (Meets _ g (keys g) start) r (search-Meets g) in
      (
        (λ k h. subst (λ x. Depends g x x) (ground (arith, r, h)) loop),
        ((λ h. absurd (ground (arith, r, h))), λ free. absurd (free c loop)),
      )
  | inr (inl (left, r)) ↦
      let done : Cleared g (keys g) start left =
        subst (Meets _ g (keys g) start) r (search-Meets g) in
      (
        (λ k h. absurd (ground (arith, r, h))),
        (
          (λ h a loop.
              Ordered-acyclic g left.visited a done.ordered
                (done.reached a (Depends-key g a a loop)) loop),
          λ free. ground (arith, r),
        ),
      )
  | inr (inr r) ↦ absurd (search-fuel g r)
]
