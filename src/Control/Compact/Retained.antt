-- ===== src/Control/Compact/Retained.antt =====
-- research_loops/control_store.py: the runs that `compact` never drops.
use mathlib.Core.Path.{subst}
use autonomous_research_loop.Prelude.{
  ◌||◌, eq_iff, ℕ, zero, suc, ◌-◌, String, ◌≡◌, refl, ◌∙◌, true, false, List, [], ◌∷◌, inl, inr,
  ◌==◌, leb, arith, Bool-cases,
}
use autonomous_research_loop.Prelude.Lists.{
  mem, All, keep-All, length, keep, lookup, remove, lookup-remove,
}
use autonomous_research_loop.Control.Types.{Run, Work, Logical}
use autonomous_research_loop.Control.Compact.{
  insert_by, sort_by, take, run_stamp, referenced_runs, run_topics, of_topic, surplus_runs,
  is_prunable, delete_all, first_keys, prune_topics, runs_retained_per_topic, compact,
}

module _ {A : Type 0} (P : A → Type 0) where
  take-All : (n : ℕ) (xs : List A) → All P xs → All P (take n xs)
  take-All zero xs ps = tt
  take-All (suc n) [] ps = tt
  take-All (suc n) (x ∷ xs) (px, ps) = (px, take-All n xs ps)

  insert_by-All :
      (stamp : A → ℕ) (a : A) (xs : List A) → P a → All P xs → All P (insert_by stamp a xs)
  unfolding insert_by
  insert_by-All stamp a [] pa ps = (pa, tt)
  insert_by-All stamp a (x ∷ xs) pa (px, ps) = elim (Bool-cases (leb (stamp a) (stamp x))) [
    | inl e ↦ rw e (pa, (px, ps))
    | inr e ↦ rw e (px, insert_by-All stamp a xs pa ps)
  ]

  sort_by-All : (stamp : A → ℕ) (xs : List A) → All P xs → All P (sort_by stamp xs)
  unfolding sort_by
  sort_by-All stamp [] ps = tt
  sort_by-All stamp (x ∷ xs) (px, ps) =
      insert_by-All stamp x (sort_by stamp xs) px (sort_by-All stamp xs ps)

module _ (P : String × Run → Type 0) where
  remove-All : (k : String) (table : List (String × Run)) → All P table → All P (remove k table)
  unfolding remove
  remove-All k [] ps = tt
  remove-All k ((j, r) ∷ table) (p, ps) = elim (Bool-cases (j == k)) [
    | inl e ↦ rw e (remove-All k table ps)
    | inr e ↦ rw e (p, remove-All k table ps)
  ]

  delete_all-All :
      (ks : List String) (table : List (String × Run)) → All P table → All P (delete_all ks table)
  unfolding delete_all
  delete_all-All [] table ps = ps
  delete_all-All (k ∷ ks) table ps = delete_all-All ks (remove k table) (remove-All k table ps)

module _ (id : String) (referenced : List String) where
  -- A record of the run has started and not ended, or an episode refers to the run.
  abbrev pub Spared : String × Run → Type 0
  Spared e = e.0 == id ≡ true → (e.1.state == "started" || mem id referenced) ≡ true

  Others : List String → Type 0
  Others = All λ k. k == id ≡ false

  prunable-Others :
      (es : List (String × Run))
      → All Spared es
      → Others (first_keys (keep (is_prunable referenced) es))
  unfolding Others
  prunable-Others [] ps = tt
  prunable-Others ((k, r) ∷ es) (p, ps) = elim (Bool-cases (is_prunable referenced (k, r))) [
    | inl prunable ↦
        let other : k == id ≡ false = elim (Bool-cases (k == id)) [
          | inl same ↦
              let here : is_prunable referenced (id, r) ≡ true =
                subst (λ j. is_prunable referenced (j, r) ≡ true) ((eq_iff k id).0 same) prunable in
              absurd (ground (arith, p same, here))
          | inr other ↦ other
        ] in
        rw prunable (other, prunable-Others es ps)
    | inr spared ↦ rw spared (prunable-Others es ps)
  ]

  lookup-delete_all :
      (ks : List String) (table : List (String × Run))
      → Others ks
      → lookup id (delete_all ks table) ≡ lookup id table
  unfolding delete_all Others
  lookup-delete_all [] table others = refl
  lookup-delete_all (k ∷ ks) table (here, others) =
      lookup-delete_all ks (remove k table) others ∙ (rw here at (lookup-remove k id table))

  lookup-prune_topics :
      (ts : List String) (w : Work)
      → All Spared w.runs
      → lookup id (prune_topics referenced ts w).runs ≡ lookup id w.runs
  unfolding prune_topics surplus_runs
  lookup-prune_topics [] w spared = refl
  lookup-prune_topics (t ∷ ts) w spared =
      let own = sort_by run_stamp (keep (of_topic t) w.runs) in
      let surplus = take (length own - runs_retained_per_topic) own in
      let gone = first_keys (keep (is_prunable referenced) surplus) in
      let others : Others gone = prunable-Others surplus (
        take-All Spared (length own - runs_retained_per_topic) own (
          sort_by-All Spared run_stamp (keep (of_topic t) w.runs)
            (keep-All Spared (of_topic t) w.runs spared))) in
      lookup-prune_topics ts _ (delete_all-All Spared gone w.runs spared)
      ∙ lookup-delete_all gone w.runs others

-- A run of the ledger stays as it is through a compaction if an episode refers to it, or if each of
-- its records has started and not ended.
pub compact-Spared :
    (id : String) (s : Logical)
    → All (Spared id (referenced_runs s.work.episodes)) s.work.runs
    → lookup id (compact s).work.runs ≡ lookup id s.work.runs
unfolding compact
compact-Spared id s =
    lookup-prune_topics id (referenced_runs s.work.episodes) (run_topics [] s.work.runs) s.work
