-- ===== src/Runner/Saturation/Passes.antt =====
-- research_loops/runner.py: what a verdict says of the whole history of passes.
use autonomous_research_loop.Prelude.{
  ℕ, ◌≤◌, ◌≡◌, ◌↔◌, refl, Bool, false, not, List, [], ◌∷◌, arith, if◌then◌else◌,
}
use autonomous_research_loop.Prelude.Lists.{count_if}
use autonomous_research_loop.Queue.Types.{Blocker}
use autonomous_research_loop.Runner.Saturation.{Verdict, saturation_decision}

-- What one valid pass gives to the decision.
pub record Pass : Type 0 where
  pub signature_changed : Bool
  pub blocked : Bool
  pub blockers : List Blocker

abbrev pub decide_pass : ℕ → ℕ → Pass → ℕ × Verdict
decide_pass limit streak p =
    saturation_decision p.signature_changed streak limit p.blocked p.blockers

-- The streak after passes, the latest first, each of which starts from the streak before it.
unfoldable pub streak_after : ℕ → List Pass → ℕ
streak_after limit [] = 0
streak_after limit (p ∷ ps) = (decide_pass limit (streak_after limit ps) p).0

-- The passes since the signature changed last.
abbrev pub unchanged_since : List Pass → List Pass
unchanged_since [] = []
unchanged_since (p ∷ ps) = if p.signature_changed then [] else p ∷ unchanged_since ps

-- The streak is the number of passes that no missing research blocked since the signature changed.
pub streak_after-count :
    (limit : ℕ) (passes : List Pass)
    → streak_after limit passes ≡ count_if (λ p. not p.blocked) (unchanged_since passes)
unfolding streak_after saturation_decision
streak_after-count limit [] = refl
streak_after-count limit (p ∷ ps) = ground (arith, streak_after-count limit ps)

-- The latest pass completes the topic exactly when it was not blocked, no blocker is left, and at
-- least `limit` passes that were not blocked followed the last change of the signature.
pub streak_after-completes :
    (limit : ℕ) (p : Pass) (ps : List Pass)
    → (decide_pass limit (streak_after limit ps) p).1 ≡ Verdict.complete
      ↔ (p.blocked ≡ false)
        × (p.blockers ≡ [])
        × (limit ≤ count_if (λ q. not q.blocked) (unchanged_since (p ∷ ps)))
unfolding saturation_decision
streak_after-completes limit p ps =
    let count = streak_after-count limit ps in
    (λ h. (ground arith, ground arith, ground arith), λ h. ground arith)
