-- ===== src/Runner/Saturation.antt =====
-- research_loops/runner.py: `saturation_decision`.
pub mod Passes
use autonomous_research_loop.Prelude.{ℕ, ◌+◌, Bool, ◌||◌, List, [], ◌∷◌, leb, if◌then◌else◌}
use autonomous_research_loop.Queue.Types.{Blocker}

pub data Verdict : Type 0 where
  complete held continue : Verdict

-- bool(blockers)
abbrev pub is_nonempty {ℓ} : {A : Type ℓ} → List A → Bool
is_nonempty [] = Bool.false
is_nonempty (x ∷ xs) = Bool.true

unfoldable pub saturation_decision : Bool → ℕ → ℕ → Bool → List Blocker → ℕ × Verdict
saturation_decision signature_changed previous_streak limit blocked_this_pass blockers =
    let streak =
      if signature_changed
      then 0
      else if blocked_this_pass
      then previous_streak
      else previous_streak + 1 in
    if leb limit streak
    then (
      streak,
      if blocked_this_pass || is_nonempty blockers then Verdict.held else Verdict.complete,
    )
    else (streak, Verdict.continue)
