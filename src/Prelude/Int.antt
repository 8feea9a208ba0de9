-- ===== src/Prelude/Int.antt =====
-- Python's integers where a negative one can reach a check: a count that an operator types, a list
-- position, an exit code. `negsuc n` is -(n + 1).
use native.Mathlib.Decide.{ℕ_discrete}
use autonomous_research_loop.Prelude.{ℕ, Bool, true, ltb}

pub data ℤ : Type 0 where
  pos : ℕ → ℤ
  negsuc : ℕ → ℤ

pub ℤ-discrete : Discrete ℤ
ℤ-discrete = hlevel ℕ_discrete

-- value < n, for a natural n
abbrev pub below : ℤ → ℕ → Bool
below (pos k) n = ltb k n
below (negsuc k) n = true

-- max(0, value)
abbrev pub clamp_zero : ℤ → ℕ
clamp_zero (pos k) = k
clamp_zero (negsuc k) = 0
