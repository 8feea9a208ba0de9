-- ===== src/Queue/Invariant/Keeps.antt =====
-- Invariants of operations: `Keeps P op` says that a call that returns leaves a state with `P`.
use mathlib.Core.Logic.{if_pos, if_neg}
use autonomous_research_loop.Prelude.{ℕ}
use autonomous_research_loop.Queue.Types.{State, World, State-discrete}
use autonomous_research_loop.Queue.Store.{
  Result, ok, err, Ensures, Ensures-bind, Ensures-elim, Op, commit, locked,
}
use autonomous_research_loop.Queue.Machine.{world_after}

abbrev pub Holds : (State → Type 0) → {A : Type 0} → A × World → Type 0
Holds P out = P out.1.state

abbrev pub Keeps : (State → Type 0) → {A : Type 0} → Op A → Type 0
Keeps P {A} op = (w : World) → P w.state → Ensures (Holds P {A = A}) (op w)

-- A property that the revision and the time of the last change do not touch.
abbrev pub Stable : (State → Type 0) → Type 0
Stable P = (s : State) (n t : ℕ) → P s → P (record s { revision = n; updated_at = t })

module _ (P : State → Type 0) (stable : Stable P) where
  commit_keeps : (now : ℕ) (before after : State) → P after → P (commit now before after)
  unfolding commit
  commit_keeps now before after h = elim (State-discrete after before) [
    | yes same ↦ rw (if_pos _ same) h
    | no other ↦ rw (if_neg _ other) (stable after _ now h)
  ]

  pub locked-Keeps : {A : Type 0} (body : Op A) (now : ℕ) → Keeps P body → Keeps P (locked body now)
  unfolding locked
  locked-Keeps body now keep w h =
      Ensures-bind (Holds P) (body w) _
        λ out e. commit_keeps now w.state out.1.state (Ensures-elim (Holds P) (body w) (keep w h) e)

pub world_after-keeps :
    (P : State → Type 0) {A : Type 0} (m : Result (A × World)) (w : World)
    → P w.state
    → Ensures (Holds P) m
    → P (world_after m w).state
world_after-keeps P (ok (a, w')) w old new = new
world_after-keeps P (err e) w old new = old
