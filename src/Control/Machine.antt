-- ===== src/Control/Machine.antt =====
-- research_loops/control_store.py: the scheduler as a machine that any sequence of operations drives.
mod Outcomes
unfoldable pub use Outcomes.*
use mathlib.Core.Logic.{◌≢◌}
use mathlib.Core.Path.{subst, ◌≡◌}
use autonomous_research_loop.Prelude.{
  ℕ, ◌+◌, String, refl, ap, ◌∙◌, Bool, true, false, Option, none, some, List, [], ◌∷◌,
  if◌then◌else◌,
}
use autonomous_research_loop.Control.Types.{Profile, Logical, Logical-discrete}
use autonomous_research_loop.Control.Store.{
  ControlError, Outcome, raised, returned, ◌>>=◌, ◌>>◌, require, commit, transaction,
}
use autonomous_research_loop.Control.Configuration.{validate_profile, validate_state}
use autonomous_research_loop.Control.Station.{Reference, station_id, Operation}
use autonomous_research_loop.Control.Claim.{claim_body, claim}
use autonomous_research_loop.Control.Finalize.{
  finalize_body, finalize, confirm_body, confirm_launch,
}
use autonomous_research_loop.Control.Operator.{
  Update, selected_stations, update_body, update_stations, reorder_body, reorder, register_body,
  register_profile,
}

-- The operations with their arguments; a number stands for the time of the call.
pub data Action : Type 0 where
  claiming : Reference → ℕ → String → Action
  finalizing : Reference → String → Option ℕ → Option ℕ → ℕ → Action
  confirming : Reference → String → ℕ → Action
  updating : Update → ℕ → Action
  reordering : List String → ℕ → ℕ → Action
  registering : String → Profile → Action

unfoldable pub exec : Action → Logical → Logical
unfolding claim finalize confirm_launch update_stations reorder register_profile
exec (claiming r now fresh) s = state_after (claim r now fresh s) s
exec (finalizing r lease pacing retry now) s = state_after (finalize r lease pacing retry now s) s
exec (confirming r lease now) s = state_after (confirm_launch r lease now s) s
exec (updating u now) s = state_after (update_stations u now s) s
exec (reordering ids revision now) s = state_after (reorder ids revision now s) s
exec (registering id p) s = state_after (register_profile id p s) s

unfoldable pub run : List Action → Logical → Logical
unfolding exec
run [] s = s
run (a ∷ as') s = run as' (exec a s)

-- A property that every body keeps, and in which the revision has no part, holds of a whole history.
module _ (P : Logical → Type 0)
    (keeps : (v : Logical) (n : ℕ) → P v → P (record v { revision = n }))
    (claims : (n now : ℕ) (fresh : String) (s : Logical) → P s → P (claim_body n now fresh s).1)
    (finalizes : (n : ℕ) (lease : String) (pacing retry : Option ℕ) (now : ℕ) (s : Logical)
      → P s
      → Holds P (finalize_body n lease pacing retry now s))
    (confirms : (n : ℕ) (lease : String) (now : ℕ) (s : Logical)
      → P s
      → Holds P (confirm_body n lease now s))
    (updates : (u : Update) (chosen : List ℕ) (now : ℕ) (s : Logical)
      → P s
      → Holds P (update_body u chosen now s))
    (reorders : (ids : List String) (expected now : ℕ) (s : Logical)
      → P s
      → Holds P (reorder_body ids expected now s))
    (registers : (id : String) (p : Profile) (s : Logical)
      → P s
      → Holds P (register_body id p s)) where
  pub exec-Holds : (a : Action) (s : Logical) → P s → P (exec a s)
  unfolding exec claim finalize confirm_launch update_stations reorder register_profile
  exec-Holds (claiming r now fresh) s h = Holds-after P (claim r now fresh s) s h (
      Holds->>= P (station_id r) _ λ n.
        Holds-transaction P validate_state (λ v. returned (claim_body n now fresh v)) s keeps
          (claims n now fresh s h))
  exec-Holds (finalizing r lease pacing retry now) s h =
      Holds-after P (finalize r lease pacing retry now s) s h (
        Holds->>= P (station_id r) _ λ n.
          Holds-transaction P validate_state (finalize_body n lease pacing retry now) s keeps
            (finalizes n lease pacing retry now s h))
  exec-Holds (confirming r lease now) s h = Holds-after P (confirm_launch r lease now s) s h (
      Holds->>= P (station_id r) _ λ n.
        Holds-transaction P validate_state (confirm_body n lease now) s keeps
          (confirms n lease now s h))
  exec-Holds (updating u now) s h = Holds-after P (update_stations u now s) s h (
      Holds->>= P (selected_stations u) _ λ chosen.
        Holds-transaction P validate_state (update_body u chosen now) s keeps
          (updates u chosen now s h))
  exec-Holds (reordering ids expected now) s h = Holds-after P (reorder ids expected now s) s h (
      Holds-transaction P validate_state (reorder_body ids expected now) s keeps
        (reorders ids expected now s h))
  exec-Holds (registering id p) s h = Holds-after P (register_profile id p s) s h (
      Holds->>= P (validate_profile id p) _
        λ _. Holds-transaction P validate_state (register_body id p) s keeps (registers id p s h))

  pub run-Holds : (actions : List Action) (s : Logical) → P s → P (run actions s)
  unfolding run
  run-Holds [] s h = h
  run-Holds (a ∷ rest) s h = run-Holds rest (exec a s) (exec-Holds a s h)
