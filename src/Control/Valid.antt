-- ===== src/Control/Valid.antt =====
-- research_loops/control_store.py: what the scheduler commits is valid.
pub mod Pairs
pub mod Reviews
use autonomous_research_loop.Prelude.{ℕ, String, ◌≡◌, refl, List, [], ◌∷◌}
use autonomous_research_loop.Control.Types.{Logical}
use autonomous_research_loop.Control.Store.{returned, transaction}
use autonomous_research_loop.Control.Configuration.{validate_profile, validate_state}
use autonomous_research_loop.Control.Station.{station_id}
use autonomous_research_loop.Control.Claim.{claim_body, claim}
use autonomous_research_loop.Control.Finalize.{
  finalize_body, finalize, confirm_body, confirm_launch,
}
use autonomous_research_loop.Control.Operator.{
  selected_stations, update_body, update_stations, reorder_body, reorder, register_body,
  register_profile,
}
use autonomous_research_loop.Control.Machine.{
  Action, claiming, finalizing, confirming, updating, reordering, registering, exec, run, Holds,
  Holds-after, Holds->>=, transaction-valid,
}

abbrev pub IsValid : Logical → Type 0
IsValid s = validate_state s ≡ returned tt

revision-valid :
    (v : Logical) (n : ℕ) → validate_state (record v { revision = n }) ≡ validate_state v
unfolding validate_state
revision-valid v n = refl

exec-IsValid : (a : Action) (s : Logical) → IsValid s → IsValid (exec a s)
unfolding exec claim finalize confirm_launch update_stations reorder register_profile
exec-IsValid (claiming r now fresh) s valid = Holds-after IsValid (claim r now fresh s) s valid (
    Holds->>= IsValid (station_id r) _ λ n.
      transaction-valid validate_state (λ v. returned (claim_body n now fresh v)) s revision-valid
        valid)
exec-IsValid (finalizing r lease pacing retry now) s valid =
    Holds-after IsValid (finalize r lease pacing retry now s) s valid (
      Holds->>= IsValid (station_id r) _ λ n.
        transaction-valid validate_state (finalize_body n lease pacing retry now) s revision-valid
          valid)
exec-IsValid (confirming r lease now) s valid =
    Holds-after IsValid (confirm_launch r lease now s) s valid (
      Holds->>= IsValid (station_id r) _
        λ n. transaction-valid validate_state (confirm_body n lease now) s revision-valid valid)
exec-IsValid (updating u now) s valid = Holds-after IsValid (update_stations u now s) s valid (
    Holds->>= IsValid (selected_stations u) _
      λ chosen. transaction-valid validate_state (update_body u chosen now) s revision-valid valid)
exec-IsValid (reordering ids expected now) s valid =
    Holds-after IsValid (reorder ids expected now s) s valid
      (transaction-valid validate_state (reorder_body ids expected now) s revision-valid valid)
exec-IsValid (registering id p) s valid = Holds-after IsValid (register_profile id p s) s valid (
    Holds->>= IsValid (validate_profile id p) _
      λ _. transaction-valid validate_state (register_body id p) s revision-valid valid)

pub run-IsValid : (actions : List Action) (s : Logical) → IsValid s → IsValid (run actions s)
unfolding run
run-IsValid [] s valid = valid
run-IsValid (a ∷ rest) s valid = run-IsValid rest (exec a s) (exec-IsValid a s valid)
