-- ===== src/Checkpoint/Budget.antt =====
-- research_loops/checkpoints/service.py: what the budget of an episode bounds.
pub mod Spending
pub mod Opened
pub mod History
use autonomous_research_loop.Prelude.{
  ℕ, ◌+◌, ◌≤◌, String, Bool, true, false, ◌≡◌, ◌&&◌, ◌||◌, Option, none, some, List, [], ◌∷◌, arith,
  not, if◌then◌else◌,
}
use autonomous_research_loop.Prelude.Lists.{length, any, count_if}
use autonomous_research_loop.Prelude.Tables.{AllValues, count_values}
use autonomous_research_loop.Control.Types.{Role, Invocation, Budgets, Episode, Logical}
use autonomous_research_loop.Checkpoint.Delegate.{role_beq, is_reserved, is_zero}

abbrev pub succeeds : Role → Invocation → Bool
succeeds role i = role_beq i.role role && is_zero i.exit_code

-- The call has its role's one place: it is running, or it has succeeded.
abbrev pub occupies : Role → Invocation → Bool
occupies role i = role_beq i.role role && (is_reserved i || is_zero i.exit_code)

abbrev pub is_spent : Invocation → Bool
is_spent i = not i.infra_refund

abbrev pub is_refunded : Invocation → Bool
is_refunded i = i.infra_refund

-- The refunds that are left; an episode without the field gets two when it is next started.
abbrev pub refunds_left : Option ℕ → ℕ
refunds_left none = 2
refunds_left (some n) = n

-- The account of an episode: the slots and the refunds add up, and no role has two places.
pub record InBudget (b : Budgets) (calls : List (String × Invocation)) : Type 0 where
  pub slots : b.delegate_launches + count_values is_spent calls ≤ 4
  pub refunded : refunds_left b.infra_refunds_remaining + count_values is_refunded calls ≤ 2
  pub single : count_values is_reserved calls ≤ 1
  pub places : (role : Role) → count_values (occupies role) calls ≤ 1
  pub fresh : AllValues (λ i. is_reserved i ≡ true → i.infra_refund ≡ false) calls

abbrev pub EpisodeInBudget : Episode → Type 0
EpisodeInBudget e = InBudget e.remaining_budgets e.invocations

-- What the account promises to whoever pays for the calls.
pub record Bounded (calls : List (String × Invocation)) : Type 0 where
  pub at_most_six : length calls ≤ 6
  pub one_running : count_values is_reserved calls ≤ 1
  pub one_success : (role : Role) → count_values (succeeds role) calls ≤ 1

pub count_if-total :
    (calls : List (String × Invocation))
    → length calls ≡ count_values is_spent calls + count_values is_refunded calls
count_if-total [] = omega arith
count_if-total (c ∷ calls) = ground (arith, count_if-total calls)

success-place :
    (role : Role) (calls : List (String × Invocation))
    → count_values (succeeds role) calls ≤ count_values (occupies role) calls
success-place role [] = omega arith
success-place role ((k, i) ∷ calls) = ground (arith, success-place role calls)

pub InBudget-Bounded :
    {b : Budgets} {calls : List (String × Invocation)} → InBudget b calls → Bounded calls
InBudget-Bounded {calls = calls} h = record {
  at_most_six = omega (arith, count_if-total calls, h.slots, h.refunded);
  one_running = h.single;
  one_success = λ role. omega (arith, success-place role calls, h.places role);
}
