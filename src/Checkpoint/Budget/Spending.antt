-- ===== src/Checkpoint/Budget/Spending.antt =====
-- research_loops/checkpoints/service.py: the delegate calls keep their episode's account.
use mathlib.Core.Path.{subst}
use autonomous_research_loop.Prelude.{
  ℕ, ◌+◌, ◌-◌, ◌≤◌, String, Bool, true, false, ◌≡◌, refl, ◌&&◌, Option, none, some, List, [], ◌∷◌,
  arith, not, inl, inr, Bool-cases, leb, ltb,
}
use autonomous_research_loop.Prelude.Int.{ℤ}
use autonomous_research_loop.Prelude.Lists.{any, lookup, insert}
use autonomous_research_loop.Prelude.Tables.{
  AllValues-lookup, AllValues-insert, one_if, count_values, count_values-insert-new,
  count_values-insert-old,
}
use autonomous_research_loop.Control.Types.{
  Role, preparation, counter, repair_response, repair_assessment, response_reserved,
  assessment_reserved, DelegateResult, Invocation, Budgets, Episode,
}
use autonomous_research_loop.Control.Store.{
  ControlError, Outcome, raised, returned, ◌>>=◌, ◌>>◌, require, revision_conflict,
  budget_exhausted,
}
use autonomous_research_loop.Control.Machine.{Holds, Holds-option, Holds-require}
use autonomous_research_loop.Checkpoint.Delegate.{
  role_beq, is_reserved, is_in_flight, has_success, enter_role, spend, launch, finished, settle,
  refunded_budgets, is_infra, refunds, reservation, seat_profile, is_response_finished,
}
use autonomous_research_loop.Checkpoint.Budget.{
  succeeds, occupies, is_spent, is_refunded, refunds_left, InBudget, EpisodeInBudget,
}

abbrev Fresh : Invocation → Type 0
Fresh i = is_reserved i ≡ true → i.infra_refund ≡ false

any-count :
    (p : Invocation → Bool) (calls : List (String × Invocation))
    → any (λ (c : String × Invocation). p c.1) calls ≡ false
    → count_values p calls ≡ 0
any-count p [] h = refl
any-count p (c ∷ calls) h = ground (arith, h, any-count p calls)

-- A role with nothing running and no success has its place free.
place-free :
    (role : Role) (calls : List (String × Invocation))
    → count_values (occupies role) calls
      ≤ count_values is_reserved calls + count_values (succeeds role) calls
place-free role [] = omega arith
place-free role ((k, i) ∷ calls) = ground (arith, place-free role calls)

role_beq-same : (a b : Role) → role_beq a b ≡ true → a ≡ b
role_beq-same preparation preparation h = refl
role_beq-same counter counter h = refl
role_beq-same repair_response repair_response h = refl
role_beq-same repair_assessment repair_assessment h = refl
role_beq-same preparation counter h = cc
role_beq-same preparation repair_response h = cc
role_beq-same preparation repair_assessment h = cc
role_beq-same counter preparation h = cc
role_beq-same counter repair_response h = cc
role_beq-same counter repair_assessment h = cc
role_beq-same repair_response preparation h = cc
role_beq-same repair_response counter h = cc
role_beq-same repair_response repair_assessment h = cc
role_beq-same repair_assessment preparation h = cc
role_beq-same repair_assessment counter h = cc
role_beq-same repair_assessment repair_response h = cc

-- The slot that a reservation spends.
spend-InBudget :
    (k : String) (role : Role) (e : Episode) (i : Invocation)
    → i.role ≡ role
    → is_reserved i ≡ true
    → i.infra_refund ≡ false
    → lookup k e.invocations ≡ none
    → any is_in_flight e.invocations ≡ false
    → has_success role e.invocations ≡ false
    → ltb 0 e.remaining_budgets.delegate_launches ≡ true
    → EpisodeInBudget e
    → EpisodeInBudget (spend k i e)
unfolding spend
spend-InBudget k role e i same running fresh new idle none_yet left h = record {
  slots =
      let more = count_values-insert-new is_spent k i e.invocations new in
      ground (arith, more, h.slots, left, fresh);
  refunded =
      let more = count_values-insert-new is_refunded k i e.invocations new in
      ground (arith, more, h.refunded, fresh);
  single =
      let more = count_values-insert-new is_reserved k i e.invocations new in
      ground (arith, more, any-count is_reserved e.invocations idle);
  places = λ asked. elim (Bool-cases (role_beq role asked)) [
    | inl e' ↦
        let free = place-free role e.invocations in
        let busy = any-count is_reserved e.invocations idle in
        let none_now = any-count (succeeds role) e.invocations none_yet in
        let more = count_values-insert-new (occupies role) k i e.invocations new in
        let fits : count_values (occupies role) (insert k i e.invocations) ≤ 1 =
          ground (arith, more, free, busy, none_now) in
        subst (λ r. count_values (occupies r) (insert k i e.invocations) ≤ 1)
          (role_beq-same role asked e') fits
    | inr e' ↦
        let more = count_values-insert-new (occupies asked) k i e.invocations new in
        let other : role_beq i.role asked ≡ false = rw same e' in
        ground (arith, more, h.places asked, other)
  ];
  fresh = AllValues-insert Fresh k i e.invocations h.fresh (λ _. fresh);
}

-- An episode that has the calls, the slots and the refunds of another.
abbrev SameAccount : Episode → Episode → Type 0
SameAccount e e' =
    (e'.invocations ≡ e.invocations)
    × (e'.remaining_budgets.delegate_launches ≡ e.remaining_budgets.delegate_launches)
    × (e'.remaining_budgets.infra_refunds_remaining ≡ e.remaining_budgets.infra_refunds_remaining)

abbrev Enters : Episode → Outcome Episode → Type 0
Enters e (returned e') = SameAccount e e'
Enters e (raised x) = Unit

require-Enters :
    (e : Episode) (test : Bool) (x : ControlError) (m : Outcome Episode)
    → Enters e m
    → Enters e (require test x >> m)
require-Enters e true x m h = h
require-Enters e false x m h = tt

enter_role-Enters : (role : Role) (e : Episode) → Enters e (enter_role role e)
unfolding enter_role
enter_role-Enters preparation e = (refl, refl, refl)
enter_role-Enters counter e = (refl, refl, refl)
enter_role-Enters repair_response e =
    let entered : Episode = record e {
      remaining_budgets = record e.remaining_budgets {
        repair_exchanges = e.remaining_budgets.repair_exchanges - 1;
      };
      repair_phase = some response_reserved;
    } in
    let ready =
      has_success counter e.invocations
      && leb 2 e.remaining_budgets.delegate_launches
      && ltb 0 e.remaining_budgets.repair_exchanges in
    require-Enters e (not (has_success repair_assessment e.invocations)) revision_conflict
      (require ready budget_exhausted >> returned entered)
      (require-Enters e ready budget_exhausted (returned entered) (refl, refl, refl))
enter_role-Enters repair_assessment e =
    require-Enters e
      (is_response_finished e.repair_phase && leb 1 e.remaining_budgets.delegate_launches)
      revision_conflict (returned (record e { repair_phase = some assessment_reserved }))
      (refl, refl, refl)

Enters-Holds :
    {A S : Type 0} (P : S → Type 0) (e : Episode) (m : Outcome Episode)
    (f : Episode → Outcome (A × S))
    → Enters e m
    → ((e' : Episode) → SameAccount e e' → Holds P (f e'))
    → Holds P (m >>= f)
Enters-Holds P e (raised x) f h k = tt
Enters-Holds P e (returned e') f h k = k e' h

account-InBudget : (e e' : Episode) → SameAccount e e' → EpisodeInBudget e → EpisodeInBudget e'
account-InBudget e e' (calls, slots, refunds') h = record {
  slots = rw (calls) (rw slots h.slots);
  refunded = rw (calls) (rw refunds' h.refunded);
  single = rw calls h.single;
  places = λ role. rw calls (h.places role);
  fresh = rw calls h.fresh;
}

pub launch-Holds :
    (lease k : String) (role : Role) (now : ℕ) (e : Episode)
    → lookup k e.invocations ≡ none
    → EpisodeInBudget e
    → Holds EpisodeInBudget (launch lease k role now e)
unfolding launch
launch-Holds lease k role now e new h =
    Holds-require EpisodeInBudget (not (any is_in_flight e.invocations)) revision_conflict _ λ idle.
      Holds-require EpisodeInBudget (ltb 0 e.remaining_budgets.delegate_launches) budget_exhausted _
        λ left.
          Holds-require EpisodeInBudget (not (has_success role e.invocations)) revision_conflict _
            λ none_yet.
              Enters-Holds EpisodeInBudget e (enter_role role e) _ (enter_role-Enters role e)
                λ e' (calls, slots, refunds').
                  Holds-option EpisodeInBudget e.resolved_agent_pair _ _ tt λ pair _.
                    let i = reservation k lease role (seat_profile role pair) now in
                    spend-InBudget k role e' i refl refl refl (rw calls new)
                      (rw calls (ground (arith, idle))) (rw calls (ground (arith, none_yet)))
                      (rw slots left) (account-InBudget e e' (calls, slots, refunds') h)

-- A call that ends takes the place of the reserved one, and its slot is kept or given back.
replace-InBudget :
    (k : String) (i i' : Invocation) (b b' : Budgets) (calls : List (String × Invocation))
    → lookup k calls ≡ some i
    → is_reserved i ≡ true
    → i.infra_refund ≡ false
    → i'.role ≡ i.role
    → is_reserved i' ≡ false
    → b'.delegate_launches ≡ b.delegate_launches + one_if i'.infra_refund
    → refunds_left b'.infra_refunds_remaining + one_if i'.infra_refund
      ≡ refunds_left b.infra_refunds_remaining
    → InBudget b calls
    → InBudget b' (insert k i' calls)
replace-InBudget k i i' b b' calls found running fresh same ended slots left h = record {
  slots =
      let moved = count_values-insert-old is_spent k i' i calls found in
      ground (arith, moved, fresh, slots, h.slots);
  refunded =
      let moved = count_values-insert-old is_refunded k i' i calls found in
      ground (arith, moved, fresh, left, h.refunded);
  single =
      let moved = count_values-insert-old is_reserved k i' i calls found in
      ground (arith, moved, running, ended, h.single);
  places = λ role.
      let moved = count_values-insert-old (occupies role) k i' i calls found in
      let roles : role_beq i'.role role ≡ role_beq i.role role = rw same refl in
      ground (arith, moved, running, roles, h.places role);
  fresh = AllValues-insert Fresh k i' calls h.fresh (λ again. ground (arith, again, ended));
}

refund-left : (o : Option ℕ) → ltb 0 (refunds o) ≡ true → refunds o - 1 + 1 ≡ refunds_left o
refund-left none h = cc
refund-left (some n) h = ground (arith, h)

-- The end of a reserved call, refunded or not.
pub settle-InBudget :
    (k : String) (code : ℤ) (output : Option String) (result : Option DelegateResult) (now : ℕ)
    (i : Invocation) (e : Episode)
    → lookup k e.invocations ≡ some i
    → is_reserved i ≡ true
    → EpisodeInBudget e
    → EpisodeInBudget (settle k code output result now i e).1
unfolding settle finished
settle-InBudget k code output result now i e found running h =
    let fresh = AllValues-lookup Fresh k e.invocations h.fresh found running in
    elim (Bool-cases
      (is_infra code && ltb 0 (refunds e.remaining_budgets.infra_refunds_remaining))) [
        | inl given ↦ rw given (
            replace-InBudget k i
              (record (finished code output result now i) { infra_refund = true })
              e.remaining_budgets (refunded_budgets i.role e.remaining_budgets) e.invocations found
              running fresh refl refl refl
              (refund-left e.remaining_budgets.infra_refunds_remaining (ground (arith, given))) h)
        | inr kept ↦ rw kept (
            replace-InBudget k i (finished code output result now i) e.remaining_budgets
              e.remaining_budgets e.invocations found running fresh refl refl
              (rw fresh (omega arith)) (rw fresh (omega arith)) h)
      ]
