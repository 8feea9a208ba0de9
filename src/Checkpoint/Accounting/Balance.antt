-- ===== src/Checkpoint/Accounting/Balance.antt =====
-- research_loops/checkpoints/service.py: a topic's counter against the runs accounted for it.
use mathlib.Core.Path.{subst}
use autonomous_research_loop.Prelude.{
  ℕ, ◌+◌, String, ◌≡◌, refl, sym, ap, ◌∙◌, Bool, true, false, ◌&&◌, none, some, List, arith, ◌==◌,
  eq_iff, inl, inr, Bool-cases, Option-cases,
}
use autonomous_research_loop.Prelude.Lists.{All, lookup, insert, lookup-insert}
use autonomous_research_loop.Prelude.Tables.{
  one_if, count_values, count_values-insert-new, count_values-insert-old,
}
use autonomous_research_loop.Control.Types.{Accounting, Run, Logical}
use autonomous_research_loop.Control.Store.{Outcome}
use autonomous_research_loop.Control.Machine.{Holds, Holds-map}
use autonomous_research_loop.Checkpoint.Completion.{Digest, Completion, accept_body}
use autonomous_research_loop.Checkpoint.Review.{Context, Naming}
use autonomous_research_loop.Checkpoint.Machine.{Step, Nothing, Admits, history, history-Holds}
use autonomous_research_loop.Checkpoint.Accounting.{completed}
use autonomous_research_loop.Checkpoint.Accounting.Unrelated.{
  Same, stall_body-Same, start_body-Same, reserve_body-Same, result_body-Same, finish_body-Same,
  intend_body-Same, commit_body-Same,
}
use autonomous_research_loop.Checkpoint.Accounting.Counted.{Effect}
use autonomous_research_loop.Checkpoint.Accounting.Once.{Accepts, accept_body-Accepts}

-- The specification of a topic's counter: how many runs are accounted to it.
abbrev pub is_credit : String → Run → Bool
is_credit t r = r.topic_id == t && r.completion_accounted

abbrev pub credits : String → Logical → ℕ
credits t s = count_values (is_credit t) s.work.runs

-- A run counts only once it has its result.
abbrev pub Settled : Logical → Type 0
Settled s =
    (a : String) (r : Run)
    → lookup a s.work.runs ≡ some r
    → r.accounting_result ≡ none
    → r.completion_accounted ≡ false

module _ (t : String) where
  -- A run without a result is replaced, or a new one is put in.
  credits-written :
      (c : Completion) (s : Logical) (x : Accounting × Logical) (effect : Effect c s x)
      → ((r : Run) → lookup c.run_id s.work.runs ≡ some r → r.accounting_result ≡ none)
      → Settled s
      → credits t x.1 ≡ credits t s + one_if (is_credit t effect.run)
  credits-written c s x effect open_run settled =
      rw effect.written (elim (Option-cases (lookup c.run_id s.work.runs)) [
        | inl unknown ↦
            count_values-insert-new (is_credit t) c.run_id effect.run s.work.runs unknown
        | inr (r, known) ↦
            let moved =
              count_values-insert-old (is_credit t) c.run_id effect.run r s.work.runs known in
            ground (arith, moved, settled c.run_id r known (open_run r known))
      ])

  Settled-written :
      (c : Completion) (s : Logical) (x : Accounting × Logical)
      → Effect c s x
      → Settled s
      → Settled x.1
  Settled-written c s x effect settled a r found unsettled =
      let found' : lookup a (insert c.run_id effect.run s.work.runs) ≡ some r =
        rw effect.written at (found) in
      elim (Bool-cases (c.run_id == a)) [
        | inl e ↦
            let same : effect.run ≡ r =
              ground (arith, lookup-insert c.run_id a effect.run s.work.runs, found', e) in
            absurd (ground (arith, ap (λ q. q.accounting_result) same, effect.result, unsettled))
        | inr e ↦
            settled a r (ground (arith, lookup-insert c.run_id a effect.run s.work.runs, found', e))
              unsettled
      ]

  counter-written :
      (c : Completion) (s : Logical) (x : Accounting × Logical) (effect : Effect c s x)
      → completed t x.1 ≡ completed t s + one_if (is_credit t effect.run)
  counter-written c s x effect = elim effect.counts [
    | inr (flag, unnumbered, same) ↦
        let here : completed t x.1 ≡ completed t s = ap (λ n. n.completed) (same t) in
        ground (arith, here, flag)
    | inl (flag, numbered, counts) ↦ elim (Bool-cases (c.topic_id == t)) [
      | inl e ↦
          let here : completed t x.1 ≡ completed c.topic_id s + 1 =
            ap (λ n. n.completed) (rw e at (counts t)) in
          let own : completed c.topic_id s ≡ completed t s =
            ap (λ i. completed i s) ((eq_iff c.topic_id t).0 e) in
          let credit : (effect.run.topic_id == t) ≡ true = rw effect.topic e in
          ground (arith, here, own, flag, credit)
      | inr e ↦
          let here : completed t x.1 ≡ completed t s = ap (λ n. n.completed) (rw e at (counts t)) in
          let credit : (effect.run.topic_id == t) ≡ false = rw effect.topic e in
          ground (arith, here, credit)
    ]
  ]

  -- The counter and the number of credits have grown alike since the base.
  abbrev Balanced : Logical → Logical → Type 0
  Balanced base v = (completed t v + credits t base ≡ completed t base + credits t v) × Settled v

  written-Balanced :
      (base : Logical) (c : Completion) (s : Logical) (x : Accounting × Logical)
      → Effect c s x
      → ((r : Run) → lookup c.run_id s.work.runs ≡ some r → r.accounting_result ≡ none)
      → Balanced base s
      → Balanced base x.1
  written-Balanced base c s x effect open_run (even, settled) = (
    omega
        (arith, even, credits-written c s x effect open_run settled, counter-written c s x effect),
    Settled-written c s x effect settled,
  )

  accept_body-Balanced :
      (base : Logical) (digest : Digest) (c : Completion) (fresh : String) (now : ℕ) (s : Logical)
      → Balanced base s
      → Holds (Balanced base) (accept_body digest c fresh now s)
  accept_body-Balanced base digest c fresh now s h =
      Holds-map (Accepts c s) (Balanced base) (accept_body digest c fresh now s)
        (λ v accepts. elim accepts [
          | inl same ↦ subst (Balanced base) (sym same) h
          | inr (x, effect, here, open_run) ↦
              subst (Balanced base) here (written-Balanced base c s x effect open_run h)
        ])
        (accept_body-Accepts digest c fresh now s)

  Same-Balanced :
      {A : Type 0} (base : Logical) (m : Outcome (A × Logical)) (s : Logical)
      → Holds (Same t s) m
      → Balanced base s
      → Holds (Balanced base) m
  Same-Balanced base m s same (even, settled) =
      Holds-map (Same t s) (Balanced base) m
        (λ v kept.
          let runs : v.work.runs ≡ s.work.runs = ap (λ x. x.runs) kept in
          let counter : completed t v ≡ completed t s = ap (λ x. x.count.completed) kept in
          (
            omega (arith, even, counter, ap (count_values (is_credit t)) runs),
            λ a r found. settled a r (sym (ap (lookup a) runs) ∙ found),
          ))
        same

  -- Over any sequence of the operations of the reviews and of completions, raised errors included,
  -- from a state in which a run without a result is not accounted, a topic's counter grows by the
  -- number of runs that come to be accounted to the topic.
  pub history-Balanced :
      (digest : Digest) (context : Context) (naming : Naming) (steps : List Step) (s : Logical)
      → All (Admits Nothing) steps
      → Settled s
      → completed t (history digest context naming steps s) + credits t s
        ≡ completed t s + credits t (history digest context naming steps s)
  history-Balanced digest context naming steps s admitted settled =
      (history-Holds digest context naming Nothing (Balanced s) (λ v n h. h)
        (λ _ _ never _. absurd never) (accept_body-Balanced s digest)
        (λ id version fresh v. Same-Balanced s _ v (stall_body-Same t digest id version fresh v))
        (λ episode station id now v.
          Same-Balanced s _ v (start_body-Same t context naming episode station id now v))
        (λ episode lease invocation role capability now v.
          Same-Balanced s _ v (reserve_body-Same t episode lease invocation role capability now v))
        (λ episode invocation code output result now v.
          Same-Balanced s _ v (result_body-Same t episode invocation code output result now v))
        (λ r v. Same-Balanced s _ v (finish_body-Same t context r v))
        (λ canonical p actor publisher v.
          Same-Balanced s _ v (intend_body-Same t canonical p actor publisher v))
        (λ request locks v. Same-Balanced s _ v (commit_body-Same t request locks v)) steps s
        admitted (refl, settled)).0
