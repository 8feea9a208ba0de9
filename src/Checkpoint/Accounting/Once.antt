-- ===== src/Checkpoint/Accounting/Once.antt =====
-- research_loops/checkpoints/service.py: a completion is accounted for once.
use mathlib.Core.Path.{subst}
use mathlib.Core.Option.{some-injective}
use autonomous_research_loop.Prelude.{
  ℕ, String, ◌≡◌, refl, sym, ap, ◌∙◌, false, not, ◌||◌, none, some, List, arith, ◌==◌, eq_iff, inl,
  inr, ◌⊎◌, Bool-cases,
}
use autonomous_research_loop.Prelude.Lists.{All, lookup, lookup-insert}
use autonomous_research_loop.Control.Types.{Accounting, Run, Logical}
use autonomous_research_loop.Control.Store.{
  Outcome, returned, transaction, duplicate_request_conflict, revision_conflict,
}
use autonomous_research_loop.Control.Configuration.{blank, validate_state}
use autonomous_research_loop.Control.Machine.{
  Holds, Holds-cases, Holds-require, Holds-map, Holds-transaction, >>=-returned,
  transaction-returned, transaction-same, Yields, Yields-require, Yields-cases, Yields-returned,
}
use autonomous_research_loop.Checkpoint.Completion.{
  Digest, Completion, account, has_pruned, is_present, current_lease, require_string, accept_body,
  accept_research_completion,
}
use autonomous_research_loop.Checkpoint.Review.{Context, Naming}
use autonomous_research_loop.Checkpoint.Machine.{Step, Nothing, Admits, history, history-Holds}
use autonomous_research_loop.Checkpoint.Accounting.Unrelated.{
  Same, stall_body-Same, start_body-Same, reserve_body-Same, result_body-Same, finish_body-Same,
  intend_body-Same, commit_body-Same,
}
use autonomous_research_loop.Checkpoint.Accounting.Counted.{Effect, account-Effect}

-- What an acceptance leaves: the state as it was, or an effect on a run without a result.
abbrev pub Accepts : Completion → Logical → Logical → Type 0
Accepts c s v =
    (v ≡ s)
    ⊎ ((x : Accounting × Logical) × Effect c s x
        × (x.1 ≡ v)
        × ((r : Run) → lookup c.run_id s.work.runs ≡ some r → r.accounting_result ≡ none))

pub accept_body-Accepts :
    (digest : Digest) (c : Completion) (fresh : String) (now : ℕ) (s : Logical)
    → Holds (Accepts c s) (accept_body digest c fresh now s)
unfolding accept_body
accept_body-Accepts digest c fresh now s =
    Holds-cases (Accepts c s) (lookup c.run_id s.work.runs) _ _
      (λ unknown.
        Holds-require (Accepts c s)
          (not (has_pruned c.topic_id s.work)
            || is_present (current_lease c.topic_id c.run_id s.work))
          revision_conflict _
          λ _. inr (
            account digest c none fresh now s,
            account-Effect digest c none fresh now s,
            refl,
            λ r known. absurd (ground (arith, unknown, known)),
          ))
      λ r known.
        Holds-require (Accepts c s) (r.topic_id == c.topic_id) duplicate_request_conflict _ λ _.
          Holds-cases (Accepts c s) r.accounting_result _ _
            (λ open_run. Holds-require (Accepts c s) (r.state == "started") revision_conflict _ λ _.
              inr (
                account digest c (some r) fresh now s,
                account-Effect digest c (some r) fresh now s,
                refl,
                λ q known'.
                    subst (λ x. x.accounting_result ≡ none)
                      (some-injective r q (sym known ∙ known')) open_run,
              ))
            λ result _. inl refl

-- The run of the topic is in the ledger with this result.
abbrev Recorded : String → String → Accounting → Logical → Type 0
Recorded run topic a s =
    (r : Run) × (lookup run s.work.runs ≡ some r)
    × (r.topic_id ≡ topic)
    × (r.accounting_result ≡ some a)

Effect-Recorded :
    (c : Completion) (s : Logical) (x : Accounting × Logical)
    → Effect c s x
    → Recorded c.run_id c.topic_id x.0 x.1
Effect-Recorded c s x effect = (
  effect.run,
  ap (lookup c.run_id) effect.written
      ∙ lookup-insert c.run_id c.run_id effect.run s.work.runs
      ∙ rw ((eq_iff c.run_id c.run_id).1 refl) refl,
  effect.topic,
  effect.result,
)

-- What a body returns is on record in the state that it leaves.
accept_body-Recorded :
    (digest : Digest) (c : Completion) (fresh : String) (now : ℕ) (s : Logical)
    → Yields (λ x. Recorded c.run_id c.topic_id x.0 x.1) (accept_body digest c fresh now s)
unfolding accept_body
accept_body-Recorded digest c fresh now s =
    let P = λ (x : Accounting × Logical). Recorded c.run_id c.topic_id x.0 x.1 in
    Yields-cases P (lookup c.run_id s.work.runs) _ _
      (λ unknown.
        Yields-require P
          (not (has_pruned c.topic_id s.work)
            || is_present (current_lease c.topic_id c.run_id s.work))
          revision_conflict _ λ _. Effect-Recorded c s _ (account-Effect digest c none fresh now s))
      λ r known. Yields-require P (r.topic_id == c.topic_id) duplicate_request_conflict _ λ own.
        Yields-cases P r.accounting_result _ _
          (λ open_run.
            Yields-require P (r.state == "started") revision_conflict _
              λ _. Effect-Recorded c s _ (account-Effect digest c (some r) fresh now s))
          λ result has. (r, known, (eq_iff r.topic_id c.topic_id).0 own, has)

-- A run on record is answered from the record.
accept_body-replays :
    (digest : Digest) (c : Completion) (fresh : String) (now : ℕ) (a : Accounting) (s : Logical)
    → Recorded c.run_id c.topic_id a s
    → accept_body digest c fresh now s ≡ returned (a, s)
unfolding accept_body
accept_body-replays digest c fresh now a s (r, known, own, has) =
    rw (accept_body, known, (eq_iff r.topic_id c.topic_id).1 own, has) refl

module _ (run topic : String) (a : Accounting) where
  -- The operations of the reviews, other completions among them, leave what is on record.
  accept_body-keeps :
      (digest : Digest) (c : Completion) (fresh : String) (now : ℕ) (s : Logical)
      → Recorded run topic a s
      → Holds (Recorded run topic a) (accept_body digest c fresh now s)
  accept_body-keeps digest c fresh now s (r, known, own, has) =
      Holds-map (Accepts c s) (Recorded run topic a) (accept_body digest c fresh now s)
        (λ v accepts. elim accepts [
          | inl same ↦ subst (Recorded run topic a) (sym same) (r, known, own, has)
          | inr (x, effect, here, new) ↦
              subst (Recorded run topic a) here (elim (Bool-cases (c.run_id == run)) [
                | inl e ↦ absurd (ground (arith, new r (rw ((eq_iff c.run_id run).0 e) known), has))
                | inr e ↦ (
                  r,
                  ap (lookup run) effect.written
                      ∙ lookup-insert c.run_id run effect.run s.work.runs
                      ∙ rw e known,
                  own,
                  has,
                )
              ])
        ])
        (accept_body-Accepts digest c fresh now s)

  Same-Recorded :
      {A : Type 0} (m : Outcome (A × Logical)) (s : Logical)
      → Holds (Same "" s) m
      → Recorded run topic a s
      → Holds (Recorded run topic a) m
  Same-Recorded m s same (r, known, own, has) =
      Holds-map (Same "" s) (Recorded run topic a) m
        (λ v kept. (r, ap (λ x. lookup run x.runs) kept ∙ known, own, has)) same

  history-Recorded :
      (digest : Digest) (context : Context) (naming : Naming) (steps : List Step) (s : Logical)
      → All (Admits Nothing) steps
      → Recorded run topic a s
      → Recorded run topic a (history digest context naming steps s)
  history-Recorded digest context naming steps s =
      history-Holds digest context naming Nothing (Recorded run topic a) (λ v n h. h)
        (λ _ _ never _. absurd never) (accept_body-keeps digest)
        (λ id version fresh v. Same-Recorded _ v (stall_body-Same "" digest id version fresh v))
        (λ episode station id now v.
          Same-Recorded _ v (start_body-Same "" context naming episode station id now v))
        (λ episode lease invocation role capability now v.
          Same-Recorded _ v (reserve_body-Same "" episode lease invocation role capability now v))
        (λ episode invocation code output result now v.
          Same-Recorded _ v (result_body-Same "" episode invocation code output result now v))
        (λ r v. Same-Recorded _ v (finish_body-Same "" context r v))
        (λ canonical p actor publisher v.
          Same-Recorded _ v (intend_body-Same "" canonical p actor publisher v))
        (λ request locks v. Same-Recorded _ v (commit_body-Same "" request locks v)) steps s

-- The call comes to its transaction where its texts are not blank.
checked :
    (digest : Digest) (c : Completion) (fresh : String) (now : ℕ) (s : Logical)
    → require_string c.topic_id ≡ returned tt
    → require_string c.run_id ≡ returned tt
    → require_string c.inventory_version ≡ returned tt
    → accept_research_completion digest c fresh now s
      ≡ transaction validate_state (accept_body digest c fresh now) s
unfolding accept_research_completion
checked digest c fresh now s topic run version = rw (topic, run, version) refl

-- Once a completion has returned a result, then after any operations of the reviews, other
-- completions among them, a completion of the same run and topic, whatever else it says if its
-- inventory version is not blank, returns that result and changes nothing.
pub accept_research_completion-once :
    (digest : Digest) (context : Context) (naming : Naming) (c c' : Completion)
    (fresh fresh' : String) (now now' : ℕ) (s v : Logical) (a : Accounting) (steps : List Step)
    → accept_research_completion digest c fresh now s ≡ returned (a, v)
    → c'.run_id ≡ c.run_id
    → c'.topic_id ≡ c.topic_id
    → blank c'.inventory_version ≡ false
    → All (Admits Nothing) steps
    → accept_research_completion digest c' fresh' now' (history digest context naming steps v)
      ≡ returned (a, history digest context naming steps v)
unfolding accept_research_completion
accept_research_completion-once digest context naming c c' fresh fresh' now now' s v a steps first
      run topic version admitted =
    let (_, topic_given, rest) = >>=-returned (require_string c.topic_id) _ first in
    let (_, run_given, rest') = >>=-returned (require_string c.run_id) _ rest in
    let (_, _, ran) = >>=-returned (require_string c.inventory_version) _ rest' in
    let body = accept_body digest c fresh now in
    let (u, returns) = transaction-returned validate_state body s ran in
    let recorded =
      Yields-returned (λ x. Recorded c.run_id c.topic_id x.0 x.1) (body s)
        (accept_body-Recorded digest c fresh now s) returns in
    let written : Recorded c.run_id c.topic_id a v =
      subst (Holds (Recorded c.run_id c.topic_id a)) ran (
        Holds-transaction (Recorded c.run_id c.topic_id a) validate_state body s (λ w n h. h)
          (subst (Holds (Recorded c.run_id c.topic_id a)) (sym returns) recorded)) in
    let w = history digest context naming steps v in
    let later =
      history-Recorded c.run_id c.topic_id a digest context naming steps v admitted written in
    let again =
      transaction-same validate_state (accept_body digest c' fresh' now') w a
        (accept_body-replays digest c' fresh' now' a w (rw (run, topic) later)) in
    checked digest c' fresh' now' w (ap require_string topic ∙ topic_given)
      (ap require_string run ∙ run_given) (rw version refl)
    ∙ again
