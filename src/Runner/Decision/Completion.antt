-- ===== src/Runner/Decision/Completion.antt =====
-- research_loops/runner.py: when an iteration completes its item, and when it is retried.
use autonomous_research_loop.Prelude.{
  ℕ, ◌+◌, ◌≤◌, ◌≡◌, ◌≢◌, refl, Bool, true, false, Option, none, some, List, [], ◌∷◌, arith, ◌⊎◌,
  inl, inr, Bool-cases, Option-cases,
}
use autonomous_research_loop.Prelude.Int.{ℤ, pos, negsuc}
use autonomous_research_loop.Queue.Types.{Item}
use autonomous_research_loop.Queue.Finalize.{Outcome}
use autonomous_research_loop.Runner.Failure.{FailureKind, retry_delay, is_success}
use autonomous_research_loop.Runner.Failure.Retry.{retry_delay-bounds}
use autonomous_research_loop.Runner.Saturation.{saturation_decision, is_nonempty}
use autonomous_research_loop.Runner.Decision.{
  Iteration, IterationResult, decide, completion_error, decide_stop, decide_return, decide_pass,
  decide_failure, blocked_this_pass, limit_or_default, failure_kind, failure_number, under,
  is_subscription_limit, honoured_stop, StopSignal,
}

-- The latest pass saturates a topic: its result is valid, it was not blocked, it left the signature
-- unchanged, and with it the streak reaches the limit.
pub record Saturates (e : Iteration) (item : Item) : Type 0 where
  pub result : IterationResult
  pub reported : e.result ≡ some result
  pub valid : result.semantic_valid ≡ true
  pub unchanged : result.signature_changed ≡ false
  pub unblocked : blocked_this_pass e ≡ false
  pub reached : limit_or_default e.saturation_limit ≤ item.saturation_streak + 1
  pub ordinary : e.checkpoint_reason ≡ none

limit_positive : (o : Option ℕ) → 1 ≤ limit_or_default o
limit_positive none = omega arith
limit_positive (some n) = ground arith

is_nonempty-false : {A : Type 0} (l : List A) → is_nonempty l ≡ false → l ≡ []
is_nonempty-false [] h = refl
is_nonempty-false (x ∷ xs) h = cc

is_success-zero : (c : ℤ) → is_success c ≡ true → c ≡ pos 0
is_success-zero (pos n) h = ground arith
is_success-zero (negsuc n) h = cc

module _ (e : Iteration) (item : Item) where
  decide_stop-completed :
      (s : StopSignal)
      → (decide_stop e s).outcome ≡ Outcome.completed
      → (s ≡ StopSignal.done)
        × (completion_error e.validation ≡ none)
        × (is_nonempty e.research_blockers ≡ false)
  unfolding decide_stop
  decide_stop-completed s h = ground arith

  decide_pass-completed :
      (r : IterationResult)
      → (decide_pass e item r).outcome ≡ Outcome.completed
      → (r.signature_changed ≡ false)
        × (blocked_this_pass e ≡ false)
        × (limit_or_default e.saturation_limit ≤ item.saturation_streak + 1)
        × (completion_error e.validation ≡ none)
        × (is_nonempty e.research_blockers ≡ false)
  unfolding decide_pass saturation_decision
  decide_pass-completed r h =
      let least = limit_positive e.saturation_limit in
      (ground arith, ground arith, ground arith, ground arith, ground arith)

  decide_return-bounded :
      e.contract_topic ≡ false
      → (decide_return e item).outcome ≡ Outcome.completed
      → is_nonempty e.research_blockers ≡ false
  unfolding decide_return
  decide_return-bounded bounded h = ground arith

  decide_return-topic :
      e.contract_topic ≡ true
      → (decide_return e item).outcome ≡ Outcome.completed
      → (r : IterationResult) × (e.result ≡ some r)
        × (r.semantic_valid ≡ true)
        × (e.checkpoint_reason ≡ none)
        × ((decide_pass e item r).outcome ≡ Outcome.completed)
  unfolding decide_return
  decide_return-topic topic h = elim (Option-cases e.result) [
    | inl missing ↦ absurd (ground (arith, missing, h, topic))
    | inr (r, found) ↦ (
      r,
      found,
      ground (arith, found, h, topic),
      ground (arith, found, h, topic),
      ground (arith, found, h, topic),
    )
  ]

decide_failure-completed :
    (e : Iteration) (current : Item) (k : FailureKind)
    → (decide_failure e current k).outcome ≢ Outcome.completed
unfolding decide_failure
decide_failure-completed e current k h = ground arith

module _ (is_word : ℕ → Bool) (e : Iteration) (item current : Item) where
  -- Which part of the decision completes an item.
  completed_by :
      (decide is_word e item current).outcome ≡ Outcome.completed
      → (e.control ≡ none)
        × (is_success e.exit_code ≡ true)
        × (((s : StopSignal) × (honoured_stop e.contract_topic e.stop_signal ≡ some s)
              × ((decide_stop e s).outcome ≡ Outcome.completed))
            ⊎ ((decide_return e item).outcome ≡ Outcome.completed))
  unfolding decide
  completed_by h = elim (Option-cases e.control) [
    | inr (c, stopped) ↦ absurd (ground (arith, stopped, h))
    | inl free ↦ elim (Bool-cases (is_success e.exit_code)) [
      | inr u ↦
          absurd (decide_failure-completed e current (failure_kind is_word e) (rw (free, u) at h))
      | inl t ↦ elim (Option-cases (honoured_stop e.contract_topic e.stop_signal)) [
        | inr (s, signal) ↦ (free, t, inl (s, signal, rw (free, t, signal) at h))
        | inl silent ↦ (free, t, inr (rw (free, t, silent) at h))
      ]
    ]
  ]

  -- An iteration completes its item only if the runner stopped it for no control, its process
  -- returned the code 0, and no research blocker is left.
  pub decide-completed :
      (decide is_word e item current).outcome ≡ Outcome.completed
      → (e.control ≡ none) × (e.exit_code ≡ pos 0) × (e.research_blockers ≡ [])
  decide-completed h =
      let (free, success, by_part) = completed_by h in
      let unblocked : is_nonempty e.research_blockers ≡ false = elim by_part [
        | inl (s, _, c) ↦ (decide_stop-completed e item s c).2
        | inr c ↦ elim (Bool-cases e.contract_topic) [
          | inl topic ↦
              let (r, _, _, _, passed) = decide_return-topic e item topic c in
              (decide_pass-completed e item r passed).4
          | inr bounded ↦ decide_return-bounded e item bounded c
        ]
      ] in
      (free, is_success-zero e.exit_code success, is_nonempty-false e.research_blockers unblocked)

  -- A contract topic is completed only by a pass that saturates it and that the validator accepts:
  -- a STOP file that claims DONE does not complete it, nor does a checkpoint.
  pub decide-saturated :
      e.contract_topic ≡ true
      → (decide is_word e item current).outcome ≡ Outcome.completed
      → Saturates e item × (completion_error e.validation ≡ none)
  decide-saturated topic h =
      let (_, _, by_part) = completed_by h in
      elim by_part [
        | inl (s, signal, c) ↦
            let (said, _, _) = decide_stop-completed e item s c in
            absurd (ground (arith, topic, signal, said))
        | inr c ↦
            let (r, found, valid, ordinary, passed) = decide_return-topic e item topic c in
            let (unchanged, unblocked, reached, accepted, _) =
              decide_pass-completed e item r passed in
            (
              record {
                result = r;
                reported = found;
                valid = valid;
                unchanged = unchanged;
                unblocked = unblocked;
                reached = reached;
                ordinary = ordinary;
              },
              accepted,
            )
      ]

decide_stop-backoff : (e : Iteration) (s : StopSignal) → (decide_stop e s).outcome ≢ Outcome.backoff
unfolding decide_stop
decide_stop-backoff e s h = ground arith

decide_return-backoff :
    (e : Iteration) (item : Item) → (decide_return e item).outcome ≢ Outcome.backoff
unfolding decide_return decide_pass saturation_decision
decide_return-backoff e item h = ground arith

decide_failure-backoff :
    (e : Iteration) (current : Item) (k : FailureKind)
    → (decide_failure e current k).outcome ≡ Outcome.backoff
    → ((is_subscription_limit k ≡ true)
        ⊎ (under (current.consecutive_failures + 1) current.max_attempts ≡ true))
      × (delay : ℕ) × ((n : ℕ) × (retry_delay k n ≡ some delay))
      × ((decide_failure e current k).next_eligible_at ≡ some (e.ended_at + delay))
unfolding decide_failure
decide_failure-backoff e current k h =
    let n = failure_number k current in
    elim (Option-cases (retry_delay k n)) [
      | inl never ↦ absurd (ground (arith, never, h))
      | inr (delay, found) ↦ elim (Bool-cases (is_subscription_limit k)) [
        | inl quota ↦ (inl quota, delay, (n, found), ground (arith, found, quota, h))
        | inr counted ↦ elim (Bool-cases (under n current.max_attempts)) [
          | inl left ↦
              (inr (rw counted at left), delay, (n, found), ground (arith, found, counted, left, h))
          | inr spent ↦ absurd (ground (arith, found, counted, spent, h))
        ]
      ]
    ]

module _ (is_word : ℕ → Bool) (e : Iteration) (item current : Item) where
  -- A failure is retried only while the attempts are not used up, unless a subscription is
  -- exhausted, and not before one minute nor later than one hour from the end of the process.
  pub decide-backoff :
      (decide is_word e item current).outcome ≡ Outcome.backoff
      → ((is_subscription_limit (failure_kind is_word e) ≡ true)
          ⊎ (under (current.consecutive_failures + 1) current.max_attempts ≡ true))
        × (next : ℕ) × ((decide is_word e item current).next_eligible_at ≡ some next)
        × (e.ended_at + 60 ≤ next)
        × (next ≤ e.ended_at + 3600)
  unfolding decide
  decide-backoff h = elim (Option-cases e.control) [
    | inr (c, stopped) ↦ absurd (ground (arith, stopped, h))
    | inl free ↦ elim (Bool-cases (is_success e.exit_code)) [
      | inr u ↦
          let k = failure_kind is_word e in
          let (attempts, delay, (n, found), due) =
            decide_failure-backoff e current k (rw (free, u) at h) in
          let (least, most) = retry_delay-bounds k n delay found in
          (
            attempts,
            e.ended_at + delay,
            ground (arith, free, u, due),
            omega (arith, least),
            omega (arith, most),
          )
      | inl t ↦ elim (Option-cases (honoured_stop e.contract_topic e.stop_signal)) [
        | inr (s, signal) ↦ absurd (decide_stop-backoff e s (rw (free, t, signal) at h))
        | inl silent ↦ absurd (decide_return-backoff e item (rw (free, t, silent) at h))
      ]
    ]
  ]
