-- ===== src/Checkpoint/Machine.antt =====
-- research_loops/checkpoints/service.py: the ledger as a machine that any sequence of its operations
-- and of the scheduler's drives.
use autonomous_research_loop.Prelude.{ℕ, String, Option, List, [], ◌∷◌}
use autonomous_research_loop.Prelude.Int.{ℤ}
use autonomous_research_loop.Prelude.Lists.{All, lookup}
use autonomous_research_loop.Control.Proposals.{CheckpointResult}
use autonomous_research_loop.Control.Types.{DelegateResult, Logical}
use autonomous_research_loop.Control.Store.{raised, transaction, validation_error}
use autonomous_research_loop.Control.Configuration.{validate_state}
use autonomous_research_loop.Control.Machine.{
  Action, exec, state_after, Holds, Holds-after, Holds->>=, Holds-transaction, Holds-option,
}
use autonomous_research_loop.Control.Station.{Operation}
use autonomous_research_loop.Checkpoint.Completion.{
  Digest, Completion, require_string, accept_body, accept_research_completion, stall_body,
  trigger_stall_checkpoint,
}
use autonomous_research_loop.Checkpoint.Delegate.{
  role_named, reserve_body, reserve_delegate_launch, result_body, record_delegate_result,
}
use autonomous_research_loop.Checkpoint.Result.{validate_checkpoint_result}
use autonomous_research_loop.Checkpoint.Review.{
  Context, Naming, start_body, start_checkpoint, finish_body, finish_checkpoint,
}
use autonomous_research_loop.Checkpoint.Decision.{
  Payload, Publisher, intend_body, publish, commit_body, complete_publication,
}
use autonomous_research_loop.Control.Types.{Role}

-- An operation with its arguments. A decision is two steps, the intent and its publication, between
-- which the code holds no transaction.
pub data Step : Type 0 where
  scheduling : Action → Step
  accepting : Completion → String → ℕ → Step
  stalling : String → String → String → Step
  starting : String → ℕ → String → ℕ → Step
  reserving : String → String → String → String → Option String → ℕ → Step
  recording : String → String → ℤ → Option String → Option DelegateResult → ℕ → Step
  finishing : CheckpointResult → Step
  intending : String → Payload → String → Option Publisher → Step
  publishing : String → Option Publisher → Step

-- The steps in which the scheduler does only what is allowed.
abbrev pub Admits : (Action → Type 0) → Step → Type 0
Admits Allowed (scheduling a) = Allowed a
Admits Allowed _ = Unit

abbrev pub Anything : Action → Type 0
Anything a = Unit

-- No operation of the scheduler.
abbrev pub Nothing : Action → Type 0
Nothing a = ⊥

pub All-Admits : (steps : List Step) → All (Admits Anything) steps
All-Admits [] = tt
All-Admits (scheduling a ∷ steps) = (tt, All-Admits steps)
All-Admits (accepting c fresh now ∷ steps) = (tt, All-Admits steps)
All-Admits (stalling topic version fresh ∷ steps) = (tt, All-Admits steps)
All-Admits (starting episode station run now ∷ steps) = (tt, All-Admits steps)
All-Admits (reserving episode lease invocation role capability now ∷ steps) = (tt, All-Admits steps)
All-Admits (recording episode invocation code output result now ∷ steps) = (tt, All-Admits steps)
All-Admits (finishing r ∷ steps) = (tt, All-Admits steps)
All-Admits (intending canonical p actor publisher ∷ steps) = (tt, All-Admits steps)
All-Admits (publishing request publisher ∷ steps) = (tt, All-Admits steps)

module _ (digest : Digest) (context : Context) (naming : Naming) where
  unfoldable pub step : Step → Logical → Logical
  unfolding exec accept_research_completion trigger_stall_checkpoint start_checkpoint
      reserve_delegate_launch record_delegate_result finish_checkpoint transaction validate_state
      intend_body complete_publication
  step (scheduling a) s = exec a s
  step (accepting c fresh now) s = state_after (accept_research_completion digest c fresh now s) s
  step (stalling topic version fresh) s =
      state_after (trigger_stall_checkpoint digest topic version fresh s) s
  step (starting episode station run now) s =
      state_after (start_checkpoint context naming episode station run now s) s
  step (reserving episode lease invocation role capability now) s =
      state_after (reserve_delegate_launch episode lease invocation role capability now s) s
  step (recording episode invocation code output result now) s =
      state_after (record_delegate_result episode invocation code output result now s) s
  step (finishing r) s = state_after (finish_checkpoint context r s) s
  step (intending canonical p actor publisher) s =
      state_after (transaction validate_state (intend_body canonical p actor publisher) s) s
  step (publishing request publisher) s = state_after (complete_publication request publisher s) s

  unfoldable pub history : List Step → Logical → Logical
  unfolding step
  history [] s = s
  history (a ∷ as') s = history as' (step a s)

  -- A property that each body keeps, and in which the revision has no part, holds of a history.
  module _ (Allowed : Action → Type 0) (P : Logical → Type 0)
      (keeps : (v : Logical) (n : ℕ) → P v → P (record v { revision = n }))
      (schedules : (a : Action) (s : Logical) → Allowed a → P s → P (exec a s))
      (accepts : (c : Completion) (fresh : String) (now : ℕ) (s : Logical)
        → P s
        → Holds P (accept_body digest c fresh now s))
      (stalls : (topic version fresh : String) (s : Logical)
        → P s
        → Holds P (stall_body digest topic version fresh s))
      (starts : (episode : String) (station : ℕ) (run : String) (now : ℕ) (s : Logical)
        → P s
        → Holds P (start_body context naming episode station run now s))
      (reserves : (episode lease invocation : String) (role : Role) (capability : Option String)
          (now : ℕ) (s : Logical)
        → P s
        → Holds P (reserve_body episode lease invocation role capability now s))
      (records : (episode invocation : String) (code : ℤ) (output : Option String)
          (result : Option DelegateResult) (now : ℕ) (s : Logical)
        → P s
        → Holds P (result_body episode invocation code output result now s))
      (finishes : (r : CheckpointResult) (s : Logical) → P s → Holds P (finish_body context r s))
      (intends : (canonical : String) (p : Payload) (actor : String) (publisher : Option Publisher)
          (s : Logical)
        → P s
        → Holds P (intend_body canonical p actor publisher s))
      (commits : (request : String) (locks : List String) (s : Logical)
        → P s
        → Holds P (commit_body request locks s)) where
    in_transaction :
        {A : Type 0} (body : Operation A) (s : Logical)
        → Holds P (body s)
        → Holds P (transaction validate_state body s)
    in_transaction body s = Holds-transaction P validate_state body s keeps

    step-Holds : (a : Step) (s : Logical) → Admits Allowed a → P s → P (step a s)
    unfolding step accept_research_completion trigger_stall_checkpoint start_checkpoint
        reserve_delegate_launch record_delegate_result finish_checkpoint complete_publication
    step-Holds (scheduling a) s may h = schedules a s may h
    step-Holds (accepting c fresh now) s may h =
        Holds-after P (accept_research_completion digest c fresh now s) s h (
          Holds->>= P (require_string c.topic_id) _ λ _.
            Holds->>= P (require_string c.run_id) _ λ _.
              Holds->>= P (require_string c.inventory_version) _
                λ _. in_transaction (accept_body digest c fresh now) s (accepts c fresh now s h))
    step-Holds (stalling topic version fresh) s may h =
        Holds-after P (trigger_stall_checkpoint digest topic version fresh s) s h (
          Holds->>= P (require_string topic) _ λ _. Holds->>= P (require_string version) _ λ _.
            in_transaction (stall_body digest topic version fresh) s
              (stalls topic version fresh s h))
    step-Holds (starting episode station run now) s may h =
        Holds-after P (start_checkpoint context naming episode station run now s) s h (
          in_transaction (start_body context naming episode station run now) s
            (starts episode station run now s h))
    step-Holds (reserving episode lease invocation role capability now) s may h =
        Holds-after P (reserve_delegate_launch episode lease invocation role capability now s) s h (
          Holds->>= P (require_string episode) _ λ _. Holds->>= P (require_string lease) _ λ _.
            Holds->>= P (require_string invocation) _ λ _. Holds->>= P _ _ λ _.
              Holds-option P (role_named role) (raised validation_error) _ tt λ r _.
                in_transaction (reserve_body episode lease invocation r capability now) s
                  (reserves episode lease invocation r capability now s h))
    step-Holds (recording episode invocation code output result now) s may h =
        Holds-after P (record_delegate_result episode invocation code output result now s) s h (
          in_transaction (result_body episode invocation code output result now) s
            (records episode invocation code output result now s h))
    step-Holds (finishing r) s may h = Holds-after P (finish_checkpoint context r s) s h (
        Holds->>= P (validate_checkpoint_result r) _
          λ _. in_transaction (finish_body context r) s (finishes r s h))
    step-Holds (intending canonical p actor publisher) s may h =
        Holds-after P (transaction validate_state (intend_body canonical p actor publisher) s) s h (
          in_transaction (intend_body canonical p actor publisher) s
            (intends canonical p actor publisher s h))
    step-Holds (publishing request publisher) s may h =
        Holds-after P (complete_publication request publisher s) s h (
          Holds-option P (lookup request s.work.decision_publications) (raised validation_error) _
            tt
            λ intent _.
              Holds-option P (lookup request s.work.decisions) _ _
                (Holds->>= P (publish intent.prepared publisher) _
                  λ locks. in_transaction (commit_body request locks) s (commits request locks s h))
                λ d _. h)

    pub history-Holds :
        (steps : List Step) (s : Logical) → All (Admits Allowed) steps → P s → P (history steps s)
    unfolding history
    history-Holds [] s may h = h
    history-Holds (a ∷ as') s (may, rest) h =
        history-Holds as' (step a s) rest (step-Holds a s may h)
