-- ===== src/Control/Machine/Outcomes.antt =====
-- research_loops/control_store.py: what holds of the outcome of an operation and of a transaction.
use mathlib.Core.Logic.{◌≢◌}
use mathlib.Core.Path.{subst, ◌≡◌}
use autonomous_research_loop.Prelude.{
  ℕ, ◌+◌, refl, ap, ◌∙◌, Bool, true, false, Option, none, some, if◌then◌else◌,
}
use autonomous_research_loop.Control.Types.{Logical, Logical-discrete}
use autonomous_research_loop.Control.Store.{
  ControlError, Outcome, raised, returned, ◌>>=◌, ◌>>◌, require, commit, transaction,
}
use autonomous_research_loop.Control.Station.{Operation}

-- An operation that raises leaves the state as it was.
abbrev pub state_after : {A : Type 0} → Outcome (A × Logical) → Logical → Logical
state_after (returned (a, s')) s = s'
state_after (raised e) s = s

-- What an operation returns beside its answer has the property, if it returns.
abbrev pub Holds : {A S : Type 0} → (S → Type 0) → Outcome (A × S) → Type 0
Holds P (returned (a, s)) = P s
Holds P (raised e) = Unit

pub Holds-after :
    {A : Type 0} (P : Logical → Type 0) (o : Outcome (A × Logical)) (s : Logical)
    → P s
    → Holds P o
    → P (state_after o s)
Holds-after P (returned (a, s')) s before after = after
Holds-after P (raised e) s before after = before

pub Holds->>= :
    {A B S : Type 0} (P : S → Type 0) (check : Outcome A) (f : A → Outcome (B × S))
    → ((a : A) → Holds P (f a))
    → Holds P (check >>= f)
Holds->>= P (returned a) f h = h a
Holds->>= P (raised e) f h = tt

-- A property that the revision has no part in passes through the commit.
Holds-commit :
    {A : Type 0} (P : Logical → Type 0) {before state : Logical} (same : Dec (state ≡ before))
    (valid : Outcome (Unit {0})) (result : A)
    → P state
    → (valid ≡ returned tt → P (record state { revision = before.revision + 1 }))
    → Holds P (commit same valid result)
Holds-commit P (yes same) valid result old new = subst P same old
Holds-commit P (no differs) (returned done) result old new = new refl
Holds-commit P (no differs) (raised e) result old new = tt

pub Holds-transaction :
    {A : Type 0} (P : Logical → Type 0) (validate : Logical → Outcome (Unit {0}))
    (body : Operation A) (s : Logical)
    → ((v : Logical) (n : ℕ) → P v → P (record v { revision = n }))
    → Holds P (body s)
    → Holds P (transaction validate body s)
unfolding transaction
Holds-transaction {A = A} P validate body s keeps after = go (body s) after
  where
    go :
        (o : Outcome (A × Logical))
        → Holds P o
        → Holds P (o >>= λ x. commit (Logical-discrete x.1 s) (validate x.1) x.0)
    go (raised e) h = tt
    go (returned x) h =
        Holds-commit P (Logical-discrete x.1 s) (validate x.1) x.0 h
          (λ valid. keeps x.1 (s.revision + 1) h)

-- A transaction leaves a valid state as it is, or writes one that it has validated.
pub transaction-valid :
    {A : Type 0} (validate : Logical → Outcome (Unit {0})) (body : Operation A) (s : Logical)
    → ((v : Logical) (n : ℕ) → validate (record v { revision = n }) ≡ validate v)
    → validate s ≡ returned tt
    → Holds (λ v. validate v ≡ returned tt) (transaction validate body s)
unfolding transaction
transaction-valid {A = A} validate body s keeps before = go (body s)
  where
    commit-valid :
        {state : Logical} (same : Dec (state ≡ s)) (a : A)
        → Holds (λ v. validate v ≡ returned tt) (commit same (validate state) a)
    commit-valid {state = state} (yes same) a = before
    commit-valid {state = state} (no differs) a = written (validate state) refl
      where
        written :
            (valid : Outcome (Unit {0}))
            → validate state ≡ valid
            → Holds (λ v. validate v ≡ returned tt) (commit (no differs) valid a)
        written (raised e) h = tt
        written (returned tt) h = keeps state (s.revision + 1) ∙ h

    go :
        (o : Outcome (A × Logical))
        → Holds
            (λ v. validate v ≡ returned tt)
            (o >>= λ x. commit (Logical-discrete x.1 s) (validate x.1) x.0)
    go (raised e) = tt
    go (returned x) = commit-valid (Logical-discrete x.1 s) x.0

pub Holds-option :
    {A B S : Type 0} (P : S → Type 0) (o : Option B) (m : Outcome (A × S)) (f : B → Outcome (A × S))
    → Holds P m
    → ((b : B) → o ≡ some b → Holds P (f b))
    → Holds P (elim o [ none ↦ m | some b ↦ f b ])
Holds-option P none m f h k = h
Holds-option P (some b) m f h k = k b refl

-- The first part of a chain that returns, returns.
pub >>=-returned :
    {A B : Type 0} {b : B} (check : Outcome A) (f : A → Outcome B)
    → check >>= f ≡ returned b
    → (a : A) × (check ≡ returned a) × (f a ≡ returned b)
>>=-returned (raised e) f h = cc
>>=-returned (returned a) f h = (a, refl, h)

-- What a transaction returns is what its body returns.
pub transaction-returned :
    {A : Type 0} (validate : Logical → Outcome (Unit {0})) (body : Operation A) (s : Logical)
    {a : A} {s' : Logical}
    → transaction validate body s ≡ returned (a, s')
    → (v : Logical) × (body s ≡ returned (a, v))
unfolding transaction
transaction-returned validate body s h =
    let ((a, v), ran, rest) = >>=-returned (body s) _ h in
    (v, ran ∙ ap (λ x. returned (x, v)) (go (Logical-discrete v s) (validate v) rest))
  where
    go :
        {A : Type 0} {before state : Logical} {a b : A} {s' : Logical} (same : Dec (state ≡ before))
        (valid : Outcome (Unit {0}))
        → commit same valid a ≡ returned (b, s')
        → a ≡ b
    go (yes same) valid h = cc
    go (no differs) (returned done) h = cc
    go (no differs) (raised e) h = cc

-- A transaction whose body changes the state to a valid one writes it with the next revision.
pub transaction-changed :
    {A : Type 0} (validate : Logical → Outcome (Unit {0})) (body : Operation A) (s v : Logical)
    (a : A)
    → body s ≡ returned (a, v)
    → v ≢ s
    → validate v ≡ returned tt
    → transaction validate body s ≡ returned (a, record v { revision = s.revision + 1 })
unfolding transaction
transaction-changed validate body s v a ran differs valid =
    rw ran (written (Logical-discrete v s) (validate v) valid)
  where
    written :
        (same : Dec (v ≡ s)) (check : Outcome (Unit {0}))
        → check ≡ returned tt
        → commit same check a ≡ returned (a, record v { revision = s.revision + 1 })
    written (yes same) check valid = absurd (differs same)
    written (no differs') check valid = rw valid refl

pub Holds-require :
    {A S : Type 0} (P : S → Type 0) (test : Bool) (e : ControlError) (rest : Outcome (A × S))
    → (test ≡ true → Holds P rest)
    → Holds P (require test e >> rest)
Holds-require P true e rest h = h refl
Holds-require P false e rest h = tt

-- A chain of two operations: what the first one returns has a property that the second one needs.
pub Holds-chain :
    {A B R S : Type 0} (Q : R → Type 0) (P : S → Type 0) (m : Outcome (A × R))
    (f : A × R → Outcome (B × S))
    → Holds Q m
    → ((a : A) (r : R) → m ≡ returned (a, r) → Q r → Holds P (f (a, r)))
    → Holds P (m >>= f)
Holds-chain Q P (raised e) f h k = tt
Holds-chain Q P (returned (a, r)) f h k = k a r refl h

pub Holds-if :
    {A S : Type 0} (P : S → Type 0) (test : Bool) (m n : Outcome (A × S))
    → (test ≡ true → Holds P m)
    → (test ≡ false → Holds P n)
    → Holds P (if test then m else n)
Holds-if P true m n h k = h refl
Holds-if P false m n h k = k refl

pub Holds-map :
    {A S : Type 0} (Q P : S → Type 0) (m : Outcome (A × S))
    → ((s : S) → Q s → P s)
    → Holds Q m
    → Holds P m
Holds-map Q P (raised e) f h = tt
Holds-map Q P (returned (a, s)) f h = f s h

-- As `Holds-option`, where both branches know what they are taken on.
pub Holds-cases :
    {A B S : Type 0} (P : S → Type 0) (o : Option B) (m : Outcome (A × S)) (f : B → Outcome (A × S))
    → (o ≡ none → Holds P m)
    → ((b : B) → o ≡ some b → Holds P (f b))
    → Holds P (elim o [ none ↦ m | some b ↦ f b ])
Holds-cases P none m f h k = h refl
Holds-cases P (some b) m f h k = k b refl

-- What an operation returns, answer and state together, has the property, if it returns.
abbrev pub Yields : {B : Type 0} → (B → Type 0) → Outcome B → Type 0
Yields P (returned b) = P b
Yields P (raised e) = Unit

pub Yields-require :
    {B : Type 0} (P : B → Type 0) (test : Bool) (e : ControlError) (rest : Outcome B)
    → (test ≡ true → Yields P rest)
    → Yields P (require test e >> rest)
Yields-require P true e rest h = h refl
Yields-require P false e rest h = tt

pub Yields-cases :
    {B C : Type 0} (P : B → Type 0) (o : Option C) (m : Outcome B) (f : C → Outcome B)
    → (o ≡ none → Yields P m)
    → ((c : C) → o ≡ some c → Yields P (f c))
    → Yields P (elim o [ none ↦ m | some c ↦ f c ])
Yields-cases P none m f h k = h refl
Yields-cases P (some c) m f h k = k c refl

pub Yields-returned :
    {B : Type 0} (P : B → Type 0) (m : Outcome B) {b : B} → Yields P m → m ≡ returned b → P b
Yields-returned P m h same = subst (Yields P) same h

-- A body that returns the state that it was given leaves the store as it is.
pub transaction-same :
    {A : Type 0} (validate : Logical → Outcome (Unit {0})) (body : Operation A) (s : Logical)
    (a : A)
    → body s ≡ returned (a, s)
    → transaction validate body s ≡ returned (a, s)
unfolding transaction
transaction-same {A = A} validate body s a ran =
    rw ran (unchanged (Logical-discrete s s) (validate s))
  where
    unchanged :
        (same : Dec (s ≡ s)) (valid : Outcome (Unit {0})) → commit same valid a ≡ returned (a, s)
    unchanged (yes same) valid = refl
    unchanged (no differs) valid = absurd (differs refl)
