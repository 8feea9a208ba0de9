-- ===== src/Queue/Invariant/Single.antt =====
-- No history of calls makes a worker run two items.
use autonomous_research_loop.Prelude.{
  ℕ, zero, suc, String, ◌+◌, ◌≤◌, ◌≡◌, refl, ap, min, Bool, true, false, not, ◌&&◌, ◌||◌, inl, inr,
  Option, none, some, List, [], ◌∷◌, arith, ◌==◌, Bool-cases,
}
use native.Mathlib.Nat.{le_trans}
use mathlib.Core.Path.{subst}
use autonomous_research_loop.Prelude.Int.{ℤ, clamp_zero}
use autonomous_research_loop.Prelude.Lists.{
  any, count_if, insert_at, length, first, count_if-append,
}
use autonomous_research_loop.Queue.Types.{Item, State}
use autonomous_research_loop.Queue.Store.{
  ok, Ensures, Ensures-bind, Ensures-if, Ensures-option, Ensures-elim, ok-injective, Error,
  unknown_item, or_raise, guard, remove_running, duplicate_item, claimed_by_another, not_claimable,
  locked, find, modify, update, find_item,
}
use autonomous_research_loop.Queue.Transitions.{
  is_running, is_waiting, wants_running, paused_item, resumed_item, auto_resumed_item,
  restart_requested, scheduled_item,
}
use autonomous_research_loop.Queue.Finalize.{
  Outcome, other, Report, actual_outcome, apply_outcome, graceful_stop, settle, finalized,
  finalize_run,
}
use autonomous_research_loop.Queue.Operations.{
  without, move, remove, auto_resume_transient, reassign_worker, free_for,
}
use autonomous_research_loop.Queue.Add.{Addition, add, new_item, check_addition}
use autonomous_research_loop.Queue.Claim.{Request, Claim}
use autonomous_research_loop.Queue.Claim.Next.{runs_for, claim_next, claim_from, validate_lanes}
use autonomous_research_loop.Queue.Invariant.{
  count_if-modify, count_if-modify_const, count_if-map, one_if,
}
use autonomous_research_loop.Queue.Invariant.Keeps.{Holds, Keeps, locked-Keeps, Stable}
use autonomous_research_loop.Queue.Invariant.Runners.{SingleRunner, claim_from-SingleRunner}

-- A change of an item that makes no worker run it.
abbrev pub Calm : (Item → Item) → Type 0
Calm f = (w : String) (i : Item) → runs_for w (f i) ≡ true → runs_for w i ≡ true

pub SingleRunner-stable : Stable SingleRunner
SingleRunner-stable s n t h = h

pub update-single : (k : String) (f : Item → Item) → Calm f → Keeps SingleRunner (update k f)
update-single k f calm w h =
    Ensures-bind (Holds SingleRunner) (find_item w.state k) _
      λ item _ v. le_trans (count_if-modify (runs_for v) f (calm v) k w.state.items) (h v)

pub locked-update-single :
    (k : String) (f : Item → Item) (now : ℕ) → Calm f → Keeps SingleRunner (locked (update k f) now)
locked-update-single k f now calm =
    locked-Keeps SingleRunner SingleRunner-stable (update k f) now (update-single k f calm)

pub paused_item-Calm :
    (reason : Option String) (g : Bool) (now : ℕ) → Calm (paused_item reason g now)
unfolding paused_item
paused_item-Calm reason g now w i = ground arith

pub resumed_item-Calm : (now : ℕ) → Calm (resumed_item now)
unfolding resumed_item
resumed_item-Calm now w i = ground arith

pub restart_requested-Calm : (now : ℕ) → Calm (restart_requested now)
unfolding restart_requested
restart_requested-Calm now w i = ground arith

pub scheduled_item-Calm : (next now : ℕ) → Calm (scheduled_item next now)
unfolding scheduled_item
scheduled_item-Calm next now w i = ground arith

apply_outcome-stops :
    (o : Outcome) (r : Report) (i : Item)
    → Ensures (λ left. is_running left.status ≡ false) (apply_outcome o r i)
unfolding apply_outcome
apply_outcome-stops (other t) r i = tt
apply_outcome-stops _ r i = refl

graceful_stop-stops :
    (stopping : Bool) (o : Outcome) (i : Item)
    → is_running i.status ≡ false
    → is_running (graceful_stop stopping o i).1.status ≡ false
unfolding graceful_stop
graceful_stop-stops stopping o i h = ground arith

settle-stops :
    (now : ℕ) (o : Outcome) (i : Item)
    → is_running i.status ≡ false
    → is_running (settle now o i).status ≡ false
unfolding settle
settle-stops now o i h = ground arith

abbrev FinishedIdle : Outcome × Item → Type 0
FinishedIdle out = is_running out.1.status ≡ false

finalized-stops :
    (queue_paused queue_stopping : Bool) (r : Report) (now : ℕ) (i : Item)
    → Ensures FinishedIdle (finalized queue_paused queue_stopping r now i)
unfolding finalized
finalized-stops queue_paused queue_stopping r now i =
    let o = actual_outcome queue_paused i r in
    Ensures-bind FinishedIdle (apply_outcome o r i)
      (λ left.
        let (final, stopped) = graceful_stop queue_stopping o left in
        ok (final, settle now final stopped))
      λ left e.
        let stopped = graceful_stop queue_stopping o left in
        settle-stops now stopped.0 stopped.1 (
          graceful_stop-stops queue_stopping o left (
            Ensures-elim (λ l. is_running l.status ≡ false) (apply_outcome o r i)
              (apply_outcome-stops o r i) e))

idle_target :
    (i : Item)
    → guard (is_waiting i.status && wants_running i.desired_state) not_claimable ≡ ok tt
    → is_running i.status ≡ false
idle_target i h = ground arith

or_raise-eq-ok : {A : Type 0} (o : Option A) (e : Error) {a : A} → or_raise o e ≡ ok a → o ≡ some a
or_raise-eq-ok none e h = cc
or_raise-eq-ok (some a) e h = ap some (ok-injective h)

-- Writing an item that does not run over another.
put_idle-single :
    (k : String) (x : Item) (items : List Item)
    → is_running x.status ≡ false
    → ((w : String) → count_if (runs_for w) items ≤ 1)
    → (w : String) → count_if (runs_for w) (modify k (λ _. x) items) ≤ 1
put_idle-single k x items idle h w =
    ground (arith, count_if-modify_const (runs_for w) k x items, h w)

pub finalize_run-single :
    (k : String) (r : Report) (now : ℕ) → Keeps SingleRunner (finalize_run k r now)
unfolding finalize_run
finalize_run-single k r now = locked-Keeps SingleRunner SingleRunner-stable _ now λ w h.
    Ensures-bind (Holds SingleRunner) (find_item w.state k) _ λ item _.
      Ensures-bind (Holds SingleRunner) (finalized w.state.paused w.state.stopping r now item) _
        λ out e.
          put_idle-single k out.1 w.state.items
            (Ensures-elim FinishedIdle _
              (finalized-stops w.state.paused w.state.stopping r now item) e)
            h

some_eq : {A : Type 0} {a b : A} → some a ≡ some b → a ≡ b
some_eq h = cc

module _ (p : Item → Bool) where
  -- Taking out the item that `find` gives lowers a count by that item.
  count_if-without :
      (k : String) (items : List Item) (i : Item)
      → find k items ≡ some i
      → count_if p (without k items) + one_if (p i) ≡ count_if p items
  unfolding find without
  count_if-without k [] i h = cc
  count_if-without k (j ∷ js) i h = elim (Bool-cases (j.id == k)) [
    | inl e ↦
        let found : some j ≡ some i = rw e at h in
        let same : j ≡ i = some_eq found in
        rw e (
          subst (λ (x : Item). count_if p js + one_if (p x) ≡ count_if p (j ∷ js)) same
            (ground arith))
    | inr e ↦
        let found : find k js ≡ some i = rw e at h in
        rw e (ground (arith, count_if-without k js i found))
  ]

  count_if-insert_at :
      (n : ℕ) (x : Item) (items : List Item)
      → count_if p (insert_at n x items) ≡ count_if p items + one_if (p x)
  count_if-insert_at zero x items = ground arith
  count_if-insert_at (suc n) x [] = ground arith
  count_if-insert_at (suc n) x (j ∷ js) = ground (arith, count_if-insert_at n x js)

pub move-single : (k : String) (position : ℤ) (now : ℕ) → Keeps SingleRunner (move k position now)
unfolding move
move-single k position now = locked-Keeps SingleRunner SingleRunner-stable _ now λ w h.
    Ensures-bind (Holds SingleRunner) (find_item w.state k) _ λ item e v. ground (
      arith,
      h v,
      count_if-without (runs_for v) k w.state.items item
          (or_raise-eq-ok (find k w.state.items) (unknown_item k) e),
      count_if-insert_at (runs_for v) (min (clamp_zero position) (length (without k w.state.items)))
          (record item { updated_at = now }) (without k w.state.items),
    )

pub remove-single : (k : String) (now : ℕ) → Keeps SingleRunner (remove k now)
unfolding remove
remove-single k now = locked-Keeps SingleRunner SingleRunner-stable _ now λ w h.
    Ensures-bind (Holds SingleRunner) (find_item w.state k) _ λ item e.
      Ensures-bind (Holds SingleRunner) (guard (not (is_running item.status)) remove_running) _
        λ _ _ v. omega (
          arith,
          h v,
          count_if-without (runs_for v) k w.state.items item
              (or_raise-eq-ok (find k w.state.items) (unknown_item k) e),
        )

pub add-single :
    (resolve : String → String) (generated : String) (a : Addition) (now : ℕ)
    → Keeps SingleRunner (add resolve generated a now)
unfolding add new_item
add-single resolve generated a now w h =
    Ensures-bind (Holds SingleRunner) (check_addition generated a) _ λ checked _.
      let item = new_item resolve a.given checked.0 checked.1 checked.2 now in
      locked-Keeps SingleRunner SingleRunner-stable _ now
        (λ v hv.
          Ensures-bind (Holds SingleRunner {A = Item})
            (guard (not (any (λ (j : Item). j.id == checked.0) v.state.items))
              (duplicate_item checked.0))
            _ λ _ _ u. ground (arith, count_if-append (runs_for u) v.state.items (item ∷ []), hv u))
        w h

pub claim_next-single : (r : Request) → Keeps SingleRunner (claim_next r)
unfolding claim_next
claim_next-single r w h = Ensures-bind (Holds SingleRunner) (validate_lanes r.lanes) _ λ _ _.
    locked-Keeps SingleRunner SingleRunner-stable _ r.now
      (λ v hv. Ensures-bind (Holds SingleRunner) (claim_from r v.state) _ λ out e.
        Ensures-elim (λ (o : Claim × State). SingleRunner o.1) _
          (claim_from-SingleRunner r v.state hv) e)
      w h

pub auto_resume_transient-single :
    (cooldown now : ℕ) → Keeps SingleRunner (auto_resume_transient cooldown now)
unfolding auto_resume_transient auto_resumed_item
auto_resume_transient-single cooldown now =
    locked-Keeps SingleRunner SingleRunner-stable _ now λ w h.
      Ensures-if (Holds SingleRunner) (w.state.paused || w.state.stopping) _ _ (λ _. h)
        λ _ v. le_trans (count_if-map (runs_for v) _ (λ i. ground arith) w.state.items) (h v)

pub reassign_worker-single :
    (worker k : String) (now : ℕ) → Keeps SingleRunner (reassign_worker worker k now)
unfolding reassign_worker
reassign_worker-single worker k now = locked-Keeps SingleRunner SingleRunner-stable _ now λ w h.
    Ensures-bind (Holds SingleRunner) (find_item w.state k) _ λ target e.
      Ensures-bind (Holds SingleRunner)
        (guard (free_for target.claimed_by worker) claimed_by_another) _
        λ _ _.
          Ensures-bind (Holds SingleRunner)
            (guard (is_waiting target.status && wants_running target.desired_state) not_claimable) _
            λ _ g.
              Ensures-option (Holds SingleRunner) (first _ w.state.items) _ _
                (λ _. put_idle-single k _ w.state.items (idle_target target g) h)
                (λ own _. put_idle-single k _ _ (idle_target target g) λ v.
                  le_trans (count_if-modify (runs_for v) _ (λ i runs. runs) own.id w.state.items)
                    (h v))
