-- ===== src/Queue/Claim/Promises.antt =====
-- What `claim_next` promises to its caller.
use mathlib.Core.Path.{subst}
use autonomous_research_loop.Prelude.{
  String, ◌≡◌, refl, sym, true, false, some, List, [], ◌∷◌, arith,
}
use autonomous_research_loop.Prelude.Lists.{All}
use autonomous_research_loop.Queue.Types.{Definition, Item, World}
use autonomous_research_loop.Queue.Store.{ok, ◌>>=◌, Ensures, Ensures-bind, Ensures-elim, locked}
use autonomous_research_loop.Queue.Claim.{Request, Claim, is_done, dependencies_from}
use autonomous_research_loop.Queue.Claim.Next.{claim_next, claim_from, validate_lanes}
use autonomous_research_loop.Queue.Claim.Startable.{Started, Starts}
use autonomous_research_loop.Queue.Claim.Starts.{claim_from-Starts}

abbrev StartsFrom : Request → World → Claim × World → Type 0
StartsFrom r w out = (x : Item) → out.0 ≡ some (x, false) → Started r w.state x

locked-claim-Ensures :
    (r : Request) (w : World)
    → Ensures (StartsFrom r w) (
        locked
          (λ v. do (claim, s) ← claim_from r v.state; ok (claim, record v { state = s }))
          r.now
          w)
unfolding locked
locked-claim-Ensures r w =
    Ensures-bind (StartsFrom r w)
      (do (claim, s) ← claim_from r w.state; ok (claim, record w { state = s })) _
      λ out e x h.
        Ensures-elim (StartsFrom r w)
          (do (claim, s) ← claim_from r w.state; ok (claim, record w { state = s }))
          (Ensures-bind (StartsFrom r w) (claim_from r w.state) _ λ found f.
            Ensures-elim (Starts r w.state) (claim_from r w.state) (claim_from-Starts r w.state) f)
          e x h

claim_next-Ensures : (r : Request) (w : World) → Ensures (StartsFrom r w) (claim_next r w)
unfolding claim_next
claim_next-Ensures r w =
    Ensures-bind (StartsFrom r w) (validate_lanes r.lanes) _ λ _ _. locked-claim-Ensures r w

-- An item that a claim starts stood in the queue: it waited to run, in a lane that the worker
-- serves, with its dependencies completed and room in its lane, and it was held by nobody, by the
-- worker, or by a station with a longer interval. It runs now for the worker, as one attempt more.
pub claim_next-Started :
    (r : Request) (w w' : World) (x : Item)
    → claim_next r w ≡ ok (some (x, false), w')
    → Started r w.state x
claim_next-Started r w w' x h =
    Ensures-elim (StartsFrom r w) (claim_next r w) (claim_next-Ensures r w) h x refl

dependencies_done :
    (items : List Item) (id : String) (ds : List String)
    → dependencies_from items id ds ≡ ok true
    → All (λ d. is_done items d ≡ some true) ds
unfolding dependencies_from
dependencies_done items id [] h = tt
dependencies_done items id (d ∷ ds) h = (ground arith, dependencies_done items id ds (ground arith))

-- An item is started only when the items that it depends on are all in the queue and completed.
pub claim_next-dependencies :
    (r : Request) (w w' : World) (x : Item)
    → claim_next r w ≡ ok (some (x, false), w')
    → All (λ d. is_done w.state.items d ≡ some true) x.depends_on
claim_next-dependencies r w w' x h =
    let s = claim_next-Started r w w' x h in
    subst (λ (d : Definition). All (λ k. is_done w.state.items k ≡ some true) d.depends_on)
      (sym s.same_definition)
      (dependencies_done w.state.items s.before.id s.before.depends_on s.startable.ready)
