-- ===== src/Control/Claim/Justified.antt =====
-- research_loops/control_store.py: the lease that `claim` makes is one that the rules allow.
use mathlib.Core.Path.{subst}
use mathlib.Core.List.{Memᴰ}
use autonomous_research_loop.Prelude.{
  ℕ, zero, suc, ◌+◌, String, ◌≡◌, refl, sym, ap, ◌∙◌, Bool, true, false, ◌||◌, Option, none, some,
  inl, inr, ◌==◌, nat_beq, ltb, arith, Option-cases, if◌then◌else◌,
}
use autonomous_research_loop.Prelude.Int.{pos, negsuc, below}
use autonomous_research_loop.Queue.Types.{Item}
use autonomous_research_loop.Control.Types.{content, Lease, Assignment, Logical}
use autonomous_research_loop.Control.Store.{returned}
use autonomous_research_loop.Control.Configuration.{validate_state}
use autonomous_research_loop.Control.Schedule.{
  key, station_ids, assignment_of, is_future, reconcile_state,
}
use autonomous_research_loop.Control.Station.{
  Reference, number, text, station_named, station_id, with_assignments, ensure_assignment,
}
use autonomous_research_loop.Control.Claim.{
  Claimed, lease_topic, generation_of, claim_desired, claim_body, claim,
}
use autonomous_research_loop.Control.Claim.Cases.{claim_desired-cases}
use autonomous_research_loop.Control.Machine.{>>=-returned, transaction-returned}
use autonomous_research_loop.Control.Records.{
  assignment_of-ensure_assignment, deal_station-current, seen-reconcile_state,
}
use autonomous_research_loop.Control.Runnable.{Runnable}
use autonomous_research_loop.Control.Runnable.Dealt.{reconcile_state-Runnable}

range-station_ids : (n : ℕ) → nat_beq n 0 ≡ false → ltb n 6 ≡ true → Memᴰ n station_ids
range-station_ids zero h k = cc
range-station_ids (suc zero) h k = Memᴰ.head refl
range-station_ids (suc (suc zero)) h k = Memᴰ.tail (Memᴰ.head refl)
range-station_ids (suc (suc (suc zero))) h k = Memᴰ.tail (Memᴰ.tail (Memᴰ.head refl))
range-station_ids (suc (suc (suc (suc zero)))) h k =
    Memᴰ.tail (Memᴰ.tail (Memᴰ.tail (Memᴰ.head refl)))
range-station_ids (suc (suc (suc (suc (suc zero))))) h k =
    Memᴰ.tail (Memᴰ.tail (Memᴰ.tail (Memᴰ.tail (Memᴰ.head refl))))
range-station_ids (suc (suc (suc (suc (suc (suc n)))))) h k = absurd (ground arith)

one_of :
    (test : Bool) (k m : ℕ) (rest : Option ℕ)
    → Memᴰ k station_ids
    → (rest ≡ some m → Memᴰ m station_ids)
    → (if test then some k else rest) ≡ some m
    → Memᴰ m station_ids
one_of true k m rest here later h = subst (λ x. Memᴰ x station_ids) (some-number h) here
  where
    some-number : {a b : ℕ} → some a ≡ some b → a ≡ b
    some-number h = cc
one_of false k m rest here later h = later h

named-station_ids : (t : String) (m : ℕ) → station_named t ≡ some m → Memᴰ m station_ids
named-station_ids t m =
    one_of (t == "1" || t == "station-1") 1 m _ (range-station_ids 1 refl refl) (
      one_of (t == "2" || t == "station-2") 2 m _ (range-station_ids 2 refl refl) (
        one_of (t == "3" || t == "station-3") 3 m _ (range-station_ids 3 refl refl) (
          one_of (t == "4" || t == "station-4") 4 m _ (range-station_ids 4 refl refl) (
            one_of (t == "5" || t == "station-5") 5 m none (range-station_ids 5 refl refl)
              λ h. cc))))

-- A station's reference names one of the five stations.
pub station_id-station_ids :
    (r : Reference) (n : ℕ) → station_id r ≡ returned n → Memᴰ n station_ids
unfolding station_id
station_id-station_ids (number (pos n)) m h =
    range-station_ids m (ground (arith, h)) (ground (arith, h))
station_id-station_ids (number (negsuc n)) m h = cc
station_id-station_ids (text t) m h = elim (Option-cases (station_named t)) [
  | inl unknown ↦ absurd (ground (arith, unknown, h))
  | inr (k, named) ↦
      subst (λ x. Memᴰ x station_ids) (ground (arith, named, h)) (named-station_ids t k named)
]

-- What a new lease rests on: the station `n` is in use and does not rest, and the lease is for a
-- runnable item and of the next generation.
pub record Justified (n now : ℕ) (s : Logical) (lease : Lease) : Type 0 where
  pub in_use : below s.configuration.active_count n ≡ false
  pub rested : is_future (assignment_of (key n) s.work.assignments).rest_until now ≡ false
  pub free : content (assignment_of (key n) s.work.assignments).current ≡ none
  pub moving : (s.queue.paused || s.queue.stopping) ≡ false
  pub item : Item
  pub runnable : Runnable now s item
  pub same_topic : lease.topic_id ≡ item.id
  pub next_generation :
      lease.lease_generation ≡ generation_of (assignment_of (key n) s.work.assignments) + 1

-- The making of a record for the station changes nothing that the rules read.
Runnable-ensure_assignment :
    (k : String) (now : ℕ) (s : Logical) (i : Item)
    → Runnable now (with_assignments (ensure_assignment k s.work.assignments) s) i
    → Runnable now s i
Runnable-ensure_assignment k now s i r = record {
  member = r.member;
  research_lane = r.research_lane;
  unheld = λ j held.
      r.unheld j (ap lease_topic (assignment_of-ensure_assignment k j s.work.assignments) ∙ held);
  ready = r.ready;
  due = r.due;
  waiting = r.waiting;
  wanted = r.wanted;
  unreviewed = r.unreviewed;
}

some-Claimed : {a b : Claimed} → some a ≡ some b → a ≡ b
some-Claimed h = cc

module _ (n now : ℕ) (fresh : String) (s : Logical) where
  claim_desired-Justified :
      (c : Claimed) (v : Logical)
      → Memᴰ n station_ids
      → below s.configuration.active_count n ≡ false
      → is_future (assignment_of (key n) s.work.assignments).rest_until now ≡ false
      → claim_desired n now fresh (reconcile_state now s) ≡ (some c, v)
      → c.resumed ≡ false
      → Justified n now s c.lease
  claim_desired-Justified c v m on rested h new =
      let before = assignment_of (key n) s.work.assignments in
      let after = assignment_of (key n) (reconcile_state now s).work.assignments in
      let same : (after.current ≡ before.current)
          × (after.lease_generation ≡ before.lease_generation) =
        (
          seen-reconcile_state (λ r. r.current)
              (λ active at topics k r is. (deal_station-current active at topics k r is).0)
              (λ r. refl) (key n) now s,
          seen-reconcile_state (λ r. r.lease_generation)
              (λ active at topics k r is. (deal_station-current active at topics k r is).1)
              (λ r. refl) (key n) now s,
        ) in
      elim (claim_desired-cases n now fresh (reconcile_state now s)) [
        | inl (_, old) ↦ absurd (ground (arith, (old c (ap (λ x. x.0) h)).0, new))
        | inr (d, free, wants, due, nowhere, made) ↦
            let (moving, (i, runs, topic, kind)) =
              reconcile_state-Runnable now s n d m free wants in
            let lease_is = some-Claimed (ap (λ x. x.0) (sym h ∙ made)) in
            record {
              in_use = on;
              rested = rested;
              free = ap content (sym same.0) ∙ free;
              moving = moving;
              item = i;
              runnable = runs;
              same_topic = ap (λ (x : Claimed). x.lease.topic_id) lease_is ∙ topic;
              next_generation =
                  ap (λ (x : Claimed). x.lease.lease_generation) lease_is
                  ∙ ap (λ g. elim g [ none ↦ 0 | some k ↦ k ] + 1) same.1;
            }
      ]

not_taken :
    (test : Bool) (s v : Logical) (rest : Option Claimed × Logical) {c : Claimed}
    → (if test then (none, s) else rest) ≡ (some c, v)
    → (test ≡ false) × (rest ≡ (some c, v))
not_taken true s v rest h = cc
not_taken false s v rest h = (refl, h)

claim_body-Justified :
    (n now : ℕ) (fresh : String) (s : Logical) (c : Claimed) (v : Logical)
    → Memᴰ n station_ids
    → claim_body n now fresh s ≡ (some c, v)
    → c.resumed ≡ false
    → Justified n now s c.lease
unfolding claim_body
claim_body-Justified n now fresh s c v m h new =
    let seated = with_assignments (ensure_assignment (key n) s.work.assignments) s in
    let same = assignment_of-ensure_assignment (key n) (key n) s.work.assignments in
    let (on, resting) = not_taken (below s.configuration.active_count n) s v _ h in
    let (rested, claimed) =
      not_taken (is_future (assignment_of (key n) seated.work.assignments).rest_until now) seated v
        _ resting in
    let j = claim_desired-Justified n now fresh seated c v m on rested claimed new in
    record {
      in_use = on;
      rested = subst (λ (r : Assignment). is_future r.rest_until now ≡ false) same rested;
      free = subst (λ (r : Assignment). content r.current ≡ none) same j.free;
      moving = j.moving;
      item = j.item;
      runnable = Runnable-ensure_assignment (key n) now s j.item j.runnable;
      same_topic = j.same_topic;
      next_generation =
          subst (λ (r : Assignment). c.lease.lease_generation ≡ generation_of r + 1) same
            j.next_generation;
    }

-- A claim that makes a new lease makes it for a station that the reference names, that is in use,
-- holds no lease and does not rest, of the station's next generation, while the queue is neither
-- paused nor stopping; and for the topic of a research item of the queue whose dependencies are
-- completed, which waits or is marked as running and is wanted, whose retry time has come and whose
-- review holds nothing up, and which no station holds a lease of.
pub claim-Justified :
    (station : Reference) (now : ℕ) (fresh : String) (s s' : Logical) (c : Claimed)
    → claim station now fresh s ≡ returned (some c, s')
    → c.resumed ≡ false
    → (n : ℕ) × (station_id station ≡ returned n) × Justified n now s c.lease
unfolding claim
claim-Justified station now fresh s s' c h new =
    let (n, named, ran) = >>=-returned (station_id station) _ h in
    let (v, body) =
      transaction-returned validate_state (λ x. returned (claim_body n now fresh x)) s ran in
    (
      n,
      named,
      claim_body-Justified n now fresh s c v (station_id-station_ids station n named)
          (returned-pair body) new,
    )
  where
    returned-pair : {a b : Option Claimed × Logical} → returned a ≡ returned b → a ≡ b
    returned-pair h = cc
