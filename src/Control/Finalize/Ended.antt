-- ===== src/Control/Finalize/Ended.antt =====
-- research_loops/control_store.py: after `finalize` no lease of the station can be used.
use mathlib.Core.Path.{subst}
use autonomous_research_loop.Prelude.{
  ℕ, String, ◌≡◌, refl, ap, ◌∙◌, Option, none, some, [], ◌∷◌, inl, inr, ◌⊎◌, ◌==◌, arith,
  Bool-cases,
}
use autonomous_research_loop.Prelude.Int.{below}
use autonomous_research_loop.Prelude.Lists.{lookup}
use autonomous_research_loop.Control.Types.{content, Lease, Assignment, Logical}
use autonomous_research_loop.Control.Store.{
  ControlError, Outcome, raised, returned, stale_lease, capacity_disabled, lease_superseded,
  transaction,
}
use autonomous_research_loop.Control.Configuration.{validate_state}
use autonomous_research_loop.Control.Schedule.{Assignments, key, assignment_of}
use autonomous_research_loop.Control.Compact.{compact}
use autonomous_research_loop.Control.Station.{Reference, station_id}
use autonomous_research_loop.Control.Finalize.{
  update_entry, vacate, current_is, end_lease, finalize_body, finalize, confirm_body,
  confirm_launch,
}
use autonomous_research_loop.Control.Machine.{Holds, Holds-option, Holds-transaction, >>=-returned}
use autonomous_research_loop.Control.Records.{
  compact-assignments, deal_station-current, seen-reconcile_state,
}

update_entry-own :
    (k : String) (f : Assignment → Assignment) (table : Assignments)
    → (lookup k table ≡ none)
      ⊎ (assignment_of k (update_entry k f table) ≡ f (assignment_of k table))
unfolding assignment_of lookup update_entry
update_entry-own k f [] = inl refl
update_entry-own k f ((i, r) ∷ table) = elim (Bool-cases (i == k)) [
  | inl e ↦ inr (ground (arith, e))
  | inr e ↦ elim (update_entry-own k f table) [
    | inl gone ↦ inl (ground (arith, e, gone))
    | inr new ↦ inr (ground (arith, e, new))
  ]
]

nobody :
    (k lease_id : String) (table : Assignments) (l : Lease)
    → current_is lease_id (assignment_of k table) ≡ some l
    → ¬ (lookup k table ≡ none)
unfolding assignment_of
nobody k lease_id table l found gone = ground (arith, found, gone)

-- The station holds no lease.
abbrev Free : ℕ → Logical → Type 0
Free n s = content (assignment_of (key n) s.work.assignments).current ≡ none

finalize_body-Free :
    (n : ℕ) (lease_id : String) (pacing retry : Option ℕ) (now : ℕ) (s : Logical)
    → Holds (Free n) (finalize_body n lease_id pacing retry now s)
unfolding finalize_body end_lease
finalize_body-Free n lease_id pacing retry now s =
    Holds-option (Free n) (current_is lease_id (assignment_of (key n) s.work.assignments)) _ _ tt
      λ l found.
        let ended = end_lease n l pacing retry now s in
        let freed : content (assignment_of (key n) ended.work.assignments).current ≡ none =
          elim (update_entry-own (key n) (vacate pacing) s.work.assignments) [
            | inl gone ↦ absurd (nobody (key n) lease_id s.work.assignments l found gone)
            | inr new ↦ ap (λ (r : Assignment). content r.current) new
          ] in
        ap content (
          seen-reconcile_state (λ r. r.current)
            (λ active at topics k r is. (deal_station-current active at topics k r is).0)
            (λ r. refl) (key n) now (compact ended))
        ∙ (ap (λ t. content (assignment_of (key n) t).current) (compact-assignments ended) ∙ freed)

-- Whatever lease is named, a station that holds none refuses its end and its launch.
Free-refuses :
    (n : ℕ) (lease_id : String) (pacing retry : Option ℕ) (now : ℕ) (s : Logical)
    → Free n s
    → (finalize_body n lease_id pacing retry now s ≡ raised stale_lease)
      × ((e : ControlError) × (confirm_body n lease_id now s ≡ raised e))
unfolding finalize_body confirm_body
Free-refuses n lease_id pacing retry now s free = (
  ground (arith, free),
  elim (Bool-cases (below s.configuration.active_count n)) [
    | inl off ↦ (capacity_disabled, ground (arith, free, off))
    | inr on ↦ (lease_superseded, ground (arith, free, on))
  ],
)

raised-transaction :
    {A : Type 0} (body : Logical → Outcome (A × Logical)) (s : Logical) (e : ControlError)
    → body s ≡ raised e
    → transaction validate_state body s ≡ raised e
unfolding transaction
raised-transaction body s e h = rw h refl

-- Once a call has ended a station's lease, no lease, that one or another, can be ended again or
-- launched on the state that the call leaves: each such call raises, and so changes nothing.
pub finalize-ended :
    (station : Reference) (lease_id : String) (pacing retry : Option ℕ) (now : ℕ) (s s' : Logical)
    (r : Assignment)
    → finalize station lease_id pacing retry now s ≡ returned (r, s')
    → (other : String) (pacing' retry' : Option ℕ) (later : ℕ)
    → (finalize station other pacing' retry' later s' ≡ raised stale_lease)
      × ((e : ControlError) × (confirm_launch station other later s' ≡ raised e))
unfolding finalize confirm_launch
finalize-ended station lease_id pacing retry now s s' r h other pacing' retry' later =
    let (n, named, ran) = >>=-returned (station_id station) _ h in
    let after =
      Holds-transaction (Free n) validate_state (finalize_body n lease_id pacing retry now) s
        (λ v k f. f) (finalize_body-Free n lease_id pacing retry now s) in
    let free : Free n s' = subst (Holds (Free n)) ran after in
    let (stale, (e, refused)) = Free-refuses n other pacing' retry' later s' free in
    (
      rw
          (
            named,
            raised-transaction (finalize_body n other pacing' retry' later) s' stale_lease stale,
          )
          refl,
      (e, rw (named, raised-transaction (confirm_body n other later) s' e refused) refl),
    )
