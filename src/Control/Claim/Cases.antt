-- ===== src/Control/Claim/Cases.antt =====
-- research_loops/control_store.py: the two ways in which `claim` ends.
use autonomous_research_loop.Prelude.{
  ℕ, String, ◌≡◌, true, false, Option, none, some, inl, inr, ◌⊎◌, arith, Bool-cases, Option-cases,
}
use autonomous_research_loop.Control.Types.{content, Desired, Logical}
use autonomous_research_loop.Control.Store.{topic_of}
use autonomous_research_loop.Control.Schedule.{key, assignment_of, is_future}
use autonomous_research_loop.Control.Claim.{
  Claimed, held_elsewhere, mint, grant, with_topic, claim_desired,
}

-- No lease is made: the records of the stations stay, and a lease that is returned is the station's.
abbrev pub Unchanged : ℕ → Logical → Option Claimed × Logical → Type 0
Unchanged n s result =
    (result.1.work.assignments ≡ s.work.assignments)
    × ((c : Claimed)
        → result.0 ≡ some c
        → (c.resumed ≡ true)
          × (content (assignment_of (key n) s.work.assignments).current ≡ some c.lease))

-- A lease of the topic that the station is to work on is made.
abbrev pub Granted : ℕ → ℕ → String → Logical → Option Claimed × Logical → Type 0
Granted n now fresh s result =
    (d : Desired) × (content (assignment_of (key n) s.work.assignments).current ≡ none)
    × (content (assignment_of (key n) s.work.assignments).desired ≡ some d)
    × (is_future (topic_of d.topic_id (with_topic d.topic_id s).work.topics).retry_not_before now
        ≡ false)
    × (held_elsewhere (key n) d.topic_id s.work.assignments ≡ false)
    × (result ≡ (
      some (record {
        lease = mint d n fresh now s (assignment_of (key n) s.work.assignments);
        resumed = false;
      }),
      grant n (mint d n fresh now s (assignment_of (key n) s.work.assignments))
          (with_topic d.topic_id s),
    ))

module _ (n now : ℕ) (fresh : String) (s : Logical) where
  pub claim_desired-cases :
      Unchanged n s (claim_desired n now fresh s)
      ⊎ Granted n now fresh s (claim_desired n now fresh s)
  unfolding claim_desired
  claim_desired-cases =
      let r = assignment_of (key n) s.work.assignments in
      elim (Option-cases (content r.current)) [
        | inr (lease, held) ↦ elim (Option-cases (content r.desired)) [
          | inl idle ↦ inl (ground (arith, held, idle), λ c h. ground (arith, held, idle, h))
          | inr (d, wanted) ↦
              inl (ground (arith, held, wanted), λ c h. ground (arith, held, wanted, h))
        ]
        | inl free ↦ elim (Option-cases (content r.desired)) [
          | inl idle ↦ inl (ground (arith, free, idle), λ c h. ground (arith, free, idle, h))
          | inr (d, wanted) ↦
              elim (Bool-cases (
                is_future
                  (topic_of d.topic_id (with_topic d.topic_id s).work.topics).retry_not_before
                  now)) [
                    | inl later ↦ inl (
                      ground (arith, free, wanted, later),
                      λ c h. ground (arith, free, wanted, later, h),
                    )
                    | inr due ↦
                        elim (Bool-cases (held_elsewhere (key n) d.topic_id s.work.assignments)) [
                          | inl taken ↦ inl (
                            ground (arith, free, wanted, due, taken),
                            λ c h. ground (arith, free, wanted, due, taken, h),
                          )
                          | inr open_topic ↦ inr (
                            d,
                            free,
                            wanted,
                            due,
                            open_topic,
                            ground (arith, free, wanted, due, open_topic),
                          )
                        ]
                  ]
        ]
      ]
