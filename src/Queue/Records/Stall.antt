-- ===== src/Queue/Records/Stall.antt =====
-- research_loops/queue.py: what `stall_count` counts.
use autonomous_research_loop.Prelude.{
  ℕ, zero, suc, ◌+◌, String, ◌≡◌, ◌≢◌, ◌⊎◌, inl, inr, refl, Option, none, some, ◌==◌, arith, eq_iff,
  Bool-cases, Option-cases,
}
use autonomous_research_loop.Queue.Types.{Item}
use autonomous_research_loop.Queue.Records.{signed_item}

-- The item after `n` iterations that end with the same signature.
abbrev pub repeated : ℕ → Option String → ℕ → Item → Item
repeated zero signature now i = i
repeated (suc n) signature now i = signed_item signature now (repeated n signature now i)

-- After `n + 1` iterations in a row that end with the signature `s`, which is the item's from then
-- on, the stall count has grown by `n + 1` if the item's signature was `s` before them, and is `n` if
-- it was another text or none. An iteration that ends with no signature always sets the count to 0,
-- also after one that ended with none, and leaves the item without a signature.
pub repeated-stall_count :
    (n now : ℕ) (s : String) (i : Item)
    → (((i.progress_signature ≡ some s)
          × ((repeated (suc n) (some s) now i).stall_count ≡ i.stall_count + suc n))
        ⊎ ((i.progress_signature ≢ some s) × ((repeated (suc n) (some s) now i).stall_count ≡ n)))
      × ((repeated (suc n) (some s) now i).progress_signature ≡ some s)
      × ((repeated (suc n) none now i).stall_count ≡ 0)
      × ((repeated (suc n) none now i).progress_signature ≡ none)
unfolding signed_item
repeated-stall_count zero now s i = elim (Option-cases i.progress_signature) [
  | inl bare ↦ (inr ((λ e. ground (arith, bare, e)), ground (arith, bare)), refl, refl, refl)
  | inr (old, signed) ↦ elim (Bool-cases (s == old)) [
    | inl e ↦
        let same : s ≡ old = (eq_iff s old).0 e in
        (inl (ground (arith, signed, same), ground (arith, signed, e)), refl, refl, refl)
    | inr e ↦ (
      inr (
        (λ h. let same = (eq_iff s old).1 (ground (arith, signed, h)) in cc),
        ground (arith, signed, e),
      ),
      refl,
      refl,
      refl,
    )
  ]
]
repeated-stall_count (suc n) now s i =
    let (counted, last, reset, bare) = repeated-stall_count n now s i in
    let again = (eq_iff s s).1 refl in
    (
      elim counted [
        | inl (same, grown) ↦ inl (same, ground (arith, grown, last, again))
        | inr (other, grown) ↦ inr (other, ground (arith, grown, last, again))
      ],
      refl,
      refl,
      refl,
    )
