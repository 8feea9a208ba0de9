-- ===== src/Runner/Failure/Retry.antt =====
-- research_loops/runner.py: which failures are retried, and after how long.
use Prim.Native.Nat.pow
use autonomous_research_loop.Prelude.{
  ℕ, zero, suc, ◌+◌, ◌-◌, ◌^◌, ◌≤◌, max, String, ◌≡◌, refl, ◌↔◌, ◌⊎◌, inl, inr, Bool, true, false,
  none, some, [], ◌∷◌, arith, Bool-cases,
}
use autonomous_research_loop.Prelude.Int.{ℤ, pos, negsuc}
use autonomous_research_loop.Prelude.Lists.{All}
use autonomous_research_loop.Prelude.Texts.{last_chars}
use autonomous_research_loop.Runner.Patterns.{
  Pattern, finds, subscription_limit_pattern, rate_limit_pattern, outage_pattern, auth_pattern,
  configuration_pattern,
}
use autonomous_research_loop.Runner.Failure.{
  is_success, FailureKind, is_mapped, scanned_kind, classify_failure, retry_delay,
}

pow_positive : (n : ℕ) → 1 ≤ 2 ^ n
pow_positive zero = omega (arith, pow.zero 2)
pow_positive (suc n) = omega (arith, pow.suc 2 n, pow_positive n)

pow_grows : (n : ℕ) → 2 ^ (max 1 n - 1) ≤ 2 ^ (max 1 (n + 1) - 1)
pow_grows zero = omega arith
pow_grows (suc n) =
    let before : max 1 (suc n) - 1 ≡ n = omega arith in
    let after : max 1 (suc n + 1) - 1 ≡ suc n = omega arith in
    rw (before, after) (omega (arith, pow.suc 2 n))

-- A delay is between one minute and one hour.
pub retry_delay-bounds :
    (kind : FailureKind) (failures delay : ℕ)
    → retry_delay kind failures ≡ some delay
    → (60 ≤ delay) × (delay ≤ 3600)
unfolding retry_delay
retry_delay-bounds kind failures delay h = ground (arith, pow_positive (max 1 failures - 1))

-- A retry after one failure more does not come sooner.
pub retry_delay-monotone :
    (kind : FailureKind) (failures delay later : ℕ)
    → retry_delay kind failures ≡ some delay
    → retry_delay kind (failures + 1) ≡ some later
    → delay ≤ later
unfolding retry_delay
retry_delay-monotone kind failures delay later h k = ground (arith, h, k, pow_grows failures)

-- What the tail of the log has where a kind was read from it: its own pattern, and none that goes
-- before.
abbrev pub Read : (Pattern → Bool) → FailureKind → Type 0
Read found FailureKind.no_failure = Unit
Read found FailureKind.subscription_limit = found subscription_limit_pattern ≡ true
Read found FailureKind.rate_limit =
    (found subscription_limit_pattern ≡ false) × (found rate_limit_pattern ≡ true)
Read found FailureKind.outage =
    (found subscription_limit_pattern ≡ false)
    × (found rate_limit_pattern ≡ false)
    × (found outage_pattern ≡ true)
Read found FailureKind.auth =
    (found subscription_limit_pattern ≡ false)
    × (found rate_limit_pattern ≡ false)
    × (found outage_pattern ≡ false)
    × (found auth_pattern ≡ true)
Read found FailureKind.configuration =
    (found subscription_limit_pattern ≡ false)
    × (found rate_limit_pattern ≡ false)
    × (found outage_pattern ≡ false)
    × (found auth_pattern ≡ false)
    × (found configuration_pattern ≡ true)
Read found FailureKind.transient =
    (found subscription_limit_pattern ≡ false)
    × (found rate_limit_pattern ≡ false)
    × (found outage_pattern ≡ false)
    × (found auth_pattern ≡ false)
    × (found configuration_pattern ≡ false)

scanned_kind-Read :
    (search : Pattern → String → Bool) (tail : String)
    → Read (λ p. search p tail) (scanned_kind search tail)
unfolding scanned_kind
scanned_kind-Read search tail = elim (Bool-cases (search subscription_limit_pattern tail)) [
  | inl limit ↦ rw limit limit
  | inr e ↦ elim (Bool-cases (search rate_limit_pattern tail)) [
    | inl rate ↦ rw (e, rate) (e, rate)
    | inr f ↦ elim (Bool-cases (search outage_pattern tail)) [
      | inl outage ↦ rw (e, f, outage) (e, f, outage)
      | inr g ↦ elim (Bool-cases (search auth_pattern tail)) [
        | inl auth ↦ rw (e, f, g, auth) (e, f, g, auth)
        | inr h ↦ elim (Bool-cases (search configuration_pattern tail)) [
          | inl configured ↦ rw (e, f, g, h, configured) (e, f, g, h, configured)
          | inr i ↦ rw (e, f, g, h, i) (e, f, g, h, i)
        ]
      ]
    ]
  ]
]

-- The code is one of those that ask for an operator.
abbrev pub AsksOperator : ℤ → Type 0
AsksOperator c =
    (c ≡ pos 3) ⊎ (c ≡ pos 4) ⊎ (c ≡ pos 64) ⊎ (c ≡ pos 78) ⊎ (c ≡ pos 126) ⊎ (c ≡ pos 127)

is_mapped-AsksOperator : (c : ℤ) → is_mapped c ≡ true → AsksOperator c
is_mapped-AsksOperator (pos n) h = ground (arith, h)
is_mapped-AsksOperator (negsuc n) h = ground (arith, h)

is_success-zero : (c : ℤ) → is_success c ≡ true → c ≡ pos 0
is_success-zero (pos n) h = ground (arith, h)
is_success-zero (negsuc n) h = cc

classify_failure-no_failure :
    (is_word : ℕ → Bool) (exit_code : ℤ) (output : String)
    → classify_failure is_word exit_code output ≡ FailureKind.no_failure ↔ exit_code ≡ pos 0
unfolding classify_failure scanned_kind
classify_failure-no_failure is_word (pos n) output = (λ h. ground arith, λ e. ground arith)
classify_failure-no_failure is_word (negsuc n) output = (λ h. ground arith, λ e. ground arith)

-- A failure is classified as none for the exit code 0 alone. The exit codes 3, 4, 64, 78, 126 and
-- 127 are configuration failures whatever the log says, for which there is no delay of a retry. For
-- every code the kind is none or configuration by the code, or else it was read from the last 2000
-- characters of the log: its pattern is found there, and no pattern of a kind that goes before, in
-- the order subscription limit, rate limit, outage, auth, configuration; and transient, if none is.
pub classify_failure-codes :
    (is_word : ℕ → Bool) (exit_code : ℤ) (output : String)
    → (classify_failure is_word exit_code output ≡ FailureKind.no_failure ↔ exit_code ≡ pos 0)
      × All
          (λ c.
            (classify_failure is_word c output ≡ FailureKind.configuration)
            × ((n : ℕ) → retry_delay (classify_failure is_word c output) n ≡ none))
          (pos 3 ∷ pos 4 ∷ pos 64 ∷ pos 78 ∷ pos 126 ∷ pos 127 ∷ [])
      × ((exit_code ≡ pos 0)
          ⊎ AsksOperator exit_code
          ⊎ Read
              (λ p. finds is_word p (last_chars 2000 output))
              (classify_failure is_word exit_code output))
unfolding classify_failure scanned_kind retry_delay
classify_failure-codes is_word exit_code output = (
  classify_failure-no_failure is_word exit_code output,
  (
    (refl, λ n. refl),
    (
      (refl, λ n. refl),
      ((refl, λ n. refl), ((refl, λ n. refl), ((refl, λ n. refl), ((refl, λ n. refl), tt)))),
    ),
  ),
  elim (Bool-cases (is_success exit_code)) [
    | inl ok ↦ inl (is_success-zero exit_code ok)
    | inr failed ↦ elim (Bool-cases (is_mapped exit_code)) [
      | inl mapped ↦ inr (inl (is_mapped-AsksOperator exit_code mapped))
      | inr unmapped ↦
          inr (
            inr
              (rw (failed, unmapped) (scanned_kind-Read (finds is_word) (last_chars 2000 output))))
    ]
  ],
)
