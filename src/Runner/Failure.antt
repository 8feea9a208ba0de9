-- ===== src/Runner/Failure.antt =====
-- research_loops/runner.py: `FailureKind`, `classify_failure`, `_structured_failure_kind` and
-- `retry_delay`.
pub mod Retry
use autonomous_research_loop.Prelude.{
  ℕ, ◌-◌, ◌*◌, ◌^◌, min, max, String, Bool, true, false, ◌||◌, Option, none, some, List, ◌==◌,
  nat_beq, if◌then◌else◌,
}
use autonomous_research_loop.Prelude.Int.{ℤ, pos, negsuc}
use autonomous_research_loop.Prelude.Texts.{last_chars}
use autonomous_research_loop.Runner.Patterns.{
  Pattern, finds, subscription_limit_pattern, rate_limit_pattern, outage_pattern, auth_pattern,
  configuration_pattern,
}

-- `no_failure` is the kind `NONE`.
pub data FailureKind : Type 0 where
  no_failure subscription_limit rate_limit outage auth configuration transient : FailureKind

-- The text of a kind, its `StrEnum` value.
abbrev pub kind_text : FailureKind → String
kind_text FailureKind.no_failure = "none"
kind_text FailureKind.subscription_limit = "subscription_limit"
kind_text FailureKind.rate_limit = "rate_limit"
kind_text FailureKind.outage = "outage"
kind_text FailureKind.auth = "auth"
kind_text FailureKind.configuration = "configuration"
kind_text FailureKind.transient = "transient"

-- exit_code == 0
abbrev pub is_success : ℤ → Bool
is_success (pos n) = nat_beq n 0
is_success (negsuc n) = false

-- exit_code in _EXIT_CODE_KINDS, whose kinds are all `configuration`
abbrev pub is_mapped : ℤ → Bool
is_mapped (negsuc n) = false
is_mapped (pos n) =
    nat_beq n 3 || nat_beq n 4 || nat_beq n 64 || nat_beq n 78 || nat_beq n 126 || nat_beq n 127

-- The kind that the tail of the log names.
unfoldable pub scanned_kind : (Pattern → String → Bool) → String → FailureKind
scanned_kind search tail =
    if search subscription_limit_pattern tail
    then FailureKind.subscription_limit
    else if search rate_limit_pattern tail
    then FailureKind.rate_limit
    else if search outage_pattern tail
    then FailureKind.outage
    else if search auth_pattern tail
    then FailureKind.auth
    else if search configuration_pattern tail
    then FailureKind.configuration
    else FailureKind.transient

unfoldable pub classify_failure : (ℕ → Bool) → ℤ → String → FailureKind
unfolding scanned_kind finds
classify_failure is_word exit_code output =
    if is_success exit_code
    then FailureKind.no_failure
    else if is_mapped exit_code
    then FailureKind.configuration
    else scanned_kind (finds is_word) (last_chars 2000 output)

-- FailureKind(hint), and None for FailureKind.NONE
abbrev pub kind_of_text : String → Option FailureKind
kind_of_text hint =
    if hint == "subscription_limit"
    then some FailureKind.subscription_limit
    else if hint == "rate_limit"
    then some FailureKind.rate_limit
    else if hint == "outage"
    then some FailureKind.outage
    else if hint == "auth"
    then some FailureKind.auth
    else if hint == "configuration"
    then some FailureKind.configuration
    else if hint == "transient"
    then some FailureKind.transient
    else none

-- Seconds to wait, if the kind is one to retry.
unfoldable pub retry_delay : FailureKind → ℕ → Option ℕ
retry_delay kind consecutive_failures =
    let failures = max 1 consecutive_failures in
    elim kind [
      | FailureKind.subscription_limit ↦ some 1800
      | FailureKind.rate_limit ↦ some (min 3600 (300 * 2 ^ (failures - 1)))
      | FailureKind.outage ↦ some (min 3600 (60 * 2 ^ (failures - 1)))
      | FailureKind.transient ↦ some (min 3600 (60 * 2 ^ (failures - 1)))
      | _ ↦ none
    ]
