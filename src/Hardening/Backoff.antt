-- ===== src/Hardening/Backoff.antt =====
-- `RecoveryPolicy` of runtime/hardening/recovery_policy.py: exponential backoff for one subsystem.
-- Delays are in microseconds, where the source has milliseconds as floats.
pub mod Streak
use ava_listener.Base.{leb, if◌then◌else◌, ℕ, zero, suc, ◌+◌, ◌*◌, ◌/◌, ◌^◌, min, Bool, true}

pub record RecoveryPolicy : Type 0 where
  pub max_retries : ℕ
  pub backoff_initial : ℕ
  pub backoff_max : ℕ
  pub escalation_threshold : ℕ
  pub retries : ℕ
  pub at_max_count : ℕ
  pub last_failure_ts : ℕ
  pub total_failures : ℕ

unfoldable pub create : ℕ → ℕ → ℕ → ℕ → RecoveryPolicy
create max_retries backoff_initial backoff_max escalation_threshold = record {
  max_retries = max_retries;
  backoff_initial = backoff_initial;
  backoff_max = backoff_max;
  escalation_threshold = escalation_threshold;
  retries = 0;
  at_max_count = 0;
  last_failure_ts = 0;
  total_failures = 0;
}

unfoldable pub record_failure : ℕ → RecoveryPolicy → RecoveryPolicy
record_failure now p = record p {
  retries = p.retries + 1;
  total_failures = p.total_failures + 1;
  last_failure_ts = now;
}

-- `backoff_initial * 2 ** (retries - 1)`; before the first failure the power is 2 ** -1, a half.
abbrev pub doubled : ℕ → ℕ → ℕ
doubled initial zero = initial / 2
doubled initial (suc r) = initial * 2 ^ r

unfoldable pub next_backoff : RecoveryPolicy → ℕ × RecoveryPolicy
next_backoff p =
    let delay : ℕ = min (doubled p.backoff_initial p.retries) p.backoff_max in
    (
      delay,
      record p {
        at_max_count = if leb p.backoff_max delay then p.at_max_count + 1 else p.at_max_count;
      },
    )

unfoldable pub should_escalate : RecoveryPolicy → Bool
should_escalate p =
    if leb p.max_retries p.retries then true else leb p.escalation_threshold p.at_max_count

unfoldable pub reset : RecoveryPolicy → RecoveryPolicy
reset p = record p { retries = 0; at_max_count = 0; last_failure_ts = 0 }

-- A failure and the delay that follows it, which the callers take together.
unfoldable pub fail : ℕ → RecoveryPolicy → ℕ × RecoveryPolicy
unfolding record_failure next_backoff
fail now p = next_backoff (record_failure now p)
