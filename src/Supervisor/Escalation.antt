-- ===== src/Supervisor/Escalation.antt =====
-- `RecoveryPolicy` of runtime/supervisor/restart_policy.py: the escalating steps of recovery and
-- their backoff.
use ava_listener.Base.{length, ℕ, zero, suc, ◌+◌, ◌-◌, min, List, [], ◌∷◌}

pub data Step : Type 0 where
  worker_restart provider_reload runtime_restart degraded_mode fatal : Step

abbrev pub steps : List Step
steps = worker_restart ∷ provider_reload ∷ runtime_restart ∷ degraded_mode ∷ fatal ∷ []

abbrev pub backoffs_ms : List ℕ
backoffs_ms = 1000 ∷ 2000 ∷ 4000 ∷ 8000 ∷ 16000 ∷ []

-- The entry at a position that is in range.
abbrev get_or {ℓ} : {A : Type ℓ} → List A → ℕ → A → A
get_or [] i d = d
get_or (x ∷ xs) zero d = x
get_or (x ∷ xs) (suc i) d = get_or xs i d

pub record RecoveryPolicy : Type 0 where
  pub failures : ℕ

abbrev pub fresh : RecoveryPolicy
fresh = record { failures = 0 }

unfoldable pub record_failure : RecoveryPolicy → RecoveryPolicy
record_failure p = record { failures = min (p.failures + 1) (length steps) }

-- `max(0, min(failures - 1, n - 1))`: with no failure yet the index is 0, as `-` stops there.
unfoldable pub current_step : RecoveryPolicy → Step
current_step p = get_or steps (min (p.failures - 1) (length steps - 1)) fatal

unfoldable pub next_backoff_ms : RecoveryPolicy → ℕ
next_backoff_ms p = get_or backoffs_ms (min (p.failures - 1) (length backoffs_ms - 1)) 0
