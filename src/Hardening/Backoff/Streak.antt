-- ===== src/Hardening/Backoff/Streak.antt =====
-- A streak of failures under runtime/hardening/recovery_policy.py: the delays, and when the policy
-- escalates.
use ava_listener.Base.{
  leb, if◌then◌else◌, ℕ, zero, suc, ◌+◌, ◌*◌, ◌^◌, ◌≤◌, min, ◌≡◌, refl, ◌↔◌, ◌⊎◌, true, arith,
}
use native.Mathlib.Numerals.{add-one}
use ava_listener.Hardening.Backoff.{RecoveryPolicy, create, doubled, should_escalate, fail}

-- `n` failures in a row, at the clock readings that `clock` gives.
unfoldable pub streak : (clock : ℕ → ℕ) → ℕ → RecoveryPolicy → RecoveryPolicy
streak clock zero p = p
streak clock (suc n) p = (fail (clock n) (streak clock n p)).1

-- How many of the first `n` doubled delays reach the ceiling.
unfoldable pub capped : ℕ → ℕ → ℕ → ℕ
capped initial ceiling zero = 0
capped initial ceiling (suc n) =
    let rest = capped initial ceiling n in if leb ceiling (initial * 2 ^ n) then suc rest else rest

doubled-next : (i n : ℕ) {p q : ℕ} → p ≡ i → q ≡ n → doubled p (q + 1) ≡ i * 2 ^ n
doubled-next i n e f = rw (e, f, add-one) refl

module _ (max_retries initial ceiling threshold : ℕ) (clock : ℕ → ℕ) where
  abbrev after : ℕ → RecoveryPolicy
  after n = streak clock n (create max_retries initial ceiling threshold)

  record Counts (n : ℕ) (p : RecoveryPolicy) : Type 0 where
    retries : p.retries ≡ n
    total : p.total_failures ≡ n
    at_max : p.at_max_count ≡ capped initial ceiling n
    max_kept : p.max_retries ≡ max_retries
    initial_kept : p.backoff_initial ≡ initial
    ceiling_kept : p.backoff_max ≡ ceiling
    threshold_kept : p.escalation_threshold ≡ threshold

  Counts-fail : (n t : ℕ) (p : RecoveryPolicy) → Counts n p → Counts (suc n) (fail t p).1
  unfolding fail capped
  Counts-fail n t p c = ground (arith, doubled-next initial n c.initial_kept c.retries)

  Counts-after : (n : ℕ) → Counts n (after n)
  unfolding streak create capped
  Counts-after zero = ground arith
  Counts-after (suc n) = Counts-fail n (clock n) (after n) (Counts-after n)

  -- The delay of the (n + 1)-th failure in a row is the initial delay doubled n times, or the
  -- ceiling if that is less.
  pub fail-delay : (n t : ℕ) → (fail t (after n)).0 ≡ min (initial * 2 ^ n) ceiling
  unfolding fail
  fail-delay n t =
      let c = Counts-after n in rw (doubled-next initial n c.initial_kept c.retries, c.ceiling_kept)

  -- After n failures in a row the policy escalates exactly if n has reached `max_retries`, or the
  -- ceiling was met `escalation_threshold` times.
  pub should_escalate-streak :
      (n : ℕ)
      → (should_escalate (after n) ≡ true)
        ↔ ((max_retries ≤ n) ⊎ (threshold ≤ capped initial ceiling n))
  unfolding should_escalate
  should_escalate-streak n =
      (λ h. ground (arith, Counts-after n), λ h. ground (arith, Counts-after n))
