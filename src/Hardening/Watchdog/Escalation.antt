-- ===== src/Hardening/Watchdog/Escalation.antt =====
-- When the watchdog of runtime/supervisor/watchdog.py escalates, and when it cannot.
use ava_listener.Base.{
  length, All, ℕ, ◌+◌, ◌≤◌, ◌<◌, String, ◌≡◌, refl, ap, ◌∙◌, ◌⊎◌, inl, inr, true, false, List, [],
  ◌∷◌, arith,
}
use ava_listener.Hardening.Faults.{classify_watchdog_trigger}
use ava_listener.Hardening.Backoff.{fail, should_escalate, reset}
use ava_listener.Hardening.Watchdog.{
  Watchdog, Attempt, recover_stream, init, is_critical_fault, reset_recovery_state,
}
use ava_listener.Hardening.Watchdog.Spacing.{Request, run}

-- The state between two attempts while every reset returns.
record IsCalm (w : Watchdog) : Type 0 where
  no_retries : w.recovery_policy.retries ≡ 0
  none_at_max : w.recovery_policy.at_max_count ≡ 0
  not_escalated : w.escalated ≡ false
  max_kept : w.recovery_policy.max_retries ≡ 8
  initial_kept : w.recovery_policy.backoff_initial ≡ 100000
  ceiling_kept : w.recovery_policy.backoff_max ≡ 8000000
  threshold_kept : w.recovery_policy.escalation_threshold ≡ 4

-- The reset returns, and its reason is not one of the critical ones.
abbrev pub Succeeds : Request → Type 0
Succeeds q =
    (q.attempt.reset_returns ≡ true) × (is_critical_fault (classify_watchdog_trigger q.why) ≡ false)

recover_stream-IsCalm :
    (w : Watchdog) (q : Request)
    → IsCalm w
    → Succeeds q
    → IsCalm (recover_stream q.why q.attempt w).0
unfolding recover_stream fail should_escalate reset
recover_stream-IsCalm w q h s = ground arith

run-IsCalm : (w : Watchdog) (qs : List Request) → IsCalm w → All Succeeds qs → IsCalm (run w qs)
unfolding run
run-IsCalm w [] h s = h
run-IsCalm w (q ∷ qs) h s =
    run-IsCalm (recover_stream q.why q.attempt w).0 qs (recover_stream-IsCalm w q h s.0) s.1

-- While every reset returns, for reasons that are not critical, the watchdog never escalates,
-- however often it resets the stream, and the count of retries stands at 0: the next delay is
-- always the first one.
pub run-never_escalates :
    (qs : List Request)
    → All Succeeds qs
    → ((run init qs).escalated ≡ false) × ((run init qs).recovery_policy.retries ≡ 0)
run-never_escalates qs s =
    let c = run-IsCalm init qs (unfold init in ground arith) s in (c.not_escalated, c.no_retries)

recover_stream-escalated :
    (why : String) (a : Attempt) (w : Watchdog)
    → w.escalated ≡ true
    → (recover_stream why a w).0 ≡ w
unfolding recover_stream
recover_stream-escalated why a w h = ground arith

run-escalated_same : (w : Watchdog) (qs : List Request) → w.escalated ≡ true → run w qs ≡ w
unfolding run
run-escalated_same w [] h = refl
run-escalated_same w (q ∷ qs) h =
    ap (λ v. run v qs) (recover_stream-escalated q.why q.attempt w h) ∙ run-escalated_same w qs h

-- An escalated watchdog resets nothing and does not change, until `reset_recovery_state`, which
-- opens the gate at once.
pub run-escalated :
    (w : Watchdog) (qs : List Request)
    → w.escalated ≡ true
    → (run w qs ≡ w)
      × ((reset_recovery_state (run w qs)).escalated ≡ false)
      × ((reset_recovery_state (run w qs)).next_allowed_reset ≡ 0)
unfolding reset_recovery_state
run-escalated w qs h = (run-escalated_same w qs h, refl, refl)

-- Every reset raises, and comes at least 8 seconds after the attempt before it.
abbrev pub FailsFrom : ℕ → List Request → Type 0
FailsFrom from [] = Unit
FailsFrom from (q ∷ qs) =
    (from ≤ q.attempt.now)
    × (q.attempt.reset_returns ≡ false)
    × FailsFrom (q.attempt.now + 8000000) qs

-- Not yet escalated, and ready for an attempt at `from`.
record IsFailing (from : ℕ) (w : Watchdog) : Type 0 where
  some_left : w.recovery_policy.retries < 8
  open_gate : w.next_allowed_reset ≤ from
  not_escalated : w.escalated ≡ false
  max_kept : w.recovery_policy.max_retries ≡ 8
  ceiling_kept : w.recovery_policy.backoff_max ≡ 8000000

fail-IsFailing :
    (from : ℕ) (w : Watchdog) (q : Request)
    → IsFailing from w
    → from ≤ q.attempt.now
    → q.attempt.reset_returns ≡ false
    → ((recover_stream q.why q.attempt w).0.escalated ≡ true)
      ⊎ IsFailing (q.attempt.now + 8000000) (recover_stream q.why q.attempt w).0
        × ((recover_stream q.why q.attempt w).0.recovery_policy.retries
            ≡ w.recovery_policy.retries + 1)
unfolding recover_stream fail should_escalate
fail-IsFailing from w q h f r = ground arith

run-IsFailing :
    (from : ℕ) (w : Watchdog) (qs : List Request)
    → IsFailing from w
    → FailsFrom from qs
    → 8 ≤ w.recovery_policy.retries + length qs
    → (run w qs).escalated ≡ true
unfolding run
run-IsFailing from w [] h f n = absurd (omega arith)
run-IsFailing from w (q ∷ qs) h f n = elim (fail-IsFailing from w q h f.0 f.1) [
  | inl e ↦ ap (λ v. v.escalated) (run-escalated_same (recover_stream q.why q.attempt w).0 qs e) ∙ e
  | inr (k, r) ↦
      run-IsFailing (q.attempt.now + 8000000) (recover_stream q.why q.attempt w).0 qs k f.2
        (omega arith)
]

-- A new watchdog whose resets all raise, each attempt at least 8 seconds after the one before,
-- has escalated after 8 attempts, whatever their reasons.
pub run-escalates :
    (qs : List Request) → FailsFrom 0 qs → 8 ≤ length qs → (run init qs).escalated ≡ true
unfolding init
run-escalates qs f n = run-IsFailing 0 init qs (ground arith) f (omega arith)
