-- ===== src/Hardening/Watchdog/Spacing.antt =====
-- The backoff gate of runtime/supervisor/watchdog.py keeps two resets of the stream apart.
use ava_listener.Base.{
  if◌then◌else◌, ℕ, zero, suc, ◌+◌, ◌^◌, ◌≤◌, String, ◌≡◌, ◌⊎◌, inl, inr, Bool, true, false, List,
  [], ◌∷◌, arith,
}
use native.Mathlib.Numerals.{add-one}
use native.Mathlib.Nat.{pow-suc}
use ava_listener.Hardening.Backoff.{RecoveryPolicy, fail, doubled, reset}
use ava_listener.Hardening.Watchdog.{Watchdog, Attempt, recover_stream, init}

pub record Request : Type 0 where
  pub why : String
  pub attempt : Attempt

unfoldable pub run : Watchdog → List Request → Watchdog
run w [] = w
run w (q ∷ qs) = run (recover_stream q.why q.attempt w).0 qs

-- The times at which the stream is reset.
unfoldable pub reset_times : Watchdog → List Request → List ℕ
reset_times w [] = []
reset_times w (q ∷ qs) =
    let (w', done) = recover_stream q.why q.attempt w in
    let rest : List ℕ = reset_times w' qs in if done then q.attempt.now ∷ rest else rest

-- Each time is at least `gap` after the one before, and the first is at least `from`.
abbrev pub Spaced : ℕ → ℕ → List ℕ → Type 0
Spaced gap from [] = Unit
Spaced gap from (t ∷ ts) = (from ≤ t) × Spaced gap (t + gap) ts

-- The bounds of the delay are those of the policy.
record HasBounds (gap : ℕ) (p : RecoveryPolicy) : Type 0 where
  initial : gap ≤ p.backoff_initial
  ceiling : gap ≤ p.backoff_max

one-le-pow : (r : ℕ) → 1 ≤ 2 ^ r
one-le-pow zero = omega arith
one-le-pow (suc r) = rw pow-suc (omega (arith, one-le-pow r))

initial-le-doubled : (i r : ℕ) → i ≤ doubled i (r + 1)
initial-le-doubled i r = rw add-one (grind (arith, one-le-pow r))

fail-HasBounds :
    (gap t : ℕ) (p : RecoveryPolicy)
    → HasBounds gap p
    → (gap ≤ (fail t p).0) × HasBounds gap (fail t p).1
unfolding fail
fail-HasBounds gap t p h = (
  omega (arith, initial-le-doubled p.backoff_initial p.retries),
  record { initial = h.initial; ceiling = h.ceiling },
)

reset-HasBounds : (gap : ℕ) (p : RecoveryPolicy) → HasBounds gap p → HasBounds gap (reset p)
unfolding reset
reset-HasBounds gap p h = record { initial = h.initial; ceiling = h.ceiling }

module _ (gap : ℕ) (q : Request) (w : Watchdog) (h : HasBounds gap w.recovery_policy) where
  abbrev after : Watchdog × Bool
  after = recover_stream q.why q.attempt w

  after-HasBounds : HasBounds gap after.0.recovery_policy
  unfolding recover_stream
  after-HasBounds = ground (
    arith,
    fail-HasBounds gap q.attempt.failed_at w.recovery_policy,
    reset-HasBounds gap (fail q.attempt.failed_at w.recovery_policy).1,
  )

  after-gate :
      (after.1 ≡ false) × (w.next_allowed_reset ≤ after.0.next_allowed_reset)
      ⊎ (after.1 ≡ true)
        × (w.next_allowed_reset ≤ q.attempt.now)
        × (q.attempt.now + gap ≤ after.0.next_allowed_reset)
  unfolding recover_stream
  after-gate = ground (arith, fail-HasBounds gap q.attempt.failed_at w.recovery_policy)

reset_times-Spaced :
    (gap from : ℕ) (w : Watchdog) (qs : List Request)
    → HasBounds gap w.recovery_policy
    → from ≤ w.next_allowed_reset
    → Spaced gap from (reset_times w qs)
unfolding reset_times
reset_times-Spaced gap from w [] h f = tt
reset_times-Spaced gap from w (q ∷ qs) h f = elim (after-gate gap q w h) [
  | inl (e, n) ↦ rw e (
      reset_times-Spaced gap from (recover_stream q.why q.attempt w).0 qs
        (after-HasBounds gap q w h) (omega arith))
  | inr (e, n, m) ↦ rw e (
    omega arith,
    reset_times-Spaced gap (q.attempt.now + gap) (recover_stream q.why q.attempt w).0 qs
        (after-HasBounds gap q w h) m,
  )
]

-- Whatever resets are asked of a new watchdog, and for whatever reasons, any two resets that follow
-- one another are at least 100 milliseconds apart.
pub resets-Spaced : (qs : List Request) → Spaced 100000 0 (reset_times init qs)
unfolding init
resets-Spaced qs = reset_times-Spaced 100000 0 init qs (omega arith) (omega arith)
