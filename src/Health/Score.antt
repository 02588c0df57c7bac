-- ===== src/Health/Score.antt =====
-- The health score goes down with every metric.
use ava_listener.Base.{
  if◌then◌else◌, le→leb, ℕ, ◌-◌, ◌≤◌, min, ◌≡◌, sym, ap, Bool, true, false, arith,
}
use ava_listener.Base.Ratio.{Ratio, percent, add, mul, le_ratio, lt_ratio, le-mul}
use ava_listener.Health.{
  Metrics, clamp, cost, penalty, one_minus, compute_signals, score_from_metrics, status_of,
  get_report, Status, critical, degraded, healthy,
}
use mathlib.Core.Path.{subst}

min-le : (v n : ℕ) → min v n ≤ n
min-le v n = omega arith

min_mono : (v w n : ℕ) → v ≤ w → min v n ≤ min w n
min_mono v w n h = omega arith

uncut : (b : Bool) (x y : Ratio) → b ≡ false → (if b then x else y) ≡ y
uncut b x y h = rw h

-- A pressure is at most one, so its cost is not cut.
cost-clamp : (v n w : ℕ) → cost (clamp v n) (percent w) ≡ mul (clamp v n) (percent w)
cost-clamp v n w =
    uncut (lt_ratio (percent w) (mul (clamp v n) (percent w))) (percent w)
      (mul (clamp v n) (percent w)) (ground (arith, le-mul (min v n) n w (min-le v n)))

-- The penalty of pressures that are given by what remains of the metrics.
abbrev total : ℕ → ℕ → ℕ → ℕ → ℕ → ℕ → Ratio
total a b c d e f =
    add
      (add
        (add
          (add
            (add (mul (record { num = a; den = 100 }) (percent 20))
              (mul (record { num = b; den = 20 }) (percent 15)))
            (mul (record { num = c; den = 2147483648 }) (percent 20)))
          (mul (record { num = d; den = 5 }) (percent 25)))
        (mul (record { num = e; den = 500 }) (percent 10)))
      (mul (record { num = f; den = 500 }) (percent 10))

penalty-total :
    (m : Metrics)
    → penalty (compute_signals m)
      ≡ total
          (min m.queue_depth 100)
          (min m.reset_count 20)
          (min m.memory_usage 2147483648)
          (min m.restart_count 5)
          (min m.transport_latency_ms 500)
          (min m.telemetry_drop_count 500)
unfolding penalty compute_signals
penalty-total m = rw (
  cost-clamp m.queue_depth 100 20,
  cost-clamp m.reset_count 20 15,
  cost-clamp m.memory_usage 2147483648 20,
  cost-clamp m.restart_count 5 25,
  cost-clamp m.transport_latency_ms 500 10,
  cost-clamp m.telemetry_drop_count 500 10,
)

total_mono :
    (a b c d e f a' b' c' d' e' f' : ℕ)
    → a ≤ a'
    → b ≤ b'
    → c ≤ c'
    → d ≤ d'
    → e ≤ e'
    → f ≤ f'
    → (total a b c d e f).num ≤ (total a' b' c' d' e' f').num
total_mono a b c d e f a' b' c' d' e' f' ha hb hc hd he hf = omega arith

-- No metric of the first is above that of the second.
pub record IsAtMost (m m' : Metrics) : Type 0 where
  pub queue_depth : m.queue_depth ≤ m'.queue_depth
  pub reset_count : m.reset_count ≤ m'.reset_count
  pub memory_usage : m.memory_usage ≤ m'.memory_usage
  pub restart_count : m.restart_count ≤ m'.restart_count
  pub transport_latency_ms : m.transport_latency_ms ≤ m'.transport_latency_ms
  pub telemetry_drop_count : m.telemetry_drop_count ≤ m'.telemetry_drop_count

penalty_mono :
    (m m' : Metrics)
    → IsAtMost m m'
    → (penalty (compute_signals m)).num ≤ (penalty (compute_signals m')).num
penalty_mono m m' h =
    rw (penalty-total m, penalty-total m')
      (total_mono _ _ _ _ _ _ _ _ _ _ _ _ (min_mono m.queue_depth m'.queue_depth 100 h.queue_depth)
        (min_mono m.reset_count m'.reset_count 20 h.reset_count)
        (min_mono m.memory_usage m'.memory_usage 2147483648 h.memory_usage)
        (min_mono m.restart_count m'.restart_count 5 h.restart_count)
        (min_mono m.transport_latency_ms m'.transport_latency_ms 500 h.transport_latency_ms)
        (min_mono m.telemetry_drop_count m'.telemetry_drop_count 500 h.telemetry_drop_count))

abbrev scale : ℕ
scale = (total 0 0 0 0 0 0).den

penalty-scale : (m : Metrics) → (penalty (compute_signals m)).den ≡ scale
penalty-scale m = ap (λ r. r.den) (penalty-total m)

-- One less a number of `scale`-ths.
abbrev left : ℕ → Ratio
left p = one_minus (record { num = p; den = scale })

left_antitone : (p q : ℕ) → p ≤ q → le_ratio (left q) (left p) ≡ true
left_antitone p q h = le→leb _ _ (le-mul (scale - q) (scale - p) scale (omega arith))

score-left : (m : Metrics) → score_from_metrics m ≡ left (penalty (compute_signals m)).num
unfolding score_from_metrics
score-left m =
    ap (λ d. one_minus (record { num = (penalty (compute_signals m)).num; den = d }))
      (penalty-scale m)

abbrev pub rank : Status → ℕ
rank critical = 0
rank degraded = 1
rank healthy = 2

status_of-left : (p q : ℕ) → p ≤ q → rank (status_of (left q)) ≤ rank (status_of (left p))
unfolding status_of
status_of-left p q h = ground arith

abbrev NotAbove : Ratio → Ratio → Type 0
NotAbove y x =
    (le_ratio y x ≡ true)
    × (rank (status_of y) ≤ rank (status_of x))
    × (le_ratio x (percent 100) ≡ true)

left-NotAbove : (p q : ℕ) → p ≤ q → NotAbove (left q) (left p)
left-NotAbove p q h = (left_antitone p q h, status_of-left p q h, le→leb _ _ (omega arith))

-- When no metric goes down, the reported health does not go up, and neither does the status; the
-- health is at most one.
pub get_report_antitone :
    (m m' : Metrics)
    → IsAtMost m m'
    → (le_ratio (get_report m').runtime_health (get_report m).runtime_health ≡ true)
      × (rank (get_report m').status ≤ rank (get_report m).status)
      × (le_ratio (get_report m).runtime_health (percent 100) ≡ true)
unfolding get_report
get_report_antitone m m' h =
    subst (λ y. NotAbove y (score_from_metrics m)) (sym (score-left m'))
      (subst (NotAbove (left (penalty (compute_signals m')).num)) (sym (score-left m))
        (left-NotAbove _ _ (penalty_mono m m' h)))
