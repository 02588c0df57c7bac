-- ===== src/Health.antt =====
-- runtime/health/signals.py, runtime/health/scorer.py and runtime/health/reporter.py, and the older
-- report of runtime/telemetry/health.py, on exact fractions. The copies, the rounding to four
-- digits and the descriptions are left out.
pub mod Score
use ava_listener.Base.{if◌then◌else◌, ℕ, ◌-◌, ◌*◌, min, List, [], ◌∷◌}
use ava_listener.Base.Ratio.{Ratio, percent, add, mul, lt_ratio, min_ratio}

-- The metrics that the scores read; `None` counts as 0, and memory is in bytes.
pub record Metrics : Type 0 where
  pub queue_depth : ℕ
  pub reset_count : ℕ
  pub memory_usage : ℕ
  pub restart_count : ℕ
  pub transport_latency_ms : ℕ
  pub telemetry_drop_count : ℕ

-- `_clamp(v / n)`.
abbrev pub clamp : ℕ → ℕ → Ratio
clamp v n = record { num = min v n; den = n }

pub record HealthSignals : Type 0 where
  pub queue_overruns : Ratio
  pub vad_lag : Ratio
  pub memory_pressure : Ratio
  pub restart_frequency : Ratio
  pub transport_latency : Ratio
  pub dropped_wake_candidates : Ratio

-- The normalizers of `HEALTH_SIGNAL_MAP`; 2048 MB are 2 ^ 31 bytes.
unfoldable pub compute_signals : Metrics → HealthSignals
compute_signals m = record {
  queue_overruns = clamp m.queue_depth 100;
  vad_lag = clamp m.reset_count 20;
  memory_pressure = clamp m.memory_usage 2147483648;
  restart_frequency = clamp m.restart_count 5;
  transport_latency = clamp m.transport_latency_ms 500;
  dropped_wake_candidates = clamp m.telemetry_drop_count 500;
}

-- `min(pressure * weight, weight)`.
abbrev pub cost : Ratio → Ratio → Ratio
cost pressure weight = min_ratio (mul pressure weight) weight

unfoldable pub penalty : HealthSignals → Ratio
penalty s =
    add
      (add
        (add
          (add (add (cost s.queue_overruns (percent 20)) (cost s.vad_lag (percent 15)))
            (cost s.memory_pressure (percent 20)))
          (cost s.restart_frequency (percent 25)))
        (cost s.transport_latency (percent 10)))
      (cost s.dropped_wake_candidates (percent 10))

-- `max(0.0, 1.0 - x)`: subtraction on natural numbers stops at 0.
abbrev pub one_minus : Ratio → Ratio
one_minus x = record { num = x.den - x.num; den = x.den }

unfoldable pub compute_health_score : HealthSignals → Ratio
unfolding penalty
compute_health_score s = one_minus (penalty s)

unfoldable pub score_from_metrics : Metrics → Ratio
unfolding compute_health_score compute_signals
score_from_metrics m = compute_health_score (compute_signals m)

pub data Status : Type 0 where
  critical degraded healthy : Status

unfoldable pub status_of : Ratio → Status
status_of score =
    if lt_ratio (percent 80) score
    then healthy
    else if lt_ratio (percent 50) score
    then degraded
    else critical

pub record HealthReport : Type 0 where
  pub runtime_health : Ratio
  pub status : Status
  pub signals : HealthSignals

unfoldable pub get_report : Metrics → HealthReport
unfolding score_from_metrics status_of
get_report m = record {
  runtime_health = score_from_metrics m;
  status = status_of (score_from_metrics m);
  signals = compute_signals m;
}

-- `generate_report`: a penalty that is not above its limit is not subtracted. The penalties are at
-- most 0.3, 0.2, 0.3 and 0.2; 1024 MB are 2 ^ 30 bytes.
abbrev above : ℕ → Ratio → Ratio
above limit p = if lt_ratio (percent limit) p then p else percent 0

abbrev reset_penalty : Metrics → Ratio
reset_penalty m = percent (min (m.reset_count * 5) 30)

abbrev queue_penalty : Metrics → Ratio
queue_penalty m = record { num = min m.queue_depth 200; den = 1000 }

abbrev restart_penalty : Metrics → Ratio
restart_penalty m = percent (min (m.restart_count * 10) 30)

abbrev memory_penalty : Metrics → Ratio
memory_penalty m = record { num = min m.memory_usage 2147483648; den = 10737418240 }

pub data Penalty : Type 0 where
  resets queue restarts memory : Penalty

abbrev warn : ℕ → Ratio → Penalty → List Penalty → List Penalty
warn limit p w ws = if lt_ratio (percent limit) p then w ∷ ws else ws

pub record TelemetryReport : Type 0 where
  pub health_score : Ratio
  pub status : Status
  pub warnings : List Penalty

unfoldable pub telemetry_score : Metrics → Ratio
telemetry_score m = one_minus (
    add
      (add (add (above 0 (reset_penalty m)) (above 5 (queue_penalty m)))
        (above 0 (restart_penalty m)))
      (above 5 (memory_penalty m)))

unfoldable pub generate_report : Metrics → TelemetryReport
unfolding telemetry_score status_of
generate_report m = record {
  health_score = telemetry_score m;
  status = status_of (telemetry_score m);
  warnings = warn 0 (reset_penalty m) resets (
      warn 5 (queue_penalty m) queue
        (warn 0 (restart_penalty m) restarts (warn 5 (memory_penalty m) memory [])));
}
