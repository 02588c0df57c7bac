-- ===== src/Metrics.antt =====
-- `MetricsCollector` of runtime/telemetry/metrics.py, and `LatencyTracker` and `RollingLatency` of
-- runtime/timing/latency.py. Durations are whole numbers, of nanoseconds in a tracker; averages are
-- exact fractions. Memory is in bytes. The operating system's figures are arguments.
pub mod Window
use ava_listener.Base.{
  ltb, leb, if◌then◌else◌, length, ℕ, zero, suc, ◌+◌, ◌-◌, ◌*◌, ◌/◌, max, String, Option, none,
  some, List, [], ◌∷◌, ◌++◌, str_eq,
}
use ava_listener.Base.Ratio.{Ratio, percent}
use ava_listener.Health.{Metrics}
use ava_listener.Matcher.Registry.{ℤ, pos, negsuc}

-- `samples.append(x)`, and the oldest goes when there are more than `window`.
unfoldable pub append_sample : ℕ → ℕ → List ℕ → List ℕ
append_sample window x [] = if ltb window 1 then [] else x ∷ []
append_sample window x (s ∷ rest) =
    if ltb window (length (s ∷ rest) + 1) then rest ++ x ∷ [] else (s ∷ rest) ++ x ∷ []

abbrev pub sum : List ℕ → ℕ
sum [] = 0
sum (x ∷ xs) = x + sum xs

-- The mean, and 0 of no samples.
unfoldable pub average : List ℕ → Ratio
average [] = percent 0
average (x ∷ xs) = record { num = sum (x ∷ xs); den = length (x ∷ xs) }

pub record Collector : Type 0 where
  pub wake_count : ℕ
  pub false_trigger_count : ℕ
  pub latency_history : List ℕ
  pub queue_depth : ℕ
  pub reset_count : ℕ
  pub restart_count : ℕ
  pub audio_drop_count : ℕ

unfoldable pub new_collector : Collector
new_collector = record {
  wake_count = 0;
  false_trigger_count = 0;
  latency_history = [];
  queue_depth = 0;
  reset_count = 0;
  restart_count = 0;
  audio_drop_count = 0;
}

unfoldable pub record_wake : ℕ → Collector → Collector
unfolding append_sample
record_wake latency c = record c {
  wake_count = c.wake_count + 1;
  latency_history = append_sample 1000 latency c.latency_history;
}

unfoldable pub record_false_trigger : Collector → Collector
record_false_trigger c = record c { false_trigger_count = c.false_trigger_count + 1 }

unfoldable pub record_reset : Collector → Collector
record_reset c = record c { reset_count = c.reset_count + 1 }

unfoldable pub record_restart_count : Collector → Collector
record_restart_count c = record c { restart_count = c.restart_count + 1 }

unfoldable pub record_audio_drop : Collector → Collector
record_audio_drop c = record c { audio_drop_count = c.audio_drop_count + 1 }

unfoldable pub set_queue_depth : ℕ → Collector → Collector
set_queue_depth depth c = record c { queue_depth = depth }

-- `get_all_metrics`, with the memory and the processor's load of the system, if they are known, and
-- the drop count of the dispatcher.
pub record AllMetrics : Type 0 where
  pub collected : Collector
  pub avg_latency : Ratio
  pub telemetry_drop_count : ℕ
  pub memory_usage : Option ℕ
  pub cpu_usage : Option ℕ

unfoldable pub get_all_metrics : ℕ → Option ℕ → Option ℕ → Collector → AllMetrics
unfolding average
get_all_metrics dropped memory cpu c = record {
  collected = c;
  avg_latency = average c.latency_history;
  telemetry_drop_count = dropped;
  memory_usage = memory;
  cpu_usage = cpu;
}

-- The metrics that the health score reads: `transport_latency_ms` is not among those collected.
unfoldable pub health_metrics : AllMetrics → Metrics
health_metrics m = record {
  queue_depth = m.collected.queue_depth;
  reset_count = m.collected.reset_count;
  memory_usage = elim m.memory_usage [ none ↦ 0 | some n ↦ n ];
  restart_count = m.collected.restart_count;
  transport_latency_ms = 0;
  telemetry_drop_count = m.telemetry_drop_count;
}

-- The marks of a tracker: the times of the stages, the last mark of a stage first.
abbrev pub Marks : Type 0
Marks = List (String × ℕ)

unfoldable pub mark : String → ℕ → Marks → Marks
mark stage now marks = (stage, now) ∷ marks

unfoldable pub mark_of : String → Marks → Option ℕ
mark_of stage [] = none
mark_of stage ((s, t) ∷ marks) =
    let rest = mark_of stage marks in if str_eq s stage then some t else rest

-- A duration may be negative: the marks are those of the system's clock.
unfoldable pub between : Option ℕ → Option ℕ → Option ℤ
between (some start) (some end) =
    some (if leb start end then pos (end - start) else negsuc (start - end - 1))
between s e = none

unfoldable pub measure : String → String → Marks → Option ℤ
unfolding mark_of between
measure from to marks = between (mark_of from marks) (mark_of to marks)

abbrev pub stage_intervals : List (String × (String × String))
stage_intervals =
    ("capture_to_queue", ("vad", "capture_to_vad_ms"))
    ∷ ("vad", ("asr", "vad_to_asr_ms"))
    ∷ ("asr", ("matcher", "asr_to_matcher_ms"))
    ∷ ("matcher", ("wake_total", "matcher_to_wake_ms"))
    ∷ ("capture_to_queue", ("wake_total", "end_to_end_ms"))
    ∷ []

abbrev measures : List (String × (String × String)) → Marks → List (String × Option ℤ)
measures [] marks = []
measures ((from, (to, label)) ∷ rest) marks = (label, measure from to marks) ∷ measures rest marks

unfoldable pub tracker_to_dict : Marks → List (String × Option ℤ)
unfolding measure
tracker_to_dict marks = measures stage_intervals marks

-- `sorted`.
abbrev pub insert_sample : ℕ → List ℕ → List ℕ
insert_sample x [] = x ∷ []
insert_sample x (y ∷ ys) = let rest = insert_sample x ys in if leb x y then x ∷ y ∷ ys else y ∷ rest

unfoldable pub sorted : List ℕ → List ℕ
sorted [] = []
sorted (x ∷ xs) = insert_sample x (sorted xs)

-- `samples[i]`: `none` is the IndexError.
unfoldable pub get_elem? : List ℕ → ℕ → Option ℕ
get_elem? [] i = none
get_elem? (x ∷ xs) zero = some x
get_elem? (x ∷ xs) (suc i) = get_elem? xs i

-- `max(0, int(len(s) * 0.99) - 1)`.
abbrev pub p99_index : List ℕ → ℕ
p99_index samples = length samples * 99 / 100 - 1

unfoldable pub p99 : List ℕ → Option ℕ
unfolding sorted get_elem?
p99 [] = some 0
p99 (x ∷ xs) = get_elem? (sorted (x ∷ xs)) (p99_index (x ∷ xs))

unfoldable pub max_sample : List ℕ → ℕ
max_sample [] = 0
max_sample (x ∷ xs) = max x (max_sample xs)
