-- ===== src/Kernel/Reading.antt =====
-- The state of `WakeEngine` of runtime/kernel/orchestrator.py, and the first half of
-- `_on_hypothesis`: from the hypothesis to the matcher's reading of the window. The clock readings
-- of one call are `clock 0`, `clock 1`, … in the order in which the code makes them.
use ava_listener.Base.{
  ltb, leb, if◌then◌else◌, length, is_empty, ℕ, ◌+◌, ◌-◌, min, Bool, false, not, ◌&&◌, Option, none,
  List, [],
}
use ava_listener.Base.Ratio.{Ratio, percent, lt_ratio}
use ava_listener.Base.Text.{Text, text_eq}
use ava_listener.Kernel.Lifecycle.{RuntimeState, idle}
use ava_listener.Kernel.Session.{CandidateSession}
use ava_listener.Kernel.Telemetry.{Telemetry, new_telemetry, register_asr_latency}
use ava_listener.Matcher.Buffer.{Entry, Hypothesis, push, get_window}
use ava_listener.Matcher.Cooldown.{CooldownGate, new_gate}
use ava_listener.Matcher.Confidence.{compute_confidence}
use ava_listener.Matcher.Variants.{VariantIndex, get_canonical}
use ava_listener.Matcher.Evaluator.{Match}

abbrev pub stability_cap : ℕ
stability_cap = 12

pub record Engine : Type 0 where
  pub buffer : List Entry
  pub cooldown : CooldownGate
  pub hit_count : ℕ
  pub last_trigger_generation : Option ℕ  -- none is the initial -1
  pub last_seen_generation : Option ℕ
  pub last_suppressed_generation : Option ℕ
  pub smooth_conf : Ratio
  pub last_matched_phrase : Text
  pub last_metrics_time : ℕ
  pub wake_count : ℕ
  pub latency_sum : ℕ
  pub raw_sum : Ratio
  pub smooth_sum : Ratio
  pub telemetry : Telemetry
  pub state : RuntimeState
  pub candidate : Option CandidateSession
  pub detection_paused : Bool

unfoldable pub init : ℕ → Engine
init now = record {
  buffer = [];
  cooldown = new_gate;
  hit_count = 0;
  last_trigger_generation = none;
  last_seen_generation = none;
  last_suppressed_generation = none;
  smooth_conf = percent 0;
  last_matched_phrase = [];
  last_metrics_time = now;
  wake_count = 0;
  latency_sum = 0;
  raw_sum = percent 0;
  smooth_sum = percent 0;
  telemetry = new_telemetry;
  state = idle;
  candidate = none;
  detection_paused = false;
}

-- The arguments of a call and the clock that it reads.
pub record Call : Type 0 where
  pub text : Text
  pub stability : ℕ
  pub peak : Text
  pub generation_id : ℕ
  pub clock : ℕ → ℕ

-- What `emit_wake` sends.
pub record Wake : Type 0 where
  pub phrase : Text
  pub raw_confidence : Ratio
  pub smooth_confidence : Ratio
  pub latency : ℕ

-- The metrics of every 30 seconds.
unfoldable pub tick_metrics : Call → Engine → Engine
tick_metrics c e =
    if leb 30000000 (c.clock 1 - e.last_metrics_time)
    then record e { last_metrics_time = c.clock 1 }
    else e

-- Is the peak pushed too? It is if it is longer than the text.
abbrev pub pushes_peak : Call → Bool
pushes_peak c =
    not (is_empty c.peak) && not (text_eq c.peak c.text) && ltb (length c.text) (length c.peak)

abbrev pub eff_stab : Call → ℕ
eff_stab c = min c.stability stability_cap

unfoldable pub fill_buffer : Call → List Entry → List Entry
fill_buffer c b =
    let b' : List Entry = push (c.clock 2) (c.clock 3) c.text (eff_stab c) b in
    if pushes_peak c then push (c.clock 4) (c.clock 5) c.peak (eff_stab c + 2) b' else b'

unfoldable pub read_window : Call → Engine → Engine × List Hypothesis
unfolding fill_buffer
read_window c e =
    let (kept, window) = get_window (c.clock 6) (fill_buffer c e.buffer) in
    (record e { buffer = kept }, window)

-- What the matcher and the scorer say of the window.
pub record Reading : Type 0 where
  pub found : Match
  pub canonical_from_variant : Option Text
  pub raw_conf : Ratio

abbrev pub hits_after : Match → Engine → ℕ
hits_after m e = if lt_ratio (percent 50) m.score then e.hit_count + 1 else e.hit_count - 1

-- The hit counter, the raw confidence and its latency.
unfoldable pub score_window : Call → VariantIndex → Match → ℕ → Engine → Engine × Reading
score_window c x m size e = (
  record e {
    hit_count = hits_after m e;
    telemetry = register_asr_latency (c.clock 7 - c.clock 0) e.telemetry;
  },
  record {
    found = m;
    canonical_from_variant = if is_empty m.variant then none else get_canonical x m.variant;
    raw_conf = compute_confidence m.score size (hits_after m e);
  },
)
