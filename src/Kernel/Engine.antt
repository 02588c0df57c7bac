-- ===== src/Kernel/Engine.antt =====
-- The second half of `WakeEngine._on_hypothesis` of runtime/kernel/orchestrator.py, from the
-- reading of the window to a wake, and the whole of it. Logging is left out, and the streamer's
-- reset after a wake is the caller's next generation.
pub mod Gates
pub mod Runs
pub mod Smoothing
pub mod Sure
pub mod Named
use ava_listener.Base.{
  ltb, ◌==◌, if◌then◌else◌, length, is_empty, ℕ, ◌+◌, ◌-◌, Bool, false, not, ◌&&◌, ◌||◌, Option,
  none, some, List, [],
}
use ava_listener.Base.Ratio.{Ratio, percent, add, mul, le_ratio, lt_ratio}
use ava_listener.Base.Text.{Text, text_eq}
use ava_listener.Kernel.Lifecycle.{RuntimeState, idle, runtime_transition}
use ava_listener.Kernel.Session
use ava_listener.Kernel.Session.{CandidateSession, Sighting, Naming, new_session}
use ava_listener.Kernel.Telemetry
use ava_listener.Kernel.Telemetry.{
  Telemetry, new_telemetry, register_wake, register_asr_latency, start_candidate, update_candidate,
  confirm_candidate, drop_candidate,
}
use ava_listener.Matcher.Buffer.{Entry, Hypothesis, push, get_window}
use ava_listener.Matcher.Cooldown.{CooldownGate, new_gate, can_trigger, mark_triggered}
use ava_listener.Matcher.Confidence.{compute_confidence}
use ava_listener.Matcher.Registry.{Registry}
use ava_listener.Matcher.Variants.{VariantIndex, get_canonical, get_active_phrases}
use ava_listener.Matcher.Anchor.{Similarity}
use ava_listener.Matcher.Evaluator.{Match, best_match}
use ava_listener.Kernel.Reading.{
  Engine, Call, Wake, Reading, eff_stab, tick_metrics, read_window, score_window,
}

abbrev same_generation : Option ℕ → ℕ → Bool
same_generation none g = false
same_generation (some h) g = h == g

-- `canonical_from_variant or phrase`.
abbrev canonical_or : Option Text → Text → Text
canonical_or none phrase = phrase
canonical_or (some t) phrase = if is_empty t then phrase else t

abbrev sighting : Call → Reading → Engine → Sighting
sighting c r e = record {
  text = c.text;
  raw_conf = r.raw_conf;
  smooth_conf = e.smooth_conf;
  frames = eff_stab c;
}

pub begin_candidate : Call → Reading → Engine → Engine
begin_candidate c r e =
    let n : Naming = record {
      phrase = r.found.phrase;
      variant = r.found.variant;
      canonical = canonical_or r.canonical_from_variant r.found.phrase;
    } in
    record e {
      candidate = some (new_session n (sighting c r e) (c.clock 8) (c.clock 9));
      telemetry = start_candidate n (sighting c r e) (c.clock 10) (c.clock 11) e.telemetry;
      state = runtime_transition e.state "candidate_started";
    }

pub continue_candidate : CandidateSession → Call → Reading → Engine → Engine
continue_candidate s c r e = record e {
  candidate = some (Session.update (sighting c r e) (c.clock 8) s);
  telemetry = update_candidate (sighting c r e) (c.clock 9) e.telemetry;
  state = runtime_transition e.state "candidate_updated";
}

pub abandon_candidate : Engine → Engine
abandon_candidate e = record e {
  candidate = none;
  telemetry = drop_candidate e.telemetry;
  state = runtime_transition e.state "candidate_dropped";
}

abbrev is_candidate : Reading → Bool
is_candidate r = not (is_empty r.found.phrase) && le_ratio (percent 50) r.raw_conf

abbrev track_of : Option CandidateSession → Call → Reading → Engine → Engine
track_of none c r e = if is_candidate r then begin_candidate c r e else e
track_of (some s) c r e =
    if is_candidate r
    then if text_eq s.phrase r.found.phrase
      then continue_candidate s c r e
      else begin_candidate c r e
    else if ltb 1000000 (c.clock 1 - s.last_update)
    then abandon_candidate e
    else e

pub track_candidate : Call → Reading → Engine → Engine
unfolding begin_candidate continue_candidate abandon_candidate
track_candidate c r e = track_of e.candidate c r e

pub reset_generation : Call → Engine → Engine
reset_generation c e =
    if same_generation e.last_seen_generation c.generation_id then e else record e {
      smooth_conf = percent 0;
      hit_count = 0;
      last_seen_generation = some c.generation_id;
    }

pub reset_phrase : Reading → Engine → Engine
reset_phrase r e =
    if not (is_empty r.found.phrase) && not (text_eq r.found.phrase e.last_matched_phrase)
    then record e { smooth_conf = percent 0; last_matched_phrase = r.found.phrase }
    else e

-- A fast rise and a slow decay.
unfoldable pub smooth : Ratio → Ratio → Ratio
smooth raw prev =
    if lt_ratio prev raw
    then add (mul (percent 70) raw) (mul (percent 30) prev)
    else add (mul (percent 30) raw) (mul (percent 70) prev)

pub apply_smoothing : Call → Reading → Engine → Engine
unfolding reset_generation reset_phrase smooth
apply_smoothing c r e =
    let e' : Engine = reset_phrase r (reset_generation c e) in
    record e' { smooth_conf = smooth r.raw_conf e'.smooth_conf }

-- The threshold is the default, 0.78, for every phrase, and 0.86 for the escape.
unfoldable pub is_triggered : Ratio → Ratio → Bool
is_triggered raw smoothed = le_ratio (percent 86) raw || le_ratio (percent 78) smoothed

abbrev confirm_of : Option CandidateSession → Engine → Engine
confirm_of none e = e
confirm_of (some s) e = record e {
  telemetry = confirm_candidate e.telemetry;
  state = runtime_transition e.state "candidate_confirmed";
  candidate = none;
}

pub confirm_engine : Engine → Engine
confirm_engine e = confirm_of e.candidate e

abbrev latency_of : Call → ℕ
latency_of c = c.clock 13 - c.clock 0

-- The counters and the gates after a wake; the sums hold the values that are emitted.
abbrev counted : Call → Reading → Engine → Engine
counted c r e = record e {
  last_trigger_generation = some c.generation_id;
  cooldown = mark_triggered (c.clock 14) e.cooldown;
  buffer = [];
  hit_count = 0;
  wake_count = e.wake_count + 1;
  latency_sum = e.latency_sum + latency_of c;
  raw_sum = add e.raw_sum r.raw_conf;
  smooth_sum = add e.smooth_sum e.smooth_conf;
  telemetry = register_wake (latency_of c) e.telemetry;
}

abbrev cool_down : Engine → Engine
cool_down e = record e { state = runtime_transition e.state "cooldown"; smooth_conf = percent 0 }

pub fire : Call → Reading → Engine → Engine × Wake
unfolding confirm_engine
fire c r e = (
  cool_down (confirm_engine (counted c r e)),
  record {
    phrase = r.found.phrase;
    raw_confidence = r.raw_conf;
    smooth_confidence = e.smooth_conf;
    latency = latency_of c;
  },
)

abbrev fired : Engine × Wake → Engine × Option Wake
fired (e, w) = (e, some w)

-- The trigger, the generation gate and the cooldown gate, in this order.
pub gates : Call → Reading → Engine → Engine × Option Wake
unfolding fire is_triggered
gates c r e =
    if not (is_triggered r.raw_conf e.smooth_conf)
    then (e, none)
    else if same_generation e.last_trigger_generation c.generation_id
    then (record e { last_suppressed_generation = some c.generation_id }, none)
    else if not (can_trigger (c.clock 12) e.cooldown)
    then (e, none)
    else fired (fire c r e)

-- From the reading on.
pub respond : Call → Reading → Engine → Engine × Option Wake
unfolding track_candidate apply_smoothing gates
respond c r e = gates c r (apply_smoothing c r (track_candidate c r e))

-- The matcher's answer for the window of this call.
pub match_window : Similarity → VariantIndex → Registry → List Hypothesis → Match
match_window sim x reg w = best_match sim x (get_active_phrases reg) w

pub process : Similarity → VariantIndex → Registry → Call → Engine → Engine × Option Wake
unfolding tick_metrics read_window score_window respond match_window
process sim x reg c e =
    let (e', window) = read_window c (tick_metrics c e) in
    let (e'', r) = score_window c x (match_window sim x reg window) (length window) e' in
    respond c r e''

unfoldable pub on_hypothesis :
    Similarity → VariantIndex → Registry → Call → Engine → Engine × Option Wake
unfolding process
on_hypothesis sim x reg c e = if e.detection_paused then (e, none) else process sim x reg c e
