-- ===== src/Kernel/Session.antt =====
-- `CandidateSession`, which runtime/session/context.py, runtime/telemetry/collector.py and
-- runtime/kernel/orchestrator.py declare alike.
use ava_listener.Base.{ℕ, ◌-◌, max, List, [], ◌∷◌, ◌++◌}
use ava_listener.Base.Ratio.{Ratio, max_ratio}
use ava_listener.Base.Text.{Text}

pub data SessionState : Type 0 where
  candidate_started candidate_updated candidate_confirmed candidate_dropped : SessionState

pub record CandidateSession : Type 0 where
  pub phrase : Text
  pub variant : Text
  pub canonical : Text
  pub start_time : ℕ
  pub last_update : ℕ
  pub peak_raw : Ratio
  pub peak_smooth : Ratio
  pub transcript_evolution : List Text
  pub stabilization_frames : ℕ
  pub state : SessionState

-- What a hypothesis brings to a candidate.
pub record Sighting : Type 0 where
  pub text : Text
  pub raw_conf : Ratio
  pub smooth_conf : Ratio
  pub frames : ℕ

pub record Naming : Type 0 where
  pub phrase : Text
  pub variant : Text
  pub canonical : Text

unfoldable pub new_session : Naming → Sighting → ℕ → ℕ → CandidateSession
new_session n s started updated = record {
  phrase = n.phrase;
  variant = n.variant;
  canonical = n.canonical;
  start_time = started;
  last_update = updated;
  peak_raw = s.raw_conf;
  peak_smooth = s.smooth_conf;
  transcript_evolution = s.text ∷ [];
  stabilization_frames = s.frames;
  state = candidate_started;
}

unfoldable pub update : Sighting → ℕ → CandidateSession → CandidateSession
update s now c = record c {
  last_update = now;
  transcript_evolution = c.transcript_evolution ++ s.text ∷ [];
  peak_raw = max_ratio c.peak_raw s.raw_conf;
  peak_smooth = max_ratio c.peak_smooth s.smooth_conf;
  stabilization_frames = max c.stabilization_frames s.frames;
  state = candidate_updated;
}

unfoldable pub confirm : CandidateSession → CandidateSession
confirm c = record c { state = candidate_confirmed }

unfoldable pub drop : CandidateSession → CandidateSession
drop c = record c { state = candidate_dropped }

-- In the unit of the clock.
unfoldable pub duration : CandidateSession → ℕ
duration c = c.last_update - c.start_time
