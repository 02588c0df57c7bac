-- ===== src/Kernel/Telemetry.antt =====
-- `TelemetryCollector` of runtime/telemetry/collector.py. The file that it may write and the
-- rounding of a snapshot are left out: a snapshot is the session itself.
pub mod Book
pub mod Accounts
use ava_listener.Base.{ℕ, ◌+◌, String, Option, none, some, List, [], ◌∷◌, ◌++◌}
use ava_listener.Kernel.Session
use ava_listener.Kernel.Session.{CandidateSession, Sighting, Naming, new_session, update, confirm}

pub record Snapshot : Type 0 where
  pub session : CandidateSession
  pub archived_reason : Option String

pub record Telemetry : Type 0 where
  pub wake_count : ℕ
  pub false_wake_count : ℕ
  pub trigger_latencies : List ℕ
  pub asr_latencies : List ℕ
  pub candidate_sessions : List Snapshot
  pub active_candidate : Option CandidateSession

-- `reset`, which the constructor calls too.
abbrev pub new_telemetry : Telemetry
new_telemetry = record {
  wake_count = 0;
  false_wake_count = 0;
  trigger_latencies = [];
  asr_latencies = [];
  candidate_sessions = [];
  active_candidate = none;
}

unfoldable pub register_wake : ℕ → Telemetry → Telemetry
register_wake latency t = record t {
  wake_count = t.wake_count + 1;
  trigger_latencies = t.trigger_latencies ++ latency ∷ [];
}

unfoldable pub register_false_wake : Telemetry → Telemetry
register_false_wake t = record t { false_wake_count = t.false_wake_count + 1 }

unfoldable pub register_asr_latency : ℕ → Telemetry → Telemetry
register_asr_latency latency t = record t { asr_latencies = t.asr_latencies ++ latency ∷ [] }

-- Take the active session into the list, and leave none active.
abbrev close_session :
    (CandidateSession → CandidateSession) → Option String → CandidateSession → Telemetry → Telemetry
close_session f reason c t = record t {
  candidate_sessions =
      t.candidate_sessions ++ record { session = f c; archived_reason = reason } ∷ [];
  active_candidate = none;
}

abbrev archive_of : Option CandidateSession → String → Telemetry → Telemetry
archive_of none reason t = t
archive_of (some c) reason t = register_false_wake (close_session Session.drop (some reason) c t)

unfoldable pub archive_candidate : String → Telemetry → Telemetry
unfolding register_false_wake Session.drop
archive_candidate reason t = archive_of t.active_candidate reason t

unfoldable pub start_candidate : Naming → Sighting → ℕ → ℕ → Telemetry → Telemetry
unfolding archive_candidate new_session
start_candidate n s started updated t = record (archive_candidate "replaced" t) {
  active_candidate = some (new_session n s started updated);
}

abbrev update_of : Option CandidateSession → Sighting → ℕ → Telemetry → Telemetry
update_of none s now t = t
update_of (some c) s now t = record t { active_candidate = some (update s now c) }

unfoldable pub update_candidate : Sighting → ℕ → Telemetry → Telemetry
unfolding update
update_candidate s now t = update_of t.active_candidate s now t

abbrev confirm_of : Option CandidateSession → Telemetry → Telemetry
confirm_of none t = t
confirm_of (some c) t = close_session confirm none c t

unfoldable pub confirm_candidate : Telemetry → Telemetry
unfolding confirm
confirm_candidate t = confirm_of t.active_candidate t

abbrev drop_of : Option CandidateSession → Telemetry → Telemetry
drop_of none t = t
drop_of (some c) t = register_false_wake (close_session Session.drop none c t)

unfoldable pub drop_candidate : Telemetry → Telemetry
unfolding register_false_wake Session.drop
drop_candidate t = drop_of t.active_candidate t
