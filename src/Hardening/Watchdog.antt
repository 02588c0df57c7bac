-- ===== src/Hardening/Watchdog.antt =====
-- runtime/supervisor/watchdog.py: three checks of the audio stream, and the gate in front of its
-- reset. Times and delays are in microseconds. What the stream shows, the clock, and whether
-- `_reset_stream` returns are arguments.
pub mod Spacing
pub mod Escalation
use ava_listener.Base.{
  ltb, if◌then◌else◌, ℕ, ◌+◌, ◌-◌, String, Bool, true, false, not, ◌&&◌, ◌||◌, Option, none, some,
  List, [], ◌∷◌, str_eq,
}
use ava_listener.Hardening.Faults.{
  FaultType, transient, recoverable, critical, classify_watchdog_trigger,
}
use ava_listener.Hardening.Backoff
use ava_listener.Hardening.Backoff.{RecoveryPolicy, create, fail, should_escalate}

pub record Watchdog : Type 0 where
  pub worker_timeout : ℕ
  pub queue_threshold : ℕ
  pub resets_total : ℕ
  pub resets_by_reason : List (String × ℕ)
  pub recovery_policy : RecoveryPolicy
  pub escalated : Bool
  pub next_allowed_reset : ℕ

unfoldable pub init : Watchdog
unfolding create
init = record {
  worker_timeout = 4000000;
  queue_threshold = 18;
  resets_total = 0;
  resets_by_reason =
      ("worker_dead", 0) ∷ ("worker_hang", 0) ∷ ("queue_overflow", 0) ∷ ("vad_failure", 0) ∷ [];
  recovery_policy = create 8 100000 8000000 4;
  escalated = false;
  next_allowed_reset = 0;
}

-- One more under the reason, which may be new.
abbrev pub count_reason : String → List (String × ℕ) → List (String × ℕ)
count_reason r [] = (r, 1) ∷ []
count_reason r ((j, n) ∷ l) =
    let rest = count_reason r l in if str_eq j r then (j, n + 1) ∷ l else (j, n) ∷ rest

-- What one call of `_recover_stream` reads: the clock at its gate and in `record_failure`, and
-- whether `_reset_stream` returns.
pub record Attempt : Type 0 where
  pub now : ℕ
  pub failed_at : ℕ
  pub reset_returns : Bool

abbrev pub is_critical_fault : FaultType → Bool
is_critical_fault critical = true
is_critical_fault _ = false

-- After the gate: the stream is reset, and a reset that returns clears the backoff.
pub perform_reset : String → Attempt → Watchdog → Watchdog
perform_reset why a w =
    let w' : Watchdog = record w {
      resets_total = w.resets_total + 1;
      resets_by_reason = count_reason why w.resets_by_reason;
    } in
    if a.reset_returns && not (is_critical_fault (classify_watchdog_trigger why))
    then record w' { recovery_policy = Backoff.reset w'.recovery_policy; escalated = false }
    else w'

-- The Boolean says whether the stream was reset.
unfoldable pub recover_stream : String → Attempt → Watchdog → Watchdog × Bool
unfolding perform_reset
recover_stream why a w =
    if w.escalated || ltb a.now w.next_allowed_reset
    then (w, false)
    else let (delay, policy) = fail a.failed_at w.recovery_policy in
      let w' : Watchdog = record w {
        recovery_policy = policy;
        next_allowed_reset = a.now + delay;
      } in
      if should_escalate policy
      then (record w' { escalated = true }, false)
      else (perform_reset why a w', true)

unfoldable pub reset_recovery_state : Watchdog → Watchdog
reset_recovery_state w = record w {
  recovery_policy = Backoff.reset w.recovery_policy;
  escalated = false;
  next_allowed_reset = 0;
}

-- What the checks read of the stream; `worker_alive` is none where the stream has no worker thread.
pub record StreamView : Type 0 where
  pub worker_alive : Option Bool
  pub heartbeat : Option ℕ
  pub processing_active : Bool
  pub queue_size : ℕ
  pub has_vad : Bool
  pub has_silero : Bool
  pub silero_dropped : ℕ

-- The reason for which each check asks for a reset.
unfoldable pub check_worker : StreamView → ℕ → Watchdog → Option String
check_worker v now w = elim v.worker_alive [
  | none ↦ none
  | some alive ↦ elim v.heartbeat [
    | none ↦ none
    | some beat ↦
        if not alive
        then some "worker_dead"
        else if v.processing_active && ltb w.worker_timeout (now - beat)
        then some "worker_hang"
        else none
  ]
]

unfoldable pub check_queue : StreamView → Watchdog → Option String
check_queue v w = if ltb w.queue_threshold v.queue_size then some "queue_overflow" else none

unfoldable pub check_vad : StreamView → Option String
check_vad v =
    if v.has_vad && not v.has_silero && ltb 100 v.silero_dropped then some "vad_failure" else none

unfoldable pub answer : Option String → Attempt → Watchdog → Watchdog
unfolding recover_stream
answer none a w = w
answer (some why) a w = (recover_stream why a w).0

-- One round of `_monitor_loop`: each check sees the state that the one before it left.
unfoldable pub monitor_round : StreamView → ℕ → Attempt → Attempt → Attempt → Watchdog → Watchdog
unfolding check_worker check_queue check_vad answer
monitor_round v now a b c w =
    let first : Watchdog = answer (check_worker v now w) a w in
    let second : Watchdog = answer (check_queue v first) b first in answer (check_vad v) c second
