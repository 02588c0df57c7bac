-- ===== src/Examples/Recovery.antt =====
-- The supervisor, the restarts and the watchdog at concrete inputs.
use ava_listener.Base.{
  ltb, ℕ, ◌+◌, ◌<◌, ◌≡◌, refl, ◌↔◌, ◌⊎◌, Bool, true, false, none, some, List, [], ◌∷◌, arith,
}
use ava_listener.Supervisor.Restarts.{create, can_restart}
use ava_listener.Supervisor.Restarts.Window
use ava_listener.Supervisor.Restarts.Window.{
  Call, asked, recorded, can_restart-run, restarts, within,
}
use ava_listener.Supervisor.Monitor.{Supervisor, Round, init, monitor_loop, handle_worker_exit}
use ava_listener.Supervisor.Monitor.Escalates.{StaysMild, last_steps_unreached}
use ava_listener.Supervisor.Monitor.GivesUp.{handle_worker_exit_gate}
use ava_listener.Supervisor.Monitor.Crashes.{monitor_loop-crashes}
use ava_listener.Hardening.Faults.{
  classify_watchdog_trigger, critical, raised, classify, derived, file_not_found_error, reason,
  ExceptionClass,
}
use ava_listener.Hardening.Faults.Priority.{classify-critical, IsListed, IsBelow}
use ava_listener.Hardening.Restart.{
  RestartRecord, Readings, audio, default_policy, new_record, Subsystem, completed, request_record,
}
use ava_listener.Hardening.Restart
use ava_listener.Hardening.Coordinator.{Coordinator}
use ava_listener.Hardening.Coordinator.Storm.{Fault, observe_all, restarts-bounded, default_retries}
use ava_listener.Hardening.Watchdog
use ava_listener.Hardening.Watchdog.{Attempt, reset_recovery_state, Watchdog}
use ava_listener.Hardening.Watchdog.Spacing.{Request, run, reset_times, Spaced, resets-Spaced}
use ava_listener.Hardening.Watchdog.Escalation.{run-never_escalates, run-escalates}

-- A worker that crashes, with a new one at the next pid.
abbrev crash : ℕ → Round
crash at = record {
  poll = some 1;
  now = at;
  asked_at = at;
  recorded_at = at;
  spawned_at = at;
  pid = some (at + 1);
  ipc_sent = true;
  terminated = true;
}

-- A worker that runs, with a heartbeat that is 20 seconds old.
abbrev stale : Round
stale = record (crash 20) { poll = none }

abbrev crashes : List Round
crashes = crash 1 ∷ crash 2 ∷ crash 3 ∷ crash 4 ∷ crash 5 ∷ crash 6 ∷ []

abbrev supervisor : Supervisor
supervisor = record {
  heartbeat_timeout = 15;
  restart_policy = record { max_restarts = 1; window = 60; timestamps = 0 ∷ [] };
  recovery_policy = record { failures = 0 };
  degraded = false;
  worker_proc = some 7;
  last_heartbeat = 0;
  stopped = false;
  emitted = [];
}

abbrev policy_calls : List Call
policy_calls = recorded 10 ∷ asked 20 ∷ recorded 65 ∷ asked 71 ∷ []

can_restart-run_example :
    (can_restart 75 (Window.run (create 2 60) policy_calls)).1
    ≡ ltb (within 75 60 (restarts policy_calls)) 2
can_restart-run_example =
    can_restart-run 2 60 policy_calls 71 75
      (omega arith, (omega arith, (omega arith, (omega arith, omega arith)))) (omega arith)

last_steps_unreached_example :
    StaysMild (monitor_loop (record (init 15 (create 5 60)) { worker_proc = some 7 }) crashes)
last_steps_unreached_example = last_steps_unreached 15 (create 5 60) (some 7) crashes

handle_worker_exit_gate_example :
    ((can_restart 1 supervisor.restart_policy).1 ≡ true)
      × ((handle_worker_exit (crash 1) supervisor).worker_proc ≡ some 2)
    ⊎ ((can_restart 1 supervisor.restart_policy).1 ≡ false)
      × ((rs : List Round)
          → (monitor_loop (handle_worker_exit (crash 1) supervisor) rs).worker_proc ≡ none)
handle_worker_exit_gate_example = handle_worker_exit_gate (crash 1) supervisor 2 refl

-- Six crashes, two restarts being allowed.
monitor_loop-crashes_example :
    (monitor_loop (record (init 15 (create 2 60)) { worker_proc = some 7 }) crashes).worker_proc
    ≡ some 7
monitor_loop-crashes_example = monitor_loop-crashes 15 2 60 7 crashes (omega arith) (
  (1, 2, refl, refl),
  (
    (1, 3, refl, refl),
    ((1, 4, refl, refl), ((1, 5, refl, refl), ((1, 6, refl, refl), ((1, 7, refl, refl), tt)))),
  ),
)

abbrev readings : ℕ → Readings
readings at = record { failed_at = at; now = at; handler_returns = true; done_at = at }

classify-critical_example :
    (classify
        (raised (derived "ModelMissing" file_not_found_error))
        (record { is_timeout = false; is_queue_overflow = false; is_watchdog = false })
      ≡ critical)
    ↔ ((c : ExceptionClass) × IsListed c × IsBelow c (derived "ModelMissing" file_not_found_error))
classify-critical_example = classify-critical (derived "ModelMissing" file_not_found_error) false

abbrev restarted : RestartRecord
restarted = record (new_record (default_policy audio)) {
  restart_count = 1;
  last_restart_ts = 1000000;
}

abbrev fault : ℕ → Fault
fault at = record {
  subsystem = "vad";
  cause = reason "stuck";
  flags = record { is_timeout = false; is_queue_overflow = false; is_watchdog = false };
  readings = readings at;
}

abbrev coordinator : Coordinator
coordinator = record {
  restart_mgr = record Restart.init { handlers = λ s. true };
  escalation_log = [];
  has_shutdown_cb = true;
  shutdowns = 0;
}

abbrev faults : List Fault
faults = fault 1 ∷ fault 2 ∷ fault 3 ∷ fault 4 ∷ []

restarts-bounded_example :
    ((observe_all coordinator faults).restart_mgr.records Restart.vad).restart_count
    < default_retries Restart.vad
restarts-bounded_example = restarts-bounded coordinator faults Restart.vad refl

abbrev request : Bool → ℕ → Request
request returns at = record {
  why = "worker_dead";
  attempt = record { now = at; failed_at = at; reset_returns = returns };
}

abbrev good : List Request
good = request true 100000 ∷ request true 150000 ∷ request true 300000 ∷ []

abbrev bad : List Request
bad =
    request false 0
    ∷ request false 8000000
    ∷ request false 16000000
    ∷ request false 24000000
    ∷ request false 32000000
    ∷ request false 40000000
    ∷ request false 48000000
    ∷ request false 56000000
    ∷ []

resets-Spaced_example : Spaced 100000 0 (reset_times Watchdog.init good)
resets-Spaced_example = resets-Spaced good

run-never_escalates_example :
    ((run Watchdog.init good).escalated ≡ false)
    × ((run Watchdog.init good).recovery_policy.retries ≡ 0)
unfolding classify_watchdog_trigger
run-never_escalates_example =
    run-never_escalates good ((refl, refl), ((refl, refl), ((refl, refl), tt)))

run-escalates_example : (run Watchdog.init bad).escalated ≡ true
run-escalates_example =
    run-escalates bad
      (
        omega arith,
        refl,
        (
          omega arith,
          refl,
          (
            omega arith,
            refl,
            (
              omega arith,
              refl,
              (
                omega arith,
                refl,
                (omega arith, refl, (omega arith, refl, (omega arith, refl, tt))),
              ),
            ),
          ),
        ),
      )
      (omega arith)
