-- ===== src/Hardening/Coordinator.antt =====
-- runtime/hardening/recovery_coordinator.py: from a fault to the action that is taken. The shutdown
-- callback is called inside a handler that catches everything, so only its being called shows.
pub mod Storm
use ava_listener.Base.{
  if◌then◌else◌, ℕ, ◌+◌, String, Bool, true, false, Option, none, some, List, [], ◌∷◌, str_eq,
}
use ava_listener.Hardening.Faults.{
  FaultType, transient, recoverable, critical, Cause, reason, Flags, classify,
}
use ava_listener.Hardening.Restart.{
  RestartManager, Readings, Outcome, request_restart, record_success, manager_should_escalate,
}

pub data RecoveryAction : Type 0 where
  recover restart escalate shutdown : RecoveryAction

-- `_escalation_log` is an association list; `shutdowns` counts the calls of the callback.
pub record Coordinator : Type 0 where
  pub restart_mgr : RestartManager
  pub escalation_log : List (String × ℕ)
  pub has_shutdown_cb : Bool
  pub shutdowns : ℕ

-- `log[k] = log.get(k, 0) + 1`.
abbrev pub count_up : String → List (String × ℕ) → List (String × ℕ)
count_up k [] = (k, 1) ∷ []
count_up k ((j, n) ∷ l) =
    let rest = count_up k l in if str_eq j k then (j, n + 1) ∷ l else (j, n) ∷ rest

-- `log.pop(k, None)`.
abbrev pub remove : String → List (String × ℕ) → List (String × ℕ)
remove k [] = []
remove k ((j, n) ∷ l) = let rest = remove k l in if str_eq j k then rest else (j, n) ∷ rest

pub do_escalate : String → Coordinator → Coordinator
do_escalate name c = record c { escalation_log = count_up name c.escalation_log }

pub do_shutdown : Coordinator → Coordinator
do_shutdown c = if c.has_shutdown_cb then record c { shutdowns = c.shutdowns + 1 } else c

unfoldable pub after_restart :
    Coordinator → Option (RestartManager × ℕ × Outcome) → Option (Coordinator × RecoveryAction)
after_restart c none = none
after_restart c (some (m, delay, outcome)) = some (record c { restart_mgr = m }, restart)

-- `none` is the ValueError that `request_restart` raises for an unknown subsystem.
unfoldable pub do_restart : String → Readings → Coordinator → Option (Coordinator × RecoveryAction)
unfolding after_restart
do_restart name r c = after_restart c (request_restart name r c.restart_mgr)

pub dispatch : FaultType → String → Readings → Coordinator → Option (Coordinator × RecoveryAction)
unfolding do_escalate do_shutdown do_restart
dispatch critical name r c = some (do_shutdown c, shutdown)
dispatch transient name r c = some (c, recover)
dispatch recoverable name r c =
    if manager_should_escalate name c.restart_mgr
    then some (do_escalate name c, escalate)
    else do_restart name r c

unfoldable pub observe_fault :
    String → Cause → Flags → Readings → Coordinator → Option (Coordinator × RecoveryAction)
unfolding dispatch
observe_fault name cause flags r c = dispatch (classify cause flags) name r c

unfoldable pub observe_watchdog_event :
    String → String → Readings → Coordinator → Option (Coordinator × RecoveryAction)
unfolding observe_fault
observe_watchdog_event name why r c =
    observe_fault name (reason why)
      (record { is_timeout = false; is_queue_overflow = false; is_watchdog = true }) r c

unfoldable pub record_recovery_success : String → Coordinator → Coordinator
record_recovery_success name c = record c {
  restart_mgr = record_success name c.restart_mgr;
  escalation_log = remove name c.escalation_log;
}
