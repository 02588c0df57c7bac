-- ===== src/Hardening/Faults.antt =====
-- runtime/hardening/fault_classifier.py. An exception is known by its class; `derived` is any class
-- that a library or the program defines below another.
pub mod Priority
use ava_listener.Base.{if◌then◌else◌, String, Bool, true, false, ◌||◌, str_eq}

pub data FaultType : Type 0 where
  transient recoverable critical : FaultType

pub data ExceptionClass : Type 0 where
  base_exception exception os_error timeout_error file_not_found_error : ExceptionClass
  queue_empty queue_full memory_error system_exit keyboard_interrupt : ExceptionClass
  derived : String → ExceptionClass → ExceptionClass

-- `isinstance(exc, _CRITICAL_EXCEPTIONS)`.
pub is_critical : ExceptionClass → Bool
is_critical file_not_found_error = true
is_critical memory_error = true
is_critical system_exit = true
is_critical keyboard_interrupt = true
is_critical (derived name parent) = is_critical parent
is_critical _ = false

-- `isinstance(exc, _TRANSIENT_EXCEPTIONS)`: TimeoutError and FileNotFoundError are OSErrors.
pub is_transient : ExceptionClass → Bool
is_transient os_error = true
is_transient timeout_error = true
is_transient file_not_found_error = true
is_transient queue_empty = true
is_transient queue_full = true
is_transient (derived name parent) = is_transient parent
is_transient _ = false

unfoldable pub classify_exception : ExceptionClass → FaultType
unfolding is_critical is_transient
classify_exception e =
    if is_critical e then critical else if is_transient e then transient else recoverable

unfoldable pub classify_watchdog_trigger : String → FaultType
classify_watchdog_trigger reason =
    if str_eq reason "model_corrupted" || str_eq reason "memory_exhausted"
    then critical
    else if str_eq reason "worker_hang"
        || str_eq reason "queue_overflow"
        || str_eq reason "inactivity"
    then transient
    else recoverable

pub data Cause : Type 0 where
  raised : ExceptionClass → Cause
  reason : String → Cause
  nothing : Cause

pub record Flags : Type 0 where
  pub is_timeout : Bool
  pub is_queue_overflow : Bool
  pub is_watchdog : Bool

abbrev classify_cause : Bool → Cause → FaultType
classify_cause w (raised e) = classify_exception e
classify_cause w (reason r) = if w then classify_watchdog_trigger r else recoverable
classify_cause w nothing = recoverable

unfoldable pub classify : Cause → Flags → FaultType
unfolding classify_exception classify_watchdog_trigger
classify cause f =
    if f.is_timeout || f.is_queue_overflow then transient else classify_cause f.is_watchdog cause
