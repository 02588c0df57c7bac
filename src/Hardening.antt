-- ===== src/Hardening.antt =====
-- Recovery inside the runtime (runtime/hardening) and the watchdog that uses it
-- (runtime/supervisor/watchdog.py). Times and delays are whole microseconds.
pub mod Backoff
pub mod Faults
pub mod Restart
pub mod Coordinator
pub mod Watchdog
