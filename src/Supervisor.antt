-- ===== src/Supervisor.antt =====
-- The supervisor process (runtime/supervisor): its restart policy, its escalation steps and the
-- monitor loop that uses both.
pub mod Restarts
pub mod Escalation
pub mod Monitor
pub mod Messages
pub mod Commands
