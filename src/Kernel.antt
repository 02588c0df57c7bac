-- ===== src/Kernel.antt =====
-- The state machines of the runtime kernel (runtime/kernel).
pub mod Lifecycle
pub mod Session
pub mod Telemetry
pub mod Reading
pub mod Engine
