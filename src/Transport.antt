-- ===== src/Transport.antt =====
-- The transport of the runtime (runtime/transport).
pub mod Server
pub mod Handler
