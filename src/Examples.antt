-- ===== src/Examples.antt =====
-- The theorems at concrete inputs.
mod Recovery
mod Matching
mod Waking
mod Hearing
mod Serving
mod Loading
mod Running
