-- ===== src/Matcher.antt =====
-- The wake phrase matcher (runtime/matcher, runtime/audio/realtime/ring_buffer.py): the registry of
-- phrases, the index of their variants, the window of hypotheses, and the scoring.
pub mod Registry
pub mod Variants
pub mod Buffer
pub mod Cooldown
pub mod Confidence
pub mod Anchor
pub mod Evaluator
