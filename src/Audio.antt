-- ===== src/Audio.antt =====
-- The audio path of the runtime (runtime/audio, runtime/asr/providers).
pub mod Provider
pub mod Worker
pub mod Queue
