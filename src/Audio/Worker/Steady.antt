-- ===== src/Audio/Worker/Steady.antt =====
-- What the worker of runtime/audio/worker.py keeps from step to step.
use ava_listener.Base.{length, length-append, ℕ, ◌≤◌, ◌≡◌, ◌⊎◌, List, [], ◌∷◌, arith}
use ava_listener.Base.Text.{Text}
use ava_listener.Audio.Provider
use ava_listener.Audio.Provider.{Provider, accept, accept_all}
use ava_listener.Audio.Worker.{
  Worker, Frame, reset_state, reset_stream, begin_speech, hear_speech, hear_silence, hysteresis,
  append_bounded, keep_chunk, do_stream_reset, time_out, feed, track, trailing_pad_frames,
  pre_buffer_size,
}

-- What the worker keeps.
pub record IsSteady (w : Worker) : Type 0 where
  pub pad : w.trailing_pad ≤ trailing_pad_frames
  pub small_buffer : length w.pre_buffer ≤ pre_buffer_size
  pub one_streak : (w.consecutive_speech ≡ 0) ⊎ (w.consecutive_silence ≡ 0)
  pub peak_measured : w.peak_length ≡ length w.peak_hypothesis
  pub peak_longest : length w.last_hypothesis ≤ w.peak_length

accept-generation : (now c : ℕ) (p : Provider) → p.generation_id ≤ (accept now c p).generation_id
unfolding accept Provider.reset
accept-generation now c p = ground arith

accept_all-generation :
    (now : ℕ) (cs : List ℕ) (p : Provider) → p.generation_id ≤ (accept_all now cs p).generation_id
unfolding accept_all
accept_all-generation now [] p = omega arith
accept_all-generation now (c ∷ cs) p =
    omega (arith, accept-generation now c p, accept_all-generation now cs (accept now c p))

-- A step keeps the worker steady, and its generation does not fall.
pub record Advances (w w' : Worker) : Type 0 where
  pub steady : IsSteady w'
  pub later : w.provider.generation_id ≤ w'.provider.generation_id

append_bounded-length :
    (c : ℕ) (bs : List ℕ)
    → length bs ≤ pre_buffer_size
    → length (append_bounded c bs) ≤ pre_buffer_size
append_bounded-length c [] h = omega arith
append_bounded-length c (b ∷ bs) h =
    ground (arith, length-append (b ∷ bs) (c ∷ []), length-append bs (c ∷ []))

pub hysteresis-Advances : (f : Frame) (w : Worker) → IsSteady w → Advances w (hysteresis f w)
unfolding hysteresis hear_speech hear_silence begin_speech
hysteresis-Advances f w h =
    ground (arith, accept_all-generation f.started_at w.pre_buffer w.provider)

pub keep_chunk-Advances : (f : Frame) (w : Worker) → IsSteady w → Advances w (keep_chunk f w)
unfolding keep_chunk
keep_chunk-Advances f w h =
    ground (arith, append_bounded-length f.chunk w.pre_buffer h.small_buffer)

pub feed-Advances : (f : Frame) (w : Worker) → IsSteady w → Advances w (feed f w)
unfolding feed
feed-Advances f w h = ground (arith, accept-generation f.checked_at f.chunk w.provider)

pub reset-Advances : (a b : ℕ) (w : Worker) → IsSteady w → Advances w (reset_stream a b w)
unfolding reset_stream reset_state Provider.reset
reset-Advances a b w h = ground arith

pub time_out-Advances : (n : ℕ) (f : Frame) (w : Worker) → IsSteady w → Advances w (time_out n f w)
unfolding time_out do_stream_reset reset_state Provider.reset
time_out-Advances n f w h = ground arith

pub track-Advances : (r : Text) (w : Worker) → IsSteady w → Advances w (track r w)
unfolding track
track-Advances r w h = ground arith
