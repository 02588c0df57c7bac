-- ===== src/Audio/Worker/Bursts.antt =====
-- The hysteresis of runtime/audio/worker.py against short noises.
use ava_listener.Base.{
  leb, ℕ, ◌+◌, ◌<◌, ◌≡◌, refl, Bool, true, false, Option, List, [], ◌∷◌, arith, if_keeps,
}
use ava_listener.Base.Text.{Text}
use ava_listener.Audio.Worker.{
  Worker, Frame, Delivery, new_worker, reset_state, reset_stream, hear_speech, hear_silence,
  hysteresis, keep_chunk, silence_timeout, time_out, feed, track, deliver, finish, process_chunk,
}
use ava_listener.Audio.Worker.Hypotheses.{Event, chunk, woke, handle, run}

abbrev pub next_streak : Bool → ℕ → ℕ
next_streak true k = k + 1
next_streak false k = 0

-- No three chunks in a row are speech, after `k` that were.
abbrev pub AreShort : ℕ → List Event → Type 0
AreShort k [] = Unit
AreShort k (chunk f ∷ es) = (next_streak f.speech k < 3) × AreShort (next_streak f.speech k) es
AreShort k (woke a b ∷ es) = AreShort 0 es

-- Nobody has spoken in this generation, and the last `k` chunks were speech.
record IsQuiet (k : ℕ) (w : Worker) : Type 0 where
  silent : w.is_speaking ≡ false
  unspoken : w.has_spoken_in_generation ≡ false
  streak : w.consecutive_speech ≡ k

speech-IsQuiet :
    (k : ℕ) (f : Frame) (w : Worker)
    → IsQuiet k w
    → f.speech ≡ true
    → k + 1 < 3
    → IsQuiet (k + 1) (hysteresis f w)
unfolding hysteresis hear_speech
speech-IsQuiet k f w h s l = ground arith

silence-IsQuiet :
    (k : ℕ) (f : Frame) (w : Worker) → IsQuiet k w → f.speech ≡ false → IsQuiet 0 (hysteresis f w)
unfolding hysteresis hear_silence
silence-IsQuiet k f w h s = ground arith

keep_chunk-IsQuiet : (k : ℕ) (f : Frame) (w : Worker) → IsQuiet k w → IsQuiet k (keep_chunk f w)
unfolding keep_chunk
keep_chunk-IsQuiet k f w h = ground arith

feed-IsQuiet : (k : ℕ) (f : Frame) (w : Worker) → IsQuiet k w → IsQuiet k (feed f w)
unfolding feed
feed-IsQuiet k f w h = ground arith

time_out-IsQuiet : (k n : ℕ) (f : Frame) (w : Worker) → IsQuiet k w → IsQuiet k (time_out n f w)
unfolding time_out
time_out-IsQuiet k n f w h = ground arith

deliver-IsQuiet : (k : ℕ) (r : Text) (w : Worker) → IsQuiet k w → IsQuiet k (deliver r w).0
unfolding deliver track
deliver-IsQuiet k r w h = ground arith

finish-IsQuiet : (k : ℕ) (f : Frame) (w : Worker) → IsQuiet k w → IsQuiet k (finish f w).0
unfolding finish
finish-IsQuiet k f w h =
    if_keeps (λ (out : Worker × Option Delivery). IsQuiet k out.0)
      (leb (silence_timeout w) w.consecutive_silence) (time_out-IsQuiet k (silence_timeout w) f w h)
      (deliver-IsQuiet k f.result (feed f w) (feed-IsQuiet k f w h))

process_chunk-IsQuiet :
    (k : ℕ) (f : Frame) (w : Worker) → IsQuiet k (hysteresis f w) → IsQuiet k (process_chunk f w).0
unfolding process_chunk
process_chunk-IsQuiet k f w h =
    finish-IsQuiet k f (keep_chunk f (hysteresis f w)) (keep_chunk-IsQuiet k f (hysteresis f w) h)

woke-IsQuiet : (a b : ℕ) (w : Worker) → IsQuiet 0 (reset_stream a b w)
unfolding reset_stream reset_state
woke-IsQuiet a b w = ground arith

heard-IsQuiet :
    (s : Bool) (k : ℕ) (f : Frame) (w : Worker)
    → f.speech ≡ s
    → IsQuiet k w
    → next_streak s k < 3
    → IsQuiet (next_streak s k) (hysteresis f w)
heard-IsQuiet true k f w e h l = speech-IsQuiet k f w h e l
heard-IsQuiet false k f w e h l = silence-IsQuiet k f w h e

run-silent :
    (k : ℕ) (es : List Event) (w : Worker)
    → IsQuiet k w
    → AreShort k es
    → (run es w).is_speaking ≡ false
unfolding run handle
run-silent k [] w h a = h.silent
run-silent k (chunk f ∷ es) w h a =
    run-silent (next_streak f.speech k) es (process_chunk f w).0
      (process_chunk-IsQuiet (next_streak f.speech k) f w (heard-IsQuiet f.speech k f w refl h a.0))
      a.1
run-silent k (woke x y ∷ es) w h a = run-silent 0 es (reset_stream x y w) (woke-IsQuiet x y w) a

-- If no three chunks in a row are speech, a new worker is never in speech, however many chunks and
-- resets there are.
pub run-never_speaks :
    (now : ℕ) (es : List Event) → AreShort 0 es → (run es (new_worker now)).is_speaking ≡ false
unfolding new_worker
run-never_speaks now es a =
    run-silent 0 es (new_worker now) (record { silent = refl; unspoken = refl; streak = refl }) a
