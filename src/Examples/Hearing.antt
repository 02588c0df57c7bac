-- ===== src/Examples/Hearing.antt =====
-- The audio worker and the pipeline at concrete inputs.
use ava_listener.Base.{
  length, ℕ, ◌+◌, ◌*◌, ◌<◌, ◌≤◌, some, String, ◌≡◌, refl, Bool, true, false, none, List, [], ◌∷◌,
  arith,
}
use ava_listener.Base.Text.{codes}
use ava_listener.Audio.Worker.{
  Frame, Delivery, new_worker, process_chunk, silence_timeout, hysteresis, hear_silence, keep_chunk,
}
use ava_listener.Audio.Provider.{new_provider}
use ava_listener.Audio.Queue.{takes_chunk, clears_latch}
use ava_listener.Audio.Queue.Order.{chunks, new_streamer}
use ava_listener.Audio.Queue.Runs.{hears, works, Act, run_queue, heard_chunks, run_queue-chunks}
use ava_listener.Kernel.Lifecycle.{offline}
use ava_listener.Audio.Worker.Steady.{IsSteady}
use ava_listener.Audio.Worker.Hypotheses.{
  Event, chunk, woke, deliveries, AreOrdered, run, heard, deliveries-AreOrdered, run-IsSteady,
  process_chunk-ungated,
}
use ava_listener.Audio.Worker.Bursts.{run-never_speaks}
use ava_listener.Kernel.Engine.Gates.{wakes}
use ava_listener.Kernel.Engine.Runs.{StrictlyRising}
use ava_listener.Kernel.Reading.{init}
use ava_listener.Matcher.Variants.{build_index}
use ava_listener.Pipeline.{Context, inputs, pipeline-StrictlyRising}
use ava_listener.Examples.Matching.{registry, similarity}

-- A chunk of a tenth of a second, with what the recogniser then has.
abbrev frame : Bool → ℕ → String → Frame
frame speech n text = record {
  chunk = n;
  speech = speech;
  started_at = n * 100000;
  ended_at = n * 100000;
  checked_at = n * 100000;
  reset_at = n * 100000;
  state_reset_at = n * 100000;
  uuid = n;
  result = codes text;
}

-- An utterance, the reset after its wake, and a second one.
abbrev events : List Event
events =
    chunk (frame true 1 "")
    ∷ chunk (frame true 2 "")
    ∷ chunk (frame true 3 "hey")
    ∷ chunk (frame true 4 "hey nova")
    ∷ chunk (frame true 5 "hey nova")
    ∷ chunk (frame true 6 "hey nova")
    ∷ woke 600001 600002
    ∷ chunk (frame false 7 "")
    ∷ chunk (frame true 8 "hey nova")
    ∷ []

deliveries-AreOrdered_example : AreOrdered 0 (deliveries events (new_worker 0))
deliveries-AreOrdered_example = deliveries-AreOrdered 0 events

run-IsSteady_example : IsSteady (run events (new_worker 0))
run-IsSteady_example = run-IsSteady 0 events

-- A silent chunk of a worker that has heard no speech.
abbrev silent : Frame
silent = frame false 1 "hey"

silent_in_time :
    (heard silent (run [] (new_worker 0))).consecutive_silence
    < silence_timeout (heard silent (run [] (new_worker 0)))
unfolding run new_worker hysteresis hear_silence keep_chunk silence_timeout
silent_in_time = omega arith

process_chunk-ungated_example :
    (d : Delivery) × ((process_chunk silent (run [] (new_worker 0))).1 ≡ some d)
    × (d.text ≡ codes "hey")
    × (3 ≤ length d.peak)
process_chunk-ungated_example = process_chunk-ungated 0 [] silent refl silent_in_time

abbrev context : ℕ → Context
context at = record {
  index = build_index registry;
  registry = registry;
  is_paused = false;
  clock = λ n. at + n;
}

abbrev contexts : List Context
contexts =
    context 3000000 ∷ context 3100000 ∷ context 3200000 ∷ context 3300000 ∷ context 3500000 ∷ []

pipeline-StrictlyRising_example :
    StrictlyRising none
      (wakes similarity (inputs contexts (deliveries events (new_worker 0))) (init 0))
pipeline-StrictlyRising_example = pipeline-StrictlyRising similarity 0 0 events contexts

-- Two bursts of two chunks, with a silent chunk between them.
abbrev bursts : List Event
bursts =
    chunk (frame true 1 "")
    ∷ chunk (frame true 2 "")
    ∷ chunk (frame false 3 "")
    ∷ chunk (frame true 4 "")
    ∷ chunk (frame true 5 "")
    ∷ []

run-never_speaks_example : (run bursts (new_worker 0)).is_speaking ≡ false
run-never_speaks_example =
    run-never_speaks 0 bursts
      (omega arith, (omega arith, (omega arith, (omega arith, (omega arith, tt)))))

-- Chunks of the microphone, with a worker that takes some of them.
abbrev acts : List Act
acts =
    hears [] 1
    ∷ hears [] 2
    ∷ works (takes_chunk ∷ clears_latch ∷ [])
    ∷ hears (takes_chunk ∷ clears_latch ∷ []) 3
    ∷ []

run_queue-chunks_example :
    (chunks (run_queue acts (new_streamer (new_provider 0) offline)) ≡ heard_chunks acts)
    × ((run_queue acts (new_streamer (new_provider 0) offline)).warnings ≤ 1)
run_queue-chunks_example = run_queue-chunks acts (new_provider 0) offline
