-- ===== src/Audio/Queue/Runs.antt =====
-- Runs of the microphone and the worker.
use ava_listener.Base.{ℕ, ◌+◌, ◌≤◌, ◌≡◌, refl, sym, ap, ◌∙◌, List, [], ◌∷◌, ◌++◌, arith}
use mathlib.Core.List.{append_assoc, append-nil}
use mathlib.Core.Path.{subst}
use ava_listener.Audio.Provider.{Provider}
use ava_listener.Kernel.Lifecycle.{SubsystemState}
use ava_listener.Audio.Queue.{Streamer, Meanwhile, new_queue, work_on, audio_callback}
use ava_listener.Audio.Queue.Order.{
  chunks, new_streamer, Moved, IsQuiet, Called, latch_resets, work_on-Moved, audio_callback-Called,
}

-- What happens to the queue: a callback, with what the worker does in the middle of it, or the worker
-- between two callbacks.
pub data Act : Type 0 where
  hears : List Meanwhile → ℕ → Act
  works : List Meanwhile → Act

unfoldable pub act_on : Act → Streamer → Streamer
unfolding audio_callback work_on
act_on (hears between c) s = audio_callback between c s
act_on (works ms) s = work_on ms s

unfoldable pub run_queue : List Act → Streamer → Streamer
unfolding act_on
run_queue [] s = s
run_queue (a ∷ acts) s = run_queue acts (act_on a s)

-- The chunks that the microphone gives.
abbrev pub heard_chunks : List Act → List ℕ
heard_chunks [] = []
heard_chunks (hears between c ∷ acts) = c ∷ heard_chunks acts
heard_chunks (works ms ∷ acts) = heard_chunks acts

-- How often the worker resets the latch in the middle of a callback.
abbrev pub raced : List Act → ℕ
raced [] = 0
raced (hears between c ∷ acts) = raced acts + latch_resets between
raced (works ms ∷ acts) = raced acts

Ran : ℕ → List Act → Streamer → Type 0
Ran n acts s =
    IsQuiet (raced acts + n) (run_queue acts s)
    × (chunks (run_queue acts s) ≡ chunks s ++ heard_chunks acts)

run_queue-Ran : (n : ℕ) (acts : List Act) (s : Streamer) → IsQuiet n s → Ran n acts s
unfolding run_queue Ran
run_queue-Ran n [] s h = (subst (λ k. IsQuiet k s) (omega arith) h, sym (append-nil (chunks s)))
run_queue-Ran n (hears between c ∷ acts) s h =
    let k : Called (latch_resets between + n) c s (audio_callback between c s) =
      audio_callback-Called between n c s h in
    let (i, e) =
      run_queue-Ran (latch_resets between + n) acts (audio_callback between c s) k.is_quiet in
    (
      subst (λ m. IsQuiet m (run_queue acts (audio_callback between c s))) (omega arith) i,
      e
          ∙ ap (λ cs. cs ++ heard_chunks acts) k.chunks
          ∙ append_assoc (chunks s) (c ∷ []) (heard_chunks acts),
    )
run_queue-Ran n (works ms ∷ acts) s h =
    let m : Moved (latch_resets ms) s (work_on ms s) = work_on-Moved ms s in
    let (i, e) = run_queue-Ran n acts (work_on ms s) (record {
      maxsize = m.maxsize ∙ h.maxsize;
      threshold = m.threshold ∙ h.threshold;
      silent = omega (arith, m.warnings, h.silent);
      count = m.enqueued ∙ h.count ∙ sym m.callbacks;
    }) in
    (i, e ∙ ap (λ cs. cs ++ heard_chunks acts) m.chunks)

-- The worker gets every chunk of the microphone once and in order: what it has got and what is in
-- the queue are the chunks of the callbacks, whatever the worker does before, after and in the
-- middle of a callback. However long the queue gets, the callback logs that the worker falls behind
-- at most as often as the worker resets the latch in the middle of a callback: never, without such a
-- race.
pub run_queue-chunks :
    (acts : List Act) (p : Provider) (fsm : SubsystemState)
    → (chunks (run_queue acts (new_streamer p fsm)) ≡ heard_chunks acts)
      × ((run_queue acts (new_streamer p fsm)).warnings ≤ raced acts)
unfolding Ran new_queue
run_queue-chunks acts p fsm =
    let (i, e) =
      run_queue-Ran 0 acts (new_streamer p fsm)
        (record { maxsize = refl; threshold = refl; silent = omega arith; count = refl }) in
    (e, omega (arith, i.silent))
