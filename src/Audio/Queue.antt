-- ===== src/Audio/Queue.antt =====
-- `QueueManager` of runtime/audio/queue_manager.py, and `_audio_callback`, `start` and `stop` of
-- `SherpaStreamer` in runtime/asr/streaming.py. Chunks are numbers; each call of the queue is one
-- step, and the worker may take chunks and reset the latch between the two tests of the depth in a
-- callback.
pub mod Order
pub mod Runs
use ava_listener.Base.{
  ltb, leb, ◌==◌, if◌then◌else◌, length, ℕ, zero, suc, ◌+◌, Bool, true, false, not, ◌&&◌, ◌||◌,
  Option, none, some, List, [], ◌∷◌, ◌++◌,
}
use ava_listener.Audio.Provider
use ava_listener.Audio.Provider.{Provider}
use ava_listener.Kernel.Lifecycle.{
  SubsystemState, initializing, ready, active, transition, shutdown,
}

pub record QueueManager : Type 0 where
  pub queue : List ℕ
  pub maxsize : ℕ  -- 0 for no bound
  pub warn_threshold : ℕ
  pub warn_logged : Bool
  pub enqueue_count : ℕ

unfoldable pub new_queue : ℕ → ℕ → QueueManager
new_queue maxsize warn_threshold = record {
  queue = [];
  maxsize = maxsize;
  warn_threshold = warn_threshold;
  warn_logged = false;
  enqueue_count = 0;
}

abbrev pub depth : QueueManager → ℕ
depth q = length q.queue

-- `none` is `queue.Full`.
unfoldable pub enqueue : ℕ → QueueManager → Option QueueManager
enqueue c q =
    let q' : QueueManager = record q {
      queue = q.queue ++ c ∷ [];
      enqueue_count = q.enqueue_count + 1;
    } in
    if not (q.maxsize == 0) && leb q.maxsize (depth q)
    then none
    else some (record q' { warn_logged = q.warn_logged || ltb q.warn_threshold (depth q') })

abbrev pub first : List ℕ → Option ℕ
first [] = none
first (c ∷ cs) = some c

abbrev pub others : List ℕ → List ℕ
others [] = []
others (c ∷ cs) = cs

-- `none` is the timeout.
unfoldable pub dequeue : QueueManager → Option ℕ × QueueManager
dequeue q = (first q.queue, record q { queue = others q.queue })

unfoldable pub reset_warn : QueueManager → QueueManager
reset_warn q = record q { warn_logged = false }

abbrev pub audio_queue_max : ℕ
audio_queue_max = 20

-- The streamer, with the worker's end of the queue: `taken` are the chunks that the worker has got,
-- the oldest first, and `warnings` counts the log lines of the callback.
pub record Streamer : Type 0 where
  pub manager : QueueManager
  pub callback_count : ℕ
  pub warnings : ℕ
  pub taken : List ℕ
  pub provider : Provider
  pub asr_fsm : SubsystemState
  pub audio_fsm : SubsystemState
  pub stopped : Bool

abbrev got : Option ℕ → List ℕ → List ℕ
got none cs = cs
got (some c) cs = cs ++ c ∷ []

unfoldable pub take_chunk : Streamer → Streamer
unfolding dequeue
take_chunk s = record s {
  manager = (dequeue s.manager).1;
  taken = got (dequeue s.manager).0 s.taken;
}

unfoldable pub clear_latch : Streamer → Streamer
unfolding reset_warn
clear_latch s = record s { manager = reset_warn s.manager }

-- What the worker does meanwhile: it takes a chunk, or resets the latch.
pub data Meanwhile : Type 0 where
  takes_chunk clears_latch : Meanwhile

unfoldable pub work_on : List Meanwhile → Streamer → Streamer
unfolding take_chunk clear_latch
work_on [] s = s
work_on (takes_chunk ∷ ms) s = work_on ms (take_chunk s)
work_on (clears_latch ∷ ms) s = work_on ms (clear_latch s)

-- The second half of the callback: the count, and the warning.
unfoldable pub warn_depth : Streamer → Streamer
warn_depth s =
    let s' : Streamer = record s { callback_count = s.callback_count + 1 } in
    if ltb audio_queue_max (depth s.manager) && not s.manager.warn_logged
    then record s' { manager = record s.manager { warn_logged = true }; warnings = s.warnings + 1 }
    else s'

abbrev pub after_enqueue : Option QueueManager → List Meanwhile → Streamer → Streamer
after_enqueue none between s = s
after_enqueue (some q) between s = warn_depth (work_on between (record s { manager = q }))

-- `between` is what the worker does after the new chunk is in the queue, before the callback reads the
-- depth.
unfoldable pub audio_callback : List Meanwhile → ℕ → Streamer → Streamer
unfolding enqueue work_on warn_depth
audio_callback between c s = after_enqueue (enqueue c s.manager) between s

abbrev step_to :
    SubsystemState → SubsystemState → (SubsystemState → Option Streamer) → Option Streamer
step_to target state next = elim (transition state target) [ none ↦ none | some s ↦ next s ]

-- `start` up to the open microphone: a new stream, and both state machines. `none` is the ValueError
-- of an illegal transition.
unfoldable pub start : ℕ → Streamer → Option Streamer
unfolding transition
start now s = step_to initializing s.asr_fsm (λ asr. step_to ready asr (λ asr'.
    step_to initializing s.audio_fsm (λ audio. step_to ready audio (λ audio'.
      step_to active audio' (λ audio''. some (record s {
        stopped = false;
        provider = Provider.reset now s.provider;
        asr_fsm = asr';
        audio_fsm = audio'';
      }))))))

unfoldable pub stop_stream : Streamer → Option Streamer
unfolding shutdown
stop_stream s = elim (shutdown s.asr_fsm) [
  | none ↦ none
  | some asr ↦ elim (shutdown s.audio_fsm) [
    | none ↦ none
    | some audio ↦ some (record s { stopped = true; asr_fsm = asr; audio_fsm = audio })
  ]
]
