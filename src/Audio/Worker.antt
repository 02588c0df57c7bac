-- ===== src/Audio/Worker.antt =====
-- `AudioWorker` of runtime/audio/worker.py: one chunk of the loop of `_run`, from the decision of
-- the voice detector to the hypothesis that is delivered. Chunks are numbers. The heartbeat, the
-- timing counters and the diagnostics of every 30 seconds are left out.
pub mod Steady
pub mod Hypotheses
pub mod Bursts
use ava_listener.Base.{
  ltb, leb, ◌==◌, if◌then◌else◌, length, is_empty, any, ℕ, ◌+◌, ◌-◌, Bool, true, false, not, ◌&&◌,
  Option, none, some, List, [], ◌∷◌, ◌++◌,
}
use ava_listener.Base.Text.{Text, codes, text_eq, contains}
use ava_listener.Audio.Provider
use ava_listener.Audio.Provider.{Provider, accept, accept_all}
use ava_listener.Kernel.Lifecycle.{SubsystemState, active, recovering, same, recover, transition}

abbrev pub trailing_pad_frames : ℕ
trailing_pad_frames = 2

abbrev pub pre_buffer_size : ℕ
pre_buffer_size = 5

pub record Worker : Type 0 where
  pub is_speaking : Bool
  pub consecutive_speech : ℕ
  pub consecutive_silence : ℕ
  pub has_spoken_in_generation : Bool
  pub utterance_start_time : ℕ
  pub last_valid_speech_duration : ℕ
  pub trailing_pad : ℕ
  pub last_hypothesis : Text
  pub stable_frames : ℕ
  pub peak_hypothesis : Text
  pub peak_length : ℕ
  pub pre_buffer : List ℕ
  pub correlation_id : ℕ
  pub provider : Provider
  pub asr_fsm : SubsystemState
  pub vad_fsm : SubsystemState

unfoldable pub new_worker : ℕ → Worker
new_worker now = record {
  is_speaking = false;
  consecutive_speech = 0;
  consecutive_silence = 0;
  has_spoken_in_generation = false;
  utterance_start_time = now;
  last_valid_speech_duration = 0;
  trailing_pad = 0;
  last_hypothesis = [];
  stable_frames = 0;
  peak_hypothesis = [];
  peak_length = 0;
  pre_buffer = [];
  correlation_id = 0;
  provider = Provider.new_provider now;
  asr_fsm = active;
  vad_fsm = active;
}

-- A chunk with what its round reads: the voice detector, the clock at each place, the new
-- correlation identifier, and the recogniser's text after the chunk.
pub record Frame : Type 0 where
  pub chunk : ℕ
  pub speech : Bool
  pub started_at : ℕ
  pub ended_at : ℕ
  pub checked_at : ℕ
  pub reset_at : ℕ
  pub state_reset_at : ℕ
  pub uuid : ℕ
  pub result : Text

-- The arguments of `on_hypothesis`.
pub record Delivery : Type 0 where
  pub text : Text
  pub stability : ℕ
  pub peak : Text
  pub generation_id : ℕ
  pub correlation_id : ℕ

unfoldable pub reset_state : ℕ → Worker → Worker
reset_state now w = record w {
  is_speaking = false;
  consecutive_speech = 0;
  consecutive_silence = 0;
  has_spoken_in_generation = false;
  utterance_start_time = now;
  trailing_pad = 0;
  last_hypothesis = [];
  stable_frames = 0;
  peak_hypothesis = [];
  peak_length = 0;
}

-- The pre-buffer is flushed when speech starts.
pub begin_speech : Frame → Worker → Worker
begin_speech f w = record w {
  is_speaking = true;
  utterance_start_time = f.started_at;
  has_spoken_in_generation = true;
  correlation_id = f.uuid;
  provider = accept_all f.started_at w.pre_buffer w.provider;
  pre_buffer = [];
}

unfoldable pub hear_speech : Frame → Worker → Worker
unfolding begin_speech
hear_speech f w =
    let w' : Worker = record w {
      consecutive_speech = w.consecutive_speech + 1;
      consecutive_silence = 0;
    } in
    if leb 3 w'.consecutive_speech && not w'.is_speaking then begin_speech f w' else w'

unfoldable pub hear_silence : Frame → Worker → Worker
hear_silence f w =
    let w' : Worker = record w {
      consecutive_silence = w.consecutive_silence + 1;
      consecutive_speech = 0;
    } in
    if leb 8 w'.consecutive_silence && w'.is_speaking
    then record w' {
      is_speaking = false;
      last_valid_speech_duration = f.ended_at - w'.utterance_start_time;
    }
    else w'

unfoldable pub hysteresis : Frame → Worker → Worker
unfolding hear_speech hear_silence
hysteresis f w = if f.speech then hear_speech f w else hear_silence f w

-- `deque(maxlen=5).append`.
abbrev pub append_bounded : ℕ → List ℕ → List ℕ
append_bounded c [] = c ∷ []
append_bounded c (b ∷ bs) =
    if ltb (length (b ∷ bs)) pre_buffer_size then (b ∷ bs) ++ c ∷ [] else bs ++ c ∷ []

unfoldable pub keep_chunk : Frame → Worker → Worker
keep_chunk f w =
    if w.is_speaking then w else record w { pre_buffer = append_bounded f.chunk w.pre_buffer }

abbrev partial_tokens : List Text
partial_tokens =
    codes "wake"
    ∷ codes "listen"
    ∷ codes "hey"
    ∷ codes "ar"
    ∷ codes "arv"
    ∷ codes "arbe"
    ∷ codes "wake up"
    ∷ []

-- 25 chunks of silence while a phrase may be half said, else 18.
unfoldable pub silence_timeout : Worker → ℕ
silence_timeout w = if any (λ tok. contains tok w.last_hypothesis) partial_tokens then 25 else 18

-- `recover`, and from RECOVERING back to ACTIVE. Neither call raises, whatever the state is; should
-- one, the state would stay.
abbrev or_stay : SubsystemState → Option SubsystemState → SubsystemState
or_stay s none = s
or_stay s (some t) = t

abbrev reactivate : SubsystemState → SubsystemState
reactivate s = if same s recovering then or_stay s (transition s active) else s

unfoldable pub recover_fsm : SubsystemState → SubsystemState
unfolding recover transition
recover_fsm s = reactivate (or_stay s (recover s))

-- `_do_stream_reset("inactivity")`.
pub do_stream_reset : Frame → Worker → Worker
unfolding reset_state recover_fsm
do_stream_reset f w = reset_state f.state_reset_at (record w {
  provider = Provider.reset f.reset_at w.provider;
  asr_fsm = recover_fsm w.asr_fsm;
  vad_fsm = recover_fsm w.vad_fsm;
})

-- The reset at the very chunk at which the timeout is met.
pub time_out : ℕ → Frame → Worker → Worker
unfolding do_stream_reset
time_out timeout f w =
    if w.consecutive_silence == timeout
      && w.has_spoken_in_generation
      && leb 15000000 (f.checked_at - w.provider.last_reset_time)
    then do_stream_reset f w
    else w

pub feed : Frame → Worker → Worker
feed f w =
    if w.is_speaking
    then record w { provider = accept f.checked_at f.chunk w.provider; trailing_pad = 0 }
    else if ltb w.trailing_pad trailing_pad_frames
    then record w {
      provider = accept f.checked_at f.chunk w.provider;
      trailing_pad = w.trailing_pad + 1;
    }
    else w

pub track : Text → Worker → Worker
track result w =
    let longer : Bool = ltb w.peak_length (length result) in
    let stays : Bool = text_eq result w.last_hypothesis in
    record w {
      peak_hypothesis = if longer then result else w.peak_hypothesis;
      peak_length = if longer then length result else w.peak_length;
      stable_frames = if stays then w.stable_frames + 1 else 0;
      last_hypothesis = if stays then w.last_hypothesis else result;
    }

abbrev delivery : Text → Worker → Delivery
delivery result w = record {
  text = result;
  stability = w.stable_frames;
  peak = w.peak_hypothesis;
  generation_id = w.provider.generation_id;
  correlation_id = w.correlation_id;
}

pub deliver : Text → Worker → Worker × Option Delivery
unfolding track
deliver result w =
    let w' : Worker = track result w in
    if is_empty result
    then (w, none)
    else if w'.is_speaking
    then (w', some (delivery result w'))
    else if leb w'.trailing_pad trailing_pad_frames
    then (w', some (delivery result w'))
    else (w', none)

-- After the hysteresis: the timeout, or the recogniser and the delivery.
pub finish : Frame → Worker → Worker × Option Delivery
unfolding silence_timeout time_out feed deliver
finish f w =
    if leb (silence_timeout w) w.consecutive_silence
    then (time_out (silence_timeout w) f w, none)
    else deliver f.result (feed f w)

unfoldable pub process_chunk : Frame → Worker → Worker × Option Delivery
unfolding hysteresis keep_chunk finish
process_chunk f w = finish f (keep_chunk f (hysteresis f w))

-- `_reset_stream` of runtime/asr/streaming.py: the reset from outside, after a wake.
unfoldable pub reset_stream : ℕ → ℕ → Worker → Worker
unfolding reset_state recover_fsm
reset_stream reset_at state_reset_at w = reset_state state_reset_at (record w {
  provider = Provider.reset reset_at w.provider;
  asr_fsm = recover_fsm w.asr_fsm;
  vad_fsm = recover_fsm w.vad_fsm;
})
