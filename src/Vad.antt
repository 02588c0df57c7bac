-- ===== src/Vad.antt =====
-- `HybridVAD` of runtime/vad/pipeline.py. Samples are numbers. The detector WebRTC, the network
-- Silero, which may raise, and the loudness that numpy computes for a chunk are read from outside;
-- the lifecycle and the log are left out.
pub mod Tidy
pub mod Runs
use ava_listener.Base.{
  ltb, leb, ◌==◌, if◌then◌else◌, is_empty, length, ℕ, zero, suc, ◌+◌, ◌-◌, ◌/◌, ◌%◌, Bool, true,
  false, ◌||◌, Option, none, some, List, [], ◌∷◌, ◌++◌,
}
use ava_listener.Base.Ratio.{Ratio, percent, add, mul, le_ratio, lt_ratio, max_ratio}
use mathlib.Core.List.{reverse}

abbrev pub noise_history_frames : ℕ
noise_history_frames = 40

abbrev pub window : ℕ
window = 512

-- RMS_FLOOR, and `rms < 0.0001`.
abbrev pub rms_floor : Ratio
rms_floor = record { num = 5; den = 1000 }

abbrev pub silence : Ratio
silence = record { num = 1; den = 10000 }

unfoldable pub take : {A : Type 0} → ℕ → List A → List A
take zero xs = []
take (suc n) [] = []
take (suc n) (x ∷ xs) = x ∷ take n xs

unfoldable pub drop : {A : Type 0} → ℕ → List A → List A
drop zero xs = xs
drop (suc n) [] = []
drop (suc n) (x ∷ xs) = drop n xs

-- The state of a network with states `S`. `audio_buffer` is `none` before `reset_state` has run:
-- reading it is an error. `last_speech_pass` is that of `getattr(..., False)`.
pub record Vad (S : Type 0) : Type 0 where
  pub has_silero : Bool
  pub webrtc_dropped : ℕ
  pub silero_dropped : ℕ
  pub speech_passed : ℕ
  pub silero_probs : List Ratio
  pub noise_history : List Ratio  -- the newest last
  pub audio_buffer : Option (List ℕ)
  pub silero_state : S
  pub silero_context : List ℕ
  pub frame_count : ℕ
  pub last_speech_pass : Bool

-- A chunk with its loudness, and what WebRTC says of it: `none` if it raises.
pub record Chunk : Type 0 where
  pub samples : List ℕ
  pub rms : Ratio
  pub webrtc : Option Bool

pub record Verdict : Type 0 where
  pub webrtc : Bool
  pub silero_prob : Ratio
  pub silero_pass : Bool
  pub passed : Bool

abbrev pub dropped : Verdict
dropped = record { webrtc = false; silero_prob = percent 0; silero_pass = false; passed = false }

abbrev insert : Ratio → List Ratio → List Ratio
insert r [] = r ∷ []
insert r (s ∷ rs) = let rest = insert r rs in if le_ratio r s then r ∷ s ∷ rs else s ∷ rest

abbrev sort : List Ratio → List Ratio
sort [] = []
sort (r ∷ rs) = insert r (sort rs)

abbrev first_or : Ratio → List Ratio → Ratio
first_or d [] = d
first_or d (r ∷ rs) = r

-- `statistics.median`: the middle, or the mean of the two in the middle.
unfoldable pub median : List Ratio → Ratio
unfolding drop
median rs =
    let sorted : List Ratio = sort rs in
    let half : ℕ = length rs / 2 in
    if length rs % 2 == 1
    then first_or rms_floor (drop half sorted)
    else mul (percent 50)
        (add (first_or rms_floor (drop (half - 1) sorted)) (first_or rms_floor (drop half sorted)))

unfoldable pub adaptive_noise_floor : List Ratio → Ratio
unfolding median
adaptive_noise_floor [] = rms_floor
adaptive_noise_floor (r ∷ rs) = max_ratio (median (r ∷ rs)) rms_floor

-- `max(RMS_FLOOR, floor * NOISE_FLOOR_MULTIPLIER)`.
unfoldable pub energy_threshold : List Ratio → Ratio
unfolding adaptive_noise_floor
energy_threshold rs = max_ratio rms_floor (mul (adaptive_noise_floor rs) (percent 180))

-- `deque(maxlen=NOISE_HISTORY_FRAMES).append`.
abbrev pub append_noise : Ratio → List Ratio → List Ratio
append_noise r [] = r ∷ []
append_noise r (s ∷ rs) =
    if ltb (length (s ∷ rs)) noise_history_frames then (s ∷ rs) ++ r ∷ [] else rs ++ r ∷ []

abbrev pub zeros : ℕ → List ℕ
zeros zero = []
zeros (suc n) = 0 ∷ zeros n

module _ {S : Type 0} (zero_state : S) (infer : S → List ℕ → Option (Ratio × S)) where
  unfoldable pub reset_state : Vad S → Vad S
  reset_state v =
      let cleared : Vad S = record v { audio_buffer = some [] } in
      if v.has_silero
      then record cleared {
        silero_state = zero_state;
        silero_context = zeros 64;
        frame_count = 0;
        last_speech_pass = false;
      }
      else cleared

  -- `__init__`: without the model file, `reset_state` does not run.
  unfoldable pub new_vad : Bool → Vad S
  unfolding reset_state
  new_vad has_silero =
      let v : Vad S = record {
        has_silero = has_silero;
        webrtc_dropped = 0;
        silero_dropped = 0;
        speech_passed = 0;
        silero_probs = [];
        noise_history = [];
        audio_buffer = none;
        silero_state = zero_state;
        silero_context = zeros 64;
        frame_count = 0;
        last_speech_pass = false;
      } in
      if has_silero then reset_state v else v

  abbrev pub after_infer : Option (Ratio × S) → List ℕ → Vad S → Option (Ratio × Vad S)
  after_infer none input v = none
  after_infer (some (prob, state)) input v = some (
    prob,
    record v {
      silero_state = state;
      silero_context = drop (length input - 64) input;
      frame_count = v.frame_count + 1;
    },
  )

  -- `_run_silero`: the samples after the last 64 that the network has read. `none` is an error of
  -- the network.
  unfoldable pub run_silero : List ℕ → Vad S → Option (Ratio × Vad S)
  unfolding drop
  run_silero segment v =
      let input : List ℕ = v.silero_context ++ segment in
      after_infer (infer v.silero_state input) input v

  abbrev pub put_prob :
      Ratio → Option (List Ratio × (List ℕ × Vad S)) → Option (List Ratio × (List ℕ × Vad S))
  put_prob prob none = none
  put_prob prob (some (probs, rest)) = some (prob ∷ probs, rest)

  abbrev pub go_on :
      Option (Ratio × Vad S)
      → (Vad S → Option (List Ratio × (List ℕ × Vad S)))
      → Option (List Ratio × (List ℕ × Vad S))
  go_on none next = none
  go_on (some (prob, v)) next = put_prob prob (next v)

  -- `while len(self._audio_buffer) >= 512`: the probabilities, the state and the rest of the
  -- buffer. A round for each sample is enough.
  unfoldable pub drain : ℕ → List ℕ → Vad S → Option (List Ratio × (List ℕ × Vad S))
  unfolding run_silero take drop
  drain zero buffer v = some ([], (buffer, v))
  drain (suc n) buffer v =
      let rest = go_on (run_silero (take window buffer) v) (drain n (drop window buffer)) in
      if leb window (length buffer) then rest else some ([], (buffer, v))

  abbrev pub best : List Ratio → Ratio
  best [] = percent 0
  best (r ∷ rs) = max_ratio r (best rs)

  abbrev rejected : Bool → Chunk → Vad S → Vad S × Verdict
  rejected true c v =
      (record v { speech_passed = v.speech_passed + 1 }, record dropped { passed = true })
  rejected false c v = (record v { noise_history = append_noise c.rms v.noise_history }, dropped)

  -- WebRTC hears no speech: Silero is reset, and a loud chunk passes all the same.
  unfoldable pub reject : Chunk → Vad S → Vad S × Verdict
  unfolding reset_state energy_threshold
  reject c v =
      let counted : Vad S = record v { webrtc_dropped = v.webrtc_dropped + 1 } in
      let cooled : Vad S = if v.has_silero then reset_state counted else counted in
      rejected (le_ratio (energy_threshold v.noise_history) c.rms) c
        (record cooled { audio_buffer = some [] })

  abbrev verified : Bool → Bool → Ratio → Chunk → Vad S → Vad S × Verdict
  verified true silero prob c v = (
    record v { speech_passed = v.speech_passed + 1; last_speech_pass = true },
    record { webrtc = true; silero_prob = prob; silero_pass = silero; passed = true },
  )
  verified false silero prob c v = (
    record v {
      silero_dropped = v.silero_dropped + 1;
      noise_history = append_noise c.rms v.noise_history;
      last_speech_pass = false;
    },
    record { webrtc = true; silero_prob = prob; silero_pass = silero; passed = false },
  )

  abbrev pub judged :
      Chunk → Option (List Ratio × (List ℕ × Vad S)) → Vad S → Option (Vad S × Verdict)
  judged c none v = none
  judged c (some (probs, (buffer, w))) v = some (
      verified
        (le_ratio (percent 15) (best probs) || le_ratio (energy_threshold v.noise_history) c.rms)
        (le_ratio (percent 15) (best probs)) (best probs) c
        (record w { audio_buffer = some buffer; silero_probs = v.silero_probs ++ best probs ∷ [] }))

  -- WebRTC hears speech, and Silero decides, or the loudness.
  unfoldable pub verify : Chunk → List ℕ → Vad S → Option (Vad S × Verdict)
  unfolding drain energy_threshold
  verify c buffer v = judged c (drain (length buffer) buffer v) v

  abbrev pub unverified : List ℕ → Vad S → Vad S × Verdict
  unverified buffer v = (
    record v { audio_buffer = some buffer; speech_passed = v.speech_passed + 1 },
    record dropped { webrtc = true; passed = true },
  )

  -- A chunk that is not silent; WebRTC fails open.
  abbrev pub listen : Option Bool → Chunk → List ℕ → Vad S → Option (Vad S × Verdict)
  listen (some false) c buffer v = some (reject c v)
  listen o c buffer v = if v.has_silero then verify c buffer v else some (unverified buffer v)

  abbrev pub with_buffer : Option (List ℕ) → Chunk → Vad S → Option (Vad S × Verdict)
  with_buffer none c v = none
  with_buffer (some buffer) c v = listen c.webrtc c (buffer ++ c.samples) v

  -- `none` is an error: the ValueError of the peak of an empty chunk, the AttributeError of a buffer
  -- that is missing, or one of the network.
  unfoldable pub process_chunk : Chunk → Vad S → Option (Vad S × Verdict)
  unfolding reject verify
  process_chunk c v =
      if is_empty c.samples
      then none
      else if lt_ratio c.rms silence
      then some (record v { webrtc_dropped = v.webrtc_dropped + 1 }, dropped)
      else with_buffer v.audio_buffer c v
