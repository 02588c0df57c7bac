-- ===== src/Audio/Worker/Hypotheses.antt =====
-- The hypotheses that runtime/audio/worker.py delivers.
use ava_listener.Base.{
  leb, length, is_empty, ℕ, ◌≤◌, ◌<◌, ◌≡◌, refl, false, Option, none, some, List, [], ◌∷◌, arith,
  if_keeps,
}
use ava_listener.Base.Text.{Text}
use ava_listener.Audio.Worker.{
  Worker, Frame, Delivery, new_worker, reset_stream, hysteresis, keep_chunk, silence_timeout, feed,
  track, deliver, delivery, finish, process_chunk, trailing_pad_frames,
}
use ava_listener.Audio.Worker.Steady.{
  IsSteady, Advances, hysteresis-Advances, keep_chunk-Advances, feed-Advances, reset-Advances,
  time_out-Advances, track-Advances,
}

-- What happens to a worker: a chunk, or the reset that follows a wake.
pub data Event : Type 0 where
  chunk : Frame → Event
  woke : ℕ → ℕ → Event

unfoldable pub handle : Event → Worker → Worker × Option Delivery
handle (chunk f) w = process_chunk f w
handle (woke reset_at state_reset_at) w = (reset_stream reset_at state_reset_at w, none)

abbrev pub with_delivery : Option Delivery → List Delivery → List Delivery
with_delivery none ds = ds
with_delivery (some d) ds = d ∷ ds

unfoldable pub deliveries : List Event → Worker → List Delivery
deliveries [] w = []
deliveries (e ∷ es) w = let out = handle e w in with_delivery out.1 (deliveries es out.0)

-- A delivery is of the present generation, and its peak is as long as its text at least.
abbrev IsDelivered : Worker → Option Delivery → Type 0
IsDelivered w none = Unit
IsDelivered w (some d) =
    (d.generation_id ≡ w.provider.generation_id) × (length d.text ≤ length d.peak)

record Turns (w : Worker) (out : Worker × Option Delivery) : Type 0 where
  advances : Advances w out.0
  delivered : IsDelivered out.0 out.1

steadies : (w : Worker) → IsSteady w → Advances w w
steadies w h = record { steady = h; later = omega arith }

Advances-trans : {a b c : Worker} → Advances a b → Advances b c → Advances a c
Advances-trans h k = record { steady = k.steady; later = omega (arith, h.later, k.later) }

Turns-after :
    {w : Worker} (v : Worker) (out : Worker × Option Delivery)
    → Advances w v
    → Turns v out
    → Turns w out
Turns-after v out h k = record { advances = Advances-trans h k.advances; delivered = k.delivered }

delivery-fits : (r : Text) (w : Worker) → IsSteady w → length r ≤ length (track r w).peak_hypothesis
unfolding track
delivery-fits r w h = ground (arith, h.peak_measured)

deliver-Turns : (r : Text) (w : Worker) → IsSteady w → Turns w (deliver r w)
unfolding deliver
deliver-Turns r w h =
    let a : Advances w (track r w) = track-Advances r w h in
    let d : Turns w (track r w, some (delivery r (track r w))) = record {
      advances = a;
      delivered = (refl, delivery-fits r w h);
    } in
    if_keeps (Turns w) (is_empty r) (record { advances = steadies w h; delivered = tt })
      (if_keeps (Turns w) (track r w).is_speaking d (
        if_keeps (Turns w) (leb (track r w).trailing_pad trailing_pad_frames) d
          (record { advances = a; delivered = tt })))

finish-Turns : (f : Frame) (w : Worker) → IsSteady w → Turns w (finish f w)
unfolding finish
finish-Turns f w h =
    if_keeps (Turns w) (leb (silence_timeout w) w.consecutive_silence)
      (record { advances = time_out-Advances (silence_timeout w) f w h; delivered = tt })
      (Turns-after (feed f w) (deliver f.result (feed f w)) (feed-Advances f w h)
        (deliver-Turns f.result (feed f w) (feed-Advances f w h).steady))

process_chunk-Turns : (f : Frame) (w : Worker) → IsSteady w → Turns w (process_chunk f w)
unfolding process_chunk
process_chunk-Turns f w h =
    let a : Advances w (hysteresis f w) = hysteresis-Advances f w h in
    let b : Advances (hysteresis f w) (keep_chunk f (hysteresis f w)) =
      keep_chunk-Advances f (hysteresis f w) a.steady in
    Turns-after (keep_chunk f (hysteresis f w)) (finish f (keep_chunk f (hysteresis f w)))
      (Advances-trans a b) (finish-Turns f (keep_chunk f (hysteresis f w)) b.steady)

handle-Turns : (e : Event) (w : Worker) → IsSteady w → Turns w (handle e w)
unfolding handle
handle-Turns (chunk f) w h = process_chunk-Turns f w h
handle-Turns (woke a b) w h = record { advances = reset-Advances a b w h; delivered = tt }

-- The generations rise from `g`, and each peak is as long as its text at least.
abbrev pub AreOrdered : ℕ → List Delivery → Type 0
AreOrdered g [] = Unit
AreOrdered g (d ∷ ds) =
    (g ≤ d.generation_id) × (length d.text ≤ length d.peak) × AreOrdered d.generation_id ds

AreOrdered-from : (g k : ℕ) (ds : List Delivery) → g ≤ k → AreOrdered k ds → AreOrdered g ds
AreOrdered-from g k [] h o = tt
AreOrdered-from g k (d ∷ ds) h o = (omega arith, o.1, o.2)

AreOrdered-next :
    (w : Worker) (out : Worker × Option Delivery) (ds : List Delivery)
    → Turns w out
    → AreOrdered out.0.provider.generation_id ds
    → AreOrdered w.provider.generation_id (with_delivery out.1 ds)
AreOrdered-next w (w', none) ds t o =
    AreOrdered-from w.provider.generation_id w'.provider.generation_id ds t.advances.later o
AreOrdered-next w (w', some d) ds t o = (
  omega (arith, t.advances.later, t.delivered.0),
  t.delivered.1,
  AreOrdered-from d.generation_id w'.provider.generation_id ds (omega (arith, t.delivered.0)) o,
)

deliveries-AreOrdered_from :
    (es : List Event) (w : Worker)
    → IsSteady w
    → AreOrdered w.provider.generation_id (deliveries es w)
unfolding deliveries
deliveries-AreOrdered_from [] w h = tt
deliveries-AreOrdered_from (e ∷ es) w h =
    let t : Turns w (handle e w) = handle-Turns e w h in
    AreOrdered-next w (handle e w) (deliveries es (handle e w).0) t
      (deliveries-AreOrdered_from es (handle e w).0 t.advances.steady)

new_worker-IsSteady : (now : ℕ) → IsSteady (new_worker now)
unfolding new_worker
new_worker-IsSteady now = ground arith

-- Whatever a new worker hears, decodes and is told to reset, the generations of the hypotheses
-- that it delivers never fall, and each peak is as long as its text at least.
pub deliveries-AreOrdered :
    (now : ℕ) (es : List Event) → AreOrdered 0 (deliveries es (new_worker now))
unfolding new_worker
deliveries-AreOrdered now es =
    deliveries-AreOrdered_from es (new_worker now) (new_worker-IsSteady now)

unfoldable pub run : List Event → Worker → Worker
run [] w = w
run (e ∷ es) w = run es (handle e w).0

run-IsSteady_from : (es : List Event) (w : Worker) → IsSteady w → IsSteady (run es w)
unfolding run
run-IsSteady_from [] w h = h
run-IsSteady_from (e ∷ es) w h =
    run-IsSteady_from es (handle e w).0 (handle-Turns e w h).advances.steady

-- Whatever a new worker hears and is told to reset, it pads a silence with two chunks at most, its
-- pre-buffer holds five chunks at most, one of its two streaks is 0, and the peak has its length
-- on record, which is no shorter than the last hypothesis.
pub run-IsSteady : (now : ℕ) (es : List Event) → IsSteady (run es (new_worker now))
run-IsSteady now es = run-IsSteady_from es (new_worker now) (new_worker-IsSteady now)

-- The worker after the hysteresis of a chunk.
abbrev pub heard : Frame → Worker → Worker
heard f w = keep_chunk f (hysteresis f w)

deliver-some :
    (r : Text) (w : Worker)
    → IsSteady w
    → is_empty r ≡ false
    → (deliver r w).1 ≡ some (delivery r (track r w))
unfolding deliver
deliver-some r w h n = ground (arith, (track-Advances r w h).steady.pad)

late_leb : (k d : ℕ) → k < d → leb d k ≡ false
late_leb k d h = ground arith

finish-some :
    (f : Frame) (w : Worker)
    → IsSteady w
    → is_empty f.result ≡ false
    → w.consecutive_silence < silence_timeout w
    → (finish f w).1 ≡ some (delivery f.result (track f.result (feed f w)))
unfolding finish
finish-some f w h n s =
    rw (late_leb w.consecutive_silence (silence_timeout w) s)
      (deliver-some f.result (feed f w) (feed-Advances f w h).steady n)

-- A worker that has heard any chunks delivers every text that is not empty, whatever the voice
-- detector says of the chunk, unless the silence has reached its timeout: the trailing pad never
-- stops a delivery. The delivery has the text itself, and a peak that is no shorter.
pub process_chunk-ungated :
    (now : ℕ) (es : List Event) (f : Frame)
    → is_empty f.result ≡ false
    → (heard f (run es (new_worker now))).consecutive_silence
      < silence_timeout (heard f (run es (new_worker now)))
    → (d : Delivery) × ((process_chunk f (run es (new_worker now))).1 ≡ some d)
      × (d.text ≡ f.result)
      × (length f.result ≤ length d.peak)
unfolding process_chunk
process_chunk-ungated now es f n h =
    let w : Worker = run es (new_worker now) in
    let a : Advances w (hysteresis f w) = hysteresis-Advances f w (run-IsSteady now es) in
    let b : Advances (hysteresis f w) (heard f w) =
      keep_chunk-Advances f (hysteresis f w) a.steady in
    let c : Advances (heard f w) (feed f (heard f w)) = feed-Advances f (heard f w) b.steady in
    (
      delivery f.result (track f.result (feed f (heard f w))),
      finish-some f (heard f w) b.steady n h,
      refl,
      delivery-fits f.result (feed f (heard f w)) c.steady,
    )
