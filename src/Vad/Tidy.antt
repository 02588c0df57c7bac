-- ===== src/Vad/Tidy.antt =====
-- What the voice detector keeps while it runs, with its model file at hand.
use ava_listener.Base.{
  leb, if◌then◌else◌, is_empty, ap, length, length-append, ℕ, zero, suc, ◌+◌, ◌-◌, ◌≤◌, ◌<◌, ◌≡◌,
  refl, sym, ◌∙◌, Bool, true, false, ◌&&◌, Option, none, some, List, [], ◌∷◌, ◌++◌, arith, if_keeps,
}
use ava_listener.Base.Ratio.{Ratio, lt_ratio}
use mathlib.Core.Path.{subst}
use ava_listener.Vad.{
  Chunk, after_infer, judged, dropped, reset_state, reject, rejected, verify, verified, listen,
  unverified, with_buffer, process_chunk, silence, Vad, Verdict, window, append_noise, drop, take,
  drain, run_silero,
}

abbrev Fits : Option (List ℕ) → Type 0
Fits none = ⊥
Fits (some b) = length b < 512

-- The buffer holds less than a window between chunks, and the noise history is bounded.
pub record IsTidy {S : Type 0} (v : Vad S) : Type 0 where
  pub silero : v.has_silero ≡ true
  pub buffered : Fits v.audio_buffer
  pub quiet : length v.noise_history ≤ 40

abbrev pub passes : Verdict → ℕ
passes r = if r.passed then 1 else 0

-- Speech for both detectors, or for WebRTC and the loudness.
abbrev pub confirmed : Verdict → ℕ
confirmed r = if r.webrtc && r.passed then 1 else 0

abbrev pub drops : {S : Type 0} → Vad S → ℕ
drops v = v.webrtc_dropped + v.silero_dropped

pub record Step {S : Type 0} (v : Vad S) (o : Vad S × Verdict) : Type 0 where
  pub tidy : IsTidy o.0
  pub passed : o.0.speech_passed ≡ v.speech_passed + passes o.1
  pub adds_up : drops o.0 + confirmed o.1 ≡ drops v + 1

length-drop : {A : Type 0} (n : ℕ) (xs : List A) → length (drop n xs) ≡ length xs - n
unfolding drop
length-drop zero xs = omega arith
length-drop (suc n) [] = omega arith
length-drop (suc n) (x ∷ xs) = omega (arith, length-drop n xs)

append_noise-bounded :
    (r : Ratio) (rs : List Ratio) → length rs ≤ 40 → length (append_noise r rs) ≤ 40
append_noise-bounded r [] h = omega arith
append_noise-bounded r (s ∷ rs) h = ground (arith, length-append rs (r ∷ []))

module _ {S : Type 0} (zero_state : S) (infer : S → List ℕ → Option (Ratio × S)) where
  -- What draining leaves alone.
  record Kept (v w : Vad S) : Type 0 where
    silero : w.has_silero ≡ v.has_silero
    webrtc : w.webrtc_dropped ≡ v.webrtc_dropped
    silent : w.silero_dropped ≡ v.silero_dropped
    passed : w.speech_passed ≡ v.speech_passed
    noise : w.noise_history ≡ v.noise_history

  same : (v : Vad S) → Kept v v
  same v = record { silero = refl; webrtc = refl; silent = refl; passed = refl; noise = refl }

  -- The network raises no error.
  abbrev pub IsTotal : Type 0
  IsTotal = (state : S) (input : List ℕ) → (o : Ratio × S) × (infer state input ≡ some o)

  Kept-trans : {u v w : Vad S} → Kept u v → Kept v w → Kept u w
  Kept-trans h k = record {
    silero = k.silero ∙ h.silero;
    webrtc = k.webrtc ∙ h.webrtc;
    silent = k.silent ∙ h.silent;
    passed = k.passed ∙ h.passed;
    noise = k.noise ∙ h.noise;
  }

  run_silero-Kept :
      (segment : List ℕ) (v : Vad S)
      → IsTotal
      → (o : Ratio × Vad S) × (run_silero zero_state infer segment v ≡ some o) × Kept v o.1
  unfolding run_silero
  run_silero-Kept segment v t =
      let (o, e) = t v.silero_state (v.silero_context ++ segment) in
      (
        (
          o.0,
          record v {
            silero_state = o.1;
            silero_context =
                drop (length (v.silero_context ++ segment) - 64) (v.silero_context ++ segment);
            frame_count = v.frame_count + 1;
          },
        ),
        ap (λ r. after_infer zero_state infer r (v.silero_context ++ segment) v) e,
        record { silero = refl; webrtc = refl; silent = refl; passed = refl; noise = refl },
      )

  Drained : Vad S → Option (List Ratio × (List ℕ × Vad S)) → Type 0
  Drained v r =
      (o : List Ratio × (List ℕ × Vad S)) × (r ≡ some o) × Kept v o.1.1 × (length o.1.0 < 512)

  Drained-if :
      (b : Bool) (buffer : List ℕ) (v : Vad S) (r : Option (List Ratio × (List ℕ × Vad S)))
      → leb window (length buffer) ≡ b
      → (b ≡ true → Drained v r)
      → Drained v (if b then r else some ([], (buffer, v)))
  unfolding Drained
  Drained-if true buffer v r e h = h refl
  Drained-if false buffer v r e h = (([], (buffer, v)), refl, same v, ground (arith, e))

  drain-Drained :
      (n : ℕ) (buffer : List ℕ) (v : Vad S)
      → IsTotal
      → length buffer ≤ n
      → Drained v (drain zero_state infer n buffer v)
  unfolding drain Drained
  drain-Drained zero buffer v t h = (([], (buffer, v)), refl, same v, omega (arith, h))
  drain-Drained (suc n) buffer v t h =
      Drained-if (leb window (length buffer)) buffer v _ refl (λ full.
        let (next, e, k) = run_silero-Kept (take window buffer) v t in
        let (rest, f, l, s) =
          drain-Drained n (drop window buffer) next.1 t
            (omega (arith, length-drop window buffer, h)) in
        ((next.0 ∷ rest.0, rest.1), rw (e, f), Kept-trans k l, s))

  reset_state-Kept : (v : Vad S) → Kept v (reset_state zero_state infer v)
  unfolding reset_state
  reset_state-Kept v =
      if_keeps (Kept v) v.has_silero
        (record { silero = refl; webrtc = refl; silent = refl; passed = refl; noise = refl })
        (record { silero = refl; webrtc = refl; silent = refl; passed = refl; noise = refl })

  rejected-Step :
      (b : Bool) (c : Chunk) (v w : Vad S)
      → IsTidy v
      → Kept (record v { webrtc_dropped = v.webrtc_dropped + 1 }) w
      → Step v (rejected zero_state infer b c (record w { audio_buffer = some [] }))
  rejected-Step true c v w h k = record {
    tidy = record {
      silero = k.silero ∙ h.silero;
      buffered = omega arith;
      quiet = subst (λ n. length n ≤ 40) (sym k.noise) h.quiet;
    };
    passed = omega (arith, k.passed);
    adds_up = omega (arith, k.webrtc, k.silent);
  }
  rejected-Step false c v w h k = record {
    tidy = record {
      silero = k.silero ∙ h.silero;
      buffered = omega arith;
      quiet =
          append_noise-bounded c.rms w.noise_history
            (subst (λ n. length n ≤ 40) (sym k.noise) h.quiet);
    };
    passed = omega (arith, k.passed);
    adds_up = omega (arith, k.webrtc, k.silent);
  }

  verified-Step :
      (b silero : Bool) (prob : Ratio) (c : Chunk) (v w : Vad S) (rest : List ℕ) (ps : List Ratio)
      → IsTidy v
      → Kept v w
      → length rest < 512
      → Step v (
          verified zero_state infer b silero prob c
            (record w { audio_buffer = some rest; silero_probs = ps }))
  verified-Step true silero prob c v w rest ps h k l = record {
    tidy = record {
      silero = k.silero ∙ h.silero;
      buffered = l;
      quiet = subst (λ n. length n ≤ 40) (sym k.noise) h.quiet;
    };
    passed = omega (arith, k.passed);
    adds_up = omega (arith, k.webrtc, k.silent);
  }
  verified-Step false silero prob c v w rest ps h k l = record {
    tidy = record {
      silero = k.silero ∙ h.silero;
      buffered = l;
      quiet =
          append_noise-bounded c.rms w.noise_history
            (subst (λ n. length n ≤ 40) (sym k.noise) h.quiet);
    };
    passed = omega (arith, k.passed);
    adds_up = omega (arith, k.webrtc, k.silent);
  }

  reject-Step : (c : Chunk) (v : Vad S) → IsTidy v → Step v (reject zero_state infer c v)
  unfolding reject reset_state
  reject-Step c v h = rejected-Step _ c v _ h (
      if_keeps (Kept (record v { webrtc_dropped = v.webrtc_dropped + 1 })) v.has_silero
        (reset_state-Kept (record v { webrtc_dropped = v.webrtc_dropped + 1 }))
        (same (record v { webrtc_dropped = v.webrtc_dropped + 1 })))

  abbrev Steps : Vad S → Option (Vad S × Verdict) → Type 0
  Steps v r = (o : Vad S × Verdict) × (r ≡ some o) × Step v o

  verify-Step :
      (c : Chunk) (buffer : List ℕ) (v : Vad S)
      → IsTotal
      → IsTidy v
      → Steps v (verify zero_state infer c buffer v)
  unfolding verify Drained
  verify-Step c buffer v t h =
      let (o, e, k, l) = drain-Drained (length buffer) buffer v t (omega arith) in
      (_, ap (λ r. judged zero_state infer c r v) e, verified-Step _ _ _ c v o.1.1 o.1.0 _ h k l)

  listened-Step :
      (b : Bool) (c : Chunk) (buffer : List ℕ) (v : Vad S)
      → b ≡ true
      → IsTotal
      → IsTidy v
      → Steps v (
          if b
          then verify zero_state infer c buffer v
          else some (unverified zero_state infer buffer v))
  listened-Step true c buffer v e t h = verify-Step c buffer v t h
  listened-Step false c buffer v e t h = cc

  listen-Step :
      (o : Option Bool) (c : Chunk) (buffer : List ℕ) (v : Vad S)
      → IsTotal
      → IsTidy v
      → Steps v (listen zero_state infer o c buffer v)
  listen-Step (some false) c buffer v t h = (reject zero_state infer c v, refl, reject-Step c v h)
  listen-Step (some true) c buffer v t h = listened-Step v.has_silero c buffer v h.silero t h
  listen-Step none c buffer v t h = listened-Step v.has_silero c buffer v h.silero t h

  silent-Step :
      (v : Vad S) → IsTidy v → Step v (record v { webrtc_dropped = v.webrtc_dropped + 1 }, dropped)
  silent-Step v h = record {
    tidy = record { silero = h.silero; buffered = h.buffered; quiet = h.quiet };
    passed = omega arith;
    adds_up = omega arith;
  }

  with_buffer-Step :
      (b : Option (List ℕ)) (c : Chunk) (v : Vad S)
      → Fits b
      → IsTotal
      → IsTidy v
      → Steps v (with_buffer zero_state infer b c v)
  with_buffer-Step none c v f t h = elim f [ ]
  with_buffer-Step (some b) c v f t h = listen-Step c.webrtc c (b ++ c.samples) v t h

  if_not_empty :
      (b : Bool) (v : Vad S) (r : Option (Vad S × Verdict))
      → b ≡ false
      → Steps v r
      → Steps v (if b then none else r)
  if_not_empty false v r e s = s
  if_not_empty true v r e s = cc

  pub process_chunk-Step :
      (c : Chunk) (v : Vad S)
      → IsTotal
      → is_empty c.samples ≡ false
      → IsTidy v
      → Steps v (process_chunk zero_state infer c v)
  unfolding process_chunk
  process_chunk-Step c v t n h = if_not_empty (is_empty c.samples) v _ n (
      if_keeps (Steps v) (lt_ratio c.rms silence)
        ((record v { webrtc_dropped = v.webrtc_dropped + 1 }, dropped), refl, silent-Step v h)
        (with_buffer-Step v.audio_buffer c v h.buffered t h))
