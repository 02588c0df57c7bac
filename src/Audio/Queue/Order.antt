-- ===== src/Audio/Queue/Order.antt =====
-- Chunks from the microphone to the worker.
use ava_listener.Base.{
  ltb, leb, ◌==◌, if◌then◌else◌, ltb→lt, lt→ltb, length, ℕ, zero, suc, ◌+◌, ◌≤◌, ◌<◌, ◌≡◌, refl,
  sym, ap, ◌∙◌, Bool, true, false, not, ◌&&◌, ◌||◌, some, List, [], ◌∷◌, ◌++◌, arith, if_keeps,
}
use mathlib.Core.List.{append_assoc}
use mathlib.Core.Path.{subst}
use ava_listener.Audio.Provider.{Provider}
use ava_listener.Kernel.Lifecycle.{SubsystemState}
use ava_listener.Audio.Queue.{
  QueueManager, Streamer, reset_warn, depth, enqueue, new_queue, first, others, got, take_chunk,
  clear_latch, Meanwhile, takes_chunk, clears_latch, work_on, warn_depth, after_enqueue,
  audio_callback, audio_queue_max,
}

-- What the worker has got, and what it will get.
abbrev pub chunks : Streamer → List ℕ
chunks s = s.taken ++ s.manager.queue

-- The queue of the streamer: no bound, and the threshold of the callback.
abbrev pub new_streamer : Provider → SubsystemState → Streamer
new_streamer p fsm = record {
  manager = new_queue 0 audio_queue_max;
  callback_count = 0;
  warnings = 0;
  taken = [];
  provider = p;
  asr_fsm = fsm;
  audio_fsm = fsm;
  stopped = false;
}

-- Nothing but chunks has moved, in order; the latch is as before if it was not reset.
pub record Moved (resets : ℕ) (s t : Streamer) : Type 0 where
  pub chunks : chunks t ≡ chunks s
  pub shorter : depth t.manager ≤ depth s.manager
  pub maxsize : t.manager.maxsize ≡ s.manager.maxsize
  pub threshold : t.manager.warn_threshold ≡ s.manager.warn_threshold
  pub logged : resets ≡ 0 → t.manager.warn_logged ≡ s.manager.warn_logged
  pub enqueued : t.manager.enqueue_count ≡ s.manager.enqueue_count
  pub warnings : t.warnings ≡ s.warnings
  pub callbacks : t.callback_count ≡ s.callback_count

moved-chunks : (q ts : List ℕ) → got (first q) ts ++ others q ≡ ts ++ q
moved-chunks [] ts = refl
moved-chunks (c ∷ q) ts = append_assoc ts (c ∷ []) q

others-shorter : (q : List ℕ) → length (others q) ≤ length q
others-shorter [] = omega arith
others-shorter (c ∷ q) = omega arith

pub take_chunk-Moved : (s : Streamer) → Moved 0 s (take_chunk s)
unfolding take_chunk
take_chunk-Moved s = record {
  chunks = moved-chunks s.manager.queue s.taken;
  shorter = others-shorter s.manager.queue;
  maxsize = refl;
  threshold = refl;
  logged = λ e. refl;
  enqueued = refl;
  warnings = refl;
  callbacks = refl;
}

Moved-trans : {m n : ℕ} {s t u : Streamer} → Moved m s t → Moved n t u → Moved (m + n) s u
Moved-trans h k = record {
  chunks = k.chunks ∙ h.chunks;
  shorter = omega (arith, h.shorter, k.shorter);
  maxsize = k.maxsize ∙ h.maxsize;
  threshold = k.threshold ∙ h.threshold;
  logged = λ e. k.logged (omega (arith, e)) ∙ h.logged (omega (arith, e));
  enqueued = k.enqueued ∙ h.enqueued;
  warnings = k.warnings ∙ h.warnings;
  callbacks = k.callbacks ∙ h.callbacks;
}

pub clear_latch-Moved : (s : Streamer) → Moved 1 s (clear_latch s)
unfolding clear_latch reset_warn
clear_latch-Moved s = record {
  chunks = refl;
  shorter = omega arith;
  maxsize = refl;
  threshold = refl;
  logged = λ e. absurd (omega (arith, e));
  enqueued = refl;
  warnings = refl;
  callbacks = refl;
}

stays-Moved : (s : Streamer) → Moved 0 s s
stays-Moved s = record {
  chunks = refl;
  shorter = omega arith;
  maxsize = refl;
  threshold = refl;
  logged = λ e. refl;
  enqueued = refl;
  warnings = refl;
  callbacks = refl;
}

abbrev pub latch_resets : List Meanwhile → ℕ
latch_resets [] = 0
latch_resets (takes_chunk ∷ ms) = latch_resets ms
latch_resets (clears_latch ∷ ms) = 1 + latch_resets ms

pub work_on-Moved : (ms : List Meanwhile) (s : Streamer) → Moved (latch_resets ms) s (work_on ms s)
unfolding work_on
work_on-Moved [] s = stays-Moved s
work_on-Moved (takes_chunk ∷ ms) s =
    subst (λ n. Moved n s (work_on ms (take_chunk s))) (omega arith)
      (Moved-trans (take_chunk-Moved s) (work_on-Moved ms (take_chunk s)))
work_on-Moved (clears_latch ∷ ms) s =
    Moved-trans (clear_latch-Moved s) (work_on-Moved ms (clear_latch s))

-- The bound and the threshold of the streamer, with at most `n` warnings so far.
pub record IsQuiet (n : ℕ) (s : Streamer) : Type 0 where
  pub maxsize : s.manager.maxsize ≡ 0
  pub threshold : s.manager.warn_threshold ≡ 20
  pub silent : s.warnings ≤ n
  pub count : s.manager.enqueue_count ≡ s.callback_count

if_not : {A : Type 0} (b : Bool) (x y : A) → b ≡ false → (if b then x else y) ≡ y
if_not b x y h = rw h

latched : (a b : Bool) → (a ≡ true → b ≡ true) → (a && not b) ≡ false
latched false b h = refl
latched true b h = rw (h refl)

-- The latch is already set when the depth is above the threshold, so nothing is logged.
warn_depth-latched :
    (s : Streamer)
    → (20 < depth s.manager → s.manager.warn_logged ≡ true)
    → warn_depth s ≡ record s { callback_count = s.callback_count + 1 }
unfolding warn_depth
warn_depth-latched s h = if_not (ltb 20 (depth s.manager) && not s.manager.warn_logged) _ _ (
    latched (ltb 20 (depth s.manager)) s.manager.warn_logged
      (λ e. h (ltb→lt 20 (depth s.manager) e)))

-- A queue with a chunk more.
abbrev longer : ℕ → QueueManager → QueueManager
longer c q = record q {
  queue = q.queue ++ c ∷ [];
  enqueue_count = q.enqueue_count + 1;
  warn_logged = q.warn_logged || ltb q.warn_threshold (length (q.queue ++ c ∷ []));
}

unbounded : (n d : ℕ) → n ≡ 0 → (not (n == 0) && leb n d) ≡ false
unbounded n d h = rw h

enqueue-longer : (c : ℕ) (q : QueueManager) → q.maxsize ≡ 0 → enqueue c q ≡ some (longer c q)
unfolding enqueue
enqueue-longer c q h = if_not _ _ _ (unbounded q.maxsize (depth q) h)

or_right : (a b : Bool) → b ≡ true → (a || b) ≡ true
or_right true b h = refl
or_right false b h = h

-- The callback, once the chunk is in the queue.
abbrev filled : ℕ → Streamer → Streamer
filled c s = record s { manager = longer c s.manager }

filled-warn_logged :
    (n w c : ℕ) (s t : Streamer)
    → IsQuiet w s
    → Moved n (filled c s) t
    → n ≡ 0
    → 20 < depth t.manager
    → t.manager.warn_logged ≡ true
filled-warn_logged n w c s t h m z l =
    m.logged z
    ∙ or_right s.manager.warn_logged _ (lt→ltb _ _ (omega (arith, m.shorter, l, h.threshold)))

pub record Called (n c : ℕ) (s t : Streamer) : Type 0 where
  pub is_quiet : IsQuiet n t
  pub chunks : chunks t ≡ chunks s ++ c ∷ []

-- The second half of the callback logs at most once, and not at all if the latch was not reset.
called :
    (n w c : ℕ) (s t : Streamer)
    → IsQuiet w s
    → Moved n (filled c s) t
    → Called (n + w) c s (warn_depth t)
unfolding warn_depth
called zero w c s t h m =
    subst (Called (0 + w) c s) (sym (warn_depth-latched t (filled-warn_logged 0 w c s t h m refl)))
      (record {
        is_quiet = record {
          maxsize = m.maxsize ∙ h.maxsize;
          threshold = m.threshold ∙ h.threshold;
          silent = omega (arith, m.warnings, h.silent);
          count = m.enqueued ∙ ap (λ k. k + 1) (h.count ∙ sym m.callbacks);
        };
        chunks = m.chunks ∙ sym (append_assoc s.taken s.manager.queue (c ∷ []));
      })
called (suc n) w c s t h m =
    if_keeps (Called (suc n + w) c s) (ltb 20 (depth t.manager) && not t.manager.warn_logged)
      (record {
        is_quiet = record {
          maxsize = m.maxsize ∙ h.maxsize;
          threshold = m.threshold ∙ h.threshold;
          silent = omega (arith, m.warnings, h.silent);
          count = m.enqueued ∙ ap (λ k. k + 1) (h.count ∙ sym m.callbacks);
        };
        chunks = m.chunks ∙ sym (append_assoc s.taken s.manager.queue (c ∷ []));
      })
      (record {
        is_quiet = record {
          maxsize = m.maxsize ∙ h.maxsize;
          threshold = m.threshold ∙ h.threshold;
          silent = omega (arith, m.warnings, h.silent);
          count = m.enqueued ∙ ap (λ k. k + 1) (h.count ∙ sym m.callbacks);
        };
        chunks = m.chunks ∙ sym (append_assoc s.taken s.manager.queue (c ∷ []));
      })

pub audio_callback-Called :
    (ms : List Meanwhile) (w c : ℕ) (s : Streamer)
    → IsQuiet w s
    → Called (latch_resets ms + w) c s (audio_callback ms c s)
unfolding audio_callback
audio_callback-Called ms w c s h =
    subst (λ o. Called (latch_resets ms + w) c s (after_enqueue o ms s))
      (sym (enqueue-longer c s.manager h.maxsize))
      (called (latch_resets ms) w c s (work_on ms (filled c s)) h (work_on-Moved ms (filled c s)))
