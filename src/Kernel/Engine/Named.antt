-- ===== src/Kernel/Engine/Named.antt =====
-- What a wake of runtime/kernel/orchestrator.py names, and the range of its confidences.
use ava_listener.Base.{
  leb, if◌then◌else◌, length, All, ℕ, ◌-◌, ◌≡◌, ◌⊎◌, inl, inr, Bool, true, false, not, Option, none,
  some, List, [], ◌∷◌, arith, if_keeps,
}
use ava_listener.Base.Ratio.{IsUnit, percent-IsUnit}
use ava_listener.Base.Text.{Text}
use ava_listener.Kernel.Engine.{
  apply_smoothing, fire, fired, gates, is_triggered, match_window, on_hypothesis, process,
  reset_generation, reset_phrase, respond, same_generation, smooth, track_candidate, track_of,
}
use ava_listener.Kernel.Reading.{
  Call, Engine, Reading, Wake, init, read_window, score_window, tick_metrics,
}
use ava_listener.Kernel.Engine.Sure.{
  IsNamed, with_canonical-IsNamed, IsSure, score_window-IsSure, IsSmooth, track_of-IsSmooth,
  reset-IsSmooth,
}
use ava_listener.Kernel.Engine.Smoothing.{smooth-IsUnit, low_silent}
use ava_listener.Kernel.Engine.Gates.{Input, hear}
use ava_listener.Matcher.Buffer.{Hypothesis}
use ava_listener.Matcher.Cooldown.{can_trigger}
use ava_listener.Matcher.Registry.{Registry}
use ava_listener.Matcher.Variants.{VariantIndex, get_active_phrases}
use ava_listener.Matcher.Anchor.{Similarity}
use ava_listener.Matcher.Evaluator.{Match}
use ava_listener.Matcher.Evaluator.Best.{AreUnits, scored, best_match-IsSound}

-- What a call emits.
abbrev pub WakeNamed : Option Wake → Type 0
WakeNamed none = Unit
WakeNamed (some w) = IsNamed w.phrase × IsUnit w.raw_confidence × IsUnit w.smooth_confidence

abbrev pub OutNamed : Engine × Option Wake → Type 0
OutNamed (e, w) = IsSmooth e × WakeNamed w

fire-OutNamed :
    (c : Call) (r : Reading) (e : Engine)
    → IsUnit r.raw_conf
    → IsSmooth e
    → IsNamed r.found.phrase
    → OutNamed (fired (fire c r e))
unfolding fire
fire-OutNamed c r e u h n = (percent-IsUnit 0 (omega arith), (n, u, h))

-- The later gates, for a named reading.
passed-OutNamed :
    (g k : Bool) (c : Call) (r : Reading) (e : Engine)
    → IsUnit r.raw_conf
    → IsSmooth e
    → IsNamed r.found.phrase
    → OutNamed (
        if g
        then (record e { last_suppressed_generation = some c.generation_id }, none)
        else if not k
        then (e, none)
        else fired (fire c r e))
passed-OutNamed true k c r e u h n = (h, tt)
passed-OutNamed false false c r e u h n = (h, tt)
passed-OutNamed false true c r e u h n = fire-OutNamed c r e u h n

-- The first gate stops a reading that does not trigger.
stopped-OutNamed :
    (t : Bool) (e : Engine) (rest : Engine × Option Wake)
    → t ≡ false
    → IsSmooth e
    → OutNamed (if not t then (e, none) else rest)
stopped-OutNamed true e rest q h = cc
stopped-OutNamed false e rest q h = (h, tt)

-- A reading that is not named does not trigger.
gates-OutNamed :
    (c : Call) (r : Reading) (e : Engine)
    → IsUnit r.raw_conf
    → IsSmooth e
    → IsNamed r.found.phrase ⊎ (is_triggered r.raw_conf e.smooth_conf ≡ false)
    → OutNamed (gates c r e)
unfolding gates
gates-OutNamed c r e u h (inl n) =
    if_keeps OutNamed (not (is_triggered r.raw_conf e.smooth_conf)) (h, tt)
      (passed-OutNamed (same_generation e.last_trigger_generation c.generation_id)
        (can_trigger (c.clock 12) e.cooldown) c r e u h n)
gates-OutNamed c r e u h (inr q) = stopped-OutNamed (is_triggered r.raw_conf e.smooth_conf) e _ q h

respond-OutNamed :
    (c : Call) (r : Reading) (e : Engine) → IsSure r → IsSmooth e → OutNamed (respond c r e)
unfolding respond apply_smoothing track_candidate
respond-OutNamed c r e s h =
    let p : Engine = reset_phrase r (reset_generation c (track_of e.candidate c r e)) in
    let k : IsSmooth p =
      reset-IsSmooth c r (track_of e.candidate c r e) (track_of-IsSmooth e.candidate c r e h) in
    gates-OutNamed c r (record p { smooth_conf = smooth r.raw_conf p.smooth_conf }) s.unit
      (smooth-IsUnit r.raw_conf p.smooth_conf s.unit k)
      (elim s.named [
        | inl n ↦ inl n
        | inr l ↦ inr (low_silent r.raw_conf p.smooth_conf s.unit k l)
      ])

ticked-IsSmooth : (c : Call) (e : Engine) → IsSmooth e → IsSmooth (tick_metrics c e)
unfolding tick_metrics
ticked-IsSmooth c e h = if_keeps IsSmooth (leb 30000000 (c.clock 1 - e.last_metrics_time)) h h

read-IsSmooth : (c : Call) (e : Engine) → IsSmooth e → IsSmooth (read_window c e).0
unfolding read_window
read-IsSmooth c e h = h

score-IsSmooth :
    (c : Call) (x : VariantIndex) (m : Match) (n : ℕ) (e : Engine)
    → IsSmooth e
    → IsSmooth (score_window c x m n e).0
unfolding score_window
score-IsSmooth c x m n e h = h

process-OutNamed :
    (sim : Similarity) (u : AreUnits sim) (x : VariantIndex) (reg : Registry) (c : Call)
    (e : Engine)
    → All IsNamed (get_active_phrases reg)
    → IsSmooth e
    → OutNamed (process sim x reg c e)
unfolding process match_window
process-OutNamed sim u x reg c e a h =
    let read : Engine × List Hypothesis = read_window c (tick_metrics c e) in
    let ps : List Text = scored x (get_active_phrases reg) read.1 in
    let m : Match = match_window sim x reg read.1 in
    let out : Engine × Reading = score_window c x m (length read.1) read.0 in
    respond-OutNamed c out.1 out.0
      (score_window-IsSure ps c x m (length read.1) read.0
        (with_canonical-IsNamed _ (get_active_phrases reg) a)
        (best_match-IsSound sim u x (get_active_phrases reg) read.1))
      (score-IsSmooth c x m (length read.1) read.0
        (read-IsSmooth c (tick_metrics c e) (ticked-IsSmooth c e h)))

on_hypothesis-OutNamed :
    (sim : Similarity) (u : AreUnits sim) (x : VariantIndex) (reg : Registry) (c : Call)
    (e : Engine)
    → All IsNamed (get_active_phrases reg)
    → IsSmooth e
    → OutNamed (on_hypothesis sim x reg c e)
unfolding on_hypothesis
on_hypothesis-OutNamed sim u x reg c e a h =
    if_keeps OutNamed e.detection_paused (h, tt) (process-OutNamed sim u x reg c e a h)

-- The wakes of a run, in order.
unfoldable pub emitted : Similarity → List Input → Engine → List (Option Wake)
emitted sim [] e = []
emitted sim (i ∷ is) e = let out = hear sim i e in out.1 ∷ emitted sim is out.0

emitted-WakeNamed :
    (sim : Similarity) (u : AreUnits sim) (is : List Input) (e : Engine)
    → IsSmooth e
    → All (λ i. All IsNamed (get_active_phrases i.registry)) is
    → All WakeNamed (emitted sim is e)
unfolding emitted
emitted-WakeNamed sim u [] e h a = tt
emitted-WakeNamed sim u (i ∷ is) e h a =
    let k : OutNamed (hear sim i e) =
      on_hypothesis-OutNamed sim u i.index i.registry i.call
        (record e { detection_paused = i.is_paused }) a.0 h in
    (k.1, emitted-WakeNamed sim u is (hear sim i e).0 k.0 a.1)

-- Let the similarities lie between 0 and 1, and no active phrase be empty at any hypothesis of a
-- run. Then from a new engine every wake names a phrase that is not empty, and its raw and
-- smoothed confidences lie between 0 and 1: the escape of a phrase that was not found stays below
-- the threshold.
pub wakes-named :
    (sim : Similarity) (u : AreUnits sim) (is : List Input) (now : ℕ)
    → All (λ i. All IsNamed (get_active_phrases i.registry)) is
    → All WakeNamed (emitted sim is (init now))
unfolding init
wakes-named sim u is now a =
    emitted-WakeNamed sim u is (init now) (percent-IsUnit 0 (omega arith)) a
