-- ===== src/Kernel/Engine/Sure.antt =====
-- The reading of a window in runtime/kernel/orchestrator.py: a phrase, or a low confidence.
use ava_listener.Base.{
  ltb, if◌then◌else◌, Bool-cases, is_empty, All, All-append, ℕ, ◌-◌, ◌≡◌, refl, sym, ◌⊎◌, inl, inr,
  Bool, true, false, not, ◌&&◌, ◌||◌, Option, none, some, List, [], ◌∷◌, ◌++◌, arith, if_keeps,
}
use ava_listener.Base.Ratio.{IsUnit, percent-IsUnit}
use ava_listener.Base.Text.{Text, text_eq, text_mem, text_eq_sound}
use ava_listener.Kernel.Engine.{
  abandon_candidate, begin_candidate, continue_candidate, is_candidate, reset_generation,
  reset_phrase, same_generation, track_of,
}
use ava_listener.Kernel.Reading.{Call, Engine, Reading, score_window, hits_after}
use mathlib.Core.Path.{subst}
use ava_listener.Kernel.Engine.Smoothing.{
  IsLow, compute_confidence-IsUnit, compute_confidence-IsLow,
}
use ava_listener.Kernel.Session.{CandidateSession}
use ava_listener.Matcher.Confidence.{compute_confidence}
use ava_listener.Matcher.Variants.{VariantIndex}
use ava_listener.Matcher.Evaluator.{Match, with_canonical}
use ava_listener.Matcher.Evaluator.Best.{IsSound}

abbrev pub IsNamed : Text → Type 0
IsNamed p = is_empty p ≡ false

pub mem-IsNamed : (p : Text) (ps : List Text) → All IsNamed ps → text_mem p ps ≡ true → IsNamed p
mem-IsNamed p [] h m = cc
mem-IsNamed p (q ∷ ps) h m = elim (Bool-cases (text_eq q p)) [
  | inl e ↦ subst IsNamed (text_eq_sound q p e) h.0
  | inr e ↦ mem-IsNamed p ps h.1 (ground (arith, m, e))
]

-- The canonical phrase joins only if it is not empty.
joined-IsNamed :
    (c : Text) (ps : List Text)
    → All IsNamed ps
    → (b : Bool) → is_empty c || text_mem c ps ≡ b
    → All IsNamed (if b then ps else ps ++ c ∷ [])
joined-IsNamed c ps h true e = h
joined-IsNamed c ps h false e = All-append IsNamed ps (c ∷ []) h (ground (arith, e), tt)

pub with_canonical-IsNamed :
    (o : Option Text) (ps : List Text) → All IsNamed ps → All IsNamed (with_canonical o ps)
with_canonical-IsNamed none ps h = h
with_canonical-IsNamed (some c) ps h = joined-IsNamed c ps h (is_empty c || text_mem c ps) refl

-- The reading names a phrase, or it is low.
pub record IsSure (r : Reading) : Type 0 where
  pub unit : IsUnit r.raw_conf
  pub named : IsNamed r.found.phrase ⊎ IsLow r.raw_conf

pub score_window-IsSure :
    (ps : List Text) (c : Call) (x : VariantIndex) (m : Match) (n : ℕ) (e : Engine)
    → All IsNamed ps
    → IsSound ps m
    → IsSure (score_window c x m n e).1
unfolding score_window
score_window-IsSure ps c x m n e h (u, inl z) = record {
  unit = compute_confidence-IsUnit m.score n (hits_after m e) u;
  named = inr (
      subst (λ s. IsLow (compute_confidence s n (hits_after m e))) (sym z.1)
        (compute_confidence-IsLow n (hits_after m e)));
}
score_window-IsSure ps c x m n e h (u, inr k) = record {
  unit = compute_confidence-IsUnit m.score n (hits_after m e) u;
  named = inl (mem-IsNamed m.phrase ps h k);
}

-- The confidence that is kept lies between 0 and 1.
abbrev pub IsSmooth : Engine → Type 0
IsSmooth e = IsUnit e.smooth_conf

pub track_of-IsSmooth :
    (o : Option CandidateSession) (c : Call) (r : Reading) (e : Engine)
    → IsSmooth e
    → IsSmooth (track_of o c r e)
unfolding begin_candidate continue_candidate abandon_candidate
track_of-IsSmooth none c r e h = if_keeps IsSmooth (is_candidate r) h h
track_of-IsSmooth (some s) c r e h =
    if_keeps IsSmooth (is_candidate r) (if_keeps IsSmooth (text_eq s.phrase r.found.phrase) h h)
      (if_keeps IsSmooth (ltb 1000000 (c.clock 1 - s.last_update)) h h)

pub reset-IsSmooth :
    (c : Call) (r : Reading) (e : Engine)
    → IsSmooth e
    → IsSmooth (reset_phrase r (reset_generation c e))
unfolding reset_generation reset_phrase
reset-IsSmooth c r e h =
    let g : IsSmooth (reset_generation c e) =
      if_keeps IsSmooth (same_generation e.last_seen_generation c.generation_id) h
        (percent-IsUnit 0 (omega arith)) in
    if_keeps IsSmooth
      (not (is_empty r.found.phrase)
        && not (text_eq r.found.phrase (reset_generation c e).last_matched_phrase))
      (percent-IsUnit 0 (omega arith)) g
