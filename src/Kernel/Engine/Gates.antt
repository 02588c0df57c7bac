-- ===== src/Kernel/Engine/Gates.antt =====
-- The gates of runtime/kernel/orchestrator.py over a run of hypotheses: the generation gate and the
-- cooldown gate. Between two hypotheses the registry may change and detection may be paused.
use ava_listener.Base.{
  ltb, leb, if◌then◌else◌, length, is_empty, ℕ, ◌-◌, ◌≡◌, refl, sym, ap, ◌∙◌, Bool, true, false,
  not, ◌&&◌, Option, none, some, List, [], ◌∷◌, if_keeps,
}
use ava_listener.Base.Text.{text_eq}
use ava_listener.Kernel.Engine.{
  confirm_of, counted, abandon_candidate, apply_smoothing, begin_candidate, confirm_engine,
  continue_candidate, fire, fired, gates, is_candidate, is_triggered, match_window, on_hypothesis,
  process, reset_generation, reset_phrase, respond, same_generation, track_candidate, track_of,
}
use ava_listener.Kernel.Reading.{
  Call, Engine, Reading, Wake, read_window, score_window, tick_metrics,
}
use ava_listener.Kernel.Session.{CandidateSession}
use ava_listener.Matcher.Buffer.{Hypothesis}
use ava_listener.Matcher.Cooldown.{can_trigger, mark_triggered}
use ava_listener.Matcher.Registry.{Registry}
use ava_listener.Matcher.Variants.{VariantIndex}
use ava_listener.Matcher.Anchor.{Similarity}
use ava_listener.Matcher.Evaluator.{Match}

-- One hypothesis, with the phrases and the pause flag at its time.
pub record Input : Type 0 where
  pub index : VariantIndex
  pub registry : Registry
  pub is_paused : Bool
  pub call : Call

abbrev pub hear : Similarity → Input → Engine → Engine × Option Wake
hear sim i e =
    on_hypothesis sim i.index i.registry i.call (record e { detection_paused = i.is_paused })

-- The calls of a run that emit a wake.
abbrev pub keep_if_woke : Option Wake → Call → List Call → List Call
keep_if_woke none c rest = rest
keep_if_woke (some w) c rest = c ∷ rest

unfoldable pub wakes : Similarity → List Input → Engine → List Call
wakes sim [] e = []
wakes sim (i ∷ is) e = let out = hear sim i e in keep_if_woke out.1 i.call (wakes sim is out.0)

-- What the gates read.
pub record SameGates (a b : Engine) : Type 0 where
  pub generation : a.last_trigger_generation ≡ b.last_trigger_generation
  pub gate : a.cooldown ≡ b.cooldown

same_gates : (e : Engine) → SameGates e e
same_gates e = record { generation = refl; gate = refl }

track_of-SameGates :
    (o : Option CandidateSession) (c : Call) (r : Reading) (e : Engine)
    → SameGates (track_of o c r e) e
unfolding begin_candidate continue_candidate abandon_candidate
track_of-SameGates none c r e =
    if_keeps (λ a. SameGates a e) (is_candidate r) (record { generation = refl; gate = refl })
      (same_gates e)
track_of-SameGates (some s) c r e =
    if_keeps (λ a. SameGates a e) (is_candidate r)
      (if_keeps (λ a. SameGates a e) (text_eq s.phrase r.found.phrase)
        (record { generation = refl; gate = refl }) (record { generation = refl; gate = refl }))
      (if_keeps (λ a. SameGates a e) (ltb 1000000 (c.clock 1 - s.last_update))
        (record { generation = refl; gate = refl }) (same_gates e))

reset_generation-SameGates : (c : Call) (e : Engine) → SameGates (reset_generation c e) e
unfolding reset_generation
reset_generation-SameGates c e =
    if_keeps (λ a. SameGates a e) (same_generation e.last_seen_generation c.generation_id)
      (same_gates e) (record { generation = refl; gate = refl })

reset_phrase-SameGates : (r : Reading) (e : Engine) → SameGates (reset_phrase r e) e
unfolding reset_phrase
reset_phrase-SameGates r e =
    if_keeps (λ a. SameGates a e)
      (not (is_empty r.found.phrase) && not (text_eq r.found.phrase e.last_matched_phrase))
      (record { generation = refl; gate = refl }) (same_gates e)

both : {a b c : Engine} → SameGates a b → SameGates b c → SameGates a c
both h k = record { generation = h.generation ∙ k.generation; gate = h.gate ∙ k.gate }

-- The candidate and the smoothing leave what the gates read.
prepared-SameGates :
    (c : Call) (r : Reading) (e : Engine)
    → SameGates (apply_smoothing c r (track_candidate c r e)) e
unfolding apply_smoothing track_candidate
prepared-SameGates c r e =
    let t : Engine = track_of e.candidate c r e in
    let p : SameGates (reset_phrase r (reset_generation c t)) e =
      both (reset_phrase-SameGates r (reset_generation c t))
        (both (reset_generation-SameGates c t) (track_of-SameGates e.candidate c r e)) in
    record { generation = p.generation; gate = p.gate }

-- A call either emits nothing and leaves what the gates read, or passes the gates and marks them.
pub record Passes (c : Call) (e : Engine) (w : Wake) (e' : Engine) : Type 0 where
  pub new_generation : same_generation e.last_trigger_generation c.generation_id ≡ false
  pub cooled : can_trigger (c.clock 12) e.cooldown ≡ true
  pub triggered : is_triggered w.raw_confidence w.smooth_confidence ≡ true
  pub marked_generation : e'.last_trigger_generation ≡ some c.generation_id
  pub marked_gate : e'.cooldown ≡ mark_triggered (c.clock 14) e.cooldown

abbrev pub Gated : Call → Engine → Engine × Option Wake → Type 0
Gated c e (e', none) = SameGates e' e
Gated c e (e', some w) = Passes c e w e'

confirm_of-SameGates : (o : Option CandidateSession) (e : Engine) → SameGates (confirm_of o e) e
confirm_of-SameGates none e = same_gates e
confirm_of-SameGates (some s) e = record { generation = refl; gate = refl }

fire-Passes :
    (c : Call) (r : Reading) (e : Engine)
    → is_triggered r.raw_conf e.smooth_conf ≡ true
    → same_generation e.last_trigger_generation c.generation_id ≡ false
    → can_trigger (c.clock 12) e.cooldown ≡ true
    → Gated c e (fired (fire c r e))
unfolding fire confirm_engine
fire-Passes c r e t g k =
    let s : SameGates (confirm_of e.candidate (counted c r e)) (counted c r e) =
      confirm_of-SameGates e.candidate (counted c r e) in
    record {
      new_generation = g;
      cooled = k;
      triggered = t;
      marked_generation = s.generation;
      marked_gate = s.gate;
    }

abbrev chosen : Bool → Bool → Bool → Call → Reading → Engine → Engine × Option Wake
chosen t g k c r e =
    if not t
    then (e, none)
    else if g
    then (record e { last_suppressed_generation = some c.generation_id }, none)
    else if not k
    then (e, none)
    else fired (fire c r e)

chosen-Gated :
    (t g k : Bool) (c : Call) (r : Reading) (e : Engine)
    → is_triggered r.raw_conf e.smooth_conf ≡ t
    → same_generation e.last_trigger_generation c.generation_id ≡ g
    → can_trigger (c.clock 12) e.cooldown ≡ k
    → Gated c e (chosen t g k c r e)
chosen-Gated false g k c r e ht hg hk = same_gates e
chosen-Gated true true k c r e ht hg hk = record { generation = refl; gate = refl }
chosen-Gated true false false c r e ht hg hk = same_gates e
chosen-Gated true false true c r e ht hg hk = fire-Passes c r e ht hg hk

gates-Gated : (c : Call) (r : Reading) (e : Engine) → Gated c e (gates c r e)
unfolding gates
gates-Gated c r e =
    chosen-Gated (is_triggered r.raw_conf e.smooth_conf)
      (same_generation e.last_trigger_generation c.generation_id)
      (can_trigger (c.clock 12) e.cooldown) c r e refl refl refl

-- What holds from an engine with the same gates holds from the first.
Gated-from :
    (c : Call) (a b : Engine) (out : Engine × Option Wake)
    → SameGates a b
    → Gated c a out
    → Gated c b out
Gated-from c a b (e', none) s h = both h s
Gated-from c a b (e', some w) s h = record {
  new_generation =
      ap (λ o. same_generation o c.generation_id) (sym s.generation) ∙ h.new_generation;
  cooled = ap (can_trigger (c.clock 12)) (sym s.gate) ∙ h.cooled;
  triggered = h.triggered;
  marked_generation = h.marked_generation;
  marked_gate = h.marked_gate ∙ ap (mark_triggered (c.clock 14)) s.gate;
}

respond-Gated : (c : Call) (r : Reading) (e : Engine) → Gated c e (respond c r e)
unfolding respond
respond-Gated c r e =
    Gated-from c (apply_smoothing c r (track_candidate c r e)) e
      (gates c r (apply_smoothing c r (track_candidate c r e))) (prepared-SameGates c r e)
      (gates-Gated c r (apply_smoothing c r (track_candidate c r e)))

ticked-SameGates : (c : Call) (e : Engine) → SameGates (tick_metrics c e) e
unfolding tick_metrics
ticked-SameGates c e =
    if_keeps (λ a. SameGates a e) (leb 30000000 (c.clock 1 - e.last_metrics_time))
      (record { generation = refl; gate = refl }) (same_gates e)

read-SameGates : (c : Call) (e : Engine) → SameGates (read_window c e).0 e
unfolding read_window
read-SameGates c e = record { generation = refl; gate = refl }

score-SameGates :
    (c : Call) (x : VariantIndex) (m : Match) (n : ℕ) (e : Engine)
    → SameGates (score_window c x m n e).0 e
unfolding score_window
score-SameGates c x m n e = record { generation = refl; gate = refl }

process-Gated :
    (sim : Similarity) (x : VariantIndex) (reg : Registry) (c : Call) (e : Engine)
    → Gated c e (process sim x reg c e)
unfolding process
process-Gated sim x reg c e =
    let read : Engine × List Hypothesis = read_window c (tick_metrics c e) in
    let m : Match = match_window sim x reg read.1 in
    let scored : Engine × Reading = score_window c x m (length read.1) read.0 in
    Gated-from c scored.0 e (respond c scored.1 scored.0)
      (both (score-SameGates c x m (length read.1) read.0)
        (both (read-SameGates c (tick_metrics c e)) (ticked-SameGates c e)))
      (respond-Gated c scored.1 scored.0)

on_hypothesis-Gated :
    (sim : Similarity) (x : VariantIndex) (reg : Registry) (c : Call) (e : Engine)
    → Gated c e (on_hypothesis sim x reg c e)
unfolding on_hypothesis
on_hypothesis-Gated sim x reg c e =
    if_keeps (Gated c e) e.detection_paused (same_gates e) (process-Gated sim x reg c e)

pub hear-Gated : (sim : Similarity) (i : Input) (e : Engine) → Gated i.call e (hear sim i e)
hear-Gated sim i e =
    let p : Engine = record e { detection_paused = i.is_paused } in
    Gated-from i.call p e (hear sim i e) (record { generation = refl; gate = refl })
      (on_hypothesis-Gated sim i.index i.registry i.call p)
