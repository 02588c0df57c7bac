-- ===== src/Kernel/Engine/Runs.antt =====
-- Runs of `_on_hypothesis` of runtime/kernel/orchestrator.py.
use ava_listener.Base.{
  leb, leb→le, ℕ, ◌+◌, ◌-◌, ◌≤◌, ◌<◌, ◌≡◌, sym, true, false, Option, none, some, List, [], ◌∷◌,
  arith,
}
use ava_listener.Kernel.Engine.{same_generation}
use ava_listener.Kernel.Reading.{Call, Engine, Wake, init}
use ava_listener.Kernel.Engine.Gates.{Input, hear, keep_if_woke, wakes, Gated, hear-Gated}
use ava_listener.Matcher.Cooldown.{can_trigger, mark_triggered, cooldown_seconds}
use mathlib.Core.Path.{subst}
use ava_listener.Matcher.Anchor.{Similarity}

-- The generations of the streamer never fall.
abbrev pub IsRising : ℕ → List Input → Type 0
IsRising g [] = Unit
IsRising g (i ∷ is) = (g ≤ i.call.generation_id) × IsRising i.call.generation_id is

abbrev pub IsBelow : Option ℕ → ℕ → Type 0
IsBelow none g = Unit
IsBelow (some h) g = h < g

-- Each generation lies above the one before it.
abbrev pub StrictlyRising : Option ℕ → List Call → Type 0
StrictlyRising o [] = Unit
StrictlyRising o (c ∷ cs) = IsBelow o c.generation_id × StrictlyRising (some c.generation_id) cs

abbrev pub AtMost : Option ℕ → ℕ → Type 0
AtMost none g = Unit
AtMost (some h) g = h ≤ g

AtMost-trans : (o : Option ℕ) (g k : ℕ) → AtMost o g → g ≤ k → AtMost o k
AtMost-trans none g k h l = tt
AtMost-trans (some a) g k h l = omega arith

below : (o : Option ℕ) (g : ℕ) → AtMost o g → same_generation o g ≡ false → IsBelow o g
below none g h k = tt
below (some a) g h k = ground arith

rise_from :
    (sim : Similarity) (is : List Input) (c : Call) (e : Engine) (out : Engine × Option Wake)
    (ih : (a : Engine)
      → AtMost a.last_trigger_generation c.generation_id
      → StrictlyRising a.last_trigger_generation (wakes sim is a))
    → AtMost e.last_trigger_generation c.generation_id
    → Gated c e out
    → StrictlyRising e.last_trigger_generation (keep_if_woke out.1 c (wakes sim is out.0))
rise_from sim is c e (e', none) ih a s =
    subst (λ o. StrictlyRising o (wakes sim is e')) s.generation
      (ih e' (subst (λ o. AtMost o c.generation_id) (sym s.generation) a))
rise_from sim is c e (e', some w) ih a h = (
  below e.last_trigger_generation c.generation_id a h.new_generation,
  subst (λ o. StrictlyRising o (wakes sim is e')) h.marked_generation
      (ih e' (subst (λ o. AtMost o c.generation_id) (sym h.marked_generation) (omega arith))),
)

rise :
    (sim : Similarity) (is : List Input) (e : Engine) (g : ℕ)
    → IsRising g is
    → AtMost e.last_trigger_generation g
    → StrictlyRising e.last_trigger_generation (wakes sim is e)
unfolding wakes
rise sim [] e g r a = tt
rise sim (i ∷ is) e g r a =
    rise_from sim is i.call e (hear sim i e) (λ b k. rise sim is b i.call.generation_id r.1 k)
      (AtMost-trans e.last_trigger_generation g i.call.generation_id a r.0) (hear-Gated sim i e)

-- If the generations of the hypotheses never fall, then from a new engine each wake has a
-- generation above that of the wake before it. So a generation wakes once at most, whatever the
-- registry, the pauses and the clock do.
pub wakes-rising :
    (sim : Similarity) (is : List Input) (now : ℕ)
    → IsRising 0 is
    → StrictlyRising none (wakes sim is (init now))
unfolding init
wakes-rising sim is now r = rise sim is (init now) 0 r tt

-- The gate is read at least two seconds after the wake before it was marked.
abbrev pub AreSpaced : ℕ → List Call → Type 0
AreSpaced t [] = Unit
AreSpaced t (c ∷ cs) = (t + cooldown_seconds ≤ c.clock 12) × AreSpaced (c.clock 14) cs

cooled-le : (now t : ℕ) → leb cooldown_seconds (now - t) ≡ true → t + cooldown_seconds ≤ now
cooled-le now t h = omega (arith, leb→le cooldown_seconds (now - t) h)

space_from :
    (sim : Similarity) (is : List Input) (c : Call) (e : Engine) (out : Engine × Option Wake)
    (ih : (a : Engine) → AreSpaced a.cooldown.last_trigger (wakes sim is a))
    → Gated c e out
    → AreSpaced e.cooldown.last_trigger (keep_if_woke out.1 c (wakes sim is out.0))
unfolding can_trigger mark_triggered
space_from sim is c e (e', none) ih s =
    subst (λ g. AreSpaced g.last_trigger (wakes sim is e')) s.gate (ih e')
space_from sim is c e (e', some w) ih h = (
  cooled-le (c.clock 12) e.cooldown.last_trigger h.cooled,
  subst (λ g. AreSpaced g.last_trigger (wakes sim is e')) h.marked_gate (ih e'),
)

-- From any engine, whatever the hypotheses and their clocks, the cooldown gate of each wake is
-- read two seconds or more after the mark of the wake before it.
pub wakes-spaced :
    (sim : Similarity) (is : List Input) (e : Engine)
    → AreSpaced e.cooldown.last_trigger (wakes sim is e)
unfolding wakes
wakes-spaced sim [] e = tt
wakes-spaced sim (i ∷ is) e =
    space_from sim is i.call e (hear sim i e) (λ a. wakes-spaced sim is a) (hear-Gated sim i e)
