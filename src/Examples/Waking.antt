-- ===== src/Examples/Waking.antt =====
-- The kernel at concrete inputs.
use ava_listener.Base.{All, ℕ, ◌+◌, refl, false, none, List, [], ◌∷◌, arith}
use ava_listener.Base.Ratio.{percent}
use ava_listener.Base.Text.{codes}
use ava_listener.Examples.Matching.{registry, similarity, similarity-AreUnits}
use ava_listener.Kernel.Session.{Naming, Sighting}
use ava_listener.Kernel.Telemetry.Book
use ava_listener.Kernel.Telemetry.Book.{started, updated, confirmed, misjudged}
use ava_listener.Kernel.Reading.{init}
use ava_listener.Kernel.Engine.Gates.{Input, wakes}
use ava_listener.Kernel.Engine.Runs.{StrictlyRising, AreSpaced, wakes-rising, wakes-spaced}
use ava_listener.Kernel.Engine.Named.{WakeNamed, emitted, wakes-named}
use ava_listener.Matcher.Variants.{build_index, get_active_phrases}
use ava_listener.Matcher.Registry.{get_active}
use ava_listener.Kernel.Engine.Sure.{IsNamed}

abbrev naming : Naming
naming = record {
  phrase = codes "hey nova";
  variant = codes "hey nova";
  canonical = codes "hey nova";
}

abbrev seen : Sighting
seen = record {
  text = codes "hey nova";
  raw_conf = percent 80;
  smooth_conf = percent 60;
  frames = 3;
}

abbrev sessions : List Book.Call
sessions =
    started naming seen 1 1
    ∷ updated seen 2
    ∷ started naming seen 3 3
    ∷ confirmed
    ∷ misjudged
    ∷ started naming seen 5 5
    ∷ []

-- A hypothesis of a generation, at a time in microseconds.
abbrev input : ℕ → ℕ → Input
input generation at = record {
  index = build_index registry;
  registry = registry;
  is_paused = false;
  call = record {
    text = codes "hey nova";
    stability = 3;
    peak = codes "hey nova";
    generation_id = generation;
    clock = λ n. at + n;
  };
}

-- The second hypothesis repeats the generation, and the third comes too soon.
abbrev inputs : List Input
inputs = input 1 3000000 ∷ input 1 6000000 ∷ input 2 4500000 ∷ input 3 9000000 ∷ []

wakes-rising_example : StrictlyRising none (wakes similarity inputs (init 0))
wakes-rising_example =
    wakes-rising similarity inputs 0 (omega arith, (omega arith, (omega arith, (omega arith, tt))))

wakes-spaced_example : AreSpaced 0 (wakes similarity inputs (init 0))
unfolding init
wakes-spaced_example = wakes-spaced similarity inputs (init 0)

registry-IsNamed : All IsNamed (get_active_phrases registry)
unfolding get_active_phrases get_active
registry-IsNamed = (refl, (refl, tt))

wakes-named_example : All WakeNamed (emitted similarity inputs (init 0))
wakes-named_example =
    wakes-named similarity similarity-AreUnits inputs 0
      (registry-IsNamed, (registry-IsNamed, (registry-IsNamed, (registry-IsNamed, tt))))
