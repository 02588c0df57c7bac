-- ===== src/Pipeline.antt =====
-- The audio worker of runtime/audio/worker.py in front of the wake engine of
-- runtime/kernel/orchestrator.py.
use ava_listener.Base.{ℕ, Bool, none, List, [], ◌∷◌}
use ava_listener.Audio.Worker.{Delivery, new_worker}
use ava_listener.Audio.Worker.Hypotheses.{Event, deliveries, AreOrdered, deliveries-AreOrdered}
use ava_listener.Kernel.Reading.{init}
use ava_listener.Kernel.Engine.Gates.{Input, wakes}
use ava_listener.Kernel.Engine.Runs.{IsRising, StrictlyRising, wakes-rising}
use ava_listener.Matcher.Registry.{Registry}
use ava_listener.Matcher.Variants.{VariantIndex}
use ava_listener.Matcher.Anchor.{Similarity}

-- What the engine finds when a hypothesis arrives.
pub record Context : Type 0 where
  pub index : VariantIndex
  pub registry : Registry
  pub is_paused : Bool
  pub clock : ℕ → ℕ

abbrev pub input : Context → Delivery → Input
input c d = record {
  index = c.index;
  registry = c.registry;
  is_paused = c.is_paused;
  call = record {
    text = d.text;
    stability = d.stability;
    peak = d.peak;
    generation_id = d.generation_id;
    clock = c.clock;
  };
}

-- The deliveries one by one, as far as the contexts are given.
unfoldable pub inputs : List Context → List Delivery → List Input
inputs [] ds = []
inputs (c ∷ cs) [] = []
inputs (c ∷ cs) (d ∷ ds) = input c d ∷ inputs cs ds

inputs-IsRising :
    (g : ℕ) (cs : List Context) (ds : List Delivery) → AreOrdered g ds → IsRising g (inputs cs ds)
unfolding inputs
inputs-IsRising g [] ds o = tt
inputs-IsRising g (c ∷ cs) [] o = tt
inputs-IsRising g (c ∷ cs) (d ∷ ds) o = (o.0, inputs-IsRising d.generation_id cs ds o.2)

-- A new worker hands its hypotheses to a new engine. Whatever is heard, and whatever the registry,
-- the pauses and the clock are at each hypothesis, each wake has a generation above that of the
-- wake before it: one utterance wakes once at most.
pub pipeline-StrictlyRising :
    (sim : Similarity) (since now : ℕ) (es : List Event) (cs : List Context)
    → StrictlyRising none (wakes sim (inputs cs (deliveries es (new_worker since))) (init now))
pipeline-StrictlyRising sim since now es cs =
    let ds : List Delivery = deliveries es (new_worker since) in
    wakes-rising sim (inputs cs ds) now (inputs-IsRising 0 cs ds (deliveries-AreOrdered since es))
