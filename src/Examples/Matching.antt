-- ===== src/Examples/Matching.antt =====
-- The matcher at concrete inputs.
use ava_listener.Base.{if◌then◌else◌, String, ◌≡◌, true, some, List, [], ◌∷◌, arith, if_keeps}
use ava_listener.Base.Ratio.{Ratio, percent, IsUnit, percent-IsUnit}
use ava_listener.Base.Text.{Text, codes, text_eq}
use ava_listener.Matcher.Buffer.{Hypothesis, get_window, push}
use ava_listener.Matcher.Buffer.Newest.{get_window-push, newest}
use ava_listener.Matcher.Buffer.Window
use ava_listener.Matcher.Buffer.Window.{Pushed, get_window-run}
use ava_listener.Matcher.Registry.{pos, PhraseConfig, Registry}
use ava_listener.Matcher.Variants.{build_index}
use ava_listener.Matcher.Variants.Index.{IsIndex, build_index-IsIndex}
use ava_listener.Matcher.Anchor.{Similarity}
use ava_listener.Matcher.Evaluator.{best_match}
use ava_listener.Matcher.Evaluator.Best.{AreUnits, IsSound, scored, best_match-IsSound}

abbrev pub phrase_of : String → String → List Text → PhraseConfig
phrase_of i p vs = record {
  phrase_id = i;
  phrase = codes p;
  variants = vs;
  threshold = percent 78;
  cooldown_ms = pos 2000;
  enabled = true;
  weight = percent 100;
}

abbrev pub nova : PhraseConfig
nova = phrase_of "nova" "hey nova" (codes "hey nova" ∷ codes "hey know a" ∷ [])

abbrev ava : PhraseConfig
ava = phrase_of "ava" "hey ava" (codes " Hey Ava " ∷ codes "hey nova" ∷ [])

abbrev pub registry : Registry
registry = nova ∷ ava ∷ []

build_index-IsIndex_example : IsIndex (build_index registry)
build_index-IsIndex_example = build_index-IsIndex registry

-- The ratio is 100 for equal texts and 40 for others.
abbrev crude : Text → Text → Ratio
crude a b = if text_eq a b then percent 100 else percent 40

abbrev pub similarity : Similarity
similarity = record { jaro_winkler = crude; token_set_ratio = crude }

pub similarity-AreUnits : AreUnits similarity
similarity-AreUnits = record {
  token_set = λ a b.
      if_keeps IsUnit (text_eq a b) (percent-IsUnit 100 (omega arith))
        (percent-IsUnit 40 (omega arith));
}

abbrev heard : List Hypothesis
heard =
    record { text = codes "hey"; stability = 1 }
    ∷ record { text = codes "hey nova"; stability = 4 }
    ∷ []

abbrev pub phrases : List Text
phrases = codes "hey nova" ∷ codes "hey ava" ∷ []

best_match-IsSound_example :
    IsSound
      (scored (build_index registry) phrases heard)
      (best_match similarity (build_index registry) phrases heard)
best_match-IsSound_example =
    best_match-IsSound similarity similarity-AreUnits (build_index registry) phrases heard

abbrev pushed : List Pushed
pushed =
    record { now = 1; purged_at = 2; text = codes "hey"; stability = 1 }
    ∷ record { now = 900000; purged_at = 900001; text = codes "no"; stability = 1 }
    ∷ []

get_window-run_example :
    (get_window 4000000 (Window.run pushed [])).1 ≡ record { text = codes "no"; stability = 1 } ∷ []
unfolding push get_window Window.run
get_window-run_example = get_window-run pushed 900001 4000000 (omega arith) (omega arith)

get_window-push_example :
    newest
      (get_window 3000000 (
        push 900000 900001
          (codes "hey nova")
          4
          (record { at = 1; text = codes "hey"; stability = 1 } ∷ []))).1
    ≡ some (record { text = codes "hey nova"; stability = 4 })
get_window-push_example =
    get_window-push 900000 900001 3000000 (codes "hey nova") 4
      (record { at = 1; text = codes "hey"; stability = 1 } ∷ []) (omega arith) (omega arith)
