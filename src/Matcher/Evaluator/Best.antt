-- ===== src/Matcher/Evaluator/Best.antt =====
-- What `best_match` of runtime/matcher/evaluator.py returns.
use ava_listener.Base.{
  if◌then◌else◌, length, is_empty, All, ◌≤◌, ◌≡◌, refl, ◌⊎◌, inl, inr, true, not, ◌&&◌, Option,
  none, some, List, [], ◌∷◌, arith, if_keeps,
}
use ava_listener.Base.Ratio.{
  Ratio, percent, max_ratio, IsUnit, percent-IsUnit, max_ratio-IsUnit, mul-IsUnit, blend3-IsUnit,
}
use ava_listener.Base.Text.{Text, lower, split, text_mem, text_eq_refl}
use ava_listener.Matcher.Buffer.{Hypothesis}
use ava_listener.Matcher.Variants.{VariantIndex}
use ava_listener.Matcher.Anchor.{Similarity}
use ava_listener.Matcher.Evaluator.{
  no_match, scoring_of, picked, is_rejected, key_lt, is_skipped, total_score, with_canonical,
  derive_context_words, count_in, context_score, count_stable, stability_score, Candidate,
  top_candidate, resolve_phrase_candidate, max_score, best_score, individual, Scoring, is_canonical,
  fuzzy_score, score_phrase, score_phrases, Match, with_canonical, best_match,
}

-- The documented range of the ratio of rapidfuzz.
pub record AreUnits (sim : Similarity) : Type 0 where
  pub token_set : (a b : Text) → IsUnit (sim.token_set_ratio a b)

count_in-le : (ws words : List Text) → count_in ws words ≤ length ws
count_in-le [] words = omega arith
count_in-le (w ∷ ws) words = ground (arith, count_in-le ws words)

count_stable-le : (w : List Hypothesis) → count_stable w ≤ length w
count_stable-le [] = omega arith
count_stable-le (h ∷ w) = ground (arith, count_stable-le w)

share-IsUnit :
    (ws words : List Text)
    → IsUnit
        (if is_empty ws then percent 100 else record { num = count_in ws words; den = length ws })
share-IsUnit [] words = percent-IsUnit 100 (omega arith)
share-IsUnit (w ∷ ws) words = record {
  proper = omega arith;
  at_most_one = count_in-le (w ∷ ws) words;
}

context_score-IsUnit : (text phrase : Text) → IsUnit (context_score text phrase)
unfolding context_score
context_score-IsUnit text phrase = share-IsUnit (derive_context_words phrase) (split (lower text))

stability_score-IsUnit : (w : List Hypothesis) → IsUnit (stability_score w)
unfolding stability_score
stability_score-IsUnit [] = percent-IsUnit 0 (omega arith)
stability_score-IsUnit (h ∷ w) = record {
  proper = omega arith;
  at_most_one = count_stable-le (h ∷ w);
}

module _ (sim : Similarity) (u : AreUnits sim) where
  individual-IsUnit :
      (phrase : Text) (best : Ratio) (w : List Hypothesis)
      → IsUnit best
      → IsUnit (individual sim phrase best w)
  individual-IsUnit phrase best [] h = h
  individual-IsUnit phrase best (x ∷ w) h =
      individual-IsUnit phrase (max_ratio best (sim.token_set_ratio x.text phrase)) w
        (max_ratio-IsUnit best (sim.token_set_ratio x.text phrase) h (u.token_set x.text phrase))

  fuzzy_score-IsUnit : (s : Scoring) (phrase : Text) → IsUnit (fuzzy_score sim s phrase)
  unfolding fuzzy_score
  fuzzy_score-IsUnit s phrase =
      max_ratio-IsUnit _ _
        (max_ratio-IsUnit (sim.token_set_ratio s.combined (lower phrase))
          (individual sim (lower phrase) (percent 0) s.window)
          (u.token_set s.combined (lower phrase))
          (individual-IsUnit (lower phrase) (percent 0) s.window (percent-IsUnit 0 (omega arith))))
        (if_keeps IsUnit
          (is_canonical s.canonical_candidate phrase && not (is_empty s.matched_variant))
          (mul-IsUnit (sim.token_set_ratio s.combined s.matched_variant) (percent 85)
            (u.token_set s.combined s.matched_variant) (percent-IsUnit 85 (omega arith)))
          (percent-IsUnit 0 (omega arith)))

  -- A candidate has a score between 0 and 1 and a phrase of the list.
  abbrev IsGood : List Text → Candidate → Type 0
  IsGood ps c = IsUnit c.score × (text_mem c.phrase ps ≡ true)

  abbrev GoodOption : Text → Option Candidate → Type 0
  GoodOption p none = Unit
  GoodOption p (some c) = IsUnit c.score × (c.phrase ≡ p)

  score_phrase-IsGood : (s : Scoring) (p : Text) → GoodOption p (score_phrase sim s p)
  unfolding score_phrase
  score_phrase-IsGood s p =
      if_keeps (GoodOption p) (is_skipped sim s p) {x = none}
        {y = some (record { score = total_score sim s p; phrase = p })} tt
        (
          blend3-IsUnit (fuzzy_score sim s p) (context_score s.combined p)
              (stability_score s.window) (fuzzy_score-IsUnit s p)
              (context_score-IsUnit s.combined p) (stability_score-IsUnit s.window),
          refl,
        )

  weaken-IsGood :
      (p : Text) (ps : List Text) (cs : List Candidate)
      → All (IsGood ps) cs
      → All (IsGood (p ∷ ps)) cs
  weaken-IsGood p ps [] h = tt
  weaken-IsGood p ps (c ∷ cs) h = ((h.0.0, ground arith), weaken-IsGood p ps cs h.1)

  score_phrases-IsGood : (s : Scoring) (ps : List Text) → All (IsGood ps) (score_phrases sim s ps)
  unfolding score_phrases
  score_phrases-IsGood s [] = tt
  score_phrases-IsGood s (p ∷ ps) =
      cons (score_phrase sim s p) (score_phrase-IsGood s p)
        (weaken-IsGood p ps (score_phrases sim s ps) (score_phrases-IsGood s ps))
    where
      cons :
          (o : Option Candidate)
          → GoodOption p o
          → All (IsGood (p ∷ ps)) (score_phrases sim s ps)
          → All
              (IsGood (p ∷ ps))
              (elim o [ none ↦ score_phrases sim s ps | some c ↦ c ∷ score_phrases sim s ps ])
      cons none g h = h
      cons (some c) g h = ((g.0, rw (g.1, text_eq_refl)), h)

max_score-IsUnit :
    (ps : List Text) (best : Ratio) (cs : List Candidate)
    → IsUnit best
    → All (λ c. IsUnit c.score × (text_mem c.phrase ps ≡ true)) cs
    → IsUnit (max_score best cs)
max_score-IsUnit ps best [] h g = h
max_score-IsUnit ps best (c ∷ cs) h g =
    max_score-IsUnit ps (max_ratio best c.score) cs (max_ratio-IsUnit best c.score h g.0.0) g.1

top_candidate-mem :
    (ps : List Text) (c : Candidate) (cs : List Candidate)
    → text_mem c.phrase ps ≡ true
    → All (λ c. IsUnit c.score × (text_mem c.phrase ps ≡ true)) cs
    → text_mem (top_candidate c cs).phrase ps ≡ true
top_candidate-mem ps c [] h g = h
top_candidate-mem ps c (d ∷ ds) h g =
    top_candidate-mem ps (if key_lt c d then d else c) ds
      (if_keeps (λ (e : Candidate). text_mem e.phrase ps ≡ true) (key_lt c d) {x = d} {y = c} g.0.1
        h)
      g.1

-- Either nothing was found, at score 0, or the phrase is one of those that were scored.
abbrev pub IsSound : List Text → Match → Type 0
IsSound ps m =
    IsUnit m.score × ((m.phrase ≡ []) × (m.score ≡ percent 0) ⊎ (text_mem m.phrase ps ≡ true))

picked-IsSound :
    (ps : List Text) (v : Text) (cs : List Candidate)
    → All (λ c. IsUnit c.score × (text_mem c.phrase ps ≡ true)) cs
    → IsSound ps (picked v cs)
unfolding best_score resolve_phrase_candidate
picked-IsSound ps v [] g = (percent-IsUnit 0 (omega arith), inl (refl, refl))
picked-IsSound ps v (c ∷ cs) g =
    (max_score-IsUnit ps c.score cs g.0.0 g.1, inr (top_candidate-mem ps c cs g.0.1 g.1))

-- The phrases that a window is scored against.
abbrev pub scored : VariantIndex → List Text → List Hypothesis → List Text
scored x phrases w = with_canonical (scoring_of x w).canonical_candidate phrases

-- If the similarities lie between 0 and 1, so does the score. The phrase is empty and the score 0,
-- or the phrase is an active one or the canonical phrase of the variant that was found.
pub best_match-IsSound :
    (sim : Similarity) (u : AreUnits sim) (x : VariantIndex) (phrases : List Text)
    (w : List Hypothesis)
    → IsSound (scored x phrases w) (best_match sim x phrases w)
unfolding best_match
best_match-IsSound sim u x phrases w =
    let cs = score_phrases sim (scoring_of x w) (scored x phrases w) in
    let v = (scoring_of x w).matched_variant in
    if_keeps (IsSound (scored x phrases w)) (is_rejected sim x phrases w) {x = no_match}
      {y = picked v cs} (percent-IsUnit 0 (omega arith), inl (refl, refl))
      (picked-IsSound (scored x phrases w) v cs
        (score_phrases-IsGood sim u (scoring_of x w) (scored x phrases w)))
