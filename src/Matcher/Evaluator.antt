-- ===== src/Matcher/Evaluator.antt =====
-- runtime/matcher/evaluator.py: the score of a window behind the anchor gate. Scores are exact
-- fractions.
pub mod Best
use ava_listener.Base.{
  ltb, leb, ◌==◌, if◌then◌else◌, length, is_empty, any, ℕ, zero, suc, ◌/◌, min, Bool, true, false,
  not, ◌&&◌, ◌||◌, Option, none, some, List, [], ◌∷◌, ◌++◌, map,
}
use ava_listener.Base.Ratio.{Ratio, percent, add, mul, lt_ratio, max_ratio}
use ava_listener.Base.Text.{Text, text_eq, contains, lower, split, strip, text_mem}
use ava_listener.Matcher.Buffer.{Hypothesis}
use ava_listener.Matcher.Variants.{VariantIndex, get_canonical}
use ava_listener.Matcher.Anchor.{Similarity, anchor_present}

abbrev init_words : List Text → List Text
init_words [] = []
init_words (w ∷ []) = []
init_words (w ∷ v ∷ ws) = w ∷ init_words (v ∷ ws)

-- All words but the last.
unfoldable pub derive_context_words : Text → List Text
derive_context_words phrase = init_words (split (strip phrase))

-- `" ".join(parts)`.
abbrev join_blank : List Text → Text
join_blank [] = []
join_blank (w ∷ []) = w
join_blank (w ∷ v ∷ ws) = w ++ b' ' ∷ join_blank (v ∷ ws)

abbrev count_in : List Text → List Text → ℕ
count_in [] words = 0
count_in (w ∷ ws) words =
    let rest = count_in ws words in if text_mem w words then suc rest else rest

unfoldable pub context_score : Text → Text → Ratio
unfolding derive_context_words
context_score text phrase =
    let words : List Text = derive_context_words phrase in
    if is_empty words
    then percent 100
    else record { num = count_in words (split (lower text)); den = length words }

abbrev count_stable : List Hypothesis → ℕ
count_stable [] = 0
count_stable (h ∷ hs) = let rest = count_stable hs in if leb 2 h.stability then suc rest else rest

unfoldable pub stability_score : List Hypothesis → Ratio
stability_score w =
    if is_empty w then percent 0 else record { num = count_stable w; den = length w }

abbrev replicate : ℕ → Text → List Text
replicate zero t = []
replicate (suc n) t = t ∷ replicate n t

abbrev weighted_parts : List Hypothesis → List Text
weighted_parts [] = []
weighted_parts (h ∷ hs) = replicate (suc (min (h.stability / 2) 3)) h.text ++ weighted_parts hs

unfoldable pub build_weighted_text : List Hypothesis → Text
build_weighted_text w = lower (join_blank (weighted_parts w))

-- The longest variant that stands in one of the texts, the first of those.
abbrev longest_found : List Text → Text → List Text → Text
longest_found texts best [] = best
longest_found texts best (v ∷ vs) =
    longest_found texts
      (if any (λ t. contains v (lower t)) texts && ltb (length best) (length v) then v else best) vs

unfoldable pub find_matched_variant : List Text → Text → List Hypothesis → Text
find_matched_variant variants combined w =
    longest_found (combined ∷ map (λ h. h.text) w) [] variants

pub record Candidate : Type 0 where
  pub score : Ratio
  pub phrase : Text

-- Texts are compared by code points.
abbrev text_lt : Text → Text → Bool
text_lt [] [] = false
text_lt [] (y ∷ t) = true
text_lt (x ∷ s) [] = false
text_lt (x ∷ s) (y ∷ t) = ltb x y || (x == y && text_lt s t)

-- Is the key (score, length of the phrase, phrase) of the first below that of the second?
abbrev key_lt : Candidate → Candidate → Bool
key_lt a b =
    lt_ratio a.score b.score
    || (not (lt_ratio b.score a.score)
        && (ltb (length a.phrase) (length b.phrase)
            || (length a.phrase == length b.phrase && text_lt a.phrase b.phrase)))

abbrev top_candidate : Candidate → List Candidate → Candidate
top_candidate c [] = c
top_candidate c (d ∷ ds) = top_candidate (if key_lt c d then d else c) ds

-- With the priority mode "longest" of the configuration: the first of the candidates after sorting
-- by falling key, which is the first that no other exceeds.
unfoldable pub resolve_phrase_candidate : List Candidate → Text
resolve_phrase_candidate [] = []
resolve_phrase_candidate (c ∷ cs) = (top_candidate c cs).phrase

abbrev max_score : Ratio → List Candidate → Ratio
max_score best [] = best
max_score best (c ∷ cs) = max_score (max_ratio best c.score) cs

-- `max(scores, default=0.0)`.
unfoldable pub best_score : List Candidate → Ratio
best_score [] = percent 0
best_score (c ∷ cs) = max_score c.score cs

-- The size of `set(words)`.
abbrev distinct_count : List Text → ℕ
distinct_count [] = 0
distinct_count (w ∷ ws) = let rest = distinct_count ws in if text_mem w ws then rest else suc rest

abbrev window_words : List Hypothesis → List Text
window_words [] = []
window_words (h ∷ hs) = split (lower h.text) ++ window_words hs

-- The largest of the similarities of the hypotheses; the window is not empty.
abbrev individual : Similarity → Text → Ratio → List Hypothesis → Ratio
individual sim phrase best [] = best
individual sim phrase best (h ∷ hs) =
    individual sim phrase (max_ratio best (sim.token_set_ratio h.text phrase)) hs

-- What the loop over the phrases shares.
pub record Scoring : Type 0 where
  pub combined : Text
  pub window : List Hypothesis
  pub matched_variant : Text
  pub canonical_candidate : Option Text

abbrev is_canonical : Option Text → Text → Bool
is_canonical none phrase = false
is_canonical (some c) phrase = text_eq c phrase

unfoldable pub fuzzy_score : Similarity → Scoring → Text → Ratio
fuzzy_score sim s phrase =
    let via_variant : Ratio =
      if is_canonical s.canonical_candidate phrase && not (is_empty s.matched_variant)
      then mul (sim.token_set_ratio s.combined s.matched_variant) (percent 85)
      else percent 0 in
    max_ratio
      (max_ratio (sim.token_set_ratio s.combined (lower phrase))
        (individual sim (lower phrase) (percent 0) s.window))
      via_variant

abbrev total_score : Similarity → Scoring → Text → Ratio
total_score sim s phrase =
    add
      (add (mul (fuzzy_score sim s phrase) (percent 65))
        (mul (context_score s.combined phrase) (percent 20)))
      (mul (stability_score s.window) (percent 15))

-- Below the fuzzy threshold, or a window with fewer words than the phrase: REQUIRE_FULL_PHRASE is
-- set.
abbrev is_skipped : Similarity → Scoring → Text → Bool
is_skipped sim s phrase =
    lt_ratio (fuzzy_score sim s phrase) (percent 65)
    || ltb (distinct_count (window_words s.window)) (distinct_count (split (lower phrase)))

-- One phrase of the loop: `none` is a `continue`.
unfoldable pub score_phrase : Similarity → Scoring → Text → Option Candidate
unfolding fuzzy_score context_score stability_score
score_phrase sim s phrase =
    if is_skipped sim s phrase
    then none
    else some (record { score = total_score sim s phrase; phrase = phrase })

unfoldable pub score_phrases : Similarity → Scoring → List Text → List Candidate
unfolding score_phrase
score_phrases sim s [] = []
score_phrases sim s (p ∷ ps) =
    let rest = score_phrases sim s ps in
    elim (score_phrase sim s p) [ none ↦ rest | some c ↦ c ∷ rest ]

pub record Match : Type 0 where
  pub score : Ratio
  pub phrase : Text
  pub variant : Text

abbrev pub no_match : Match
no_match = record { score = percent 0; phrase = []; variant = [] }

-- The canonical phrase of the matched variant joins the phrases if it is not among them.
abbrev pub with_canonical : Option Text → List Text → List Text
with_canonical none ps = ps
with_canonical (some c) ps = if is_empty c || text_mem c ps then ps else ps ++ c ∷ []

abbrev canonical_of : VariantIndex → Text → Option Text
canonical_of x variant = if is_empty variant then none else get_canonical x variant

-- What is read off the window before the phrases are scored.
abbrev scoring_of : VariantIndex → List Hypothesis → Scoring
scoring_of x w =
    let combined : Text = build_weighted_text w in
    let variant : Text = find_matched_variant x.all_variants combined w in
    record {
      combined = combined;
      window = w;
      matched_variant = variant;
      canonical_candidate = canonical_of x variant;
    }

abbrev picked : Text → List Candidate → Match
picked variant candidates = record {
  score = best_score candidates;
  phrase = resolve_phrase_candidate candidates;
  variant = variant;
}

abbrev is_rejected : Similarity → VariantIndex → List Text → List Hypothesis → Bool
is_rejected sim x phrases w =
    is_empty w
    || is_empty phrases
    || not (anchor_present sim x.all_variants (build_weighted_text w))

unfoldable pub best_match : Similarity → VariantIndex → List Text → List Hypothesis → Match
unfolding anchor_present build_weighted_text find_matched_variant score_phrases best_score
    resolve_phrase_candidate
best_match sim x phrases w =
    let s : Scoring = scoring_of x w in
    if is_rejected sim x phrases w
    then no_match
    else picked s.matched_variant
        (score_phrases sim s (with_canonical s.canonical_candidate phrases))
