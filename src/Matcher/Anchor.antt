-- ===== src/Matcher/Anchor.antt =====
-- `anchor_present` of runtime/matcher/evaluator.py, the hard gate in front of the scores. The
-- similarities of jellyfish and rapidfuzz are parameters.
use ava_listener.Base.{leb, length, any, ℕ, ◌+◌, ◌-◌, Bool, ◌&&◌, ◌||◌, List, [], ◌∷◌, ◌++◌}
use ava_listener.Base.Ratio.{Ratio, percent, le_ratio}
use ava_listener.Base.Text.{Text, contains, lower, split, remove_blanks}

-- `jellyfish.jaro_winkler_similarity`, between 0 and 1, and `fuzz.token_set_ratio` over 100.
pub record Similarity : Type 0 where
  pub jaro_winkler : Text → Text → Ratio
  pub token_set_ratio : Text → Text → Ratio

abbrev pub distance : ℕ → ℕ → ℕ
distance a b = (a - b) + (b - a)

abbrev pub join_words : List Text → Text
join_words [] = []
join_words (w ∷ ws) = w ++ join_words ws

-- The multi-token tests of one variant.
unfoldable pub matches_phrase : Text → Text → Bool
matches_phrase text variant =
    let v : Text = remove_blanks variant in
    let stripped : Text = join_words (split (lower text)) in
    contains (b' ' ∷ []) variant
    && ((leb (distance (length (split (lower text))) (length (split variant))) 2
          && contains variant (lower text))
        || (leb (distance (length stripped) (length v)) 3 && contains v stripped))

-- The substring test of one token.
unfoldable pub matches_token : Text → Text → Bool
matches_token v tok =
    let tok_stripped : Text = remove_blanks tok in
    (contains v tok_stripped || contains tok_stripped v)
    && leb (distance (length tok_stripped) (length v)) 2

unfoldable pub matches_jaro : Similarity → Text → Text → Bool
matches_jaro sim v tok =
    leb (distance (length tok) (length v)) 2 && le_ratio (percent 82) (sim.jaro_winkler tok v)

-- The loop returns at the first variant that matches.
unfoldable pub anchor_present : Similarity → List Text → Text → Bool
unfolding matches_phrase matches_token matches_jaro
anchor_present sim variants text =
    any
      (λ variant.
        matches_phrase text variant
        || any (matches_token (remove_blanks variant)) (split (lower text))
        || any (matches_jaro sim (remove_blanks variant)) (split (lower text)))
      variants
