-- ===== src/Matcher/Variants.antt =====
-- runtime/matcher/variants.py: the index of the variants, built from the registry under its lock.
pub mod Index
use ava_listener.Base.{if◌then◌else◌, is_empty, Option, none, some, List, [], ◌∷◌, ◌++◌, map}
use ava_listener.Base.Text.{Text, text_eq, lower, strip, text_mem}
use ava_listener.Matcher.Registry.{PhraseConfig, Registry, get_active}

-- `_all_variants` in order, and `_variant_to_canon` with the newest writer of a key first.
pub record VariantIndex : Type 0 where
  pub all_variants : List Text
  pub variant_to_canon : List (Text × Text)

abbrev pub empty_index : VariantIndex
empty_index = record { all_variants = []; variant_to_canon = [] }

-- One variant of a phrase. A text is in `seen` exactly if it is in `all_variants`.
unfoldable pub index_variant : Text → Text → VariantIndex → VariantIndex
index_variant canonical v x =
    let norm : Text = lower (strip v) in
    if is_empty norm then x else record {
      all_variants =
          if text_mem norm x.all_variants then x.all_variants else x.all_variants ++ norm ∷ [];
      variant_to_canon = (norm, canonical) ∷ x.variant_to_canon;
    }

unfoldable pub index_variants : Text → List Text → VariantIndex → VariantIndex
unfolding index_variant
index_variants canonical [] x = x
index_variants canonical (v ∷ vs) x = index_variants canonical vs (index_variant canonical v x)

unfoldable pub build_from : List PhraseConfig → VariantIndex → VariantIndex
unfolding index_variants
build_from [] x = x
build_from (p ∷ ps) x = build_from ps (index_variants p.phrase p.variants x)

-- `_build_index_from_registry`, over all phrases, the disabled ones too.
unfoldable pub build_index : Registry → VariantIndex
unfolding build_from
build_index r = build_from r empty_index

abbrev pub lookup_text : Text → List (Text × Text) → Option Text
lookup_text k [] = none
lookup_text k ((j, c) ∷ l) = if text_eq j k then some c else lookup_text k l

unfoldable pub get_canonical : VariantIndex → Text → Option Text
get_canonical x variant = lookup_text (lower (strip variant)) x.variant_to_canon

unfoldable pub get_active_phrases : Registry → List Text
unfolding get_active
get_active_phrases r = map (λ p. p.phrase) (get_active r)
