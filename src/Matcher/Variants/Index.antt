-- ===== src/Matcher/Variants/Index.antt =====
-- The two halves of the index of runtime/matcher/variants.py agree.
use ava_listener.Base.{
  if◌then◌else◌, is_empty, ◌≡◌, refl, sym, ap, ◌∙◌, Bool, true, false, ◌||◌, Option, none, some,
  List, [], ◌∷◌, ◌++◌, arith, if_keeps,
}
use ava_listener.Base.Text.{Text, text_eq, lower, strip, text_mem, text_eq_sound}
use ava_listener.Matcher.Registry.{PhraseConfig, Registry}
use ava_listener.Matcher.Variants.{
  VariantIndex, empty_index, index_variant, index_variants, build_from, build_index, lookup_text,
}

abbrev pub is_some {ℓ} : {A : Type ℓ} → Option A → Bool
is_some none = false
is_some (some a) = true

-- No text stands twice.
abbrev pub Distinct : List Text → Type 0
Distinct [] = Unit
Distinct (t ∷ ts) = (text_mem t ts ≡ false) × Distinct ts

pub record IsIndex (x : VariantIndex) : Type 0 where
  pub agrees : (t : Text) → text_mem t x.all_variants ≡ is_some (lookup_text t x.variant_to_canon)
  pub distinct : Distinct x.all_variants

text_mem-append :
    (t u : Text) (ts : List Text) → text_mem t (ts ++ u ∷ []) ≡ (text_mem t ts || text_eq u t)
text_mem-append t u [] = ground arith
text_mem-append t u (v ∷ ts) = ground (arith, text_mem-append t u ts)

text_eq_sym : (s t : Text) → text_eq s t ≡ text_eq t s
text_eq_sym [] [] = refl
text_eq_sym [] (y ∷ t) = refl
text_eq_sym (x ∷ s) [] = refl
text_eq_sym (x ∷ s) (y ∷ t) = ground (arith, text_eq_sym s t)

Distinct-append :
    (u : Text) (ts : List Text) → text_mem u ts ≡ false → Distinct ts → Distinct (ts ++ u ∷ [])
Distinct-append u [] m d = (refl, tt)
Distinct-append u (t ∷ ts) m d = (
  text_mem-append t u ts ∙ (ground (arith, text_eq_sym u t)),
  Distinct-append u ts (ground arith) d.1,
)

same_mem : (s t : Text) (ts : List Text) → text_eq s t ≡ true → text_mem t ts ≡ text_mem s ts
same_mem s t ts h = ap (λ u. text_mem u ts) (sym (text_eq_sound s t h))

abbrev with_variant : Bool → Text → Text → VariantIndex → VariantIndex
with_variant old norm canonical x = record {
  all_variants = if old then x.all_variants else x.all_variants ++ norm ∷ [];
  variant_to_canon = (norm, canonical) ∷ x.variant_to_canon;
}

with_variant-IsIndex :
    (old : Bool) (norm canonical : Text) (x : VariantIndex)
    → text_mem norm x.all_variants ≡ old
    → IsIndex x
    → IsIndex (with_variant old norm canonical x)
with_variant-IsIndex true norm canonical x m h = record {
  agrees = λ t. ground (arith, h.agrees t, same_mem norm t x.all_variants);
  distinct = h.distinct;
}
with_variant-IsIndex false norm canonical x m h = record {
  agrees = λ t. ground (arith, h.agrees t, text_mem-append t norm x.all_variants);
  distinct = Distinct-append norm x.all_variants m h.distinct;
}

index_variant-IsIndex :
    (canonical v : Text) (x : VariantIndex) → IsIndex x → IsIndex (index_variant canonical v x)
unfolding index_variant
index_variant-IsIndex canonical v x h = if_keeps IsIndex (is_empty (lower (strip v))) h (
    with_variant-IsIndex (text_mem (lower (strip v)) x.all_variants) (lower (strip v)) canonical x
      refl h)

index_variants-IsIndex :
    (canonical : Text) (vs : List Text) (x : VariantIndex)
    → IsIndex x
    → IsIndex (index_variants canonical vs x)
unfolding index_variants
index_variants-IsIndex canonical [] x h = h
index_variants-IsIndex canonical (v ∷ vs) x h =
    index_variants-IsIndex canonical vs (index_variant canonical v x)
      (index_variant-IsIndex canonical v x h)

build_from-IsIndex :
    (ps : List PhraseConfig) (x : VariantIndex) → IsIndex x → IsIndex (build_from ps x)
unfolding build_from
build_from-IsIndex [] x h = h
build_from-IsIndex (p ∷ ps) x h =
    build_from-IsIndex ps (index_variants p.phrase p.variants x)
      (index_variants-IsIndex p.phrase p.variants x h)

-- In the index of any registry the list of variants has no text twice, and holds exactly the texts
-- that are mapped to a canonical phrase.
pub build_index-IsIndex : (r : Registry) → IsIndex (build_index r)
unfolding build_index
build_index-IsIndex r =
    build_from-IsIndex r empty_index (record { agrees = λ t. refl; distinct = tt })
