-- ===== src/Matcher/Registry.antt =====
-- runtime/matcher/registry/phrase_registry.py. A registry is the list of its phrases in insertion
-- order; every method runs under one lock, so it is one step.
use ava_listener.Base.{
  if◌then◌else◌, length, is_empty, ℕ, suc, String, Bool, true, false, not, ◌&&◌, ◌||◌, Option, none,
  some, List, [], ◌∷◌, str_eq,
}
use ava_listener.Base.Ratio.{Ratio, percent, le_ratio, lt_ratio}
use ava_listener.Base.Text.{Text, lower, strip, text_mem}

-- `negsuc n` is -(n + 1).
pub data ℤ : Type 0 where
  pos : ℕ → ℤ
  negsuc : ℕ → ℤ

pub record PhraseConfig : Type 0 where
  pub phrase_id : String
  pub phrase : Text
  pub variants : List Text
  pub threshold : Ratio
  pub cooldown_ms : ℤ
  pub enabled : Bool
  pub weight : Ratio

abbrev is_negative : ℤ → Bool
is_negative (pos n) = false
is_negative (negsuc n) = true

-- `__post_init__`; `none` is a ValueError.
unfoldable pub post_init : PhraseConfig → Option PhraseConfig
post_init p =
    if str_eq p.phrase_id ""
      || is_empty p.phrase
      || not (lt_ratio (percent 0) p.threshold && le_ratio p.threshold (percent 100))
      || is_negative p.cooldown_ms
    then none
    else some p

-- The loop over raw variants: strip, lower, and keep the first of equal ones.
unfoldable pub clean_variants : List Text → List Text → List Text
clean_variants seen [] = []
clean_variants seen (v ∷ vs) =
    let norm : Text = lower (strip v) in
    elim (is_empty norm || text_mem norm seen) [
      | true ↦ clean_variants seen vs
      | false ↦ norm ∷ clean_variants (norm ∷ seen) vs
    ]

-- An entry of `wakePhrases`, with the defaults of `from_dict` where a key is missing.
pub record PhraseData : Type 0 where
  pub phrase_id : String
  pub phrase : Text
  pub variants : Option (List Text)
  pub threshold : Ratio
  pub cooldown_ms : Option ℤ
  pub enabled : Option Bool
  pub weight : Option Ratio

abbrev or_default {ℓ} : {A : Type ℓ} → A → Option A → A
or_default d none = d
or_default d (some a) = a

unfoldable pub from_dict : PhraseData → Option PhraseConfig
unfolding post_init clean_variants
from_dict d = post_init (record {
  phrase_id = d.phrase_id;
  phrase = lower (strip d.phrase);
  variants = clean_variants [] (or_default [] d.variants);
  threshold = d.threshold;
  cooldown_ms = or_default (pos 2000) d.cooldown_ms;
  enabled = or_default true d.enabled;
  weight = or_default (percent 100) d.weight;
})

-- The keys that `with_updates` reads, and any other.
pub data Update : Type 0 where
  set_threshold set_weight : Ratio → Update
  set_cooldown : ℤ → Update
  set_enabled : Bool → Update
  set_variants : List Text → Update
  unknown_key : String → Update

abbrev apply : Update → PhraseConfig → PhraseConfig
apply (set_threshold t) p = record p { threshold = t }
apply (set_weight w) p = record p { weight = w }
apply (set_cooldown c) p = record p { cooldown_ms = c }
apply (set_enabled b) p = record p { enabled = b }
apply (set_variants vs) p = record p { variants = clean_variants [] vs }
apply (unknown_key k) p = p

abbrev apply_all : List Update → PhraseConfig → PhraseConfig
apply_all [] p = p
apply_all (u ∷ us) p = apply_all us (apply u p)

-- `replace` builds the new value, which is validated once, at the end.
unfoldable pub with_updates : List Update → PhraseConfig → Option PhraseConfig
unfolding post_init clean_variants
with_updates us p = post_init (apply_all us p)

abbrev pub Registry : Type 0
Registry = List PhraseConfig

-- `self._phrases[id] = phrase`: in place, or at the end.
unfoldable pub add_phrase : PhraseConfig → Registry → Registry
add_phrase p [] = p ∷ []
add_phrase p (q ∷ r) =
    let rest = add_phrase p r in if str_eq q.phrase_id p.phrase_id then p ∷ r else q ∷ rest

unfoldable pub remove_phrase : String → Registry → Registry
remove_phrase i [] = []
remove_phrase i (q ∷ r) =
    let rest = remove_phrase i r in if str_eq q.phrase_id i then rest else q ∷ rest

unfoldable pub get_by_id : String → Registry → Option PhraseConfig
get_by_id i [] = none
get_by_id i (q ∷ r) = if str_eq q.phrase_id i then some q else get_by_id i r

abbrev put_flag : Bool → Option PhraseConfig → Registry → Registry
put_flag b none r = r
put_flag b (some p) r = add_phrase (record p { enabled = b }) r

abbrev set_enabled_flag : Bool → String → Registry → Registry
set_enabled_flag b i r = put_flag b (get_by_id i r) r

unfoldable pub enable_phrase : String → Registry → Registry
enable_phrase = set_enabled_flag true

unfoldable pub disable_phrase : String → Registry → Registry
disable_phrase = set_enabled_flag false

abbrev put_updated : Option PhraseConfig → Registry → Option Registry
put_updated none r = none
put_updated (some q) r = some (add_phrase q r)

abbrev update_found : List Update → Option PhraseConfig → Registry → Option Registry
update_found us none r = some r
update_found us (some p) r = put_updated (with_updates us p) r

-- `none` is the ValueError of an update that is not valid: the registry stays as it was.
unfoldable pub update_phrase : String → List Update → Registry → Option Registry
update_phrase i us r = update_found us (get_by_id i r) r

abbrev pub clear : Registry → Registry
clear r = []

unfoldable pub get_active : Registry → List PhraseConfig
get_active [] = []
get_active (p ∷ r) = let rest = get_active r in if p.enabled then p ∷ rest else rest

abbrev pub count : Registry → ℕ
count = length

unfoldable pub active_count : Registry → ℕ
active_count [] = 0
active_count (p ∷ r) = let rest = active_count r in if p.enabled then suc rest else rest

-- `load_profile` of runtime/kernel/orchestrator.py, on the phrases of the loaded profile: all are
-- built first, so a bad one leaves the registry as it was.
unfoldable pub build_all : List PhraseData → Option (List PhraseConfig)
unfolding from_dict
build_all [] = some []
build_all (d ∷ ds) = elim (from_dict d) [
  | none ↦ none
  | some p ↦ elim (build_all ds) [ none ↦ none | some ps ↦ some (p ∷ ps) ]
]

unfoldable pub add_all : List PhraseConfig → Registry → Registry
add_all [] r = r
add_all (p ∷ ps) r = add_all ps (add_phrase p r)

unfoldable pub load_phrases : List PhraseData → Registry → Option Registry
unfolding build_all add_all
load_phrases ds r = elim (build_all ds) [ none ↦ none | some ps ↦ some (add_all ps (clear r)) ]
