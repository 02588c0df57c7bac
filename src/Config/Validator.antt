-- ===== src/Config/Validator.antt =====
-- runtime/config/profile_validator.py. A message is a constructor with what it names.
pub mod Loads
use ava_listener.Base.{
  ◌==◌, if◌then◌else◌, is_empty, ℕ, String, Bool, true, false, ◌&&◌, ◌||◌, List, [], ◌∷◌, ◌++◌,
  str_eq,
}
use ava_listener.Base.Ratio.{percent, le_ratio}
use ava_listener.Base.Text.{codes}
use mathlib.Core.List.{reverse}
use ava_listener.Config.{
  Value, Items, Fields, null, bool, number, minus, text, array, object, nil, item, empty, field,
  Error, Outcome, returned, raised, unsupported_version, type_error, out_of_fuel, get, get_or,
  lt_value, as_number, ◌>>=◌,
}
use ava_listener.Config.Migrations.{apply_migrations}
use ava_listener.Config.Profiles.{File, absent, broken, json, mem_path, resolve_inheritance}

pub data Warning : Type 0 where
  low_threshold : Value → Warning
  unknown_field : String → Warning

pub data Problem : Type 0 where
  not_json : Problem
  failed : Error → Problem
  duplicate : Value → Problem

pub record ValidationResult : Type 0 where
  pub valid : Bool
  pub warnings : List Warning
  pub errors : List Problem

abbrev pub rejected : Problem → ValidationResult
rejected p = record { valid = false; warnings = []; errors = p ∷ [] }

-- `==` of the keys of a set: numbers by value, and a Boolean is a number.
abbrev same_key : Value → Value → Bool
same_key (number x) (number y) = le_ratio x y && le_ratio y x
same_key (minus x) (minus y) = le_ratio x y && le_ratio y x
same_key (number x) (minus y) = x.num == 0 && y.num == 0
same_key (minus x) (number y) = x.num == 0 && y.num == 0
same_key (text s) (text t) = str_eq s t
same_key null null = true
same_key v w = false

abbrev pub mem_key : Value → List Value → Bool
mem_key v [] = false
mem_key v (w ∷ ws) = same_key (as_number w) (as_number v) || mem_key v ws

-- An array or a dict cannot be a key of a set.
abbrev hashed : Value → Outcome Value
hashed (array vs) = raised type_error
hashed (object d) = raised type_error
hashed v = returned v

-- The loops over the phrases: the identifiers seen, and the messages, last first.
pub record Scan : Type 0 where
  pub seen : List Value
  pub warned : List Warning
  pub problems : List Problem

abbrev pub note_id : Value → Scan → Scan
note_id i s = record s {
  seen = i ∷ s.seen;
  problems = if mem_key i s.seen then duplicate i ∷ s.problems else s.problems;
}

abbrev pub note_threshold : Bool → Value → Scan → Scan
note_threshold low i s = if low then record s { warned = low_threshold i ∷ s.warned } else s

unfoldable pub scan_phrase : Fields → Scan → Outcome Scan
unfolding get
scan_phrase d s = hashed (get_or "phraseId" (get_or "phrase" (text "") d) d) >>= λ i.
    lt_value (get_or "threshold" (number (percent 50)) d) (number (percent 40)) >>= λ low.
    returned (note_threshold low i (note_id i s))

unfoldable pub scan_items : Items → Scan → Outcome Scan
unfolding scan_phrase
scan_items nil s = returned s
scan_items (item (object d) vs) s = scan_phrase d s >>= λ s'. scan_items vs s'
scan_items (item v vs) s = raised type_error

-- The value of "wakePhrases": a text or a dict gives texts, which are no phrases.
unfoldable pub scan_phrases : Value → Scan → Outcome Scan
unfolding scan_items
scan_phrases (array vs) s = scan_items vs s
scan_phrases (object empty) s = returned s
scan_phrases (text t) s = if is_empty (codes t) then returned s else raised type_error
scan_phrases v s = raised type_error

unfoldable pub scan_chain : List Fields → Scan → Outcome Scan
unfolding scan_phrases get
scan_chain [] s = returned s
scan_chain (p ∷ ps) s =
    scan_phrases (get_or "wakePhrases" (array nil) p) s >>= λ s'. scan_chain ps s'

abbrev known_fields : List String
known_fields =
    "extends" ∷ "profileVersion" ∷ "name" ∷ "description" ∷ "wakePhrases" ∷ "vad" ∷ "asr" ∷ "audio"
    ∷ "confidence" ∷ "transcription" ∷ []

abbrev pub unknown_fields : Fields → List Warning
unknown_fields empty = []
unknown_fields (field k v d) =
    let rest = unknown_fields d in if mem_path k known_fields then rest else unknown_field k ∷ rest

abbrev pub report : Fields → Scan → ValidationResult
report root s = record {
  valid = is_empty s.problems;
  warnings = reverse s.warned ++ unknown_fields root;
  errors = reverse s.problems;
}

abbrev pub new_scan : Scan
new_scan = record { seen = []; warned = []; problems = [] }

-- The inheritance chain, where `except Exception` takes every error. Fuel is no exception.
abbrev pub check_chain : Fields → Outcome (List Fields) → Outcome ValidationResult
check_chain root (returned chain) = scan_chain chain new_scan >>= λ s. returned (report root s)
check_chain root (raised out_of_fuel) = raised out_of_fuel
check_chain root (raised e) = returned (rejected (failed e))

-- Only the error of an unsupported version is taken here.
abbrev pub check_migrated :
    Outcome Fields → (Fields → Outcome (List Fields)) → Outcome ValidationResult
check_migrated (returned root) chain = check_chain root (chain root)
check_migrated (raised unsupported_version) chain = returned (rejected (failed unsupported_version))
check_migrated (raised e) chain = raised e

abbrev pub check_file : File → (Fields → Outcome (List Fields)) → Outcome ValidationResult
check_file absent chain = returned (rejected not_json)
check_file broken chain = returned (rejected not_json)
check_file (json (object d)) chain = check_migrated (apply_migrations d) chain
check_file (json v) chain = raised type_error

module _ (disk : String → File) (join : String → String → String) (dirname : String → String) where
  unfoldable pub validate_profile : ℕ → String → Outcome ValidationResult
  unfolding resolve_inheritance apply_migrations scan_chain
  validate_profile n path =
      check_file (disk path)
        (λ root. resolve_inheritance disk join dirname n root (dirname path) (path ∷ []))
