-- ===== src/Config/Settings.antt =====
-- runtime/config/mutability.py, runtime/config/validation.py and runtime/config/schema.py.
use ava_listener.Base.{is_empty, String, Bool, true, false, not, Option, none, some, List, [], ◌∷◌}
use ava_listener.Base.Text.{codes, strip}
use ava_listener.Config.{Value, Fields, null, bool, text, object, empty, field, get}
use ava_listener.Config.Profiles.{mem_path}

abbrev pub hot_reload_fields : List String
hot_reload_fields =
    "vad.sileroThreshold" ∷ "vad.aggressiveness" ∷ "confidence.defaultThreshold"
    ∷ "confidence.emaRiseAlpha" ∷ "confidence.emaDecayAlpha" ∷ "confidence.cooldownSeconds"
    ∷ "transcription.enableDebug" ∷ []

-- `false` is a RestartRequiredError.
unfoldable pub check_mutability : String → Bool → Bool
check_mutability field_path false = true
check_mutability field_path true = mem_path field_path hot_reload_fields

abbrev log_levels : List String
log_levels = "silent" ∷ "error" ∷ "warn" ∷ "info" ∷ "debug" ∷ "trace" ∷ []

abbrev phrase_priority_modes : List String
phrase_priority_modes = "longest" ∷ "score" ∷ "canonical" ∷ []

abbrev toggles : List String
toggles = "vad" ∷ "asr" ∷ "matcher" ∷ "transport" ∷ "telemetry" ∷ []

-- Why a configuration is refused: the ValueErrors, in the order of the checks.
pub data Refusal : Type 0 where
  not_a_dict bad_schema_version bad_log_level bad_debug bad_metrics_to_disk bad_metrics_path :
      Refusal
  bad_priority : Refusal
  missing_toggle bad_toggle : String → Refusal

-- `value in texts`, where a missing value is `None`.
abbrev is_one_of : List String → Option Value → Bool
is_one_of texts (some (text s)) = mem_path s texts
is_one_of texts o = false

abbrev refuse_unless : Bool → Refusal → Option Refusal → Option Refusal
refuse_unless true r next = next
refuse_unless false r next = some r

abbrev check_toggle : String → Option Value → Option Refusal → Option Refusal
check_toggle key none next = some (missing_toggle key)
check_toggle key (some (bool b)) next = next
check_toggle key (some v) next = some (bad_toggle key)

unfoldable check_toggles : List String → Fields → Option Refusal → Option Refusal
unfolding get
check_toggles [] debug next = next
check_toggles (key ∷ keys) debug next =
    check_toggle key (get key debug) (check_toggles keys debug next)

abbrev check_debug : Option Value → Option Refusal → Option Refusal
check_debug (some (object debug)) next = check_toggles toggles debug next
check_debug o next = some bad_debug

abbrev is_bool : Option Value → Bool
is_bool (some (bool b)) = true
is_bool o = false

-- A text that is not blank.
abbrev is_path : Option Value → Bool
is_path (some (text s)) = not (is_empty (strip (codes s)))
is_path o = false

-- `None` is allowed, given or missing.
abbrev is_priority : Option Value → Bool
is_priority none = true
is_priority (some null) = true
is_priority o = is_one_of phrase_priority_modes o

-- `validate_config`: `none` when it returns.
unfoldable pub validate_config : Value → Option Refusal
unfolding get check_toggles
validate_config (object c) =
    refuse_unless (is_one_of ("1.0" ∷ []) (get "schema_version" c)) bad_schema_version (
      refuse_unless (is_one_of log_levels (get "log_level" c)) bad_log_level (
        check_debug (get "debug" c) (
          refuse_unless (is_bool (get "metrics_to_disk" c)) bad_metrics_to_disk (
            refuse_unless (is_path (get "metrics_file_path" c)) bad_metrics_path
              (refuse_unless (is_priority (get "phrase_priority_mode" c)) bad_priority none)))))
validate_config v = some not_a_dict

-- `DEFAULT_CONFIG` of the schema.
abbrev pub default_config : Value
default_config = object (
    field "schema_version" (text "1.0") (
      field "log_level" (text "info") (
        field "debug"
          (object (
            field "vad" (bool false) (
              field "asr" (bool false) (
                field "matcher" (bool false)
                  (field "transport" (bool false) (field "telemetry" (bool false) empty))))))
          (field "metrics_to_disk" (bool false)
            (field "metrics_file_path" (text "runtime_metrics.json") empty)))))
