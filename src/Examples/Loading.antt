-- ===== src/Examples/Loading.antt =====
-- Profiles at concrete inputs.
use ava_listener.Base.{
  if◌then◌else◌, any, String, ◌≡◌, refl, Bool, true, false, none, some, List, [], ◌∷◌, ◌++◌, arith,
  str_eq, eq_iff, if_keeps,
}
use ava_listener.Base.Text.{Text, codes, text_eq}
use ava_listener.Config.{
  Fields, text, array, object, nil, item, empty, field, returned, ran_out, get, ◌>>=◌,
}
use ava_listener.Config.Migrations.{apply_migrations, migrate_v1_to_v2, one, two}
use ava_listener.Config.Migrations.Current.{IsCurrent, apply_migrations-IsCurrent}
use ava_listener.Config.Profiles.{File, absent, json, read, load_profile, deep_merge}
use ava_listener.Config.Profiles.Chain.{AreFiles, load_profile_ends}
use ava_listener.Config.Profiles.Lineage.{Ancestors}
use ava_listener.Config.Profiles.Phrases.{
  HoldsDict, AreDicts, nearest_phrases, load_profile-nearest_phrases,
}
use ava_listener.Config.Profiles.Merge.{IsDict}
use ava_listener.Config.Validator.{ValidationResult, validate_profile}
use ava_listener.Ipc.{is_break, Json, IsJson, dumps, recv_loop}
use ava_listener.Ipc.Frames.{batches, recv_loop-batches}
use ava_listener.Config.Validator.Loads.{validate_profile-load_profile}

-- A profile of version 1 with a phrase, and one that extends it.
abbrev pub base : Fields
base =
    field "wakePhrases" (array (item (object (field "phrase" (text "hey nova") empty)) nil)) empty

abbrev pub child : Fields
child =
    field "extends" (text "base.json")
      (field "profileVersion" two (field "vad" (object (field "aggressiveness" one empty)) empty))

abbrev files : List String
files = "child.json" ∷ "base.json" ∷ []

abbrev pub disk : String → File
disk p =
    if str_eq p "child.json"
    then json (object child)
    else if str_eq p "base.json"
    then json (object base)
    else absent

abbrev pub join : String → String → String
join dir name = name

abbrev pub dirname : String → String
dirname path = ""

-- The version 1 profile after its migration.
abbrev weighed : Fields
weighed =
    field "wakePhrases"
      (array (item (object (field "phrase" (text "hey nova") (field "weight" one empty))) nil))
      (field "profileVersion" two empty)

apply_migrations-IsCurrent_example :
    IsCurrent weighed × (apply_migrations weighed ≡ returned weighed)
unfolding apply_migrations migrate_v1_to_v2
apply_migrations-IsCurrent_example = apply_migrations-IsCurrent base weighed refl

disk-files : AreFiles disk join dirname files
disk-files p h = ground (
  arith,
  eq_iff p "child.json",
  eq_iff p "base.json",
  eq_iff "child.json" p,
  eq_iff "base.json" p,
)

load_profile-ends_example : ran_out (load_profile disk join dirname 3 "child.json" true) ≡ false
load_profile-ends_example =
    load_profile_ends disk join dirname files disk-files 3 "child.json" true (omega arith)

disk-dicts : AreDicts disk join dirname
unfolding IsDict get
disk-dicts p =
    if_keeps HoldsDict (str_eq p "child.json") (refl, (refl, (refl, tt)))
      (if_keeps HoldsDict (str_eq p "base.json") (refl, tt) tt)

abbrev loaded : Fields
loaded =
    field "wakePhrases"
      (array (item (object (field "phrase" (text "hey nova") (field "weight" one empty))) nil))
      (field "profileVersion" two (
        field "extends" (text "base.json")
          (field "vad" (object (field "aggressiveness" one empty)) empty)))

load_profile-phrases_example :
    (p : Fields) × (ps : List Fields) × ((read (disk "child.json") >>= apply_migrations)
      ≡ returned p)
    × Ancestors disk join dirname p (dirname "child.json") ps
    × (get "wakePhrases" loaded ≡ nearest_phrases (p ∷ ps))
unfolding load_profile apply_migrations migrate_v1_to_v2 deep_merge
load_profile-phrases_example =
    load_profile-nearest_phrases disk join dirname disk-dicts 3 "child.json" false loaded refl

abbrev accepted : ValidationResult
accepted = record { valid = true; warnings = []; errors = [] }

validate_profile-loads_example :
    (q : Fields) × (load_profile disk join dirname 3 "child.json" false ≡ returned q)
unfolding validate_profile migrate_v1_to_v2
validate_profile-loads_example =
    validate_profile-load_profile disk join dirname 3 "child.json" false accepted refl refl

-- Two messages, and a `json` for them.
abbrev json_texts : Json Bool
json_texts = record {
  inner = λ stop. if stop then codes "\"type\":\"STOP\"" else codes "\"type\":\"START\"";
  loads = λ t.
      if text_eq t (codes "{\"type\":\"STOP\"}")
      then some true
      else if text_eq t (codes "{\"type\":\"START\"}")
      then some false
      else none;
}

texts-loads : (stop : Bool) → json_texts.loads (dumps json_texts stop) ≡ some stop
texts-loads true = refl
texts-loads false = refl

texts-refuses :
    (stop : Bool) (t : Text) → json_texts.loads (dumps json_texts stop ++ 10 ∷ b'{' ∷ t) ≡ none
texts-refuses true t = refl
texts-refuses false t = refl

texts-unbroken : (stop : Bool) → any is_break (json_texts.inner stop) ≡ false
texts-unbroken true = refl
texts-unbroken false = refl

json_texts-IsJson : IsJson json_texts
json_texts-IsJson = record {
  loads-dumps = texts-loads;
  refuses_more = texts-refuses;
  unbroken = texts-unbroken;
}

-- A start and a stop that arrive together, and a stop alone.
recv_loop-batches_example :
    recv_loop json_texts
      (batches json_texts json_texts-IsJson ((false, true ∷ []) ∷ (true, []) ∷ []))
    ≡ false ∷ true ∷ []
recv_loop-batches_example =
    recv_loop-batches json_texts json_texts-IsJson ((false, true ∷ []) ∷ (true, []) ∷ [])
