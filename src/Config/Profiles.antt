-- ===== src/Config/Profiles.antt =====
-- runtime/config/profile_loader.py. The file system is a parameter: `disk` is what a path holds,
-- `join` is `os.path.abspath(os.path.join(directory, name))`, and `dirname` is its name's.
pub mod Chain
pub mod Lineage
pub mod Merge
pub mod Phrases
use ava_listener.Base.{
  if◌then◌else◌, ℕ, zero, suc, String, Bool, true, false, ◌||◌, Option, none, some, List, [], ◌∷◌,
  ◌++◌, str_eq,
}
use ava_listener.Config.{
  Value, Items, Fields, null, bool, number, minus, text, array, object, nil, item, empty, field,
  Error, Outcome, returned, raised, circular, missing_parent, unreadable, type_error, out_of_fuel,
  ◌>>=◌, get, put,
}
use ava_listener.Config.Migrations.{apply_migrations}

pub data File : Type 0 where
  absent broken : File
  json : Value → File

abbrev pub exists : File → Bool
exists absent = false
exists _ = true

-- `json.load(open(path))`, whose value is used as a dict.
abbrev pub read : File → Outcome Fields
read absent = raised unreadable
read broken = raised unreadable
read (json (object d)) = returned d
read (json v) = raised type_error

abbrev pub mem_path : String → List String → Bool
mem_path p [] = false
mem_path p (q ∷ qs) = str_eq q p || mem_path p qs

-- The file that `extends` names has to be given as a text.
abbrev pub path_of : Value → Outcome String
path_of (text s) = returned s
path_of v = raised type_error

-- The set of visited paths, with this one.
unfoldable pub detect_cycle : String → List String → Outcome (List String)
detect_cycle p visited = if mem_path p visited then raised circular else returned (p ∷ visited)

unfoldable mutual
  -- A key of the second dict replaces that of the first, but dicts are merged: not the phrases.
  pub deep_merge : Fields → Fields → Fields
  deep_merge d empty = d
  deep_merge d (field k v rest) = deep_merge (put k (merge_value v k (get k d)) d) rest

  pub merge_value : Value → String → Option Value → Value
  merge_value (object fs) k (some (object gs)) =
      let merged = deep_merge gs fs in if str_eq k "wakePhrases" then object fs else object merged
  merge_value v k old = v

unfoldable pub merge_into : Fields → List Fields → Fields
merge_into merged [] = merged
merge_into merged (p ∷ ps) = merge_into (deep_merge merged p) ps

unfoldable pub merge_profiles : List Fields → Fields
unfolding merge_into
merge_profiles [] = empty
merge_profiles (p ∷ ps) = merge_into p ps

-- The file of a parent: `os.path.exists`, then its migrated profile.
abbrev pub parent_of : File → Outcome Fields
parent_of f = if exists f then read f >>= apply_migrations else raised missing_parent

-- What a round of the loop finds: the parent, where it stands, and the visited paths with that one.
pub record Parent : Type 0 where
  pub path : String
  pub seen : List String
  pub profile : Fields

-- `while "extends" in current_profile`: the round, when there is one.
abbrev pub while_extends :
    Option Value → List Fields → (Value → Outcome (List Fields)) → Outcome (List Fields)
while_extends none chain round = returned chain
while_extends (some v) chain round = round v

module _ (disk : String → File) (join : String → String → String) (dirname : String → String) where
  unfoldable pub find_parent : String → List String → Value → Outcome Parent
  unfolding detect_cycle
  find_parent dir visited v = path_of v >>= λ name. detect_cycle (join dir name) visited >>= λ seen.
      parent_of (disk (join dir name)) >>= λ parent.
      returned (record { path = join dir name; seen = seen; profile = parent })

  -- `chain` starts with the current profile.
  unfoldable pub resolve : ℕ → Fields → String → List String → List Fields → Outcome (List Fields)
  unfolding find_parent get
  resolve zero current dir visited chain = raised out_of_fuel
  resolve (suc n) current dir visited chain = while_extends (get "extends" current) chain (λ v.
      find_parent dir visited v >>= λ s.
      resolve n s.profile (dirname s.path) s.seen (s.profile ∷ chain))

  unfoldable pub resolve_inheritance : ℕ → Fields → String → List String → Outcome (List Fields)
  unfolding resolve
  resolve_inheritance n profile dir visited = resolve n profile dir visited (profile ∷ [])

abbrev pub debug_profile : Fields
debug_profile =
    field "transcription" (object (field "enableDebug" (bool true) empty))
      (field "diagnostics" (object (field "enableInternalTrace" (bool true) empty)) empty)

-- `load_profile`, on an absolute path.
module _ (disk : String → File) (join : String → String → String) (dirname : String → String) where
  unfoldable pub load_profile : ℕ → String → Bool → Outcome Fields
  unfolding resolve_inheritance merge_profiles
  load_profile n path debug_overlay = read (disk path) >>= λ root.
      apply_migrations root >>= λ profile.
      resolve_inheritance disk join dirname n profile (dirname path) (path ∷ []) >>= λ chain.
      returned (merge_profiles (if debug_overlay then chain ++ debug_profile ∷ [] else chain))
