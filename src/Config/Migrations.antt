-- ===== src/Config/Migrations.antt =====
-- runtime/config/profile_migrations.py. The log lines are left out.
pub mod Current
pub mod Weights
pub mod Ends
use ava_listener.Base.{
  if◌then◌else◌, is_empty, ℕ, zero, suc, ◌-◌, Bool, true, false, ◌&&◌, ◌||◌, Option, none, some,
  str_eq,
}
use ava_listener.Base.Ratio.{percent, add, le_ratio}
use ava_listener.Base.Text.{codes, contains}
use ava_listener.Config.{
  Value, Items, Fields, null, bool, number, minus, text, array, object, nil, item, empty, field,
  Error, Outcome, returned, raised, type_error, unsupported_version, out_of_fuel, ◌>>=◌, get, put,
  get_or, as_number, lt_value, is_number,
}

abbrev pub one : Value
one = number (percent 100)

abbrev pub two : Value
two = number (percent 200)

abbrev pub holds_weight : Items → Bool
holds_weight nil = false
holds_weight (item (text s) vs) = str_eq s "weight" || holds_weight vs
holds_weight (item v vs) = holds_weight vs

abbrev pub weigh_object : Option Value → Fields → Outcome Value
weigh_object none d = returned (object (put "weight" one d))
weigh_object (some w) d = returned (object d)

-- `phrase["weight"] = 1.0` when "weight" is not in the phrase: in a text, `in` looks for a part.
unfoldable pub with_weight : Value → Outcome Value
unfolding get put
with_weight (object d) = weigh_object (get "weight" d) d
with_weight (array vs) = if holds_weight vs then returned (array vs) else raised type_error
with_weight (text s) =
    if contains (codes "weight") (codes s) then returned (text s) else raised type_error
with_weight v = raised type_error

unfoldable pub with_weights : Items → Outcome Items
unfolding with_weight
with_weights nil = returned nil
with_weights (item v vs) = with_weight v >>= λ w. with_weights vs >>= λ ws. returned (item w ws)

abbrev pub keys_hold_weight : Fields → Bool
keys_hold_weight empty = true
keys_hold_weight (field k v d) = contains (codes "weight") (codes k) && keys_hold_weight d

-- The loop over the phrases. A dict gives its keys, a text its characters, none of which holds
-- "weight".
unfoldable pub weigh_phrases : Value → Outcome Value
unfolding with_weights
weigh_phrases (array vs) = with_weights vs >>= λ ws. returned (array ws)
weigh_phrases (object d) = if keys_hold_weight d then returned (object d) else raised type_error
weigh_phrases (text s) = if is_empty (codes s) then returned (text s) else raised type_error
weigh_phrases v = raised type_error

-- The phrases change in place; without the key, the loop runs over a new empty list.
abbrev pub stamp : Option Value → Fields → Outcome Fields
stamp none p = returned (put "profileVersion" two p)
stamp (some v) p =
    weigh_phrases v >>= λ w. returned (put "profileVersion" two (put "wakePhrases" w p))

unfoldable pub migrate_v1_to_v2 : Fields → Outcome Fields
unfolding get put weigh_phrases
migrate_v1_to_v2 p = stamp (get "wakePhrases" p) p

-- `PROFILE_MIGRATIONS.get((version, version + 1))`.
unfoldable pub migration_from : Value → Option (Fields → Outcome Fields)
migration_from v = if is_number (percent 100) v then some migrate_v1_to_v2 else none

-- The only step leads to version 2.
abbrev pub next_version : Value → Value
next_version v = elim (as_number v) [
  | number r ↦ number (add r (percent 100))
  | minus r ↦
      if le_ratio r (percent 100)
      then number (record { num = r.den - r.num; den = r.den })
      else minus (record { num = r.num - r.den; den = r.den })
  | w ↦ w
]

abbrev pub take_step :
    Option (Fields → Outcome Fields) → (Fields → Outcome Fields) → Fields → Outcome Fields
take_step none again p = raised unsupported_version
take_step (some migrate) again p = migrate p >>= again

abbrev pub next_round : Bool → Value → (Fields → Outcome Fields) → Fields → Outcome Fields
next_round false version again p = returned p
next_round true version again p = take_step (migration_from version) again p

-- `while version < CURRENT_PROFILE_VERSION`.
unfoldable pub migrate_from : ℕ → Value → Fields → Outcome Fields
unfolding migration_from
migrate_from zero version p = raised out_of_fuel
migrate_from (suc n) version p = lt_value version two >>= λ older.
    next_round older version (migrate_from n (next_version version)) p

-- Two rounds: a step, and the test that ends the loop.
abbrev pub check_newer : Bool → Value → Fields → Outcome Fields
check_newer true version p = raised unsupported_version
check_newer false version p = migrate_from 2 version p

abbrev pub version_of : Fields → Value
version_of p = get_or "profileVersion" one p

unfoldable pub apply_migrations : Fields → Outcome Fields
unfolding get migrate_from
apply_migrations p = lt_value two (version_of p) >>= λ newer. check_newer newer (version_of p) p
