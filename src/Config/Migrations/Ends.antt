-- ===== src/Config/Migrations/Ends.antt =====
-- `apply_migrations` ends: two rounds of its loop are enough.
use ava_listener.Base.{
  if◌then◌else◌, is_empty, ◌≡◌, refl, ap, Bool, true, false, Option, none, some, arith,
}
use ava_listener.Base.Ratio.{percent}
use ava_listener.Base.Text.{codes, contains}
use ava_listener.Config.{
  Value, Items, Fields, null, bool, number, minus, text, array, object, nil, item, type_error,
  returned, raised, ran_out, ran_out->>=, get, lt_value, lt_number, as_number, is_number,
}
use ava_listener.Config.Migrations.{
  apply_migrations, stamp, next_round, take_step, check_newer, version_of, migrate_from,
  migrate_v1_to_v2, migration_from, next_version, weigh_phrases, with_weights, with_weight,
  weigh_object, holds_weight, keys_hold_weight, two,
}

if_ends :
    {A : Type 0} (b : Bool) (a : A) → ran_out (if b then returned a else raised type_error) ≡ false
if_ends true a = refl
if_ends false a = refl

lt_number_ends : (v w : Value) → ran_out (lt_number v w) ≡ false
lt_number_ends (number x) (number y) = refl
lt_number_ends (number x) (minus y) = refl
lt_number_ends (number x) (bool b) = refl
lt_number_ends (number x) null = refl
lt_number_ends (number x) (text s) = refl
lt_number_ends (number x) (array s) = refl
lt_number_ends (number x) (object s) = refl
lt_number_ends (minus x) (number y) = refl
lt_number_ends (minus x) (minus y) = refl
lt_number_ends (minus x) (bool b) = refl
lt_number_ends (minus x) null = refl
lt_number_ends (minus x) (text s) = refl
lt_number_ends (minus x) (array s) = refl
lt_number_ends (minus x) (object s) = refl
lt_number_ends (bool b) w = refl
lt_number_ends null w = refl
lt_number_ends (text s) w = refl
lt_number_ends (array s) w = refl
lt_number_ends (object s) w = refl

weigh_object_ends : (o : Option Value) (d : Fields) → ran_out (weigh_object o d) ≡ false
weigh_object_ends none d = refl
weigh_object_ends (some w) d = refl

with_weight_ends : (v : Value) → ran_out (with_weight v) ≡ false
unfolding with_weight
with_weight_ends (object d) = weigh_object_ends (get "weight" d) d
with_weight_ends (array vs) = if_ends (holds_weight vs) (array vs)
with_weight_ends (text s) = if_ends (contains (codes "weight") (codes s)) (text s)
with_weight_ends null = refl
with_weight_ends (bool b) = refl
with_weight_ends (number r) = refl
with_weight_ends (minus r) = refl

with_weights_ends : (vs : Items) → ran_out (with_weights vs) ≡ false
unfolding with_weights
with_weights_ends nil = refl
with_weights_ends (item v vs) =
    ran_out->>= (with_weight v) _ (with_weight_ends v)
      (λ w e. ran_out->>= (with_weights vs) _ (with_weights_ends vs) (λ ws f. refl))

weigh_phrases_ends : (v : Value) → ran_out (weigh_phrases v) ≡ false
unfolding weigh_phrases
weigh_phrases_ends (array vs) =
    ran_out->>= (with_weights vs) _ (with_weights_ends vs) (λ ws e. refl)
weigh_phrases_ends (object d) = if_ends (keys_hold_weight d) (object d)
weigh_phrases_ends (text s) = if_ends (is_empty (codes s)) (text s)
weigh_phrases_ends null = refl
weigh_phrases_ends (bool b) = refl
weigh_phrases_ends (number r) = refl
weigh_phrases_ends (minus r) = refl

-- The step leaves a version that is not below 2.
next_version-two :
    (v : Value) → is_number (percent 100) v ≡ true → lt_value (next_version v) two ≡ returned false
next_version-two (number r) h = ap returned (ground arith)
next_version-two (minus r) h = ground arith
next_version-two (bool true) h = refl
next_version-two (bool false) h = ground arith
next_version-two null h = cc
next_version-two (text s) h = cc
next_version-two (array s) h = cc
next_version-two (object s) h = cc

stamp_ends : (o : Option Value) (p : Fields) → ran_out (stamp o p) ≡ false
stamp_ends none p = refl
stamp_ends (some v) p = ran_out->>= (weigh_phrases v) _ (weigh_phrases_ends v) (λ w e. refl)

take_step_ends :
    (first : Bool) (v : Value) (p : Fields)
    → is_number (percent 100) v ≡ first
    → ran_out (
        take_step
          (if first then some migrate_v1_to_v2 else none)
          (migrate_from 1 (next_version v))
          p)
      ≡ false
unfolding migrate_v1_to_v2 migrate_from
take_step_ends false v p e = refl
take_step_ends true v p e =
    ran_out->>= (migrate_v1_to_v2 p) _ (stamp_ends (get "wakePhrases" p) p)
      (λ q f. rw (next_version-two v e))

next_round_ends :
    (older : Bool) (v : Value) (p : Fields)
    → ran_out (next_round older v (migrate_from 1 (next_version v)) p) ≡ false
unfolding migration_from
next_round_ends false v p = refl
next_round_ends true v p = take_step_ends (is_number (percent 100) v) v p refl

check_newer_ends :
    (newer : Bool) (p : Fields) → ran_out (check_newer newer (version_of p) p) ≡ false
unfolding migrate_from
check_newer_ends true p = refl
check_newer_ends false p =
    ran_out->>= (lt_value (version_of p) two) _ (lt_number_ends (as_number (version_of p)) two)
      (λ older e. next_round_ends older (version_of p) p)

pub apply_migrations_ends : (p : Fields) → ran_out (apply_migrations p) ≡ false
unfolding apply_migrations
apply_migrations_ends p =
    ran_out->>= (lt_value two (version_of p)) _ (lt_number_ends two (as_number (version_of p)))
      (λ newer e. check_newer_ends newer p)
