-- ===== src/Config/Migrations/Weights.antt =====
-- The phrases of a profile of version 1 after `apply_migrations`.
use ava_listener.Base.{is_empty, ◌≡◌, refl, sym, ◌∙◌, ◌≢◌, Option, none, some, if_keeps}
use ava_listener.Base.Text.{codes, contains}
use ava_listener.Config.{
  Value, Items, Fields, null, bool, number, minus, text, array, object, nil, item, returned, ◌>>=◌,
  get, put, lt_value, >>=-returned, get-put, returned_injective, Gives, Gives-returned, Gives->>=,
}
use ava_listener.Config.Migrations.{
  apply_migrations, stamp, weigh_object, keys_hold_weight, holds_weight, check_newer, version_of,
  migrate_from, migrate_v1_to_v2, migration_from, next_version, weigh_phrases, with_weights,
  with_weight, one, two,
}
use mathlib.Core.Path.{subst}

-- A phrase that is an object has the key "weight".
abbrev IsWeighed : Value → Type 0
IsWeighed (object d) = get "weight" d ≢ none
IsWeighed _ = Unit

abbrev pub AllWeighed : Items → Type 0
AllWeighed nil = Unit
AllWeighed (item v vs) = IsWeighed v × AllWeighed vs

-- The phrases of a list.
abbrev pub ArePhrasesWeighed : Option Value → Type 0
ArePhrasesWeighed (some (array vs)) = AllWeighed vs
ArePhrasesWeighed _ = Unit

weigh_object-IsWeighed :
    (o : Option Value) (d : Fields) → get "weight" d ≡ o → Gives IsWeighed (weigh_object o d)
weigh_object-IsWeighed none d e = λ f.
    let g : get "weight" (put "weight" one d) ≡ some one = get-put "weight" "weight" one d in cc
weigh_object-IsWeighed (some u) d e = λ f. cc

with_weight-IsWeighed : (v : Value) → Gives IsWeighed (with_weight v)
unfolding with_weight
with_weight-IsWeighed (object d) = weigh_object-IsWeighed (get "weight" d) d refl
with_weight-IsWeighed (array vs) = if_keeps (Gives IsWeighed) (holds_weight vs) tt tt
with_weight-IsWeighed (text s) =
    if_keeps (Gives IsWeighed) (contains (codes "weight") (codes s)) tt tt
with_weight-IsWeighed null = tt
with_weight-IsWeighed (bool b) = tt
with_weight-IsWeighed (number r) = tt
with_weight-IsWeighed (minus r) = tt

with_weights-AllWeighed : (vs : Items) → Gives AllWeighed (with_weights vs)
unfolding with_weights
with_weights-AllWeighed nil = tt
with_weights-AllWeighed (item v vs) = Gives->>= AllWeighed (with_weight v) _ (λ w e.
    Gives->>= AllWeighed (with_weights vs) _ (λ ws f. (
      Gives-returned IsWeighed (with_weight v) (with_weight-IsWeighed v) e,
      Gives-returned AllWeighed (with_weights vs) (with_weights-AllWeighed vs) f,
    )))

abbrev ArePhrases : Value → Type 0
ArePhrases v = ArePhrasesWeighed (some v)

weigh_phrases-ArePhrases : (v : Value) → Gives ArePhrases (weigh_phrases v)
unfolding weigh_phrases
weigh_phrases-ArePhrases (array vs) =
    Gives->>= ArePhrases (with_weights vs) _
      (λ ws e. Gives-returned AllWeighed (with_weights vs) (with_weights-AllWeighed vs) e)
weigh_phrases-ArePhrases (object d) = if_keeps (Gives ArePhrases) (keys_hold_weight d) tt tt
weigh_phrases-ArePhrases (text s) = if_keeps (Gives ArePhrases) (is_empty (codes s)) tt tt
weigh_phrases-ArePhrases null = tt
weigh_phrases-ArePhrases (bool b) = tt
weigh_phrases-ArePhrases (number r) = tt
weigh_phrases-ArePhrases (minus r) = tt

abbrev Weighed : Fields → Type 0
Weighed p = ArePhrasesWeighed (get "wakePhrases" p)

stamp-Weighed :
    (o : Option Value) (p : Fields) → get "wakePhrases" p ≡ o → Gives Weighed (stamp o p)
stamp-Weighed none p e =
    subst ArePhrasesWeighed (sym (get-put "wakePhrases" "profileVersion" two p ∙ e)) tt
stamp-Weighed (some v) p e = Gives->>= Weighed (weigh_phrases v) _ (λ w f.
    subst ArePhrasesWeighed
      (sym (
        get-put "wakePhrases" "profileVersion" two (put "wakePhrases" w p)
        ∙ get-put "wakePhrases" "wakePhrases" w p))
      (Gives-returned ArePhrases (weigh_phrases v) (weigh_phrases-ArePhrases v) f))

migrate_v1_to_v2-Weighed : (p : Fields) → Gives Weighed (migrate_v1_to_v2 p)
unfolding migrate_v1_to_v2
migrate_v1_to_v2-Weighed p = stamp-Weighed (get "wakePhrases" p) p refl

-- A profile whose version is 1, or missing, has a weight on each phrase of its list after
-- `apply_migrations`.
pub apply_migrations_weighed :
    (p q : Fields)
    → version_of p ≡ one
    → apply_migrations p ≡ returned q
    → ArePhrasesWeighed (get "wakePhrases" q)
unfolding apply_migrations migrate_from migration_from
apply_migrations_weighed p q e h =
    let (r, f, k) =
      >>=-returned (migrate_v1_to_v2 p) (migrate_from 1 (next_version one))
        (subst (λ v. (lt_value two v >>= λ newer. check_newer newer v p) ≡ returned q) e h) in
    subst Weighed (returned_injective k)
      (Gives-returned Weighed (migrate_v1_to_v2 p) (migrate_v1_to_v2-Weighed p) f)
