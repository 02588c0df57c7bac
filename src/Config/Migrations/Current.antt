-- ===== src/Config/Migrations/Current.antt =====
-- Profiles after `apply_migrations`.
use ava_listener.Base.{
  if◌then◌else◌, ℕ, suc, ◌≡◌, sym, ap, ◌∙◌, ◌⊎◌, inl, inr, Bool, true, false, Option, none, some,
  arith,
}
use ava_listener.Base.Ratio.{percent}
use ava_listener.Config.{
  Value, Fields, null, bool, number, minus, text, array, object, returned, otherwise, get, put,
  lt_value, is_number, >>=-returned, get-put, returned_injective,
}
use ava_listener.Config.Migrations.{
  apply_migrations, stamp, next_round, take_step, check_newer, version_of, migrate_from,
  migrate_v1_to_v2, migration_from, next_version, weigh_phrases, one, two,
}

-- The profile declares version 2.
pub IsCurrent : Fields → Type 0
IsCurrent p = is_number (percent 200) (version_of p) ≡ true

stamped : (p : Fields) → version_of (put "profileVersion" two p) ≡ two
stamped p = ap (otherwise one) (get-put "profileVersion" "profileVersion" two p)

stamp-version_of : (o : Option Value) (p q : Fields) → stamp o p ≡ returned q → version_of q ≡ two
stamp-version_of none p q h = ap version_of (sym (returned_injective h)) ∙ stamped p
stamp-version_of (some v) p q h =
    let (w, _, e) = >>=-returned (weigh_phrases v) _ h in
    ap version_of (sym (returned_injective e)) ∙ stamped (put "wakePhrases" w p)

-- A round of the loop that succeeds ends it, or takes the step.
abbrev Round : ℕ → Value → Fields → Fields → Type 0
Round n v p q =
    ((p ≡ q) × (lt_value v two ≡ returned false))
    ⊎ ((r : Fields) × (migrate_v1_to_v2 p ≡ returned r)
        × (migrate_from n (next_version v) r ≡ returned q))

step-Round :
    (first : Bool) (n : ℕ) (v : Value) (p q : Fields)
    → take_step (if first then some migrate_v1_to_v2 else none) (migrate_from n (next_version v)) p
      ≡ returned q
    → Round n v p q
step-Round true n v p q h = inr (>>=-returned (migrate_v1_to_v2 p) _ h)
step-Round false n v p q h = cc

next_round-Round :
    (older : Bool) (n : ℕ) (v : Value) (p q : Fields)
    → lt_value v two ≡ returned older
    → next_round older v (migrate_from n (next_version v)) p ≡ returned q
    → Round n v p q
unfolding migration_from
next_round-Round false n v p q e h = inl (cc, e)
next_round-Round true n v p q e h = step-Round (is_number (percent 100) v) n v p q h

migrate_from-Round :
    (n : ℕ) (v : Value) (p q : Fields) → migrate_from (suc n) v p ≡ returned q → Round n v p q
unfolding migrate_from
migrate_from-Round n v p q h =
    let (older, e, k) = >>=-returned (lt_value v two) _ h in next_round-Round older n v p q e k

-- A version that is neither above nor below 2.
is_two :
    (v : Value)
    → lt_value two v ≡ returned false
    → lt_value v two ≡ returned false
    → is_number (percent 200) v ≡ true
is_two (number r) h k = ground arith
is_two (minus r) h k = ground arith
is_two (bool true) h k = cc
is_two (bool false) h k = cc
is_two null h k = cc
is_two (text s) h k = cc
is_two (array s) h k = cc
is_two (object s) h k = cc

is_two-between :
    (v : Value)
    → is_number (percent 200) v ≡ true
    → (lt_value two v ≡ returned false) × (lt_value v two ≡ returned false)
is_two-between (number r) h = (ap returned (ground arith), ap returned (ground arith))
is_two-between (minus r) h = ground arith
is_two-between (bool true) h = cc
is_two-between (bool false) h = cc
is_two-between null h = cc
is_two-between (text s) h = cc
is_two-between (array s) h = cc
is_two-between (object s) h = cc

step-IsCurrent :
    (n : ℕ) (v : Value) (p q : Fields) → version_of p ≡ two → Round 0 v p q → IsCurrent q
unfolding IsCurrent migrate_from
step-IsCurrent n v p q e (inl (f, _)) =
    ap (λ r. is_number (percent 200) (version_of r)) (sym f) ∙ ap (is_number (percent 200)) e
step-IsCurrent n v p q e (inr (r, _, f)) = cc

Round-IsCurrent :
    (p q : Fields)
    → lt_value two (version_of p) ≡ returned false
    → Round 1 (version_of p) p q
    → IsCurrent q
unfolding IsCurrent migrate_v1_to_v2
Round-IsCurrent p q e (inl (f, l)) =
    ap (λ r. is_number (percent 200) (version_of r)) (sym f) ∙ is_two (version_of p) e l
Round-IsCurrent p q e (inr (r, f, l)) =
    step-IsCurrent 0 _ r q (stamp-version_of (get "wakePhrases" p) p r f)
      (migrate_from-Round 0 _ r q l)

check_newer-IsCurrent :
    (newer : Bool) (p q : Fields)
    → lt_value two (version_of p) ≡ returned newer
    → check_newer newer (version_of p) p ≡ returned q
    → IsCurrent q
check_newer-IsCurrent true p q e h = cc
check_newer-IsCurrent false p q e h =
    Round-IsCurrent p q e (migrate_from-Round 1 (version_of p) p q h)

IsCurrent-apply_migrations : (q : Fields) → IsCurrent q → apply_migrations q ≡ returned q
unfolding IsCurrent apply_migrations migrate_from
IsCurrent-apply_migrations q h = let (a, b) = is_two-between (version_of q) h in rw (a, b)

-- A profile that `apply_migrations` returns declares version 2, whatever it declared before, and
-- another application returns it unchanged.
pub apply_migrations-IsCurrent :
    (p q : Fields)
    → apply_migrations p ≡ returned q
    → IsCurrent q × (apply_migrations q ≡ returned q)
unfolding apply_migrations
apply_migrations-IsCurrent p q h =
    let (newer, e, k) = >>=-returned (lt_value two (version_of p)) _ h in
    let c : IsCurrent q = check_newer-IsCurrent newer p q e k in (c, IsCurrent-apply_migrations q c)
