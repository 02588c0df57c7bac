-- ===== src/Config/Profiles/Phrases.antt =====
-- The wake phrases of a loaded profile, through migration, inheritance and merging.
use ava_listener.Base.{
  if◌then◌else◌, All, All-append, ℕ, zero, suc, String, ◌≡◌, refl, sym, ap, ◌∙◌, Bool, true, false,
  Option, none, some, List, [], ◌∷◌, ◌++◌,
}
use ava_listener.Base.Ratio.{percent}
use mathlib.Core.Path.{subst}
use ava_listener.Config.{
  Value, Fields, object, get, put, Outcome, returned, ◌>>=◌, >>=-returned, returned_injective,
  Gives, Gives-returned, Gives->>=, lt_value, is_number,
}
use ava_listener.Config.Migrations.{
  apply_migrations, stamp, next_round, take_step, check_newer, version_of, migrate_from,
  migrate_v1_to_v2, migration_from, next_version, weigh_phrases, two,
}
use ava_listener.Config.Profiles.{
  File, absent, broken, json, read, parent_of, resolve, resolve_inheritance, load_profile,
  debug_profile,
}
use ava_listener.Config.Profiles.Merge.{
  IsDict, put-IsDict, last_phrases, or_else, or_else-none, or_else_assoc, merge_profiles-phrases,
}
use ava_listener.Config.Profiles.Lineage.{Ancestors, above, resolve-Lineage}

stamp-IsDict : (o : Option Value) (p : Fields) → IsDict p → Gives IsDict (stamp o p)
stamp-IsDict none p h = put-IsDict "profileVersion" two p h
stamp-IsDict (some v) p h = Gives->>= IsDict (weigh_phrases v) _ (λ w e.
    put-IsDict "profileVersion" two (put "wakePhrases" w p) (put-IsDict "wakePhrases" w p h))

take_step-IsDict :
    (first : Bool) (again : Fields → Outcome Fields) (p : Fields)
    → ((q : Fields) → IsDict q → Gives IsDict (again q))
    → IsDict p
    → Gives IsDict (take_step (if first then some migrate_v1_to_v2 else none) again p)
unfolding migrate_v1_to_v2
take_step-IsDict false again p k h = tt
take_step-IsDict true again p k h = Gives->>= IsDict (migrate_v1_to_v2 p) again (λ q e.
    k q (Gives-returned IsDict (migrate_v1_to_v2 p) (stamp-IsDict (get "wakePhrases" p) p h) e))

next_round-IsDict :
    (older : Bool) (v : Value) (again : Fields → Outcome Fields) (p : Fields)
    → ((q : Fields) → IsDict q → Gives IsDict (again q))
    → IsDict p
    → Gives IsDict (next_round older v again p)
unfolding migration_from
next_round-IsDict false v again p k h = h
next_round-IsDict true v again p k h = take_step-IsDict (is_number (percent 100) v) again p k h

migrate_from-IsDict :
    (n : ℕ) (v : Value) (p : Fields) → IsDict p → Gives IsDict (migrate_from n v p)
unfolding migrate_from
migrate_from-IsDict zero v p h = tt
migrate_from-IsDict (suc n) v p h = Gives->>= IsDict (lt_value v two) _ (λ older e.
    next_round-IsDict older v (migrate_from n (next_version v)) p
      (migrate_from-IsDict n (next_version v)) h)

check_newer-IsDict :
    (newer : Bool) (p : Fields) → IsDict p → Gives IsDict (check_newer newer (version_of p) p)
check_newer-IsDict true p h = tt
check_newer-IsDict false p h = migrate_from-IsDict 2 (version_of p) p h

apply_migrations-IsDict : (p q : Fields) → IsDict p → apply_migrations p ≡ returned q → IsDict q
unfolding apply_migrations
apply_migrations-IsDict p q h e =
    Gives-returned IsDict (apply_migrations p)
      (Gives->>= IsDict (lt_value two (version_of p)) _ (λ newer f. check_newer-IsDict newer p h)) e

-- The dicts of a file are dicts.
abbrev pub HoldsDict : File → Type 0
HoldsDict (json (object d)) = IsDict d
HoldsDict _ = Unit

read-IsDict : (f : File) (d : Fields) → HoldsDict f → read f ≡ returned d → IsDict d
read-IsDict absent d h e = cc
read-IsDict broken d h e = cc
read-IsDict (json (object b)) d h e = subst IsDict (returned_injective e) h
read-IsDict (json v) d h e = cc

load-IsDict :
    (f : File) (q : Fields) → HoldsDict f → (read f >>= apply_migrations) ≡ returned q → IsDict q
load-IsDict f q h e =
    let (d, r, m) = >>=-returned (read f) apply_migrations e in
    apply_migrations-IsDict d q (read-IsDict f d h r) m

parent_of-IsDict : (f : File) (q : Fields) → HoldsDict f → parent_of f ≡ returned q → IsDict q
parent_of-IsDict absent q h e = cc
parent_of-IsDict broken q h e = cc
parent_of-IsDict (json v) q h e = load-IsDict (json v) q h e

-- The phrases of the first profile that has any.
abbrev pub nearest_phrases : List Fields → Option Value
nearest_phrases [] = none
nearest_phrases (p ∷ ps) = or_else (get "wakePhrases" p) (nearest_phrases ps)

-- A profile in front of its ancestors: the order of the chain.
last_phrases-above :
    (disk : String → File) (join : String → String → String) (dirname : String → String)
    (qs chain : List Fields)
    → last_phrases (above disk join dirname qs chain)
      ≡ or_else (last_phrases chain) (nearest_phrases qs)
last_phrases-above disk join dirname [] chain = or_else-none (last_phrases chain)
last_phrases-above disk join dirname (q ∷ qs) chain =
    last_phrases-above disk join dirname qs (q ∷ chain)
    ∙ sym (or_else_assoc (last_phrases chain) (get "wakePhrases" q) (nearest_phrases qs))

above-IsDict :
    (disk : String → File) (join : String → String → String) (dirname : String → String)
    (qs chain : List Fields)
    → All IsDict qs
    → All IsDict chain
    → All IsDict (above disk join dirname qs chain)
above-IsDict disk join dirname [] chain h k = k
above-IsDict disk join dirname (q ∷ qs) chain h k =
    above-IsDict disk join dirname qs (q ∷ chain) h.1 (h.0, k)

last-debug :
    (debug : Bool) (chain : List Fields)
    → last_phrases (if debug then chain ++ debug_profile ∷ [] else chain) ≡ last_phrases chain
unfolding get
last-debug false chain = refl
last-debug true [] = refl
last-debug true (p ∷ ps) = ap (λ o. or_else o (get "wakePhrases" p)) (last-debug true ps)

debug-IsDict :
    (debug : Bool) (chain : List Fields)
    → All IsDict chain
    → All IsDict (if debug then chain ++ debug_profile ∷ [] else chain)
unfolding IsDict get
debug-IsDict false chain h = h
debug-IsDict true chain h = All-append IsDict chain (debug_profile ∷ []) h ((refl, (refl, tt)), tt)

module _ (disk : String → File) (join : String → String → String) (dirname : String → String) where
  abbrev pub AreDicts : Type 0
  AreDicts = (p : String) → HoldsDict (disk p)

  Ancestors-IsDict :
      AreDicts
      → (current : Fields) (dir : String) (qs : List Fields)
      → Ancestors disk join dirname current dir qs
      → All IsDict qs
  unfolding Ancestors
  Ancestors-IsDict h current dir [] a = tt
  Ancestors-IsDict h current dir (q ∷ qs) (name, e, l, a) = (
    parent_of-IsDict (disk (join dir name)) q (h (join dir name)) l,
    Ancestors-IsDict h q (dirname (join dir name)) qs a,
  )

  -- The profile that is loaded has the wake phrases of the nearest profile that has any, from the
  -- migrated profile at the path up through those that it extends; the debug overlay has none.
  pub load_profile-nearest_phrases :
      AreDicts
      → (n : ℕ) (path : String) (debug : Bool) (q : Fields)
      → load_profile disk join dirname n path debug ≡ returned q
      → (p : Fields) × (ps : List Fields) × ((read (disk path) >>= apply_migrations) ≡ returned p)
        × Ancestors disk join dirname p (dirname path) ps
        × (get "wakePhrases" q ≡ nearest_phrases (p ∷ ps))
  unfolding load_profile resolve_inheritance
  load_profile-nearest_phrases h n path debug q e =
      let (root, e1, k1) = >>=-returned (read (disk path)) _ e in
      let (p, e2, k2) = >>=-returned (apply_migrations root) _ k1 in
      let (chain, e3, k3) =
        >>=-returned (resolve disk join dirname n p (dirname path) (path ∷ []) (p ∷ [])) _ k2 in
      let (qs, a, r) =
        resolve-Lineage disk join dirname n p (dirname path) (path ∷ []) (p ∷ []) chain e3 in
      let known : (read (disk path) >>= apply_migrations) ≡ returned p =
        ap (λ r. r >>= apply_migrations) e1 ∙ e2 in
      let dicts : All IsDict (above disk join dirname qs (p ∷ [])) =
        above-IsDict disk join dirname qs (p ∷ []) (Ancestors-IsDict h p (dirname path) qs a)
          (load-IsDict (disk path) p (h path) known, tt) in
      (
        p,
        qs,
        known,
        a,
        ap (get "wakePhrases") (sym (returned_injective k3))
            ∙ merge_profiles-phrases (if debug then chain ++ debug_profile ∷ [] else chain)
                (debug-IsDict debug chain (subst (All IsDict) (sym r) dicts))
            ∙ last-debug debug chain
            ∙ ap last_phrases r
            ∙ last_phrases-above disk join dirname qs (p ∷ []),
      )
