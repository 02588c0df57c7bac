-- ===== src/Config/Validator/Loads.antt =====
-- A profile that the validator accepts is loaded.
use ava_listener.Base.{
  if◌then◌else◌, ℕ, String, ◌≡◌, refl, ap, Bool, true, false, List, [], ◌∷◌, ◌++◌,
}
use ava_listener.Config.{
  Fields, object, Outcome, returned, raised, unsupported_version, circular, missing_parent,
  unreadable, type_error, out_of_fuel, ◌>>=◌, >>=-returned, returned_injective,
}
use ava_listener.Config.Migrations.{apply_migrations}
use ava_listener.Config.Profiles.{
  File, absent, broken, json, read, resolve_inheritance, load_profile, merge_profiles,
  debug_profile,
}
use ava_listener.Config.Validator.{
  rejected, not_json, failed, Problem, ValidationResult, check_chain, check_migrated, check_file,
  validate_profile,
}

rejected_invalid :
    (p : Problem) (v : ValidationResult) → returned (rejected p) ≡ returned v → v.valid ≡ true → ⊥
rejected_invalid p v h k =
    let e : rejected p ≡ v = returned_injective h in
    let f : false ≡ v.valid = ap (λ r. r.valid) e in cc

abbrev Loads : Outcome Fields → (Fields → Outcome (List Fields)) → Type 0
Loads m chain =
    (root : Fields) × (ps : List Fields) × (m ≡ returned root) × (chain root ≡ returned ps)

check_chain-Loads :
    (root : Fields) (r : Outcome (List Fields)) (v : ValidationResult)
    → check_chain root r ≡ returned v
    → v.valid ≡ true
    → (ps : List Fields) × (r ≡ returned ps)
check_chain-Loads root (returned ps) v h k = (ps, refl)
check_chain-Loads root (raised type_error) v h k =
    elim (rejected_invalid (failed type_error) v h k) [ ]
check_chain-Loads root (raised unsupported_version) v h k =
    elim (rejected_invalid (failed unsupported_version) v h k) [ ]
check_chain-Loads root (raised circular) v h k = elim (rejected_invalid (failed circular) v h k) [ ]
check_chain-Loads root (raised missing_parent) v h k =
    elim (rejected_invalid (failed missing_parent) v h k) [ ]
check_chain-Loads root (raised unreadable) v h k =
    elim (rejected_invalid (failed unreadable) v h k) [ ]
check_chain-Loads root (raised out_of_fuel) v h k = cc

check_migrated-Loads :
    (m : Outcome Fields) (chain : Fields → Outcome (List Fields)) (v : ValidationResult)
    → check_migrated m chain ≡ returned v
    → v.valid ≡ true
    → Loads m chain
check_migrated-Loads (returned root) chain v h k =
    let (ps, e) = check_chain-Loads root (chain root) v h k in (root, ps, refl, e)
check_migrated-Loads (raised unsupported_version) chain v h k =
    elim (rejected_invalid (failed unsupported_version) v h k) [ ]
check_migrated-Loads (raised e) chain v h k = cc

check_file-Loads :
    (f : File) (chain : Fields → Outcome (List Fields)) (v : ValidationResult)
    → check_file f chain ≡ returned v
    → v.valid ≡ true
    → Loads (read f >>= apply_migrations) chain
check_file-Loads absent chain v h k = elim (rejected_invalid not_json v h k) [ ]
check_file-Loads broken chain v h k = elim (rejected_invalid not_json v h k) [ ]
check_file-Loads (json (object d)) chain v h k =
    check_migrated-Loads (apply_migrations d) chain v h k
check_file-Loads (json v') chain v h k = cc

module _ (disk : String → File) (join : String → String → String) (dirname : String → String) where
  -- A profile that the validator calls valid is one that `load_profile` returns.
  pub validate_profile-load_profile :
      (n : ℕ) (path : String) (debug : Bool) (v : ValidationResult)
      → validate_profile disk join dirname n path ≡ returned v
      → v.valid ≡ true
      → (q : Fields) × (load_profile disk join dirname n path debug ≡ returned q)
  unfolding validate_profile load_profile
  validate_profile-load_profile n path debug v h k =
      let (root, ps, m, c) =
        check_file-Loads (disk path)
          (λ r. resolve_inheritance disk join dirname n r (dirname path) (path ∷ [])) v h k in
      let (d, e, f) = >>=-returned (read (disk path)) apply_migrations m in
      (merge_profiles (if debug then ps ++ debug_profile ∷ [] else ps), rw (e, f, c))
