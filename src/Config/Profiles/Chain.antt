-- ===== src/Config/Profiles/Chain.antt =====
-- The loop of `resolve_inheritance` ends: each round visits another file.
use ava_listener.Base.{
  if◌then◌else◌, length, ℕ, zero, suc, ◌≤◌, ◌<◌, String, ◌≡◌, refl, Bool, true, false, Option, none,
  some, List, [], ◌∷◌, arith, eq_iff, if_keeps,
}
use mathlib.Core.Path.{subst}
use ava_listener.Config.{
  Value, Fields, null, bool, number, minus, array, object, text, Outcome, returned, ran_out,
  ran_out->>=, ◌>>=◌, get, returned_injective, >>=-returned,
}
use ava_listener.Config.Migrations.{apply_migrations}
use ava_listener.Config.Migrations.Ends.{apply_migrations_ends}
use ava_listener.Config.Profiles.{
  load_profile, resolve_inheritance, File, absent, broken, json, exists, read, mem_path, path_of,
  detect_cycle, Parent, find_parent, parent_of, while_extends, resolve,
}

-- The files that are not visited yet.
abbrev unvisited : List String → List String → ℕ
unvisited visited [] = 0
unvisited visited (f ∷ fs) =
    let rest = unvisited visited fs in if mem_path f visited then rest else suc rest

unvisited-length : (visited fs : List String) → unvisited visited fs ≤ length fs
unvisited-length visited [] = omega arith
unvisited-length visited (f ∷ fs) = ground (arith, unvisited-length visited fs)

unvisited-visit :
    (p : String) (visited fs : List String) → unvisited (p ∷ visited) fs ≤ unvisited visited fs
unvisited-visit p visited [] = omega arith
unvisited-visit p visited (f ∷ fs) = ground (arith, unvisited-visit p visited fs)

unvisited-new :
    (p : String) (visited fs : List String)
    → mem_path p visited ≡ false
    → mem_path p fs ≡ true
    → unvisited (p ∷ visited) fs < unvisited visited fs
unvisited-new p visited [] h k = cc
unvisited-new p visited (f ∷ fs) h k =
    ground
      (arith, eq_iff f p, eq_iff p f, unvisited-visit p visited fs, unvisited-new p visited fs h)

read_ends : (f : File) → ran_out (read f) ≡ false
read_ends absent = refl
read_ends broken = refl
read_ends (json (object d)) = refl
read_ends (json null) = refl
read_ends (json (bool b)) = refl
read_ends (json (number r)) = refl
read_ends (json (minus r)) = refl
read_ends (json (text s)) = refl
read_ends (json (array vs)) = refl

load_ends : (f : File) → ran_out (read f >>= apply_migrations) ≡ false
load_ends f = ran_out->>= (read f) apply_migrations (read_ends f) (λ d e. apply_migrations_ends d)

parent_of_ends : (f : File) → ran_out (parent_of f) ≡ false
parent_of_ends absent = refl
parent_of_ends broken = refl
parent_of_ends (json v) = load_ends (json v)

path_of_ends : (v : Value) → ran_out (path_of v) ≡ false
path_of_ends (text s) = refl
path_of_ends null = refl
path_of_ends (bool b) = refl
path_of_ends (number r) = refl
path_of_ends (minus r) = refl
path_of_ends (array vs) = refl
path_of_ends (object d) = refl

while_extends_ends :
    (o : Option Value) (chain : List Fields) (round : Value → Outcome (List Fields))
    → ((v : Value) → ran_out (round v) ≡ false)
    → ran_out (while_extends o chain round) ≡ false
while_extends_ends none chain round h = refl
while_extends_ends (some v) chain round h = h v

detect_cycle-new :
    (p : String) (visited seen : List String)
    → detect_cycle p visited ≡ returned seen
    → (mem_path p visited ≡ false) × (p ∷ visited ≡ seen)
unfolding detect_cycle
detect_cycle-new p visited seen h = ground arith

detect_cycle_ends : (p : String) (visited : List String) → ran_out (detect_cycle p visited) ≡ false
unfolding detect_cycle
detect_cycle_ends p visited =
    if_keeps (λ (r : Outcome (List String)). ran_out r ≡ false) (mem_path p visited) refl refl

parent_of-exists : (f : File) (q : Fields) → parent_of f ≡ returned q → exists f ≡ true
parent_of-exists absent q h = cc
parent_of-exists broken q h = refl
parent_of-exists (json v) q h = refl

module _ (disk : String → File) (join : String → String → String) (dirname : String → String) where
  abbrev pub AreFiles : List String → Type 0
  AreFiles files = (p : String) → exists (disk p) ≡ true → mem_path p files ≡ true

  find_parent_ends :
      (dir : String) (visited : List String) (v : Value)
      → ran_out (find_parent disk join dirname dir visited v) ≡ false
  unfolding find_parent
  find_parent_ends dir visited v = ran_out->>= (path_of v) _ (path_of_ends v) (λ name e.
      ran_out->>= (detect_cycle (join dir name) visited) _
        (detect_cycle_ends (join dir name) visited)
        (λ seen f.
          ran_out->>= (parent_of (disk (join dir name))) _ (parent_of_ends (disk (join dir name)))
            (λ parent g. refl)))

  -- What a successful round has found.
  pub record IsFound (dir : String) (visited : List String) (v : Value) (s : Parent) : Type 0 where
    pub name : String
    pub named : v ≡ text name
    pub at : s.path ≡ join dir name
    pub is_new : mem_path s.path visited ≡ false
    pub seen : s.path ∷ visited ≡ s.seen
    pub loaded : parent_of (disk s.path) ≡ returned s.profile

  path_of-text : (v : Value) (name : String) → path_of v ≡ returned name → v ≡ text name
  path_of-text (text s) name h = cc
  path_of-text null name h = cc
  path_of-text (bool b) name h = cc
  path_of-text (number r) name h = cc
  path_of-text (minus r) name h = cc
  path_of-text (array vs) name h = cc
  path_of-text (object d) name h = cc

  pub find_parent-IsFound :
      (dir : String) (visited : List String) (v : Value) (s : Parent)
      → find_parent disk join dirname dir visited v ≡ returned s
      → IsFound dir visited v s
  unfolding find_parent
  find_parent-IsFound dir visited v s h =
      let (name, e, h1) = >>=-returned (path_of v) _ h in
      let (seen, f, h2) = >>=-returned (detect_cycle (join dir name) visited) _ h1 in
      let (parent, g, h3) = >>=-returned (parent_of (disk (join dir name))) _ h2 in
      let (new, added) = detect_cycle-new (join dir name) visited seen f in
      subst (IsFound dir visited v) (returned_injective h3) (record {
        name = name;
        named = path_of-text v name e;
        at = refl;
        is_new = new;
        seen = added;
        loaded = g;
      })

  -- Enough fuel: more than the files that are left.
  resolve_ends :
      (files : List String)
      → AreFiles files
      → (n : ℕ) (current : Fields) (dir : String) (visited : List String) (chain : List Fields)
      → unvisited visited files < n
      → ran_out (resolve disk join dirname n current dir visited chain) ≡ false
  unfolding resolve
  resolve_ends files h zero current dir visited chain l = ground arith
  resolve_ends files h (suc n) current dir visited chain l =
      while_extends_ends (get "extends" current) chain _ (λ v.
        ran_out->>= (find_parent disk join dirname dir visited v) _ (find_parent_ends dir visited v)
          (λ s e.
            let c : IsFound dir visited v s = find_parent-IsFound dir visited v s e in
            let known : mem_path s.path files ≡ true =
              h s.path (parent_of-exists (disk s.path) s.profile c.loaded) in
            let less : unvisited (s.path ∷ visited) files < unvisited visited files =
              unvisited-new s.path visited files c.is_new known in
            resolve_ends files h n s.profile (dirname s.path) s.seen (s.profile ∷ chain)
              (subst (λ q. unvisited q files < n) c.seen (omega (arith, less, l)))))

  -- Loading ends, whatever the profiles extend: with more fuel than there are files, it gives a
  -- profile or an exception of the program. A cycle is such an exception.
  pub load_profile_ends :
      (files : List String)
      → AreFiles files
      → (n : ℕ) (path : String) (debug : Bool) → length files < n
      → ran_out (load_profile disk join dirname n path debug) ≡ false
  unfolding load_profile resolve_inheritance
  load_profile_ends files h n path debug l =
      ran_out->>= (read (disk path)) _ (read_ends (disk path)) (λ root e.
        ran_out->>= (apply_migrations root) _ (apply_migrations_ends root) (λ profile f.
          ran_out->>=
            (resolve disk join dirname n profile (dirname path) (path ∷ []) (profile ∷ [])) _
            (resolve_ends files h n profile (dirname path) (path ∷ []) (profile ∷ [])
              (omega (arith, unvisited-length (path ∷ []) files, l)))
            (λ chain g. refl)))
