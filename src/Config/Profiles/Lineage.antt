-- ===== src/Config/Profiles/Lineage.antt =====
-- What the loop of `resolve_inheritance` collects: the ancestors of the profile.
use ava_listener.Base.{ℕ, zero, suc, String, ◌≡◌, refl, ap, ◌∙◌, Option, none, some, List, [], ◌∷◌}
use mathlib.Core.Path.{subst}
use ava_listener.Config.{Value, Fields, text, Outcome, returned, ◌>>=◌, get, >>=-returned}
use ava_listener.Config.Profiles.Chain.{IsFound, find_parent-IsFound}
use ava_listener.Config.Profiles.{File, Parent, find_parent, parent_of, while_extends, resolve}

module _ (disk : String → File) (join : String → String → String) (dirname : String → String) where
  -- `parents` are the ancestors of a profile in `dir`, the nearest first: each is the migrated
  -- profile of the file that the one before names.
  unfoldable pub Ancestors : Fields → String → List Fields → Type 0
  Ancestors current dir [] = get "extends" current ≡ none
  Ancestors current dir (q ∷ qs) =
      (name : String) × (get "extends" current ≡ some (text name))
      × (parent_of (disk (join dir name)) ≡ returned q)
      × Ancestors q (dirname (join dir name)) qs

  -- The ancestors, put in front of the chain.
  abbrev pub above : List Fields → List Fields → List Fields
  above [] chain = chain
  above (q ∷ qs) chain = above qs (q ∷ chain)

  abbrev pub Lineage : Fields → String → List Fields → List Fields → Type 0
  Lineage current dir chain result =
      (qs : List Fields) × Ancestors current dir qs × (result ≡ above qs chain)

  while_extends-Lineage :
      (o : Option Value) (current : Fields) (dir : String) (chain result : List Fields)
      (round : Value → Outcome (List Fields))
      → get "extends" current ≡ o
      → ((v : Value)
          → get "extends" current ≡ some v
          → round v ≡ returned result
          → Lineage current dir chain result)
      → while_extends o chain round ≡ returned result
      → Lineage current dir chain result
  unfolding Ancestors
  while_extends-Lineage none current dir chain result round e k h = ([], e, cc)
  while_extends-Lineage (some v) current dir chain result round e k h = k v e h

  ascend :
      (v : Value) (s : Parent) (current : Fields) (dir : String) {visited : List String}
      (chain result : List Fields)
      → get "extends" current ≡ some v
      → IsFound disk join dirname dir visited v s
      → Lineage s.profile (dirname s.path) (s.profile ∷ chain) result
      → Lineage current dir chain result
  unfolding Ancestors
  ascend v s current dir chain result e c (qs, a, r) = (
    s.profile ∷ qs,
    (
      c.name,
      e ∙ ap some c.named,
      subst (λ p. parent_of (disk p) ≡ returned s.profile) c.at c.loaded,
      subst (λ p. Ancestors s.profile (dirname p) qs) c.at a,
    ),
    r,
  )

  pub resolve-Lineage :
      (n : ℕ) (current : Fields) (dir : String) (visited : List String) (chain result : List Fields)
      → resolve disk join dirname n current dir visited chain ≡ returned result
      → Lineage current dir chain result
  unfolding resolve
  resolve-Lineage zero current dir visited chain result h = cc
  resolve-Lineage (suc n) current dir visited chain result h =
      while_extends-Lineage (get "extends" current) current dir chain result
        (λ v. find_parent disk join dirname dir visited v >>= λ s.
          resolve disk join dirname n s.profile (dirname s.path) s.seen (s.profile ∷ chain))
        refl
        (λ v e k.
          let (s, f, l) =
            >>=-returned (find_parent disk join dirname dir visited v)
              (λ s.
                resolve disk join dirname n s.profile (dirname s.path) s.seen (s.profile ∷ chain))
              k in
          ascend v s current dir chain result e
            (find_parent-IsFound disk join dirname dir visited v s f)
            (resolve-Lineage n s.profile (dirname s.path) s.seen (s.profile ∷ chain) result l))
        h
