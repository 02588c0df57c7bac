-- ===== src/Supervisor/Restarts/Window.antt =====
-- `RestartPolicy` of runtime/supervisor/restart_policy.py against its specification: a count over
-- the whole history of restarts, of which the policy keeps only a part.
use ava_listener.Base.{
  ltb, if◌then◌else◌, Bool-cases, length, ℕ, suc, ◌+◌, ◌-◌, ◌≤◌, ◌≡◌, refl, ◌∙◌, inl, inr, List, [],
  ◌∷◌, ◌++◌, arith,
}
use mathlib.Core.Path.{ap₂}
use mathlib.Core.List.{append-nil, append_assoc}
use ava_listener.Supervisor.Restarts.{RestartPolicy, create, expire, record_restart, can_restart}

-- How many of the times are at most `window` old.
unfoldable pub within : ℕ → ℕ → List ℕ → ℕ
within now window [] = 0
within now window (t ∷ ts) =
    let rest = within now window ts in if ltb window (now - t) then rest else suc rest

-- Times in rising order, from `lo` to `hi`.
abbrev pub Rising : ℕ → List ℕ → ℕ → Type 0
Rising lo [] hi = lo ≤ hi
Rising lo (t ∷ ts) hi = (lo ≤ t) × Rising t ts hi

Rising-le : (lo hi : ℕ) (ts : List ℕ) → Rising lo ts hi → lo ≤ hi
Rising-le lo hi [] h = h
Rising-le lo hi (t ∷ ts) h = omega (arith, Rising-le t hi ts h.1)

Rising-lower : (lo lo' hi : ℕ) (ts : List ℕ) → lo' ≤ lo → Rising lo ts hi → Rising lo' ts hi
Rising-lower lo lo' hi [] e h = omega arith
Rising-lower lo lo' hi (t ∷ ts) e h = (omega arith, h.1)

Rising-later : (lo hi hi' : ℕ) (ts : List ℕ) → hi ≤ hi' → Rising lo ts hi → Rising lo ts hi'
Rising-later lo hi hi' [] e h = omega arith
Rising-later lo hi hi' (t ∷ ts) e h = (h.0, Rising-later t hi hi' ts e h.1)

Rising-append :
    (lo hi now : ℕ) (ts : List ℕ) → hi ≤ now → Rising lo ts hi → Rising lo (ts ++ now ∷ []) now
Rising-append lo hi now [] e h = (omega arith, omega arith)
Rising-append lo hi now (t ∷ ts) e h = (h.0, Rising-append t hi now ts e h.1)

Rising-expire : (lo hi now w : ℕ) (ts : List ℕ) → Rising lo ts hi → Rising lo (expire now w ts) hi
unfolding expire
Rising-expire lo hi now w [] h = h
Rising-expire lo hi now w (t ∷ ts) h = elim (Bool-cases (ltb w (now - t))) [
  | inl old ↦ rw old (Rising-expire lo hi now w ts (Rising-lower t lo hi ts h.0 h.1))
  | inr new ↦ rw new h
]

-- A young head means that all are young.
within-young :
    (lo hi now w : ℕ) (ts : List ℕ) → now - lo ≤ w → Rising lo ts hi → within now w ts ≡ length ts
unfolding within
within-young lo hi now w [] y h = refl
within-young lo hi now w (t ∷ ts) y h = ground (arith, within-young t hi now w ts)

length-expire :
    (lo hi now w : ℕ) (ts : List ℕ) → Rising lo ts hi → length (expire now w ts) ≡ within now w ts
unfolding expire within
length-expire lo hi now w [] h = refl
length-expire lo hi now w (t ∷ ts) h =
    ground (arith, length-expire t hi now w ts h.1, within-young t hi now w ts)

-- What `expire` drops is too old at every later time too.
within-expire :
    (now later w : ℕ) (ts : List ℕ)
    → now ≤ later
    → within later w (expire now w ts) ≡ within later w ts
unfolding expire within
within-expire now later w [] e = refl
within-expire now later w (t ∷ ts) e = ground (arith, within-expire now later w ts e)

within-append :
    (now w : ℕ) (xs ys : List ℕ) → within now w (xs ++ ys) ≡ within now w xs + within now w ys
unfolding within
within-append now w [] ys = omega arith
within-append now w (x ∷ xs) ys = ground (arith, within-append now w xs ys)

-- The calls of a policy's methods, each with the clock reading that it makes.
pub data Call : Type 0 where
  recorded asked : ℕ → Call

unfoldable pub run : RestartPolicy → List Call → RestartPolicy
run p [] = p
run p (recorded t ∷ cs) = run (record_restart t p) cs
run p (asked t ∷ cs) = run (can_restart t p).0 cs

-- All the restarts of a history.
abbrev pub restarts : List Call → List ℕ
restarts [] = []
restarts (recorded t ∷ cs) = t ∷ restarts cs
restarts (asked t ∷ cs) = restarts cs

-- The clock never runs back: the readings rise from `lo` to `hi`.
abbrev pub Forward : ℕ → List Call → ℕ → Type 0
Forward lo [] hi = lo ≤ hi
Forward lo (recorded t ∷ cs) hi = (lo ≤ t) × Forward t cs hi
Forward lo (asked t ∷ cs) hi = (lo ≤ t) × Forward t cs hi

-- What the policy knows of the restarts `past` at the time `at`.
record Knows (p : RestartPolicy) (past : List ℕ) (at : ℕ) : Type 0 where
  rising : Rising 0 p.timestamps at
  exact : (now : ℕ) → at ≤ now → within now p.window p.timestamps ≡ within now p.window past

Knows-recorded :
    (p : RestartPolicy) (past : List ℕ) (at t : ℕ)
    → at ≤ t
    → Knows p past at
    → Knows (record_restart t p) (past ++ t ∷ []) t
unfolding record_restart
Knows-recorded p past at t e k = record {
  rising = Rising-expire 0 t t p.window _ (Rising-append 0 at t p.timestamps e k.rising);
  exact = λ now later.
      within-expire t now p.window (p.timestamps ++ t ∷ []) later
      ∙ (omega (
        arith,
        within-append now p.window p.timestamps (t ∷ []),
        within-append now p.window past (t ∷ []),
        k.exact now (omega arith),
      ));
}

Knows-asked :
    (p : RestartPolicy) (past : List ℕ) (at t : ℕ)
    → at ≤ t
    → Knows p past at
    → Knows (can_restart t p).0 past t
unfolding can_restart
Knows-asked p past at t e k = record {
  rising = Rising-expire 0 t t p.window _ (Rising-later 0 at t p.timestamps e k.rising);
  exact = λ now later. within-expire t now p.window p.timestamps later ∙ k.exact now (omega arith);
}

can_restart-Knows :
    (p : RestartPolicy) (past : List ℕ) (at now : ℕ)
    → at ≤ now
    → Knows p past at
    → (can_restart now p).1 ≡ ltb (within now p.window past) p.max_restarts
unfolding can_restart
can_restart-Knows p past at now e k =
    rw (length-expire 0 at now p.window p.timestamps k.rising) (rw (k.exact now e))

Knows-run :
    (p : RestartPolicy) (past : List ℕ) (at last : ℕ) (cs : List Call)
    → Forward at cs last
    → Knows p past at
    → Knows (run p cs) (past ++ restarts cs) last
unfolding run
Knows-run p past at last [] f k = rw append-nil (record {
  rising = Rising-later 0 at last p.timestamps f k.rising;
  exact = λ now later. k.exact now (omega arith);
})
Knows-run p past at last (recorded t ∷ cs) f k = rw (append_assoc past (t ∷ []) (restarts cs)) at (
    Knows-run (record_restart t p) (past ++ t ∷ []) t last cs f.1
      (Knows-recorded p past at t f.0 k))
Knows-run p past at last (asked t ∷ cs) f k =
    Knows-run (can_restart t p).0 past t last cs f.1 (Knows-asked p past at t f.0 k)

run_keeps :
    (p : RestartPolicy) (cs : List Call)
    → ((run p cs).max_restarts ≡ p.max_restarts) × ((run p cs).window ≡ p.window)
unfolding run record_restart can_restart
run_keeps p [] = (refl, refl)
run_keeps p (recorded t ∷ cs) = run_keeps (record_restart t p) cs
run_keeps p (asked t ∷ cs) = run_keeps (can_restart t p).0 cs

-- After any calls of a new policy's methods, with a clock that never runs back, `can_restart`
-- answers true exactly if fewer than `max_restarts` of all the restarts ever recorded are at most
-- `window` old, although the policy has dropped the older ones.
pub can_restart-run :
    (max_restarts window : ℕ) (cs : List Call) (last now : ℕ)
    → Forward 0 cs last
    → last ≤ now
    → (can_restart now (run (create max_restarts window) cs)).1
      ≡ ltb (within now window (restarts cs)) max_restarts
unfolding create
can_restart-run max_restarts window cs last now f later =
    can_restart-Knows (run start cs) (restarts cs) last now later
      (Knows-run start [] 0 last cs f (record { rising = omega arith; exact = λ now' e. refl }))
    ∙ ap₂ (λ w m. ltb (within now w (restarts cs)) m) (run_keeps start cs).1 (run_keeps start cs).0
  where
    start : RestartPolicy
    start = record { max_restarts = max_restarts; window = window; timestamps = [] }
