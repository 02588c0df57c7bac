-- ===== src/Matcher/Buffer/Window.antt =====
-- What the window of runtime/audio/realtime/ring_buffer.py holds.
use ava_listener.Base.{
  ltb, Bool-cases, if◌then◌else◌, is_empty, All-append, ℕ, ◌+◌, ◌≤◌, ◌≡◌, refl, sym, ap, ◌∙◌, Bool,
  true, false, not, ◌&&◌, ◌||◌, inl, inr, List, [], ◌∷◌, ◌++◌, map, arith, if_keeps,
}
use mathlib.Core.List.{append_assoc}
use mathlib.Core.Path.{subst}
use ava_listener.Base.Text.{Text, starts_with}
use ava_listener.Matcher.Buffer.{
  window_seconds, Entry, Hypothesis, to_hypothesis, extends, put_last, purge, push, get_window,
}
use ava_listener.Matcher.Buffer.Stale.{
  IsStale, Older, Older-refl, put_last-Older, purge-Older, purge-front,
}

-- The times of the entries rise from `lo` to `hi`.
abbrev Rising : ℕ → List Entry → ℕ → Type 0
Rising lo [] hi = lo ≤ hi
Rising lo (x ∷ r) hi = (lo ≤ x.at) × Rising x.at r hi

abbrev IsFresh : ℕ → Entry → Type 0
IsFresh now x = now ≤ x.at + window_seconds

Rising-lower : (lo lo' hi : ℕ) (b : List Entry) → lo' ≤ lo → Rising lo b hi → Rising lo' b hi
Rising-lower lo lo' hi [] e h = omega arith
Rising-lower lo lo' hi (x ∷ r) e h = (omega arith, h.1)

Rising-put_last :
    (lo hi : ℕ) (e : Entry) (b : List Entry)
    → hi ≤ e.at
    → Rising lo b hi
    → Rising lo (put_last e b) e.at
unfolding put_last
Rising-put_last lo hi e [] k h = (omega arith, omega arith)
Rising-put_last lo hi e (x ∷ []) k h =
    if_keeps (λ b. Rising lo b e.at) (extends x.text e.text) (omega arith, omega arith)
      (h.0, (omega arith, omega arith))
Rising-put_last lo hi e (x ∷ y ∷ r) k h = (h.0, Rising-put_last x.at hi e (y ∷ r) k h.1)

-- A call of `push`: the clock at the entry and in the purge, the text and its stability.
pub record Pushed : Type 0 where
  pub now : ℕ
  pub purged_at : ℕ
  pub text : Text
  pub stability : ℕ

unfoldable pub run : List Pushed → List Entry → List Entry
run [] b = b
run (p ∷ ps) b = run ps (push p.now p.purged_at p.text p.stability b)

-- The clock never runs back.
abbrev pub Forward : ℕ → List Pushed → ℕ → Type 0
Forward lo [] hi = lo ≤ hi
Forward lo (p ∷ ps) hi = (lo ≤ p.now) × (p.now ≤ p.purged_at) × Forward p.purged_at ps hi

abbrev entry_of : Pushed → Entry
entry_of p = record { at = p.now; text = p.text; stability = p.stability }

-- The pushes but those whose text is replaced by the next one: one of the two starts with the other.
abbrev pub collapse : List Pushed → List Pushed
collapse [] = []
collapse (p ∷ []) = p ∷ []
collapse (p ∷ q ∷ ps) =
    let rest = collapse (q ∷ ps) in
    if not (is_empty p.text) && (starts_with p.text q.text || starts_with q.text p.text)
    then rest
    else p ∷ rest

-- Those of the last 3.5 seconds.
abbrev pub recent : ℕ → List Pushed → List Pushed
recent now [] = []
recent now (p ∷ ps) =
    let rest = recent now ps in if ltb (p.now + window_seconds) now then rest else p ∷ rest

abbrev pub spoken : Pushed → Hypothesis
spoken p = record { text = p.text; stability = p.stability }

-- The pushes without a purge.
stack : List Pushed → List Entry → List Entry
stack [] b = b
stack (p ∷ ps) b = stack ps (put_last (entry_of p) b)

Rising-later : (lo hi hi' : ℕ) (b : List Entry) → hi ≤ hi' → Rising lo b hi → Rising lo b hi'
Rising-later lo hi hi' [] e h = omega arith
Rising-later lo hi hi' (x ∷ r) e h = (h.0, Rising-later x.at hi hi' r e h.1)

-- With no purge before the end, only stale entries are left in front.
Older-next :
    (now : ℕ) (p : Pushed) (b c : List Entry)
    → p.purged_at ≤ now
    → Older now b c
    → Older now (push p.now p.purged_at p.text p.stability b) (put_last (entry_of p) c)
unfolding push
Older-next now p b c h o =
    let u : Older now (put_last (entry_of p) b) (put_last (entry_of p) (o.front ++ b)) =
      put_last-Older now (entry_of p) o.front b o.stale in
    let v : Older now (purge p.purged_at (put_last (entry_of p) b)) (put_last (entry_of p) b) =
      purge-Older p.purged_at now (put_last (entry_of p) b) h in
    record {
      front = u.front ++ v.front;
      stale = All-append (IsStale now) u.front v.front u.stale v.stale;
      split =
          ap (put_last (entry_of p)) o.split
          ∙ u.split
          ∙ ap (λ l. u.front ++ l) v.split
          ∙ sym (append_assoc u.front v.front (purge p.purged_at (put_last (entry_of p) b)));
    }

Forward-end : (lo hi : ℕ) (ps : List Pushed) → Forward lo ps hi → lo ≤ hi
Forward-end lo hi [] f = f
Forward-end lo hi (p ∷ ps) f = omega (arith, f.0, f.1, Forward-end p.purged_at hi ps f.2)

run-Older :
    (lo last now : ℕ) (ps : List Pushed) (b c : List Entry)
    → Forward lo ps last
    → last ≤ now
    → Older now b c
    → Older now (run ps b) (stack ps c)
unfolding run stack
run-Older lo last now [] b c f k o = o
run-Older lo last now (p ∷ ps) b c f k o =
    run-Older p.purged_at last now ps _ _ f.2 k
      (Older-next now p b c (omega (arith, k, Forward-end p.purged_at last ps f.2)) o)

put_last-end :
    (e x : Entry) (pre : List Entry) → put_last e (pre ++ x ∷ []) ≡ pre ++ put_last e (x ∷ [])
unfolding put_last
put_last-end e x [] = refl
put_last-end e x (y ∷ []) = refl
put_last-end e x (y ∷ z ∷ pre) = ap (λ l. y ∷ l) (put_last-end e x (z ∷ pre))

joined :
    (b : Bool) (p q : Pushed) (ps : List Pushed) (pre : List Entry)
    → ((l : List Entry) → stack ps (l ++ entry_of q ∷ []) ≡ l ++ map entry_of (collapse (q ∷ ps)))
    → stack ps (pre ++ (if b then entry_of q ∷ [] else entry_of p ∷ entry_of q ∷ []))
      ≡ pre ++ map entry_of (if b then collapse (q ∷ ps) else p ∷ collapse (q ∷ ps))
joined true p q ps pre h = h pre
joined false p q ps pre h =
    ap (stack ps) (sym (append_assoc pre (entry_of p ∷ []) (entry_of q ∷ [])))
    ∙ h (pre ++ entry_of p ∷ [])
    ∙ append_assoc pre (entry_of p ∷ []) (map entry_of (collapse (q ∷ ps)))

stack-collapse :
    (p : Pushed) (ps : List Pushed) (pre : List Entry)
    → stack ps (pre ++ entry_of p ∷ []) ≡ pre ++ map entry_of (collapse (p ∷ ps))
unfolding stack put_last extends
stack-collapse p [] pre = refl
stack-collapse p (q ∷ ps) pre =
    ap (stack ps) (put_last-end (entry_of q) (entry_of p) pre)
    ∙ joined (not (is_empty p.text) && (starts_with p.text q.text || starts_with q.text p.text)) p q
        ps pre (stack-collapse q ps)

Rising-stack :
    (at last : ℕ) (ps : List Pushed) (b : List Entry)
    → Forward at ps last
    → Rising 0 b at
    → Rising 0 (stack ps b) last
unfolding stack
Rising-stack at last [] b f h = Rising-later 0 at last b f h
Rising-stack at last (p ∷ ps) b f h =
    Rising-stack p.purged_at last ps (put_last (entry_of p) b) f.2
      (Rising-later 0 p.now p.purged_at _ f.1 (Rising-put_last 0 at (entry_of p) b f.0 h))

fresh-recent :
    (lo hi now : ℕ) (ps : List Pushed)
    → now ≤ lo + window_seconds
    → Rising lo (map entry_of ps) hi
    → recent now ps ≡ ps
fresh-recent lo hi now [] k h = refl
fresh-recent lo hi now (p ∷ ps) k h =
    ground (arith, k, h.0, fresh-recent p.now hi now ps (omega (arith, k, h.0)) h.1)

purge-recent :
    (lo hi now : ℕ) (ps : List Pushed)
    → Rising lo (map entry_of ps) hi
    → purge now (map entry_of ps) ≡ map entry_of (recent now ps)
unfolding purge
purge-recent lo hi now [] h = refl
purge-recent lo hi now (p ∷ ps) h = elim (Bool-cases (ltb (p.now + window_seconds) now)) [
  | inl old ↦ rw old (purge-recent p.now hi now ps h.1)
  | inr new ↦ rw (new, fresh-recent p.now hi now ps (ground (arith, new)) h.1) refl
]

whole-stack : (ps : List Pushed) → stack ps [] ≡ map entry_of (collapse ps)
unfolding stack put_last
whole-stack [] = refl
whole-stack (p ∷ ps) = stack-collapse p ps []

purge-run :
    (ps : List Pushed) (last now : ℕ)
    → Forward 0 ps last
    → last ≤ now
    → purge now (run ps []) ≡ map entry_of (recent now (collapse ps))
purge-run ps last now f k =
    let o : Older now (run ps []) (stack ps []) =
      run-Older 0 last now ps [] [] f k (Older-refl now []) in
    let e : purge now (stack ps []) ≡ purge now (run ps []) =
      ap (purge now) o.split ∙ purge-front now o.front (run ps []) o.stale in
    sym e
    ∙ ap (purge now) (whole-stack ps)
    ∙ purge-recent 0 last now (collapse ps)
        (subst (λ b. Rising 0 b last) (whole-stack ps) (Rising-stack 0 last ps [] f (omega arith)))

spoken-all : (ps : List Pushed) → map to_hypothesis (map entry_of ps) ≡ map spoken ps
spoken-all [] = refl
spoken-all (p ∷ ps) = ap (λ l. spoken p ∷ l) (spoken-all ps)

-- After any pushes, with a clock that never runs back, the window that is returned at a later time
-- has the texts and stabilities of the pushes of the last 3.5 seconds, in order, but for those
-- whose text the next push replaced because one of the two starts with the other.
pub get_window-run :
    (ps : List Pushed) (last now : ℕ)
    → Forward 0 ps last
    → last ≤ now
    → (get_window now (run ps [])).1 ≡ map spoken (recent now (collapse ps))
unfolding get_window
get_window-run ps last now f k =
    ap (map to_hypothesis) (purge-run ps last now f k) ∙ spoken-all (recent now (collapse ps))
