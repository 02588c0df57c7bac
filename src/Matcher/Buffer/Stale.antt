-- ===== src/Matcher/Buffer/Stale.antt =====
-- What a purge of runtime/audio/realtime/ring_buffer.py leaves out.
use ava_listener.Base.{
  ltb, Bool-cases, All, ℕ, ◌+◌, ◌≤◌, ◌<◌, ◌≡◌, refl, ap, inl, inr, List, [], ◌∷◌, ◌++◌, arith,
  if_keeps,
}
use ava_listener.Matcher.Buffer.{window_seconds, Entry, extends, put_last, purge}

abbrev pub IsStale : ℕ → Entry → Type 0
IsStale now x = x.at + window_seconds < now

-- `c` has entries in front of `b`, all of them stale.
pub record Older (now : ℕ) (b c : List Entry) : Type 0 where
  pub front : List Entry
  pub stale : All (IsStale now) front
  pub split : c ≡ front ++ b

Older-cons :
    (now : ℕ) (x : Entry) (b c : List Entry) → IsStale now x → Older now b c → Older now b (x ∷ c)
Older-cons now x b c h o = record {
  front = x ∷ o.front;
  stale = (h, o.stale);
  split = ap (λ l. x ∷ l) o.split;
}

pub Older-refl : (now : ℕ) (b : List Entry) → Older now b b
Older-refl now b = record { front = []; stale = tt; split = refl }

pub put_last-Older :
    (now : ℕ) (e : Entry) (ds b : List Entry)
    → All (IsStale now) ds
    → Older now (put_last e b) (put_last e (ds ++ b))
unfolding put_last
put_last-Older now e [] b h = Older-refl now (put_last e b)
put_last-Older now e (x ∷ []) [] h =
    if_keeps (Older now (e ∷ [])) (extends x.text e.text) (Older-refl now (e ∷ []))
      (Older-cons now x (e ∷ []) (e ∷ []) h.0 (Older-refl now (e ∷ [])))
put_last-Older now e (x ∷ []) (y ∷ b) h =
    Older-cons now x (put_last e (y ∷ b)) (put_last e (y ∷ b)) h.0
      (Older-refl now (put_last e (y ∷ b)))
put_last-Older now e (x ∷ y ∷ ds) b h =
    Older-cons now x (put_last e b) (put_last e ((y ∷ ds) ++ b)) h.0
      (put_last-Older now e (y ∷ ds) b h.1)

pub purge-Older : (t now : ℕ) (c : List Entry) → t ≤ now → Older now (purge t c) c
unfolding purge
purge-Older t now [] h = Older-refl now []
purge-Older t now (x ∷ c) h = elim (Bool-cases (ltb (x.at + window_seconds) t)) [
  | inl old ↦ rw old (Older-cons now x (purge t c) c (ground (arith, old)) (purge-Older t now c h))
  | inr new ↦ rw new (Older-refl now (x ∷ c))
]

pub purge-front :
    (now : ℕ) (ds b : List Entry) → All (IsStale now) ds → purge now (ds ++ b) ≡ purge now b
unfolding purge
purge-front now [] b h = refl
purge-front now (x ∷ ds) b h = ground (arith, h.0, purge-front now ds b h.1)
