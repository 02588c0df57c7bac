-- ===== src/Matcher/Buffer/Newest.antt =====
-- The last push and the window of runtime/audio/realtime/ring_buffer.py.
use ava_listener.Base.{
  ltb, ℕ, ◌+◌, ◌≤◌, ◌≡◌, refl, Option, none, some, List, [], ◌∷◌, map, arith, if_keeps,
}
use ava_listener.Base.Text.{Text}
use ava_listener.Matcher.Buffer.{
  window_seconds, Entry, to_hypothesis, extends, put_last, purge, push, get_window,
}

abbrev IsFresh : ℕ → Entry → Type 0
IsFresh now x = now ≤ x.at + window_seconds

-- The last element.
abbrev pub newest : {A : Type 0} → List A → Option A
newest [] = none
newest (x ∷ []) = some x
newest (x ∷ y ∷ r) = newest (y ∷ r)

newest-cons : {A : Type 0} (x e : A) (b : List A) → newest b ≡ some e → newest (x ∷ b) ≡ some e
newest-cons x e [] h = cc
newest-cons x e (y ∷ r) h = h

newest-put_last : (e : Entry) (b : List Entry) → newest (put_last e b) ≡ some e
unfolding put_last
newest-put_last e [] = refl
newest-put_last e (x ∷ []) = if_keeps (λ b. newest b ≡ some e) (extends x.text e.text) refl refl
newest-put_last e (x ∷ y ∷ r) = newest-cons x e (put_last e (y ∷ r)) (newest-put_last e (y ∷ r))

newest-purge :
    (now : ℕ) (e : Entry) (b : List Entry)
    → IsFresh now e
    → newest b ≡ some e
    → newest (purge now b) ≡ some e
unfolding purge
newest-purge now e [] f h = h
newest-purge now e (x ∷ []) f h = ground arith
newest-purge now e (x ∷ y ∷ r) f h =
    if_keeps (λ b. newest b ≡ some e) (ltb (x.at + window_seconds) now)
      (newest-purge now e (y ∷ r) f h) h

newest-map :
    (b : List Entry) (e : Entry)
    → newest b ≡ some e
    → newest (map to_hypothesis b) ≡ some (to_hypothesis e)
newest-map [] e h = cc
newest-map (x ∷ []) e h = cc
newest-map (x ∷ y ∷ b) e h = newest-map (y ∷ b) e h

-- The text that was pushed last stands, with its stability, at the end of the window that is returned for the next 3.5 seconds, whatever
-- the window held before and whether or not it replaced an entry.
pub get_window-push :
    (now purged_at later : ℕ) (text : Text) (stability : ℕ) (b : List Entry)
    → purged_at ≤ now + window_seconds
    → later ≤ now + window_seconds
    → newest (get_window later (push now purged_at text stability b)).1
      ≡ some (record { text = text; stability = stability })
unfolding get_window push
get_window-push now purged_at later text stability b h k =
    let e : Entry = record { at = now; text = text; stability = stability } in
    newest-map (purge later (purge purged_at (put_last e b))) e (
      newest-purge later e (purge purged_at (put_last e b)) k
        (newest-purge purged_at e (put_last e b) h (newest-put_last e b)))
