-- ===== src/Matcher/Buffer.antt =====
-- `HypothesisBuffer` of runtime/audio/realtime/ring_buffer.py: a window of hypotheses, the oldest
-- first. Times are microseconds of the monotonic clock.
pub mod Stale
pub mod Window
pub mod Newest
use ava_listener.Base.{
  ltb, if◌then◌else◌, is_empty, ℕ, ◌+◌, Bool, not, ◌&&◌, ◌||◌, List, [], ◌∷◌, map,
}
use ava_listener.Base.Text.{Text, starts_with}

abbrev pub window_seconds : ℕ
window_seconds = 3500000

pub record Entry : Type 0 where
  pub at : ℕ
  pub text : Text
  pub stability : ℕ

-- Does the new text replace the last one? One of the two starts with the other.
unfoldable pub extends : Text → Text → Bool
extends last new = not (is_empty last) && (starts_with last new || starts_with new last)

unfoldable pub put_last : Entry → List Entry → List Entry
unfolding extends
put_last e [] = e ∷ []
put_last e (x ∷ []) = if extends x.text e.text then e ∷ [] else x ∷ e ∷ []
put_last e (x ∷ y ∷ r) = x ∷ put_last e (y ∷ r)

-- `cutoff = now - WINDOW_SECONDS`, and `buf[0][0] < cutoff` is `at + WINDOW_SECONDS < now`.
unfoldable pub purge : ℕ → List Entry → List Entry
purge now [] = []
purge now (x ∷ r) =
    let rest = purge now r in if ltb (x.at + window_seconds) now then rest else x ∷ r

-- `now` is the clock at the entry, `purged_at` the clock in the purge.
unfoldable pub push : ℕ → ℕ → Text → ℕ → List Entry → List Entry
unfolding put_last purge
push now purged_at text stability b =
    purge purged_at (put_last (record { at = now; text = text; stability = stability }) b)

abbrev pub clear : List Entry → List Entry
clear b = []

pub record Hypothesis : Type 0 where
  pub text : Text
  pub stability : ℕ

abbrev pub to_hypothesis : Entry → Hypothesis
to_hypothesis x = record { text = x.text; stability = x.stability }

-- The purged buffer, and the pairs that are returned.
unfoldable pub get_window : ℕ → List Entry → List Entry × List Hypothesis
unfolding purge
get_window now b = let kept = purge now b in (kept, map to_hypothesis kept)
