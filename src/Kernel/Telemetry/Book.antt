-- ===== src/Kernel/Telemetry/Book.antt =====
-- The calls of runtime/telemetry/collector.py, and a book that is kept of them.
use ava_listener.Base.{
  if◌then◌else◌, ℕ, suc, ◌+◌, Bool, true, false, Option, none, some, List, [], ◌∷◌, ◌++◌,
}
use ava_listener.Base.Text.{Text}
use ava_listener.Kernel.Session.{
  CandidateSession, SessionState, candidate_confirmed, Sighting, Naming,
}
use ava_listener.Kernel.Telemetry.{
  new_telemetry, register_false_wake, confirm_candidate, drop_candidate, start_candidate,
  update_candidate, Snapshot, Telemetry,
}

-- The calls that concern candidates, with `register_false_wake` and `reset`.
pub data Call : Type 0 where
  started : Naming → Sighting → ℕ → ℕ → Call
  updated : Sighting → ℕ → Call
  confirmed dropped misjudged cleared : Call

unfoldable pub step : Call → Telemetry → Telemetry
step (started n s a b) t = start_candidate n s a b t
step (updated s now) t = update_candidate s now t
step confirmed t = confirm_candidate t
step dropped t = drop_candidate t
step misjudged t = register_false_wake t
step cleared t = new_telemetry

unfoldable pub run : List Call → Telemetry → Telemetry
run [] t = t
run (c ∷ cs) t = run cs (step c t)

-- Whose candidate it was, when it began, and all that was heard of it.
pub record Life : Type 0 where
  pub naming : Naming
  pub start_time : ℕ
  pub texts : List Text

-- The lives since the last reset, whether the last of them goes on, and the calls of
-- `register_false_wake`.
pub record Book : Type 0 where
  pub lives : List Life
  pub goes_on : Bool
  pub misjudged : ℕ

abbrev pub blank : Book
blank = record { lives = []; goes_on = false; misjudged = 0 }

abbrev pub hears : Text → Life → Life
hears t l = record l { texts = l.texts ++ t ∷ [] }

abbrev pub amend_last : (Life → Life) → List Life → List Life
amend_last f [] = []
amend_last f (l ∷ []) = f l ∷ []
amend_last f (l ∷ m ∷ ls) = l ∷ amend_last f (m ∷ ls)

unfoldable pub note : Call → Book → Book
note (started n s a b) k = record k {
  lives = k.lives ++ record { naming = n; start_time = a; texts = s.text ∷ [] } ∷ [];
  goes_on = true;
}
note (updated s now) k = record k {
  lives = if k.goes_on then amend_last (hears s.text) k.lives else k.lives;
}
note confirmed k = record k { goes_on = false }
note dropped k = record k { goes_on = false }
note misjudged k = record k { misjudged = k.misjudged + 1 }
note cleared k = blank

unfoldable pub notes : List Call → Book → Book
unfolding note
notes [] k = k
notes (c ∷ cs) k = notes cs (note c k)

abbrev pub life_of : CandidateSession → Life
life_of c = record {
  naming = record { phrase = c.phrase; variant = c.variant; canonical = c.canonical };
  start_time = c.start_time;
  texts = c.transcript_evolution;
}

abbrev pub closed_life : Snapshot → Life
closed_life s = life_of s.session

abbrev pub active_life : Option CandidateSession → List Life
active_life none = []
active_life (some c) = life_of c ∷ []

abbrev pub is_held : Option CandidateSession → Bool
is_held none = false
is_held (some c) = true

abbrev pub is_confirmed : SessionState → Bool
is_confirmed candidate_confirmed = true
is_confirmed _ = false

abbrev pub confirmations : List Snapshot → ℕ
confirmations [] = 0
confirmations (s ∷ ss) =
    let rest = confirmations ss in if is_confirmed s.session.state then suc rest else rest
