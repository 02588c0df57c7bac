-- ===== src/Replay/Sessions.antt =====
-- What a capture writes for a session.
use ava_listener.Base.{
  if◌then◌else◌, ℕ, ◌+◌, String, ◌≡◌, refl, sym, ap, ◌∙◌, Bool, true, false, Option, none, some,
  List, [], ◌∷◌, ◌++◌, arith, str_eq, eq_iff,
}
use ava_listener.Replay.Deque.{last, append_bounded-last}
use ava_listener.Replay.{
  Hypothesis, MatcherOutput, StateTransition, Session, Sessions, ReplayCapture, new_capture,
  find_session, put_session, alter_session, empty_session, start_capture, add_hypothesis,
  add_matcher_output, add_transition, record_hypothesis, record_matcher_output, record_transition,
  exported, flush, flush_all, shutdown,
}

abbrev pub map_session : (Session → Session) → Option Session → Option Session
map_session f none = none
map_session f (some s) = some (f s)

find-put :
    (j k : String) (s : Session) (l : Sessions)
    → find_session j (put_session k s l) ≡ (if str_eq k j then some s else find_session j l)
unfolding find_session put_session
find-put j k s [] = refl
find-put j k s ((i, t) ∷ l) = ground (arith, eq_iff i k, eq_iff i j, eq_iff k j, find-put j k s l)

find-alter :
    (j k : String) (f : Session → Session) (l : Sessions)
    → find_session j (alter_session k f l)
      ≡ (if str_eq k j then map_session f (find_session j l) else find_session j l)
unfolding find_session alter_session
find-alter j k f [] = ground arith
find-alter j k f ((i, t) ∷ l) =
    ground (arith, eq_iff i k, eq_iff i j, eq_iff k j, find-alter j k f l)

-- The calls of a capture.
pub data Call : Type 0 where
  started : String → ℕ → Call
  heard : String → Hypothesis → Call
  matched : String → MatcherOutput → Call
  moved : String → StateTransition → Call
  flushed : String → ℕ → Call
  stopped : (ℕ → ℕ) → Call

unfoldable pub step : Call → ReplayCapture → ReplayCapture
unfolding start_capture record_hypothesis record_matcher_output record_transition flush shutdown
step (started id now) c = start_capture id now c
step (heard id h) c = record_hypothesis id h c
step (matched id o) c = record_matcher_output id o c
step (moved id t) c = record_transition id t c
step (flushed id now) c = flush id now c
step (stopped clock) c = shutdown clock c

unfoldable pub run : List Call → ReplayCapture → ReplayCapture
unfolding step
run [] c = c
run (x ∷ xs) c = run xs (step x c)

-- All that is recorded of one session, without a limit: a start begins anew, and what is recorded
-- before the first one is lost.
abbrev heard_too : Hypothesis → Session → Session
heard_too h s = record s { hypotheses = s.hypotheses ++ h ∷ [] }

abbrev matched_too : MatcherOutput → Session → Session
matched_too o s = record s { matcher_outputs = s.matcher_outputs ++ o ∷ [] }

abbrev moved_too : StateTransition → Session → Session
moved_too t s = record s { state_transitions = s.state_transitions ++ t ∷ [] }

unfoldable pub remember : String → Call → Option Session → Option Session
unfolding empty_session
remember j (started id now) o = if str_eq id j then some (empty_session now) else o
remember j (heard id h) o = if str_eq id j then map_session (heard_too h) o else o
remember j (matched id x) o = if str_eq id j then map_session (matched_too x) o else o
remember j (moved id t) o = if str_eq id j then map_session (moved_too t) o else o
remember j (flushed id now) o = o
remember j (stopped clock) o = o

unfoldable pub history : String → List Call → Option Session → Option Session
unfolding remember
history j [] o = o
history j (x ∷ xs) o = history j xs (remember j x o)

-- The last `m` records of each kind.
abbrev pub trim : ℕ → Session → Session
trim m s = record s {
  hypotheses = last m s.hypotheses;
  matcher_outputs = last m s.matcher_outputs;
  state_transitions = last m s.state_transitions;
}

abbrev Agrees : String → ReplayCapture → Option Session → Type 0
Agrees j c o = find_session j c.active_sessions ≡ map_session (trim c.max_events) o

flush_all-keeps :
    (l : Sessions) (clock : ℕ → ℕ) (n : ℕ) (c : ReplayCapture)
    → ((flush_all l clock n c).active_sessions ≡ c.active_sessions)
      × ((flush_all l clock n c).max_events ≡ c.max_events)
unfolding flush flush_all
flush_all-keeps [] clock n c = (refl, refl)
flush_all-keeps ((id, s) ∷ l) clock n c = flush_all-keeps l clock (n + 1) (flush id (clock n) c)

step-max : (x : Call) (c : ReplayCapture) → (step x c).max_events ≡ c.max_events
unfolding step start_capture record_hypothesis record_matcher_output record_transition flush
    shutdown
step-max (started id now) c = refl
step-max (heard id h) c = refl
step-max (matched id o) c = refl
step-max (moved id t) c = refl
step-max (flushed id now) c = refl
step-max (stopped clock) c = (flush_all-keeps c.active_sessions clock 0 c).1

in_view :
    (b : Bool) (f g : Session → Session) (m : ℕ) (o : Option Session)
    → ((s : Session) → f (trim m s) ≡ trim m (g s))
    → (if b then map_session f (map_session (trim m) o) else map_session (trim m) o)
      ≡ map_session (trim m) (if b then map_session g o else o)
in_view true f g m none h = refl
in_view true f g m (some s) h = ap some (h s)
in_view false f g m o h = refl

-- Recording commutes with the view.
altered :
    (j id : String) (f g : Session → Session) (m : ℕ) (l : Sessions) (o : Option Session)
    → ((s : Session) → f (trim m s) ≡ trim m (g s))
    → find_session j l ≡ map_session (trim m) o
    → find_session j (alter_session id f l)
      ≡ map_session (trim m) (if str_eq id j then map_session g o else o)
altered j id f g m l o h a =
    find-alter j id f l
    ∙ ap (λ r. if str_eq id j then map_session f r else r) a
    ∙ in_view (str_eq id j) f g m o h

begun :
    (b : Bool) (m now : ℕ) (o : Option Session)
    → (if b then some (empty_session now) else map_session (trim m) o)
      ≡ map_session (trim m) (if b then some (empty_session now) else o)
unfolding empty_session
begun true m now o = refl
begun false m now o = refl

step-Agrees :
    (j : String) (x : Call) (c : ReplayCapture) (o : Option Session)
    → Agrees j c o
    → find_session j (step x c).active_sessions ≡ map_session (trim c.max_events) (remember j x o)
unfolding step remember start_capture empty_session record_hypothesis record_matcher_output
    record_transition add_hypothesis add_matcher_output add_transition flush shutdown
step-Agrees j (started id now) c o a =
    find-put j id (empty_session now) c.active_sessions
    ∙ ap (λ r. if str_eq id j then some (empty_session now) else r) a
    ∙ begun (str_eq id j) c.max_events now o
step-Agrees j (heard id h) c o a =
    altered j id (add_hypothesis c.max_events h) (heard_too h) c.max_events c.active_sessions o
      (λ s.
        ap (λ hs. record (trim c.max_events s) { hypotheses = hs })
          (append_bounded-last c.max_events h s.hypotheses))
      a
step-Agrees j (matched id x) c o a =
    altered j id (add_matcher_output c.max_events x) (matched_too x) c.max_events c.active_sessions
      o
      (λ s.
        ap (λ xs. record (trim c.max_events s) { matcher_outputs = xs })
          (append_bounded-last c.max_events x s.matcher_outputs))
      a
step-Agrees j (moved id t) c o a =
    altered j id (add_transition c.max_events t) (moved_too t) c.max_events c.active_sessions o
      (λ s.
        ap (λ ts. record (trim c.max_events s) { state_transitions = ts })
          (append_bounded-last c.max_events t s.state_transitions))
      a
step-Agrees j (flushed id now) c o a = a
step-Agrees j (stopped clock) c o a =
    ap (find_session j) (flush_all-keeps c.active_sessions clock 0 c).0 ∙ a

run-Agrees :
    (j : String) (xs : List Call) (c : ReplayCapture) (o : Option Session)
    → Agrees j c o
    → find_session j (run xs c).active_sessions ≡ map_session (trim c.max_events) (history j xs o)
unfolding run history
run-Agrees j [] c o a = a
run-Agrees j (x ∷ xs) c o a =
    run-Agrees j xs (step x c) (remember j x o)
      (step-Agrees j x c o a ∙ ap (λ m. map_session (trim m) (remember j x o)) (sym (step-max x c)))
    ∙ ap (λ m. map_session (trim m) (history j xs (remember j x o))) (step-max x c)

-- After any calls on a new capture, `flush` writes exactly one file if the session was ever started,
-- and none otherwise. The file holds the last `max_events` hypotheses, matcher outputs and
-- transitions that were recorded under the identifier since its last start, each kind in order,
-- whatever was recorded under other identifiers and flushed before.
pub flush-run :
    (m : ℕ) (j : String) (xs : List Call) (now : ℕ)
    → (flush j now (run xs (new_capture m))).written
      ≡ exported j now (map_session (trim m) (history j xs none)) (run xs (new_capture m)).written
unfolding flush new_capture find_session
flush-run m j xs now =
    ap (λ o. exported j now o (run xs (new_capture m)).written)
      (run-Agrees j xs (new_capture m) none refl)
