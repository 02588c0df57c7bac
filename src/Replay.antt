-- ===== src/Replay.antt =====
-- `ReplayCapture` of runtime/telemetry/replay_capture.py. The time is an argument of each call, and
-- `written` are the files, the newest first, without their names.
pub mod Deque
pub mod Sessions
use ava_listener.Base.{
  ltb, if◌then◌else◌, length, ℕ, ◌+◌, String, Option, none, some, List, [], ◌∷◌, ◌++◌, str_eq,
}
use ava_listener.Base.Ratio.{Ratio}

-- `d.append(x)` for a deque of at most `maxlen`.
unfoldable pub append_bounded : {A : Type 0} → ℕ → A → List A → List A
append_bounded maxlen x [] = if ltb 0 maxlen then x ∷ [] else []
append_bounded maxlen x (y ∷ ys) =
    if ltb (length (y ∷ ys)) maxlen then (y ∷ ys) ++ x ∷ [] else ys ++ x ∷ []

pub record Hypothesis : Type 0 where
  pub timestamp : ℕ
  pub text : String
  pub stability : ℕ

pub record MatcherOutput : Type 0 where
  pub timestamp : ℕ
  pub phrase : String
  pub confidence : Ratio

pub record StateTransition : Type 0 where
  pub timestamp : ℕ
  pub from_state : String
  pub to_state : String

-- Its `correlation_id` is the key under which it stands.
pub record Session : Type 0 where
  pub start_timestamp : ℕ
  pub hypotheses : List Hypothesis
  pub matcher_outputs : List MatcherOutput
  pub state_transitions : List StateTransition

-- `export_data`.
pub record Export : Type 0 where
  pub correlation_id : String
  pub session : Session
  pub end_timestamp : ℕ

abbrev pub Sessions : Type 0
Sessions = List (String × Session)

pub record ReplayCapture : Type 0 where
  pub active_sessions : Sessions
  pub max_events : ℕ
  pub written : List Export

unfoldable pub new_capture : ℕ → ReplayCapture
new_capture max_events = record { active_sessions = []; max_events = max_events; written = [] }

unfoldable pub find_session : String → Sessions → Option Session
find_session id [] = none
find_session id ((k, s) ∷ rest) =
    let found = find_session id rest in if str_eq k id then some s else found

unfoldable pub put_session : String → Session → Sessions → Sessions
put_session id s [] = (id, s) ∷ []
put_session id s ((k, t) ∷ rest) =
    let after = put_session id s rest in if str_eq k id then (k, s) ∷ rest else (k, t) ∷ after

-- What is done to the session of an identifier, if there is one.
unfoldable pub alter_session : String → (Session → Session) → Sessions → Sessions
alter_session id f [] = []
alter_session id f ((k, t) ∷ rest) =
    let after = alter_session id f rest in if str_eq k id then (k, f t) ∷ rest else (k, t) ∷ after

unfoldable pub empty_session : ℕ → Session
empty_session now = record {
  start_timestamp = now;
  hypotheses = [];
  matcher_outputs = [];
  state_transitions = [];
}

unfoldable pub start_capture : String → ℕ → ReplayCapture → ReplayCapture
unfolding put_session empty_session
start_capture id now c = record c {
  active_sessions = put_session id (empty_session now) c.active_sessions;
}

unfoldable pub add_hypothesis : ℕ → Hypothesis → Session → Session
unfolding append_bounded
add_hypothesis m h s = record s { hypotheses = append_bounded m h s.hypotheses }

unfoldable pub add_matcher_output : ℕ → MatcherOutput → Session → Session
unfolding append_bounded
add_matcher_output m o s = record s { matcher_outputs = append_bounded m o s.matcher_outputs }

unfoldable pub add_transition : ℕ → StateTransition → Session → Session
unfolding append_bounded
add_transition m t s = record s { state_transitions = append_bounded m t s.state_transitions }

unfoldable pub record_hypothesis : String → Hypothesis → ReplayCapture → ReplayCapture
unfolding alter_session add_hypothesis
record_hypothesis id h c = record c {
  active_sessions = alter_session id (add_hypothesis c.max_events h) c.active_sessions;
}

unfoldable pub record_matcher_output : String → MatcherOutput → ReplayCapture → ReplayCapture
unfolding alter_session add_matcher_output
record_matcher_output id o c = record c {
  active_sessions = alter_session id (add_matcher_output c.max_events o) c.active_sessions;
}

unfoldable pub record_transition : String → StateTransition → ReplayCapture → ReplayCapture
unfolding alter_session add_transition
record_transition id t c = record c {
  active_sessions = alter_session id (add_transition c.max_events t) c.active_sessions;
}

abbrev pub exported : String → ℕ → Option Session → List Export → List Export
exported id now none es = es
exported id now (some s) es = record { correlation_id = id; session = s; end_timestamp = now } ∷ es

-- The end that `flush` notes in the session is only read for this file. The session stays active.
unfoldable pub flush : String → ℕ → ReplayCapture → ReplayCapture
unfolding find_session
flush id now c = record c {
  written = exported id now (find_session id c.active_sessions) c.written;
}

-- The clock is read once for each session.
unfoldable pub flush_all : Sessions → (ℕ → ℕ) → ℕ → ReplayCapture → ReplayCapture
unfolding flush
flush_all [] clock n c = c
flush_all ((id, s) ∷ rest) clock n c = flush_all rest clock (n + 1) (flush id (clock n) c)

unfoldable pub shutdown : (ℕ → ℕ) → ReplayCapture → ReplayCapture
unfolding flush_all
shutdown clock c = flush_all c.active_sessions clock 0 c
