-- ===== src/Supervisor/Messages.antt =====
-- The handlers of runtime/supervisor/supervisor.py for what the worker sends, over IPC or its stdout.
-- What a handler sends is a list of `Output`; the log lines are left out.
use ava_listener.Base.{
  ◌==◌, if◌then◌else◌, is_empty, ℕ, String, Bool, true, false, not, Option, none, some, List, [],
  ◌∷◌, str_eq,
}
use ava_listener.Base.Text.{codes}
use ava_listener.Config.{
  Value, Fields, null, bool, number, minus, text, array, object, nil, empty, field, get, get_or,
  put,
}
use ava_listener.Supervisor.Monitor.{Supervisor}

pub data Output : Type 0 where
  to_stdout to_clients to_worker : Value → Output
  to_stdin : Value → Output
  kill_worker shut_down : Output

-- The dict display `{**d, **e}`.
unfoldable pub update : Fields → Fields → Fields
unfolding put
update d empty = d
update d (field k v e) = update (put k v d) e

-- Is the value true in a condition?
abbrev pub is_truthy : Value → Bool
is_truthy null = false
is_truthy (bool b) = b
is_truthy (number r) = not (r.num == 0)
is_truthy (minus r) = not (r.num == 0)
is_truthy (text s) = not (is_empty (codes s))
is_truthy (array nil) = false
is_truthy (array vs) = true
is_truthy (object empty) = false
is_truthy (object d) = true

abbrev pub is_text : String → Value → Bool
is_text s (text t) = str_eq t s
is_text s v = false

-- The name of the event that a message of the worker becomes.
abbrev pub event_of : Value → Option String
event_of (text t) =
    if str_eq t "HEARTBEAT"
    then some "heartbeat"
    else if str_eq t "STATUS"
    then some "status"
    else if str_eq t "WAKE"
    then some "wake"
    else if str_eq t "ERROR"
    then some "error"
    else if str_eq t "DIAGNOSTICS"
    then some "diagnostics"
    else none
event_of v = none

-- `{"event": name, **payload}`: `none` is the error of a payload that is no dict.
abbrev pub event_with : String → Value → Option Fields
event_with name (object payload) = some (update (field "event" (text name) empty) payload)
event_with name v = none

abbrev pub out_object : Option String → Value → Value → Value → Option Fields
out_object (some name) type_ payload ts = event_with name payload
out_object none type_ payload ts = some (
    field "event" (text "ipc") (field "type" type_ (field "payload" payload (field "ts" ts empty))))

abbrev pub announce : Option Fields → List Output
announce none = []
announce (some d) =
    to_stdout (object d)
    ∷ to_clients (object (field "type" (get_or "event" null d) (field "payload" (object d) empty)))
    ∷ []

abbrev pub refreshed : Bool → Option Fields → ℕ → Supervisor → Supervisor
refreshed true (some d) now s = record s { last_heartbeat = now }
refreshed b o now s = s

abbrev pub payload_of : Fields → Value
payload_of obj =
    let payload : Value = get_or "payload" (object empty) obj in
    if is_truthy payload then payload else object empty

-- `_on_ipc_receive`, at the time `now` of the monotonic clock and `ts` of the other.
unfoldable pub on_ipc_receive : ℕ → Value → Fields → Supervisor → Supervisor × List Output
unfolding get update
on_ipc_receive now ts obj s =
    let type_ : Value = get_or "type" null obj in
    let out : Option Fields = out_object (event_of type_) type_ (payload_of obj) ts in
    (refreshed (is_text "HEARTBEAT" type_) out now s, announce out)

abbrev note_beat : Bool → ℕ → Supervisor → Supervisor
note_beat true now s = record s { last_heartbeat = now }
note_beat false now s = s

abbrev output_line : Value → String → List Output
output_line ts line =
    let out : Value =
      object
        (field "event" (text "worker_output") (field "line" (text line) (field "ts" ts empty))) in
    to_stdout out ∷ to_clients out ∷ []

-- A line of the worker's stdout, and the JSON value that it holds, if it holds one. A value that is
-- no dict raises an error after it has been emitted.
unfoldable pub on_worker_line :
    ℕ → Value → String → Option Value → Supervisor → Supervisor × List Output
unfolding get
on_worker_line now ts line (some (object obj)) s = (
  note_beat (is_text "heartbeat" (get_or "event" null obj)) now s,
  to_stdout (object obj) ∷ to_clients (object obj) ∷ [],
)
on_worker_line now ts line (some v) s = (s, to_stdout v ∷ output_line ts line)
on_worker_line now ts line none s = (s, output_line ts line)
