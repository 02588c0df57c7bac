-- ===== src/Transport/Handler.antt =====
-- runtime/transport/stream/handler.py: how the worker emits an event. Over IPC the event's name
-- becomes the type of the message; `upper` is `str.upper`. The rounding, the clock and the heartbeat
-- thread are left out.
pub mod Events
use ava_listener.Base.{if◌then◌else◌, String, Bool, true, Option, none, some, str_eq}
use ava_listener.Config.{Value, Fields, null, text, object, empty, field, get, get_or}
use ava_listener.Supervisor.Messages.{is_truthy}

-- `d.pop(key, None)`: what is left.
unfoldable pub remove : String → Fields → Fields
remove key empty = empty
remove key (field k v d) = let rest = remove key d in if str_eq k key then d else field k v rest

-- An event goes to the supervisor, or to stdout.
pub data Sent : Type 0 where
  over_ipc on_stdout : Fields → Sent

module _ (upper : String → String) where
  -- The type of the message: the error of a name that is no text ends in the fallback.
  abbrev pub ipc_type : Value → Option String
  ipc_type (text t) = if is_truthy (text t) then some (upper t) else some "DIAGNOSTICS"
  ipc_type v = if is_truthy v then none else some "DIAGNOSTICS"

  abbrev pub wrapped : Option String → Fields → Option Fields
  wrapped none obj = none
  wrapped (some t) obj = some (field "type" (text t) (field "payload" (object obj) empty))

  -- The message for the supervisor, if there is one.
  unfoldable pub ipc_message : Fields → Option Fields
  unfolding remove get
  ipc_message payload = wrapped (ipc_type (get_or "event" null payload)) (remove "event" payload)

  abbrev pub try_ipc : Bool → Option Fields → Fields → Sent
  try_ipc true (some m) payload = over_ipc m
  try_ipc b o payload = on_stdout payload

  -- `_emit`; `delivered` says whether there is a client and its `send` succeeds.
  unfoldable pub emit_event : Bool → Fields → Sent
  unfolding ipc_message
  emit_event delivered payload = try_ipc delivered (ipc_message payload) payload

-- The events of the engine. The numbers are given rounded.
unfoldable pub wake_event : String → Value → Value → Value → Value → Fields
wake_event phrase raw smooth latency ts = field "event" (text "wake") (
    field "phrase" (text phrase) (
      field "raw_confidence" raw
        (field "smooth_confidence" smooth (field "latency_ms" latency (field "ts" ts empty)))))

unfoldable pub status_event : String → String → Value → Fields
status_event status detail ts =
    field "event" (text "status")
      (field "status" (text status) (field "detail" (text detail) (field "ts" ts empty)))

unfoldable pub error_event : String → Value → Fields
error_event message ts =
    field "event" (text "error") (field "message" (text message) (field "ts" ts empty))

unfoldable pub heartbeat_event : Value → Value → Fields
heartbeat_event uptime ts =
    field "event" (text "heartbeat") (field "uptime_s" uptime (field "ts" ts empty))
