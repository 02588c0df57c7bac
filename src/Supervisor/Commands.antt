-- ===== src/Supervisor/Commands.antt =====
-- The handler of runtime/supervisor/supervisor.py for the messages of the clients, and that of the
-- worker in runtime/worker/worker_process.py. The diagnostics of "metrics" are left out: `metrics` is
-- their result.
pub mod Relay
pub mod Loads
pub mod Flatten
use ava_listener.Base.{
  ◌==◌, if◌then◌else◌, is_empty, ℕ, String, Bool, true, false, not, ◌&&◌, ◌||◌, Option, none, some,
  List, [], ◌∷◌, str_eq,
}
use ava_listener.Base.Ratio.{percent}
use ava_listener.Base.Text.{codes}
use Prim.Native.String.{◌++◌ as str_append}
use ava_listener.Config.{
  Value, Items, Fields, null, bool, number, minus, text, array, object, nil, item, empty, field,
  Error, Outcome, returned, raised, type_error, ◌>>=◌, get, get_or, put,
}
use ava_listener.Config.Profiles.{File, load_profile}
use ava_listener.Config.Validator.{
  rejected, ValidationResult, Warning, Problem, low_threshold, unknown_field, not_json, failed,
  duplicate, validate_profile,
}
use ava_listener.Supervisor.Monitor.{Supervisor}
use ava_listener.Supervisor.Messages.{
  Output, to_stdout, to_clients, to_worker, to_stdin, kill_worker, shut_down, update, is_truthy,
  is_text,
}

unfoldable mutual
  -- `flatten(d, prefix)`: the scalars, each under the path of its keys.
  pub flatten : Fields → String → Fields
  flatten empty prefix = empty
  flatten (field k v d) prefix = update (flat_value v (str_append prefix k)) (flatten d prefix)

  pub flat_value : Value → String → Fields
  flat_value (object d) key = flatten d (str_append key ".")
  flat_value (array vs) key = empty
  flat_value null key = field key null empty
  flat_value (bool b) key = field key (bool b) empty
  flat_value (number r) key = field key (number r) empty
  flat_value (minus r) key = field key (minus r) empty
  flat_value (text s) key = field key (text s) empty

-- What the handler reads: the files, the profile's path and the flag, and what is up.
pub record Services : Type 0 where
  pub disk : String → File
  pub join : String → String → String
  pub dirname : String → String
  pub fuel : ℕ
  pub profile_path : Option String
  pub debug : Bool
  pub ipc_ready : Bool
  pub has_worker : Bool
  pub metrics : Value

abbrev handshake_ack : Value
handshake_ack = object (
    field "type" (text "handshake_ack") (
      field "schemaVersion" (number (percent 100)) (
        field "protocolVersion" (text "1.0")
          (field "manifest" (object empty) (field "capabilities" (object empty) empty)))))

abbrev pub response : String → Fields → Value → Value
response type_ msg result =
    let id : Value = get_or "correlationId" null msg in
    object (
      field "type" (text type_) (
        field "correlationId" id (
          field "payload" (object (field "correlationId" id (field "result" result empty))) empty)))

abbrev pub active_profile : Services → Option String → Outcome Fields
active_profile e none = returned empty
active_profile e (some path) =
    if is_truthy (text path)
    then load_profile e.disk e.join e.dirname e.fuel path e.debug
    else returned empty

unfoldable pub effective_config : Services → Fields → Outcome (List Output)
unfolding load_profile flatten
effective_config e msg = active_profile e e.profile_path >>= λ profile. returned (
    to_clients (
      response "diagnostics_response" msg
        (object (field "values" (object (flatten profile "")) empty)))
    ∷ [])

abbrev pub diagnostics : Services → Fields → Value → Outcome (List Output)
diagnostics e msg req =
    if is_text "effective_config" req
    then effective_config e msg
    else returned (
        if is_text "metrics" req
        then to_clients (response "diagnostics_response" msg e.metrics) ∷ []
        else if is_text "health" req
        then to_clients
            (response "diagnostics_response" msg (object (field "status" (text "healthy") empty)))
          ∷ []
        else [])

-- `payload.get(key)` of a payload that may be no dict.
abbrev pub payload_get : String → Value → Value → Outcome Value
payload_get key d (object payload) = returned (get_or key d payload)
payload_get key d v = raised type_error

abbrev message_of : Problem → Value
message_of not_json = text "Failed to parse JSON"
message_of (failed e) = text "Inheritance error"
message_of (duplicate v) = v

abbrev warning_of : Warning → Value
warning_of (low_threshold v) = v
warning_of (unknown_field k) = text k

abbrev items_of {ℓ} : {A : Type ℓ} → (A → Value) → List A → Items
items_of f [] = nil
items_of f (a ∷ rest) = item (f a) (items_of f rest)

-- A message names what it is about here; its wording is left out.
abbrev pub result_of : ValidationResult → Value
result_of r = object (
    field "valid" (bool r.valid) (
      field "warnings" (array (items_of warning_of r.warnings))
        (field "errors" (array (items_of message_of r.errors)) empty)))

-- A path that is no text cannot be opened.
abbrev validated : Services → Value → Outcome ValidationResult
validated e (text name) = validate_profile e.disk e.join e.dirname e.fuel name
validated e v = returned (rejected not_json)

unfoldable pub answer_validation : Services → Fields → Value → Outcome (List Output)
unfolding validate_profile get
answer_validation e msg payload = payload_get "path" null payload >>= λ path.
    validated e path >>= λ r.
    returned (to_clients (response "validate_profile_response" msg (result_of r)) ∷ [])

-- `msg_type.upper()`, of the types that are forwarded.
abbrev pub upper_of : String → String
upper_of t = if str_eq t "start" then "START" else if str_eq t "stop" then "STOP" else "CONFIGURE"

abbrev pub is_forwarded : String → Bool
is_forwarded t = str_eq t "start" || str_eq t "stop" || str_eq t "configure"

-- To the worker over IPC, or its stdin, where an error is dropped.
abbrev pub on_stdin : Outcome Value → List Output
on_stdin (returned v) = to_stdin v ∷ []
on_stdin (raised e) = []

abbrev pub forward : Services → String → Value → List Output
forward e t payload =
    if e.ipc_ready
    then to_worker (object (field "type" (text (upper_of t)) (field "payload" payload empty))) ∷ []
    else if e.has_worker
    then on_stdin (payload_get "command" (text t) payload)
    else []

-- `_on_ws_receive` on the type of the message, when that is a text; any other does nothing.
abbrev pub on_type : Services → Fields → Value → Value → Outcome (List Output)
on_type e msg payload (text t) =
    if str_eq t "handshake"
    then returned (to_clients handshake_ack ∷ [])
    else if str_eq t "diagnostics_request"
    then payload_get "type" null payload >>= diagnostics e msg
    else if str_eq t "validate_profile"
    then answer_validation e msg payload
    else returned (
        if str_eq t "crash_worker"
        then if e.has_worker then kill_worker ∷ [] else []
        else if is_forwarded t
        then forward e t payload
        else if str_eq t "shutdown"
        then shut_down ∷ []
        else [])
on_type e msg payload v = returned []

unfoldable pub on_ws_receive : Services → Fields → Outcome (List Output)
unfolding effective_config answer_validation get
on_ws_receive e msg = on_type e msg (get_or "payload" (object empty) msg) (get_or "type" null msg)

abbrev pub path_to_load : Value → Outcome (Option Value)
path_to_load (object payload) = returned (
    if is_text "load_profile" (get_or "command" null payload)
      && is_truthy (get_or "path" null payload)
    then some (get_or "path" null payload)
    else none)
path_to_load v = raised type_error

-- `_on_ipc_receive` of the worker: the path of the profile that it loads, if it loads one.
unfoldable pub worker_receive : Fields → Outcome (Option Value)
unfolding get
worker_receive msg =
    if is_text "CONFIGURE" (get_or "type" null msg)
    then path_to_load (get_or "payload" (object empty) msg)
    else returned none
