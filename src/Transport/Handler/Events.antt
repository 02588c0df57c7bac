-- ===== src/Transport/Handler/Events.antt =====
-- An event of the worker, on its way to the clients.
use ava_listener.Base.{
  if◌then◌else◌, ℕ, String, ◌≡◌, refl, sym, ap, ◌∙◌, Bool, true, false, Option, none, some, List,
  [], ◌∷◌, arith, str_eq, eq_iff, if_keeps,
}
use ava_listener.Config.{
  otherwise, Value, Fields, null, text, object, empty, field, get, put, get-put,
}
use ava_listener.Config.Profiles.Merge.{IsDict, or_else, or_else-none}
use ava_listener.Supervisor.Messages.{
  payload_of, event_with, is_truthy, update, event_of, announce, out_object, on_ipc_receive, Output,
  to_stdout, to_clients,
}
use ava_listener.Supervisor.Monitor.{Supervisor}
use ava_listener.Transport.Handler.{try_ipc, wrapped, ipc_type, over_ipc, remove, emit_event}

-- A removed key is missing, and the others stay.
get-remove :
    (j key : String) (d : Fields)
    → IsDict d
    → get j (remove key d) ≡ (if str_eq key j then none else get j d)
unfolding remove get IsDict
get-remove j key empty h = if_keeps (λ (o : Option Value). none ≡ o) (str_eq key j) refl refl
get-remove j key (field k v d) h =
    ground (arith, eq_iff k key, eq_iff key j, eq_iff k j, get-remove j key d h.1, h.0)

updated_key :
    (b : Bool) (j k : String) (v : Value) (d e : Fields)
    → str_eq k j ≡ b
    → get k e ≡ none
    → or_else (get j e) (if b then some v else get j d)
      ≡ or_else (if b then some v else get j e) (get j d)
updated_key true j k v d e f h = rw (sym ((eq_iff k j).0 f), h)
updated_key false j k v d e f h = refl

get-update :
    (j : String) (d e : Fields) → IsDict e → get j (update d e) ≡ or_else (get j e) (get j d)
unfolding update get IsDict
get-update j d empty h = refl
get-update j d (field k v e) h =
    get-update j (put k v d) e h.1
    ∙ ap (or_else (get j e)) (get-put j k v d)
    ∙ updated_key (str_eq k j) j k v d e refl h.0

-- The types that the supervisor turns back into the events `name`.
pub data IsRelayed : String → String → Type 0 where
  heartbeat : IsRelayed "HEARTBEAT" "heartbeat"
  status : IsRelayed "STATUS" "status"
  wake : IsRelayed "WAKE" "wake"
  error : IsRelayed "ERROR" "error"
  diagnostics : IsRelayed "DIAGNOSTICS" "diagnostics"

event_of-IsRelayed : (t name : String) → IsRelayed t name → event_of (text t) ≡ some name
event_of-IsRelayed t name heartbeat = refl
event_of-IsRelayed t name status = refl
event_of-IsRelayed t name wake = refl
event_of-IsRelayed t name error = refl
event_of-IsRelayed t name diagnostics = refl

abbrev restored : String → Fields → Fields
restored name payload = update (field "event" (text name) empty) (remove "event" payload)

remove-IsDict : (key : String) (d : Fields) → IsDict d → IsDict (remove key d)
unfolding remove IsDict get
remove-IsDict key empty h = tt
remove-IsDict key (field k v d) h = if_keeps IsDict (str_eq k key) h.1 (
  get-remove k key d h.1 ∙ if_keeps (λ (o : Option Value). o ≡ none) (str_eq key k) refl h.0,
  remove-IsDict key d h.1,
)

restored_key :
    (b : Bool) (j name : String) (payload : Fields)
    → str_eq "event" j ≡ b
    → get "event" payload ≡ some (text name)
    → or_else (if b then none else get j payload) (if b then some (text name) else none)
      ≡ get j payload
restored_key true j name payload f e = sym e ∙ ap (λ k. get k payload) ((eq_iff "event" j).0 f)
restored_key false j name payload f e = sym (or_else-none (get j payload))

get-restored :
    (j name : String) (payload : Fields)
    → IsDict payload
    → get "event" payload ≡ some (text name)
    → get j (restored name payload) ≡ get j payload
unfolding get
get-restored j name payload h e =
    get-update j (field "event" (text name) empty) (remove "event" payload)
      (remove-IsDict "event" payload h)
    ∙ ap (λ o. or_else o (get j (field "event" (text name) empty))) (get-remove j "event" payload h)
    ∙ restored_key (str_eq "event" j) j name payload refl e

truthy-IsRelayed : (t name : String) → IsRelayed t name → is_truthy (text name) ≡ true
truthy-IsRelayed t name heartbeat = refl
truthy-IsRelayed t name status = refl
truthy-IsRelayed t name wake = refl
truthy-IsRelayed t name error = refl
truthy-IsRelayed t name diagnostics = refl

-- A dict that is false in a condition is empty.
object_or_empty :
    (d : Fields) → (if is_truthy (object d) then object d else object empty) ≡ object d
object_or_empty empty = refl
object_or_empty (field k v d) = refl

-- The message of the worker.
abbrev pub message : String → Fields → Fields
message t payload = field "type" (text t) (field "payload" (object (remove "event" payload)) empty)

module _ (upper : String → String) where
  emitted :
      (payload : Fields) (name : String)
      → get "event" payload ≡ some (text name)
      → is_truthy (text name) ≡ true
      → emit_event upper true payload ≡ over_ipc (message (upper name) payload)
  unfolding emit_event
  emitted payload name e h =
      let rest : Fields = remove "event" payload in
      ap (λ o. try_ipc upper true (wrapped upper (ipc_type upper (otherwise null o)) rest) payload)
        e
      ∙ ap
          (λ b.
            try_ipc upper true
              (wrapped upper (if b then some (upper name) else some "DIAGNOSTICS") rest) payload)
          h

  relayed :
      (now : ℕ) (ts : Value) (s : Supervisor) (t name : String) (payload : Fields)
      → IsRelayed t name
      → (on_ipc_receive now ts (message t payload) s).1 ≡ announce (some (restored name payload))
  unfolding on_ipc_receive get
  relayed now ts s t name payload r =
      ap (λ o. announce (out_object o (text t) (payload_of (message t payload)) ts))
        (event_of-IsRelayed t name r)
      ∙ ap (λ v. announce (event_with name v)) (object_or_empty (remove "event" payload))

  -- What the supervisor tells stdout and the clients of an event `d`.
  abbrev pub told : String → Fields → List Output
  told name d =
      to_stdout (object d)
      ∷ to_clients (object (field "type" (text name) (field "payload" (object d) empty)))
      ∷ []

  -- An event that the worker emits over IPC comes out of the supervisor as it went in: stdout and
  -- the clients get a dict with the same value under every key, the clients in an envelope of the
  -- event's type. This holds for the events whose types the supervisor knows.
  pub on_ipc_receive-emit_event :
      (payload : Fields) (name : String) (now : ℕ) (ts : Value) (s : Supervisor)
      → IsDict payload
      → get "event" payload ≡ some (text name)
      → IsRelayed (upper name) name
      → (m : Fields) × (d : Fields) × (emit_event upper true payload ≡ over_ipc m)
        × ((on_ipc_receive now ts m s).1 ≡ told name d)
        × ((j : String) → get j d ≡ get j payload)
  on_ipc_receive-emit_event payload name now ts s h e r =
      let d : Fields = restored name payload in
      let kept : (j : String) → get j d ≡ get j payload = λ j. get-restored j name payload h e in
      (
        message (upper name) payload,
        d,
        emitted payload name e (truthy-IsRelayed (upper name) name r),
        relayed now ts s (upper name) name payload r
            ∙ ap
                (λ o.
                  to_stdout (object d)
                  ∷ to_clients
                      (object (field "type" (otherwise null o) (field "payload" (object d) empty)))
                  ∷ [])
                (kept "event" ∙ e),
        kept,
      )
