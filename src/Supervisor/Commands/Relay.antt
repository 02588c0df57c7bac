-- ===== src/Supervisor/Commands/Relay.antt =====
-- A command of the SDK, from the supervisor's socket to the worker.
use ava_listener.Base.{
  if◌then◌else◌, String, ◌≡◌, refl, sym, ap, ◌∙◌, ◌⊎◌, inl, inr, true, Option, none, some, [], ◌∷◌,
  arith, str_eq, eq_iff,
}
use mathlib.Core.Path.{subst}
use ava_listener.Config.{
  otherwise, Value, Fields, null, text, object, empty, field, Outcome, returned, get, get_or,
}
use ava_listener.Supervisor.Messages.{to_worker}
use ava_listener.Supervisor.Commands.{
  Services, on_ws_receive, on_type, upper_of, is_forwarded, worker_receive, path_to_load,
}

-- The message that goes to the worker.
abbrev pub command : String → Value → Fields
command t payload = field "type" (text (upper_of t)) (field "payload" payload empty)

abbrev pub effect : String → Value → Outcome (Option Value)
effect t payload = if str_eq t "configure" then path_to_load payload else returned none

pub forwarded-cases :
    (t : String) → is_forwarded t ≡ true → (t ≡ "start") ⊎ ((t ≡ "stop") ⊎ (t ≡ "configure"))
forwarded-cases t h = ground (arith, eq_iff t "start", eq_iff t "stop", eq_iff t "configure")

Relayed : Services → Fields → Value → String → Type 0
Relayed e msg payload t =
    (on_type e msg payload (text t) ≡ returned (to_worker (object (command t payload)) ∷ []))
    × (worker_receive (command t payload) ≡ effect t payload)

relay :
    (e : Services) (msg : Fields) (payload : Value) (t : String)
    → e.ipc_ready ≡ true
    → is_forwarded t ≡ true
    → Relayed e msg payload t
unfolding worker_receive get Relayed
relay e msg payload t h k = elim (forwarded-cases t k) [
  | inl f ↦ subst (Relayed e msg payload) (sym f) (rw h, refl)
  | inr (inl f) ↦ subst (Relayed e msg payload) (sym f) (rw h, refl)
  | inr (inr f) ↦ subst (Relayed e msg payload) (sym f) (rw h, refl)
]

-- With the worker connected, the supervisor sends it each "start", "stop" and "configure" message
-- under the type in capitals. Of these the worker acts on "configure" only: it loads the profile
-- that the payload asks for, and a start or a stop changes nothing.
pub on_ws_receive-worker_receive :
    (e : Services) (msg : Fields) (t : String)
    → e.ipc_ready ≡ true
    → get "type" msg ≡ some (text t)
    → is_forwarded t ≡ true
    → (on_ws_receive e msg
        ≡ returned (to_worker (object (command t (get_or "payload" (object empty) msg))) ∷ []))
      × (worker_receive (command t (get_or "payload" (object empty) msg))
          ≡ effect t (get_or "payload" (object empty) msg))
unfolding on_ws_receive Relayed
on_ws_receive-worker_receive e msg t h g k =
    let r : Relayed e msg (get_or "payload" (object empty) msg) t =
      relay e msg (get_or "payload" (object empty) msg) t h k in
    (ap (λ o. on_type e msg (get_or "payload" (object empty) msg) (otherwise null o)) g ∙ r.0, r.1)
