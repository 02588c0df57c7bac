-- ===== src/Supervisor/Commands/Loads.antt =====
-- Which messages of the clients make the worker load a profile.
use ava_listener.Base.{
  Bool-cases, if◌then◌else◌, String, ◌≡◌, refl, sym, ap, ◌∙◌, ◌⊎◌, inl, inr, ◌↔◌, Bool, true, false,
  ◌&&◌, Option, none, some, List, [], ◌∷◌, ◌++◌, str_eq, eq_iff, if_keeps,
}
use mathlib.Core.Path.{subst}
use mathlib.Core.List.{append-nil}
use ava_listener.Config.{
  otherwise, Value, Fields, null, text, bool, number, minus, array, object, empty, field, Outcome,
  returned, raised, get, get_or, ◌>>=◌,
}
use ava_listener.Supervisor.Messages.{Output, to_worker, shut_down, is_text, is_truthy}
use ava_listener.Supervisor.Commands.{
  Services, on_ws_receive, on_type, is_forwarded, worker_receive, path_to_load, diagnostics,
  effective_config, answer_validation, payload_get, active_profile, validated, forward,
}
use ava_listener.Supervisor.Commands.Relay.{effect, forwarded-cases, on_ws_receive-worker_receive}

abbrev pub path_of : Outcome (Option Value) → List Value
path_of (returned (some p)) = p ∷ []
path_of (returned none) = []
path_of (raised e) = []

-- The paths that the worker loads when it gets these messages; an error is logged.
abbrev pub paths_of : List Output → List Value
paths_of [] = []
paths_of (to_worker (object m) ∷ os) = path_of (worker_receive m) ++ paths_of os
paths_of (_ ∷ os) = paths_of os

abbrev pub loads : Outcome (List Output) → List Value
loads (returned os) = paths_of os
loads (raised e) = []

-- A command to load the profile at `p`.
pub record IsLoad (msg : Fields) (p : Value) : Type 0 where
  pub type_ : get "type" msg ≡ some (text "configure")
  pub payload : Fields
  pub has_payload : get "payload" msg ≡ some (object payload)
  pub command : get "command" payload ≡ some (text "load_profile")
  pub path : get "path" payload ≡ some p
  pub truthy : is_truthy p ≡ true

IsSilent : Outcome (List Output) → Type 0
IsSilent o = loads o ≡ []

bind-IsSilent :
    {A : Type 0} (o : Outcome A) (f : A → Outcome (List Output))
    → ((a : A) → IsSilent (f a))
    → IsSilent (o >>= f)
unfolding IsSilent
bind-IsSilent (returned a) f h = h a
bind-IsSilent (raised e) f h = refl

diagnostics-IsSilent :
    (e : Services) (msg : Fields) (req : Value) → IsSilent (diagnostics e msg req)
unfolding effective_config IsSilent
diagnostics-IsSilent e msg req =
    if_keeps IsSilent (is_text "effective_config" req)
      (bind-IsSilent (active_profile e e.profile_path) _ (λ profile. refl))
      (if_keeps (λ os. IsSilent (returned os)) (is_text "metrics" req) refl
        (if_keeps (λ os. IsSilent (returned os)) (is_text "health" req) refl refl))

answer-IsSilent :
    (e : Services) (msg : Fields) (payload : Value) → IsSilent (answer_validation e msg payload)
unfolding answer_validation IsSilent
answer-IsSilent e msg payload =
    bind-IsSilent (payload_get "path" null payload) _
      (λ path. bind-IsSilent (validated e path) _ (λ r. refl))

other-IsSilent :
    (e : Services) (msg : Fields) (payload : Value) (t : String)
    → is_forwarded t ≡ false
    → IsSilent (on_type e msg payload (text t))
unfolding IsSilent
other-IsSilent e msg payload t h = if_keeps IsSilent (str_eq t "handshake") refl (
    if_keeps IsSilent (str_eq t "diagnostics_request")
      (bind-IsSilent (payload_get "type" null payload) (diagnostics e msg)
        (diagnostics-IsSilent e msg))
      (if_keeps IsSilent (str_eq t "validate_profile") (answer-IsSilent e msg payload) (
        if_keeps (λ os. IsSilent (returned os)) (str_eq t "crash_worker")
          (if_keeps (λ os. IsSilent (returned os)) e.has_worker refl refl)
          (subst
            (λ b. IsSilent (
              returned (
                if b
                then forward e t payload
                else if str_eq t "shutdown"
                then shut_down ∷ []
                else [])))
            (sym h) (if_keeps (λ os. IsSilent (returned os)) (str_eq t "shutdown") refl refl)))))

text_of : (s : String) (v : Value) → is_text s v ≡ true → v ≡ text s
text_of s (text t) h = ap text ((eq_iff t s).0 h)
text_of s null h = cc
text_of s (bool b) h = cc
text_of s (number r) h = cc
text_of s (minus r) h = cc
text_of s (array vs) h = cc
text_of s (object d) h = cc

chosen :
    (b : Bool) (v p : Value)
    → path_of (returned (if b then some v else none)) ≡ p ∷ []
    → (b ≡ true) × (v ≡ p)
chosen true v p h = (refl, cc)
chosen false v p h = cc

both : (a b : Bool) → (a && b) ≡ true → (a ≡ true) × (b ≡ true)
both true b h = (refl, h)
both false b h = cc

found_text : (o : Option Value) (s : String) → otherwise null o ≡ text s → o ≡ some (text s)
found_text none s h = cc
found_text (some v) s h = ap some h

found_truthy :
    (o : Option Value) (p : Value) → otherwise null o ≡ p → is_truthy p ≡ true → o ≡ some p
found_truthy none p h t = let e : false ≡ true = subst (λ v. is_truthy v ≡ true) (sym h) t in cc
found_truthy (some v) p h t = ap some h

-- What a payload that is loaded holds.
record Holds (payload : Value) (p : Value) : Type 0 where
  fields : Fields
  is_dict : payload ≡ object fields
  command : get "command" fields ≡ some (text "load_profile")
  path : get "path" fields ≡ some p
  truthy : is_truthy p ≡ true

path_to_load-Holds : (payload p : Value) → path_of (path_to_load payload) ≡ p ∷ [] → Holds payload p
path_to_load-Holds (object d) p h =
    let (b, v) =
      chosen (is_text "load_profile" (get_or "command" null d) && is_truthy (get_or "path" null d))
        (get_or "path" null d) p h in
    let (c, t) = both _ _ b in
    let u : is_truthy p ≡ true = subst (λ w. is_truthy w ≡ true) v t in
    record {
      fields = d;
      is_dict = refl;
      command =
          found_text (get "command" d) "load_profile"
            (text_of "load_profile" (get_or "command" null d) c);
      path = found_truthy (get "path" d) p v u;
      truthy = u;
    }
path_to_load-Holds null p h = cc
path_to_load-Holds (bool b) p h = cc
path_to_load-Holds (number r) p h = cc
path_to_load-Holds (minus r) p h = cc
path_to_load-Holds (text s) p h = cc
path_to_load-Holds (array vs) p h = cc

-- The empty dict that stands for a missing payload has no command.
sent_payload :
    (o : Option Value) (d : Fields) (v : Value)
    → otherwise (object empty) o ≡ object d
    → get "command" d ≡ some v
    → o ≡ some (object d)
unfolding get
sent_payload none empty v h c = cc
sent_payload none (field k w d) v h c = cc
sent_payload (some u) d v h c = ap some h

abbrev payload_of : Fields → Value
payload_of msg = get_or "payload" (object empty) msg

forwarded-loads :
    (e : Services) (msg : Fields) (t : String)
    → e.ipc_ready ≡ true
    → get "type" msg ≡ some (text t)
    → is_forwarded t ≡ true
    → loads (on_ws_receive e msg) ≡ path_of (effect t (payload_of msg))
forwarded-loads e msg t i g f =
    let r = on_ws_receive-worker_receive e msg t i g f in
    ap loads r.0 ∙ ap (λ o. path_of o ++ []) r.1 ∙ append-nil (path_of (effect t (payload_of msg)))

IsLoad-of :
    (e : Services) (msg : Fields) (t : String) (p : Value)
    → e.ipc_ready ≡ true
    → get "type" msg ≡ some (text t)
    → loads (on_ws_receive e msg) ≡ p ∷ []
    → (t ≡ "start") ⊎ ((t ≡ "stop") ⊎ (t ≡ "configure"))
    → IsLoad msg p
IsLoad-of e msg t p i g h (inl s) =
    let k : path_of (effect t (payload_of msg)) ≡ p ∷ [] =
      sym (forwarded-loads e msg t i g (rw s refl)) ∙ h in
    let n : [] ≡ p ∷ [] = subst (λ u. path_of (effect u (payload_of msg)) ≡ p ∷ []) s k in cc
IsLoad-of e msg t p i g h (inr (inl s)) =
    let k : path_of (effect t (payload_of msg)) ≡ p ∷ [] =
      sym (forwarded-loads e msg t i g (rw s refl)) ∙ h in
    let n : [] ≡ p ∷ [] = subst (λ u. path_of (effect u (payload_of msg)) ≡ p ∷ []) s k in cc
IsLoad-of e msg t p i g h (inr (inr s)) =
    let k : path_of (effect t (payload_of msg)) ≡ p ∷ [] =
      sym (forwarded-loads e msg t i g (rw s refl)) ∙ h in
    let y : Holds (payload_of msg) p =
      path_to_load-Holds (payload_of msg) p
        (subst (λ u. path_of (effect u (payload_of msg)) ≡ p ∷ []) s k) in
    record {
      type_ = g ∙ ap (λ u. some (text u)) s;
      payload = y.fields;
      has_payload =
          sent_payload (get "payload" msg) y.fields (text "load_profile") y.is_dict y.command;
      command = y.command;
      path = y.path;
      truthy = y.truthy;
    }

typed :
    (e : Services) (msg : Fields) (p v : Value)
    → e.ipc_ready ≡ true
    → get_or "type" null msg ≡ v
    → loads (on_type e msg (payload_of msg) v) ≡ p ∷ []
    → loads (on_ws_receive e msg) ≡ p ∷ []
    → IsLoad msg p
unfolding IsSilent
typed e msg p (text t) i g k h = elim (Bool-cases (is_forwarded t)) [
  | inl f ↦ IsLoad-of e msg t p i (found_text (get "type" msg) t g) h (forwarded-cases t f)
  | inr f ↦ (let n : [] ≡ p ∷ [] = sym (other-IsSilent e msg (payload_of msg) t f) ∙ k in cc)
]
typed e msg p null i g k h = cc
typed e msg p (bool b) i g k h = cc
typed e msg p (number r) i g k h = cc
typed e msg p (minus r) i g k h = cc
typed e msg p (array vs) i g k h = cc
typed e msg p (object d) i g k h = cc

loaded :
    (e : Services) (msg : Fields) (p : Value)
    → e.ipc_ready ≡ true
    → IsLoad msg p
    → loads (on_ws_receive e msg) ≡ p ∷ []
loaded e msg p i l =
    forwarded-loads e msg "configure" i l.type_ refl
    ∙ ap (λ o. path_of (path_to_load (otherwise (object empty) o))) l.has_payload
    ∙ rw (l.command, l.path, l.truthy) refl

-- With the worker connected, "start" and "stop" with any payload go to the worker as "START" and
-- "STOP" with that payload. A message of a client makes the worker load the profile at a path exactly
-- if it is a "configure" message whose payload is a dict with the command "load_profile" and that
-- path, which counts as true: so neither "start" nor "stop" nor any other message loads anything.
pub on_ws_receive-loads :
    (e : Services) (payload : Value) (msg : Fields) (p : Value)
    → e.ipc_ready ≡ true
    → (on_ws_receive e (field "type" (text "start") (field "payload" payload empty))
        ≡ returned
            (to_worker (object (field "type" (text "START") (field "payload" payload empty))) ∷ []))
      × (on_ws_receive e (field "type" (text "stop") (field "payload" payload empty))
          ≡ returned (
              to_worker (object (field "type" (text "STOP") (field "payload" payload empty))) ∷ []))
      × ((loads (on_ws_receive e msg) ≡ p ∷ []) ↔ IsLoad msg p)
unfolding on_ws_receive get
on_ws_receive-loads e payload msg p i = (
  rw i refl,
  rw i refl,
  ((λ h. typed e msg p (get_or "type" null msg) i refl h h), loaded e msg p i),
)
