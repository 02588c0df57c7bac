-- ===== src/Events.antt =====
-- `TelemetryDispatcher` of runtime/telemetry/events.py: many threads put events into a queue of a fixed
-- size, and one worker takes them out. Each call of the queue is one step, so that the steps of
-- emitters and worker may come in any order: `emit` is one step if there is room, and otherwise goes
-- on with `make_room` and `put_again`.
pub mod Kept
use ava_listener.Base.{
  ltb, if◌then◌else◌, length, ℕ, zero, suc, ◌+◌, Bool, true, false, Option, none, some, List, [],
  ◌∷◌, ◌++◌,
}

abbrev pub maxsize : ℕ
maxsize = 1000

-- Besides the queue and the count: the events of the emitters whose put has raised Full (`waiting`) and
-- of those who have then taken the oldest event out (`holding`). The rest says where events have gone:
-- `logged` and `failed` by the worker, `displaced` by an emitter, `given_up` in the handler of an
-- emitter for which there was nothing to take, `squeezed_out` in that of one for which the queue was
-- full again.
pub record Dispatcher (A : Type 0) : Type 0 where
  pub queue : List A
  pub dropped_count : ℕ
  pub waiting : List A
  pub holding : List A
  pub logged : List A
  pub failed : List A
  pub displaced : List A
  pub given_up : List A
  pub squeezed_out : List A

-- An emitter is known by its position among those that wait or hold. `works true` writes the event,
-- and in `works false` writing it raises an error.
pub data Action (A : Type 0) : Type 0 where
  emits : A → Action A
  makes_room puts_again : ℕ → Action A
  works : Bool → Action A

module _ {A : Type 0} where
  unfoldable pub new_dispatcher : Dispatcher A
  new_dispatcher = record {
    queue = [];
    dropped_count = 0;
    waiting = [];
    holding = [];
    logged = [];
    failed = [];
    displaced = [];
    given_up = [];
    squeezed_out = [];
  }

  abbrev pub taken : Bool → List A → Dispatcher A → Dispatcher A
  taken b [] d = d
  taken true (e ∷ es) d = record d { queue = es; logged = e ∷ d.logged }
  taken false (e ∷ es) d = record d { queue = es; failed = e ∷ d.failed }

  -- A round of the worker: an empty queue changes nothing, and an error is logged.
  unfoldable pub work : Bool → Dispatcher A → Dispatcher A
  work written d = taken written d.queue d

  -- `emit` up to its first `put_nowait`.
  unfoldable pub emit : A → Dispatcher A → Dispatcher A
  emit e d =
      if ltb (length d.queue) maxsize
      then record d { queue = d.queue ++ e ∷ [] }
      else record d { waiting = d.waiting ++ e ∷ [] }

  -- The element at a position, and the others.
  abbrev pub put_front : A → Option (A × List A) → Option (A × List A)
  put_front x none = none
  put_front x (some (e, es)) = some (e, x ∷ es)

  unfoldable pub pick : ℕ → List A → Option (A × List A)
  pick n [] = none
  pick zero (x ∷ xs) = some (x, xs)
  pick (suc n) (x ∷ xs) = put_front x (pick n xs)

  abbrev pub displace : A → List A → List A → Dispatcher A → Dispatcher A
  displace e rest [] d = record d { waiting = rest; given_up = e ∷ d.given_up }
  displace e rest (old ∷ es) d = record d {
    waiting = rest;
    holding = e ∷ d.holding;
    queue = es;
    displaced = old ∷ d.displaced;
  }

  -- The `get_nowait` in the handler: it raises if the queue is empty by then.
  unfoldable pub make_room : ℕ → Dispatcher A → Dispatcher A
  unfolding pick
  make_room n d = elim (pick n d.waiting) [ none ↦ d | some (e, rest) ↦ displace e rest d.queue d ]

  abbrev pub replaced : A → List A → Dispatcher A → Dispatcher A
  replaced e rest d =
      if ltb (length d.queue) maxsize
      then record d {
        queue = d.queue ++ e ∷ [];
        holding = rest;
        dropped_count = d.dropped_count + 1;
      }
      else record d { holding = rest; squeezed_out = e ∷ d.squeezed_out }

  -- The `put_nowait` in the handler: it raises if others have filled the queue again.
  unfoldable pub put_again : ℕ → Dispatcher A → Dispatcher A
  unfolding pick
  put_again n d = elim (pick n d.holding) [ none ↦ d | some (e, rest) ↦ replaced e rest d ]

  unfoldable pub act : Action A → Dispatcher A → Dispatcher A
  unfolding emit make_room put_again work
  act (emits e) d = emit e d
  act (makes_room n) d = make_room n d
  act (puts_again n) d = put_again n d
  act (works written) d = work written d

  unfoldable pub act_all : List (Action A) → Dispatcher A → Dispatcher A
  unfolding act
  act_all [] d = d
  act_all (a ∷ actions) d = act_all actions (act a d)
