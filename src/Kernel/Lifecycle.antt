-- ===== src/Kernel/Lifecycle.antt =====
-- runtime/kernel/lifecycle.py: the states of a subsystem, the table of its transitions, and the
-- state machine of the runtime, which is driven by the names of events.
pub mod Graph
use ava_listener.Base.{
  ◌==◌, if◌then◌else◌, ℕ, String, Bool, true, false, not, ◌&&◌, ◌||◌, Option, none, some, str_eq,
}

pub data SubsystemState : Type 0 where
  offline initializing ready active faulted recovering : SubsystemState

abbrev index : SubsystemState → ℕ
index offline = 0
index initializing = 1
index ready = 2
index active = 3
index faulted = 4
index recovering = 5

abbrev pub same : SubsystemState → SubsystemState → Bool
same s t = index s == index t

-- `VALID_SUBSYSTEM_TRANSITIONS`: is the target in the row of the state?
pub valid : SubsystemState → SubsystemState → Bool
valid offline initializing = true
valid initializing ready = true
valid initializing faulted = true
valid ready active = true
valid ready offline = true
valid active ready = true
valid active faulted = true
valid faulted recovering = true
valid faulted offline = true
valid recovering active = true
valid recovering faulted = true
valid _ _ = false

-- `none` is the ValueError of an illegal transition, which leaves the state as it was.
unfoldable pub transition : SubsystemState → SubsystemState → Option SubsystemState
unfolding valid
transition state target =
    if not (same target state) && not (valid state target) then none else some target

-- The first half of `shutdown`: the step to a state from which OFFLINE is allowed.
abbrev wind_down : SubsystemState → Option SubsystemState
wind_down initializing = transition initializing ready
wind_down active = transition active ready
wind_down recovering = transition recovering faulted
wind_down s = some s

abbrev switch_off : SubsystemState → Option SubsystemState
switch_off ready = transition ready offline
switch_off faulted = transition faulted offline
switch_off s = some s

abbrev chain :
    Option SubsystemState → (SubsystemState → Option SubsystemState) → Option SubsystemState
chain none f = none
chain (some s) f = f s

unfoldable pub shutdown : SubsystemState → Option SubsystemState
unfolding transition
shutdown offline = some offline
shutdown s = chain (wind_down s) switch_off

abbrev fault_first : SubsystemState → Option SubsystemState
fault_first active = transition active faulted
fault_first s = some s

abbrev then_recover : SubsystemState → Option SubsystemState
then_recover faulted = transition faulted recovering
then_recover s = some s

unfoldable pub recover : SubsystemState → Option SubsystemState
unfolding transition
recover s = chain (fault_first s) then_recover

pub data RuntimeState : Type 0 where
  idle listening speech_detected candidate_tracking wake_confirmed cooldown runtime_recovering
        error :
      RuntimeState

-- `transition_map.get(event, self.state)`: an event that is not in the map changes nothing.
unfoldable pub runtime_transition : RuntimeState → String → RuntimeState
runtime_transition state event =
    if str_eq event "start"
      || str_eq event "candidate_dropped"
      || str_eq event "ready"
      || str_eq event "reset"
    then listening
    else if str_eq event "speech_start"
    then speech_detected
    else if str_eq event "candidate_started" || str_eq event "candidate_updated"
    then candidate_tracking
    else if str_eq event "candidate_confirmed"
    then wake_confirmed
    else if str_eq event "cooldown"
    then cooldown
    else if str_eq event "recovery"
    then runtime_recovering
    else if str_eq event "error"
    then error
    else state
