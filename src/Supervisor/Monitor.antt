-- ===== src/Supervisor/Monitor.antt =====
-- The monitor loop of runtime/supervisor/supervisor.py and the recovery actions that it takes.
-- What the operating system and the clock answer in one round is a `Round`; the pipes, sockets and
-- sleeps are left out. `emitted` holds the events on stdout, the newest first.
pub mod Escalates
pub mod GivesUp
pub mod Crashes
pub mod Stale
use ava_listener.Base.{
  ltb, if◌then◌else◌, ℕ, ◌-◌, Bool, true, false, Option, none, some, List, [], ◌∷◌,
}
use ava_listener.Supervisor.Restarts.{RestartPolicy, create, record_restart, can_restart}
use ava_listener.Supervisor.Escalation.{
  Step, worker_restart, provider_reload, runtime_restart, degraded_mode, fatal, RecoveryPolicy,
  fresh, record_failure, current_step, next_backoff_ms,
}

pub data Event : Type 0 where
  worker_exited : ℕ → Event
  recovery_step : Step → ℕ → Event
  worker_started : ℕ → Event
  worker_terminating : ℕ → Event
  worker_heartbeat_stale : ℕ → Event
  worker_restart_throttled provider_reload_requested provider_reload_ipc_sent : Event
  runtime_restarted runtime_degraded worker_fatal supervisor_stopped : Event

pub record Supervisor : Type 0 where
  pub heartbeat_timeout : ℕ
  pub restart_policy : RestartPolicy
  pub recovery_policy : RecoveryPolicy
  pub degraded : Bool
  pub worker_proc : Option ℕ  -- the pid of the process that is held, alive or not
  pub last_heartbeat : ℕ
  pub stopped : Bool  -- `_stop_event`
  pub emitted : List Event

-- What a round of the loop reads from outside.
pub record Round : Type 0 where
  pub poll : Option ℕ  -- the exit code of the worker, once it has exited
  pub now : ℕ  -- the clock at the heartbeat test
  pub asked_at : ℕ  -- the clock in `can_restart`
  pub recorded_at : ℕ  -- the clock in `record_restart`
  pub spawned_at : ℕ  -- the clock after the spawn
  pub pid : Option ℕ  -- the new process; none if `Popen` raises
  pub ipc_sent : Bool  -- the reload request went out
  pub terminated : Bool  -- terminating the worker raised nothing

emit : Event → Supervisor → Supervisor
emit e s = record s { emitted = e ∷ s.emitted }

unfoldable pub init : ℕ → RestartPolicy → Supervisor
init timeout policy = record {
  heartbeat_timeout = timeout;
  restart_policy = policy;
  recovery_policy = fresh;
  degraded = false;
  worker_proc = none;
  last_heartbeat = 0;
  stopped = false;
  emitted = [];
}

-- If `Popen` raises, the loop's handler logs it and nothing has changed.
pub spawn_worker : Round → Supervisor → Supervisor
unfolding emit
spawn_worker r s = elim r.pid [
  | none ↦ s
  | some p ↦
      emit (worker_started p) (record s { worker_proc = some p; last_heartbeat = r.spawned_at })
]

pub handle_worker_exit : Round → Supervisor → Supervisor
unfolding emit spawn_worker can_restart record_restart
handle_worker_exit r s =
    let (policy, allowed) = can_restart r.asked_at s.restart_policy in
    let s' : Supervisor = record s { worker_proc = none; restart_policy = policy } in
    if allowed
    then spawn_worker r (record s' { restart_policy = record_restart r.recorded_at policy })
    else emit worker_restart_throttled s'

pub action_provider_reload : Round → Supervisor → Supervisor
unfolding emit handle_worker_exit
action_provider_reload r s =
    let s' : Supervisor = emit provider_reload_requested s in
    handle_worker_exit r (if r.ipc_sent then emit provider_reload_ipc_sent s' else s')

-- The failures go back to 0, and the restart policy to one with the default bounds.
pub action_runtime_restart : Round → Supervisor → Supervisor
unfolding emit spawn_worker create
action_runtime_restart r s =
    spawn_worker r
      (record (emit runtime_restarted s) { recovery_policy = fresh; restart_policy = create 5 60 })

pub action_degraded_mode : Supervisor → Supervisor
unfolding emit
action_degraded_mode s = record (emit runtime_degraded s) { degraded = true; stopped = true }

unfoldable pub stop : Supervisor → Supervisor
unfolding emit
stop s = emit supervisor_stopped (record s { stopped = true })

pub action_fatal : Supervisor → Supervisor
unfolding emit stop
action_fatal s = stop (record (emit worker_fatal s) { degraded = true })

pub act : Step → Round → Supervisor → Supervisor
unfolding handle_worker_exit action_provider_reload action_runtime_restart action_degraded_mode
    action_fatal
act worker_restart r s = handle_worker_exit r s
act provider_reload r s = action_provider_reload r s
act runtime_restart r s = action_runtime_restart r s
act degraded_mode r s = action_degraded_mode s
act fatal r s = action_fatal s

-- Record the failure, and report the exit and the step that it leads to.
pub note_failure : ℕ → Supervisor → Supervisor
unfolding emit record_failure current_step next_backoff_ms
note_failure code s =
    let policy : RecoveryPolicy = record_failure s.recovery_policy in
    emit (recovery_step (current_step policy) (next_backoff_ms policy))
      (record (emit (worker_exited code) s) { recovery_policy = policy })

-- A worker that has exited with `code`.
pub on_exit : ℕ → Round → Supervisor → Supervisor
on_exit code r s =
    let s' : Supervisor = note_failure code s in act (current_step s'.recovery_policy) r s'

pub restart_worker : ℕ → Round → Supervisor → Supervisor
unfolding emit record_restart spawn_worker
restart_worker pid r s =
    let s' : Supervisor = emit (worker_terminating pid) s in
    spawn_worker r (
      if r.terminated
      then record s' { restart_policy = record_restart r.recorded_at s'.restart_policy }
      else s')

pub check_heartbeat : ℕ → Round → Supervisor → Supervisor
unfolding emit restart_worker
check_heartbeat pid r s =
    let age : ℕ = r.now - s.last_heartbeat in
    if ltb s.heartbeat_timeout age
    then restart_worker pid r (emit (worker_heartbeat_stale age) s)
    else s

-- The body of the loop, for a worker that is held.
pub supervise : Option ℕ → ℕ → Round → Supervisor → Supervisor
unfolding on_exit check_heartbeat
supervise none pid r s = check_heartbeat pid r s
supervise (some code) pid r s = on_exit code r s

unfoldable pub monitor_round : Round → Supervisor → Supervisor
unfolding supervise
monitor_round r s = elim s.worker_proc [ none ↦ s | some pid ↦ supervise r.poll pid r s ]

-- `while not stop_event.is_set()`, over the rounds that the environment gives.
unfoldable pub monitor_loop : Supervisor → List Round → Supervisor
unfolding monitor_round
monitor_loop s [] = s
monitor_loop s (r ∷ rs) = monitor_loop (if s.stopped then s else monitor_round r s) rs
