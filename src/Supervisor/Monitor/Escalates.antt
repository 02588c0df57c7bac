-- ===== src/Supervisor/Monitor/Escalates.antt =====
-- Which steps of the escalation the monitor of runtime/supervisor/supervisor.py reaches.
use ava_listener.Base.{
  if◌then◌else◌, All, ℕ, ◌≤◌, ◌≡◌, refl, sym, ◌≢◌, ◌⊎◌, inl, inr, false, Option, none, some, List,
  [], ◌∷◌, arith,
}
use mathlib.Core.Path.{subst}
use ava_listener.Supervisor.Restarts.{RestartPolicy}
use ava_listener.Supervisor.Escalation.{
  RecoveryPolicy, worker_restart, provider_reload, runtime_restart, record_failure, current_step,
}
use ava_listener.Supervisor.Monitor.{
  Event, runtime_degraded, worker_fatal, Supervisor, Round, init, supervise, note_failure, act,
  spawn_worker, handle_worker_exit, action_provider_reload, action_runtime_restart, on_exit,
  check_heartbeat, monitor_round, monitor_loop,
}

-- The event is none of the last two steps'.
abbrev pub IsMild : Event → Type 0
IsMild e = (e ≢ runtime_degraded) × (e ≢ worker_fatal)

pub record StaysMild (s : Supervisor) : Type 0 where
  pub few : s.recovery_policy.failures ≤ 2
  pub not_degraded : s.degraded ≡ false
  pub running : s.stopped ≡ false
  pub mild : All IsMild s.emitted

spawn_worker-StaysMild : (r : Round) (s : Supervisor) → StaysMild s → StaysMild (spawn_worker r s)
unfolding spawn_worker
spawn_worker-StaysMild r s h = ground arith

handle_worker_exit-StaysMild :
    (r : Round) (s : Supervisor) → StaysMild s → StaysMild (handle_worker_exit r s)
unfolding handle_worker_exit
handle_worker_exit-StaysMild r s h = ground arith

action_provider_reload-StaysMild :
    (r : Round) (s : Supervisor) → StaysMild s → StaysMild (action_provider_reload r s)
unfolding action_provider_reload
action_provider_reload-StaysMild r s h = ground arith

action_runtime_restart-StaysMild :
    (r : Round) (s : Supervisor)
    → s.degraded ≡ false
    → s.stopped ≡ false
    → All IsMild s.emitted
    → StaysMild (action_runtime_restart r s)
unfolding action_runtime_restart
action_runtime_restart-StaysMild r s d t m = ground arith

-- The step of the n-th failure in a row, for the first three.
current_step-early :
    (p : RecoveryPolicy)
    → p.failures ≤ 2
    → (current_step (record_failure p) ≡ worker_restart) × ((record_failure p).failures ≡ 1)
      ⊎ (current_step (record_failure p) ≡ provider_reload) × ((record_failure p).failures ≡ 2)
      ⊎ (current_step (record_failure p) ≡ runtime_restart)
unfolding current_step record_failure
current_step-early p h = ground arith

-- What the failure leaves as it was.
note_failure-keeps :
    (code : ℕ) (s : Supervisor)
    → StaysMild s
    → ((note_failure code s).recovery_policy ≡ record_failure s.recovery_policy)
      × ((note_failure code s).degraded ≡ false)
      × ((note_failure code s).stopped ≡ false)
      × All IsMild (note_failure code s).emitted
unfolding note_failure
note_failure-keeps code s h =
    (refl, h.not_degraded, h.running, ((λ e. cc, λ e. cc), ((λ e. cc, λ e. cc), h.mild)))

act-StaysMild :
    (r : Round) (p : RecoveryPolicy) (n : Supervisor)
    → p.failures ≤ 2
    → n.recovery_policy ≡ record_failure p
    → n.degraded ≡ false
    → n.stopped ≡ false
    → All IsMild n.emitted
    → StaysMild (act (current_step (record_failure p)) r n)
unfolding act
act-StaysMild r p n few e d t m = elim (current_step-early p few) [
  | inl a ↦ rw a.0 (
      handle_worker_exit-StaysMild r n
        (record { few = simp (e, a.1) (omega arith); not_degraded = d; running = t; mild = m }))
  | inr (inl a) ↦ rw a.0 (
      action_provider_reload-StaysMild r n
        (record { few = simp (e, a.1) (omega arith); not_degraded = d; running = t; mild = m }))
  | inr (inr a) ↦ rw a (action_runtime_restart-StaysMild r n d t m)
]

on_exit-StaysMild :
    (code : ℕ) (r : Round) (s : Supervisor) → StaysMild s → StaysMild (on_exit code r s)
unfolding on_exit
on_exit-StaysMild code r s h =
    let (e, d, t, m) = note_failure-keeps code s h in
    subst (λ q. StaysMild (act (current_step q) r (note_failure code s))) (sym e)
      (act-StaysMild r s.recovery_policy (note_failure code s) h.few e d t m)

check_heartbeat-StaysMild :
    (pid : ℕ) (r : Round) (s : Supervisor) → StaysMild s → StaysMild (check_heartbeat pid r s)
unfolding check_heartbeat
check_heartbeat-StaysMild pid r s h = ground arith

supervise-StaysMild :
    (poll : Option ℕ) (pid : ℕ) (r : Round) (s : Supervisor)
    → StaysMild s
    → StaysMild (supervise poll pid r s)
unfolding supervise
supervise-StaysMild none pid r s h = check_heartbeat-StaysMild pid r s h
supervise-StaysMild (some code) pid r s h = on_exit-StaysMild code r s h

monitor_round-StaysMild : (r : Round) (s : Supervisor) → StaysMild s → StaysMild (monitor_round r s)
unfolding monitor_round
monitor_round-StaysMild r s h = held s.worker_proc
  where
    held : (w : Option ℕ) → StaysMild (elim w [ none ↦ s | some pid ↦ supervise r.poll pid r s ])
    held none = h
    held (some pid) = supervise-StaysMild r.poll pid r s h

monitor_loop-StaysMild :
    (s : Supervisor) (rs : List Round) → StaysMild s → StaysMild (monitor_loop s rs)
unfolding monitor_loop
monitor_loop-StaysMild s [] h = h
monitor_loop-StaysMild s (r ∷ rs) h =
    monitor_loop-StaysMild (if s.stopped then s else monitor_round r s) rs
      (simp h.running (monitor_round-StaysMild r s h))

-- A supervisor that starts fresh never enters degraded mode, never stops itself and never emits
-- `runtime_degraded` or `worker_fatal`, however often its worker exits: the third failure restarts
-- the runtime, which sets the failures back to 0, so the fourth and the fifth step are not reached.
pub last_steps_unreached :
    (timeout : ℕ) (policy : RestartPolicy) (pid : Option ℕ) (rs : List Round)
    → StaysMild (monitor_loop (record (init timeout policy) { worker_proc = pid }) rs)
unfolding init
last_steps_unreached timeout policy pid rs =
    monitor_loop-StaysMild (record (init timeout policy) { worker_proc = pid }) rs
      (record { few = omega arith; not_degraded = refl; running = refl; mild = tt })
