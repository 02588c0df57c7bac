-- ===== src/Supervisor/Monitor/Crashes.antt =====
-- A worker that crashes again and again under the monitor of runtime/supervisor/supervisor.py.
use ava_listener.Base.{
  length, length-append, All, ℕ, zero, suc, ◌+◌, ◌≤◌, ◌<◌, ◌≡◌, refl, sym, ap, ◌∙◌, Bool, true,
  false, none, some, Option, List, [], ◌∷◌, ◌++◌, arith, lt→ltb, if◌then◌else◌,
}
use mathlib.Core.Path.{subst}
use ava_listener.Supervisor.Restarts.{create, can_restart, record_restart, expire}
use ava_listener.Supervisor.Escalation.{
  RecoveryPolicy, record_failure, current_step, worker_restart, provider_reload, runtime_restart,
}
use ava_listener.Supervisor.Monitor.{
  init, spawn_worker, on_exit, note_failure, emit, act, Supervisor, Round, handle_worker_exit,
  action_runtime_restart, action_provider_reload, supervise, monitor_round, monitor_loop,
  provider_reload_ipc_sent, provider_reload_requested,
}

-- The process of the last round, or the first one.
abbrev pub last_pid : Option ℕ → List Round → Option ℕ
last_pid p [] = p
last_pid p (r ∷ rs) = last_pid r.pid rs

-- The worker has exited, and a process can be spawned.
abbrev pub IsCrash : Round → Type 0
IsCrash r = (code : ℕ) × (new : ℕ) × (r.poll ≡ some code) × (r.pid ≡ some new)

length-expire : (now w : ℕ) (ts : List ℕ) → length (expire now w ts) ≤ length ts
unfolding expire
length-expire now w [] = omega arith
length-expire now w (t ∷ ts) = ground (arith, length-expire now w ts)

-- Restarts that the policy still allows cover the exits up to the third in a row.
record IsCovered (s : Supervisor) : Type 0 where
  few : s.recovery_policy.failures ≤ 2
  room :
      length s.restart_policy.timestamps + 2
      ≤ s.restart_policy.max_restarts + s.recovery_policy.failures
  going : s.stopped ≡ false

-- What an exit that is answered by a restart of the worker leaves.
record Answered (r : Round) (s t : Supervisor) : Type 0 where
  proc : t.worker_proc ≡ r.pid
  failures : t.recovery_policy ≡ s.recovery_policy
  used : length t.restart_policy.timestamps ≤ length s.restart_policy.timestamps + 1
  bound : t.restart_policy.max_restarts ≡ s.restart_policy.max_restarts
  going : t.stopped ≡ s.stopped

answered :
    (r : Round) (s : Supervisor) (new : ℕ)
    → r.pid ≡ some new
    → length s.restart_policy.timestamps < s.restart_policy.max_restarts
    → Answered r s (handle_worker_exit r s)
unfolding handle_worker_exit can_restart record_restart spawn_worker emit
answered r s new p h =
    let kept : List ℕ = expire r.asked_at s.restart_policy.window s.restart_policy.timestamps in
    let short : length kept ≤ length s.restart_policy.timestamps =
      length-expire r.asked_at s.restart_policy.window s.restart_policy.timestamps in
    rw (lt→ltb (length kept) s.restart_policy.max_restarts (omega arith), p)
      (record {
        proc = refl;
        failures = refl;
        used = omega (
          arith,
          short,
          length-append kept (r.recorded_at ∷ []),
          length-expire r.recorded_at s.restart_policy.window (kept ++ r.recorded_at ∷ []),
        );
        bound = refl;
        going = refl;
      })

Next : Round → Supervisor → Type 0
Next r t = (t.worker_proc ≡ r.pid) × IsCovered t

-- The first and the second exit use one restart each.
restarted :
    (r : Round) (s t u : Supervisor)
    → u.restart_policy ≡ s.restart_policy
    → u.recovery_policy ≡ record_failure s.recovery_policy
    → u.stopped ≡ s.stopped
    → s.recovery_policy.failures ≤ 1
    → IsCovered s
    → Answered r u t
    → Next r t
unfolding Next record_failure
restarted r s t u e f g k h a =
    let n : t.recovery_policy.failures ≡ suc s.recovery_policy.failures =
      ap (λ p. p.failures) (a.failures ∙ f) ∙ omega (arith, k) in
    (
      a.proc,
      record {
        few = omega (arith, n, k);
        room = omega (
          arith,
          n,
          a.used,
          a.bound,
          ap (λ p. length p.timestamps) e,
          ap (λ p. p.max_restarts) e,
          h.room,
        );
        going = a.going ∙ g ∙ h.going;
      },
    )

-- The third begins with a fresh policy.
renewed :
    (r : Round) (s : Supervisor) (new : ℕ)
    → r.pid ≡ some new
    → s.stopped ≡ false
    → Next r (action_runtime_restart r s)
unfolding Next action_runtime_restart spawn_worker emit create
renewed r s new p h = rw p (refl, record { few = omega arith; room = omega arith; going = h })

abbrev IsHeld : Supervisor → Type 0
IsHeld s = (pid : ℕ) × (s.worker_proc ≡ some pid)

first_step :
    (p : RecoveryPolicy) → p.failures ≡ 0 → current_step (record_failure p) ≡ worker_restart
unfolding current_step record_failure
first_step p h = rw h refl

second_step :
    (p : RecoveryPolicy) → p.failures ≡ 1 → current_step (record_failure p) ≡ provider_reload
unfolding current_step record_failure
second_step p h = rw h refl

third_step :
    (p : RecoveryPolicy) → p.failures ≡ 2 → current_step (record_failure p) ≡ runtime_restart
unfolding current_step record_failure
third_step p h = rw h refl

sent :
    (b : Bool) (r : Round) (s : Supervisor) (new : ℕ)
    → r.pid ≡ some new
    → length s.restart_policy.timestamps < s.restart_policy.max_restarts
    → Answered r s (
        handle_worker_exit r (
          if b
          then emit provider_reload_ipc_sent (emit provider_reload_requested s)
          else emit provider_reload_requested s))
unfolding emit
sent true r s new p h =
    let a = answered r (emit provider_reload_ipc_sent (emit provider_reload_requested s)) new p h in
    record { proc = a.proc; failures = a.failures; used = a.used; bound = a.bound; going = a.going }
sent false r s new p h =
    let a = answered r (emit provider_reload_requested s) new p h in
    record { proc = a.proc; failures = a.failures; used = a.used; bound = a.bound; going = a.going }

reloaded :
    (r : Round) (s : Supervisor) (new : ℕ)
    → r.pid ≡ some new
    → length s.restart_policy.timestamps < s.restart_policy.max_restarts
    → Answered r s (action_provider_reload r s)
unfolding action_provider_reload emit
reloaded r s new p h = sent r.ipc_sent r s new p h

exit-Next :
    (code new : ℕ) (r : Round) (s : Supervisor) (f : ℕ)
    → s.recovery_policy.failures ≡ f
    → r.pid ≡ some new
    → IsCovered s
    → Next r (on_exit code r s)
unfolding on_exit note_failure emit act
exit-Next code new r s zero f p h =
    let u : Supervisor = note_failure code s in
    subst (λ step. Next r (act step r u)) (sym (first_step s.recovery_policy f))
      (restarted r s (handle_worker_exit r u) u refl refl refl (omega arith) h
        (answered r u new p (omega (arith, h.room, f))))
exit-Next code new r s (suc zero) f p h =
    let u : Supervisor = note_failure code s in
    subst (λ step. Next r (act step r u)) (sym (second_step s.recovery_policy f))
      (restarted r s (action_provider_reload r u) u refl refl refl (omega arith) h
        (reloaded r u new p (omega (arith, h.room, f))))
exit-Next code new r s (suc (suc zero)) f p h =
    let u : Supervisor = note_failure code s in
    subst (λ step. Next r (act step r u)) (sym (third_step s.recovery_policy f))
      (renewed r u new p h.going)
exit-Next code new r s (suc (suc (suc n))) f p h = absurd (omega (arith, f, h.few))

next-Next :
    (r : Round) (s : Supervisor) → IsCrash r → IsHeld s → IsCovered s → Next r (monitor_round r s)
unfolding monitor_round supervise
next-Next r s (code, new, e, p) (pid, w) h =
    subst (λ o. Next r (elim o [ none ↦ s | some q ↦ supervise r.poll q r s ])) (sym w)
      (subst (λ q. Next r (supervise q pid r s)) (sym e)
        (exit-Next code new r s s.recovery_policy.failures refl p h))

pub run_on :
    (s : Supervisor) (r : Round) (rs : List Round)
    → s.stopped ≡ false
    → monitor_loop s (r ∷ rs) ≡ monitor_loop (monitor_round r s) rs
unfolding monitor_loop
run_on s r rs h = ap (λ b. monitor_loop (if b then s else monitor_round r s) rs) h

crashed :
    (s : Supervisor) (rs : List Round)
    → IsHeld s
    → IsCovered s
    → All IsCrash rs
    → (monitor_loop s rs).worker_proc ≡ last_pid s.worker_proc rs
unfolding monitor_loop Next
crashed s [] k h c = refl
crashed s (r ∷ rs) k h ((code, new, e, p), c) =
    let n : Next r (monitor_round r s) = next-Next r s (code, new, e, p) k h in
    ap (λ t. t.worker_proc) (run_on s r rs h.going)
    ∙ crashed (monitor_round r s) rs (new, n.0 ∙ p) n.1 c
    ∙ ap (λ o. last_pid o rs) n.0

-- A worker that exits in every round, however fast, is replaced in every round, as long as a
-- process can be spawned and the restart policy was configured with two restarts or more: after any
-- number of exits the process of the last round is held, and the supervisor never gives up. Each
-- third exit in a row begins a policy anew.
pub monitor_loop-crashes :
    (timeout max window pid : ℕ) (rs : List Round)
    → 2 ≤ max
    → All IsCrash rs
    → (monitor_loop
        (record (init timeout (create max window)) { worker_proc = some pid })
        rs).worker_proc
      ≡ last_pid (some pid) rs
unfolding init create
monitor_loop-crashes timeout max window pid rs m c =
    crashed (record (init timeout (create max window)) { worker_proc = some pid }) rs (pid, refl)
      (record { few = omega arith; room = omega arith; going = refl }) c
